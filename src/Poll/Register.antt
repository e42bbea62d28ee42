-- ===== src/Poll/Register.antt =====
-- What `fd_cb` of xdrpp/pollset.h and pollset.cc does to a set, for each operation and callback.
use cs244b.Base.{
  ℕ, ◌<◌, ◌≡◌, ◌≢◌, refl, sym, ap, ◌∙◌, subst, Bool, true, Option, none, some, ◌==◌, if◌then◌else◌,
  length, Bool-cases, Option-cases, inl, inr, arith,
}
use cs244b.Base.Arrays.{get_elem?, set, get_elem?-set}
use cs244b.Base.Assoc.{find, assign, find-assign, nat_eq}
use cs244b.Poll.{
  Op, read, write, read_write, read_once, write_once, reads, writes, once, Pollfd, FdState, Pollset,
  unwatched, store_entry, fd_cb_helper, cleared, remove_entry, remove_cb, unless_null, fd_cb,
}
use cs244b.Poll.Invariant.{Kept, Agrees, Inv, slot, slots, view}
use cs244b.Poll.Entered.{
  store_entry-store_entry, found-Entered, with_entry-Entered, put_back, put_back-Kept,
}

abbrev watched : Op → Pollfd → Pollfd
watched op p = record p {
  pollin = if reads op then true else p.pollin;
  pollout = if writes op then true else p.pollout;
}

-- The callbacks that a removal leaves are those of a null callback.
unwatched-watched : (op : Op) (p : Pollfd) → unwatched op (watched op p) ≡ unwatched op p
unfolding unwatched
unwatched-watched read p = refl
unwatched-watched write p = refl
unwatched-watched read_write p = refl
unwatched-watched read_once p = refl
unwatched-watched write_once p = refl

at_key :
    {A : Type 0} (k d : ℕ) (v : ℕ → A) (f : A → A) (x : A)
    → x ≡ f (v k)
    → (if k == d then x else v d) ≡ (if k == d then f (v d) else v d)
at_key k d v f x e = elim (Bool-cases (k == d)) [
  | inl same ↦ let i : k ≡ d = ground arith in rw same (e ∙ ap (λ j. f (v j)) i)
  | inr other ↦ rw other refl
]

unchanged_at :
    {A : Type 0} (k d : ℕ) (v : ℕ → A) (f : A → A)
    → v k ≡ f (v k)
    → v d ≡ (if k == d then f (v d) else v d)
unchanged_at k d v f e = elim (Bool-cases (k == d)) [
  | inl same ↦ let i : k ≡ d = ground arith in rw same (ap v (sym i) ∙ e ∙ ap (λ j. f (v j)) i)
  | inr other ↦ rw other refl
]

-- What a user sees of a descriptor behind `fd_cb` for it.
abbrev pub changed :
    {C : Type 0}
    → Op
    → Option C
    → Option (C × Bool) × Option (C × Bool)
    → Option (C × Bool) × Option (C × Bool)
changed op cb (r, w) =
    (if reads op then slot cb (once op) else r, if writes op then slot cb (once op) else w)

module _ {C : Type 0} where
  -- What `fd_cb_helper` stores.
  abbrev registered : Op → Option C → FdState C → FdState C
  registered op cb fs = record fs {
    rcb = if reads op then cb else fs.rcb;
    roneshot = if reads op then once op else fs.roneshot;
    wcb = if writes op then cb else fs.wcb;
    woneshot = if writes op then once op else fs.woneshot;
  }

  fd_cb_helper_lem :
      (fd : ℕ) (op : Op) (cb : Option C) (fs : FdState C) (p : Pollfd) (s : Pollset C)
      → op ≢ read_write
      → fd_cb_helper fd op cb (fs, (p, s))
        ≡ some (store_entry fd (registered op cb fs) (watched op p) s)
  unfolding fd_cb_helper store_entry
  fd_cb_helper_lem fd read cb fs p s h = refl
  fd_cb_helper_lem fd write cb fs p s h = refl
  fd_cb_helper_lem fd read_once cb fs p s h = refl
  fd_cb_helper_lem fd write_once cb fs p s h = refl
  fd_cb_helper_lem fd read_write cb fs p s h = absurd (h refl)

  -- What is stored in the end, the removal of a null callback included.
  abbrev final : Op → Option C → Pollfd → Pollfd
  final op none p = unwatched op p
  final op (some c) p = watched op p

  final-Agrees :
      (op : Op) (cb : Option C) (fs : FdState C) (p : Pollfd)
      → op ≢ read_write
      → Agrees p fs
      → Agrees (final op cb p) (registered op cb fs)
  unfolding unwatched
  final-Agrees read none fs p h a = record { for_read = refl; for_write = a.for_write }
  final-Agrees read (some c) fs p h a = record { for_read = refl; for_write = a.for_write }
  final-Agrees read_once none fs p h a = record { for_read = refl; for_write = a.for_write }
  final-Agrees read_once (some c) fs p h a = record { for_read = refl; for_write = a.for_write }
  final-Agrees write none fs p h a = record { for_read = a.for_read; for_write = refl }
  final-Agrees write (some c) fs p h a = record { for_read = a.for_read; for_write = refl }
  final-Agrees write_once none fs p h a = record { for_read = a.for_read; for_write = refl }
  final-Agrees write_once (some c) fs p h a = record { for_read = a.for_read; for_write = refl }
  final-Agrees read_write cb fs p h a = absurd (h refl)

  final_fd : (op : Op) (cb : Option C) (p : Pollfd) → (final op cb p).fd ≡ p.fd
  unfolding unwatched
  final_fd op none p = refl
  final_fd op (some c) p = refl

  cleared-registered :
      (op : Op) (fs : FdState C) → cleared op (registered op none fs) ≡ registered op none fs
  unfolding cleared
  cleared-registered read fs = refl
  cleared-registered write fs = refl
  cleared-registered read_write fs = refl
  cleared-registered read_once fs = refl
  cleared-registered write_once fs = refl

  remove_cb-store_entry :
      (fd : ℕ) (op : Op) (fs : FdState C) (p : Pollfd) (s : Pollset C)
      → fs.idx < length s.pollfds
      → remove_cb fd op (store_entry fd fs p s)
        ≡ some (store_entry fd (cleared op fs) (unwatched op p) (store_entry fd fs p s))
  unfolding remove_cb remove_entry store_entry
  remove_cb-store_entry fd op fs p s h =
      let there : find fd (assign fd fs s.state) ≡ some fs =
        find-assign fd fd fs s.state ∙ (let z : (fd == fd) ≡ true = ground arith in rw z refl) in
      let at : get_elem? (set s.pollfds fs.idx p) fs.idx ≡ some p =
        get_elem?-set s.pollfds fs.idx fs.idx p h
        ∙ (let z : (fs.idx == fs.idx) ≡ true = ground arith in rw z refl) in
      rw (there, at) refl

  fd_cb-store :
      (fd : ℕ) (op : Op) (cb : Option C) (fs : FdState C) (p : Pollfd) (s : Pollset C)
      → fs.idx < length s.pollfds
      → unless_null fd op cb (store_entry fd (registered op cb fs) (watched op p) s)
        ≡ some (store_entry fd (registered op cb fs) (final op cb p) s)
  unfolding cleared
  fd_cb-store fd op (some c) fs p s h = refl
  fd_cb-store fd op none fs p s h =
      remove_cb-store_entry fd op (registered op none fs) (watched op p) s h
      ∙ rw
          (
            store_entry-store_entry fd (cleared op (registered op none fs)) (registered op none fs)
                (unwatched op (watched op p)) (watched op p) s refl,
            cleared-registered op fs,
            unwatched-watched op p,
          )
          refl

  slots-registered :
      (op : Op) (cb : Option C) (fs : FdState C)
      → op ≢ read_write
      → slots (some (registered op cb fs)) ≡ changed op cb (slots (some fs))
  slots-registered read cb fs h = refl
  slots-registered write cb fs h = refl
  slots-registered read_once cb fs h = refl
  slots-registered write_once cb fs h = refl
  slots-registered read_write cb fs h = absurd (h refl)

  -- On a set in which `pollfds_` and `state_` belong together, `fd_cb` for a descriptor, with an
  -- operation other than ReadWrite and a callback or a null one, runs into no fault, keeps that,
  -- and leaves each `pollfd` where it is; to a user the descriptor then has that callback for
  -- what the operation reads or writes, or none, and all else is as it was.
  pub fd_cb_lem :
      (s : Pollset C) (fd : ℕ) (op : Op) (cb : Option C)
      → Inv s
      → op ≢ read_write
      → (s' : Pollset C) × (fd_cb fd op cb s ≡ some s')
        × Inv s'
        × Kept s s'
        × ((d : ℕ) → view d s' ≡ (if fd == d then changed op cb (view d s) else view d s))
  unfolding fd_cb
  fd_cb_lem s fd op cb inv h =
      let (fs, p, s1, made, en) = with_entry-Entered s fd inv in
      let (keeps, views) =
        put_back s fd fs (registered op cb fs) p (final op cb p) s1 en refl
          (final_fd op cb p ∙ en.own) (final-Agrees op cb fs p h en.agrees) in
      (
        store_entry fd (registered op cb fs) (final op cb p) s1,
        rw (made, fd_cb_helper_lem fd op cb fs p s1 h, fd_cb-store fd op cb fs p s1 en.in_range)
            refl,
        keeps,
        put_back-Kept s fd fs (registered op cb fs) p (final op cb p) s1 en refl
            (final_fd op cb p ∙ en.own),
        λ d.
            views d
            ∙ at_key fd d (λ d. view d s) (changed op cb) (slots (some (registered op cb fs)))
                (slots-registered op cb fs h ∙ ap (changed op cb) (sym en.same_view)),
      )

  changed-none : (op : Op) → slots {C = C} none ≡ changed op none (slots {C = C} none)
  changed-none read = refl
  changed-none write = refl
  changed-none read_write = refl
  changed-none read_once = refl
  changed-none write_once = refl

  slots-cleared :
      (op : Op) (fs : FdState C) → slots (some (cleared op fs)) ≡ changed op none (slots (some fs))
  unfolding cleared
  slots-cleared read fs = refl
  slots-cleared write fs = refl
  slots-cleared read_write fs = refl
  slots-cleared read_once fs = refl
  slots-cleared write_once fs = refl

  cleared-Agrees :
      (op : Op) (fs : FdState C) (p : Pollfd)
      → Agrees p fs
      → Agrees (unwatched op p) (cleared op fs)
  unfolding cleared unwatched
  cleared-Agrees read fs p a = record { for_read = refl; for_write = a.for_write }
  cleared-Agrees write fs p a = record { for_read = a.for_read; for_write = refl }
  cleared-Agrees read_write fs p a = record { for_read = refl; for_write = refl }
  cleared-Agrees read_once fs p a = record { for_read = refl; for_write = a.for_write }
  cleared-Agrees write_once fs p a = record { for_read = a.for_read; for_write = refl }

  -- On a set that is in order, removing callbacks runs into no fault, keeps the order and each
  -- `pollfd` in its place, and takes just the callbacks that the operation names from the
  -- descriptor.
  pub remove_cb_lem :
      (s : Pollset C) (fd : ℕ) (op : Op)
      → Inv s
      → (s' : Pollset C) × (remove_cb fd op s ≡ some s')
        × Inv s'
        × Kept s s'
        × ((d : ℕ) → view d s' ≡ (if fd == d then changed op none (view d s) else view d s))
  unfolding remove_cb remove_entry cleared unwatched
  remove_cb_lem s fd op inv = elim (Option-cases (find fd s.state)) [
    | inl absent ↦ (
      s,
      rw absent refl,
      inv,
      λ i p h. (p, h, refl),
      λ d. unchanged_at fd d (λ d. view d s) (changed op none) (rw absent (changed-none op)),
    )
    | inr (fs, e) ↦
        let q = inv.placed fd fs e in
        let (ok, en) = found-Entered s fd fs q inv e in
        let (keeps, views) =
          put_back s fd fs (cleared op fs) q.at (unwatched op q.at) s en refl q.own
            (cleared-Agrees op fs q.at q.agrees) in
        (
          store_entry fd (cleared op fs) (unwatched op q.at) s,
          rw (e, q.there) refl,
          keeps,
          put_back-Kept s fd fs (cleared op fs) q.at (unwatched op q.at) s en refl q.own,
          λ d.
              views d
              ∙ at_key fd d (λ d. view d s) (changed op none) (slots (some (cleared op fs)))
                  (slots-cleared op fs ∙ ap (changed op none) (sym en.same_view)),
        )
  ]

  pub fd_cb-Inv :
      (s t : Pollset C) (fd : ℕ) (op : Op) (cb : Option C)
      → Inv s
      → op ≢ read_write
      → fd_cb fd op cb s ≡ some t
      → Inv t
  fd_cb-Inv s t fd op cb inv h e =
      let (s', ok, keeps, kept, rest) = fd_cb_lem s fd op cb inv h in
      let one : s' ≡ t = cc in subst Inv one keeps

  pub remove_cb-Inv :
      (s t : Pollset C) (fd : ℕ) (op : Op) → Inv s → remove_cb fd op s ≡ some t → Inv t
  remove_cb-Inv s t fd op inv e =
      let (s', ok, keeps, kept, rest) = remove_cb_lem s fd op inv in
      let one : s' ≡ t = cc in subst Inv one keeps

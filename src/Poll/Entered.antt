-- ===== src/Poll/Entered.antt =====
-- The entry of a descriptor that `fd_cb_helper` of xdrpp/pollset.cc finds or makes, and one stored over it.
use cs244b.Base.{
  ℕ, ◌+◌, ◌<◌, ◌≡◌, refl, sym, ap, ◌∙◌, subst, true, false, none, some, List, [], ◌∷◌, ◌++◌, ◌==◌,
  if◌then◌else◌, length, Bool-cases, Option-cases, inl, inr, arith, zero, suc,
}
use cs244b.Base.Arrays.{get_elem?, set, get_elem?-set, get_elem?-push, get_elem?-lt}
use cs244b.Base.Assoc.{find, assign, find-assign, nat_eq}
use cs244b.Poll.{Pollfd, FdState, Pollset, with_entry, store_entry}
use cs244b.Poll.Invariant.{Kept, Agrees, Placed, Listed, Inv, slots, view, store_entry-Inv}

set-set : {A : Type 0} (a : List A) (i : ℕ) (v w : A) → set (set a i w) i v ≡ set a i v
set-set [] i v w = refl
set-set (x ∷ a) zero v w = refl
set-set (x ∷ a) (suc i) v w = ap (λ b. x ∷ b) (set-set a i v w)

set-push : {A : Type 0} (a : List A) (v w : A) → set (a ++ (w ∷ [])) (length a) v ≡ a ++ (v ∷ [])
set-push [] v w = refl
set-push (x ∷ a) v w = ap (λ b. x ∷ b) (set-push a v w)

length-push : {A : Type 0} (a : List A) (v : A) → length (a ++ (v ∷ [])) ≡ length a + 1
length-push [] v = omega arith
length-push (x ∷ a) v = omega (arith, length-push a v)

assign-assign :
    {V : Type 0} (k : ℕ) (v w : V) (m : List (ℕ × V)) → assign k v (assign k w m) ≡ assign k v m
unfolding assign
assign-assign k v w [] = let e : (k == k) ≡ true = ground arith in rw e refl
assign-assign k v w ((j, x) ∷ m) = elim (Bool-cases (j == k)) [
  | inl same ↦ rw (same, same) refl
  | inr other ↦ rw (other, other, assign-assign k v w m) refl
]

module _ {C : Type 0} where
  pub store_entry-store_entry :
      (fd : ℕ) (fs gs : FdState C) (p q : Pollfd) (s : Pollset C)
      → fs.idx ≡ gs.idx
      → store_entry fd fs p (store_entry fd gs q s) ≡ store_entry fd fs p s
  unfolding store_entry
  store_entry-store_entry fd fs gs p q s e =
      rw (assign-assign fd fs gs s.state, sym e, set-set s.pollfds fs.idx p q) refl

  -- An entry and its `pollfd` as `with_entry` finds or makes them.
  pub record Entered (s : Pollset C) (fd : ℕ) (fs : FdState C) (p : Pollfd) (s' : Pollset C)
      : Type 0 where
    pub stored : Inv (store_entry fd fs p s')
    pub in_range : fs.idx < length s'.pollfds
    pub own : p.fd ≡ fd
    pub agrees : Agrees p fs
    pub same_state : s'.state ≡ s.state
    pub same_view : view fd s ≡ slots (some fs)
    pub at_idx : get_elem? s'.pollfds fs.idx ≡ some p
    pub kept :
        (i : ℕ) (q : Pollfd) → get_elem? s.pollfds i ≡ some q → get_elem? s'.pollfds i ≡ some q

  pub found-Entered :
      (s : Pollset C) (fd : ℕ) (fs : FdState C) (q : Placed s.pollfds fd fs)
      → Inv s
      → find fd s.state ≡ some fs
      → (with_entry fd (some fs) s ≡ some (fs, (q.at, s))) × Entered s fd fs q.at s
  unfolding with_entry
  found-Entered s fd fs q inv e =
      let own : (q.at.fd == fd) ≡ true = let o = q.own in ground arith in
      (
        rw (q.there, own) refl,
        record {
          stored = store_entry-Inv s inv fd fs fs q.at q.at e q.own refl q.agrees;
          in_range = get_elem?-lt s.pollfds fs.idx q.at q.there;
          own = q.own;
          agrees = q.agrees;
          same_state = refl;
          same_view = ap slots e;
          at_idx = q.there;
          kept = λ i r h. h;
        },
      )

  module _ (s : Pollset C) (inv : Inv s) (fd : ℕ) (fs : FdState C) (p : Pollfd)
      (absent : find fd s.state ≡ none) (own : p.fd ≡ fd) (last : fs.idx ≡ length s.pollfds)
      (agrees : Agrees p fs) where
    push-Inv : Inv (record s { pollfds = s.pollfds ++ (p ∷ []); state = assign fd fs s.state })
    push-Inv = record {
      placed = λ d gs h. elim (Bool-cases (fd == d)) [
        | inl same ↦
            let eq : some fs ≡ some gs = sym (find-assign fd d fs s.state ∙ rw same refl) ∙ h in
            let one : fs ≡ gs = cc in
            let k : fd ≡ d = ground arith in
            subst (Placed (s.pollfds ++ (p ∷ [])) d) one (record {
              at = p;
              there =
                  get_elem?-push s.pollfds fs.idx p
                  ∙ (let z : (length s.pollfds == fs.idx) ≡ true = ground arith in rw z refl);
              own = own ∙ k;
              agrees = agrees;
            })
        | inr other ↦
            let old = inv.placed d gs (sym (find-assign fd d fs s.state ∙ rw other refl) ∙ h) in
            let below = get_elem?-lt s.pollfds gs.idx old.at old.there in
            let z : (length s.pollfds == gs.idx) ≡ false = ground arith in
            record {
              at = old.at;
              there = get_elem?-push s.pollfds gs.idx p ∙ rw z old.there;
              own = old.own;
              agrees = old.agrees;
            }
      ];
      listed = λ i q h. elim (Bool-cases (length s.pollfds == i)) [
        | inl same ↦
            let k : length s.pollfds ≡ i = ground arith in
            let eq : some p ≡ some q = sym (get_elem?-push s.pollfds i p ∙ rw same refl) ∙ h in
            let one : p ≡ q = cc in
            subst (Listed (assign fd fs s.state) i) one (record {
              entry = fs;
              found =
                  find-assign fd p.fd fs s.state
                  ∙ (let z : (fd == p.fd) ≡ true = ground arith in rw z refl);
              index = last ∙ k;
            })
        | inr other ↦
            let old = inv.listed i q (sym (get_elem?-push s.pollfds i p ∙ rw other refl) ∙ h) in
            let apart : (fd == q.fd) ≡ false = elim (Bool-cases (fd == q.fd)) [
              | inr no_clash ↦ no_clash
              | inl clash ↦
                  let k : fd ≡ q.fd = ground arith in
                  let f : find q.fd s.state ≡ none = ap (λ x. find x s.state) (sym k) ∙ absent in
                  let g = old.found in absurd cc
            ] in
            record {
              entry = old.entry;
              found = find-assign fd q.fd fs s.state ∙ rw apart old.found;
              index = old.index;
            }
      ];
    }

  made-Entered :
      (s : Pollset C) (fd : ℕ)
      → Inv s
      → find fd s.state ≡ none
      → (fs : FdState C) × (p : Pollfd) × (s' : Pollset C) × (with_entry fd none s
          ≡ some (fs, (p, s')))
        × Entered s fd fs p s'
  unfolding with_entry store_entry
  made-Entered s fd inv e =
      let p : Pollfd = record { fd = fd; pollin = false; pollout = false } in
      let fs : FdState C = record {
        rcb = none;
        wcb = none;
        idx = length s.pollfds;
        roneshot = false;
        woneshot = false;
      } in
      let agrees : Agrees p fs = record { for_read = refl; for_write = refl } in
      (
        fs,
        p,
        record s { pollfds = s.pollfds ++ (p ∷ []) },
        refl,
        record {
          stored = rw (set-push s.pollfds p p) (push-Inv s inv fd fs p e refl refl agrees);
          in_range = rw (length-push s.pollfds p) (omega arith);
          own = refl;
          agrees = agrees;
          same_state = refl;
          same_view = ap slots e;
          at_idx =
              get_elem?-push s.pollfds (length s.pollfds) p
              ∙ (let z : (length s.pollfds == length s.pollfds) ≡ true = ground arith in rw z refl);
          kept = λ i r h.
              let below = get_elem?-lt s.pollfds i r h in
              let z : (length s.pollfds == i) ≡ false = ground arith in
              get_elem?-push s.pollfds i p ∙ rw z h;
        },
      )

  pub with_entry-Entered :
      (s : Pollset C) (fd : ℕ)
      → Inv s
      → (fs : FdState C) × (p : Pollfd) × (s' : Pollset C) × (with_entry fd (find fd s.state) s
          ≡ some (fs, (p, s')))
        × Entered s fd fs p s'
  with_entry-Entered s fd inv = elim (Option-cases (find fd s.state)) [
    | inl absent ↦ rw absent (made-Entered s fd inv absent)
    | inr (fs, e) ↦
        let q = inv.placed fd fs e in
        let (ok, entered) = found-Entered s fd fs q inv e in (fs, q.at, s, rw e ok, entered)
  ]

  -- An entry that is stored over the one that `with_entry` gave.
  module _ (s : Pollset C) (fd : ℕ) (fs gs : FdState C) (p q : Pollfd) (s' : Pollset C) where
    pub put_back :
        Entered s fd fs p s'
        → gs.idx ≡ fs.idx
        → q.fd ≡ fd
        → Agrees q gs
        → Inv (store_entry fd gs q s')
          × ((d : ℕ)
              → view d (store_entry fd gs q s') ≡ (if fd == d then slots (some gs) else view d s))
    unfolding store_entry
    put_back en index own agrees =
        let there : find fd (assign fd fs s'.state) ≡ some fs =
          find-assign fd fd fs s'.state ∙ (let z : (fd == fd) ≡ true = ground arith in rw z refl) in
        let twice =
          store_entry-Inv (store_entry fd fs p s') en.stored fd fs gs p q there own index agrees in
        (
          subst Inv (store_entry-store_entry fd gs fs q p s' index) twice,
          λ d. elim (Bool-cases (fd == d)) [
            | inl same ↦ rw (find-assign fd d gs s'.state, same) refl
            | inr other ↦ rw (find-assign fd d gs s'.state, other, en.same_state) refl
          ],
        )

    pub put_back-Kept :
        Entered s fd fs p s' → gs.idx ≡ fs.idx → q.fd ≡ fd → Kept s (store_entry fd gs q s')
    unfolding store_entry
    put_back-Kept en index own i r h = elim (Bool-cases (gs.idx == i)) [
      | inl same ↦
          let k : fs.idx ≡ i = ground arith in
          let now : get_elem? s'.pollfds i ≡ some r = en.kept i r h in
          let at : get_elem? s'.pollfds i ≡ some p =
            ap (get_elem? s'.pollfds) (sym k) ∙ en.at_idx in
          let one : p ≡ r = cc in
          let in_range : gs.idx < length s'.pollfds = let z = en.in_range in omega arith in
          (
            q,
            get_elem?-set s'.pollfds gs.idx i q in_range ∙ rw same refl,
            own ∙ (sym en.own ∙ ap (λ x. x.fd) one),
          )
      | inr other ↦
          let in_range : gs.idx < length s'.pollfds = let z = en.in_range in omega arith in
          (r, get_elem?-set s'.pollfds gs.idx i q in_range ∙ rw other (en.kept i r h), refl)
    ]

-- ===== src/Poll/Rounds/Total.antt =====
-- `poll` of xdrpp/pollset.cc runs into no fault, whatever is ready and whatever its callbacks register.
use cs244b.Base.{
  ℕ, zero, suc, ◌+◌, ◌-◌, ◌≤◌, ◌≡◌, refl, sym, ap, ◌∙◌, subst, Bool, true, false, Option, none,
  some, List, [], ◌∷◌, ◌++◌, ◌==◌, if◌then◌else◌, Bool-cases, inl, inr, arith, length, All, ltb,
}
use cs244b.Base.Arrays.{get_elem?, get_elem?-set, get_elem?-lt, get_elem?-some}
use cs244b.Base.Assoc.{find, nat_eq}
use cs244b.Poll.{Pollfd, FdState, Pollset, store_entry, has_events}
use cs244b.Poll.Invariant.{Agrees, Inv, Kept, store_entry-Inv}
use cs244b.Poll.Compact.{at_index}
use cs244b.Poll.Consolidate.{consolidate_lem}
use cs244b.Poll.Rounds.{
  Revents, is_ready, read_ready, write_ready, call, store_at, call_read, call_write, serve_read,
  serve_write, serve, serve_all, polled, poll,
}

-- A callback that keeps the set in order and removes no `pollfd`, as calls of `fd_cb` do.
abbrev pub Behaves : {C : Type 0} → (C → Pollset C → Option (Pollset C)) → Type 0
Behaves {C} run =
    (c : C) (s : Pollset C) → Inv s → (s' : Pollset C) × (run c s ≡ some s') × Inv s' × Kept s s'

module _ {C : Type 0} where
  Kept-trans : (s t u : Pollset C) → Kept s t → Kept t u → Kept s u
  Kept-trans s t u h k i p e = let (q, f, a) = h i p e in let (r, g, b) = k i q f in (r, g, b ∙ a)

  Kept-length : (s t : Pollset C) → Kept s t → length s.pollfds ≤ length t.pollfds
  Kept-length s t h = elim (Bool-cases (ltb (length t.pollfds) (length s.pollfds))) [
    | inl shorter ↦
        let (p, here) = get_elem?-some s.pollfds (length s.pollfds - 1) (ground arith) in
        let (q, there, own) = h (length s.pollfds - 1) p here in
        let inside = get_elem?-lt t.pollfds (length s.pollfds - 1) q there in ground arith
    | inr no_shorter ↦ ground arith
  ]

  -- What a part of the round comes to.
  Served : Pollset C → Option (Pollset C × List C) → Type 0
  Served s o = (s' : Pollset C) × (l : List C) × (o ≡ some (s', l)) × Inv s' × Kept s s'

  nothing : (s : Pollset C) → Inv s → Served s (some (s, []))
  unfolding Served
  nothing s inv = (s, [], refl, inv, λ i p h. (p, h, refl))

  either :
      (s : Pollset C) (b : Bool) (x y : Option (Pollset C × List C))
      → Served s x
      → Served s y
      → Served s (if b then x else y)
  either s true x y a b = a
  either s false x y a b = b

  module _ (s : Pollset C) (inv : Inv s) (i : ℕ) (p p' : Pollfd) (fs fs' : FdState C)
      (here : get_elem? s.pollfds i ≡ some p) (found : find p.fd s.state ≡ some fs)
      (index : fs.idx ≡ i) (index' : fs'.idx ≡ fs.idx) (own : p'.fd ≡ p.fd)
      (agrees : Agrees p' fs') where
    same_place : store_at i p' fs' s ≡ store_entry p.fd fs' p' s
    unfolding store_at store_entry
    same_place = rw (own, sym (index' ∙ index)) refl

    store_at-Inv : Inv (store_at i p' fs' s)
    store_at-Inv =
        subst Inv (sym same_place) (store_entry-Inv s inv p.fd fs fs' p p' found own index' agrees)

    store_at-Kept : Kept s (store_at i p' fs' s)
    unfolding store_at
    store_at-Kept j q h =
        let inside = get_elem?-lt s.pollfds i p here in
        elim (Bool-cases (i == j)) [
          | inl same ↦
              let k : i ≡ j = ground arith in
              let at : get_elem? s.pollfds j ≡ some p = ap (get_elem? s.pollfds) (sym k) ∙ here in
              let one : p ≡ q = cc in
              (p', get_elem?-set s.pollfds i j p' inside ∙ rw same refl, own ∙ ap (λ x. x.fd) one)
          | inr other ↦ (q, get_elem?-set s.pollfds i j p' inside ∙ rw other h, refl)
        ]

  module _ (run : C → Pollset C → Option (Pollset C)) (behaves : Behaves run) where
    call_lem : (c : C) (s t : Pollset C) → Inv t → Kept s t → Served s (call run c t)
    unfolding call Served
    call_lem c s t inv k =
        let (s', ok, keeps, kept) = behaves c t inv in
        (s', c ∷ [], rw ok refl, keeps, Kept-trans s t s' k kept)

    module _ (s : Pollset C) (inv : Inv s) (i : ℕ) (p : Pollfd) (fs : FdState C)
        (here : get_elem? s.pollfds i ≡ some p) (found : find p.fd s.state ≡ some fs)
        (index : fs.idx ≡ i) where
      agreed : Agrees p fs
      agreed = (at_index s inv p.fd fs p found (rw index here)).1

      call_read_lem : (o : Option C) → fs.rcb ≡ o → Served s (call_read run i p fs o s)
      unfolding call_read
      call_read_lem none e = nothing s inv
      call_read_lem (some c) e =
          let p' : Pollfd = record p { pollin = false } in
          let fs' : FdState C = record fs { rcb = none } in
          let a : Agrees p' fs' = record { for_read = refl; for_write = agreed.for_write } in
          let gone = store_at i p' fs' s in
          either s fs.roneshot (call run c gone) (call run c s)
            (call_lem c s gone (store_at-Inv s inv i p p' fs fs' here found index refl refl a)
              (store_at-Kept s inv i p p' fs fs' here found index refl refl a))
            (call_lem c s s inv (λ j q h. (q, h, refl)))

      call_write_lem : (o : Option C) → fs.wcb ≡ o → Served s (call_write run i p fs o s)
      unfolding call_write
      call_write_lem none e = nothing s inv
      call_write_lem (some c) e =
          let p' : Pollfd = record p { pollout = false } in
          let fs' : FdState C = record fs { wcb = none } in
          let a : Agrees p' fs' = record { for_read = agreed.for_read; for_write = refl } in
          let gone = store_at i p' fs' s in
          either s fs.woneshot (call run c gone) (call run c s)
            (call_lem c s gone (store_at-Inv s inv i p p' fs fs' here found index refl refl a)
              (store_at-Kept s inv i p p' fs fs' here found index refl refl a))
            (call_lem c s s inv (λ j q h. (q, h, refl)))

    serve_read_lem :
        (v : Revents) (s : Pollset C) (i : ℕ) (p : Pollfd)
        → Inv s
        → v.pollnval ≡ false
        → get_elem? s.pollfds i ≡ some p
        → Served s (serve_read run v i s)
    unfolding serve_read
    serve_read_lem v s i p inv valid here =
        let l = inv.listed i p here in
        elim (Bool-cases (read_ready v)) [
          | inl ready ↦
              rw (here, l.found, valid, ready)
                (call_read_lem s inv i p l.entry here l.found l.index l.entry.rcb refl)
          | inr idle ↦ rw (here, l.found, valid, idle) (nothing s inv)
        ]

    serve_write_lem :
        (v : Revents) (s : Pollset C) (i : ℕ) (p : Pollfd)
        → Inv s
        → get_elem? s.pollfds i ≡ some p
        → Served s (serve_write run v i s)
    unfolding serve_write
    serve_write_lem v s i p inv here =
        let l = inv.listed i p here in
        elim (Bool-cases (write_ready v)) [
          | inl ready ↦
              rw (here, l.found, ready)
                (call_write_lem s inv i p l.entry here l.found l.index l.entry.wcb refl)
          | inr idle ↦ rw (here, l.found, idle) (nothing s inv)
        ]

    serve_lem :
        (v : Revents) (s : Pollset C) (i : ℕ) (p : Pollfd)
        → Inv s
        → v.pollnval ≡ false
        → get_elem? s.pollfds i ≡ some p
        → Served s (serve run v i s)
    unfolding serve Served
    serve_lem v s i p inv valid here =
        let (s1, l1, ok1, inv1, kept1) = serve_read_lem v s i p inv valid here in
        let (q, there, own) = kept1 i p here in
        let (s2, l2, ok2, inv2, kept2) = serve_write_lem v s1 i q inv1 there in
        (s2, l1 ++ l2, rw (ok1, ok2) refl, inv2, Kept-trans s s1 s2 kept1 kept2)

    serve_all_lem :
        (r i : ℕ) (vs : List Revents) (s : Pollset C)
        → Inv s
        → All (λ v. v.pollnval ≡ false) vs
        → i + length vs ≤ length s.pollfds
        → Served s (serve_all run r i vs s)
    unfolding serve_all Served
    serve_all_lem r i [] s inv valid h = nothing s inv
    serve_all_lem zero i (v ∷ vs) s inv valid h = nothing s inv
    serve_all_lem (suc r) i (v ∷ vs) s inv valid h =
        let (p, here) = get_elem?-some s.pollfds i (omega arith) in
        let (s1, l1, ok1, inv1, kept1) = serve_lem v s i p inv valid.0 here in
        let longer = Kept-length s s1 kept1 in
        let (s2, l2, ok2, inv2, kept2) =
          serve_all_lem (if is_ready v then r else suc r) (i + 1) vs s1 inv1 valid.1
            (omega arith) in
        (s2, l1 ++ l2, rw (ok1, ok2) refl, inv2, Kept-trans s s1 s2 kept1 kept2)

  -- On a set in which `pollfds_` and `state_` belong together, with callbacks that keep it so
  -- and remove no `pollfd`, and results of the system's `poll` for each `pollfd`, none of them
  -- POLLNVAL, a round of `poll` runs into no fault, the set is in order behind it, and every
  -- `pollfd` in it asks for an event.
  pub poll_lem :
      (run : C → Pollset C → Option (Pollset C)) (r : ℕ) (vs : List Revents) (s : Pollset C)
      → Behaves run
      → Inv s
      → length vs ≡ length s.pollfds
      → All (λ v. v.pollnval ≡ false) vs
      → (t : Pollset C) × (l : List C) × (poll run (polled r vs) s ≡ some (t, l))
        × Inv t
        × ((i : ℕ) (p : Pollfd) → get_elem? t.pollfds i ≡ some p → has_events p ≡ true)
  unfolding poll Served
  poll_lem run r vs s behaves inv h valid =
      let (s1, l, ok, inv1, kept) = serve_all_lem run behaves r 0 vs s inv valid (omega arith) in
      let (t, done, keeps, views, live) = consolidate_lem s1 inv1 in
      (t, l, rw (ok, done) refl, keeps, live)

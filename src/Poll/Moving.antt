-- ===== src/Poll/Moving.antt =====
-- The step of `consolidate` of xdrpp/pollset.cc that moves the last `pollfd` to a free place.
use cs244b.Base.{
  ℕ, ◌+◌, ◌-◌, ◌<◌, ◌≡◌, refl, sym, ap, ◌∙◌, subst, true, false, none, some, ltb, ◌==◌, length,
  Bool-cases, inl, inr, arith,
}
use cs244b.Base.Arrays.{
  get_elem?, set, pop_back, length-set, length-pop_back, get_elem?-set, get_elem?-lt,
  get_elem?-kept, get_elem?-before,
}
use cs244b.Base.Assoc.{find, assign, erase, find-assign, find_erased, find_kept, nat_eq}
use cs244b.Poll.{Pollfd, FdState, Pollset, has_events, move_last}
use cs244b.Poll.Invariant.{Placed, Listed, Inv, slots, view, same_index}
use cs244b.Poll.Compact.{at_index, view-no_events, erase_state-no_events}

module _ {C : Type 0} (s : Pollset C) (inv : Inv s) (i : ℕ) (p q : Pollfd)
    (here : get_elem? s.pollfds i ≡ some p)
    (last : get_elem? s.pollfds (length s.pollfds - 1) ≡ some q) (idle : has_events p ≡ false)
    (inner : i + 1 < length s.pollfds) where
  -- The set behind the move, `fs` being the entry of the last `pollfd`.
  moved : FdState C → Pollset C
  moved fs = record {
    pollfds = pop_back (set s.pollfds i q);
    state = assign q.fd (record fs { idx = i }) (erase p.fd s.state);
  }

  kept :
      (j : ℕ)
      → (i == j) ≡ false
      → j + 1 < length s.pollfds
      → get_elem? (pop_back (set s.pollfds i q)) j ≡ get_elem? s.pollfds j
  kept j other below =
      get_elem?-kept (set s.pollfds i q) j (rw (length-set s.pollfds i q) below)
      ∙ (get_elem?-set s.pollfds i j q (omega arith) ∙ rw other refl)

  filled : get_elem? (pop_back (set s.pollfds i q)) i ≡ some q
  filled =
      get_elem?-kept (set s.pollfds i q) i (rw (length-set s.pollfds i q) inner)
      ∙ (get_elem?-set s.pollfds i i q (omega arith)
          ∙ (let z : (i == i) ≡ true = ground arith in rw z refl))

  distinct : (p.fd == q.fd) ≡ false
  distinct = elim (Bool-cases (p.fd == q.fd)) [
    | inr no_clash ↦ no_clash
    | inl clash ↦
        let k = same_index s inv i (length s.pollfds - 1) p q here last (ground arith) in
        absurd (omega arith)
  ]

  -- A descriptor other than the two keeps its entry.
  others :
      (d : ℕ) (fs : FdState C)
      → (q.fd == d) ≡ false
      → (p.fd == d) ≡ false
      → find d (assign q.fd fs (erase p.fd s.state)) ≡ find d s.state
  others d fs not_last not_gone =
      find-assign q.fd d fs (erase p.fd s.state) ∙ (rw not_last (find_kept p.fd d s.state not_gone))

  gone :
      (d : ℕ) (fs : FdState C)
      → (q.fd == d) ≡ false
      → (p.fd == d) ≡ true
      → find d (assign q.fd fs (erase p.fd s.state)) ≡ none
  gone d fs not_last same =
      find-assign q.fd d fs (erase p.fd s.state) ∙ rw not_last (find_erased p.fd d s.state same)

  taken :
      (d : ℕ) (fs : FdState C)
      → (q.fd == d) ≡ true
      → find d (assign q.fd fs (erase p.fd s.state)) ≡ some fs
  taken d fs same = find-assign q.fd d fs (erase p.fd s.state) ∙ rw same refl

  module _ (fs : FdState C) (entry : find q.fd s.state ≡ some fs)
      (index : fs.idx ≡ length s.pollfds - 1) where
    moved-Placed :
        (d : ℕ) (gs : FdState C)
        → find d (moved fs).state ≡ some gs
        → Placed (moved fs).pollfds d gs
    unfolding moved
    moved-Placed d gs h = elim (Bool-cases (q.fd == d)) [
      | inl same ↦
          let gs' : FdState C = record fs { idx = i } in
          let eq : some gs' ≡ some gs = sym (taken d gs' same) ∙ h in
          let one : gs' ≡ gs = cc in
          let (own, a) = at_index s inv q.fd fs q entry (rw index last) in
          subst (Placed (pop_back (set s.pollfds i q)) d) one (record {
            at = q;
            there = filled;
            own = ground arith;
            agrees = record { for_read = a.for_read; for_write = a.for_write };
          })
      | inr not_last ↦ elim (Bool-cases (p.fd == d)) [
        | inl same ↦ let f = sym (gone d (record fs { idx = i }) not_last same) ∙ h in absurd cc
        | inr not_gone ↦
            let f = sym (others d (record fs { idx = i }) not_last not_gone) ∙ h in
            let old = inv.placed d gs f in
            let inside = get_elem?-lt s.pollfds gs.idx old.at old.there in
            let other : (i == gs.idx) ≡ false = elim (Bool-cases (i == gs.idx)) [
              | inr no_clash ↦ no_clash
              | inl clash ↦
                  let k : i ≡ gs.idx = ground arith in
                  let (own, a) = at_index s inv d gs p f (rw (sym k) here) in ground arith
            ] in
            let below : gs.idx + 1 < length s.pollfds =
              elim (Bool-cases (ltb (gs.idx + 1) (length s.pollfds))) [
                | inl below ↦ ground arith
                | inr not_below ↦
                    let k : length s.pollfds - 1 ≡ gs.idx = ground arith in
                    let (own, a) = at_index s inv d gs q f (rw (sym k) last) in ground arith
              ] in
            record {
              at = old.at;
              there = kept gs.idx other below ∙ old.there;
              own = old.own;
              agrees = old.agrees;
            }
      ]
    ]

    moved-Listed :
        (j : ℕ) (r : Pollfd) → get_elem? (moved fs).pollfds j ≡ some r → Listed (moved fs).state j r
    unfolding moved
    moved-Listed j r h =
        let (below', f) = get_elem?-before (set s.pollfds i q) j r h in
        let below : j + 1 < length s.pollfds = let e = length-set s.pollfds i q in omega arith in
        elim (Bool-cases (i == j)) [
          | inl same ↦
              let k : i ≡ j = ground arith in
              let eq : some q ≡ some r =
                sym filled ∙ (ap (get_elem? (pop_back (set s.pollfds i q))) k ∙ h) in
              let one : q ≡ r = cc in
              subst (Listed (assign q.fd (record fs { idx = i }) (erase p.fd s.state)) j) one
                (record {
                  entry = record fs { idx = i };
                  found = taken q.fd (record fs { idx = i }) (ground arith);
                  index = k;
                })
          | inr other ↦
              let g = sym (kept j other below) ∙ h in
              let old = inv.listed j r g in
              let not_last : (q.fd == r.fd) ≡ false = elim (Bool-cases (q.fd == r.fd)) [
                | inr no_clash ↦ no_clash
                | inl clash ↦
                    let k = same_index s inv (length s.pollfds - 1) j q r last g (ground arith) in
                    absurd (omega arith)
              ] in
              let not_gone : (p.fd == r.fd) ≡ false = elim (Bool-cases (p.fd == r.fd)) [
                | inr no_clash ↦ no_clash
                | inl clash ↦ let k = same_index s inv i j p r here g (ground arith) in ground arith
              ] in
              record {
                entry = old.entry;
                found = others r.fd (record fs { idx = i }) not_last not_gone ∙ old.found;
                index = old.index;
              }
        ]

    moved-view : (d : ℕ) → view d (moved fs) ≡ view d s
    unfolding moved
    moved-view d = elim (Bool-cases (q.fd == d)) [
      | inl same ↦
          let k : q.fd ≡ d = ground arith in
          ap slots (taken d (record fs { idx = i }) same)
          ∙ sym (ap (λ x. view x s) (sym k) ∙ ap slots entry)
      | inr not_last ↦ elim (Bool-cases (p.fd == d)) [
        | inl same ↦
            let k : p.fd ≡ d = ground arith in
            ap slots (gone d (record fs { idx = i }) not_last same)
            ∙ sym (ap (λ x. view x s) (sym k) ∙ view-no_events s inv i p here idle)
        | inr not_gone ↦ ap slots (others d (record fs { idx = i }) not_last not_gone)
      ]
    ]

  -- The move runs into no fault.
  pub move_last_lem :
      (s' : Pollset C) × (move_last i p q s ≡ some s')
      × Inv s'
      × ((d : ℕ) → view d s' ≡ view d s)
      × (length s'.pollfds ≡ length s.pollfds - 1)
      × (get_elem? s'.pollfds i ≡ some q)
      × ((j : ℕ) (r : Pollfd)
          → (i == j) ≡ false
          → get_elem? s'.pollfds j ≡ some r
          → get_elem? s.pollfds j ≡ some r)
  unfolding move_last moved
  move_last_lem =
      let l = inv.listed (length s.pollfds - 1) q last in
      let found = find_kept p.fd q.fd s.state distinct ∙ l.found in
      let erased = erase_state-no_events s inv i p here idle in
      (
        moved l.entry,
        rw (erased, found) refl,
        record {
          placed = moved-Placed l.entry l.found l.index;
          listed = moved-Listed l.entry l.found l.index;
        },
        moved-view l.entry l.found l.index,
        length-pop_back (set s.pollfds i q) ∙ ap (λ n. n - 1) (length-set s.pollfds i q),
        filled,
        λ j r other h.
            let (below', f) = get_elem?-before (set s.pollfds i q) j r h in
            let below : j + 1 < length s.pollfds =
              let e = length-set s.pollfds i q in omega arith in
            sym (kept j other below) ∙ h,
      )

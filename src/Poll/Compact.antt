-- ===== src/Poll/Compact.antt =====
-- What `consolidate` of xdrpp/pollset.cc does to a set: the loops' single steps here.
use cs244b.Base.{
  ℕ, ◌+◌, ◌-◌, ◌<◌, ◌≡◌, refl, sym, ap, ◌∙◌, subst, false, Option, none, some, ltb, ◌==◌, length,
  Bool-cases, inl, inr, arith,
}
use cs244b.Base.Arrays.{
  pop_back, get_elem?, back, get_elem?-lt, get_elem?-back, get_elem?-kept, get_elem?-before,
}
use cs244b.Base.Assoc.{erase, find, find_erased, find_kept, nat_eq}
use cs244b.Poll.{Pollfd, FdState, Pollset, has_events, erase_state, drop_last}
use cs244b.Poll.Invariant.{is_some, Agrees, Inv, slots, view, same_index}

module _ {C : Type 0} where
  no_events :
      (p : Pollfd) (rcb wcb : Option C)
      → has_events p ≡ false
      → p.pollin ≡ is_some rcb
      → p.pollout ≡ is_some wcb
      → (rcb ≡ none) × (wcb ≡ none)
  no_events p none none h i o = (refl, refl)
  no_events p (some c) w h i o = absurd (ground arith)
  no_events p none (some c) h i o = absurd (ground arith)

  no_slots : (fs : FdState C) → fs.rcb ≡ none → fs.wcb ≡ none → slots (some fs) ≡ slots {C = C} none
  no_slots fs h k = rw (h, k) refl

  -- The set without its last `pollfd`.
  unfoldable pub dropped : Pollfd → Pollset C → Pollset C
  dropped p s = record { pollfds = pop_back s.pollfds; state = erase p.fd s.state }

  module _ (s : Pollset C) (inv : Inv s) where
    -- The entry at an index belongs to the `pollfd` there.
    pub at_index :
        (d : ℕ) (fs : FdState C) (p : Pollfd)
        → find d s.state ≡ some fs
        → get_elem? s.pollfds fs.idx ≡ some p
        → (p.fd ≡ d) × Agrees p fs
    at_index d fs p h k =
        let q = inv.placed d fs h in
        let t = q.there in
        let e : q.at ≡ p = cc in subst (λ x. (x.fd ≡ d) × Agrees x fs) e (q.own, q.agrees)

    -- A descriptor whose `pollfd` has no events has no callbacks.
    pub view-no_events :
        (i : ℕ) (p : Pollfd)
        → get_elem? s.pollfds i ≡ some p
        → has_events p ≡ false
        → view p.fd s ≡ (none, none)
    view-no_events i p h k =
        let l = inv.listed i p h in
        let (own, a) = at_index p.fd l.entry p l.found (rw l.index h) in
        let (r, w) = no_events p l.entry.rcb l.entry.wcb k a.for_read a.for_write in
        ap slots l.found ∙ no_slots l.entry r w

    -- The entry of a `pollfd` without events can go.
    pub erase_state-no_events :
        (i : ℕ) (p : Pollfd)
        → get_elem? s.pollfds i ≡ some p
        → has_events p ≡ false
        → erase_state p.fd s.state ≡ some (erase p.fd s.state)
    unfolding erase_state
    erase_state-no_events i p h k =
        let l = inv.listed i p h in
        let (own, a) = at_index p.fd l.entry p l.found (rw l.index h) in
        let (r, w) = no_events p l.entry.rcb l.entry.wcb k a.for_read a.for_write in
        rw (l.found, r, w) refl

    module _ (p : Pollfd) (last : back s.pollfds ≡ some p) where
      at_last : get_elem? s.pollfds (length s.pollfds - 1) ≡ some p
      at_last = get_elem?-back s.pollfds p last

      pub dropped-Inv : Inv (dropped p s)
      unfolding dropped
      dropped-Inv = record {
        placed = λ d fs h. elim (Bool-cases (p.fd == d)) [
          | inl same ↦ let f = sym (find_erased p.fd d s.state same) ∙ h in absurd cc
          | inr other ↦
              let f = sym (find_kept p.fd d s.state other) ∙ h in
              let old = inv.placed d fs f in
              let inside = get_elem?-lt s.pollfds fs.idx old.at old.there in
              let below : fs.idx + 1 < length s.pollfds =
                elim (Bool-cases (ltb (fs.idx + 1) (length s.pollfds))) [
                  | inl below ↦ ground arith
                  | inr not_below ↦
                      let k : length s.pollfds - 1 ≡ fs.idx = ground arith in
                      let (own, a) = at_index d fs p f (rw (sym k) at_last) in ground arith
                ] in
              record {
                at = old.at;
                there = get_elem?-kept s.pollfds fs.idx below ∙ old.there;
                own = old.own;
                agrees = old.agrees;
              }
        ];
        listed = λ i q h.
            let (below, f) = get_elem?-before s.pollfds i q h in
            let old = inv.listed i q f in
            let apart : (p.fd == q.fd) ≡ false = elim (Bool-cases (p.fd == q.fd)) [
              | inr no_clash ↦ no_clash
              | inl clash ↦
                  let k = same_index s inv (length s.pollfds - 1) i p q at_last f (ground arith) in
                  ground arith
            ] in
            record {
              entry = old.entry;
              found = find_kept p.fd q.fd s.state apart ∙ old.found;
              index = old.index;
            };
      }

      pub view-dropped : has_events p ≡ false → (d : ℕ) → view d (dropped p s) ≡ view d s
      unfolding dropped
      view-dropped h d = elim (Bool-cases (p.fd == d)) [
        | inl same ↦
            let k : p.fd ≡ d = ground arith in
            ap slots (find_erased p.fd d s.state same)
            ∙ sym (ap (λ x. view x s) (sym k) ∙ view-no_events (length s.pollfds - 1) p at_last h)
        | inr other ↦ ap slots (find_kept p.fd d s.state other)
      ]

      pub drop_last-dropped : has_events p ≡ false → drop_last p s ≡ some (dropped p s)
      unfolding drop_last dropped
      drop_last-dropped h = rw (erase_state-no_events (length s.pollfds - 1) p at_last h) refl

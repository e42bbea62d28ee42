-- ===== src/Poll/Consolidate.antt =====
-- The two loops of `consolidate` of xdrpp/pollset.cc.
use cs244b.Base.{
  if◌then◌else◌, ℕ, ◌-◌, ◌≤◌, ◌<◌, ◌≡◌, refl, sym, ap, ◌∙◌, true, Option, some, ltb, ◌==◌, length,
  Bool-cases, Option-cases, inl, inr, arith, zero, suc,
}
use cs244b.Base.Arrays.{
  get_elem?, back, length-pop_back, get_elem?-lt, get_elem?-back, back-some, get_elem?-some,
}
use cs244b.Poll.{Pollfd, Pollset, has_events, trim, compact_at, compact, consolidate}
use cs244b.Poll.Invariant.{Inv, view}
use cs244b.Poll.Compact.{dropped, dropped-Inv, view-dropped, drop_last-dropped}
use cs244b.Poll.Moving.{move_last_lem}

-- From an index on, every element asks for an event.
abbrev pub Live : {C : Type 0} → ℕ → Pollset C → Type 0
Live k s = (j : ℕ) (p : Pollfd) → k ≤ j → get_elem? s.pollfds j ≡ some p → has_events p ≡ true

module _ {C : Type 0} where
  -- A set behind the first loop.
  record Trimmed (s t : Pollset C) : Type 0 where
    keeps : Inv t
    views : (d : ℕ) → view d t ≡ view d s
    last_live : (p : Pollfd) → back t.pollfds ≡ some p → has_events p ≡ true

  length-dropped :
      (p : Pollfd) (s : Pollset C) → length (dropped p s).pollfds ≡ length s.pollfds - 1
  unfolding dropped
  length-dropped p s = length-pop_back s.pollfds

  trim_lem :
      (fuel : ℕ) (s : Pollset C)
      → Inv s
      → length s.pollfds ≤ fuel
      → (t : Pollset C) × (trim fuel s ≡ some t) × Trimmed s t
  unfolding trim
  trim_lem zero s inv h = (
    s,
    refl,
    record {
      keeps = inv;
      views = λ d. refl;
      last_live = λ p e.
          let below =
            get_elem?-lt s.pollfds (length s.pollfds - 1) p (get_elem?-back s.pollfds p e) in
          absurd (omega arith);
    },
  )
  trim_lem (suc fuel) s inv h = elim (Option-cases (back s.pollfds)) [
    | inl empty ↦
        (s, rw empty refl, record { keeps = inv; views = λ d. refl; last_live = λ p e. absurd cc })
    | inr (q, e) ↦ elim (Bool-cases (has_events q)) [
      | inl live ↦ (
        s,
        rw (e, live) refl,
        record {
          keeps = inv;
          views = λ d. refl;
          last_live = λ p f. let one : q ≡ p = cc in rw (sym one) live;
        },
      )
      | inr idle ↦
          let shorter : length (dropped q s).pollfds ≤ fuel =
            let k = length-dropped q s in omega arith in
          let (t, ran, rest) = trim_lem fuel (dropped q s) (dropped-Inv s inv q e) shorter in
          (
            t,
            rw (e, idle, drop_last-dropped s inv q e idle) ran,
            record {
              keeps = rest.keeps;
              views = λ d. rest.views d ∙ view-dropped s inv q e idle d;
              last_live = rest.last_live;
            },
          )
    ]
  ]

  Compacted : (s : Pollset C) → Option (Pollset C) → Type 0
  Compacted s o =
      (t : Pollset C) × (o ≡ some t) × Inv t × ((d : ℕ) → view d t ≡ view d s) × Live 0 t

  compact_lem :
      (k : ℕ) (s : Pollset C) → Inv s → k < length s.pollfds → Live k s → Compacted s (compact k s)
  unfolding compact compact_at Compacted
  compact_lem zero s inv h live = (s, refl, inv, λ d. refl, live)
  compact_lem (suc i) s inv h live =
      let (p, here) = get_elem?-some s.pollfds i (omega arith) in
      elim (Bool-cases (has_events p)) [
        | inl busy ↦
            let (t, done, keeps, views, all) = compact_lem i s inv (omega arith) (λ j r below e.
              elim (Bool-cases (i == j)) [
                | inl same ↦
                    let k : i ≡ j = ground arith in
                    let f : get_elem? s.pollfds j ≡ some p =
                      ap (get_elem? s.pollfds) (sym k) ∙ here in
                    let one : p ≡ r = cc in rw (sym one) busy
                | inr other ↦ live j r (ground arith) e
              ]) in
            (t, rw (here, busy) done, keeps, views, all)
        | inr idle ↦
            let (q, e) = back-some s.pollfds (omega arith) in
            let last = get_elem?-back s.pollfds q e in
            let (s', goes, inv', views', shorter, filled, others) =
              move_last_lem s inv i p q here last idle (omega arith) in
            let (t, done, keeps, views, all) = compact_lem i s' inv' (omega arith) (λ j r below f.
              elim (Bool-cases (i == j)) [
                | inl same ↦
                    let k : i ≡ j = ground arith in
                    let g : get_elem? s'.pollfds j ≡ some q =
                      ap (get_elem? s'.pollfds) (sym k) ∙ filled in
                    let one : q ≡ r = cc in
                    rw (sym one) (live (length s.pollfds - 1) q (omega arith) last)
                | inr other ↦ live j r (ground arith) (others j r other f)
              ]) in
            (t, rw (here, idle, e, goes) done, keeps, λ d. views d ∙ views' d, all)
      ]

  second_loop :
      (s : Pollset C)
      → Inv s
      → ((p : Pollfd) → back s.pollfds ≡ some p → has_events p ≡ true)
      → Compacted s (if ltb (length s.pollfds) 2 then some s else compact (length s.pollfds - 1) s)
  unfolding Compacted
  second_loop s inv last_live =
      let live : Live (length s.pollfds - 1) s = λ j p below e.
        let inside = get_elem?-lt s.pollfds j p e in
        let (q, f) = back-some s.pollfds (omega arith) in
        let k : length s.pollfds - 1 ≡ j = omega arith in
        let g = get_elem?-back s.pollfds q f in
        let g' : get_elem? s.pollfds j ≡ some q = ap (get_elem? s.pollfds) (sym k) ∙ g in
        let one : q ≡ p = cc in rw (sym one) (last_live q f) in
      elim (Bool-cases (ltb (length s.pollfds) 2)) [
        | inl few ↦ (s, rw few refl, inv, λ d. refl, λ i p below e. live i p (ground arith) e)
        | inr many ↦
            let (t, done, keeps, views, all) =
              compact_lem (length s.pollfds - 1) s inv (ground arith) live in
            (t, rw many done, keeps, views, all)
      ]

  -- On a set in which `pollfds_` and `state_` belong together, `consolidate` runs into no fault
  -- and no failed assertion, and keeps that; no descriptor's callbacks change, and every
  -- `pollfd` that is left asks for an event.
  pub consolidate_lem :
      (s : Pollset C)
      → Inv s
      → (t : Pollset C) × (consolidate s ≡ some t)
        × Inv t
        × ((d : ℕ) → view d t ≡ view d s)
        × ((i : ℕ) (p : Pollfd) → get_elem? t.pollfds i ≡ some p → has_events p ≡ true)
  unfolding consolidate Compacted
  consolidate_lem s inv =
      let (s', went, trimmed) = trim_lem (length s.pollfds) s inv (omega arith) in
      let (t, done, keeps, views, all) = second_loop s' trimmed.keeps trimmed.last_live in
      (t, rw went done, keeps, λ d. views d ∙ trimmed.views d, λ i p e. all i p (omega arith) e)

-- ===== src/Poll/Timers/Order.antt =====
-- The order of `time_cbs_` of xdrpp/pollset.h, and how long `next_timeout` of pollset.cc lets `poll` wait.
use cs244b.Base.{
  ℕ, ◌-◌, ◌≤◌, ◌≡◌, refl, sym, ◌∙◌, Option, none, some, List, [], ◌∷◌, ltb, leb, ◌==◌, Bool-cases,
  Option-cases, inl, inr, arith, All, ◌⊎◌, subst,
}
use cs244b.Poll.Timers.{
  Timer, Timers, int_max, emplace, at, erase, timeout_at, timeout_cancel, timeout_reschedule_at,
  next_timeout, at_most, sooner,
}

at_most_lem :
    (b k : ℕ) → (at_most b k ≤ b) × (at_most b k ≤ k) × ((at_most b k ≡ k) ⊎ (at_most b k ≡ b))
at_most_lem b k = elim (Bool-cases (ltb b k)) [
  | inl above ↦ (ground arith, ground arith, inr (rw above refl))
  | inr below ↦ (ground arith, ground arith, inl (rw below refl))
]

module _ {C : Type 0} where
  abbrev pub Since : ℕ → List (Timer C) → Type 0
  Since n m = All (λ e. n ≤ e.time) m

  abbrev pub IsSorted : List (Timer C) → Type 0
  IsSorted [] = Unit {0}
  IsSorted (e ∷ m) = Since e.time m × IsSorted m

  Since-weaken : (n k : ℕ) (m : List (Timer C)) → n ≤ k → Since k m → Since n m
  Since-weaken n k [] h s = tt
  Since-weaken n k (e ∷ m) h s = (let a = s.0 in omega arith, Since-weaken n k m h s.1)

  emplace-Since :
      (n : ℕ) (e : Timer C) (m : List (Timer C)) → n ≤ e.time → Since n m → Since n (emplace e m)
  unfolding emplace
  emplace-Since n e [] h s = (h, tt)
  emplace-Since n e (f ∷ m) h s = ground (arith, emplace-Since n e m h s.1)

  emplace-IsSorted : (e : Timer C) (m : List (Timer C)) → IsSorted m → IsSorted (emplace e m)
  unfolding emplace
  emplace-IsSorted e [] s = (tt, tt)
  emplace-IsSorted e (f ∷ m) s = elim (Bool-cases (ltb e.time f.time)) [
    | inl before ↦ rw before (((ground arith, Since-weaken e.time f.time m (ground arith) s.0), s))
    | inr behind ↦ rw behind (emplace-Since f.time e m (ground arith) s.0, emplace-IsSorted e m s.1)
  ]

  erase-Since : (n i : ℕ) (m : List (Timer C)) → Since n m → Since n (erase i m)
  unfolding erase
  erase-Since n i [] s = tt
  erase-Since n i (f ∷ m) s = ground (arith, erase-Since n i m s.1)

  erase-IsSorted : (i : ℕ) (m : List (Timer C)) → IsSorted m → IsSorted (erase i m)
  unfolding erase
  erase-IsSorted i [] s = tt
  erase-IsSorted i (f ∷ m) s = elim (Bool-cases (f.id == i)) [
    | inl same ↦ rw same s.1
    | inr other ↦ rw other (erase-Since f.time i m s.0, erase-IsSorted i m s.1)
  ]

  pub timeout_at-IsSorted :
      (ms : ℕ) (cb : C) (t : Timers C)
      → IsSorted t.time_cbs
      → IsSorted (timeout_at ms cb t).1.time_cbs
  unfolding timeout_at
  timeout_at-IsSorted ms cb t s =
      emplace-IsSorted (record { time = ms; id = t.next_id; cb = cb }) t.time_cbs s

  timeout_cancel-IsSorted :
      (i : Option ℕ) (t : Timers C) (r : Option ℕ × Timers C)
      → IsSorted t.time_cbs
      → timeout_cancel i t ≡ some r
      → IsSorted r.1.time_cbs
  unfolding timeout_cancel
  timeout_cancel-IsSorted none t r s h =
      let e : (none, t) ≡ r = cc in subst (λ x. IsSorted x.1.time_cbs) e s
  timeout_cancel-IsSorted (some i) t r s h = elim (Option-cases (at i t.time_cbs)) [
    | inl absent ↦ let k : none ≡ some r = sym (rw absent refl) ∙ h in absurd cc
    | inr (e, found) ↦
        let gone : Option ℕ × Timers C = (none, record t { time_cbs = erase i t.time_cbs }) in
        let k : some gone ≡ some r = sym (rw found refl) ∙ h in
        let one : gone ≡ r = cc in
        subst (λ x. IsSorted x.1.time_cbs) one (erase-IsSorted i t.time_cbs s)
  ]

  timeout_reschedule_at-IsSorted :
      (i ms : ℕ) (t : Timers C) (r : ℕ × Timers C)
      → IsSorted t.time_cbs
      → timeout_reschedule_at i ms t ≡ some r
      → IsSorted r.1.time_cbs
  unfolding timeout_reschedule_at
  timeout_reschedule_at-IsSorted i ms t r s h = elim (Option-cases (at i t.time_cbs)) [
    | inl absent ↦ let k : none ≡ some r = sym (rw absent refl) ∙ h in absurd cc
    | inr (e, found) ↦
        let moved = timeout_at ms e.cb t in
        let gone : ℕ × Timers C =
          (moved.0, record moved.1 { time_cbs = erase i moved.1.time_cbs }) in
        let k : some gone ≡ some r = sym (rw found refl) ∙ h in
        let one : gone ≡ r = cc in
        subst (λ x. IsSorted x.1.time_cbs) one
          (erase-IsSorted i moved.1.time_cbs (timeout_at-IsSorted ms e.cb t s))
  ]

  -- Setting, cancelling and moving a timeout keep the order of `time_cbs_`.
  pub timeouts-IsSorted :
      (t : Timers C)
      → IsSorted t.time_cbs
      → ((ms : ℕ) (cb : C) → IsSorted (timeout_at ms cb t).1.time_cbs)
        × ((i : Option ℕ) (r : Option ℕ × Timers C)
            → timeout_cancel i t ≡ some r
            → IsSorted r.1.time_cbs)
        × ((i ms : ℕ) (r : ℕ × Timers C)
            → timeout_reschedule_at i ms t ≡ some r
            → IsSorted r.1.time_cbs)
  timeouts-IsSorted t s = (
    λ ms cb. timeout_at-IsSorted ms cb t s,
    λ i r h. timeout_cancel-IsSorted i t r s h,
    λ i ms r h. timeout_reschedule_at-IsSorted i ms t r s h,
  )

  -- A wait that `next_timeout` chooses: the bounds on it, and what set it.
  record Wait (now : ℕ) (ms : Option ℕ) (e : Timer C) (w : ℕ) : Type 0 where
    is_int : w ≤ int_max
    first : w ≤ e.time - now
    asked : (b : ℕ) → ms ≡ some b → w ≤ b
    reason : (w ≡ e.time - now) ⊎ ((w ≡ int_max) ⊎ (ms ≡ some w))

  sooner-Wait :
      (now : ℕ) (ms : Option ℕ) (e : Timer C) (w : ℕ)
      → ((b : ℕ) → ms ≡ some b → b ≤ int_max)
      → w ≤ int_max
      → w ≤ e.time - now
      → (w ≡ e.time - now) ⊎ (w ≡ int_max)
      → Wait now ms e (sooner ms w)
  sooner-Wait now none e w h i f which = record {
    is_int = i;
    first = f;
    asked = λ b k. absurd cc;
    reason = elim which [ inl x ↦ inl x | inr x ↦ inr (inl x) ];
  }
  sooner-Wait now (some b) e w h i f which = elim (Bool-cases (leb b w)) [
    | inl less ↦
        let lt : b ≤ w = ground arith in
        rw less (record {
          is_int = omega arith;
          first = omega arith;
          asked = λ c k. let one : b ≡ c = cc in omega arith;
          reason = inr (inr refl);
        })
    | inr more ↦
        let lt : w ≤ b = ground arith in
        rw more (record {
          is_int = i;
          first = f;
          asked = λ c k. let one : b ≡ c = cc in omega arith;
          reason = elim which [ inl x ↦ inl x | inr x ↦ inr (inl x) ];
        })
  ]

  chosen :
      (now : ℕ) (ms : Option ℕ) (e : Timer C) (m : List (Timer C))
      → ((b : ℕ) → ms ≡ some b → b ≤ int_max)
      → (w : ℕ) × (next_timeout now ms (e ∷ m) ≡ some w) × Wait now ms e w
  unfolding next_timeout
  chosen now ms e m h = elim (Bool-cases (leb e.time now)) [
    | inl due ↦ (
      0,
      rw due refl,
      record {
        is_int = omega arith;
        first = omega arith;
        asked = λ b k. omega arith;
        reason = inl (ground arith);
      },
    )
    | inr early ↦
        let (below, bounded, which) = at_most_lem int_max (e.time - now) in
        (
          sooner ms (at_most int_max (e.time - now)),
          rw early refl,
          sooner-Wait now ms e (at_most int_max (e.time - now)) h below bounded which,
        )
  ]

  Since-first :
      (now w : ℕ) (e : Timer C) (m : List (Timer C))
      → w ≤ e.time - now
      → Since e.time m
      → All (λ f. w ≤ f.time - now) m
  Since-first now w e [] h s = tt
  Since-first now w e (f ∷ m) h s = (let a = s.0 in omega arith, Since-first now w e m h s.1)

  -- When `time_cbs_` is in order and not empty, and the `ms` that is asked for, if any, is an
  -- `int`, the wait that `next_timeout` gives is an `int` too, passes no entry's time nor `ms`,
  -- and is one of the time to the first entry, the greatest `int`, and `ms`.
  pub next_timeout_lem :
      (now : ℕ) (ms : Option ℕ) (e : Timer C) (m : List (Timer C))
      → IsSorted (e ∷ m)
      → ((b : ℕ) → ms ≡ some b → b ≤ int_max)
      → (w : ℕ) × (next_timeout now ms (e ∷ m) ≡ some w)
        × (w ≤ int_max)
        × All (λ f. w ≤ f.time - now) (e ∷ m)
        × ((b : ℕ) → ms ≡ some b → w ≤ b)
        × ((w ≡ e.time - now) ⊎ ((w ≡ int_max) ⊎ (ms ≡ some w)))
  next_timeout_lem now ms e m s h =
      let (w, ok, c) = chosen now ms e m h in
      (w, ok, c.is_int, (c.first, Since-first now w e m c.first s.0), c.asked, c.reason)

-- ===== src/Poll/Timers/Due.antt =====
-- What `run_timeouts` of xdrpp/pollset.cc calls, when its callbacks set timeouts in the future.
use cs244b.Base.{
  ℕ, zero, suc, ◌+◌, ◌≤◌, ◌<◌, ◌≡◌, refl, ap, subst, true, false, some, List, [], ◌∷◌, ◌++◌, map,
  length, ltb, leb, ◌==◌, if◌then◌else◌, Bool-cases, inl, inr, arith, All,
}
use cs244b.Poll.Timers.{
  Timer, Timers, begin, emplace, at, next, erase, timeout_at, run_from, run_timeouts,
}
use cs244b.Poll.Timers.Order.{Since, IsSorted}

module _ {C : Type 0} where
  -- The entries whose time has come, and the others.
  abbrev pub due : ℕ → List (Timer C) → List (Timer C)
  due now [] = []
  due now (e ∷ m) = let rest = due now m in if leb e.time now then e ∷ rest else rest

  abbrev pub later : ℕ → List (Timer C) → List (Timer C)
  later now [] = []
  later now (e ∷ m) = let rest = later now m in if leb e.time now then rest else e ∷ rest

  abbrev After : ℕ → List (Timer C) → Type 0
  After now m = All (λ e. now < e.time) m

  abbrev Before : ℕ → List (Timer C) → Type 0
  Before now m = All (λ e. e.time ≤ now) m

  -- A callback that sets timeouts, each at a time.
  abbrev pub set_all : List (ℕ × C) → Timers C → Timers C
  set_all [] t = t
  set_all ((ms, cb) ∷ l) t = set_all l (timeout_at ms cb t).1

  -- What the callbacks of some entries set, one entry behind the other.
  abbrev pub set_by : (C → List (ℕ × C)) → List (Timer C) → Timers C → Timers C
  set_by adds [] t = t
  set_by adds (e ∷ m) t = set_by adds m (set_all (adds e.cb) t)

  later-After : (now : ℕ) (m : List (Timer C)) → After now (later now m)
  later-After now [] = tt
  later-After now (e ∷ m) = ground (arith, later-After now m)

  due-Before : (now : ℕ) (m : List (Timer C)) → Before now (due now m)
  due-Before now [] = tt
  due-Before now (e ∷ m) = ground (arith, due-Before now m)

  length-due : (now : ℕ) (m : List (Timer C)) → length (due now m) ≤ length m
  length-due now [] = omega arith
  length-due now (e ∷ m) = ground (arith, length-due now m)

  none_due :
      (now n : ℕ) (m : List (Timer C)) → now < n → Since n m → (due now m ≡ []) × (later now m ≡ m)
  none_due now n [] h s = (refl, refl)
  none_due now n (e ∷ m) h s =
      let early : leb e.time now ≡ false = let a = s.0 in ground arith in
      let (d, l) = none_due now n m h s.1 in (rw early d, rw early (ap (λ x. e ∷ x) l))

  due-later : (now : ℕ) (m : List (Timer C)) → IsSorted m → due now m ++ later now m ≡ m
  due-later now [] s = refl
  due-later now (e ∷ m) s = elim (Bool-cases (leb e.time now)) [
    | inl come ↦ rw come (ap (λ x. e ∷ x) (due-later now m s.1))
    | inr early ↦ let (d, l) = none_due now e.time m (ground arith) s.0 in rw (early, d, l) refl
  ]

  emplace-Before :
      (now : ℕ) (e : Timer C) (ds ls : List (Timer C))
      → Before now ds
      → now < e.time
      → emplace e (ds ++ ls) ≡ ds ++ emplace e ls
  unfolding emplace
  emplace-Before now e [] ls b h = refl
  emplace-Before now e (d ∷ ds) ls b h =
      let behind : ltb e.time d.time ≡ false = let a = b.0 in ground arith in
      rw behind (ap (λ x. d ∷ x) (emplace-Before now e ds ls b.1 h))

  emplace-After :
      (now : ℕ) (e : Timer C) (m : List (Timer C))
      → After now m
      → now < e.time
      → After now (emplace e m)
  unfolding emplace
  emplace-After now e [] a h = (h, tt)
  emplace-After now e (f ∷ m) a h = ground (arith, emplace-After now e m a.1 h)

  -- The entries in front are not touched by what is set behind `now`.
  set_all-Before :
      (now : ℕ) (l : List (ℕ × C)) (ds ls : List (Timer C)) (n : ℕ)
      → Before now ds
      → All (λ a. now < a.0) l
      → let front : Timers C = record { time_cbs = ds ++ ls; next_id = n } in
        let behind : Timers C = record { time_cbs = ls; next_id = n } in
        set_all l front ≡ record (set_all l behind) { time_cbs = ds ++ (set_all l behind).time_cbs }
  unfolding timeout_at
  set_all-Before now [] ds ls n b h = refl
  set_all-Before now ((ms, cb) ∷ l) ds ls n b h =
      let e : Timer C = record { time = ms; id = n; cb = cb } in
      rw (emplace-Before now e ds ls b h.0) (set_all-Before now l ds (emplace e ls) (n + 1) b h.1)

  set_all-After :
      (now : ℕ) (l : List (ℕ × C)) (t : Timers C)
      → All (λ a. now < a.0) l
      → After now t.time_cbs
      → After now (set_all l t).time_cbs
  unfolding timeout_at
  set_all-After now [] t h a = a
  set_all-After now ((ms, cb) ∷ l) t h a =
      set_all-After now l (timeout_at ms cb t).1 h.1
        (emplace-After now (record { time = ms; id = t.next_id; cb = cb }) t.time_cbs a h.0)

  module _ (adds : C → List (ℕ × C)) (now : ℕ)
      (future : (c : C) → All (λ a. now < a.0) (adds c)) where
    set_by-After :
        (ds : List (Timer C)) (t : Timers C)
        → After now t.time_cbs
        → After now (set_by adds ds t).time_cbs
    set_by-After [] t a = a
    set_by-After (d ∷ ds) t a =
        set_by-After ds (set_all (adds d.cb) t) (set_all-After now (adds d.cb) t (future d.cb) a)

    stops :
        (fuel : ℕ) (t : Timers C)
        → After now t.time_cbs
        → run_from (λ c. set_all (adds c)) (suc fuel) now (begin t.time_cbs) t ≡ some (t, [])
    unfolding run_from at
    stops fuel t a = stops_at t.time_cbs a
      where
        stops_at :
            (m : List (Timer C))
            → After now m
            → run_from (λ c. set_all (adds c)) (suc fuel) now (begin m) (record t { time_cbs = m })
              ≡ some (record t { time_cbs = m }, [])
        stops_at [] a = refl
        stops_at (e ∷ m) a =
            let here : (e.id == e.id) ≡ true = ground arith in
            let early : leb e.time now ≡ false = let b = a.0 in ground arith in
            rw (here, early) refl

    runs :
        (fuel : ℕ) (ds ls : List (Timer C)) (n : ℕ)
        → Before now ds
        → After now ls
        → length ds < fuel
        → run_from
            (λ c. set_all (adds c))
            fuel
            now
            (begin (ds ++ ls))
            (record { time_cbs = ds ++ ls; next_id = n })
          ≡ some (set_by adds ds (record { time_cbs = ls; next_id = n }), map (λ d. d.cb) ds)
    unfolding run_from at next erase
    runs zero ds ls n b a h = absurd (omega arith)
    runs (suc fuel) [] ls n b a h = stops fuel (record { time_cbs = ls; next_id = n }) a
    runs (suc fuel) (d ∷ ds) ls n b a h =
        let behind : Timers C = record { time_cbs = ls; next_id = n } in
        let t' = set_all (adds d.cb) behind in
        let here : (d.id == d.id) ≡ true = ground arith in
        let come : leb d.time now ≡ true = let x = b.0 in ground arith in
        let sets = set_all-Before now (adds d.cb) (d ∷ ds) ls n b (future d.cb) in
        let rest =
          runs fuel ds t'.time_cbs t'.next_id b.1
            (set_all-After now (adds d.cb) behind (future d.cb) a) (omega arith) in
        rw (here, come, sets, here, rest) refl

  -- When `time_cbs_` is in order and each callback sets timeouts for times behind `now` only,
  -- `run_timeouts` ends within one more round than there are entries: it calls the callbacks of
  -- the entries whose time has come, in order, and leaves the other entries and those that these
  -- callbacks set, all of them behind `now`.
  pub run_timeouts_lem :
      (adds : C → List (ℕ × C)) (fuel now : ℕ) (t : Timers C)
      → IsSorted t.time_cbs
      → ((c : C) → All (λ a. now < a.0) (adds c))
      → length t.time_cbs < fuel
      → (t' : Timers C) × (run_timeouts (λ c. set_all (adds c)) fuel now t
          ≡ some (t', map (λ d. d.cb) (due now t.time_cbs)))
        × (t' ≡ set_by adds (due now t.time_cbs) (record t { time_cbs = later now t.time_cbs }))
        × All (λ e. now < e.time) t'.time_cbs
  unfolding run_timeouts
  run_timeouts_lem adds fuel now t s future h =
      let ds = due now t.time_cbs in
      let ls = later now t.time_cbs in
      let left : Timers C = record t { time_cbs = ls } in
      let short = length-due now t.time_cbs in
      let ran =
        runs adds now future fuel ds ls t.next_id (due-Before now t.time_cbs)
          (later-After now t.time_cbs) (omega arith) in
      (
        set_by adds ds left,
        subst
            (λ m.
              run_from (λ c. set_all (adds c)) fuel now (begin m) (record t { time_cbs = m })
              ≡ some (set_by adds ds left, map (λ d. d.cb) ds))
            (due-later now t.time_cbs s) ran,
        refl,
        set_by-After adds now future ds left (later-After now t.time_cbs),
      )

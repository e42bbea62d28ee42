-- ===== src/Poll/Timers.antt =====
-- The timeouts of xdrpp/pollset.h and pollset.cc: `time_cbs_`, a multimap in the order of its times. An
-- iterator is a number that no other entry has; a time is one of the steady clock's milliseconds.
pub mod Order
pub mod Due
use cs244b.Base.{
  ℕ, zero, suc, ◌+◌, ◌-◌, ◌^◌, Bool, true, false, Option, none, some, List, [], ◌∷◌, ltb, leb, ◌==◌,
  if◌then◌else◌,
}
use cs244b.Poll.{◌>>=◌}

pub record Timer (C : Type 0) : Type 0 where
  pub time : ℕ
  pub id : ℕ
  pub cb : C

-- `time_cbs_`, and the number of the next entry.
pub record Timers (C : Type 0) : Type 0 where
  pub time_cbs : List (Timer C)
  pub next_id : ℕ

-- `numeric_limits<int>::max()`
abbrev pub int_max : ℕ
int_max = 2 ^ 31 - 1

-- `wait`, and the last test of `next_timeout`.
abbrev pub at_most : ℕ → ℕ → ℕ
at_most bound wait = if ltb bound wait then bound else wait

abbrev pub sooner : Option ℕ → ℕ → ℕ
sooner none wait = wait
sooner (some ms) wait = if leb ms wait then ms else wait

module _ {C : Type 0} where
  -- `emplace`: behind the entries of the same time.
  unfoldable pub emplace : Timer C → List (Timer C) → List (Timer C)
  emplace e [] = e ∷ []
  emplace e (f ∷ m) = let rest = emplace e m in if ltb e.time f.time then e ∷ f ∷ m else f ∷ rest

  abbrev pub begin : List (Timer C) → Option ℕ
  begin [] = none
  begin (e ∷ m) = some e.id

  -- `*i`
  unfoldable pub at : ℕ → List (Timer C) → Option (Timer C)
  at i [] = none
  at i (e ∷ m) = let rest = at i m in if e.id == i then some e else rest

  -- The iterator behind `i`.
  unfoldable pub next : ℕ → List (Timer C) → Option ℕ
  next i [] = none
  next i (e ∷ m) = let rest = next i m in if e.id == i then begin m else rest

  unfoldable pub erase : ℕ → List (Timer C) → List (Timer C)
  erase i [] = []
  erase i (e ∷ m) = let rest = erase i m in if e.id == i then m else e ∷ rest

  unfoldable pub timeout_at : ℕ → C → Timers C → ℕ × Timers C
  unfolding emplace
  timeout_at ms cb t =
      let e : Timer C = record { time = ms; id = t.next_id; cb = cb } in
      (t.next_id, record { time_cbs = emplace e t.time_cbs; next_id = t.next_id + 1 })

  -- `timeout_cancel`: a null timeout is `none`, and so is the one that it leaves. The outer `none` is
  -- the failed assertion.
  unfoldable pub timeout_cancel : Option ℕ → Timers C → Option (Option ℕ × Timers C)
  unfolding at erase
  timeout_cancel none t = some (none, t)
  timeout_cancel (some i) t = do
    e ← at i t.time_cbs
    some (none, record t { time_cbs = erase i t.time_cbs })

  unfoldable pub timeout_reschedule_at : ℕ → ℕ → Timers C → Option (ℕ × Timers C)
  unfolding at erase timeout_at
  timeout_reschedule_at i ms t = do
    e ← at i t.time_cbs
    let moved = timeout_at ms e.cb t in
        some (moved.0, record moved.1 { time_cbs = erase i moved.1.time_cbs })

  -- `next_timeout`; a negative `ms`, which waits for ever, is `none`.
  unfoldable pub next_timeout : ℕ → Option ℕ → List (Timer C) → Option ℕ
  next_timeout now ms [] = ms
  next_timeout now ms (e ∷ m) =
      if leb e.time now then some 0 else some (sooner ms (at_most int_max (e.time - now)))

  -- The loop of `run_timeouts`, with what a callback does to the timeouts, and the callbacks it
  -- calls. `none` is an iterator that is no longer there, or the end of the fuel.
  unfoldable pub run_from :
      (C → Timers C → Timers C) → ℕ → ℕ → Option ℕ → Timers C → Option (Timers C × List C)
  unfolding at next erase
  run_from run zero now i t = none
  run_from run (suc fuel) now none t = some (t, [])
  run_from run (suc fuel) now (some i) t = do
    e ← at i t.time_cbs
    if leb e.time now
        then (do
          let t' = run e.cb t in
              (do
                e' ← at i t'.time_cbs
                ran ←
                    run_from run fuel now (next i t'.time_cbs)
                      (record t' { time_cbs = erase i t'.time_cbs })
                some (ran.0, e.cb ∷ ran.1)))
        else some (t, [])

  unfoldable pub run_timeouts :
      (C → Timers C → Timers C) → ℕ → ℕ → Timers C → Option (Timers C × List C)
  unfolding run_from
  run_timeouts run fuel now t = run_from run fuel now (begin t.time_cbs) t

-- ===== src/Poll/Plus/Calls.antt =====
-- What changes a process: the acts of its threads, callbacks, and the two functions of
-- xdrpp/pollset.cc that call them, `run_pending_asyncs` and `run_subtype_handlers`.
use cs244b.Base.{ℕ, ◌-◌, Bool, true, false, Option, none, some, List, [], ◌∷◌, ◌==◌, if◌then◌else◌}
use cs244b.Poll.{is_null, ◌>>=◌}
use cs244b.Poll.Plus.{
  PollsetPlus, Process, Ended, done, thrown, normal, has_signal, num_sig, up_to, put, store, wake,
  signal_handler, handler_returns, signal_cb, inject_cb, async, async_done,
}

-- The calls of a thread, and a signal handler's start and end.
pub data Act (C : Type 0) : Type 0 where
  handles returns : ℕ → Act C
  registers : ℕ → Option C → ℕ → Bool → Act C
  injects : C → ℕ → Act C
  wakes asyncs async_dones : ℕ → Act C

module _ {C : Type 0} where
  unfoldable pub act : Act C → Process C → Option (Ended C)
  unfolding signal_handler handler_returns signal_cb inject_cb
  act (handles sig) s = some (done (signal_handler sig s))
  act (returns sig) s = some (done (handler_returns sig s))
  act (registers sig cb p fails) s = signal_cb sig cb p fails s
  act (injects c p) s = some (done (inject_cb c p s))
  act (wakes p) s = some (done (wake normal p s))
  act (asyncs p) s = some (done (async p s))
  act (async_dones p) s = some (done (async_done p s))

  abbrev pub when_done :
      {B : Type 0} → (Process C → Option B) → (Process C → Option B) → Ended C → Option B
  when_done next other (done s) = next s
  when_done next other (thrown s) = other s

  unfoldable pub perform : List (Act C) → Process C → Option (Ended C)
  unfolding act
  perform [] s = some (done s)
  perform (a ∷ rest) s = do e ← act a s; when_done (perform rest) (λ t. some (thrown t)) e

  -- The self-pipe is read, and the callbacks are taken.
  abbrev pub drained : PollsetPlus C → PollsetPlus C
  drained t = record t {
    selfpipe = [];
    async_cbs = [];
    async_pending = false;
    signal_pending = if t.signal_pending then true else has_signal t.selfpipe;
  }

  -- The signals of `signal_cbs_` with a flag.
  unfoldable pub flagged : PollsetPlus C → (ℕ → ℕ) → List ℕ → List ℕ
  flagged t flags [] = []
  flagged t flags (sig ∷ sigs) =
      let rest = flagged t flags sigs in
      if is_null (t.signal_cbs sig) then rest else if flags sig == 0 then rest else sig ∷ rest

  abbrev pub unless_left : {B : Type 0} → List C → B → Option B
  unless_left [] b = some b
  unless_left (c ∷ cs) b = none

module _ {C : Type 0} (does : C → Process C → List (Act C)) (throws : C → Bool) where
  -- `cb()`
  unfoldable pub call : C → Process C → Option (Ended C)
  unfolding perform
  call c s = do
    e ← perform (does c s) s
    when_done (λ t. some (if throws c then thrown t else done t)) (λ t. some (thrown t)) e

  -- The loop of `run_pending_asyncs`, with the callbacks called. `inject_cb_vec` moves callbacks behind an
  -- exception to where `async_cbs_` has no elements: undefined, unless there are none.
  unfoldable pub call_all : List C → Process C → Option (Ended C × List C)
  unfolding call
  call_all [] s = some (done s, [])
  call_all (c ∷ cs) s = do
    e ← call c s
    when_done (λ t. do (e', l) ← call_all cs t; some (e', c ∷ l))
        (λ t. unless_left cs (thrown t, c ∷ [])) e

  unfoldable pub run_pending_asyncs : ℕ → Process C → Option (Ended C × List C)
  unfolding call_all
  run_pending_asyncs p s = call_all (s.sets p).async_cbs (store p (drained (s.sets p)) s)

  -- The loop of `run_subtype_handlers`, with the callbacks called. While another thread's handler is at
  -- work on the signal it waits; the handler then leaves 2, in place of which comes 0.
  unfoldable pub call_handlers : ℕ → List ℕ → Process C → Option (Ended C × List C)
  unfolding call
  call_handlers p [] s = some (done (store p (record (s.sets p) { signal_pending = false }) s), [])
  call_handlers p (sig ∷ sigs) s = elim ((s.sets p).signal_cbs sig) [
    | none ↦ call_handlers p sigs s
    | some c ↦ do
      e ← call c (record s { signal_flags = put sig 0 s.signal_flags })
      when_done (λ t. do (e', l) ← call_handlers p sigs t; some (e', c ∷ l))
          (λ t. some (thrown t, c ∷ [])) e
  ]

  unfoldable pub run_subtype_handlers : ℕ → Process C → Option (Ended C × List C)
  unfolding call_handlers flagged
  run_subtype_handlers p s =
      if (s.sets p).signal_pending
      then call_handlers p (flagged (s.sets p) s.signal_flags (up_to (num_sig - 1))) s
      else some (done s, [])

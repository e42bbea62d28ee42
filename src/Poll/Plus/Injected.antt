-- ===== src/Poll/Plus/Injected.antt =====
-- The callbacks that `inject_cb` of xdrpp/pollset.h gives a set: the set is woken for them, and
-- `run_pending_asyncs` calls them in order.
use cs244b.Base.{
  ℕ, Bool, true, false, not, ◌||◌, ◌&&◌, Option, none, some, List, [], ◌∷◌, ◌++◌, ◌==◌, ◌≡◌, refl,
  arith, if◌then◌else◌,
}
use cs244b.Poll.Plus.{
  WakeType, Process, PollsetPlus, normal, signal, put, own, store, wake, wake_owner, set_signal_cb,
  raise_flagged, wake_flagged, handler_returns, signal_handler, inject_cb,
}
use cs244b.Poll.Plus.Calls.{Act}
use cs244b.Poll.Plus.Loops.{Stable, Reach-Stable}
use cs244b.Poll.Plus.Reach.{Reach, Reach-IsReady}
use cs244b.Poll.Plus.Handlers.{IsReady}

abbrev no_bytes : List WakeType → Bool
no_bytes [] = true
no_bytes (b ∷ bs) = false

no_bytes-append : (bs : List WakeType) (b : WakeType) → no_bytes (bs ++ (b ∷ [])) ≡ false
no_bytes-append [] b = refl
no_bytes-append (c ∷ bs) b = refl

module _ {C : Type 0} where
  abbrev no_cbs : List C → Bool
  no_cbs [] = true
  no_cbs (c ∷ cs) = false

  -- Callbacks wait only with `async_pending_`, and that only with a byte in the self-pipe.
  abbrev pub awake : PollsetPlus C → Bool
  awake t =
      (no_cbs t.async_cbs || t.async_pending) && (not t.async_pending || not (no_bytes t.selfpipe))

  abbrev pub IsAwake : Process C → Type 0
  IsAwake s = (p : ℕ) → awake (s.sets p) ≡ true

  store-IsAwake :
      (p : ℕ) (t : PollsetPlus C) (s : Process C)
      → awake t ≡ true
      → IsAwake s
      → IsAwake (store p t s)
  store-IsAwake p t s e h q = ground (arith, h q)

  wake-IsAwake : (wt : WakeType) (p : ℕ) (s : Process C) → IsAwake s → IsAwake (wake wt p s)
  wake-IsAwake wt p s h q = ground (arith, h q, h p, no_bytes-append (s.sets p).selfpipe wt)

  set-IsAwake :
      (sig : ℕ) (c : Option C) (p : ℕ) (s : Process C)
      → IsAwake s
      → IsAwake (set_signal_cb sig c p s)
  set-IsAwake sig c p s h q = ground (arith, h q, h p)

  wake_owner-IsAwake : (o : Option ℕ) (s : Process C) → IsAwake s → IsAwake (wake_owner o s)
  wake_owner-IsAwake none s h = h
  wake_owner-IsAwake (some p) s h = wake-IsAwake signal p s h

  choose : (test : Bool) (t u : Process C) → IsAwake t → IsAwake u → IsAwake (if test then t else u)
  choose true t u x y = x
  choose false t u x y = y

  wake_flagged-IsAwake : (sig p : ℕ) (s : Process C) → IsAwake s → IsAwake (wake_flagged sig p s)
  wake_flagged-IsAwake sig p s h =
      choose (s.signal_flags sig == 0) s (wake signal p s) h (wake-IsAwake signal p s h)

  raise_flagged-IsAwake : (sig : ℕ) (s : Process C) → IsAwake s → IsAwake (raise_flagged sig s)
  raise_flagged-IsAwake sig s h q = ground (arith, h q)

  handler_returns-IsAwake : (sig : ℕ) (s : Process C) → IsAwake s → IsAwake (handler_returns sig s)
  unfolding handler_returns
  handler_returns-IsAwake sig s h q = ground (arith, h q)

  signal_handler-IsAwake : (sig : ℕ) (s : Process C) → IsAwake s → IsAwake (signal_handler sig s)
  unfolding signal_handler
  signal_handler-IsAwake sig s h =
      choose (s.signal_flags sig == 0) _ s
        (wake_owner-IsAwake (s.signal_owners sig)
          (record s { signal_flags = put sig 1 s.signal_flags }) h)
        h

  inject_cb-IsAwake : (c : C) (p : ℕ) (s : Process C) → IsAwake s → IsAwake (inject_cb c p s)
  unfolding inject_cb
  inject_cb-IsAwake c p s h q = ground (arith, h q, h p, no_bytes-append (s.sets p).selfpipe normal)

  IsAwake-Stable : Stable true IsAwake
  IsAwake-Stable = record {
    started = λ p. refl;
    closed = record {
      handler = signal_handler-IsAwake;
      returned = handler_returns-IsAwake;
      woken = wake-IsAwake normal;
      injected = inject_cb-IsAwake;
      begun = λ p s h q. ground (arith, h q, h p);
      ended = λ p s h q. ground (arith, h q, h p);
      kept_own = λ sig p c s e h. set-IsAwake sig (some c) p s h;
      no_owner = λ sig p c s e h. set-IsAwake sig (some c) p s h;
      taken = λ sig p c s e v h.
          wake_flagged-IsAwake sig p (own sig (some p) (set_signal_cb sig (some c) p s))
            (set-IsAwake sig (some c) p s h);
      stolen = λ sig p r c s e ne v h.
          let mine : Process C = own sig (some p) (set_signal_cb sig (some c) p s) in
          wake_flagged-IsAwake sig p (set_signal_cb sig none r mine)
            (set-IsAwake sig none r mine (set-IsAwake sig (some c) p s h));
      erased = λ sig p s e h.
          let gone : Process C = set_signal_cb sig none p (own sig none s) in
          raise_flagged-IsAwake sig (handler_returns sig gone)
            (handler_returns-IsAwake sig gone (set-IsAwake sig none p (own sig none s) h));
    };
    cleared = λ sig s h. h;
    served = λ p s h q. ground (arith, h q, h p);
    emptied = λ p s h q. ground (arith, h q);
  }

  abbrev pub AllWoken : Process C → Type 0
  AllWoken s = IsReady s × IsAwake s

  -- In every state that calls, signal handlers, poll rounds and destructors of the process's
  -- sets lead to, whatever the callbacks do or throw and whether or not `sigaction` fails: a
  -- signal that has an owner is a valid one for which the owner has a callback; when its flag is
  -- set, the owner's `signal_pending_` is set or a byte in its self-pipe will set it; and a set
  -- for which injected callbacks wait has a byte in its self-pipe. No wake-up is lost.
  pub Reach-AllWoken :
      {does : C → Process C → List (Act C)} {throws : C → Bool} {s : Process C}
      → Reach does throws true s
      → AllWoken s
  Reach-AllWoken r = (Reach-IsReady r, Reach-Stable IsAwake-Stable r)

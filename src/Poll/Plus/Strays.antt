-- ===== src/Poll/Plus/Strays.antt =====
-- Which sets of xdrpp/pollset.h have callbacks, in the states that a process comes to.
use cs244b.Base.{ℕ, Bool, false, List, ◌≡◌, refl, arith}
use cs244b.Poll.Plus.{Process, PollsetPlus, store}
use cs244b.Poll.Plus.Calls.{Act, drained}
use cs244b.Poll.Plus.Lookups.{has_cb}
use cs244b.Poll.Plus.Ownership.{HasNoStray, HasNoStray-Kept, IsOwned}
use cs244b.Poll.Plus.Acts.{Kept-Closed}
use cs244b.Poll.Plus.Loops.{Stable, Reach-Stable}
use cs244b.Poll.Plus.Reach.{Reach, Reach-IsReady}

module _ {C : Type 0} where
  -- A set's members other than its callbacks do not matter.
  stored-HasNoStray :
      (p : ℕ) (t : PollsetPlus C) (s : Process C)
      → ((j : ℕ) → t.signal_cbs j ≡ (s.sets p).signal_cbs j)
      → HasNoStray s
      → HasNoStray (store p t s)
  unfolding has_cb
  stored-HasNoStray p t s e h j q o = ground (arith, h j q, e j)

  strays-Stable : Stable false (HasNoStray {C = C})
  unfolding has_cb
  strays-Stable = record {
    started = λ j q e. absurd (cc);
    closed = Kept-Closed false HasNoStray HasNoStray-Kept;
    cleared = λ sig s h. h;
    served =
        λ p s h. stored-HasNoStray p (record (s.sets p) { signal_pending = false }) s (λ j. refl) h;
    emptied = λ p s h. stored-HasNoStray p (drained (s.sets p)) s (λ j. refl) h;
  }

  -- In every state that calls, signal handlers, poll rounds and destructors of the process's
  -- sets lead to, when `sigaction` fails for no call of `signal_cb`: a set has a callback for a
  -- signal just when it owns the signal, so that no two sets have one for the same signal, and
  -- each owned signal is a valid one.
  pub Reach-IsOwned :
      {does : C → Process C → List (Act C)} {throws : C → Bool} {s : Process C}
      → Reach does throws false s
      → IsOwned s
  Reach-IsOwned r = ((Reach-IsReady r).0, Reach-Stable strays-Stable r)

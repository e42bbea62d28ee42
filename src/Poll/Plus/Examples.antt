-- ===== src/Poll/Plus/Examples.antt =====
-- Concrete runs of the signals and injected callbacks of xdrpp/pollset.h.
use cs244b.Base.{
  ℕ, All, ◌==◌, ◌++◌, if◌then◌else◌, Bool, true, false, Option, none, some, List, [], ◌∷◌, ◌≡◌,
  refl, inl,
}
use cs244b.Poll.Plus.{
  Process, Ended, done, thrown, fresh_process, num_sig, signal_cb, inject_cb, destroy,
}
use cs244b.Poll.Plus.Calls.{
  Act, registers, handles, injects, act, run_pending_asyncs, run_subtype_handlers, call_all,
}
use cs244b.Poll.Plus.Callbacks.{MayFail}
use cs244b.Poll.Plus.Lookups.{has_cb}
use cs244b.Poll.Plus.Ownership.{IsOwned}
use cs244b.Poll.Plus.Reach.{Reach, start, acts, drains, dispatches}
use cs244b.Poll.Plus.Strays.{Reach-IsOwned}
use cs244b.Poll.Plus.Injected.{AllWoken, Reach-AllWoken}
use cs244b.Poll.Plus.Queue.{Returns, injected_by, run_pending_asyncs_lem}
use cs244b.Poll.Plus.Destroy.{Destroyed, destroy_lem, failed_signal_cb-destroy}

data Sample : Type 0 where
  quiet injecting throwing : Sample

-- One callback injects another into set 1, and one throws.
abbrev does : Sample → List (Act Sample)
does injecting = injects quiet 1 ∷ []
does _ = []

abbrev throws : Sample → Bool
throws throwing = true
throws _ = false

abbrev behind : Option (Ended Sample) → Process Sample
behind (some (done s)) = s
behind (some (thrown s)) = s
behind none = fresh_process

abbrev behind_first : Option (Ended Sample × List Sample) → Process Sample
behind_first (some (done s, l)) = s
behind_first (some (thrown s, l)) = s
behind_first none = fresh_process

-- Set 0 asks for signal 15, set 1 takes it, the signal comes, and set 1 reads its self-pipe.
abbrev asked : Process Sample
asked = behind (act (registers 15 (some quiet) 0 false) fresh_process)

abbrev taken : Process Sample
taken = behind (act (registers 15 (some injecting) 1 false) asked)

abbrev raised : Process Sample
raised = behind (act (handles 15) taken)

abbrev told : Process Sample
told = behind_first (run_pending_asyncs (λ c s. does c) throws 1 raised)

abbrev handled : Process Sample
handled = behind_first (run_subtype_handlers (λ c s. does c) throws 1 told)

never_fails : (b : Bool) (c : Sample) → MayFail b (does c)
never_fails b quiet = tt
never_fails b injecting = (λ h. absurd (cc), tt)
never_fails b throwing = tt

handled-Reach : (b : Bool) → Reach (λ c s. does c) throws b handled
unfolding act run_pending_asyncs run_subtype_handlers
handled-Reach b =
    dispatches 1
      (drains 1
        (acts (handles 15)
          (acts (registers 15 (some injecting) 1 false)
            (acts (registers 15 (some quiet) 0 false) start (λ h. absurd (cc)) (inl refl))
            (λ h. absurd (cc)) (inl refl))
          (λ h. absurd (cc)) (inl refl))
        (λ c u. never_fails b c) ([], inl refl))
      (λ c u. never_fails b c) (injecting ∷ [], inl refl)

-- The callback behind an exception would be moved to where there is no element.
lost_callback : call_all (λ c s. does c) throws (throwing ∷ quiet ∷ []) handled ≡ none
unfolding call_all
lost_callback = refl

Reach-IsOwned_example : IsOwned handled
Reach-IsOwned_example = Reach-IsOwned (handled-Reach false)

Reach-AllWoken_example : AllWoken handled
Reach-AllWoken_example = Reach-AllWoken (handled-Reach true)

destroy_example :
    (t : Process Sample) × (destroy num_sig 1 handled ≡ some t) × Destroyed 1 handled t
destroy_example = destroy_lem 1 handled (Reach-IsOwned (handled-Reach false))

failed_destroy_example :
    (t : Process Sample) × (signal_cb 9 (some quiet) 0 true fresh_process ≡ some (thrown t))
    × ((fuel : ℕ) → destroy fuel 0 t ≡ none)
failed_destroy_example =
    failed_signal_cb-destroy 9 0 quiet fresh_process refl refl (λ j. unfold has_cb in refl)

returning : (c : Sample) → All Returns (does c)
returning quiet = tt
returning injecting = (tt, tt)
returning throwing = tt

abbrev queued : Process Sample
queued = inject_cb quiet 1 (inject_cb injecting 1 fresh_process)

run_pending_asyncs_example :
    (t : Process Sample) × (run_pending_asyncs (λ c u. does c) (λ c. false) 1 queued
      ≡ some (done t, (queued.sets 1).async_cbs))
    × ((q : ℕ)
        → (t.sets q).async_cbs
          ≡ (if q == 1 then [] else (queued.sets q).async_cbs)
            ++ injected_by does q (queued.sets 1).async_cbs)
run_pending_asyncs_example = run_pending_asyncs_lem does returning 1 queued

-- ===== src/Poll/Plus/Handlers.antt =====
-- `run_subtype_handlers` and `run_pending_asyncs` of xdrpp/pollset.cc: no signal's flag is lost.
use cs244b.Base.{
  ℕ, zero, suc, ◌-◌, ◌≤◌, ◌<◌, ◌++◌, Bool, true, false, ◌||◌, Option, none, some, List, [], ◌∷◌,
  ◌==◌, ◌≡◌, refl, inl, inr, arith, if◌then◌else◌, Bool-cases, Option-cases,
}
use cs244b.Poll.{is_null, ◌>>=◌}
use cs244b.Poll.Plus.{Process, PollsetPlus, Ended, done, thrown, put, store, num_sig, up_to}
use cs244b.Poll.Plus.Calls.{
  Act, when_done, unless_left, call, flagged, drained, call_handlers, run_subtype_handlers,
  call_all, run_pending_asyncs,
}
use cs244b.Poll.Plus.Lookups.{told, has_cb}
use cs244b.Poll.Plus.Ownership.{Always, IsHeld, IsHeld-Kept}
use cs244b.Poll.Plus.Acts.{Closed, Closed-both, HasPending, HasPending-Kept, Kept-Closed}
use cs244b.Poll.Plus.Woken.{IsTold, IsTold-Closed}
use cs244b.Poll.Plus.Callbacks.{any_fails, call-Kept}

-- The set `p` still goes through some signals, and the others have `signal_pending_` or not.
abbrev pub mem : ℕ → List ℕ → Bool
mem j [] = false
mem j (sig ∷ sigs) = (j == sig) || mem j sigs

mem-append : (j k : ℕ) (sigs : List ℕ) → mem j (sigs ++ (k ∷ [])) ≡ (mem j sigs || (j == k))
mem-append j k [] = ground arith
mem-append j k (sig ∷ sigs) = ground (arith, mem-append j k sigs)

pub mem-up_to : (j n : ℕ) → 0 < j → j ≤ n → mem j (up_to n) ≡ true
mem-up_to j zero z b = absurd (omega arith)
mem-up_to j (suc n) z b = ground (arith, mem-append j (suc n) (up_to n), mem-up_to j n)

abbrev waits : ℕ → (ℕ → Bool) → List ℕ → ℕ → ℕ → Bool
waits p pend sigs j q = if q == p then mem j sigs else pend q

module _ {C : Type 0} where
  -- The owner of a signal with a flag has `signal_pending_`, or a byte in its self-pipe that will set it.
  abbrev pub IsWoken : Process C → Type 0
  IsWoken s = IsTold (λ j q. (s.sets q).signal_pending) s

  abbrev pub IsReady : Process C → Type 0
  IsReady s = IsHeld s × IsWoken s

  abbrev pub AlwaysFirst : (Process C → Type 0) → Option (Ended C × List C) → Type 0
  AlwaysFirst P none = Unit
  AlwaysFirst P (some (done t, l)) = P t
  AlwaysFirst P (some (thrown t, l)) = P t

  abbrev Inside : ℕ → (ℕ → Bool) → List ℕ → Process C → Type 0
  Inside p pend sigs s = (IsHeld s × HasPending pend s) × IsTold (waits p pend sigs) s

  thrown-IsReady :
      (p : ℕ) (pend : ℕ → Bool) (sigs : List ℕ) (s : Process C)
      → pend p ≡ true
      → Inside p pend sigs s
      → IsReady s
  thrown-IsReady p pend sigs s e ((held, has), h) =
      (held, λ j q o. ground (arith, h j q, has q, has p))

  last-IsReady :
      (p : ℕ) (pend : ℕ → Bool) (s : Process C)
      → Inside p pend [] s
      → IsReady (store p (record (s.sets p) { signal_pending = false }) s)
  unfolding has_cb told
  last-IsReady p pend s ((held, has), h) =
      (λ j q o. ground (arith, held j q), λ j q o. ground (arith, h j q, has q))

  skip-Inside :
      (p sig : ℕ) (pend : ℕ → Bool) (sigs : List ℕ) (s : Process C)
      → (s.sets p).signal_cbs sig ≡ none
      → Inside p pend (sig ∷ sigs) s
      → Inside p pend sigs s
  unfolding has_cb
  skip-Inside p sig pend sigs s e ((held, has), h) =
      ((held, has), λ j q o. ground (arith, h j q, held j q))

  cleared-Inside :
      (p sig : ℕ) (pend : ℕ → Bool) (sigs : List ℕ) (s : Process C)
      → Inside p pend (sig ∷ sigs) s
      → Inside p pend sigs (record s { signal_flags = put sig 0 s.signal_flags })
  unfolding has_cb told
  cleared-Inside p sig pend sigs s ((held, has), h) = ((held, has), λ j q o. ground (arith, h j q))

  -- `signal_pending_` does not change, and with it no signal's flag is lost.
  abbrev pub Settled : (ℕ → Bool) → Process C → Type 0
  Settled pend s = (IsHeld s × HasPending pend s) × IsTold (λ j q. pend q) s

  pub inside-Closed :
      (pend : ℕ → Bool) (told_by : ℕ → ℕ → Bool)
      → Closed {C = C} true (λ s. (IsHeld s × HasPending pend s) × IsTold told_by s)
  inside-Closed pend told_by =
      Closed-both true (λ s. IsHeld s × HasPending pend s) (IsTold told_by)
        (Closed-both true IsHeld (HasPending pend) (Kept-Closed true IsHeld IsHeld-Kept)
          (Kept-Closed true (HasPending pend) (HasPending-Kept pend)))
        (IsTold-Closed told_by)

  pub Settled-start : (s : Process C) → IsReady s → Settled (λ q. (s.sets q).signal_pending) s
  Settled-start s (held, h) = ((held, λ q. refl), h)

  pub Settled-IsReady : (pend : ℕ → Bool) (s : Process C) → Settled pend s → IsReady s
  Settled-IsReady pend s ((held, has), h) = (held, λ j q o. ground (arith, h j q, has q))

  drained-Settled :
      (p : ℕ) (s : Process C)
      → IsReady s
      → Settled
          (λ q. if q == p then (drained (s.sets p)).signal_pending else (s.sets q).signal_pending)
          (store p (drained (s.sets p)) s)
  unfolding has_cb told
  drained-Settled p s (held, h) =
      ((λ j q o. ground (arith, held j q), λ q. ground arith), λ j q o. ground (arith, h j q))

  pub bind-First :
      (P Q : Process C → Type 0) (c : C) (o : Option (Ended C))
      (rest other : Process C → Option (Ended C × List C))
      → Always P o
      → ((t : Process C) → P t → AlwaysFirst Q (rest t))
      → ((t : Process C) → P t → AlwaysFirst Q (other t))
      → AlwaysFirst Q (do e ← o; when_done (λ t. do (e', l) ← rest t; some (e', c ∷ l)) other e)
  bind-First P Q c none rest other x y z = tt
  bind-First P Q c (some (thrown t)) rest other x y z = z t x
  bind-First P Q c (some (done t)) rest other x y z = cons_first Q c (rest t) (y t x)
    where
      cons_first :
          (Q : Process C → Type 0) (c : C) (o : Option (Ended C × List C))
          → AlwaysFirst Q o
          → AlwaysFirst Q (do (e', l) ← o; some (e', c ∷ l))
      cons_first Q c none x = tt
      cons_first Q c (some (done t, l)) x = x
      cons_first Q c (some (thrown t, l)) x = x

module _ {C : Type 0} (does : C → Process C → List (Act C)) (throws : C → Bool) where
  call-Inside :
      (pend : ℕ → Bool) (told_by : ℕ → ℕ → Bool) (c : C) (s : Process C)
      → (IsHeld s × HasPending pend s) × IsTold told_by s
      → Always (λ t. (IsHeld t × HasPending pend t) × IsTold told_by t) (call does throws c s)
  call-Inside pend told_by c s =
      call-Kept (inside-Closed pend told_by) does throws c s (any_fails (does c s))

  pub call_handlers-IsReady :
      (p : ℕ) (pend : ℕ → Bool) (sigs : List ℕ) (s : Process C)
      → pend p ≡ true
      → Inside p pend sigs s
      → AlwaysFirst IsReady (call_handlers does throws p sigs s)
  unfolding call_handlers
  call_handlers-IsReady p pend [] s e h = last-IsReady p pend s h
  call_handlers-IsReady p pend (sig ∷ sigs) s e h =
      elim (Option-cases ((s.sets p).signal_cbs sig)) [
        | inl n ↦
            rw (call_handlers, n)
              (call_handlers-IsReady p pend sigs s e (skip-Inside p sig pend sigs s n h))
        | inr (c, n) ↦
            rw (call_handlers, n)
              (bind-First (Inside p pend sigs) IsReady c _ (call_handlers does throws p sigs) _
                (call-Inside pend (waits p pend sigs) c _ (cleared-Inside p sig pend sigs s h))
                (λ t x. call_handlers-IsReady p pend sigs t e x)
                λ t x. thrown-IsReady p pend sigs t e x)
      ]

  call_all-IsReady :
      (pend : ℕ → Bool) (cs : List C) (s : Process C)
      → Settled pend s
      → AlwaysFirst IsReady (call_all does throws cs s)
  unfolding call_all
  call_all-IsReady pend [] s h = Settled-IsReady pend s h
  call_all-IsReady pend (c ∷ cs) s h =
      bind-First (Settled pend) IsReady c _ (call_all does throws cs) _
        (call-Inside pend (λ j q. pend q) c s h) (λ t x. call_all-IsReady pend cs t x)
        λ t x. left cs t x
    where
      left :
          (cs : List C) (t : Process C)
          → Settled pend t
          → AlwaysFirst IsReady (unless_left cs (thrown t, c ∷ []))
      left [] t x = Settled-IsReady pend t x
      left (d ∷ cs) t x = tt

  pub run_pending_asyncs-IsReady :
      (p : ℕ) (s : Process C) → IsReady s → AlwaysFirst IsReady (run_pending_asyncs does throws p s)
  unfolding run_pending_asyncs
  run_pending_asyncs-IsReady p s h =
      call_all-IsReady
        (λ q. if q == p then (drained (s.sets p)).signal_pending else (s.sets q).signal_pending)
        (s.sets p).async_cbs (store p (drained (s.sets p)) s) (drained-Settled p s h)

  -- The signals that have a flag are those that the loop goes through.
  flagged-mem :
      (t : PollsetPlus C) (flags : ℕ → ℕ) (sigs : List ℕ) (j : ℕ)
      → is_null (t.signal_cbs j) ≡ false
      → (flags j == 0) ≡ false
      → mem j (flagged t flags sigs) ≡ mem j sigs
  unfolding flagged
  flagged-mem t flags [] j h f = refl
  flagged-mem t flags (sig ∷ sigs) j h f = ground (arith, flagged-mem t flags sigs j h f)

  flagged-Inside :
      (p : ℕ) (s : Process C)
      → (s.sets p).signal_pending ≡ true
      → IsReady s
      → Inside p
          (λ q. (s.sets q).signal_pending)
          (flagged (s.sets p) s.signal_flags (up_to (num_sig - 1)))
          s
  unfolding has_cb
  flagged-Inside p s e (held, h) = (
    (held, λ q. refl),
    λ j q o. ground (
      arith,
      held j q,
      h j q,
      flagged-mem (s.sets p) s.signal_flags (up_to (num_sig - 1)) j,
      mem-up_to j 31,
    ),
  )

  pub run_subtype_handlers-IsReady :
      (p : ℕ) (s : Process C)
      → IsReady s
      → AlwaysFirst IsReady (run_subtype_handlers does throws p s)
  unfolding run_subtype_handlers
  run_subtype_handlers-IsReady p s h = elim (Bool-cases (s.sets p).signal_pending) [
    | inl e ↦ rw e (
        call_handlers-IsReady p (λ q. (s.sets q).signal_pending)
          (flagged (s.sets p) s.signal_flags (up_to (num_sig - 1))) s e (flagged-Inside p s e h))
    | inr e ↦ rw e h
  ]

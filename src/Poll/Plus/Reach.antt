-- ===== src/Poll/Plus/Reach.antt =====
-- The states that the calls, the handlers and the poll rounds of xdrpp/pollset.h lead a process to.
use cs244b.Base.{
  ℕ, zero, suc, ◌-◌, Bool, true, false, Option, none, some, List, ◌≡◌, ◌⊎◌, refl, inl, inr, subst,
}
use cs244b.Poll.Plus.{
  Process, Ended, done, thrown, num_sig, up_to, fresh_process, first_cb, erase_signal_cb,
  erased_next, destroy_next, destroy,
}
use cs244b.Poll.Plus.Calls.{Act, act, run_subtype_handlers, run_pending_asyncs}
use cs244b.Poll.Plus.Ownership.{Always}
use cs244b.Poll.Plus.Acts.{fails, act-Kept, erase_signal_cb-Kept}
use cs244b.Poll.Plus.Callbacks.{MayFail}
use cs244b.Poll.Plus.Handlers.{
  inside-Closed, Settled, Settled-start, Settled-IsReady, AlwaysFirst, IsReady,
  run_pending_asyncs-IsReady, run_subtype_handlers-IsReady,
}

module _ {C : Type 0} where
  -- A call ends in a state, whether it returns or throws.
  abbrev pub Leads : Option (Ended C) → Process C → Type 0
  Leads o t = (o ≡ some (done t)) ⊎ (o ≡ some (thrown t))

  abbrev pub LeadsFirst : Option (Ended C × List C) → Process C → Type 0
  LeadsFirst o t = (l : List C) × ((o ≡ some (done t, l)) ⊎ (o ≡ some (thrown t, l)))

  pub Leads-Always :
      (P : Process C → Type 0) (o : Option (Ended C)) (t : Process C) → Leads o t → Always P o → P t
  Leads-Always P o t (inl e) x = subst (Always P) e x
  Leads-Always P o t (inr e) x = subst (Always P) e x

  pub LeadsFirst-Always :
      (P : Process C → Type 0) (o : Option (Ended C × List C)) (t : Process C)
      → LeadsFirst o t
      → AlwaysFirst P o
      → P t
  LeadsFirst-Always P o t (l, inl e) x = subst (AlwaysFirst P) e x
  LeadsFirst-Always P o t (l, inr e) x = subst (AlwaysFirst P) e x

module _ {C : Type 0} (does : C → Process C → List (Act C)) (throws : C → Bool) where
  -- With `b`, `sigaction` fails for some calls.
  pub data Reach (b : Bool) : Process C → Type 0 where
    start : Reach b fresh_process
    acts :
        {s t : Process C} (a : Act C)
        → Reach b s
        → (fails a ≡ true → b ≡ true)
        → Leads (act a s) t
        → Reach b t
    drains :
        {s t : Process C} (p : ℕ)
        → Reach b s
        → ((c : C) (u : Process C) → MayFail b (does c u))
        → LeadsFirst (run_pending_asyncs does throws p s) t
        → Reach b t
    dispatches :
        {s t : Process C} (p : ℕ)
        → Reach b s
        → ((c : C) (u : Process C) → MayFail b (does c u))
        → LeadsFirst (run_subtype_handlers does throws p s) t
        → Reach b t
    destroys : {s t : Process C} (fuel p : ℕ) → Reach b s → destroy fuel p s ≡ some t → Reach b t

module _ {C : Type 0} where
  abbrev pub Erases : (Process C → Type 0) → Type 0
  Erases P = (sig : ℕ) (t : Process C) → P t → Always P (some (erase_signal_cb sig false t))

  abbrev pub AlwaysSome : (Process C → Type 0) → Option (Process C) → Type 0
  AlwaysSome P none = Unit
  AlwaysSome P (some t) = P t

  module _ (P : Process C → Type 0) (k : Erases P) where
    erased_next-Always :
        (rest : Process C → Option (Process C)) (e : Ended C)
        → ((t : Process C) → P t → AlwaysSome P (rest t))
        → Always P (some e)
        → AlwaysSome P (erased_next rest e)
    erased_next-Always rest (done t) h x = h t x
    erased_next-Always rest (thrown t) h x = tt

    destroy_next-Always :
        (rest : Process C → Option (Process C)) (s : Process C) (o : Option ℕ)
        → ((t : Process C) → P t → AlwaysSome P (rest t))
        → P s
        → AlwaysSome P (destroy_next rest s o)
    destroy_next-Always rest s none h x = x
    destroy_next-Always rest s (some sig) h x =
        erased_next-Always rest (erase_signal_cb sig false s) h (k sig s x)

    pub destroy-Always : (fuel p : ℕ) (s : Process C) → P s → AlwaysSome P (destroy fuel p s)
    unfolding destroy
    destroy-Always zero p s x = tt
    destroy-Always (suc fuel) p s x =
        destroy_next-Always (destroy fuel p) s
          (first_cb (s.sets p).signal_cbs (up_to (num_sig - 1))) (destroy-Always fuel p) x

  Settled-Always :
      (pend : ℕ → Bool) (o : Option (Ended C)) → Always (Settled pend) o → Always IsReady o
  Settled-Always pend none x = tt
  Settled-Always pend (some (done t)) x = Settled-IsReady pend t x
  Settled-Always pend (some (thrown t)) x = Settled-IsReady pend t x

  act-IsReady : (a : Act C) (s : Process C) → IsReady s → Always IsReady (act a s)
  act-IsReady a s x =
      let pend : ℕ → Bool = λ q. (s.sets q).signal_pending in
      Settled-Always pend (act a s)
        (act-Kept (inside-Closed pend (λ j q. pend q)) a s (λ h. refl) (Settled-start s x))

  erase-IsReady : Erases (IsReady {C = C})
  erase-IsReady sig s x =
      let pend : ℕ → Bool = λ q. (s.sets q).signal_pending in
      Settled-Always pend (some (erase_signal_cb sig false s))
        (erase_signal_cb-Kept (inside-Closed pend (λ j q. pend q)) sig false s (Settled-start s x))

  -- In every state the owner of a signal has its callback, and knows of its flag.
  pub Reach-IsReady :
      {does : C → Process C → List (Act C)} {throws : C → Bool} {b : Bool} {s : Process C}
      → Reach does throws b s
      → IsReady s
  Reach-IsReady start = (λ j q e. absurd (cc), λ j q e. refl)
  Reach-IsReady (acts {s} a r ok e) =
      Leads-Always IsReady (act a s) _ e (act-IsReady a s (Reach-IsReady r))
  Reach-IsReady {does} {throws} (drains {s} p r ok e) =
      LeadsFirst-Always IsReady (run_pending_asyncs does throws p s) _ e
        (run_pending_asyncs-IsReady does throws p s (Reach-IsReady r))
  Reach-IsReady {does} {throws} (dispatches {s} p r ok e) =
      LeadsFirst-Always IsReady (run_subtype_handlers does throws p s) _ e
        (run_subtype_handlers-IsReady does throws p s (Reach-IsReady r))
  Reach-IsReady (destroys {s} fuel p r e) =
      subst (AlwaysSome IsReady) e (destroy-Always IsReady erase-IsReady fuel p s (Reach-IsReady r))

-- ===== src/Poll/Plus/Loops.antt =====
-- What the loops of xdrpp/pollset.cc over callbacks keep: what each call keeps, and the changes of a set's
-- own members between them.
use cs244b.Base.{ℕ, ◌-◌, Bool, false, List, [], ◌∷◌, inl, inr, Bool-cases, Option-cases, subst}
use cs244b.Poll.Plus.{Process, thrown, put, store, num_sig, up_to, fresh_process}
use cs244b.Poll.Plus.Calls.{
  Act, unless_left, act, flagged, drained, call_handlers, run_subtype_handlers, call_all,
  run_pending_asyncs,
}
use cs244b.Poll.Plus.Acts.{Closed, act-Kept, erase_signal_cb-Kept}
use cs244b.Poll.Plus.Callbacks.{MayFail, call-Kept}
use cs244b.Poll.Plus.Handlers.{AlwaysFirst, bind-First}
use cs244b.Poll.Plus.Reach.{
  Reach, start, acts, drains, dispatches, destroys, Leads-Always, LeadsFirst-Always, AlwaysSome,
  destroy-Always,
}

module _ {C : Type 0} where
  -- Kept by the calls, and by what the loops do themselves.
  pub record Stable (b : Bool) (P : Process C → Type 0) : Type 0 where
    pub started : P fresh_process
    pub closed : Closed b P
    pub cleared :
        (sig : ℕ) (s : Process C) → P s → P (record s { signal_flags = put sig 0 s.signal_flags })
    pub served :
        (p : ℕ) (s : Process C) → P s → P (store p (record (s.sets p) { signal_pending = false }) s)
    pub emptied : (p : ℕ) (s : Process C) → P s → P (store p (drained (s.sets p)) s)

module _ {C : Type 0} {b : Bool} {P : Process C → Type 0} (k : Stable b P) where
  module _ (does : C → Process C → List (Act C)) (throws : C → Bool)
      (ok : (c : C) (u : Process C) → MayFail b (does c u)) where
    call_handlers-Stable :
        (p : ℕ) (sigs : List ℕ) (s : Process C)
        → P s
        → AlwaysFirst P (call_handlers does throws p sigs s)
    unfolding call_handlers
    call_handlers-Stable p [] s h = k.served p s h
    call_handlers-Stable p (sig ∷ sigs) s h = elim (Option-cases ((s.sets p).signal_cbs sig)) [
      | inl n ↦ rw (call_handlers, n) (call_handlers-Stable p sigs s h)
      | inr (c, n) ↦
          rw (call_handlers, n)
            (bind-First P P c _ (call_handlers does throws p sigs) _
              (call-Kept k.closed does throws c _ (ok c _) (k.cleared sig s h))
              (λ t x. call_handlers-Stable p sigs t x) λ t x. x)
    ]

    call_all-Stable :
        (cs : List C) (s : Process C) → P s → AlwaysFirst P (call_all does throws cs s)
    unfolding call_all
    call_all-Stable [] s h = h
    call_all-Stable (c ∷ cs) s h =
        bind-First P P c _ (call_all does throws cs) _
          (call-Kept k.closed does throws c s (ok c s) h) (λ t x. call_all-Stable cs t x)
          λ t x. left cs t x
      where
        left :
            (cs : List C) (t : Process C) → P t → AlwaysFirst P (unless_left cs (thrown t, c ∷ []))
        left [] t x = x
        left (d ∷ cs) t x = tt

    run_subtype_handlers-Stable :
        (p : ℕ) (s : Process C) → P s → AlwaysFirst P (run_subtype_handlers does throws p s)
    unfolding run_subtype_handlers
    run_subtype_handlers-Stable p s h = elim (Bool-cases (s.sets p).signal_pending) [
      | inl e ↦
          rw e
            (call_handlers-Stable p (flagged (s.sets p) s.signal_flags (up_to (num_sig - 1))) s h)
      | inr e ↦ rw e h
    ]

    run_pending_asyncs-Stable :
        (p : ℕ) (s : Process C) → P s → AlwaysFirst P (run_pending_asyncs does throws p s)
    unfolding run_pending_asyncs
    run_pending_asyncs-Stable p s h =
        call_all-Stable (s.sets p).async_cbs (store p (drained (s.sets p)) s) (k.emptied p s h)

  pub Reach-Stable :
      {does : C → Process C → List (Act C)} {throws : C → Bool} {s : Process C}
      → Reach does throws b s
      → P s
  Reach-Stable start = k.started
  Reach-Stable (acts {s} a r ok e) =
      Leads-Always P (act a s) _ e (act-Kept k.closed a s ok (Reach-Stable r))
  Reach-Stable {does} {throws} (drains {s} p r ok e) =
      LeadsFirst-Always P (run_pending_asyncs does throws p s) _ e
        (run_pending_asyncs-Stable does throws ok p s (Reach-Stable r))
  Reach-Stable {does} {throws} (dispatches {s} p r ok e) =
      LeadsFirst-Always P (run_subtype_handlers does throws p s) _ e
        (run_subtype_handlers-Stable does throws ok p s (Reach-Stable r))
  Reach-Stable (destroys {s} fuel p r e) = subst (AlwaysSome P) e (
      destroy-Always P (λ sig t. erase_signal_cb-Kept k.closed sig false t) fuel p s
        (Reach-Stable r))

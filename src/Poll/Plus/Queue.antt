-- ===== src/Poll/Plus/Queue.antt =====
-- `run_pending_asyncs` of xdrpp/pollset.cc calls what `inject_cb` gave a set, in order.
use cs244b.Base.{
  ℕ, true, false, Option, none, some, List, [], ◌∷◌, ◌++◌, append-nil, append_assoc, ◌==◌, ◌≡◌,
  refl, sym, ap, ◌∙◌, arith, inl, inr, if◌then◌else◌, Bool-cases, All,
}
use cs244b.Poll.Plus.{
  Process, Ended, done, put, own, store, wake_owner, set_signal_cb, take_signal, erase_owned,
  erase_signal_cb, is_valid, signal_cb, remove_signal_cb, wake_flagged, handler_returns,
  signal_handler, inject_cb,
}
use cs244b.Poll.Plus.Calls.{
  Act, handles, returns, registers, injects, wakes, asyncs, async_dones, act, perform, call,
  drained, call_all, run_pending_asyncs,
}

module _ {C : Type 0} where
  -- An act that neither aborts nor throws.
  abbrev pub Returns : Act C → Type 0
  Returns (registers sig cb p fails) = (is_valid sig ≡ true) × (fails ≡ false)
  Returns _ = Unit

  -- What the acts inject into set `q`, in order.
  abbrev pub injected : ℕ → List (Act C) → List C
  injected q [] = []
  injected q (injects c p ∷ acts) = let rest = injected q acts in if q == p then c ∷ rest else rest
  injected q (a ∷ acts) = injected q acts

  -- The call returns, and each set's injected callbacks are followed by some.
  abbrev Adds : (ℕ → List C) → Process C → Option (Ended C) → Type 0
  Adds new s o =
      (t : Process C) × (o ≡ some (done t))
      × ((q : ℕ) → (t.sets q).async_cbs ≡ (s.sets q).async_cbs ++ new q)

  nothing :
      (s t : Process C)
      → ((q : ℕ) → (t.sets q).async_cbs ≡ (s.sets q).async_cbs)
      → Adds (λ q. []) s (some (done t))
  nothing s t h = (t, refl, λ q. h q ∙ sym (append-nil _))

  take-Adds :
      (sig p : ℕ) (c : C) (o : Option ℕ) (s : Process C)
      → Adds (λ q. []) s (some (take_signal sig p false o (set_signal_cb sig (some c) p s)))
  take-Adds sig p c none s = nothing s _ λ q. ground arith
  take-Adds sig p c (some r) s = elim (Bool-cases (r == p)) [
    | inl e ↦ (
      set_signal_cb sig (some c) p s,
      ground arith,
      λ q. ground (arith, append-nil (s.sets q).async_cbs),
    )
    | inr e ↦
        let t : Process C =
          wake_flagged sig p
            (set_signal_cb sig none r (own sig (some p) (set_signal_cb sig (some c) p s))) in
        (t, ground arith, λ q. ground (arith, append-nil (s.sets q).async_cbs))
  ]

  erase-Adds :
      (sig : ℕ) (o : Option ℕ) (s : Process C) → Adds (λ q. []) s (some (erase_owned sig false o s))
  unfolding handler_returns
  erase-Adds sig none s = nothing s _ λ q. refl
  erase-Adds sig (some p) s = nothing s _ λ q. ground arith

  signal_cb-Adds :
      (sig p : ℕ) (cb : Option C) (s : Process C)
      → is_valid sig ≡ true
      → Adds (λ q. []) s (signal_cb sig cb p false s)
  unfolding signal_cb remove_signal_cb erase_signal_cb
  signal_cb-Adds sig p none s v = rw v (erase-Adds sig (s.signal_owners sig) s)
  signal_cb-Adds sig p (some c) s v = rw v (take-Adds sig p c (s.signal_owners sig) s)

  handler_adds :
      (sig : ℕ) (o : Option ℕ) (s : Process C) (q : ℕ)
      → ((if s.signal_flags sig == 0
            then wake_owner o (record s { signal_flags = put sig 1 s.signal_flags })
            else s).sets
          q).async_cbs
        ≡ (s.sets q).async_cbs
  handler_adds sig none s q = ground arith
  handler_adds sig (some p) s q = ground arith

  act-Adds : (a : Act C) (s : Process C) → Returns a → Adds (λ q. injected q (a ∷ [])) s (act a s)
  unfolding act signal_handler
  act-Adds (handles sig) s h = nothing s _ λ q. handler_adds sig (s.signal_owners sig) s q
  act-Adds (returns sig) s h = nothing s _ λ q. unfold handler_returns in ground arith
  act-Adds (registers sig cb p fails) s (v, f) = rw f (signal_cb-Adds sig p cb s v)
  act-Adds (injects c p) s h = (
    inject_cb c p s,
    refl,
    λ q. unfold inject_cb in ground (arith, append-nil (s.sets q).async_cbs),
  )
  act-Adds (wakes p) s h = nothing s _ λ q. ground arith
  act-Adds (asyncs p) s h = nothing s _ λ q. ground arith
  act-Adds (async_dones p) s h = nothing s _ λ q. ground arith

  injected-cons :
      (q : ℕ) (a : Act C) (acts : List (Act C))
      → injected q (a ∷ acts) ≡ injected q (a ∷ []) ++ injected q acts
  injected-cons q (handles sig) acts = refl
  injected-cons q (returns sig) acts = refl
  injected-cons q (registers sig cb p fails) acts = refl
  injected-cons q (injects c p) acts = ground arith
  injected-cons q (wakes p) acts = refl
  injected-cons q (asyncs p) acts = refl
  injected-cons q (async_dones p) acts = refl

  perform-Adds :
      (acts : List (Act C)) (s : Process C)
      → All Returns acts
      → Adds (λ q. injected q acts) s (perform acts s)
  unfolding perform
  perform-Adds [] s h = nothing s s λ q. refl
  perform-Adds (a ∷ acts) s (h, hs) =
      let (t, e, x) = act-Adds a s h in
      let (u, e', y) = perform-Adds acts t hs in
      (
        u,
        rw e e',
        λ q.
            y q
            ∙ ap (λ z. z ++ injected q acts) (x q)
            ∙ append_assoc (s.sets q).async_cbs (injected q (a ∷ [])) (injected q acts)
            ∙ ap (λ z. (s.sets q).async_cbs ++ z) (sym (injected-cons q a acts)),
      )

  -- What the callbacks inject into set `q`, one after the other.
  abbrev pub injected_by : (C → List (Act C)) → ℕ → List C → List C
  injected_by acts q [] = []
  injected_by acts q (c ∷ cs) = injected q (acts c) ++ injected_by acts q cs

module _ {C : Type 0} (acts : C → List (Act C)) (ok : (c : C) → All Returns (acts c)) where
  call_all-calls :
      (cs : List C) (s : Process C)
      → (t : Process C) × (call_all (λ c u. acts c) (λ c. false) cs s ≡ some (done t, cs))
        × ((q : ℕ) → (t.sets q).async_cbs ≡ (s.sets q).async_cbs ++ injected_by acts q cs)
  unfolding call_all call
  call_all-calls [] s = (s, refl, λ q. sym (append-nil _))
  call_all-calls (c ∷ cs) s =
      let (t, e, x) = perform-Adds (acts c) s (ok c) in
      let (u, e', y) = call_all-calls cs t in
      (
        u,
        rw (e, e') refl,
        λ q.
            y q
            ∙ ap (λ z. z ++ injected_by acts q cs) (x q)
            ∙ append_assoc (s.sets q).async_cbs (injected q (acts c)) (injected_by acts q cs),
      )

  -- When the callbacks' acts neither abort nor throw, nor do the callbacks, `run_pending_asyncs`
  -- of a set returns and has called just the callbacks that were injected into the set, once
  -- each and in order; what these callbacks inject follows, in order, what waits in each other
  -- set, and alone waits in this one.
  pub run_pending_asyncs_lem :
      (p : ℕ) (s : Process C)
      → (t : Process C) × (run_pending_asyncs (λ c u. acts c) (λ c. false) p s
          ≡ some (done t, (s.sets p).async_cbs))
        × ((q : ℕ)
            → (t.sets q).async_cbs
              ≡ (if q == p then [] else (s.sets q).async_cbs)
                ++ injected_by acts q (s.sets p).async_cbs)
  unfolding run_pending_asyncs
  run_pending_asyncs_lem p s =
      let (t, e, x) = call_all-calls (s.sets p).async_cbs (store p (drained (s.sets p)) s) in
      (t, e, λ q. ground (arith, x q))

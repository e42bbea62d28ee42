-- ===== src/Poll/Plus/Acts.antt =====
-- What the calls of xdrpp/pollset.h on signals keep, one by one.
use cs244b.Base.{
  ℕ, Bool, true, false, Option, none, some, ◌==◌, ◌≡◌, refl, ◌∙◌, inl, inr, arith, if◌then◌else◌,
  Bool-cases,
}
use cs244b.Poll.Plus.{
  Process, done, normal, own, set_signal_cb, take_signal, erase_owned, raise_flagged, wake_flagged,
  signal_handler, inject_cb, async, async_done, wake, handler_returns, erase_signal_cb, signal_cb,
  remove_signal_cb, is_valid,
}
use cs244b.Poll.Plus.Calls.{
  Act, handles, returns, registers, injects, wakes, asyncs, async_dones, act,
}
use cs244b.Poll.Plus.Lookups.{
  wake-Same, wake_flagged-Same, raise_flagged-Same, signal_handler-Same, handler_returns-Same,
  inject_cb-Same, async-Same, async_done-Same,
}
use cs244b.Poll.Plus.Ownership.{Always, IsHeld, HasNoStray, IsHeld-Kept, HasNoStray-Kept, Kept}

module _ {C : Type 0} where
  -- `sigaction` fails for a signal that a set asks for.
  abbrev pub fails : Act C → Bool
  fails (registers sig (some c) p b) = b
  fails _ = false

  -- What the calls keep, one by one.
  pub record Closed (b : Bool) (P : Process C → Type 0) : Type 0 where
    pub handler : (sig : ℕ) (s : Process C) → P s → P (signal_handler sig s)
    pub returned : (sig : ℕ) (s : Process C) → P s → P (handler_returns sig s)
    pub woken : (p : ℕ) (s : Process C) → P s → P (wake normal p s)
    pub injected : (c : C) (p : ℕ) (s : Process C) → P s → P (inject_cb c p s)
    pub begun : (p : ℕ) (s : Process C) → P s → P (async p s)
    pub ended : (p : ℕ) (s : Process C) → P s → P (async_done p s)
    pub kept_own :
        (sig p : ℕ) (c : C) (s : Process C)
        → s.signal_owners sig ≡ some p
        → P s
        → P (set_signal_cb sig (some c) p s)
    pub no_owner :
        (sig p : ℕ) (c : C) (s : Process C)
        → b ≡ true
        → P s
        → P (own sig none (set_signal_cb sig (some c) p s))
    pub taken :
        (sig p : ℕ) (c : C) (s : Process C)
        → s.signal_owners sig ≡ none
        → is_valid sig ≡ true
        → P s
        → P (wake_flagged sig p (own sig (some p) (set_signal_cb sig (some c) p s)))
    pub stolen :
        (sig p r : ℕ) (c : C) (s : Process C)
        → s.signal_owners sig ≡ some r
        → (r == p) ≡ false
        → is_valid sig ≡ true
        → P s
        → P (
            wake_flagged sig p
              (set_signal_cb sig none r (own sig (some p) (set_signal_cb sig (some c) p s))))
    pub erased :
        (sig p : ℕ) (s : Process C)
        → s.signal_owners sig ≡ some p
        → P s
        → P (raise_flagged sig (handler_returns sig (set_signal_cb sig none p (own sig none s))))

  pub Kept-Closed : (b : Bool) (P : Process C → Type 0) → Kept b P → Closed b P
  Kept-Closed b P k = record {
    handler = λ sig s. k.same s _ (signal_handler-Same sig s);
    returned = λ sig s. k.same s _ (handler_returns-Same sig s);
    woken = λ p s. k.same s _ (wake-Same normal p s);
    injected = λ c p s. k.same s _ (inject_cb-Same c p s);
    begun = λ p s. k.same s _ (async-Same p s);
    ended = λ p s. k.same s _ (async_done-Same p s);
    kept_own = k.kept_own;
    no_owner = k.no_owner;
    taken = λ sig p c s e v x.
        let t : Process C = own sig (some p) (set_signal_cb sig (some c) p s) in
        k.same t _ (wake_flagged-Same sig p t) (k.taken sig p c s e v x);
    stolen = λ sig p r c s e ne v x.
        let t : Process C =
          set_signal_cb sig none r (own sig (some p) (set_signal_cb sig (some c) p s)) in
        k.same t _ (wake_flagged-Same sig p t) (k.stolen sig p r c s e ne v x);
    erased = λ sig p s e x.
        let t : Process C = set_signal_cb sig none p (own sig none s) in
        k.same (handler_returns sig t) _ (raise_flagged-Same sig _)
          (k.same t _ (handler_returns-Same sig t) (k.erased sig p s e x));
  }

  pub Closed-both :
      (b : Bool) (P Q : Process C → Type 0) → Closed b P → Closed b Q → Closed b (λ s. P s × Q s)
  Closed-both b P Q k l = record {
    handler = λ sig s (x, y). (k.handler sig s x, l.handler sig s y);
    returned = λ sig s (x, y). (k.returned sig s x, l.returned sig s y);
    woken = λ p s (x, y). (k.woken p s x, l.woken p s y);
    injected = λ c p s (x, y). (k.injected c p s x, l.injected c p s y);
    begun = λ p s (x, y). (k.begun p s x, l.begun p s y);
    ended = λ p s (x, y). (k.ended p s x, l.ended p s y);
    kept_own = λ sig p c s e (x, y). (k.kept_own sig p c s e x, l.kept_own sig p c s e y);
    no_owner = λ sig p c s e (x, y). (k.no_owner sig p c s e x, l.no_owner sig p c s e y);
    taken = λ sig p c s e v (x, y). (k.taken sig p c s e v x, l.taken sig p c s e v y);
    stolen =
        λ sig p r c s e ne v (x, y). (k.stolen sig p r c s e ne v x, l.stolen sig p r c s e ne v y);
    erased = λ sig p s e (x, y). (k.erased sig p s e x, l.erased sig p s e y);
  }

  module _ {b : Bool} {P : Process C → Type 0} (k : Closed b P) where
    choose :
        (test : Bool) (t u : Process C)
        → (test ≡ true → P t)
        → (test ≡ false → P u)
        → Always P (some (if test then done t else done u))
    choose true t u x y = x refl
    choose false t u x y = y refl

    take-Kept :
        (sig p : ℕ) (c : C) (f : Bool) (o : Option ℕ) (s : Process C)
        → s.signal_owners sig ≡ o
        → is_valid sig ≡ true
        → (f ≡ true → b ≡ true)
        → P s
        → Always P (some (take_signal sig p f o (set_signal_cb sig (some c) p s)))
    take-Kept sig p c true none s e v h x = k.no_owner sig p c s (h refl) x
    take-Kept sig p c false none s e v h x = k.taken sig p c s e v x
    take-Kept sig p c f (some r) s e v h x =
        let mine : Process C = set_signal_cb sig (some c) p s in
        let other : Process C = set_signal_cb sig none r (own sig (some p) mine) in
        choose (r == p) mine (wake_flagged sig p other)
          (λ same. k.kept_own sig p c s (ground arith) x) λ ne. k.stolen sig p r c s e ne v x

    erase-Kept :
        (sig : ℕ) (f : Bool) (o : Option ℕ) (s : Process C)
        → s.signal_owners sig ≡ o
        → P s
        → Always P (some (erase_owned sig f o s))
    erase-Kept sig f none s e x = x
    erase-Kept sig true (some p) s e x = x
    erase-Kept sig false (some p) s e x = k.erased sig p s e x

    pub erase_signal_cb-Kept :
        (sig : ℕ) (f : Bool) (s : Process C) → P s → Always P (some (erase_signal_cb sig f s))
    unfolding erase_signal_cb
    erase_signal_cb-Kept sig f s x = erase-Kept sig f (s.signal_owners sig) s refl x

    signal_cb-Kept :
        (sig : ℕ) (cb : Option C) (p : ℕ) (f : Bool) (s : Process C)
        → (fails (registers sig cb p f) ≡ true → b ≡ true)
        → P s
        → Always P (signal_cb sig cb p f s)
    unfolding signal_cb remove_signal_cb
    signal_cb-Kept sig none p f s h x = elim (Bool-cases (is_valid sig)) [
      | inl v ↦ rw v (erase_signal_cb-Kept sig f s x)
      | inr v ↦ rw v tt
    ]
    signal_cb-Kept sig (some c) p f s h x = elim (Bool-cases (is_valid sig)) [
      | inl v ↦ rw v (take-Kept sig p c f (s.signal_owners sig) s refl v h x)
      | inr v ↦ rw v tt
    ]

    pub act-Kept :
        (a : Act C) (s : Process C) → (fails a ≡ true → b ≡ true) → P s → Always P (act a s)
    unfolding act
    act-Kept (handles sig) s h = k.handler sig s
    act-Kept (returns sig) s h = k.returned sig s
    act-Kept (registers sig cb p f) s h = signal_cb-Kept sig cb p f s h
    act-Kept (injects c p) s h = k.injected c p s
    act-Kept (wakes p) s h = k.woken p s
    act-Kept (asyncs p) s h = k.begun p s
    act-Kept (async_dones p) s h = k.ended p s

  -- A call leaves each signal that has an owner with a callback of the owner, even when it throws.
  pub act-IsHeld : (a : Act C) (s : Process C) → IsHeld s → Always IsHeld (act a s)
  act-IsHeld a s = act-Kept (Kept-Closed true IsHeld IsHeld-Kept) a s (λ h. refl)

  pub act-HasNoStray :
      (a : Act C) (s : Process C) → fails a ≡ false → HasNoStray s → Always HasNoStray (act a s)
  act-HasNoStray a s ok = act-Kept (Kept-Closed false HasNoStray HasNoStray-Kept) a s (λ h. cc)

  abbrev pub HasPending : (ℕ → Bool) → Process C → Type 0
  HasPending pend s = (q : ℕ) → (s.sets q).signal_pending ≡ pend q

  pub HasPending-Kept : (pend : ℕ → Bool) → Kept {C = C} true (HasPending pend)
  HasPending-Kept pend = record {
    same = λ s t (o, h, w) x q. w q ∙ x q;
    kept_own = λ sig p c s e x q. ground (arith, x q);
    no_owner = λ sig p c s e x q. ground (arith, x q);
    taken = λ sig p c s e v x q. ground (arith, x q);
    stolen = λ sig p r c s e ne v x q. ground (arith, x q);
    erased = λ sig p s e x q. ground (arith, x q);
  }

  pub act-HasPending :
      (a : Act C) (pend : ℕ → Bool) (s : Process C)
      → HasPending pend s
      → Always (HasPending pend) (act a s)
  act-HasPending a pend s =
      act-Kept (Kept-Closed true (HasPending pend) (HasPending-Kept pend)) a s (λ h. refl)

-- ===== src/Poll/Plus/Lookups.antt =====
-- What a process of xdrpp/pollset.h has of a signal in a set: whether there is a callback, and whether the
-- set has been told that a signal came.
use cs244b.Base.{
  ℕ, Bool, true, false, not, Option, none, some, List, [], ◌∷◌, ◌++◌, ◌==◌, if◌then◌else◌, ◌≡◌,
  refl, arith,
}
use cs244b.Poll.{is_null}
use cs244b.Poll.Plus.{
  WakeType, normal, signal, Process, is_signal, has_signal, wake, wake_owner, wake_flagged,
  raise_flagged, set_signal_cb, signal_handler, handler_returns, inject_cb, async, async_done,
}

has_signal-append :
    (bs : List WakeType) (b : WakeType)
    → has_signal (bs ++ (b ∷ [])) ≡ (if has_signal bs then true else is_signal b)
has_signal-append [] normal = refl
has_signal-append [] signal = refl
has_signal-append (normal ∷ bs) b = has_signal-append bs b
has_signal-append (signal ∷ bs) b = refl

module _ {C : Type 0} where
  -- The set has a callback for the signal.
  unfoldable pub has_cb : Process C → ℕ → ℕ → Bool
  has_cb s p sig = not (is_null ((s.sets p).signal_cbs sig))

  -- A byte in the self-pipe will set `signal_pending_`.
  unfoldable pub told : Process C → ℕ → Bool
  told s p = has_signal (s.sets p).selfpipe

  pub has_cb-set :
      (sig : ℕ) (c : Option C) (p : ℕ) (s : Process C) (q j : ℕ)
      → has_cb (set_signal_cb sig c p s) q j
        ≡ (if q == p then (if j == sig then not (is_null c) else has_cb s q j) else has_cb s q j)
  unfolding has_cb
  has_cb-set sig c p s q j = ground arith

  pub told-set :
      (sig : ℕ) (c : Option C) (p : ℕ) (s : Process C) (q : ℕ)
      → told (set_signal_cb sig c p s) q ≡ told s q
  unfolding told
  told-set sig c p s q = ground arith

  has_cb-wake :
      (wt : WakeType) (p : ℕ) (s : Process C) (q j : ℕ) → has_cb (wake wt p s) q j ≡ has_cb s q j
  unfolding has_cb
  has_cb-wake wt p s q j = ground arith

  pub told-wake :
      (wt : WakeType) (p : ℕ) (s : Process C) (q : ℕ)
      → told (wake wt p s) q ≡ (if told s q then true else if q == p then is_signal wt else false)
  unfolding told
  told-wake wt p s q = ground (arith, has_signal-append (s.sets p).selfpipe wt)

  pub told-inject : (c : C) (p : ℕ) (s : Process C) (q : ℕ) → told (inject_cb c p s) q ≡ told s q
  unfolding told inject_cb
  told-inject c p s q = ground (arith, has_signal-append (s.sets p).selfpipe normal)

  -- The owners, the callbacks and `signal_pending_` are the same.
  abbrev pub Same : Process C → Process C → Type 0
  Same s t =
      ((j : ℕ) → t.signal_owners j ≡ s.signal_owners j)
      × ((q j : ℕ) → has_cb t q j ≡ has_cb s q j)
      × ((q : ℕ) → (t.sets q).signal_pending ≡ (s.sets q).signal_pending)

  pub wake-Same : (wt : WakeType) (p : ℕ) (s : Process C) → Same s (wake wt p s)
  wake-Same wt p s = (λ j. refl, has_cb-wake wt p s, λ q. ground arith)

  pub wake_flagged-Same : (sig p : ℕ) (s : Process C) → Same s (wake_flagged sig p s)
  wake_flagged-Same sig p s =
      (λ j. ground arith, λ q j. ground (arith, has_cb-wake signal p s q j), λ q. ground arith)

  wake_owner-Same : (o : Option ℕ) (s : Process C) → Same s (wake_owner o s)
  wake_owner-Same none s = (λ j. refl, λ q j. refl, λ q. refl)
  wake_owner-Same (some p) s = wake-Same signal p s

  pub signal_handler-Same : (sig : ℕ) (s : Process C) → Same s (signal_handler sig s)
  unfolding signal_handler has_cb
  signal_handler-Same sig s =
      let (o, h, w) = wake_owner-Same (s.signal_owners sig) s in
      (λ j. ground arith, λ q j. ground arith, λ q. ground arith)

  pub handler_returns-Same : (sig : ℕ) (s : Process C) → Same s (handler_returns sig s)
  unfolding handler_returns has_cb
  handler_returns-Same sig s = (λ j. ground arith, λ q j. ground arith, λ q. ground arith)

  pub raise_flagged-Same : (sig : ℕ) (s : Process C) → Same s (raise_flagged sig s)
  unfolding has_cb
  raise_flagged-Same sig s = (λ j. ground arith, λ q j. ground arith, λ q. ground arith)

  pub inject_cb-Same : (c : C) (p : ℕ) (s : Process C) → Same s (inject_cb c p s)
  unfolding inject_cb has_cb
  inject_cb-Same c p s = (λ j. ground arith, λ q j. ground arith, λ q. ground arith)

  pub async-Same : (p : ℕ) (s : Process C) → Same s (async p s)
  unfolding has_cb
  async-Same p s = (λ j. refl, λ q j. ground arith, λ q. ground arith)

  pub async_done-Same : (p : ℕ) (s : Process C) → Same s (async_done p s)
  unfolding has_cb
  async_done-Same p s = (λ j. refl, λ q j. ground arith, λ q. ground arith)

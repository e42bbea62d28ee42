-- ===== src/Poll/Plus/Woken.antt =====
-- The self-pipe of xdrpp/pollset.h: a signal's flag and what tells the signal's set of it.
use cs244b.Base.{
  ℕ, Bool, true, false, ◌||◌, Option, none, some, ◌==◌, ◌≡◌, refl, arith, if◌then◌else◌,
}
use cs244b.Poll.Plus.{
  put, Process, normal, signal, own, wake, set_signal_cb, raise_flagged, wake_owner, wake_flagged,
  handler_returns, signal_handler, inject_cb, async, async_done,
}
use cs244b.Poll.Plus.Lookups.{told, told-wake, told-inject}
use cs244b.Poll.Plus.Acts.{Closed}

module _ {C : Type 0} (pend : ℕ → ℕ → Bool) where
  -- A signal that has an owner and a flag is one that the owner has been told of, or that `pend` says.
  abbrev pub Heard : Process C → ℕ → ℕ → Type 0
  Heard s j q = ((s.signal_flags j == 0) || (pend j q || told s q)) ≡ true

  abbrev pub IsTold : Process C → Type 0
  IsTold s = (j q : ℕ) → s.signal_owners j ≡ some q → Heard s j q

  wake_flagged-IsTold :
      (sig p : ℕ) (s : Process C)
      → s.signal_owners sig ≡ some p
      → ((j q : ℕ) → (j == sig) ≡ false → s.signal_owners j ≡ some q → Heard s j q)
      → IsTold (wake_flagged sig p s)
  wake_flagged-IsTold sig p s e h j q o = ground (arith, told-wake signal p s q, h j q)

  wake-IsTold : (p : ℕ) (s : Process C) → IsTold s → IsTold (wake normal p s)
  wake-IsTold p s h j q o = ground (arith, told-wake normal p s q, h j q)

  inject_cb-IsTold : (c : C) (p : ℕ) (s : Process C) → IsTold s → IsTold (inject_cb c p s)
  unfolding inject_cb
  inject_cb-IsTold c p s h j q o = ground (arith, told-inject c p s q, h j q)

  choose :
      (test : Bool) (t u : Process C)
      → (test ≡ true → IsTold t)
      → (test ≡ false → IsTold u)
      → IsTold (if test then t else u)
  choose true t u x y = x refl
  choose false t u x y = y refl

  abbrev flagged : ℕ → Process C → Process C
  flagged sig s = record s { signal_flags = put sig 1 s.signal_flags }

  other_flag :
      (sig j q : ℕ) (s : Process C) → (j == sig) ≡ false → Heard s j q → Heard (flagged sig s) j q
  unfolding told
  other_flag sig j q s ne h = ground arith

  -- The handler's wake: the flag is new.
  wake_owner-IsTold :
      (sig : ℕ) (o : Option ℕ) (s : Process C)
      → s.signal_owners sig ≡ o
      → ((j q : ℕ) → (j == sig) ≡ false → s.signal_owners j ≡ some q → Heard s j q)
      → IsTold (wake_owner o s)
  wake_owner-IsTold sig none s e h j q o = h j q (ground arith) o
  wake_owner-IsTold sig (some p) s e h j q o = ground (arith, told-wake signal p s q, h j q)

  signal_handler-IsTold : (sig : ℕ) (s : Process C) → IsTold s → IsTold (signal_handler sig s)
  unfolding signal_handler
  signal_handler-IsTold sig s h =
      choose (s.signal_flags sig == 0) _ s
        (λ e.
          wake_owner-IsTold sig (s.signal_owners sig) (flagged sig s) refl
            (λ j q ne o. other_flag sig j q s ne (h j q o)))
        (λ e. h)

  handler_returns-IsTold : (sig : ℕ) (s : Process C) → IsTold s → IsTold (handler_returns sig s)
  unfolding handler_returns told
  handler_returns-IsTold sig s h j q o = ground (arith, h j q)

  raise_flagged-IsTold : (sig : ℕ) (s : Process C) → IsTold s → IsTold (raise_flagged sig s)
  unfolding told
  raise_flagged-IsTold sig s h j q o = ground (arith, h j q)

  taken-IsTold :
      (sig p : ℕ) (c : C) (s : Process C)
      → IsTold s
      → IsTold (wake_flagged sig p (own sig (some p) (set_signal_cb sig (some c) p s)))
  unfolding told
  taken-IsTold sig p c s h =
      wake_flagged-IsTold sig p (own sig (some p) (set_signal_cb sig (some c) p s)) (ground arith)
        λ j q ne o. ground (arith, h j q)

  stolen-IsTold :
      (sig p r : ℕ) (c : C) (s : Process C)
      → IsTold s
      → IsTold (
          wake_flagged sig p
            (set_signal_cb sig none r (own sig (some p) (set_signal_cb sig (some c) p s))))
  unfolding told
  stolen-IsTold sig p r c s h =
      wake_flagged-IsTold sig p
        (set_signal_cb sig none r (own sig (some p) (set_signal_cb sig (some c) p s)))
        (ground arith) λ j q ne o. ground (arith, h j q)

  kept_own-IsTold :
      (sig p : ℕ) (c : C) (s : Process C) → IsTold s → IsTold (set_signal_cb sig (some c) p s)
  unfolding told
  kept_own-IsTold sig p c s h j q o = ground (arith, h j q)

  no_owner-IsTold :
      (sig p : ℕ) (c : C) (s : Process C)
      → IsTold s
      → IsTold (own sig none (set_signal_cb sig (some c) p s))
  unfolding told
  no_owner-IsTold sig p c s h j q o = ground (arith, h j q)

  erased-IsTold :
      (sig p : ℕ) (s : Process C)
      → IsTold s
      → IsTold (raise_flagged sig (handler_returns sig (set_signal_cb sig none p (own sig none s))))
  unfolding told
  erased-IsTold sig p s h =
      raise_flagged-IsTold sig _ (handler_returns-IsTold sig _ λ j q o. ground (arith, h j q))

  async-IsTold : (p : ℕ) (s : Process C) → IsTold s → IsTold (async p s)
  unfolding told
  async-IsTold p s h j q o = ground (arith, h j q)

  async_done-IsTold : (p : ℕ) (s : Process C) → IsTold s → IsTold (async_done p s)
  unfolding told
  async_done-IsTold p s h j q o = ground (arith, h j q)

  pub IsTold-Closed : Closed true IsTold
  IsTold-Closed = record {
    handler = signal_handler-IsTold;
    returned = handler_returns-IsTold;
    woken = wake-IsTold;
    injected = inject_cb-IsTold;
    begun = async-IsTold;
    ended = async_done-IsTold;
    kept_own = λ sig p c s e. kept_own-IsTold sig p c s;
    no_owner = λ sig p c s e. no_owner-IsTold sig p c s;
    taken = λ sig p c s e v. taken-IsTold sig p c s;
    stolen = λ sig p r c s e ne v. stolen-IsTold sig p r c s;
    erased = λ sig p s e. erased-IsTold sig p s;
  }

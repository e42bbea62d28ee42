-- ===== src/Poll/Plus/Ownership.antt =====
-- Which set a signal's callback stands in: `signal_owners` and the sets' `signal_cbs_`.
use cs244b.Base.{ℕ, ◌&&◌, Bool, true, false, Option, none, some, ◌==◌, ◌≡◌, sym, ◌∙◌, arith}
use cs244b.Poll.Plus.{Process, Ended, done, thrown, own, set_signal_cb, is_valid}
use cs244b.Poll.Plus.Lookups.{has_cb, Same}

module _ {C : Type 0} where
  -- The owner of a signal has a callback for it, and no other set has.
  abbrev pub IsHeld : Process C → Type 0
  IsHeld s = (j q : ℕ) → s.signal_owners j ≡ some q → (has_cb s q j && is_valid j) ≡ true

  abbrev pub HasNoStray : Process C → Type 0
  HasNoStray s = (j q : ℕ) → has_cb s q j ≡ true → s.signal_owners j ≡ some q

  abbrev pub Always : (Process C → Type 0) → Option (Ended C) → Type 0
  Always P none = Unit
  Always P (some (done s)) = P s
  Always P (some (thrown s)) = P s

  abbrev pub IsOwned : Process C → Type 0
  IsOwned s = IsHeld s × HasNoStray s

  IsHeld-Same : (s t : Process C) → Same s t → IsHeld s → IsHeld t
  IsHeld-Same s t (o, h, w) held j q e = rw (h q j) (held j q (sym (o j) ∙ e))

  HasNoStray-Same : (s t : Process C) → Same s t → HasNoStray s → HasNoStray t
  HasNoStray-Same s t (o, h, w) stray j q e = rw (o j) (stray j q (sym (h q j) ∙ e))

  -- The five states that a call for signal `sig` and set `p` can leave, before it wakes a set.
  kept_own-IsHeld :
      (sig p : ℕ) (c : C) (s : Process C) → IsHeld s → IsHeld (set_signal_cb sig (some c) p s)
  unfolding has_cb
  kept_own-IsHeld sig p c s held j q h = ground (arith, held j q h)

  no_owner-IsHeld :
      (sig p : ℕ) (c : C) (s : Process C)
      → IsHeld s
      → IsHeld (own sig none (set_signal_cb sig (some c) p s))
  unfolding has_cb
  no_owner-IsHeld sig p c s held j q h = ground (arith, held j q)

  taken-IsHeld :
      (sig p : ℕ) (c : C) (s : Process C)
      → is_valid sig ≡ true
      → IsHeld s
      → IsHeld (own sig (some p) (set_signal_cb sig (some c) p s))
  unfolding has_cb
  taken-IsHeld sig p c s v held j q h = ground (arith, held j q)

  stolen-IsHeld :
      (sig p r : ℕ) (c : C) (s : Process C)
      → (r == p) ≡ false
      → is_valid sig ≡ true
      → IsHeld s
      → IsHeld (set_signal_cb sig none r (own sig (some p) (set_signal_cb sig (some c) p s)))
  unfolding has_cb
  stolen-IsHeld sig p r c s ne v held j q h = ground (arith, held j q)

  erased-IsHeld :
      (sig p : ℕ) (s : Process C) → IsHeld s → IsHeld (set_signal_cb sig none p (own sig none s))
  unfolding has_cb
  erased-IsHeld sig p s held j q h = ground (arith, held j q)

  taken-HasNoStray :
      (sig p : ℕ) (c : C) (s : Process C)
      → s.signal_owners sig ≡ none
      → HasNoStray s
      → HasNoStray (own sig (some p) (set_signal_cb sig (some c) p s))
  unfolding has_cb
  taken-HasNoStray sig p c s e stray j q h = ground (arith, stray j q, stray sig q)

  kept_own-HasNoStray :
      (sig p : ℕ) (c : C) (s : Process C)
      → s.signal_owners sig ≡ some p
      → HasNoStray s
      → HasNoStray (set_signal_cb sig (some c) p s)
  unfolding has_cb
  kept_own-HasNoStray sig p c s e stray j q h = ground (arith, stray j q)

  stolen-HasNoStray :
      (sig p r : ℕ) (c : C) (s : Process C)
      → s.signal_owners sig ≡ some r
      → HasNoStray s
      → HasNoStray (set_signal_cb sig none r (own sig (some p) (set_signal_cb sig (some c) p s)))
  unfolding has_cb
  stolen-HasNoStray sig p r c s e stray j q h = ground (arith, stray j q, stray sig q)

  erased-HasNoStray :
      (sig p : ℕ) (s : Process C)
      → s.signal_owners sig ≡ some p
      → HasNoStray s
      → HasNoStray (set_signal_cb sig none p (own sig none s))
  unfolding has_cb
  erased-HasNoStray sig p s e stray j q h = ground (arith, stray j q, stray sig q)

  -- What every call keeps, if `sigaction` fails for none, or, with `b`, even then.
  pub record Kept (b : Bool) (P : Process C → Type 0) : Type 0 where
    pub same : (s t : Process C) → Same s t → P s → P t
    pub kept_own :
        (sig p : ℕ) (c : C) (s : Process C)
        → s.signal_owners sig ≡ some p
        → P s
        → P (set_signal_cb sig (some c) p s)
    pub no_owner :
        (sig p : ℕ) (c : C) (s : Process C)
        → b ≡ true
        → P s
        → P (own sig none (set_signal_cb sig (some c) p s))
    pub taken :
        (sig p : ℕ) (c : C) (s : Process C)
        → s.signal_owners sig ≡ none
        → is_valid sig ≡ true
        → P s
        → P (own sig (some p) (set_signal_cb sig (some c) p s))
    pub stolen :
        (sig p r : ℕ) (c : C) (s : Process C)
        → s.signal_owners sig ≡ some r
        → (r == p) ≡ false
        → is_valid sig ≡ true
        → P s
        → P (set_signal_cb sig none r (own sig (some p) (set_signal_cb sig (some c) p s)))
    pub erased :
        (sig p : ℕ) (s : Process C)
        → s.signal_owners sig ≡ some p
        → P s
        → P (set_signal_cb sig none p (own sig none s))

  pub IsHeld-Kept : {b : Bool} → Kept b IsHeld
  IsHeld-Kept = record {
    same = IsHeld-Same;
    kept_own = λ sig p c s e. kept_own-IsHeld sig p c s;
    no_owner = λ sig p c s e. no_owner-IsHeld sig p c s;
    taken = λ sig p c s e. taken-IsHeld sig p c s;
    stolen = λ sig p r c s e. stolen-IsHeld sig p r c s;
    erased = λ sig p s e. erased-IsHeld sig p s;
  }

  pub HasNoStray-Kept : Kept false HasNoStray
  HasNoStray-Kept = record {
    same = HasNoStray-Same;
    kept_own = kept_own-HasNoStray;
    no_owner = λ sig p c s e. absurd (cc);
    taken = λ sig p c s e v. taken-HasNoStray sig p c s e;
    stolen = λ sig p r c s e ne v. stolen-HasNoStray sig p r c s e;
    erased = erased-HasNoStray;
  }

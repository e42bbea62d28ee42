-- ===== src/Xdr/Format/Padding.antt =====
-- The padding loops of `put_bytes` and `get_bytes` of xdrpp/marshal.cc.
use cs244b.Base.{
  ℕ, zero, suc, ◌+◌, ◌-◌, ◌%◌, ◌≤◌, ◌<◌, ◌≡◌, ◌≢◌, refl, ap, ◌∙◌, true, ◌⊎◌, inl, inr, List, [],
  ◌∷◌, ◌++◌, length, length-append, length-replicate, replicate, arith,
}
use cs244b.Xdr.Error.{Result, ok, err, is_runtime_error, should_be_zero}
use cs244b.Xdr.Archive.{pad_zeros, skip_pad}
use cs244b.Xdr.Format.{padded}

-- The number of padding bytes behind `n` bytes.
abbrev pub pad_count : ℕ → ℕ
pad_count n = (4 - n % 4) % 4

mod4-cases : (n : ℕ) → (n % 4 ≡ 0) ⊎ ((n % 4 ≡ 1) ⊎ ((n % 4 ≡ 2) ⊎ (n % 4 ≡ 3)))
mod4-cases n = omega arith

pub pad_zeros_lem : (n : ℕ) → pad_zeros 3 n ≡ replicate (pad_count n) 0
unfolding pad_zeros
pad_zeros_lem n = elim (mod4-cases n) [
  | inl e ↦ rw e
  | inr (inl e) ↦
      let f : (n + 1) % 4 ≡ 2 = omega arith in
      let g : (n + 1 + 1) % 4 ≡ 3 = omega arith in rw (e, f, g)
  | inr (inr (inl e)) ↦
      let f : (n + 1) % 4 ≡ 3 = omega arith in
      let g : (n + 1 + 1) % 4 ≡ 0 = omega arith in rw (e, f, g)
  | inr (inr (inr e)) ↦ let f : (n + 1) % 4 ≡ 0 = omega arith in rw (e, f)
]

-- With the count at a multiple of four the loop stops.
skip_pad_stop : (fuel n : ℕ) (rest : List ℕ) → n % 4 ≡ 0 → skip_pad fuel n rest ≡ ok rest
unfolding skip_pad
skip_pad_stop zero n rest e = refl
skip_pad_stop (suc fuel) n [] e = rw e
skip_pad_stop (suc fuel) n (b ∷ rest) e = rw e

skip_pad_zero :
    (fuel n : ℕ) (rest : List ℕ)
    → n % 4 ≢ 0
    → skip_pad (suc fuel) n (0 ∷ rest) ≡ skip_pad fuel (n + 1) rest
unfolding skip_pad
skip_pad_zero fuel n rest e = ground arith

pub skip_pad_ok :
    (n : ℕ) (rest : List ℕ) → skip_pad 3 n (replicate (pad_count n) 0 ++ rest) ≡ ok rest
unfolding skip_pad
skip_pad_ok n rest = elim (mod4-cases n) [
  | inl e ↦ rw e (skip_pad_stop 3 n rest e)
  | inr (inl e) ↦ rw e (
      skip_pad_zero 2 n _ (omega arith)
      ∙ skip_pad_zero 1 (n + 1) _ (omega arith)
      ∙ skip_pad_zero 0 (n + 1 + 1) _ (omega arith)
      ∙ skip_pad_stop 0 (n + 1 + 1 + 1) rest (omega arith))
  | inr (inr (inl e)) ↦ rw e (
      skip_pad_zero 2 n _ (omega arith)
      ∙ skip_pad_zero 1 (n + 1) _ (omega arith)
      ∙ skip_pad_stop 1 (n + 1 + 1) rest (omega arith))
  | inr (inr (inr e)) ↦
      rw e (skip_pad_zero 2 n _ (omega arith) ∙ skip_pad_stop 2 (n + 1) rest (omega arith))
]

-- From an aligned position the loop takes zeros, stops at another byte, and never passes the end.
abbrev pub PadSound : ℕ → List ℕ → Result (List ℕ) → Type 0
PadSound k rest (ok rest') = rest ≡ replicate k 0 ++ rest'
PadSound k rest (err e) = is_runtime_error e ≡ true

pub length-padded : (bs : List ℕ) → length (padded bs) ≡ length bs + pad_count (length bs)
length-padded bs = omega (
  arith,
  length-append bs (replicate (pad_count (length bs)) 0),
  length-replicate {A = ℕ} (pad_count (length bs)) 0,
)

PadSound-zero :
    (k : ℕ) (rest : List ℕ) (r : Result (List ℕ))
    → PadSound k rest r
    → PadSound (suc k) (0 ∷ rest) r
PadSound-zero k rest (ok rest') h = ap (◌∷◌ 0) h
PadSound-zero k rest (err e) h = h

-- One round: it stops, or it sees a byte, since the end is aligned.
PadSound-step :
    (fuel k n : ℕ) (rest : List ℕ)
    → (n + k) % 4 ≡ 0
    → k < 4
    → k ≤ fuel
    → (n + length rest) % 4 ≡ 0
    → PadSound k rest (skip_pad fuel n rest)
unfolding skip_pad is_runtime_error
PadSound-step fuel zero n rest e kb kf al = rw (skip_pad_stop fuel n rest (omega arith)) refl
PadSound-step zero (suc k) n rest e kb kf al = absurd (omega arith)
PadSound-step (suc fuel) (suc k) n [] e kb kf al = absurd (omega arith)
PadSound-step (suc fuel) (suc k) n (zero ∷ rest) e kb kf al =
    rw (skip_pad_zero fuel n rest (omega arith)) (
      PadSound-zero k rest _
        (PadSound-step fuel k (n + 1) rest (omega arith) (omega arith) (omega arith) (omega arith)))
PadSound-step (suc fuel) (suc k) n (suc b ∷ rest) e kb kf al =
    let f : skip_pad (suc fuel) n (suc b ∷ rest) ≡ err should_be_zero = ground arith in rw f refl

-- On an aligned buffer the padding loop is sound.
pub skip_pad_sound :
    (n : ℕ) (rest : List ℕ)
    → (n + length rest) % 4 ≡ 0
    → PadSound (pad_count n) rest (skip_pad 3 n rest)
skip_pad_sound n rest al =
    PadSound-step 3 (pad_count n) n rest (omega arith) (omega arith) (omega arith) al

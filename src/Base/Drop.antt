-- ===== src/Base/Drop.antt =====
-- Dropping and taking in parts.
use Prim.Native.Nat.{ℕ, zero, suc, ◌+◌, ◌-◌, ◌≤◌}
use mathlib.Core.Path.{◌≡◌, refl, sym, ap, ◌∙◌}
use mathlib.Core.List.{List, [], ◌∷◌, ◌++◌}
use native.Mathlib.Omega.{arith}
use cs244b.Base.Lists.{length, take, drop}

pub drop-append_short :
    {A : Type 0} (n : ℕ) (xs ys : List A) → n ≤ length xs → drop n (xs ++ ys) ≡ drop n xs ++ ys
drop-append_short zero xs ys h = refl
drop-append_short (suc n) [] ys h = absurd (omega arith)
drop-append_short (suc n) (x ∷ xs) ys h = drop-append_short n xs ys (omega arith)

pub drop-append_long :
    {A : Type 0} (n : ℕ) (xs ys : List A)
    → length xs ≤ n
    → drop n (xs ++ ys) ≡ drop (n - length xs) ys
drop-append_long n [] ys h = ap (λ k. drop k ys) (omega arith)
drop-append_long zero (x ∷ xs) ys h = absurd (omega arith)
drop-append_long (suc n) (x ∷ xs) ys h =
    drop-append_long n xs ys (omega arith) ∙ ap (λ k. drop k ys) (omega arith)

pub drop-nil : {A : Type 0} (n : ℕ) → drop {A = A} n [] ≡ []
drop-nil zero = refl
drop-nil (suc n) = refl

pub drop-drop : {A : Type 0} (m n : ℕ) (xs : List A) → drop m (drop n xs) ≡ drop (n + m) xs
drop-drop m zero xs = ap (λ k. drop k xs) (omega arith)
drop-drop m (suc n) [] = drop-nil m ∙ sym (drop-nil (suc n + m))
drop-drop m (suc n) (x ∷ xs) =
    drop-drop m n xs ∙ (let e : suc n + m ≡ suc (n + m) = omega arith in rw e refl)

pub take-append_short :
    {A : Type 0} (n : ℕ) (xs ys : List A) → n ≤ length xs → take n (xs ++ ys) ≡ take n xs
take-append_short zero xs ys h = refl
take-append_short (suc n) [] ys h = absurd (omega arith)
take-append_short (suc n) (x ∷ xs) ys h = ap (◌∷◌ x) (take-append_short n xs ys (omega arith))

-- ===== src/Base/Arrays.antt =====
-- Lists as arrays: `std::vector` with an index, `push_back`, `pop_back` and `back`.
use Prim.Native.Nat.{ℕ, zero, suc, ◌+◌, ◌-◌, ◌<◌}
use mathlib.Core.Path.{◌≡◌, refl, sym, ◌∙◌}
use mathlib.Core.Bool.{true}
use mathlib.Core.Option.{Option, none, some}
use mathlib.Core.List.{List, [], ◌∷◌, ◌++◌}
use native.Mathlib.Omega.{arith}
use cs244b.Base.Tests.{ltb, ◌==◌, if◌then◌else◌}
use cs244b.Base.Lists.{length}

module _ {ℓ} {A : Type ℓ} where
  -- `a[i] = v`
  abbrev pub set : List A → ℕ → A → List A
  set [] _ _ = []
  set (old ∷ a) zero v = v ∷ a
  set (old ∷ a) (suc i) v = old ∷ set a i v

  -- `a.pop_back()`
  abbrev pub pop_back : List A → List A
  pop_back [] = []
  pop_back (x ∷ []) = []
  pop_back (x ∷ y ∷ a) = x ∷ pop_back (y ∷ a)

  -- `a[i]`, and `a.at(i)` where `none` is its exception.
  abbrev pub get_elem? : List A → ℕ → Option A
  get_elem? [] i = none
  get_elem? (x ∷ a) zero = some x
  get_elem? (x ∷ a) (suc i) = get_elem? a i

  -- `a.back()`
  abbrev pub back : List A → Option A
  back [] = none
  back (x ∷ []) = some x
  back (x ∷ y ∷ a) = back (y ∷ a)

  pub length-pop_back : (a : List A) → length (pop_back a) ≡ length a - 1
  length-pop_back [] = omega arith
  length-pop_back (x ∷ []) = omega arith
  length-pop_back (x ∷ y ∷ a) = omega (arith, length-pop_back (y ∷ a))

  pub length-set : (a : List A) (i : ℕ) (v : A) → length (set a i v) ≡ length a
  length-set [] i v = refl
  length-set (x ∷ a) zero v = omega arith
  length-set (x ∷ a) (suc i) v = omega (arith, length-set a i v)

  pub get_elem?-set :
      (a : List A) (i j : ℕ) (v : A)
      → i < length a
      → get_elem? (set a i v) j ≡ (if i == j then some v else get_elem? a j)
  get_elem?-set [] i j v h = absurd (omega arith)
  get_elem?-set (x ∷ a) zero zero v h = ground arith
  get_elem?-set (x ∷ a) zero (suc j) v h = ground arith
  get_elem?-set (x ∷ a) (suc i) zero v h = ground arith
  get_elem?-set (x ∷ a) (suc i) (suc j) v h = ground (arith, get_elem?-set a i j v)

  pub get_elem?-push :
      (a : List A) (j : ℕ) (v : A)
      → get_elem? (a ++ (v ∷ [])) j ≡ (if length a == j then some v else get_elem? a j)
  get_elem?-push [] zero v = ground arith
  get_elem?-push [] (suc j) v = ground arith
  get_elem?-push (x ∷ a) zero v = ground arith
  get_elem?-push (x ∷ a) (suc j) v = ground (arith, get_elem?-push a j v)

  pub get_elem?-pop_back :
      (a : List A) (j : ℕ)
      → get_elem? (pop_back a) j ≡ (if ltb (j + 1) (length a) then get_elem? a j else none)
  get_elem?-pop_back [] j = ground arith
  get_elem?-pop_back (x ∷ []) zero = ground arith
  get_elem?-pop_back (x ∷ []) (suc j) = ground arith
  get_elem?-pop_back (x ∷ y ∷ a) zero = ground arith
  get_elem?-pop_back (x ∷ y ∷ a) (suc j) = ground (arith, get_elem?-pop_back (y ∷ a) j)

  pub get_elem?-lt : (a : List A) (i : ℕ) (x : A) → get_elem? a i ≡ some x → i < length a
  get_elem?-lt [] i x h = cc
  get_elem?-lt (y ∷ a) zero x h = omega arith
  get_elem?-lt (y ∷ a) (suc i) x h = omega (arith, get_elem?-lt a i x h)

  pub get_elem?-back : (a : List A) (x : A) → back a ≡ some x → get_elem? a (length a - 1) ≡ some x
  get_elem?-back [] x h = cc
  get_elem?-back (y ∷ []) x h = h
  get_elem?-back (y ∷ z ∷ a) x h =
      let e : length (y ∷ z ∷ a) - 1 ≡ suc (length (z ∷ a) - 1) = omega arith in
      rw e (get_elem?-back (z ∷ a) x h)

  pub back-some : (a : List A) → 0 < length a → (x : A) × (back a ≡ some x)
  back-some [] h = absurd (omega arith)
  back-some (x ∷ []) h = (x, refl)
  back-some (x ∷ y ∷ a) h = back-some (y ∷ a) (omega arith)

  pub get_elem?-some : (a : List A) (i : ℕ) → i < length a → (x : A) × (get_elem? a i ≡ some x)
  get_elem?-some [] i h = absurd (omega arith)
  get_elem?-some (x ∷ a) zero h = (x, refl)
  get_elem?-some (x ∷ a) (suc i) h = get_elem?-some a i (omega arith)

  pub get_elem?-kept :
      (a : List A) (j : ℕ) → j + 1 < length a → get_elem? (pop_back a) j ≡ get_elem? a j
  get_elem?-kept a j h =
      let z : ltb (j + 1) (length a) ≡ true = ground arith in get_elem?-pop_back a j ∙ rw z refl

  pub get_elem?-before :
      (a : List A) (j : ℕ) (x : A)
      → get_elem? (pop_back a) j ≡ some x
      → (j + 1 < length a) × (get_elem? a j ≡ some x)
  get_elem?-before a j x h =
      let inside = get_elem?-lt (pop_back a) j x h in
      let e = length-pop_back a in
      let below : j + 1 < length a = omega arith in (below, sym (get_elem?-kept a j below) ∙ h)

-- ===== src/Base/Ordered.antt =====
-- A `std::map` with numbers as keys, kept in the order of the keys: `cbegin()` is the first entry
-- and `crbegin()` the last.
use Prim.Native.Nat.{ℕ, ◌<◌}
use mathlib.Core.Path.{◌≡◌, refl}
use mathlib.Core.Option.{Option, none, some}
use mathlib.Core.List.{List, [], ◌∷◌}
use native.Mathlib.Omega.{arith}
use cs244b.Base.Tests.{◌==◌, ltb, if◌then◌else◌}

module _ {ℓ} {V : Type ℓ} where
  unfoldable pub find : ℕ → List (ℕ × V) → Option V
  find k [] = none
  find k ((j, v) ∷ m) = if j == k then some v else find k m

  -- `m[k] = v`, in its place.
  unfoldable pub assign : ℕ → V → List (ℕ × V) → List (ℕ × V)
  assign k v [] = (k, v) ∷ []
  assign k v ((j, w) ∷ m) =
      let rest = assign k v m in
      if ltb k j then (k, v) ∷ (j, w) ∷ m else if j == k then (j, v) ∷ m else (j, w) ∷ rest

  -- The keys of `m`, the last of them above `k`.
  abbrev pub last_key : ℕ → List (ℕ × V) → ℕ
  last_key k [] = k
  last_key k ((j, v) ∷ m) = last_key j m

  -- Every key of `m` is above `k`, and they rise.
  abbrev pub IsAbove : ℕ → List (ℕ × V) → Type 0
  IsAbove k [] = Unit {0}
  IsAbove k ((j, v) ∷ m) = (k < j) × IsAbove j m

  abbrev pub IsSorted : List (ℕ × V) → Type 0
  IsSorted [] = Unit {0}
  IsSorted ((j, v) ∷ m) = IsAbove j m

  IsAbove-weaken : (j k : ℕ) (m : List (ℕ × V)) → j < k → IsAbove k m → IsAbove j m
  IsAbove-weaken j k [] h s = tt
  IsAbove-weaken j k ((i, v) ∷ m) h (lt, s) = (omega arith, s)

  assign-IsAbove :
      (b k : ℕ) (v : V) (m : List (ℕ × V)) → b < k → IsAbove b m → IsAbove b (assign k v m)
  unfolding assign
  assign-IsAbove b k v [] h s = (h, tt)
  assign-IsAbove b k v ((j, w) ∷ m) h (lt, s) = ground (arith, assign-IsAbove j k v m)

  pub assign-IsSorted : (k : ℕ) (v : V) (m : List (ℕ × V)) → IsSorted m → IsSorted (assign k v m)
  unfolding assign
  assign-IsSorted k v [] s = tt
  assign-IsSorted k v ((j, w) ∷ m) s = ground (arith, assign-IsAbove j k v m)

  pub find-assign :
      (k j : ℕ) (v : V) (m : List (ℕ × V))
      → IsSorted m
      → find j (assign k v m) ≡ (if k == j then some v else find j m)
  unfolding find assign
  find-assign k j v [] s = refl
  find-assign k j v ((i, w) ∷ m) s = ground (arith, find-assign k j v m)

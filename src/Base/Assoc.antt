-- ===== src/Base/Assoc.antt =====
-- Maps as association lists, over keys with a Boolean equality: `std::map` and
-- `std::unordered_map` where the program does not depend on the order of the entries.
use Prim.Native.Nat.{ℕ}
use mathlib.Core.Path.{◌≡◌, refl, ap₂, ◌∙◌}
use mathlib.Core.Logic.{◌↔◌}
use mathlib.Core.Bool.{Bool, true, false, ◌&&◌}
use mathlib.Core.Option.{Option, none, some}
use mathlib.Core.List.{List, [], ◌∷◌}
use native.Mathlib.Omega.{arith}
use cs244b.Base.Tests.{◌==◌, if◌then◌else◌, ==_iff}

-- A test of keys that decides their equality.
pub record Eq {ℓ} (K : Type ℓ) : Type ℓ where
  pub same : K → K → Bool
  pub same_iff : (j k : K) → (same j k ≡ true) ↔ (j ≡ k)

instance abbrev pub nat_eq : Eq ℕ
nat_eq = record { same = λ a b. a == b; same_iff = ==_iff }

-- Texts as lists of bytes.
abbrev pub text_beq : List ℕ → List ℕ → Bool
text_beq [] [] = true
text_beq (a ∷ xs) (b ∷ ys) = (a == b) && text_beq xs ys
text_beq _ _ = false

text_eq_of : (xs ys : List ℕ) → text_beq xs ys ≡ true → xs ≡ ys
text_eq_of [] [] h = refl
text_eq_of (a ∷ xs) (b ∷ ys) h = ap₂ ◌∷◌ (ground arith) (text_eq_of xs ys (ground arith))
text_eq_of [] (b ∷ ys) h = cc
text_eq_of (a ∷ xs) [] h = cc

text_beq_refl : (xs : List ℕ) → text_beq xs xs ≡ true
text_beq_refl [] = refl
text_beq_refl (a ∷ xs) = ground (arith, text_beq_refl xs)

pub text_beq_iff : (xs ys : List ℕ) → (text_beq xs ys ≡ true) ↔ (xs ≡ ys)
text_beq_iff xs ys = (text_eq_of xs ys, λ e. rw e (text_beq_refl ys))

instance abbrev pub text_eq : Eq (List ℕ)
text_eq = record { same = text_beq; same_iff = text_beq_iff }

pub beq_refl {ℓ} : {K : Type ℓ} ⦃e : Eq K⦄ (k : K) → e.same k k ≡ true
beq_refl ⦃e⦄ k = (e.same_iff k k).1 refl

module _ {ℓ κ} {K : Type ℓ} {V : Type κ} ⦃e : Eq K⦄ where
  -- `m.find(k)`
  unfoldable pub find : K → List (K × V) → Option V
  find k [] = none
  find k ((j, v) ∷ m) = if e.same j k then some v else find k m

  -- `m[k] = v`
  unfoldable pub assign : K → V → List (K × V) → List (K × V)
  assign k v [] = (k, v) ∷ []
  assign k v ((j, w) ∷ m) = if e.same j k then (j, v) ∷ m else (j, w) ∷ assign k v m

  -- `m.insert({k, v})` and `m.emplace(k, v)`: an entry that is there stays.
  unfoldable pub insert : K → V → List (K × V) → List (K × V)
  insert k v [] = (k, v) ∷ []
  insert k v ((j, w) ∷ m) = if e.same j k then (j, w) ∷ m else (j, w) ∷ insert k v m

  -- `m.erase(k)`
  unfoldable pub erase : K → List (K × V) → List (K × V)
  erase k [] = []
  erase k ((j, w) ∷ m) = let rest = erase k m in if e.same j k then rest else (j, w) ∷ rest

  pub find-assign :
      (k j : K) (v : V) (m : List (K × V))
      → find j (assign k v m) ≡ (if e.same k j then some v else find j m)
  unfolding find assign
  find-assign k j v [] = refl
  find-assign k j v ((i, w) ∷ m) =
      ground (arith, e.same_iff k j, e.same_iff i k, e.same_iff i j, find-assign k j v m)

  pub find-insert :
      (k j : K) (v : V) (m : List (K × V))
      → find k m ≡ none
      → find j (insert k v m) ≡ (if e.same k j then some v else find j m)
  unfolding find insert
  find-insert k j v [] h = refl
  find-insert k j v ((i, w) ∷ m) h =
      ground (arith, e.same_iff k j, e.same_iff i k, e.same_iff i j, find-insert k j v m)

  pub insert-found : (k : K) (v w : V) (m : List (K × V)) → find k m ≡ some w → insert k v m ≡ m
  unfolding find insert
  insert-found k v w [] h = cc
  insert-found k v w ((i, u) ∷ m) h = ground (arith, insert-found k v w m)

  pub find-erase :
      (k j : K) (m : List (K × V)) → find j (erase k m) ≡ (if e.same k j then none else find j m)
  unfolding find erase
  find-erase k j [] = ground arith
  find-erase k j ((i, w) ∷ m) =
      ground (arith, e.same_iff k j, e.same_iff i k, e.same_iff i j, find-erase k j m)

  pub find_erased : (k j : K) (m : List (K × V)) → e.same k j ≡ true → find j (erase k m) ≡ none
  find_erased k j m h = find-erase k j m ∙ rw h refl

  pub find_kept : (k j : K) (m : List (K × V)) → e.same k j ≡ false → find j (erase k m) ≡ find j m
  find_kept k j m h = find-erase k j m ∙ rw h refl

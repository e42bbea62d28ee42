-- ===== src/Xdr/Error.antt =====
-- The exceptions of xdrpp/types.h, and results of code that may throw.
use cs244b.Base.{◌≡◌, refl, ◌⊎◌, inl, inr, Bool, true, false}

-- The first six derive from `xdr_runtime_error`, and `call_failed` stands for the runtime errors
-- that the RPC layer throws itself. `wrong_union` is a `std::logic_error`. `assertion` is a failed
-- `assert`, and `fault` an access outside a buffer, which no C++ code reports.
pub data Error : Type 0 where
  overflow stack_overflow bad_message_size bad_discriminant should_be_zero invariant_failed : Error
  call_failed wrong_union assertion fault : Error

-- Whether `catch (const xdr_runtime_error &)` catches it.
unfoldable pub is_runtime_error : Error → Bool
is_runtime_error wrong_union = false
is_runtime_error assertion = false
is_runtime_error fault = false
is_runtime_error _ = true

-- What code that may throw ends in.
pub data Result {ℓ} (A : Type ℓ) : Type ℓ where
  err : Error → Result A
  ok : A → Result A

-- `if (!test) throw e;`
abbrev pub guard : Bool → Error → Result (Unit {0})
guard false e = err e
guard true _ = ok tt

-- Sequencing: an exception skips what comes behind it.
infixl 5 ◌>>=◌ ◌>>◌
abbrev pub ◌>>=◌ {κ ℓ} : {B : Type κ} {A : Type ℓ} → Result B → (B → Result A) → Result A
err e >>= next = err e
ok b >>= next = next b

abbrev pub ◌>>◌ {ℓ} : {A : Type ℓ} → Result (Unit {0}) → Result A → Result A
first >> second = first >>= λ _. second

pub Result-cases {ℓ} :
    {A : Type ℓ} (res : Result A)
    → ((x : A) × (res ≡ ok x)) ⊎ ((thrown : Error) × (res ≡ err thrown))
Result-cases (err thrown) = inr (thrown, refl)
Result-cases (ok x) = inl (x, refl)

pub bind-ok {ℓ κ} :
    {A : Type ℓ} {B : Type κ} (r : Result A) (f : A → Result B) (b : B)
    → (r >>= f) ≡ ok b
    → (a : A) × (r ≡ ok a) × (f a ≡ ok b)
bind-ok (ok a) f b h = (a, refl, h)
bind-ok (err e) f b h = cc

-- ===== src/Kv/Protocol/Format.antt =====
-- The formats of the types of kvprot.x.
use cs244b.Base.{
  ℕ, ◌≡◌, ◌≢◌, refl, sym, ap, some, List, [], ◌==◌, false, arith, Bool-cases, inl, inr,
}
use cs244b.Xdr.Codec.{Codec, void, arm_of}
use cs244b.Xdr.Format.{Format, Implements}
use cs244b.Xdr.Format.Bytes.{var_bytes_format, var_bytes-Implements}
use cs244b.Xdr.Format.Struct.{
  void_format, pair_format, nested_format, void-Implements, pair-Implements, nested-Implements,
}
use cs244b.Xdr.Format.Union.{union_format, at_tag, union-Implements, arm-Implements}
use cs244b.Rpc.Codec.Unions.{arm_at, at_discriminant}
use cs244b.Kv.Protocol.{
  GetRes, value, no_value, stat, value?, key, value_bytes, get_res_arm, get_res, null_args,
  put_args, get_args,
}

abbrev pub key_format : Format (List ℕ)
key_format = var_bytes_format 64

abbrev pub value_format : Format (List ℕ)
value_format = var_bytes_format 512

pub key-Implements : Implements key key_format
key-Implements = var_bytes-Implements 64 (omega arith)

pub value-Implements : Implements value_bytes value_format
value-Implements = var_bytes-Implements 512 (omega arith)

abbrev GetResValid : GetRes → Type 0
GetResValid (value v) = value_format.IsValid v
GetResValid (no_value s) = s ≢ 0

abbrev get_res_bytes : GetRes → List ℕ
get_res_bytes (value v) = value_format.bytes v
get_res_bytes (no_value s) = []

abbrev get_res_depth : GetRes → ℕ
get_res_depth (value v) = value_format.depth v
get_res_depth (no_value s) = 0

abbrev get_res_case : Format GetRes
get_res_case = record { IsValid = GetResValid; bytes = get_res_bytes; depth = get_res_depth }

abbrev pub get_res_format : Format GetRes
get_res_format = nested_format (union_format stat get_res_case)

get_res_select : (d : GetRes) → GetResValid d → (c : Codec GetRes) × (get_res_arm (stat d) ≡ some c)
get_res_select (value v) h = (_, refl)
get_res_select (no_value s) h =
    let e : (s == 0) ≡ false = ground arith in
    (arm_of (λ _. some tt) (λ _. no_value s) void, rw e refl)

value_cases :
    (d : GetRes)
    → stat d ≡ 0
    → GetResValid d
    → (v : List ℕ) × (d ≡ value v) × value_format.IsValid v
value_cases (value v) e h = (v, refl, h)
value_cases (no_value s) e h = absurd (h e)

no_value_cases :
    (which : ℕ) (d : GetRes)
    → which ≢ 0
    → stat d ≡ which
    → GetResValid d
    → (u : Unit {0}) × (d ≡ no_value which) × Unit {0}
no_value_cases which (value v) h e k = absurd (h (sym e))
no_value_cases which (no_value s) h e k = (tt, ap no_value e, tt)

get_res_arms :
    (which : ℕ) (c : Codec GetRes)
    → get_res_arm which ≡ some c
    → Implements c (at_tag stat get_res_case which)
get_res_arms which c h = elim (Bool-cases (which == 0)) [
  | inl e ↦
      at_discriminant get_res_arm stat get_res_case c _ 0 which (ground arith) refl
        (arm-Implements stat get_res_case 0 value? value (λ b. refl) (λ b. refl) (λ b v. v)
          value_cases (λ b. refl) (λ b. refl) value-Implements)
        h
  | inr e ↦
      let n : which ≢ 0 = ground arith in
      arm_at (rw e at h) (
        arm-Implements stat get_res_case which (λ _. some tt) (λ _. no_value which) (λ b. refl)
          (λ b. refl) (λ b v. n) (λ d k v. no_value_cases which d n k v) (λ b. refl) (λ b. refl)
          void-Implements)
]

-- The traits of `GetRes` implement its format: the status, and for SUCCESS the value.
pub get_res-Implements : Implements get_res get_res_format
unfolding get_res
get_res-Implements =
    nested-Implements (union-Implements stat get_res_arm get_res_case get_res_select get_res_arms)

abbrev pub null_format : Format (Unit {0})
null_format = nested_format void_format

pub null_args-Implements : Implements null_args null_format
unfolding null_args
null_args-Implements = nested-Implements void-Implements

abbrev pub put_format : Format (List ℕ × List ℕ)
put_format = nested_format (pair_format key_format value_format)

pub put_args-Implements : Implements put_args put_format
unfolding put_args
put_args-Implements = nested-Implements (pair-Implements key-Implements value-Implements)

abbrev pub get_format : Format (List ℕ)
get_format = nested_format key_format

pub get_args-Implements : Implements get_args get_format
unfolding get_args
get_args-Implements = nested-Implements key-Implements

-- ===== src/Rpc/Codec/Rejected.antt =====
-- The format of `rejected_reply` of xdrpp/rpc_msg.x.
use cs244b.Base.{ℕ, ◌≡◌, refl, some, List, ◌==◌, arith, Bool-cases, inl, inr}
use cs244b.Xdr.Codec.{Codec, u32, arm_of}
use cs244b.Xdr.Format.{Format, Implements}
use cs244b.Xdr.Format.Words.{u32_format, u32-Implements}
use cs244b.Xdr.Format.Struct.{nested_format, nested-Implements}
use cs244b.Xdr.Format.Union.{union_format, at_tag, union-Implements, arm-Implements}
use cs244b.Rpc.Types.{
  MismatchInfo, RejectedReply, rpc_mismatch, auth_error, reject_stat, rpc_mismatch?, auth_error?,
}
use cs244b.Rpc.Codec.{mismatch_info, rejected_arm, rejected_reply}
use cs244b.Rpc.Codec.Format.{mismatch_format, mismatch_info-Implements}
use cs244b.Rpc.Codec.Unions.{at_discriminant}

abbrev RejectedValid : RejectedReply → Type 0
RejectedValid (rpc_mismatch x) = mismatch_format.IsValid x
RejectedValid (auth_error y) = u32_format.IsValid y

abbrev rejected_bytes : RejectedReply → List ℕ
rejected_bytes (rpc_mismatch x) = mismatch_format.bytes x
rejected_bytes (auth_error y) = u32_format.bytes y

abbrev rejected_depth : RejectedReply → ℕ
rejected_depth (rpc_mismatch x) = mismatch_format.depth x
rejected_depth (auth_error y) = u32_format.depth y

abbrev rejected_case : Format RejectedReply
rejected_case = record { IsValid = RejectedValid; bytes = rejected_bytes; depth = rejected_depth }

abbrev pub rejected_format : Format RejectedReply
rejected_format = nested_format (union_format reject_stat rejected_case)

rejected_select :
    (d : RejectedReply)
    → RejectedValid d
    → (c : Codec RejectedReply) × (rejected_arm (reject_stat d) ≡ some c)
rejected_select (rpc_mismatch x) v = (_, refl)
rejected_select (auth_error y) v = (_, refl)

rpc_mismatch_cases :
    (d : RejectedReply)
    → reject_stat d ≡ 0
    → RejectedValid d
    → (x : MismatchInfo) × (d ≡ rpc_mismatch x) × mismatch_format.IsValid x
rpc_mismatch_cases (rpc_mismatch x) e v = (x, refl, v)
rpc_mismatch_cases (auth_error y) e v = absurd (omega arith)

auth_error_cases :
    (d : RejectedReply)
    → reject_stat d ≡ 1
    → RejectedValid d
    → (y : ℕ) × (d ≡ auth_error y) × u32_format.IsValid y
auth_error_cases (rpc_mismatch x) e v = absurd (omega arith)
auth_error_cases (auth_error y) e v = (y, refl, v)

rpc_mismatch_arm :
    Implements
      (arm_of rpc_mismatch? rpc_mismatch mismatch_info)
      (at_tag reject_stat rejected_case 0)
rpc_mismatch_arm =
    arm-Implements reject_stat rejected_case 0 rpc_mismatch? rpc_mismatch (λ b. refl) (λ b. refl)
      (λ b v. v) rpc_mismatch_cases (λ b. refl) (λ b. refl) mismatch_info-Implements

auth_error_arm : Implements (arm_of auth_error? auth_error u32) (at_tag reject_stat rejected_case 1)
auth_error_arm =
    arm-Implements reject_stat rejected_case 1 auth_error? auth_error (λ b. refl) (λ b. refl)
      (λ b v. v) auth_error_cases (λ b. refl) (λ b. refl) u32-Implements

rejected_arms :
    (which : ℕ) (c : Codec RejectedReply)
    → rejected_arm which ≡ some c
    → Implements c (at_tag reject_stat rejected_case which)
rejected_arms which c h = elim (Bool-cases (which == 0)) [
  | inl e ↦
      at_discriminant rejected_arm reject_stat rejected_case c _ 0 which (ground arith) refl
        rpc_mismatch_arm h
  | inr e ↦ elim (Bool-cases (which == 1)) [
    | inl f ↦
        at_discriminant rejected_arm reject_stat rejected_case c _ 1 which (ground arith) refl
          auth_error_arm h
    | inr f ↦ cc (rw (e, f) at h)
  ]
]

pub rejected_reply-Implements : Implements rejected_reply rejected_format
unfolding rejected_reply
rejected_reply-Implements =
    nested-Implements
      (union-Implements reject_stat rejected_arm rejected_case rejected_select rejected_arms)

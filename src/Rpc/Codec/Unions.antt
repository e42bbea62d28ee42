-- ===== src/Rpc/Codec/Unions.antt =====
-- The formats of the unions of xdrpp/rpc_msg.x with a default case, and of an accepted reply.
use cs244b.Base.{
  ℕ, ◌≡◌, ◌≢◌, refl, sym, ap, ◌∙◌, subst, Option, some, List, [], ◌==◌, false, arith, Bool-cases,
  inl, inr,
}
use mathlib.Core.Option.{some-injective}
use cs244b.Xdr.Codec.{Codec, void, arm_of}
use cs244b.Xdr.Format.{Format, Implements}
use cs244b.Xdr.Format.Struct.{
  pair_format, fields_format, nested_format, void-Implements, pair-Implements, fields-Implements,
  nested-Implements,
}
use cs244b.Xdr.Format.Union.{union_format, at_tag, union-Implements, arm-Implements}
use cs244b.Rpc.Types.{
  Success, MismatchInfo, ReplyData, success, prog_mismatch, failed, AcceptedReply, accept_stat,
  success?, prog_mismatch?,
}
use cs244b.Rpc.Codec.{
  mismatch_info, success_body, reply_data_arm, reply_data, accepted_fields, accepted_of,
  accepted_reply,
}
use cs244b.Rpc.Codec.Format.{
  opaque_auth_format, opaque_auth-Implements, success_format, success_body-Implements,
  mismatch_format, mismatch_info-Implements,
}

-- Of the codecs that an arm table names, the one that it names for a discriminant.
pub arm_at :
    {A : Type 0} {c d : Codec A} {f : Format A} → some c ≡ some d → Implements c f → Implements d f
arm_at {f = f} e h = subst (λ x. Implements x f) (some-injective _ _ e) h

-- A contract at one discriminant serves each discriminant equal to it.
pub at_discriminant :
    {A : Type 0} (arm : ℕ → Option (Codec A)) (tag : A → ℕ) (f : Format A) (c d : Codec A)
    (k which : ℕ)
    → which ≡ k
    → arm k ≡ some d
    → Implements d (at_tag tag f k)
    → arm which ≡ some c
    → Implements c (at_tag tag f which)
at_discriminant arm tag f c d k which e s h a =
    subst (λ w. Implements c (at_tag tag f w)) (sym e) (arm_at (sym s ∙ ap arm (sym e) ∙ a) h)

abbrev ReplyDataValid : ReplyData → Type 0
ReplyDataValid (success s) = success_format.IsValid s
ReplyDataValid (prog_mismatch m) = mismatch_format.IsValid m
ReplyDataValid (failed stat) = (stat ≢ 0) × (stat ≢ 2)

abbrev reply_data_bytes : ReplyData → List ℕ
reply_data_bytes (success s) = success_format.bytes s
reply_data_bytes (prog_mismatch m) = mismatch_format.bytes m
reply_data_bytes (failed stat) = []

abbrev reply_data_depth : ReplyData → ℕ
reply_data_depth (success s) = success_format.depth s
reply_data_depth (prog_mismatch m) = mismatch_format.depth m
reply_data_depth (failed stat) = 0

abbrev reply_data_case : Format ReplyData
reply_data_case = record {
  IsValid = ReplyDataValid;
  bytes = reply_data_bytes;
  depth = reply_data_depth;
}

abbrev pub reply_data_format : Format ReplyData
reply_data_format = nested_format (union_format accept_stat reply_data_case)

reply_data_select :
    (d : ReplyData)
    → ReplyDataValid d
    → (c : Codec ReplyData) × (reply_data_arm (accept_stat d) ≡ some c)
reply_data_select (success s) v = (_, refl)
reply_data_select (prog_mismatch m) v = (_, refl)
reply_data_select (failed stat) (h, k) =
    let e : (stat == 0) ≡ false = ground arith in
    let f : (stat == 2) ≡ false = ground arith in
    (arm_of (λ _. some tt) (λ _. failed stat) void, rw (e, f))

success_cases :
    (d : ReplyData)
    → accept_stat d ≡ 0
    → ReplyDataValid d
    → (s : Success) × (d ≡ success s) × success_format.IsValid s
success_cases (success s) e v = (s, refl, v)
success_cases (prog_mismatch m) e v = absurd (omega arith)
success_cases (failed stat) e v = absurd (v.0 e)

prog_mismatch_cases :
    (d : ReplyData)
    → accept_stat d ≡ 2
    → ReplyDataValid d
    → (m : MismatchInfo) × (d ≡ prog_mismatch m) × mismatch_format.IsValid m
prog_mismatch_cases (success s) e v = absurd (omega arith)
prog_mismatch_cases (prog_mismatch m) e v = (m, refl, v)
prog_mismatch_cases (failed stat) e v = absurd (v.1 e)

failed_cases :
    (which : ℕ) (d : ReplyData)
    → which ≢ 0
    → which ≢ 2
    → accept_stat d ≡ which
    → ReplyDataValid d
    → (u : Unit {0}) × (d ≡ failed which) × Unit {0}
failed_cases which (success s) h k e v = absurd (h (sym e))
failed_cases which (prog_mismatch m) h k e v = absurd (k (sym e))
failed_cases which (failed stat) h k e v = (tt, ap failed e, tt)

success_arm :
    Implements (arm_of success? success success_body) (at_tag accept_stat reply_data_case 0)
success_arm =
    arm-Implements accept_stat reply_data_case 0 success? success (λ b. refl) (λ b. refl) (λ b v. v)
      success_cases (λ b. refl) (λ b. refl) success_body-Implements

prog_mismatch_arm :
    Implements
      (arm_of prog_mismatch? prog_mismatch mismatch_info)
      (at_tag accept_stat reply_data_case 2)
prog_mismatch_arm =
    arm-Implements accept_stat reply_data_case 2 prog_mismatch? prog_mismatch (λ b. refl)
      (λ b. refl) (λ b v. v) prog_mismatch_cases (λ b. refl) (λ b. refl) mismatch_info-Implements

failed_arm :
    (which : ℕ)
    → which ≢ 0
    → which ≢ 2
    → Implements
        (arm_of (λ _. some tt) (λ _. failed which) void)
        (at_tag accept_stat reply_data_case which)
failed_arm which h k =
    arm-Implements accept_stat reply_data_case which (λ _. some tt) (λ _. failed which) (λ b. refl)
      (λ b. refl) (λ b v. (h, k)) (λ d e v. failed_cases which d h k e v) (λ b. refl) (λ b. refl)
      void-Implements

reply_data_arms :
    (which : ℕ) (c : Codec ReplyData)
    → reply_data_arm which ≡ some c
    → Implements c (at_tag accept_stat reply_data_case which)
reply_data_arms which c h = elim (Bool-cases (which == 0)) [
  | inl e ↦
      at_discriminant reply_data_arm accept_stat reply_data_case c _ 0 which (ground arith) refl
        success_arm h
  | inr e ↦ elim (Bool-cases (which == 2)) [
    | inl f ↦
        at_discriminant reply_data_arm accept_stat reply_data_case c _ 2 which (ground arith) refl
          prog_mismatch_arm h
    | inr f ↦ arm_at (rw (e, f) at h) (failed_arm which (ground arith) (ground arith))
  ]
]

pub reply_data-Implements : Implements reply_data reply_data_format
unfolding reply_data
reply_data-Implements =
    nested-Implements (
      union-Implements accept_stat reply_data_arm reply_data_case reply_data_select reply_data_arms)

abbrev pub accepted_format : Format AcceptedReply
accepted_format =
    nested_format (
      fields_format (λ a. (a.verf, a.reply_data))
        (pair_format opaque_auth_format reply_data_format))

pub accepted_reply-Implements : Implements accepted_reply accepted_format
unfolding accepted_reply
accepted_reply-Implements = nested-Implements (
    fields-Implements accepted_fields accepted_of (λ b. refl) (λ a. refl)
      (pair-Implements opaque_auth-Implements reply_data-Implements))

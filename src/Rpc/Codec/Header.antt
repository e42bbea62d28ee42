-- ===== src/Rpc/Codec/Header.antt =====
-- The formats of the unions of xdrpp/rpc_msg.x with two cases, and of a whole message.
use cs244b.Base.{ℕ, ◌≡◌, refl, some, List, ◌==◌, arith, Bool-cases, inl, inr}
use cs244b.Xdr.Codec.{Codec, arm_of}
use cs244b.Xdr.Format.{Format, Implements}
use cs244b.Xdr.Format.Words.{u32_format, u32-Implements}
use cs244b.Xdr.Format.Struct.{
  pair_format, fields_format, nested_format, pair-Implements, fields-Implements, nested-Implements,
}
use cs244b.Xdr.Format.Union.{union_format, at_tag, union-Implements, arm-Implements}
use cs244b.Rpc.Types.{
  CallBody, AcceptedReply, RejectedReply, ReplyBody, accepted, denied, Body, call, reply, RpcMsg,
  reply_stat, msg_type, accepted?, denied?, call?, reply?,
}
use cs244b.Rpc.Codec.{
  accepted_reply, rejected_reply, reply_body_arm, reply_body, body_arm, body, call_body, msg_fields,
  msg_of, rpc_msg,
}
use cs244b.Rpc.Codec.Format.{call_format, call_body-Implements}
use cs244b.Rpc.Codec.Unions.{at_discriminant, accepted_format, accepted_reply-Implements}
use cs244b.Rpc.Codec.Rejected.{rejected_format, rejected_reply-Implements}

abbrev ReplyBodyValid : ReplyBody → Type 0
ReplyBodyValid (accepted x) = accepted_format.IsValid x
ReplyBodyValid (denied y) = rejected_format.IsValid y

abbrev reply_body_bytes : ReplyBody → List ℕ
reply_body_bytes (accepted x) = accepted_format.bytes x
reply_body_bytes (denied y) = rejected_format.bytes y

abbrev reply_body_depth : ReplyBody → ℕ
reply_body_depth (accepted x) = accepted_format.depth x
reply_body_depth (denied y) = rejected_format.depth y

abbrev reply_body_case : Format ReplyBody
reply_body_case = record {
  IsValid = ReplyBodyValid;
  bytes = reply_body_bytes;
  depth = reply_body_depth;
}

abbrev pub reply_body_format : Format ReplyBody
reply_body_format = nested_format (union_format reply_stat reply_body_case)

reply_body_select :
    (d : ReplyBody)
    → ReplyBodyValid d
    → (c : Codec ReplyBody) × (reply_body_arm (reply_stat d) ≡ some c)
reply_body_select (accepted x) v = (_, refl)
reply_body_select (denied y) v = (_, refl)

accepted_cases :
    (d : ReplyBody)
    → reply_stat d ≡ 0
    → ReplyBodyValid d
    → (x : AcceptedReply) × (d ≡ accepted x) × accepted_format.IsValid x
accepted_cases (accepted x) e v = (x, refl, v)
accepted_cases (denied y) e v = absurd (omega arith)

denied_cases :
    (d : ReplyBody)
    → reply_stat d ≡ 1
    → ReplyBodyValid d
    → (y : RejectedReply) × (d ≡ denied y) × rejected_format.IsValid y
denied_cases (accepted x) e v = absurd (omega arith)
denied_cases (denied y) e v = (y, refl, v)

accepted_arm :
    Implements (arm_of accepted? accepted accepted_reply) (at_tag reply_stat reply_body_case 0)
accepted_arm =
    arm-Implements reply_stat reply_body_case 0 accepted? accepted (λ b. refl) (λ b. refl)
      (λ b v. v) accepted_cases (λ b. refl) (λ b. refl) accepted_reply-Implements

denied_arm : Implements (arm_of denied? denied rejected_reply) (at_tag reply_stat reply_body_case 1)
denied_arm =
    arm-Implements reply_stat reply_body_case 1 denied? denied (λ b. refl) (λ b. refl) (λ b v. v)
      denied_cases (λ b. refl) (λ b. refl) rejected_reply-Implements

reply_body_arms :
    (which : ℕ) (c : Codec ReplyBody)
    → reply_body_arm which ≡ some c
    → Implements c (at_tag reply_stat reply_body_case which)
reply_body_arms which c h = elim (Bool-cases (which == 0)) [
  | inl e ↦
      at_discriminant reply_body_arm reply_stat reply_body_case c _ 0 which (ground arith) refl
        accepted_arm h
  | inr e ↦ elim (Bool-cases (which == 1)) [
    | inl f ↦
        at_discriminant reply_body_arm reply_stat reply_body_case c _ 1 which (ground arith) refl
          denied_arm h
    | inr f ↦ cc (rw (e, f) at h)
  ]
]

pub reply_body-Implements : Implements reply_body reply_body_format
unfolding reply_body
reply_body-Implements =
    nested-Implements
      (union-Implements reply_stat reply_body_arm reply_body_case reply_body_select reply_body_arms)

abbrev BodyValid : Body → Type 0
BodyValid (call x) = call_format.IsValid x
BodyValid (reply y) = reply_body_format.IsValid y

abbrev body_bytes : Body → List ℕ
body_bytes (call x) = call_format.bytes x
body_bytes (reply y) = reply_body_format.bytes y

abbrev body_depth : Body → ℕ
body_depth (call x) = call_format.depth x
body_depth (reply y) = reply_body_format.depth y

abbrev body_case : Format Body
body_case = record { IsValid = BodyValid; bytes = body_bytes; depth = body_depth }

abbrev pub body_format : Format Body
body_format = nested_format (union_format msg_type body_case)

body_select : (d : Body) → BodyValid d → (c : Codec Body) × (body_arm (msg_type d) ≡ some c)
body_select (call x) v = (_, refl)
body_select (reply y) v = (_, refl)

call_cases :
    (d : Body)
    → msg_type d ≡ 0
    → BodyValid d
    → (x : CallBody) × (d ≡ call x) × call_format.IsValid x
call_cases (call x) e v = (x, refl, v)
call_cases (reply y) e v = absurd (omega arith)

reply_cases :
    (d : Body)
    → msg_type d ≡ 1
    → BodyValid d
    → (y : ReplyBody) × (d ≡ reply y) × reply_body_format.IsValid y
reply_cases (call x) e v = absurd (omega arith)
reply_cases (reply y) e v = (y, refl, v)

call_arm : Implements (arm_of call? call call_body) (at_tag msg_type body_case 0)
call_arm =
    arm-Implements msg_type body_case 0 call? call (λ b. refl) (λ b. refl) (λ b v. v) call_cases
      (λ b. refl) (λ b. refl) call_body-Implements

reply_arm : Implements (arm_of reply? reply reply_body) (at_tag msg_type body_case 1)
reply_arm =
    arm-Implements msg_type body_case 1 reply? reply (λ b. refl) (λ b. refl) (λ b v. v) reply_cases
      (λ b. refl) (λ b. refl) reply_body-Implements

body_arms :
    (which : ℕ) (c : Codec Body)
    → body_arm which ≡ some c
    → Implements c (at_tag msg_type body_case which)
body_arms which c h = elim (Bool-cases (which == 0)) [
  | inl e ↦ at_discriminant body_arm msg_type body_case c _ 0 which (ground arith) refl call_arm h
  | inr e ↦ elim (Bool-cases (which == 1)) [
    | inl f ↦
        at_discriminant body_arm msg_type body_case c _ 1 which (ground arith) refl reply_arm h
    | inr f ↦ cc (rw (e, f) at h)
  ]
]

pub body-Implements : Implements body body_format
unfolding body
body-Implements =
    nested-Implements (union-Implements msg_type body_arm body_case body_select body_arms)

abbrev pub msg_format : Format RpcMsg
msg_format =
    nested_format (fields_format (λ h. (h.xid, h.body)) (pair_format u32_format body_format))

pub rpc_msg-Implements : Implements rpc_msg msg_format
unfolding rpc_msg
rpc_msg-Implements = nested-Implements (
    fields-Implements msg_fields msg_of (λ b. refl) (λ a. refl)
      (pair-Implements u32-Implements body-Implements))

-- ===== src/Rpc/Types.antt =====
-- The message types of xdrpp/rpc_msg.x. An XDR enum is a number, as the generated classes accept
-- any value on the wire; a double is its bit pattern; text is its bytes.
use cs244b.Base.{ℕ, Option, none, some, List}

-- auth_flavor
abbrev pub auth_none : ℕ
auth_none = 0

-- msg_type
abbrev pub call_type : ℕ
call_type = 0

abbrev pub reply_type : ℕ
reply_type = 1

-- reply_stat
abbrev pub msg_accepted : ℕ
msg_accepted = 0

abbrev pub msg_denied : ℕ
msg_denied = 1

-- accept_stat
abbrev pub success_stat : ℕ
success_stat = 0

abbrev pub prog_unavail : ℕ
prog_unavail = 1

abbrev pub prog_mismatch_stat : ℕ
prog_mismatch_stat = 2

abbrev pub proc_unavail : ℕ
proc_unavail = 3

abbrev pub garbage_args : ℕ
garbage_args = 4

abbrev pub system_err : ℕ
system_err = 5

-- reject_stat
abbrev pub rpc_mismatch_stat : ℕ
rpc_mismatch_stat = 0

abbrev pub auth_error_stat : ℕ
auth_error_stat = 1

pub record OpaqueAuth : Type 0 where
  pub flavor : ℕ
  pub body : List ℕ

pub record CallBody : Type 0 where
  pub rpcvers : ℕ
  pub prog : ℕ
  pub vers : ℕ
  pub proc : ℕ
  pub cred : OpaqueAuth
  pub verf : OpaqueAuth
  pub trace_mode : ℕ

-- `results` is `opaque results[0]`.
pub record Success : Type 0 where
  pub end_time : ℕ
  pub path : List ℕ
  pub results : List ℕ

pub record MismatchInfo : Type 0 where
  pub low : ℕ
  pub high : ℕ

-- The union under `accept_stat`; `failed` is the void default case with its discriminant.
pub data ReplyData : Type 0 where
  success : Success → ReplyData
  prog_mismatch : MismatchInfo → ReplyData
  failed : ℕ → ReplyData

pub record AcceptedReply : Type 0 where
  pub verf : OpaqueAuth
  pub reply_data : ReplyData

pub data RejectedReply : Type 0 where
  rpc_mismatch : MismatchInfo → RejectedReply
  auth_error : ℕ → RejectedReply

pub data ReplyBody : Type 0 where
  accepted : AcceptedReply → ReplyBody
  denied : RejectedReply → ReplyBody

pub data Body : Type 0 where
  call : CallBody → Body
  reply : ReplyBody → Body

pub record RpcMsg : Type 0 where
  pub xid : ℕ
  pub body : Body

-- The discriminants.
abbrev pub accept_stat : ReplyData → ℕ
accept_stat (success s) = success_stat
accept_stat (prog_mismatch m) = prog_mismatch_stat
accept_stat (failed stat) = stat

abbrev pub reject_stat : RejectedReply → ℕ
reject_stat (rpc_mismatch m) = rpc_mismatch_stat
reject_stat (auth_error why) = auth_error_stat

abbrev pub reply_stat : ReplyBody → ℕ
reply_stat (accepted a) = msg_accepted
reply_stat (denied r) = msg_denied

abbrev pub msg_type : Body → ℕ
msg_type (call c) = call_type
msg_type (reply r) = reply_type

-- The fields of the unions, when their discriminant selects them.
abbrev pub success? : ReplyData → Option Success
success? (success s) = some s
success? _ = none

abbrev pub prog_mismatch? : ReplyData → Option MismatchInfo
prog_mismatch? (prog_mismatch m) = some m
prog_mismatch? _ = none

abbrev pub rpc_mismatch? : RejectedReply → Option MismatchInfo
rpc_mismatch? (rpc_mismatch m) = some m
rpc_mismatch? _ = none

abbrev pub auth_error? : RejectedReply → Option ℕ
auth_error? (auth_error why) = some why
auth_error? _ = none

abbrev pub accepted? : ReplyBody → Option AcceptedReply
accepted? (accepted a) = some a
accepted? _ = none

abbrev pub denied? : ReplyBody → Option RejectedReply
denied? (denied r) = some r
denied? _ = none

abbrev pub call? : Body → Option CallBody
call? (call c) = some c
call? _ = none

abbrev pub reply? : Body → Option ReplyBody
reply? (reply r) = some r
reply? _ = none

-- ===== src/Rpc/Codec.antt =====
-- The traits that xdrc generates for the types of xdrpp/rpc_msg.x: a struct archives its fields in
-- order, a union its discriminant and the field of that case.
pub mod Format
pub mod Unions
pub mod Rejected
pub mod Header
use cs244b.Base.{ℕ, Option, none, some, List, ◌==◌, if◌then◌else◌}
use cs244b.Xdr.Codec.{
  Codec, u32, u64, var_bytes, fixed_bytes, void, pair, fields, nested, union, arm_of,
}
use cs244b.Rpc.Types.{
  OpaqueAuth, CallBody, Success, MismatchInfo, ReplyData, success, prog_mismatch, failed,
  AcceptedReply, RejectedReply, rpc_mismatch, auth_error, ReplyBody, accepted, denied, Body, call,
  reply, RpcMsg, accept_stat, reject_stat, reply_stat, msg_type, success?, prog_mismatch?,
  rpc_mismatch?, auth_error?, accepted?, denied?, call?, reply?,
}

-- XDR_MAX_LEN, the maximum of `string path<>`.
abbrev pub xdr_max_len : ℕ
xdr_max_len = 0xfffffffc

abbrev pub opaque_auth_fields : OpaqueAuth → ℕ × List ℕ
opaque_auth_fields a = (a.flavor, a.body)

abbrev pub opaque_auth_of : ℕ × List ℕ → OpaqueAuth
opaque_auth_of (flavor, body) = record { flavor = flavor; body = body }

unfoldable pub opaque_auth : Codec OpaqueAuth
opaque_auth = nested (fields opaque_auth_fields opaque_auth_of (pair u32 (var_bytes 400)))

abbrev pub CallFields : Type 0
CallFields = ℕ × (ℕ × (ℕ × (ℕ × (OpaqueAuth × (OpaqueAuth × ℕ)))))

abbrev pub call_fields : CallBody → CallFields
call_fields c = (c.rpcvers, (c.prog, (c.vers, (c.proc, (c.cred, (c.verf, c.trace_mode))))))

abbrev pub call_of : CallFields → CallBody
call_of (rpcvers, (prog, (vers, (proc, (cred, (verf, trace_mode)))))) = record {
  rpcvers = rpcvers;
  prog = prog;
  vers = vers;
  proc = proc;
  cred = cred;
  verf = verf;
  trace_mode = trace_mode;
}

unfoldable pub call_body : Codec CallBody
unfolding opaque_auth
call_body = nested (
    fields call_fields call_of
      (pair u32 (pair u32 (pair u32 (pair u32 (pair opaque_auth (pair opaque_auth u32)))))))

abbrev pub success_fields : Success → ℕ × (List ℕ × List ℕ)
success_fields s = (s.end_time, (s.path, s.results))

abbrev pub success_of : ℕ × (List ℕ × List ℕ) → Success
success_of (end_time, (path, results)) = record {
  end_time = end_time;
  path = path;
  results = results;
}

unfoldable pub success_body : Codec Success
success_body =
    nested
      (fields success_fields success_of (pair u64 (pair (var_bytes xdr_max_len) (fixed_bytes 0))))

abbrev pub mismatch_fields : MismatchInfo → ℕ × ℕ
mismatch_fields m = (m.low, m.high)

abbrev pub mismatch_of : ℕ × ℕ → MismatchInfo
mismatch_of (low, high) = record { low = low; high = high }

unfoldable pub mismatch_info : Codec MismatchInfo
mismatch_info = nested (fields mismatch_fields mismatch_of (pair u32 u32))

abbrev pub reply_data_arm : ℕ → Option (Codec ReplyData)
reply_data_arm which =
    if which == 0
    then some (arm_of success? success success_body)
    else if which == 2
    then some (arm_of prog_mismatch? prog_mismatch mismatch_info)
    else some (arm_of (λ _. some tt) (λ _. failed which) void)

unfoldable pub reply_data : Codec ReplyData
reply_data = nested (union accept_stat reply_data_arm)

abbrev pub accepted_fields : AcceptedReply → OpaqueAuth × ReplyData
accepted_fields a = (a.verf, a.reply_data)

abbrev pub accepted_of : OpaqueAuth × ReplyData → AcceptedReply
accepted_of (verf, reply_data) = record { verf = verf; reply_data = reply_data }

unfoldable pub accepted_reply : Codec AcceptedReply
accepted_reply = nested (fields accepted_fields accepted_of (pair opaque_auth reply_data))

abbrev pub rejected_arm : ℕ → Option (Codec RejectedReply)
rejected_arm which =
    if which == 0
    then some (arm_of rpc_mismatch? rpc_mismatch mismatch_info)
    else if which == 1
    then some (arm_of auth_error? auth_error u32)
    else none

unfoldable pub rejected_reply : Codec RejectedReply
rejected_reply = nested (union reject_stat rejected_arm)

abbrev pub reply_body_arm : ℕ → Option (Codec ReplyBody)
reply_body_arm which =
    if which == 0
    then some (arm_of accepted? accepted accepted_reply)
    else if which == 1
    then some (arm_of denied? denied rejected_reply)
    else none

unfoldable pub reply_body : Codec ReplyBody
reply_body = nested (union reply_stat reply_body_arm)

abbrev pub body_arm : ℕ → Option (Codec Body)
body_arm which =
    if which == 0
    then some (arm_of call? call call_body)
    else if which == 1
    then some (arm_of reply? reply reply_body)
    else none

unfoldable pub body : Codec Body
body = nested (union msg_type body_arm)

abbrev pub msg_fields : RpcMsg → ℕ × Body
msg_fields m = (m.xid, m.body)

abbrev pub msg_of : ℕ × Body → RpcMsg
msg_of (xid, body) = record { xid = xid; body = body }

unfoldable pub rpc_msg : Codec RpcMsg
rpc_msg = nested (fields msg_fields msg_of (pair u32 body))

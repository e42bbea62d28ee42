-- ===== src/Rpc/Status.antt =====
-- What a client makes of a reply header: `rpc_call_stat` of xdrpp/exception.h, and
-- xdrpp/rpc_msg.cc.
use Prim.Native.String.{String}
use cs244b.Base.{ℕ, ◌≡◌, ◌∙◌, refl, Bool, false, ◌==◌, if◌then◌else◌}
use cs244b.Rpc.Types.{
  RpcMsg, Body, call, reply, ReplyBody, AcceptedReply, accepted, denied, RejectedReply,
  rpc_mismatch, auth_error, accept_stat, success_stat,
}

-- `stat_type` with the union member that belongs to it.
pub data CallStat : Type 0 where
  accept_status : ℕ → CallStat
  auth_status : ℕ → CallStat
  rpcvers_mismatch garbage_res network_error bad_alloc : CallStat

-- `explicit operator bool`
unfoldable pub is_success : CallStat → Bool
is_success (accept_status stat) = stat == success_stat
is_success _ = false

denied_stat : RejectedReply → CallStat
denied_stat (rpc_mismatch m) = rpcvers_mismatch
denied_stat (auth_error why) = auth_status why

reply_status : ReplyBody → CallStat
unfolding denied_stat
reply_status (accepted a) = accept_status (accept_stat a.reply_data)
reply_status (denied r) = denied_stat r

body_stat : Body → CallStat
unfolding reply_status
body_stat (call c) = garbage_res
body_stat (reply r) = reply_status r

-- `rpc_call_stat(const rpc_msg &hdr)`
unfoldable pub call_stat_of : RpcMsg → CallStat
unfolding body_stat
call_stat_of hdr = body_stat hdr.body

-- How `check_call_hdr` ends: it returns, throws a plain `xdr_runtime_error`, or throws an
-- `xdr_call_error` with a status.
pub data Checked : Type 0 where
  fine not_reply : Checked
  call_error : CallStat → Checked

check_denied : RejectedReply → Checked
check_denied r = elim r [
  | auth_error why ↦ call_error (auth_status why)
  | rpc_mismatch m ↦ call_error rpcvers_mismatch
]

check_reply : ReplyBody → Checked
unfolding check_denied
check_reply (accepted a) =
    if accept_stat a.reply_data == success_stat
    then fine
    else call_error (accept_status (accept_stat a.reply_data))
check_reply (denied r) = check_denied r

check_body : Body → Checked
unfolding check_reply
check_body (call c) = not_reply
check_body (reply r) = check_reply r

unfoldable pub check_call_hdr : RpcMsg → Checked
unfolding check_body
check_call_hdr hdr = check_body hdr.body

unfoldable pub accept_errmsg : ℕ → String
accept_errmsg ev =
    if ev == 0
    then "RPC executed successfully"
    else if ev == 1
    then "remote hasn't exported program"
    else if ev == 2
    then "remote can't support version #"
    else if ev == 3
    then "program can't support procedure"
    else if ev == 4
    then "procedure can't decode params"
    else if ev == 5
    then "RPC system error"
    else "unknown accept_stat error"

late_auth_errmsg : ℕ → String
late_auth_errmsg ev =
    if ev == 8
    then "kerberos generic error"
    else if ev == 9
    then "time of credential expired"
    else if ev == 10
    then "problem with ticket file"
    else if ev == 11
    then "can't decode authenticator"
    else if ev == 12
    then "wrong net address in ticket"
    else if ev == 13
    then "no credentials for user"
    else if ev == 14
    then "problem with context"
    else "auth_stat error"

unfoldable pub auth_errmsg : ℕ → String
unfolding late_auth_errmsg
auth_errmsg ev =
    if ev == 0
    then "success"
    else if ev == 1
    then "bad credential (seal broken)"
    else if ev == 2
    then "client must begin new session"
    else if ev == 3
    then "bad verifier (seal broken)"
    else if ev == 4
    then "verifier expired or replayed"
    else if ev == 5
    then "rejected for security reasons"
    else if ev == 6
    then "bogus response verifier"
    else if ev == 7
    then "reason unknown"
    else late_auth_errmsg ev

-- `rpc_call_stat::message()`
unfoldable pub stat_message : CallStat → String
unfolding accept_errmsg auth_errmsg
stat_message (accept_status stat) = accept_errmsg stat
stat_message (auth_status stat) = auth_errmsg stat
stat_message rpcvers_mismatch = "server reported rpcvers field with wrong value"
stat_message garbage_res = "unable to unmarshal reply value sent by server"
stat_message network_error = "network error when communicating with server"
stat_message bad_alloc = "insufficient memory to unmarshal result"

-- What the synchronous client's check should say, given the asynchronous client's status.
abbrev pub check_of_stat : Body → CallStat → Checked
check_of_stat (call c) stat = not_reply
check_of_stat (reply r) stat = if is_success stat then fine else call_error stat

check_denied_lem : (r : RejectedReply) → check_denied r ≡ call_error (denied_stat r)
unfolding check_denied denied_stat
check_denied_lem (rpc_mismatch m) = refl
check_denied_lem (auth_error why) = refl

denied-failed : (r : RejectedReply) → is_success (denied_stat r) ≡ false
unfolding is_success denied_stat
denied-failed (rpc_mismatch m) = refl
denied-failed (auth_error why) = refl

check_body_lem : (b : Body) → check_body b ≡ check_of_stat b (body_stat b)
unfolding check_body body_stat is_success
check_body_lem (call c) = refl
check_body_lem (reply (accepted a)) = refl
check_body_lem (reply (denied r)) = check_denied_lem r ∙ rw (denied-failed r)

-- On every header the synchronous client's `check_call_hdr` and the asynchronous client's
-- `rpc_call_stat` agree: it returns exactly for a reply with a successful status, throws a call
-- error with that status for any other reply, and a plain runtime error for a call.
pub check_call_hdr_lem :
    (hdr : RpcMsg) → check_call_hdr hdr ≡ check_of_stat hdr.body (call_stat_of hdr)
unfolding check_call_hdr call_stat_of
check_call_hdr_lem hdr = check_body_lem hdr.body

pub call_stat_of-accepted :
    (xid : ℕ) (a : AcceptedReply)
    → call_stat_of (record { xid = xid; body = reply (accepted a) })
      ≡ accept_status (accept_stat a.reply_data)
unfolding call_stat_of body_stat reply_status
call_stat_of-accepted xid a = refl

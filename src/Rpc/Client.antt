-- ===== src/Rpc/Client.antt =====
-- The asynchronous client of xdrpp/arpc.h: `call_result` and `async_client_base::invoke`.
pub mod Replies
pub mod Refusals
pub mod Invoke
use cs244b.Base.{ℕ, Bool, true, false, Option, none, some, List, [], ◌∷◌, ◌++◌, if◌then◌else◌}
use cs244b.Xdr.Error.{Error, Result, ok, err, ◌>>=◌, ◌>>◌, is_runtime_error, wrong_union}
use cs244b.Xdr.Archive.{GetArchive, done}
use cs244b.Xdr.Codec.{Codec, pair}
use cs244b.Xdr.Message.{Machine, Message, xdr_get, xdr_to_msg}
use cs244b.Rpc.Types.{
  RpcMsg, CallBody, OpaqueAuth, Body, call, reply, ReplyBody, accepted, denied, ReplyData, success,
  prog_mismatch, failed, Success,
}
use cs244b.Rpc.Codec.{rpc_msg}
use cs244b.Rpc.Status.{CallStat, is_success, call_stat_of, network_error, garbage_res}
use cs244b.Rpc.Sock.{RpcSock, Action, get_xid, send_call}

-- `call_result<T>`: a value, or no value and the status that says why.
pub data CallResult (A : Type 0) : Type 0 where
  result : A → CallResult A
  failure : CallStat → CallResult A

-- A new `opaque_auth`.
abbrev pub null_auth : OpaqueAuth
null_auth = record { flavor = 0; body = [] }

-- A procedure of an interface, `P` of the templates.
pub record Proc : Type 0 where
  pub prog : ℕ
  pub vers : ℕ
  pub proc : ℕ

-- The header that `invoke` makes.
abbrev pub call_header : ℕ → Proc → ℕ → RpcMsg
call_header xid p mode = record {
  xid = xid;
  body = call (record {
    rpcvers = 2;
    prog = p.prog;
    vers = p.vers;
    proc = p.proc;
    cred = null_auth;
    verf = null_auth;
    trace_mode = mode;
  });
}

-- `invoke` up to the reply. The arguments are marshalled behind the header.
unfoldable pub invoke :
    {A C : Type 0}
    → Machine
    → Codec A
    → Proc
    → A
    → C
    → ℕ
    → RpcSock C
    → Result (RpcSock C × List (Action C))
invoke m c p args cb mode s = do
  let (xid, s') = get_xid s
  msg ← xdr_to_msg m (pair rpc_msg c) (call_header xid p mode, args)
  ok (send_call m msg cb s')

-- `reply_data.success()` of an accepted reply: the field of another case is a `wrong_union`. The
-- second component is `end_time`.
unfoldable pub success_field : ReplyData → Result Success
success_field (success s) = ok s
success_field (prog_mismatch i) = err wrong_union
success_field (failed stat) = err wrong_union

-- The `path` that a client takes from a header: empty, unless it is an accepted reply.
pub reply_path : Body → Result (List ℕ)
unfolding success_field
reply_path (call c) = ok []
reply_path (reply (denied r)) = ok []
reply_path (reply (accepted a)) = do s ← success_field a.reply_data; ok s.path

-- `if (res) archive(g, *res); g.done();`
unfoldable pub take_result : {A : Type 0} → Codec A → CallStat → GetArchive → Result (CallResult A)
take_result c stat g =
    if is_success stat
    then (do (a, g') ← c.get g; done g'; ok (result a))
    else (do done g; ok (failure stat))

-- The block that `try` protects. `trace` is `xdr_trace_client`.
pub read_reply : {A : Type 0} → Machine → Codec A → Bool → Message → Result (CallResult A)
unfolding take_result reply_path
read_reply m c trace msg = do
  g ← xdr_get m msg
  (hdr, g') ← rpc_msg.get g
  res ← take_result c (call_stat_of hdr) g'
  if trace then (do path ← reply_path hdr.body; ok res) else ok res

-- `catch (const xdr_runtime_error &)`
unfoldable pub catch_garbage_res : {A : Type 0} → Result (CallResult A) → Result (CallResult A)
catch_garbage_res (ok res) = ok res
catch_garbage_res (err e) = if is_runtime_error e then ok (failure garbage_res) else err e

-- The callback that `invoke` gives to `send_call`: what it calls `cb` with, or the exception that
-- leaves it.
unfoldable pub on_reply :
    {A : Type 0} → Machine → Codec A → Bool → Option Message → Result (CallResult A)
unfolding read_reply catch_garbage_res
on_reply m c trace none = ok (failure network_error)
on_reply m c trace (some msg) = catch_garbage_res (read_reply m c trace msg)

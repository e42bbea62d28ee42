-- ===== src/Rpc/Tier.antt =====
-- The client of a tiering server, `async_tier` of xdrpp/arpc.h: `async_client_base` with the
-- tracing. Its `invoke` sends as that of Rpc.Client does.
pub mod Replies
use cs244b.Base.{ℕ, Option, none, some, List, [], ◌∷◌, if◌then◌else◌}
use cs244b.Xdr.Error.{Result, ok, err, ◌>>=◌}
use cs244b.Xdr.Archive.{GetArchive}
use cs244b.Xdr.Codec.{Codec}
use cs244b.Xdr.Message.{Machine, Message, xdr_get}
use cs244b.Rpc.Types.{RpcMsg, Body, call, reply, accepted, denied}
use cs244b.Rpc.Codec.{rpc_msg}
use cs244b.Rpc.Status.{call_stat_of, network_error}
use cs244b.Rpc.Sock.{RpcSock, Action}
use cs244b.Rpc.Client.{
  Proc, CallResult, failure, success_field, take_result, catch_garbage_res, invoke,
}
use cs244b.Rpc.Tracing.{Floats, Entry, Tracing, record_path}

-- `async_tier::invoke` up to the reply.
unfoldable pub tier_invoke :
    {A C : Type 0}
    → Machine
    → Codec A
    → Proc
    → A
    → C
    → ℕ
    → RpcSock C
    → Result (RpcSock C × List (Action C))
unfolding invoke
tier_invoke m c p args cb mode s = invoke m c p args cb mode s

-- `path_time`: the time of an empty path is 0.
abbrev pub path_time : Floats → List ℕ → ℕ → ℕ
path_time f [] end_time = 0
path_time f (b ∷ path) end_time = f.to_u64 end_time

-- `path` and `path_time`. The field `success()` of an error reply throws.
unfoldable pub entry_of : Floats → Body → Result Entry
unfolding success_field
entry_of f (call c) = ok ([], 0)
entry_of f (reply (denied r)) = ok ([], 0)
entry_of f (reply (accepted a)) = do
  s ← success_field a.reply_data
  ok (s.path, path_time f s.path s.end_time)

module _ {A : Type 0} (c : Codec A) (f : Floats) (mode : ℕ) where
  -- Behind the path: it is recorded, and then the result is read.
  unfoldable pub with_path :
      RpcMsg → GetArchive → Result Entry → Tracing → Result (CallResult A) × Tracing
  with_path hdr g (err e) ts = (err e, ts)
  with_path hdr g (ok entry) ts =
      (take_result c (call_stat_of hdr) g, record_path mode hdr.xid entry ts)

  unfoldable pub with_header :
      Result (RpcMsg × GetArchive) → Tracing → Result (CallResult A) × Tracing
  unfolding with_path entry_of
  with_header (err e) ts = (err e, ts)
  with_header (ok (hdr, g)) ts = with_path hdr g (entry_of f hdr.body) ts

  unfoldable pub with_archive : Result GetArchive → Tracing → Result (CallResult A) × Tracing
  unfolding with_header
  with_archive (err e) ts = (err e, ts)
  with_archive (ok g) ts = with_header (rpc_msg.get g) ts

  abbrev pub caught : Result (CallResult A) × Tracing → Result (CallResult A) × Tracing
  caught (r, ts) = (catch_garbage_res r, ts)

  -- The callback that `invoke` gives to `send_call`: what it calls `cb` with, or the exception that
  -- leaves it, and the maps. `mode` is that of the call.
  unfoldable pub tier_reply : Machine → Option Message → Tracing → Result (CallResult A) × Tracing
  unfolding with_archive catch_garbage_res
  tier_reply m none ts = (ok (failure network_error), ts)
  tier_reply m (some msg) ts = caught (with_archive (xdr_get m msg) ts)

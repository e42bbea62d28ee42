-- ===== src/Rpc/Tier/Replies.antt =====
-- What the callback of `async_tier` of xdrpp/arpc.h makes of the replies of a server.
use cs244b.Base.{ℕ, ◌≤◌, ◌<◌, ◌^◌, ◌≡◌, refl, ap, true, some, ◌++◌, length}
use cs244b.Xdr.Error.{ok, err, is_runtime_error, wrong_union, bind-ok}
use cs244b.Xdr.Archive.{done}
use cs244b.Xdr.Codec.{Codec, pair}
use cs244b.Xdr.Format.{Format, Implements}
use cs244b.Xdr.Message.{Machine, Message, xdr_get, xdr_from_msg}
use cs244b.Xdr.Message.Parts.{parts_lem}
use cs244b.Rpc.Types.{RpcMsg, failed}
use cs244b.Rpc.Codec.{rpc_msg}
use cs244b.Rpc.Codec.Header.{msg_format}
use cs244b.Rpc.Replies.{SuccessHdr, success_msg}
use cs244b.Rpc.Replies.Decode.{accepted_msg}
use cs244b.Rpc.Replies.Success.{success_header, IsValidHdr, success_msg_carries}
use cs244b.Rpc.Status.{is_success, call_stat_of, call_stat_of-accepted}
use cs244b.Rpc.Client.{result, success_field, take_result, catch_garbage_res}
use cs244b.Rpc.Tracing.{Floats, Entry, Tracing, record_path}
use cs244b.Rpc.Tier.{path_time, entry_of, with_path, with_header, with_archive, tier_reply}

module _ {A : Type 0} (c : Codec A) (f : Floats) (mode : ℕ) (m : Machine) (msg : Message)
    (ts : Tracing) where
  -- A message that unmarshals as a successful header and a result.
  tier_reply-result :
      (hdr : RpcMsg) (t : A) (entry : Entry)
      → is_success (call_stat_of hdr) ≡ true
      → entry_of f hdr.body ≡ ok entry
      → xdr_from_msg m (pair rpc_msg c) msg ≡ ok (hdr, t)
      → tier_reply c f mode m (some msg) ts ≡ (ok (result t), record_path mode hdr.xid entry ts)
  unfolding tier_reply with_archive with_header with_path take_result catch_garbage_res
  tier_reply-result hdr t entry fine e h =
      let q = parts_lem m rpc_msg c msg hdr t h in
      rw (q.opened, q.first_read, e, fine, q.second_read, q.closed) refl

  -- A message that unmarshals as an accepted reply with an error status makes the callback of
  -- `async_tier` throw the logic error `xdr_wrong_union`, in every mode, so that the caller's
  -- callback is not called, and nothing is recorded.
  pub tier_reply-failed :
      (xid stat : ℕ)
      → xdr_from_msg m rpc_msg msg ≡ ok (accepted_msg xid (failed stat))
      → tier_reply c f mode m (some msg) ts ≡ (err wrong_union, ts)
  unfolding tier_reply with_archive with_header with_path entry_of xdr_from_msg catch_garbage_res
      success_field is_runtime_error
  tier_reply-failed xid stat h =
      let (g, e, h₁) = bind-ok (xdr_get m msg) _ _ h in
      let (head, e₂, h₂) = bind-ok (rpc_msg.get g) _ _ h₁ in
      let (u, e₃, h₃) = bind-ok (done head.1) _ _ h₂ in
      let same : head.0 ≡ accepted_msg xid (failed stat) = cc in rw (e, e₂, same) refl

-- For a valid success header and a valid result within a stack limit of at least 6 that together
-- are shorter than 2 ^ 31 bytes, the server's reply message is built, and the callback of
-- `async_tier` gives the caller just that result and records the header's path and time for its
-- xid, unless the call's mode is OFF.
pub tier_reply-success_msg :
    {A : Type 0} {c : Codec A} {f : Format A} (imp : Implements c f) (m : Machine) (fl : Floats)
    (mode : ℕ) (h : SuccessHdr) (t : A) (ts : Tracing)
    → IsValidHdr h
    → f.IsValid t
    → 6 ≤ m.marshaling_stack_limit
    → f.depth t ≤ m.marshaling_stack_limit
    → length (msg_format.bytes (success_header h) ++ f.bytes t) < 2 ^ 31
    → (msg : Message) × (success_msg m h c t ≡ ok msg)
      × (tier_reply c fl mode m (some msg) ts
          ≡ (ok (result t), record_path mode h.xid (h.path, path_time fl h.path h.e_time) ts))
unfolding is_success entry_of success_field
tier_reply-success_msg {c = c} imp m fl mode h t ts v w deep d short =
    let (msg, built, back) = success_msg_carries imp m h t v w deep d short in
    (
      msg,
      built,
      tier_reply-result c fl mode m msg ts (success_header h) t
          (h.path, path_time fl h.path h.e_time) (ap is_success (call_stat_of-accepted h.xid _))
          refl back,
    )

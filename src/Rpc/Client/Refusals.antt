-- ===== src/Rpc/Client/Refusals.antt =====
-- What a client's callback is given for a reply without a result.
use cs244b.Base.{ℕ, ◌≡◌, ◌≢◌, refl, ap, ◌∙◌, Bool, true, false, some, arith, ◌==◌}
use cs244b.Xdr.Error.{Result, ok, err, ◌>>=◌, ◌>>◌, is_runtime_error, wrong_union}
use cs244b.Xdr.Archive.{GetArchive, done}
use cs244b.Xdr.Codec.{Codec}
use cs244b.Xdr.Message.{Machine, Message, xdr_get, xdr_from_msg}
use cs244b.Rpc.Types.{
  RpcMsg, AcceptedReply, ReplyData, success, prog_mismatch, failed, reply, accepted, accept_stat,
}
use cs244b.Rpc.Codec.{rpc_msg}
use cs244b.Rpc.Replies.Decode.{accepted_msg}
use cs244b.Rpc.Status.{is_success, call_stat_of, call_stat_of-accepted, accept_status}
use cs244b.Rpc.Client.{
  CallResult, failure, success_field, reply_path, take_result, read_reply, catch_garbage_res,
  on_reply,
}
use cs244b.Rpc.Client.Replies.{finish}

module _ {A : Type 0} (c : Codec A) (trace : Bool) (hdr : RpcMsg)
    (refused : is_success (call_stat_of hdr) ≡ false) where
  abbrev closed : Result (RpcMsg × GetArchive) → Result RpcMsg
  closed r = do (p, g) ← r; done g; ok p

  abbrev header_reply : Result (RpcMsg × GetArchive) → Result (CallResult A)
  header_reply r = do (x, g) ← r; res ← take_result c (call_stat_of x) g; finish trace x res

  abbrev refused_by : RpcMsg → CallResult A
  refused_by x = failure (call_stat_of x)

  abbrev end_reply : RpcMsg → Result (Unit {0}) → Result (CallResult A)
  end_reply x u = do res ← (do u; ok (refused_by x)); finish trace x res

  end_lem :
      (x : RpcMsg) (u : Result (Unit {0}))
      → (u >> ok x) ≡ ok hdr
      → (x ≡ hdr) × (end_reply x u ≡ finish trace x (failure (call_stat_of x)))
  end_lem x (err e) h = cc
  end_lem x (ok u) h = (cc, refl)

  header_lem :
      (r : Result (RpcMsg × GetArchive))
      → closed r ≡ ok hdr
      → header_reply r ≡ finish trace hdr (failure (call_stat_of hdr))
  unfolding take_result
  header_lem (err e) h = cc
  header_lem (ok (x, g)) h =
      let (same, one) = end_lem x (done g) h in
      let t : is_success (call_stat_of x) ≡ false =
        ap (λ y. is_success (call_stat_of y)) same ∙ refused in
      rw t (one ∙ ap (λ y. finish trace y (failure (call_stat_of y))) same)

  archive_lem :
      (r : Result GetArchive)
      → (do g ← r; closed (rpc_msg.get g)) ≡ ok hdr
      → (do g ← r; header_reply (rpc_msg.get g)) ≡ finish trace hdr (failure (call_stat_of hdr))
  archive_lem (err e) h = cc
  archive_lem (ok g) h = header_lem (rpc_msg.get g) h

  refusal :
      (m : Machine) (msg : Message)
      → xdr_from_msg m rpc_msg msg ≡ ok hdr
      → on_reply m c trace (some msg)
        ≡ catch_garbage_res (finish trace hdr (failure (call_stat_of hdr)))
  unfolding on_reply read_reply xdr_from_msg
  refusal m msg h = ap catch_garbage_res (archive_lem (xdr_get m msg) h)

module _ {A : Type 0} (c : Codec A) (m : Machine) (msg : Message) (xid stat : ℕ) where
  not_success : stat ≢ 0 → is_success (call_stat_of (accepted_msg xid (failed stat))) ≡ false
  unfolding is_success
  not_success h =
      let z : (stat == 0) ≡ false = ground arith in ap is_success (call_stat_of-accepted xid _) ∙ z

  -- Without the trace, a message that unmarshals as an accepted reply with an error status gives
  -- the callback of `invoke` that status.
  pub on_reply-failed :
      stat ≢ 0
      → xdr_from_msg m rpc_msg msg ≡ ok (accepted_msg xid (failed stat))
      → on_reply m c false (some msg) ≡ ok (failure (accept_status stat))
  unfolding is_success catch_garbage_res
  on_reply-failed h e =
      refusal c false (accepted_msg xid (failed stat)) (not_success h) m msg e
      ∙ ap (λ st. ok (failure st)) (call_stat_of-accepted xid _)

-- `success()` throws for every case of `reply_data` but SUCCESS.
success_field-refused : (d : ReplyData) → accept_stat d ≢ 0 → success_field d ≡ err wrong_union
unfolding success_field
success_field-refused (success s) h = absurd (h refl)
success_field-refused (prog_mismatch i) h = refl
success_field-refused (failed stat) h = refl

module _ {A : Type 0} (c : Codec A) (m : Machine) (msg : Message) (xid : ℕ)
    (a : AcceptedReply) where
  accepted_refused :
      accept_stat a.reply_data ≢ 0
      → is_success (call_stat_of (record { xid = xid; body = reply (accepted a) })) ≡ false
  unfolding is_success
  accepted_refused h =
      let z : (accept_stat a.reply_data == 0) ≡ false = ground arith in
      ap is_success (call_stat_of-accepted xid a) ∙ z

  -- With the trace, a message that unmarshals as an accepted reply with any status but SUCCESS
  -- and any verifier makes the callback of `invoke` throw the logic error `xdr_wrong_union`,
  -- which it does not catch, so that the caller's callback is not called.
  pub on_reply-trace :
      accept_stat a.reply_data ≢ 0
      → xdr_from_msg m rpc_msg msg ≡ ok (record { xid = xid; body = reply (accepted a) })
      → on_reply m c true (some msg) ≡ err wrong_union
  unfolding catch_garbage_res reply_path is_runtime_error
  on_reply-trace h e =
      refusal c true (record { xid = xid; body = reply (accepted a) }) (accepted_refused h) m msg e
      ∙ rw (success_field-refused a.reply_data h) refl

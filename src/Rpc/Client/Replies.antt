-- ===== src/Rpc/Client/Replies.antt =====
-- What a client's callback is given for the replies that a server sends.
use cs244b.Base.{
  ℕ, ◌≤◌, ◌<◌, ◌^◌, length, ◌≡◌, refl, ap, ◌∙◌, Bool, true, false, some, List, ◌++◌, if◌then◌else◌,
}
use cs244b.Xdr.Error.{Result, ok, err, ◌>>=◌, ◌>>◌}
use cs244b.Xdr.Archive.{GetArchive, done}
use cs244b.Xdr.Codec.{Codec, pair}
use cs244b.Xdr.Message.{Machine, Message, xdr_get, xdr_from_msg}
use cs244b.Rpc.Types.{RpcMsg}
use cs244b.Rpc.Codec.{rpc_msg}
use cs244b.Xdr.Format.{Format, Implements}
use cs244b.Rpc.Codec.Header.{msg_format}
use cs244b.Rpc.Replies.{SuccessHdr, success_msg}
use cs244b.Rpc.Replies.Success.{success_header, IsValidHdr, success_msg_carries}
use cs244b.Rpc.Status.{is_success, call_stat_of, call_stat_of-accepted}
use cs244b.Rpc.Client.{
  CallResult, result, success_field, reply_path, take_result, read_reply, catch_garbage_res,
  on_reply,
}

-- What is left of `read_reply` behind the result.
abbrev pub finish : {A : Type 0} → Bool → RpcMsg → CallResult A → Result (CallResult A)
finish trace hdr res = if trace then (do p ← reply_path hdr.body; ok res) else ok res

pub finish_ok :
    {A : Type 0} (trace : Bool) (hdr : RpcMsg) (path : List ℕ) (res : CallResult A)
    → reply_path hdr.body ≡ ok path
    → finish trace hdr res ≡ ok res
finish_ok true hdr path res h = rw h refl
finish_ok false hdr path res h = refl

module _ {A : Type 0} (c : Codec A) (trace : Bool) (hdr : RpcMsg) (a : A) (path : List ℕ)
    (fine : is_success (call_stat_of hdr) ≡ true) (named : reply_path hdr.body ≡ ok path) where
  -- How `xdr_from_msg` puts the two parts together.
  abbrev paired : RpcMsg → Result (A × GetArchive) → Result ((RpcMsg × A) × GetArchive)
  paired x r = do (b, g) ← r; ok ((x, b), g)

  abbrev closed : Result ((RpcMsg × A) × GetArchive) → Result (RpcMsg × A)
  closed r = do (p, g) ← r; done g; ok p

  abbrev alone : Result (A × GetArchive) → Result (CallResult A)
  alone r = do (b, g) ← r; done g; ok (result b)

  abbrev end_pair : RpcMsg × A → Result (Unit {0}) → Result (RpcMsg × A)
  end_pair p u = u >> ok p

  abbrev end_result : A → Result (Unit {0}) → Result (CallResult A)
  end_result b u = u >> ok (result b)

  end_lem :
      (x : RpcMsg) (b : A) (u : Result (Unit {0}))
      → end_pair (x, b) u ≡ ok (hdr, a)
      → (x ≡ hdr) × (end_result b u ≡ ok (result a))
  end_lem x b (err e) h = cc
  end_lem x b (ok u) h = (cc, ap ok (ap result (cc)))

  result_lem :
      (x : RpcMsg) (r : Result (A × GetArchive))
      → closed (paired x r) ≡ ok (hdr, a)
      → (x ≡ hdr) × (alone r ≡ ok (result a))
  result_lem x (err e) h = cc
  result_lem x (ok (b, g)) h = end_lem x b (done g) h

  abbrev header_pair : Result (RpcMsg × GetArchive) → Result (RpcMsg × A)
  header_pair r = closed (do (x, g) ← r; paired x (c.get g))

  abbrev header_reply : Result (RpcMsg × GetArchive) → Result (CallResult A)
  header_reply r = do (x, g) ← r; res ← take_result c (call_stat_of x) g; finish trace x res

  header_lem :
      (r : Result (RpcMsg × GetArchive))
      → header_pair r ≡ ok (hdr, a)
      → header_reply r ≡ ok (result a)
  unfolding take_result
  header_lem (err e) h = cc
  header_lem (ok (x, g)) h =
      let (same, one) = result_lem x (c.get g) h in
      let t : is_success (call_stat_of x) ≡ true =
        ap (λ y. is_success (call_stat_of y)) same ∙ fine in
      let n : reply_path x.body ≡ ok path = ap (λ y. reply_path y.body) same ∙ named in
      rw (t, one) (finish_ok trace x path (result a) n)

  abbrev archive_pair : Result GetArchive → Result (RpcMsg × A)
  archive_pair r = do g ← r; header_pair (rpc_msg.get g)

  abbrev archive_reply : Result GetArchive → Result (CallResult A)
  archive_reply r = do g ← r; header_reply (rpc_msg.get g)

  archive_lem :
      (r : Result GetArchive) → archive_pair r ≡ ok (hdr, a) → archive_reply r ≡ ok (result a)
  archive_lem (err e) h = cc
  archive_lem (ok g) h = header_lem (rpc_msg.get g) h

  -- A message that unmarshals as a successful header and a result gives the callback that result, with
  -- or without the trace.
  on_reply-result :
      (m : Machine) (msg : Message)
      → xdr_from_msg m (pair rpc_msg c) msg ≡ ok (hdr, a)
      → on_reply m c trace (some msg) ≡ ok (result a)
  unfolding on_reply read_reply xdr_from_msg pair catch_garbage_res
  on_reply-result m msg h = ap catch_garbage_res (archive_lem (xdr_get m msg) h)

-- For a valid success header and a valid result within the stack limit that together are shorter
-- than 2 ^ 31 bytes, the server's reply message is built, and the callback of the client's
-- `invoke` gives the caller just that result, with and without the trace.
pub on_reply-success_msg :
    {A : Type 0} {c : Codec A} {f : Format A} (imp : Implements c f) (m : Machine) (h : SuccessHdr)
    (t : A)
    → IsValidHdr h
    → f.IsValid t
    → 6 ≤ m.marshaling_stack_limit
    → f.depth t ≤ m.marshaling_stack_limit
    → length (msg_format.bytes (success_header h) ++ f.bytes t) < 2 ^ 31
    → (msg : Message) × (success_msg m h c t ≡ ok msg)
      × ((trace : Bool) → on_reply m c trace (some msg) ≡ ok (result t))
unfolding is_success reply_path success_field
on_reply-success_msg {c = c} imp m h t v w deep d short =
    let (msg, built, back) = success_msg_carries imp m h t v w deep d short in
    (
      msg,
      built,
      λ trace.
          on_reply-result c trace (success_header h) t h.path
            (ap is_success (call_stat_of-accepted h.xid _)) refl m msg back,
    )

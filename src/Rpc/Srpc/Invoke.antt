-- ===== src/Rpc/Srpc/Invoke.antt =====
-- A call of the synchronous client of xdrpp/srpc.h, against the reply of a server of xdrpp/srpc.h.
use cs244b.Base.{
  ℕ, ◌+◌, ◌%◌, ◌^◌, ◌≤◌, ◌<◌, ◌≡◌, refl, sym, ap, ◌∙◌, true, Option, some, List, ◌++◌, ◌==◌, length,
  length-append, All, arith,
}
use cs244b.Xdr.Word.{u32_mod, be32}
use cs244b.Xdr.Error.{ok}
use cs244b.Xdr.Codec.{Codec, pair}
use cs244b.Xdr.Format.{Format, Implements}
use cs244b.Xdr.Format.Struct.{pair-Implements}
use cs244b.Xdr.Message.{Machine, Message, xdr_from_msg}
use cs244b.Xdr.Message.Parts.{parts_lem}
use cs244b.Xdr.Message.RoundTrip.{framed, xdr_to_msg_ok}
use cs244b.Rpc.Types.{RpcMsg}
use cs244b.Rpc.Codec.{rpc_msg}
use cs244b.Rpc.Codec.Header.{msg_format, rpc_msg-Implements}
use cs244b.Rpc.Replies.{SuccessHdr, success_msg}
use cs244b.Rpc.Replies.Success.{success_header, IsValidHdr, success_msg_ok}
use cs244b.Rpc.Status.{fine, check_call_hdr}
use cs244b.Rpc.MsgSock.{raw}
use cs244b.Rpc.Client.{Proc, call_header}
use cs244b.Rpc.Client.Invoke.{IsProc, call_header-IsValid, length-call_header}
use cs244b.Rpc.Srpc.{Read, receive, write_message, read_message, received, invoke}
use cs244b.Rpc.Srpc.Loop.{reads, joined, Arrives}
use cs244b.Rpc.Srpc.Frames.{tested, read_message_frame}

-- A message that unmarshals as a header that `check_call_hdr` passes and a result gives the caller the
-- result.
receive_lem :
    {B : Type 0} (m : Machine) (d : Codec B) (hdr : RpcMsg) (msg : Message) (t : B)
    → check_call_hdr hdr ≡ fine
    → xdr_from_msg m (pair rpc_msg d) msg ≡ ok (hdr, t)
    → receive m d hdr.xid msg ≡ ok t
unfolding receive
receive_lem m d hdr msg t passes h =
    let q = parts_lem m rpc_msg d msg hdr t h in
    let same : (hdr.xid == hdr.xid) ≡ true = ground arith in
    rw (q.opened, q.first_read, passes, same, q.second_read, q.closed) refl

-- `write` takes the whole of every message.
abbrev pub WritesAll : (Message → Option ℕ) → Type 0
WritesAll write = (msg : Message) → write msg ≡ some (length (raw msg))

write_message_ok : (msg : Message) → write_message msg (some (length (raw msg))) ≡ ok tt
unfolding write_message
write_message_ok msg =
    let same : (length (raw msg) == length (raw msg)) ≡ true = ground arith in rw same refl

-- The xid of the next call.
abbrev pub xid_behind : ℕ → ℕ
xid_behind xid_counter = (xid_counter + 1) % u32_mod

-- Up to the reply: the request is marshalled and written.
invoke_sent :
    {A B : Type 0} {c : Codec A} {f : Format A} (imp : Implements c f) (m : Machine) (d : Codec B)
    (p : Proc) (a : A) (write : Message → Option ℕ) (rs : List Read) (counter : ℕ)
    → IsProc p
    → f.IsValid a
    → 6 ≤ m.marshaling_stack_limit
    → f.depth a ≤ m.marshaling_stack_limit
    → length (f.bytes a) ≤ 2 ^ 30
    → WritesAll write
    → invoke m d c p a write rs counter
      ≡ (received m d (xid_behind counter) (read_message m rs), xid_behind counter)
unfolding invoke
invoke_sent {f = f} imp m d p a write rs counter i v deep da n w =
    let xid = xid_behind counter in
    let hdr = call_header xid p 0 in
    let total : length (msg_format.bytes hdr ++ f.bytes a) < 2 ^ 31 =
      omega (arith, length-append (msg_format.bytes hdr) (f.bytes a), length-call_header xid p 0) in
    let msg = framed (msg_format.bytes hdr ++ f.bytes a) in
    rw
      (
        xdr_to_msg_ok (pair-Implements rpc_msg-Implements imp) m (hdr, a)
            (call_header-IsValid xid p 0 (omega arith) i (omega arith), v) (omega arith) total,
        w msg,
        write_message_ok msg,
      )
      refl

-- The bytes of a successful reply.
abbrev pub reply_bytes : {B : Type 0} → Format B → SuccessHdr → B → List ℕ
reply_bytes f h t = msg_format.bytes (success_header h) ++ f.bytes t

-- For arguments and a result that are valid and within a stack limit of at least 6, arguments no
-- longer than 2 ^ 30 bytes, a valid success header with the xid that comes behind `xid_counter`,
-- and a reply shorter than 2 ^ 31 bytes whose size passes the test of `read_message`: when
-- `write` takes the whole request and the reads then bring the reply, however it is cut into
-- them, the reply is the one that the server builds, `invoke` of the synchronous client returns
-- the result, leaves the reads behind the reply, and moves `xid_counter` on by one.
pub invoke-success_msg :
    {A B : Type 0} {c : Codec A} {d : Codec B} {f : Format A} {k : Format B} (imp : Implements c f)
    (imp' : Implements d k) (m : Machine) (p : Proc) (a : A) (t : B) (h : SuccessHdr)
    (write : Message → Option ℕ) (hs bss : List (List ℕ)) (rs : List Read) (counter : ℕ)
    → IsProc p
    → f.IsValid a
    → k.IsValid t
    → IsValidHdr h
    → 6 ≤ m.marshaling_stack_limit
    → f.depth a ≤ m.marshaling_stack_limit
    → k.depth t ≤ m.marshaling_stack_limit
    → length (f.bytes a) ≤ 2 ^ 30
    → length (reply_bytes k h t) < 2 ^ 31
    → tested m.big (length (reply_bytes k h t)) % 4 ≡ 0
    → WritesAll write
    → All Arrives hs
    → All Arrives bss
    → joined hs ≡ be32 (length (reply_bytes k h t) + 2 ^ 31)
    → joined bss ≡ reply_bytes k h t
    → h.xid ≡ xid_behind counter
    → (success_msg m h d t ≡ ok (framed (reply_bytes k h t)))
      × (invoke m d c p a write (reads hs ++ (reads bss ++ rs)) counter
          ≡ ((ok t, rs), xid_behind counter))
unfolding received check_call_hdr
invoke-success_msg {d = d} {k = k} imp imp' m p a t h write hs bss rs counter i v vt vh deep da dt n
      short bits w arrives arrive e e' same =
    let (built, back) = success_msg_ok imp' m h t vh vt deep dt short in
    let yes : (tested m.big (length (reply_bytes k h t)) % 4 == 0) ≡ true = ground arith in
    let got : receive m d h.xid (framed (reply_bytes k h t)) ≡ ok t =
      receive_lem m d (success_header h) _ t refl back in
    (
      built,
      invoke_sent imp m d p a write _ counter i v deep da n w
          ∙ rw (read_message_frame m (reply_bytes k h t) hs bss rs arrives arrive e e' short, yes)
              (ap (λ r. ((r, rs), xid_behind counter))
                (ap (λ x. receive m d x (framed (reply_bytes k h t))) (sym same) ∙ got)),
    )

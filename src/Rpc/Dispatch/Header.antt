-- ===== src/Rpc/Dispatch/Header.antt =====
-- What `rpc_server_base::dispatch` reads from a request, and what a client reads from the answer.
use cs244b.Base.{
  ℕ, ◌%◌, ◌≤◌, ◌≡◌, refl, ap, ◌∙◌, true, none, some, List, [], ◌∷◌, ◌++◌, length, length-append,
  arith, ◌==◌,
}
use cs244b.Xdr.Error.{Result, ok}
use cs244b.Xdr.Archive.{GetArchive}
use cs244b.Xdr.Message.{Machine, Message, xdr_get, xdr_from_msg}
use cs244b.Rpc.Types.{
  RpcMsg, Body, CallBody, ReplyBody, ReplyData, call, reply, accepted, denied, success, failed,
  prog_mismatch, rpc_mismatch, auth_error,
}
use cs244b.Rpc.Codec.{rpc_msg}
use cs244b.Rpc.Codec.Unions.{reply_data_format}
use cs244b.Rpc.Codec.Header.{reply_body_format, msg_format, rpc_msg-Implements}
use cs244b.Rpc.Replies.Decode.{Carries}
use cs244b.Rpc.Dispatch.{Outcome, Servers, send, answer, on_header, on_archive, dispatch}

-- One reply and no exception, in state `s`; a client reads the header `h` from it.
abbrev pub Answers : {S : Type 0} → Machine → S → Outcome S → RpcMsg → Type 0
Answers m s o h =
    (msg : Message) × (o ≡ record { replies = some msg ∷ []; thrown = none; state = s })
    × (xdr_from_msg m rpc_msg msg ≡ ok h)

pub send-Answers :
    {S : Type 0} (m : Machine) (s : S) (r : Result Message) (h : RpcMsg)
    → Carries m r h
    → Answers m s (send s r) h
unfolding send
send-Answers m s r h (msg, built, mark, back) = (msg, rw built, back)

-- The archive behind the header.
abbrev pub behind : Machine → List ℕ → GetArchive
behind m args = record { big = m.big; stack_limit = m.marshaling_stack_limit; rest = args }

-- A request: the bytes of its header and of its arguments, in whole words.
abbrev pub request : List ℕ → RpcMsg → List ℕ → Message
request mark hdr args = record { header = mark; body = msg_format.bytes hdr ++ args }

accepted-shallow : (d : ReplyData) → reply_data_format.depth d ≤ 2
accepted-shallow (success s) = omega arith
accepted-shallow (prog_mismatch s) = omega arith
accepted-shallow (failed s) = omega arith

reply-shallow : (b : ReplyBody) → reply_body_format.depth b ≤ 4
reply-shallow (accepted a) = omega (arith, accepted-shallow a.reply_data)
reply-shallow (denied (rpc_mismatch i)) = omega arith
reply-shallow (denied (auth_error i)) = omega arith

body-shallow : (xid : ℕ) (b : Body) → msg_format.depth (record { xid = xid; body = b }) ≤ 6
body-shallow xid (call c) = omega arith
body-shallow xid (reply b) = omega (arith, reply-shallow b)

shallow : (hdr : RpcMsg) → msg_format.depth hdr ≤ 6
shallow hdr = body-shallow hdr.xid hdr.body

xdr_get_ok :
    (m : Machine) (mark bs : List ℕ)
    → length bs % 4 ≡ 0
    → xdr_get m (record { header = mark; body = bs }) ≡ ok (behind m bs)
unfolding xdr_get
xdr_get_ok m mark bs h = let e : (length bs % 4 == 0) ≡ true = ground arith in rw e refl

dispatch_of :
    {S : Type 0} (m : Machine) (servers : Servers S) (s : S) (msg : Message) (g g' : GetArchive)
    (hdr : RpcMsg)
    → xdr_get m msg ≡ ok g
    → rpc_msg.get g ≡ ok (hdr, g')
    → dispatch m servers s msg ≡ answer m servers hdr.body s hdr g'
unfolding dispatch on_archive on_header
dispatch_of m servers s msg g g' hdr e f =
    ap (on_archive m servers s) e ∙ ap (on_header m servers s) f

whole_message : (xs ys : List ℕ) → length xs % 4 ≡ 0 → length ys % 4 ≡ 0 → length (xs ++ ys) % 4 ≡ 0
whole_message xs ys h k = omega (arith, length-append xs ys)

≤-trans' : {a b c : ℕ} → a ≤ b → b ≤ c → a ≤ c
≤-trans' h k = omega arith

module _ {S : Type 0} (m : Machine) (servers : Servers S) (s : S) (mark : List ℕ) (hdr : RpcMsg)
    (args : List ℕ) (valid : msg_format.IsValid hdr) (deep : 6 ≤ m.marshaling_stack_limit)
    (whole : length args % 4 ≡ 0) where
  -- `dispatch` answers the header that the client marshalled, with the arguments left to read.
  pub dispatch-answer :
      dispatch m servers s (request mark hdr args) ≡ answer m servers hdr.body s hdr (behind m args)
  dispatch-answer =
      let a : length (msg_format.bytes hdr) % 4 ≡ 0 = rpc_msg-Implements.aligned hdr valid in
      dispatch_of m servers s (request mark hdr args) (behind m (msg_format.bytes hdr ++ args))
        (behind m args) hdr
        (xdr_get_ok m mark (msg_format.bytes hdr ++ args)
          (whole_message (msg_format.bytes hdr) args a whole))
        (rpc_msg-Implements.get_ok hdr (behind m args) args valid (≤-trans' (shallow hdr) deep))

-- A call, as its header.
abbrev pub call_msg : ℕ → CallBody → RpcMsg
call_msg xid c = record { xid = xid; body = call c }

-- ===== src/Rpc/Sock/NoServer.antt =====
-- A call that reaches a socket without a server.
use cs244b.Base.{
  ℕ, ◌/◌, ◌%◌, ◌^◌, ◌≤◌, ◌≡◌, refl, Bool, true, false, List, [], ◌∷◌, some, ltb, ◌==◌, length,
  arith,
}
use cs244b.Xdr.Word.{IsU32, be32, swap32, swap32le, word_of}
use cs244b.Xdr.Error.{ok}
use cs244b.Xdr.Message.{Machine, Message, xdr_from_msg}
use cs244b.Rpc.Types.{CallBody, failed, prog_unavail, call_type}
use cs244b.Rpc.Codec.{rpc_msg}
use cs244b.Rpc.Codec.Header.{msg_format}
use cs244b.Rpc.Replies.Decode.{accepted_msg, rpc_accepted_error_msg_carries}
use cs244b.Rpc.Dispatch.Header.{request, call_msg}
use cs244b.Rpc.Sock.{RpcSock, put, word, word_at, no_server, recv_call, recv_message, recv_msg}

-- A word of a message is loaded without `swap32le`.
load-be32 :
    (big : Bool) (v : ℕ)
    → IsU32 v
    → word_of big (v / 2 ^ 24 % 256) (v / 2 ^ 16 % 256) (v / 256 % 256) (v % 256) ≡ swap32le big v
unfolding word_of swap32le swap32
load-be32 true v h = omega arith
load-be32 false v h = omega arith

swap32le-IsU32 : (big : Bool) (v : ℕ) → IsU32 v → IsU32 (swap32le big v)
unfolding swap32le swap32
swap32le-IsU32 true v h = h
swap32le-IsU32 false v h = omega arith

module _ {C : Type 0} (m : Machine) (s : RpcSock C) (mark : List ℕ) (xid : ℕ) (c : CallBody)
    (args : List ℕ) (valid : msg_format.IsValid (call_msg xid c))
    (deep : 6 ≤ m.marshaling_stack_limit) where
  first_word : word m 0 (request mark (call_msg xid c) args) ≡ swap32le m.big xid
  unfolding word word_at be32
  first_word = load-be32 m.big xid (valid.0)

  second_word : word m 1 (request mark (call_msg xid c) args) ≡ swap32le m.big call_type
  unfolding word word_at be32
  second_word = load-be32 m.big 0 (omega arith)

  long : ltb (length (request mark (call_msg xid c) args).body) 8 ≡ false
  unfolding be32
  long = ground arith

  -- A socket without a server answers a call with a valid header, on a machine with a stack
  -- limit of at least 6, by PROG_UNAVAIL with the xid as the machine loads it: on a
  -- little-endian machine the bytes of the caller's xid come back in reverse.
  pub recv_msg-no_server :
      s.has_server ≡ false
      → (reply : Message) × (recv_msg m (some (request mark (call_msg xid c) args)) s
          ≡ ok (s, put reply ∷ []))
        × (xdr_from_msg m rpc_msg reply
            ≡ ok (accepted_msg (swap32le m.big xid) (failed prog_unavail)))
  unfolding recv_msg recv_message recv_call no_server
  recv_msg-no_server h =
      let (reply, built, _, back) =
        rpc_accepted_error_msg_carries m (swap32le m.big xid) (swap32le-IsU32 m.big xid (valid.0))
          deep prog_unavail (omega arith) (omega arith) (omega arith) in
      let t : (swap32le m.big call_type == swap32le m.big call_type) ≡ true = ground arith in
      (reply, rw (long, second_word, t, h, first_word, built) refl, back)

-- ===== src/Rpc/Srpc.antt =====
-- The synchronous client: xdrpp/srpc.cc, and `synchronous_client_base` of xdrpp/srpc.h. The results
-- of the system calls are arguments: a list for those of `read`, one behind the other, and a function
-- for that of `write`.
pub mod Loop
pub mod Frames
pub mod Invoke
use cs244b.Base.{
  ℕ, zero, suc, ◌+◌, ◌-◌, ◌%◌, ◌^◌, Bool, Option, none, some, List, [], ◌∷◌, ◌++◌, ltb, ◌==◌,
  if◌then◌else◌, length,
}
use cs244b.Xdr.Word.{u32_mod, swap32le}
use cs244b.Xdr.Error.{Result, ok, err, ◌>>=◌, ◌>>◌, guard, bad_message_size, call_failed, assertion}
use cs244b.Xdr.Archive.{done}
use cs244b.Xdr.Codec.{Codec, pair}
use cs244b.Xdr.Message.{Machine, Message, alloc, xdr_get, xdr_to_msg}
use cs244b.Rpc.Types.{RpcMsg}
use cs244b.Rpc.Codec.{rpc_msg}
use cs244b.Rpc.Status.{Checked, fine, not_reply, call_error, check_call_hdr}
use cs244b.Rpc.Sock.{word_at}
use cs244b.Rpc.MsgSock.{raw}
use cs244b.Rpc.Client.{Proc, call_header}

-- What `read` returns: some bytes, none of them at the end of the stream, or -1.
pub data Read : Type 0 where
  bytes : List ℕ → Read
  broken : Read

abbrev pub prepend : List ℕ → Option (List ℕ) × List Read → Option (List ℕ) × List Read
prepend bs (none, rs) = (none, rs)
prepend bs (some more, rs) = (some (bs ++ more), rs)

-- The loop of `fullread`, with the number of bytes that are missing. `none` is -1. The reads come in
-- the order of the list; where it ends, so does the stream.
unfoldable pub fullread : ℕ → List Read → Option (List ℕ) × List Read
fullread zero rs = (some [], rs)
fullread (suc n) [] = (some [], [])
fullread (suc n) (broken ∷ rs) = (none, rs)
fullread (suc n) (bytes [] ∷ rs) = (some [], rs)
fullread (suc n) (bytes (b ∷ bs) ∷ rs) = prepend (b ∷ bs) (fullread (n - length bs) rs)

module _ (m : Machine) where
  -- `read_message` behind the second `fullread`.
  unfoldable pub with_body : ℕ → List ℕ → Option (List ℕ) × List Read → Result Message × List Read
  with_body size header (none, rs) = (err call_failed, rs)
  with_body size header (some bs, rs) =
      if length bs == size
      then (ok (record { header = header; body = bs }), rs)
      else (err bad_message_size, rs)

  unfoldable pub with_buffer : ℕ → Result (List ℕ) → List Read → Result Message × List Read
  unfolding with_body
  with_buffer size (err e) rs = (err e, rs)
  with_buffer size (ok header) rs = with_body size header (fullread size rs)

  -- `len`, as the machine loads it: the test of its low bits comes before `swap32le`.
  unfoldable pub with_len : ℕ → List Read → Result Message × List Read
  unfolding with_buffer
  with_len len rs =
      if len % 4 == 0
      then (if ltb (swap32le m.big len) (2 ^ 31)
          then (err bad_message_size, rs)
          else (let size = swap32le m.big len - 2 ^ 31 in with_buffer size (alloc m size) rs))
      else (err bad_message_size, rs)

  unfoldable pub with_mark : Option (List ℕ) × List Read → Result Message × List Read
  unfolding with_len
  with_mark (none, rs) = (err call_failed, rs)
  with_mark (some bs, rs) =
      if ltb (length bs) 4 then (err bad_message_size, rs) else with_len (word_at m.big bs) rs

  unfoldable pub read_message : List Read → Result Message × List Read
  unfolding with_mark
  read_message rs = with_mark (fullread 4 rs)

-- `write_message`, with what `write` returns: a number of bytes, or `none` for -1.
unfoldable pub write_message : Message → Option ℕ → Result (Unit {0})
write_message msg none = err call_failed
write_message msg (some n) = guard (n == length (raw msg)) assertion

-- `prepare_call` on a new header, with `xid_counter`.
unfoldable pub prepare_call : Proc → ℕ → RpcMsg × ℕ
prepare_call p xid_counter = let xid = (xid_counter + 1) % u32_mod in (call_header xid p 0, xid)

-- How the exceptions of `check_call_hdr` leave `invoke`: they are runtime errors of the RPC layer.
abbrev pub passed : Checked → Result (Unit {0})
passed fine = ok tt
passed not_reply = err call_failed
passed (call_error stat) = err call_failed

module _ {B : Type 0} (m : Machine) (d : Codec B) where
  -- `invoke` from the reply on.
  unfoldable pub receive : ℕ → Message → Result B
  receive xid msg = do
    g ← xdr_get m msg
    (hdr, g') ← rpc_msg.get g
    passed (check_call_hdr hdr)
    guard (hdr.xid == xid) call_failed
    (r, g'') ← d.get g'
    done g''
    ok r

  unfoldable pub received : ℕ → Result Message × List Read → Result B × List Read
  unfolding receive
  received xid (err e, rs) = (err e, rs)
  received xid (ok msg, rs) = (receive xid msg, rs)

  unfoldable pub written : ℕ → Result (Unit {0}) → List Read → Result B × List Read
  unfolding received read_message
  written xid (err e) rs = (err e, rs)
  written xid (ok u) rs = received xid (read_message m rs)

  unfoldable pub sent : ℕ → (Message → Option ℕ) → Result Message → List Read → Result B × List Read
  unfolding written write_message
  sent xid write (err e) rs = (err e, rs)
  sent xid write (ok msg) rs = written xid (write_message msg (write msg)) rs

  -- `synchronous_client_base::invoke`: what it returns or throws, the reads that are left, and
  -- `xid_counter`.
  unfoldable pub invoke :
      {A : Type 0}
      → Codec A
      → Proc
      → A
      → (Message → Option ℕ)
      → List Read
      → ℕ
      → (Result B × List Read) × ℕ
  unfolding sent prepare_call
  invoke c p a write rs counter =
      let (hdr, counter') = prepare_call p counter in
      (sent hdr.xid write (xdr_to_msg m (pair rpc_msg c) (hdr, a)) rs, counter')

-- ===== src/Rpc/Sock.antt =====
-- `rpc_sock` of xdrpp/msgsock.h and msgsock.cc: calls and replies on one message socket. A callback
-- is a value of any type, and what an operation calls is its result: the calls come last in every
-- operation, so that what they do to the socket comes behind it.
pub mod Calls
pub mod Counting
pub mod Once
pub mod NoServer
use cs244b.Base.{
  ℕ, zero, suc, ◌+◌, ◌-◌, ◌*◌, ◌%◌, Bool, true, false, ◌&&◌, not, Option, none, some, List, [], ◌∷◌,
  ◌++◌, map, ltb, ◌==◌, if◌then◌else◌, length, drop,
}
use cs244b.Base.Assoc.{find, insert, erase, nat_eq}
use cs244b.Xdr.Word.{u32_mod, swap32le, word_of}
use cs244b.Xdr.Error.{Error, Result, ok, err, ◌>>=◌, fault}
use cs244b.Xdr.Message.{Machine, Message}
use cs244b.Rpc.Types.{call_type, reply_type, prog_unavail}
use cs244b.Rpc.Replies.{rpc_accepted_error_msg}

-- `xid_`, `calls_`, and whether `servcb_` is set.
pub record RpcSock (C : Type 0) : Type 0 where
  pub xid : ℕ
  pub calls : List (ℕ × C)
  pub has_server : Bool

-- A call of a callback, a call of `servcb_`, and a message for `putmsg`.
pub data Action (C : Type 0) : Type 0 where
  call_back : C → Option Message → Action C
  serve : Option Message → Action C
  put : Message → Action C

-- The word that starts at some byte of the data, as the machine loads it.
unfoldable pub word_at : Bool → List ℕ → ℕ
word_at big (a ∷ b ∷ c ∷ d ∷ _) = word_of big a b c d
word_at big _ = 0

-- `message_t::word(i)`, for a message that has that word.
unfoldable pub word : Machine → ℕ → Message → ℕ
unfolding word_at
word m zero msg = word_at m.big msg.body
word m (suc i) msg = word_at m.big (drop (4 * suc i) msg.body)

pub is_some : {A : Type 0} → Option A → Bool
is_some none = false
is_some (some a) = true

module _ {C : Type 0} where
  -- `while (calls_.find(++xid_) != calls_.end() && xid_ != 0)`. As many rounds as `xid_` is below
  -- 2 ^ 32 are enough: behind them it is 0.
  unfoldable pub next_xid : ℕ → List (ℕ × C) → ℕ → ℕ
  unfolding is_some
  next_xid zero calls xid = xid
  next_xid (suc fuel) calls xid =
      let x = (xid + 1) % u32_mod in
      elim (is_some (find x calls) && not (x == 0)) [ true ↦ next_xid fuel calls x | false ↦ x ]

  unfoldable pub get_xid : RpcSock C → ℕ × RpcSock C
  unfolding next_xid
  get_xid s = let x = next_xid (u32_mod - s.xid) s.calls s.xid in (x, record s { xid = x })

  -- `send_call`: `emplace` keeps an entry that is there.
  unfoldable pub send_call : Machine → Message → C → RpcSock C → RpcSock C × List (Action C)
  unfolding word
  send_call m msg cb s = (record s { calls = insert (word m 0 msg) cb s.calls }, put msg ∷ [])

  abbrev pub aborted : List (ℕ × C) → List (Action C)
  aborted [] = []
  aborted ((x, cb) ∷ calls) = call_back cb none ∷ aborted calls

  -- `abort_all_calls`
  unfoldable pub abort_all_calls : RpcSock C → RpcSock C × List (Action C)
  abort_all_calls s = (record s { calls = [] }, aborted s.calls)

  pub no_server : Machine → Option Message → Result (List (Action C))
  unfolding word
  no_server m none = err fault
  no_server m (some msg) = do
    reply ← rpc_accepted_error_msg m (word m 0 msg) prog_unavail
    ok (put reply ∷ [])

  -- `recv_call`. Without a server it looks into the message, and a null pointer is a fault.
  unfoldable pub recv_call : Machine → Option Message → RpcSock C → Result (List (Action C))
  unfolding no_server
  recv_call m msg s = if s.has_server then ok (serve msg ∷ []) else no_server m msg

  -- `abort_all_calls(); recv_call(nullptr);`
  pub give_up : Machine → RpcSock C → Result (RpcSock C × List (Action C))
  unfolding abort_all_calls recv_call
  give_up m s = do
    more ← recv_call m none s
    let (s', acts) = abort_all_calls s in ok (s', acts ++ more)

  pub on_reply : Message → ℕ → RpcSock C → Option C → RpcSock C × List (Action C)
  on_reply msg xid s none = (s, [])
  on_reply msg xid s (some cb) =
      (record s { calls = erase xid s.calls }, call_back cb (some msg) ∷ [])

  pub recv_message : Machine → Message → RpcSock C → Result (RpcSock C × List (Action C))
  unfolding give_up on_reply word recv_call
  recv_message m msg s =
      if word m 1 msg == swap32le m.big call_type
      then (do acts ← recv_call m (some msg) s; ok (s, acts))
      else if word m 1 msg == swap32le m.big reply_type
      then ok (on_reply msg (word m 0 msg) s (find (word m 0 msg) s.calls))
      else give_up m s

  -- `recv_msg`
  unfoldable pub recv_msg :
      Machine → Option Message → RpcSock C → Result (RpcSock C × List (Action C))
  unfolding recv_message give_up
  recv_msg m none s = give_up m s
  recv_msg m (some msg) s = if ltb (length msg.body) 8 then give_up m s else recv_message m msg s

-- ===== src/Rpc/Replies/Decode.antt =====
-- What a client reads from the replies: the messages of xdrpp/server.cc and server.h are written by
-- hand there, and these theorems compare them with the types of xdrpp/rpc_msg.x.
use cs244b.Base.{
  ℕ, ◌+◌, ◌*◌, ◌^◌, ◌≤◌, ◌<◌, ◌≡◌, ◌≢◌, refl, ap, ◌∙◌, false, List, [], ◌∷◌, ◌++◌, append-nil,
  length, length-append, All, arith, ◌==◌,
}
use cs244b.Xdr.Word.{IsU32, be32}
use cs244b.Xdr.Error.{Result, ok}
use cs244b.Xdr.Archive.{PutArchive}
use cs244b.Xdr.Format.{stored}
use cs244b.Xdr.Format.Words.{length-be32, put_u32_ok, stored-stored}
use cs244b.Xdr.Message.{Machine, Message, fill, xdr_from_msg}
use cs244b.Xdr.Message.RoundTrip.{framed, blank, fill_ok, xdr_from_msg_ok}
use cs244b.Rpc.Types.{
  RpcMsg, OpaqueAuth, ReplyData, RejectedReply, accepted, denied, reply, prog_mismatch, failed,
  rpc_mismatch, auth_error,
}
use cs244b.Rpc.Codec.{rpc_msg}
use cs244b.Rpc.Codec.Header.{msg_format, rpc_msg-Implements}
use cs244b.Rpc.Replies.{
  put_words, rpc_accepted_error_msg, rpc_prog_mismatch_msg, rpc_auth_error_msg,
  rpc_rpc_mismatch_msg,
}

abbrev pub words : List ℕ → List ℕ
words [] = []
words (w ∷ ws) = be32 w ++ words ws

pub length-words : (ws : List ℕ) → length (words ws) ≡ 4 * length ws
length-words [] = refl
length-words (w ∷ ws) =
    omega (arith, length-append (be32 w) (words ws), length-be32 w, length-words ws)

pub put_words_ok :
    (ws : List ℕ) (ar : PutArchive)
    → All IsU32 ws
    → length (words ws) ≤ ar.room
    → put_words ws ar ≡ ok (stored ar (words ws))
unfolding put_words
put_words_ok [] ar h hr = rw append-nil (ground arith)
put_words_ok (w ∷ ws) ar (hw, hs) hr =
    let n : length (be32 w ++ words ws) ≡ 4 + length (words ws) =
      length-append (be32 w) (words ws) ∙ ap (λ k. k + length (words ws)) (length-be32 w) in
    rw (put_u32_ok w ar hw (omega arith)) (
      put_words_ok ws (stored ar (be32 w)) hs (omega (arith, length-be32 w))
      ∙ ap ok (stored-stored ar (be32 w) (words ws)))

-- A buffer made for the words holds just them.
fill-words :
    (m : Machine) (ws : List ℕ)
    → All IsU32 ws
    → length (words ws) < 2 ^ 31
    → fill m (length (words ws)) (put_words ws) ≡ ok (framed (words ws))
fill-words m ws h hl =
    fill_ok m (words ws) (put_words ws) hl (put_words_ok ws (blank m (words ws)) h (omega arith))

abbrev pub no_auth : OpaqueAuth
no_auth = record { flavor = 0; body = [] }

abbrev pub accepted_msg : ℕ → ReplyData → RpcMsg
accepted_msg xid d = record {
  xid = xid;
  body = reply (accepted (record { verf = no_auth; reply_data = d }));
}

abbrev pub denied_msg : ℕ → RejectedReply → RpcMsg
denied_msg xid r = record { xid = xid; body = reply (denied r) }

-- The message is framed, and a client that unmarshals it reads the given header.
abbrev pub Carries : Machine → Result Message → RpcMsg → Type 0
Carries m r h =
    (msg : Message) × (r ≡ ok msg)
    × (msg.header ≡ be32 (length msg.body + 2 ^ 31))
    × (xdr_from_msg m rpc_msg msg ≡ ok h)

-- Words that are the format's bytes of a header carry it.
words_carry :
    (m : Machine) (ws : List ℕ) (h : RpcMsg)
    → All IsU32 ws
    → length (words ws) < 2 ^ 31
    → msg_format.IsValid h
    → msg_format.depth h ≤ m.marshaling_stack_limit
    → words ws ≡ msg_format.bytes h
    → Carries m (fill m (length (words ws)) (put_words ws)) h
words_carry m ws h hw hl v hd e = (
  framed (words ws),
  fill-words m ws hw hl,
  refl,
  rw e (xdr_from_msg_ok rpc_msg-Implements m h _ v hd),
)

module _ (m : Machine) (xid : ℕ) (hx : IsU32 xid) (deep : 6 ≤ m.marshaling_stack_limit) where
  pub rpc_accepted_error_msg_carries :
      (stat : ℕ)
      → IsU32 stat
      → stat ≢ 0
      → stat ≢ 2
      → Carries m (rpc_accepted_error_msg m xid stat) (accepted_msg xid (failed stat))
  unfolding rpc_accepted_error_msg be32
  rpc_accepted_error_msg_carries stat hs h k =
      let e : (stat == 0) ≡ false = ground arith in
      let f : (stat == 2) ≡ false = ground arith in
      rw (e, f)
        (words_carry m (xid ∷ 1 ∷ 0 ∷ 0 ∷ 0 ∷ stat ∷ []) (accepted_msg xid (failed stat))
          (omega arith) (omega arith) (omega arith) (omega arith) refl)

  pub rpc_prog_mismatch_msg_carries :
      (low high : ℕ)
      → IsU32 low
      → IsU32 high
      → Carries m
          (rpc_prog_mismatch_msg m xid low high)
          (accepted_msg xid (prog_mismatch (record { low = low; high = high })))
  unfolding rpc_prog_mismatch_msg be32
  rpc_prog_mismatch_msg_carries low high hl hh =
      words_carry m (xid ∷ 1 ∷ 0 ∷ 0 ∷ 0 ∷ 2 ∷ low ∷ high ∷ [])
        (accepted_msg xid (prog_mismatch (record { low = low; high = high }))) (omega arith)
        (omega arith) (omega arith) (omega arith) refl

  -- On a machine with a stack limit of at least 6, for an xid and a status of 32 bits,
  -- `rpc_auth_error_msg` builds a framed message that unmarshals as a denial with that xid and
  -- status.
  pub rpc_auth_error_msg_carries :
      (stat : ℕ)
      → IsU32 stat
      → Carries m (rpc_auth_error_msg m xid stat) (denied_msg xid (auth_error stat))
  unfolding rpc_auth_error_msg be32
  rpc_auth_error_msg_carries stat hs =
      words_carry m (xid ∷ 1 ∷ 1 ∷ 1 ∷ stat ∷ []) (denied_msg xid (auth_error stat)) (omega arith)
        (omega arith) (omega arith) (omega arith) refl

  pub rpc_rpc_mismatch_msg_carries :
      Carries m
        (rpc_rpc_mismatch_msg m xid)
        (denied_msg xid (rpc_mismatch (record { low = 2; high = 2 })))
  unfolding rpc_rpc_mismatch_msg be32
  rpc_rpc_mismatch_msg_carries =
      words_carry m (xid ∷ 1 ∷ 1 ∷ 0 ∷ 2 ∷ 2 ∷ [])
        (denied_msg xid (rpc_mismatch (record { low = 2; high = 2 }))) (omega arith) (omega arith)
        (omega arith) (omega arith) refl

-- ===== src/Rpc/Replies.antt =====
-- The replies that a server sends: the messages of xdrpp/server.cc and `rpc_success_hdr` of
-- xdrpp/server.h.
pub mod Decode
pub mod Success
use cs244b.Base.{ℕ, ◌+◌, ◌%◌, List, [], ◌∷◌, ◌==◌, if◌then◌else◌, ◌||◌}
use cs244b.Xdr.Error.{Result, ok, err, ◌>>=◌, assertion}
use cs244b.Xdr.Archive.{Put, put_u32, put_nested}
use cs244b.Xdr.Codec.{Codec, u64, var_bytes}
use cs244b.Xdr.Message.{Machine, Message, fill}
use cs244b.Rpc.Types.{
  auth_none, reply_type, msg_accepted, msg_denied, success_stat, prog_mismatch_stat,
  rpc_mismatch_stat, auth_error_stat,
}
use cs244b.Rpc.Codec.{xdr_max_len}

-- `p(w)` for one word after the other.
pub put_words : List ℕ → Put
put_words [] ar = ok ar
put_words (w ∷ ws) ar = do ar' ← put_u32 w ar; put_words ws ar'

unfoldable pub rpc_accepted_error_msg : Machine → ℕ → ℕ → Result Message
rpc_accepted_error_msg m xid stat =
    if stat == 0 || stat == 2
    then err assertion
    else fill m 24 (put_words (xid ∷ reply_type ∷ msg_accepted ∷ auth_none ∷ 0 ∷ stat ∷ []))

unfoldable pub rpc_prog_mismatch_msg : Machine → ℕ → ℕ → ℕ → Result Message
rpc_prog_mismatch_msg m xid low high = fill m 32 (
    put_words
      (xid ∷ reply_type ∷ msg_accepted ∷ auth_none ∷ 0 ∷ prog_mismatch_stat ∷ low ∷ high ∷ []))

unfoldable pub rpc_auth_error_msg : Machine → ℕ → ℕ → Result Message
rpc_auth_error_msg m xid stat =
    fill m 20 (put_words (xid ∷ reply_type ∷ msg_denied ∷ auth_error_stat ∷ stat ∷ []))

unfoldable pub rpc_rpc_mismatch_msg : Machine → ℕ → Result Message
rpc_rpc_mismatch_msg m xid =
    fill m 24 (put_words (xid ∷ reply_type ∷ msg_denied ∷ rpc_mismatch_stat ∷ 2 ∷ 2 ∷ []))

-- `e_time` is the bit pattern of the double.
pub record SuccessHdr : Type 0 where
  pub xid : ℕ
  pub e_time : ℕ
  pub path : List ℕ

-- `32 + xdr_size(t.path_)`
unfoldable pub success_hdr_size : SuccessHdr → Result ℕ
success_hdr_size h = do n ← (var_bytes xdr_max_len).serial_size h.path; ok (32 + n)

unfoldable pub save_success_hdr : SuccessHdr → Put
save_success_hdr h ar = do
  ar' ← put_words (h.xid ∷ reply_type ∷ msg_accepted ∷ auth_none ∷ 0 ∷ success_stat ∷ []) ar
  ar'' ← u64.put h.e_time ar'
  (var_bytes xdr_max_len).put h.path ar''

-- `xdr_to_msg(rpc_success_hdr(…), t)`
unfoldable pub success_msg : {A : Type 0} → Machine → SuccessHdr → Codec A → A → Result Message
success_msg m h c t = do
  n ← success_hdr_size h
  k ← c.serial_size t
  fill m (n + k) (λ ar. do ar' ← put_nested (save_success_hdr h) ar; c.put t ar')

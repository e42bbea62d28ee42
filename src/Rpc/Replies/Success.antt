-- ===== src/Rpc/Replies/Success.antt =====
-- A successful reply: `rpc_success_hdr` of xdrpp/server.h in front of the result, as a client of
-- xdrpp/arpc.h reads it.
use cs244b.Base.{
  ℕ, ◌+◌, ◌-◌, ◌^◌, ◌≤◌, ◌<◌, ◌≡◌, refl, sym, ap, ◌∙◌, false, List, [], ◌∷◌, ◌++◌, append-nil,
  length, length-append, All, arith, ◌==◌,
}
use cs244b.Xdr.Word.{IsByte, IsU32, IsU64, be32}
use cs244b.Xdr.Error.{ok}
use cs244b.Xdr.Archive.{PutArchive, put_nested}
use cs244b.Xdr.Codec.{Codec, pair}
use cs244b.Xdr.Format.{Format, Implements, stored, padded}
use cs244b.Xdr.Format.Padding.{length-padded}
use cs244b.Xdr.Format.Words.{length-be32, length-be64, be64, u64-Implements, stored-stored}
use cs244b.Xdr.Format.Bytes.{var_bytes_format, var_bytes-Implements}
use cs244b.Xdr.Format.Struct.{pair-Implements}
use cs244b.Xdr.Message.{Machine, Message, xdr_from_msg}
use cs244b.Xdr.Message.RoundTrip.{framed, blank, fill_ok, xdr_from_msg_ok}
use cs244b.Rpc.Types.{RpcMsg, success}
use cs244b.Rpc.Codec.{rpc_msg, xdr_max_len}
use cs244b.Rpc.Codec.Header.{msg_format, rpc_msg-Implements}
use cs244b.Rpc.Replies.{SuccessHdr, success_hdr_size, save_success_hdr, success_msg}
use cs244b.Rpc.Replies.Decode.{words, length-words, put_words_ok, accepted_msg}

-- The message that the header stands for.
abbrev pub success_header : SuccessHdr → RpcMsg
success_header h =
    accepted_msg h.xid (success (record { end_time = h.e_time; path = h.path; results = [] }))

pub record IsValidHdr (h : SuccessHdr) : Type 0 where
  pub xid_fits : IsU32 h.xid
  pub time_fits : IsU64 h.e_time
  pub path_fits : length h.path ≤ xdr_max_len
  pub path_bytes : All IsByte h.path

success_header-valid : (h : SuccessHdr) → IsValidHdr h → msg_format.IsValid (success_header h)
success_header-valid h v = (
  v.xid_fits,
  (
    omega arith,
    (
      omega arith,
      (
        (omega arith, (omega arith, tt)),
        (omega arith, (v.time_fits, ((v.path_fits, v.path_bytes), (refl, tt)))),
      ),
    ),
  ),
)

abbrev path_format : List ℕ → List ℕ
path_format p = (var_bytes_format xdr_max_len).bytes p

length-path_format : (p : List ℕ) → length (path_format p) ≤ 7 + length p
length-path_format p =
    omega
      (arith, length-append (be32 (length p)) (padded p), length-be32 (length p), length-padded p)

abbrev hdr_words : SuccessHdr → List ℕ
hdr_words h = words (h.xid ∷ 1 ∷ 0 ∷ 0 ∷ 0 ∷ 0 ∷ [])

abbrev hdr_bytes : SuccessHdr → List ℕ
hdr_bytes h = hdr_words h ++ (be64 h.e_time ++ path_format h.path)

hdr_bytes-format : (h : SuccessHdr) → msg_format.bytes (success_header h) ≡ hdr_bytes h
unfolding be32
hdr_bytes-format h = simp append-nil

length-hdr_bytes : (h : SuccessHdr) → length (hdr_bytes h) ≡ 32 + length (path_format h.path)
unfolding be32
length-hdr_bytes h = omega arith

pub length-success_header :
    (h : SuccessHdr) → length (msg_format.bytes (success_header h)) ≤ 40 + length h.path
length-success_header h =
    omega (arith, ap length (hdr_bytes-format h), length-hdr_bytes h, length-path_format h.path)

save_ok :
    (h : SuccessHdr) (ar : PutArchive)
    → IsValidHdr h
    → length (hdr_bytes h) ≤ ar.room
    → save_success_hdr h ar ≡ ok (stored ar (hdr_bytes h))
unfolding save_success_hdr be32
save_ok h ar v hr =
    let ws : List ℕ = hdr_words h in
    let rest : List ℕ = be64 h.e_time ++ path_format h.path in
    let n : length (hdr_bytes h) ≡ 24 + length rest =
      length-append ws rest
      ∙ ap (λ k. k + length rest) (length-words (h.xid ∷ 1 ∷ 0 ∷ 0 ∷ 0 ∷ 0 ∷ [])) in
    let n' : length rest ≡ 8 + length (path_format h.path) =
      length-append (be64 h.e_time) (path_format h.path)
      ∙ ap (λ k. k + length (path_format h.path)) (length-be64 h.e_time) in
    rw
      (
        put_words_ok (h.xid ∷ 1 ∷ 0 ∷ 0 ∷ 0 ∷ 0 ∷ []) ar (omega (arith, v.xid_fits)) (omega arith),
        u64-Implements.put_ok h.e_time (stored ar ws) v.time_fits (omega arith) (omega arith),
      )
      ((var_bytes-Implements xdr_max_len (omega arith)).put_ok h.path
          (stored (stored ar ws) (be64 h.e_time)) (v.path_fits, v.path_bytes) (omega arith)
          (omega arith)
        ∙ ap ok (
            stored-stored (stored ar ws) (be64 h.e_time) (path_format h.path)
            ∙ stored-stored ar ws rest))

nested_save_ok :
    (h : SuccessHdr) (ar : PutArchive)
    → IsValidHdr h
    → length (hdr_bytes h) ≤ ar.room
    → 0 < ar.stack_limit
    → put_nested (save_success_hdr h) ar ≡ ok (stored ar (hdr_bytes h))
unfolding put_nested
nested_save_ok h ar v hr hl =
    let e : (ar.stack_limit == 0) ≡ false = ground arith in
    let k : ar.stack_limit - 1 + 1 ≡ ar.stack_limit = omega arith in
    rw (e, save_ok h (record ar { stack_limit = ar.stack_limit - 1 }) v hr)
      (ap (λ n. ok (record (stored ar (hdr_bytes h)) { stack_limit = n })) k)

size_ok : (h : SuccessHdr) → IsValidHdr h → success_hdr_size h ≡ ok (length (hdr_bytes h))
unfolding success_hdr_size
size_ok h v = rw (
  (var_bytes-Implements xdr_max_len (omega arith)).size_eq h.path (v.path_fits, v.path_bytes),
  length-hdr_bytes h,
)

module _ {A : Type 0} {c : Codec A} {f : Format A} (hc : Implements c f) (m : Machine) where
  built :
      (h : SuccessHdr) (t : A)
      → IsValidHdr h
      → f.IsValid t
      → 0 < m.marshaling_stack_limit
      → f.depth t ≤ m.marshaling_stack_limit
      → length (hdr_bytes h ++ f.bytes t) < 2 ^ 31
      → success_msg m h c t ≡ ok (framed (hdr_bytes h ++ f.bytes t))
  unfolding success_msg
  built h t v vt deep dt short =
      let bs : List ℕ = hdr_bytes h ++ f.bytes t in
      let both : length bs ≡ length (hdr_bytes h) + length (f.bytes t) =
        length-append (hdr_bytes h) (f.bytes t) in
      rw (size_ok h v, hc.size_eq t vt, sym both)
        (fill_ok m bs _ short (
          rw (nested_save_ok h (blank m bs) v (omega arith) deep) (
            hc.put_ok t (stored (blank m bs) (hdr_bytes h)) vt (omega arith) dt
            ∙ ap ok (stored-stored (blank m bs) (hdr_bytes h) (f.bytes t)))))

  read_back :
      (h : SuccessHdr) (t : A) (bs : List ℕ)
      → IsValidHdr h
      → f.IsValid t
      → 6 ≤ m.marshaling_stack_limit
      → f.depth t ≤ m.marshaling_stack_limit
      → xdr_from_msg m
          (pair rpc_msg c)
          (record { header = be32 (length bs + 2 ^ 31); body = hdr_bytes h ++ f.bytes t })
        ≡ ok (success_header h, t)
  read_back h t bs v vt deep dt =
      ap
        (λ xs.
          xdr_from_msg m (pair rpc_msg c)
            (record { header = be32 (length bs + 2 ^ 31); body = xs ++ f.bytes t }))
        (sym (hdr_bytes-format h))
      ∙ xdr_from_msg_ok (pair-Implements rpc_msg-Implements hc) m (success_header h, t) _
          (success_header-valid h v, vt) (omega arith)

  -- What a client gets from the message: the header with the time and the path, and the result.
  pub success_msg_carries :
      (h : SuccessHdr) (t : A)
      → IsValidHdr h
      → f.IsValid t
      → 6 ≤ m.marshaling_stack_limit
      → f.depth t ≤ m.marshaling_stack_limit
      → length (msg_format.bytes (success_header h) ++ f.bytes t) < 2 ^ 31
      → (msg : Message) × (success_msg m h c t ≡ ok msg)
        × (xdr_from_msg m (pair rpc_msg c) msg ≡ ok (success_header h, t))
  unfolding success_msg
  success_msg_carries h t v vt deep dt hl =
      let bs : List ℕ = hdr_bytes h ++ f.bytes t in
      let short : length bs < 2 ^ 31 = rw hdr_bytes-format at hl in
      (framed bs, built h t v vt (omega arith) dt short, read_back h t bs v vt deep dt)

  -- The message itself: the header's bytes and the result's, behind their record mark.
  pub success_msg_ok :
      (h : SuccessHdr) (t : A)
      → IsValidHdr h
      → f.IsValid t
      → 6 ≤ m.marshaling_stack_limit
      → f.depth t ≤ m.marshaling_stack_limit
      → length (msg_format.bytes (success_header h) ++ f.bytes t) < 2 ^ 31
      → (success_msg m h c t ≡ ok (framed (msg_format.bytes (success_header h) ++ f.bytes t)))
        × (xdr_from_msg m
              (pair rpc_msg c)
              (framed (msg_format.bytes (success_header h) ++ f.bytes t))
            ≡ ok (success_header h, t))
  success_msg_ok h t v vt deep dt hl =
      let short : length (hdr_bytes h ++ f.bytes t) < 2 ^ 31 = rw hdr_bytes-format at hl in
      (
        rw hdr_bytes-format (built h t v vt (omega arith) dt short),
        xdr_from_msg_ok (pair-Implements rpc_msg-Implements hc) m (success_header h, t) _
            (success_header-valid h v, vt) (omega arith),
      )

-- ===== src/Xdr/Message/RoundTrip.antt =====
-- Marshalling to a message and back, for every codec that implements its format.
use cs244b.Base.{
  ℕ, ◌+◌, ◌-◌, ◌%◌, ◌^◌, ◌≤◌, ◌<◌, ◌≡◌, refl, sym, ap, ◌∙◌, true, List, [], append-nil, ltb, ◌==◌,
  length, length-zero, All, arith, Bool-cases, inl, inr,
}
use cs244b.Xdr.Word.{IsByte, be32, word_bytes-swap32le}
use cs244b.Xdr.Error.{Result, ok, err, ◌>>=◌, ◌>>◌, is_runtime_error}
use cs244b.Xdr.Archive.{Put, PutArchive, GetArchive, done}
use cs244b.Xdr.Codec.{Codec}
use cs244b.Xdr.Format.{Format, Implements, GetSound, stored}
use cs244b.Xdr.Message.{Machine, Message, record_mark, alloc, fill, xdr_to_msg, xdr_from_msg}

-- For a size below 2 ^ 31, the record mark is the size with the high bit set, most significant
-- byte first, on machines of either byte order.
pub record_mark_lem : (m : Machine) (n : ℕ) → n < 2 ^ 31 → record_mark m n ≡ be32 (n + 2 ^ 31)
unfolding record_mark
record_mark_lem m n h = word_bytes-swap32le m.big (n + 2 ^ 31) (omega arith)

-- A message with its record mark.
abbrev pub framed : List ℕ → Message
framed bs = record { header = be32 (length bs + 2 ^ 31); body = bs }

-- The archive that `fill` starts from, for the bytes that are to be stored.
abbrev pub blank : Machine → List ℕ → PutArchive
blank m bs = record {
  big = m.big;
  stack_limit = m.marshaling_stack_limit;
  out = [];
  room = length bs;
}

-- A marshaller that stores just the bytes that the buffer was made for fills it.
pub fill_ok :
    (m : Machine) (bs : List ℕ) (save : Put)
    → length bs < 2 ^ 31
    → save (blank m bs) ≡ ok (stored (blank m bs) bs)
    → fill m (length bs) save ≡ ok (framed bs)
unfolding fill alloc
fill_ok m bs save hl hs =
    let e : ltb (length bs) (2 ^ 31) ≡ true = ground arith in
    let z : (length bs - length bs == 0) ≡ true = ground arith in
    rw (e, record_mark_lem m (length bs) hl, hs, z)

module _ {A : Type 0} {c : Codec A} {f : Format A} (h : Implements c f) (m : Machine) where
  -- For a codec that implements its format, a valid value within the stack limit and shorter
  -- than 2 ^ 31 bytes is marshalled to a message without an exception or a failed assertion: the
  -- value's bytes behind their record mark.
  pub xdr_to_msg_ok :
      (a : A)
      → f.IsValid a
      → f.depth a ≤ m.marshaling_stack_limit
      → length (f.bytes a) < 2 ^ 31
      → xdr_to_msg m c a ≡ ok (framed (f.bytes a))
  unfolding xdr_to_msg
  xdr_to_msg_ok a v hd hl =
      rw (h.size_eq a v)
        (fill_ok m (f.bytes a) (c.put a) hl (h.put_ok a (blank m (f.bytes a)) v (omega arith) hd))

  -- For a codec that implements its format, a message of the bytes of a valid value within the
  -- stack limit, behind any record mark, is unmarshalled to that value.
  pub xdr_from_msg_ok :
      (a : A) (header : List ℕ)
      → f.IsValid a
      → f.depth a ≤ m.marshaling_stack_limit
      → xdr_from_msg m c (record { header = header; body = f.bytes a }) ≡ ok a
  unfolding xdr_from_msg done
  xdr_from_msg_ok a header v hd =
      let e : (length (f.bytes a) % 4 == 0) ≡ true = ground (arith, h.aligned a v) in
      rw (
        e,
        ap (λ xs. c.get (record { big = m.big; stack_limit = m.marshaling_stack_limit; rest = xs }))
              (sym (append-nil (f.bytes a)))
            ∙ h.get_ok a (record { big = m.big; stack_limit = m.marshaling_stack_limit; rest = [] })
                [] v hd,
      )

  -- What unmarshalling any message of bytes can end in.
  abbrev pub MessageSound : List ℕ → Result A → Type 0
  MessageSound body (ok a) = f.IsValid a × (body ≡ f.bytes a)
  MessageSound body (err e) = is_runtime_error e ≡ true

  finish_sound :
      (ar : GetArchive) (r : Result (A × GetArchive))
      → GetSound f ar r
      → MessageSound ar.rest (do (a, g) ← r; done g; ok a)
  unfolding done is_runtime_error
  finish_sound ar (err e) s = s
  finish_sound ar (ok (a, g)) (v, _, split, same) = elim (Bool-cases (length g.rest == 0)) [
    | inl e ↦ rw e (v, split ∙ rw (length-zero g.rest (ground arith), append-nil (f.bytes a)))
    | inr e ↦ rw e refl
  ]

  -- For a codec that implements its format, unmarshalling any message of bytes ends in a valid
  -- value whose bytes are the whole message, or in an `xdr_runtime_error`: never in a fault, a
  -- failed assertion or a logic error.
  pub xdr_from_msg_sound :
      (msg : Message) → All IsByte msg.body → MessageSound msg.body (xdr_from_msg m c msg)
  unfolding xdr_from_msg is_runtime_error
  xdr_from_msg_sound msg hb = elim (Bool-cases (length msg.body % 4 == 0)) [
    | inl e ↦ rw e (
        finish_sound
          (record { big = m.big; stack_limit = m.marshaling_stack_limit; rest = msg.body }) _
          (h.get_sound _ hb (ground arith)))
    | inr e ↦ rw e refl
  ]

-- ===== src/Xdr/Examples.antt =====
-- The marshalling theorems at concrete values.
use cs244b.Base.{ℕ, ◌≡◌, false, List, [], ◌∷◌, arith}
use cs244b.Xdr.Word.{be32}
use cs244b.Xdr.Error.{ok}
use cs244b.Xdr.Codec.{pair, u32, var_bytes}
use cs244b.Xdr.Format.{Format, Implements}
use cs244b.Xdr.Format.Words.{u32_format, u32-Implements}
use cs244b.Xdr.Format.Bytes.{var_bytes_format, var_bytes-Implements}
use cs244b.Xdr.Format.Struct.{pair_format, pair-Implements}
use cs244b.Xdr.Message.{Machine, Message, xdr_to_msg, xdr_from_msg}
use cs244b.Xdr.Message.RoundTrip.{
  framed, xdr_to_msg_ok, xdr_from_msg_ok, MessageSound, xdr_from_msg_sound,
}

abbrev little : Machine
little = record { big = false; marshaling_stack_limit = 10 }

abbrev entry : ℕ × List ℕ
entry = (7, 104 ∷ 105 ∷ [])

abbrev entry_format : Format (ℕ × List ℕ)
entry_format = pair_format u32_format (var_bytes_format 64)

entry-Implements : Implements (pair u32 (var_bytes 64)) entry_format
entry-Implements = pair-Implements u32-Implements (var_bytes-Implements 64 (omega arith))

xdr_to_msg_example :
    xdr_to_msg little (pair u32 (var_bytes 64)) entry ≡ ok (framed (entry_format.bytes entry))
unfolding be32
xdr_to_msg_example =
    xdr_to_msg_ok entry-Implements little entry (omega arith, (omega arith, omega arith))
      (omega arith) (omega arith)

xdr_from_msg_example :
    xdr_from_msg little
      (pair u32 (var_bytes 64))
      (record { header = []; body = entry_format.bytes entry })
    ≡ ok entry
xdr_from_msg_example =
    xdr_from_msg_ok entry-Implements little entry [] (omega arith, (omega arith, omega arith))
      (omega arith)

-- Padding that is not zero.
abbrev dirty : Message
dirty = record { header = []; body = 0 ∷ 0 ∷ 0 ∷ 7 ∷ 0 ∷ 0 ∷ 0 ∷ 1 ∷ 104 ∷ 0 ∷ 1 ∷ 0 ∷ [] }

xdr_from_msg_sound_example :
    MessageSound entry-Implements little dirty.body
      (xdr_from_msg little (pair u32 (var_bytes 64)) dirty)
xdr_from_msg_sound_example = xdr_from_msg_sound entry-Implements little dirty (omega arith)

-- ===== src/Xdr/Message.antt =====
-- Message buffers: `message_t` of xdrpp/message.h and marshal.cc, and the functions of
-- xdrpp/marshal.h that marshal values to a message and back. `malloc` does not fail here.
pub mod RoundTrip
pub mod Parts
use cs244b.Base.{
  ℕ, ◌+◌, ◌%◌, ◌^◌, Bool, Option, none, some, List, [], ◌++◌, ltb, leb, ◌==◌, if◌then◌else◌, length,
  take,
}
use cs244b.Xdr.Word.{u32_mod, swap32le, word_bytes}
use cs244b.Xdr.Error.{Result, ok, err, ◌>>=◌, ◌>>◌, guard, overflow, bad_message_size, assertion}
use cs244b.Xdr.Archive.{Put, GetArchive, size32, done}
use cs244b.Xdr.Codec.{Codec}

-- The byte order of the machine, and the global `marshaling_stack_limit`.
pub record Machine : Type 0 where
  pub big : Bool
  pub marshaling_stack_limit : ℕ

-- `buf_`, the four bytes in front of the data, and the data.
pub record Message : Type 0 where
  pub header : List ℕ
  pub body : List ℕ

-- The size with the last-fragment bit, in network byte order.
unfoldable pub record_mark : Machine → ℕ → List ℕ
unfolding word_bytes swap32le
record_mark m size = word_bytes m.big (swap32le m.big (size + 2 ^ 31))

-- `message_t::alloc` up to the memory: the header of a message of `size` bytes. The assertion
-- `size < 0x80000000` makes `|` an addition, and `size32` cannot fail behind it.
unfoldable pub alloc : Machine → ℕ → Result (List ℕ)
unfolding record_mark
alloc m size = if ltb size (2 ^ 31) then ok (record_mark m size) else err assertion

-- `message_t::shrink`. `none` is the `std::out_of_range` exception.
unfoldable pub shrink : Machine → ℕ → Message → Option Message
unfolding record_mark
shrink m newsize msg =
    if ltb (length msg.body) newsize
    then none
    else some (record { header = record_mark m newsize; body = take newsize msg.body })

-- A new buffer of `size` bytes and an `xdr_put` on it, which must fill it: `assert(p.p_ == p.e_)`.
unfoldable pub fill : Machine → ℕ → Put → Result Message
fill m size save = do
  header ← alloc m size
  ar ← save (record { big = m.big; stack_limit = m.marshaling_stack_limit; out = []; room = size })
  guard (ar.room == 0) assertion
  ok (record { header = header; body = ar.out })

-- `xdr_to_msg`: a buffer of just the size that `xdr_argpack_size` says.
unfoldable pub xdr_to_msg : {A : Type 0} → Machine → Codec A → A → Result Message
unfolding fill
xdr_to_msg m c a = do size ← c.serial_size a; fill m size (c.put a)

-- The constructor of `xdr_get` on a message, whose data starts at an aligned address.
unfoldable pub xdr_get : Machine → Message → Result GetArchive
xdr_get m msg =
    if length msg.body % 4 == 0
    then ok (record { big = m.big; stack_limit = m.marshaling_stack_limit; rest = msg.body })
    else err bad_message_size

-- `xdr_from_msg`: the whole message must be consumed.
unfoldable pub xdr_from_msg : {A : Type 0} → Machine → Codec A → Message → Result A
unfolding xdr_get
xdr_from_msg m c msg = do g ← xdr_get m msg; (a, g') ← c.get g; done g'; ok a

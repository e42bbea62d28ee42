-- ===== src/Rpc/Srpc/Frames.antt =====
-- What `read_message` of xdrpp/srpc.cc makes of a frame.
use cs244b.Base.{
  ℕ, ◌+◌, ◌-◌, ◌/◌, ◌%◌, ◌^◌, ◌<◌, ◌≡◌, refl, ap, ◌∙◌, Bool, true, false, List, ◌∷◌, ◌++◌, ltb,
  ◌==◌, if◌then◌else◌, length, All, arith,
}
use cs244b.Xdr.Word.{be32, swap32le, load_be, get32, get32-be32, IsU32}
use cs244b.Xdr.Error.{Error, Result, ok, err, bad_message_size, call_failed}
use cs244b.Xdr.Message.{Machine, Message, alloc}
use cs244b.Xdr.Message.RoundTrip.{framed, record_mark_lem}
use cs244b.Rpc.Sock.{word_at}
use cs244b.Rpc.Srpc.{Read, fullread, with_len, with_mark, with_body, read_message}
use cs244b.Rpc.Srpc.Loop.{
  reads, joined, Arrives, fullread_full, Stop, end_of_stream, read_error, stop_read, stopped,
  fullread_short,
}

-- The bits of the size that `len & 3` tests: the low ones on a big-endian machine, those of the
-- first byte on a little-endian one.
abbrev pub tested : Bool → ℕ → ℕ
tested true size = size
tested false size = size / 2 ^ 24

load_be-mod :
    (big : Bool) (size : ℕ) → size < 2 ^ 31 → load_be big (size + 2 ^ 31) % 4 ≡ tested big size % 4
unfolding cs244b.Xdr.Word.word_of
load_be-mod true size h = omega arith
load_be-mod false size h = omega arith

swap32le-load_be : (big : Bool) (v : ℕ) → IsU32 v → swap32le big (load_be big v) ≡ v
unfolding swap32le get32
swap32le-load_be true v h = get32-be32 true v h
swap32le-load_be false v h = get32-be32 false v h

alloc_ok : (m : Machine) (size : ℕ) → size < 2 ^ 31 → alloc m size ≡ ok (be32 (size + 2 ^ 31))
unfolding alloc
alloc_ok m size h =
    let e : ltb size (2 ^ 31) ≡ true = ground arith in rw e (ap ok (record_mark_lem m size h))

-- What `read_message` does once the record mark of `size` bytes is there.
abbrev accepted_frame : Machine → ℕ → List Read → Result Message × List Read
accepted_frame m size rs =
    if tested m.big size % 4 == 0
    then with_body m size (be32 (size + 2 ^ 31)) (fullread size rs)
    else (err bad_message_size, rs)

with_len_lem :
    (m : Machine) (size : ℕ) (rs : List Read)
    → size < 2 ^ 31
    → with_len m (load_be m.big (size + 2 ^ 31)) rs ≡ accepted_frame m size rs
unfolding with_len
with_len_lem m size rs h =
    let swapped : swap32le m.big (load_be m.big (size + 2 ^ 31)) ≡ size + 2 ^ 31 =
      swap32le-load_be m.big (size + 2 ^ 31) (omega arith) in
    let big : ltb (size + 2 ^ 31) (2 ^ 31) ≡ false = ground arith in
    let less : size + 2 ^ 31 - 2 ^ 31 ≡ size = omega arith in
    rw (load_be-mod m.big size h, swapped, big, less, alloc_ok m size h) refl

mark_lem :
    (m : Machine) (size : ℕ) (hs : List (List ℕ)) (rs : List Read)
    → All Arrives hs
    → joined hs ≡ be32 (size + 2 ^ 31)
    → size < 2 ^ 31
    → read_message m (reads hs ++ rs) ≡ accepted_frame m size rs
unfolding read_message with_mark be32 word_at
mark_lem m size hs rs a e h =
    let four : length (joined hs) ≡ 4 = ap length e in
    rw (fullread_full 4 hs rs a four, e) (with_len_lem m size rs h)

-- A frame whose body is shorter than 2 ^ 31 bytes, however the stream is cut into reads, is read
-- to the message of its body, and the reads behind it are left, if the bits that `len & 3` tests
-- are zero: the low two bits of the size on a big-endian machine, and bits 24 and 25 of it on a
-- little-endian one. Otherwise the frame is refused behind its record mark.
pub read_message_frame :
    (m : Machine) (body : List ℕ) (hs bss : List (List ℕ)) (rs : List Read)
    → All Arrives hs
    → All Arrives bss
    → joined hs ≡ be32 (length body + 2 ^ 31)
    → joined bss ≡ body
    → length body < 2 ^ 31
    → read_message m (reads hs ++ (reads bss ++ rs)) ≡ (
        if tested m.big (length body) % 4 == 0
        then (ok (framed body), rs)
        else (err bad_message_size, reads bss ++ rs))
unfolding with_body
read_message_frame m body hs bss rs a b e f h =
    let same : (length body == length body) ≡ true = ground arith in
    mark_lem m (length body) hs (reads bss ++ rs) a e h
    ∙ rw (fullread_full (length body) bss rs b (ap length f), f, same) refl

-- What `read_message` throws where the stream stops.
abbrev pub stop_error : Stop → Error
stop_error end_of_stream = bad_message_size
stop_error read_error = call_failed

stopped-with_body :
    (m : Machine) (stop : Stop) (size : ℕ) (header got : List ℕ) (rs : List Read)
    → length got < size
    → with_body m size header (stopped stop got, rs) ≡ (err (stop_error stop), rs)
unfolding with_body
stopped-with_body m end_of_stream size header got rs h =
    let e : (length got == size) ≡ false = ground arith in rw e refl
stopped-with_body m read_error size header got rs h = refl

stopped-with_mark :
    (m : Machine) (stop : Stop) (got : List ℕ) (rs : List Read)
    → length got < 4
    → with_mark m (stopped stop got, rs) ≡ (err (stop_error stop), rs)
unfolding with_mark
stopped-with_mark m end_of_stream got rs h =
    let e : ltb (length got) 4 ≡ true = ground arith in rw e refl
stopped-with_mark m read_error got rs h = refl

-- If the stream ends, or `read` fails, before the four bytes of the record mark are there,
-- `read_message` throws `xdr_bad_message_size` for the end and the system error for the failure.
pub read_message_short_mark :
    (m : Machine) (stop : Stop) (hs : List (List ℕ)) (rs : List Read)
    → All Arrives hs
    → length (joined hs) < 4
    → read_message m (reads hs ++ (stop_read stop ∷ rs)) ≡ (err (stop_error stop), rs)
unfolding read_message
read_message_short_mark m stop hs rs a few =
    rw (fullread_short stop 4 hs rs a few) (stopped-with_mark m stop (joined hs) rs few)

-- If the stream ends, or `read` fails, within the body of a frame whose size passes the test,
-- `read_message` throws `xdr_bad_message_size` for the end and the system error for the failure,
-- and leaves the reads behind it.
pub read_message_short_body :
    (m : Machine) (stop : Stop) (size : ℕ) (hs bss : List (List ℕ)) (rs : List Read)
    → All Arrives hs
    → All Arrives bss
    → size < 2 ^ 31
    → joined hs ≡ be32 (size + 2 ^ 31)
    → tested m.big size % 4 ≡ 0
    → length (joined bss) < size
    → read_message m (reads hs ++ (reads bss ++ (stop_read stop ∷ rs)))
      ≡ (err (stop_error stop), rs)
read_message_short_body m stop size hs bss rs a b h e t few =
    let yes : (tested m.big size % 4 == 0) ≡ true = ground arith in
    mark_lem m size hs (reads bss ++ (stop_read stop ∷ rs)) a e h
    ∙ rw (yes, fullread_short stop size bss rs b few)
        (stopped-with_body m stop size (be32 (size + 2 ^ 31)) (joined bss) rs few)

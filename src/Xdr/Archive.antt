-- ===== src/Xdr/Archive.antt =====
-- The archives of xdrpp/marshal.h: `xdr_generic_put` and `xdr_generic_get`, with `get_bytes` and
-- `put_bytes` of xdrpp/marshal.cc.
use cs244b.Base.{
  ℕ, zero, suc, ◌+◌, ◌-◌, ◌%◌, Bool, List, [], ◌∷◌, ◌++◌, ltb, leb, ◌==◌, if◌then◌else◌, length,
  take, drop,
}
use cs244b.Xdr.Word.{u32_mod, put32, get32, put64, get64, word_of}
use cs244b.Xdr.Error.{
  Result, ok, err, ◌>>=◌, ◌>>◌, guard, overflow, stack_overflow, bad_message_size, should_be_zero,
  assertion, fault,
}

-- `big` is the machine's byte order, which selects the mixin. `out` is the buffer from its start to
-- `p_`, and `room` is `e_ - p_` in bytes.
pub record PutArchive : Type 0 where
  pub big : Bool
  pub stack_limit : ℕ
  pub out : List ℕ
  pub room : ℕ

-- `rest` is the buffer from `p_` to `e_`.
pub record GetArchive : Type 0 where
  pub big : Bool
  pub stack_limit : ℕ
  pub rest : List ℕ

abbrev pub Put : Type 0
Put = PutArchive → Result PutArchive

abbrev pub Get : Type 0 → Type 0
Get A = GetArchive → Result (A × GetArchive)

-- Bytes stored at `p_`, which moves behind them. Storing past `e_` is a fault.
unfoldable pub store : List ℕ → Put
store bs ar =
    if leb (length bs) ar.room
    then ok (record ar { out = ar.out ++ bs; room = ar.room - length bs })
    else err fault

unfoldable pub check_room : ℕ → PutArchive → Result (Unit {0})
check_room n ar = guard (leb n ar.room) overflow

-- `operator()` on a type that is marshalled as a uint32 or as a uint64.
unfoldable pub put_u32 : ℕ → Put
unfolding store check_room
put_u32 v ar = do check_room 4 ar; store (put32 ar.big v) ar

unfoldable pub put_u64 : ℕ → Put
unfolding store check_room
put_u64 v ar = do check_room 8 ar; store (put64 ar.big v) ar

-- `while (len & 3) { ++len; *p++ = '\0'; }`. Three rounds are enough: `pad_zeros_total`.
unfoldable pub pad_zeros : ℕ → ℕ → List ℕ
pad_zeros zero len = []
pad_zeros (suc fuel) len =
    let more = pad_zeros fuel (len + 1) in if len % 4 == 0 then [] else 0 ∷ more

-- `memcpy` and the padding in one store; nothing is stored for an empty string.
unfoldable pub put_bytes : List ℕ → Put
unfolding store pad_zeros
put_bytes bs ar = if length bs == 0 then ok ar else store (bs ++ pad_zeros 3 (length bs)) ar

-- `size32`: an assertion that the length fits 32 bits.
unfoldable pub size32 : ℕ → Result ℕ
size32 n = if ltb n u32_mod then ok n else err assertion

-- `operator()` on a string or variable-length opaque, and on a fixed-length opaque.
unfoldable pub put_var_bytes : List ℕ → Put
put_var_bytes bs ar = do
  check_room (4 + length bs) ar
  n ← size32 (length bs)
  ar' ← store (put32 ar.big n) ar
  put_bytes bs ar'

unfoldable pub put_fixed_bytes : List ℕ → Put
put_fixed_bytes bs ar = do check_room (length bs) ar; put_bytes bs ar

-- `operator()` on a struct, union or container around its `save`: the limit is taken down for the
-- call and put back behind it.
unfoldable pub put_nested : Put → Put
put_nested save ar = if ar.stack_limit == 0 then err stack_overflow else do
  ar' ← save (record ar { stack_limit = ar.stack_limit - 1 })
  ok (record ar' { stack_limit = ar'.stack_limit + 1 })

unfoldable pub check_rest : ℕ → GetArchive → Result (Unit {0})
check_rest n ar = guard (leb n (length ar.rest)) overflow

-- `*p_++` as the machine loads it, and then through the mixin. Loading past `e_` is a fault.
unfoldable pub load32 : Get ℕ
load32 ar = elim ar.rest [
  | a ∷ b ∷ c ∷ d ∷ rest ↦ ok (get32 ar.big a b c d, record ar { rest = rest })
  | _ ↦ err fault
]

unfoldable pub load64 : Get ℕ
load64 ar = elim ar.rest [
  | a ∷ b ∷ c ∷ d ∷ e ∷ f ∷ g ∷ h ∷ rest ↦
      ok (get64 ar.big (word_of ar.big a b c d) (word_of ar.big e f g h), record ar { rest = rest })
  | _ ↦ err fault
]

unfoldable pub get_u32 : Get ℕ
unfolding check_rest load32
get_u32 ar = do check_rest 4 ar; load32 ar

unfoldable pub get_u64 : Get ℕ
unfolding check_rest load64
get_u64 ar = do check_rest 8 ar; load64 ar

-- `while (len & 3) { ++len; if (*p++ != '\0') throw … }`.
unfoldable pub skip_pad : ℕ → ℕ → List ℕ → Result (List ℕ)
skip_pad zero len rest = ok rest
skip_pad (suc fuel) len [] = if len % 4 == 0 then ok [] else err fault
skip_pad (suc fuel) len (b ∷ rest) =
    let more = skip_pad fuel (len + 1) rest in
    if len % 4 == 0 then ok (b ∷ rest) else if b == 0 then more else err should_be_zero

unfoldable pub get_bytes : ℕ → Get (List ℕ)
unfolding skip_pad
get_bytes len ar =
    if len == 0 then ok ([], ar) else if ltb (length ar.rest) len then err fault else do
      rest ← skip_pad 3 len (drop len ar.rest)
      ok (take len ar.rest, record ar { rest = rest })

-- `check(4)` and `get32`, then the data. `t.resize(size)` throws beyond the type's maximum.
unfoldable pub get_var_bytes : ℕ → Get (List ℕ)
get_var_bytes max_size ar = do
  (size, ar') ← get_u32 ar
  check_rest size ar'
  guard (leb size max_size) overflow
  get_bytes size ar'

unfoldable pub get_fixed_bytes : ℕ → Get (List ℕ)
get_fixed_bytes n ar = do check_rest n ar; get_bytes n ar

unfoldable pub get_nested : {A : Type 0} → Get A → Get A
get_nested load ar = if ar.stack_limit == 0 then err stack_overflow else do
  (a, ar') ← load (record ar { stack_limit = ar.stack_limit - 1 })
  ok (a, record ar' { stack_limit = ar'.stack_limit + 1 })

-- `done()`
unfoldable pub done : GetArchive → Result (Unit {0})
done ar = guard (length ar.rest == 0) bad_message_size

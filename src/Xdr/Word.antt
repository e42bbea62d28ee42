-- ===== src/Xdr/Word.antt =====
-- Byte order: xdrpp/endian.h and the numeric mixins of xdrpp/marshal.h. A word is a number below
-- 2 ^ 32, memory is a list of bytes. Shifts are `*` and `/` by powers of two; the four operands of
-- `|` in `swap32` occupy different bytes, so `|` is written as `+`.
use cs244b.Base.{
  ℕ, ◌+◌, ◌*◌, ◌/◌, ◌%◌, ◌^◌, ◌<◌, ◌≡◌, refl, ap₂, Bool, true, false, List, [], ◌∷◌, ◌++◌, arith,
  if◌then◌else◌,
}

abbrev pub u32_mod : ℕ
u32_mod = 2 ^ 32

abbrev pub IsU32 : ℕ → Type 0
IsU32 v = v < u32_mod

abbrev pub IsU64 : ℕ → Type 0
IsU64 v = v < 2 ^ 64

abbrev pub IsByte : ℕ → Type 0
IsByte b = b < 256

-- `v << 24` drops what passes 32 bits.
unfoldable pub swap32 : ℕ → ℕ
swap32 v = v % 256 * 2 ^ 24 + v / 256 % 256 * 2 ^ 16 + v / 2 ^ 16 % 256 * 256 + v / 2 ^ 24 % 256

unfoldable pub swap64 : ℕ → ℕ
unfolding swap32
swap64 v = swap32 (v % u32_mod) * u32_mod + swap32 (v / u32_mod % u32_mod)

-- On a little-endian machine, and the identity on a big-endian one.
unfoldable pub swap32le : Bool → ℕ → ℕ
unfolding swap32
swap32le big v = if big then v else swap32 v

-- The four bytes of a word, most significant first: RFC 4506's order.
unfoldable pub be32 : ℕ → List ℕ
be32 v = v / 2 ^ 24 % 256 ∷ v / 2 ^ 16 % 256 ∷ v / 256 % 256 ∷ v % 256 ∷ []

-- How a machine stores a word in memory.
unfoldable pub word_bytes : Bool → ℕ → List ℕ
unfolding be32
word_bytes true v = be32 v
word_bytes false v = v % 256 ∷ v / 256 % 256 ∷ v / 2 ^ 16 % 256 ∷ v / 2 ^ 24 % 256 ∷ []

-- The word that a machine loads from four bytes of memory.
unfoldable pub word_of : Bool → ℕ → ℕ → ℕ → ℕ → ℕ
word_of true a b c d = a * 2 ^ 24 + b * 2 ^ 16 + c * 256 + d
word_of false a b c d = d * 2 ^ 24 + c * 2 ^ 16 + b * 256 + a

-- `xdr_put` and `xdr_get` use `marshal_noswap` on a big-endian machine and `marshal_swap` on a
-- little-endian one.
unfoldable pub put32 : Bool → ℕ → List ℕ
unfolding word_bytes swap32
put32 true v = word_bytes true v
put32 false v = word_bytes false (swap32 v)

unfoldable pub get32 : Bool → ℕ → ℕ → ℕ → ℕ → ℕ
unfolding word_of swap32
get32 true a b c d = word_of true a b c d
get32 false a b c d = swap32 (word_of false a b c d)

-- The two halves of a uint64 in memory order, `u32[0]` and `u32[1]` of `u64conv`.
unfoldable pub u64_halves : Bool → ℕ → ℕ × ℕ
u64_halves true u = (u / u32_mod % u32_mod, u % u32_mod)
u64_halves false u = (u % u32_mod, u / u32_mod % u32_mod)

unfoldable pub put64 : Bool → ℕ → List ℕ
unfolding u64_halves word_bytes swap32
put64 true u = let (h, l) = u64_halves true u in word_bytes true h ++ word_bytes true l
put64 false u =
    let (h, l) = u64_halves false u in word_bytes false (swap32 l) ++ word_bytes false (swap32 h)

-- The uint64 whose halves in memory are the two words.
unfoldable pub u64_of : Bool → ℕ → ℕ → ℕ
u64_of true h l = h * u32_mod + l
u64_of false h l = l * u32_mod + h

-- `x` and `y` are the two words as the machine loads them; `swap32` is applied to each on a
-- little-endian machine, and the first read is stored in `u32[1]`.
unfoldable pub get64 : Bool → ℕ → ℕ → ℕ
unfolding u64_of swap32
get64 true x y = u64_of true x y
get64 false x y = u64_of false (swap32 y) (swap32 x)

pub swap32-swap32 : (v : ℕ) → IsU32 v → swap32 (swap32 v) ≡ v
unfolding swap32
swap32-swap32 v h = omega arith

swap32-digits :
    (v : ℕ)
    → IsU32 v
    → (swap32 v % 256 ≡ v / 2 ^ 24 % 256)
      × (swap32 v / 256 % 256 ≡ v / 2 ^ 16 % 256)
      × (swap32 v / 2 ^ 16 % 256 ≡ v / 256 % 256)
      × (swap32 v / 2 ^ 24 % 256 ≡ v % 256)
unfolding swap32
swap32-digits v h = (omega arith, omega arith, omega arith, omega arith)

-- Either mixin, on its machine, writes a word most significant byte first.
pub put32-be32 : (big : Bool) (v : ℕ) → IsU32 v → put32 big v ≡ be32 v
unfolding put32 be32
put32-be32 true v h = refl
put32-be32 false v h = let (a, b, c, d) = swap32-digits v h in rw (a, b, c, d)

-- The number that four bytes spell, most significant first.
abbrev pub of_be32 : ℕ → ℕ → ℕ → ℕ → ℕ
of_be32 a b c d = a * 2 ^ 24 + b * 2 ^ 16 + c * 256 + d

pub get32-of_be32 :
    (big : Bool) (a b c d : ℕ)
    → IsByte a
    → IsByte b
    → IsByte c
    → IsByte d
    → get32 big a b c d ≡ of_be32 a b c d
unfolding get32
get32-of_be32 true a b c d ha hb hc hd = refl
get32-of_be32 false a b c d ha hb hc hd = omega arith

-- Reading back the bytes that were written.
pub get32-be32 :
    (big : Bool) (v : ℕ)
    → IsU32 v
    → get32 big (v / 2 ^ 24 % 256) (v / 2 ^ 16 % 256) (v / 256 % 256) (v % 256) ≡ v
get32-be32 big v h = omega (
  arith,
  get32-of_be32 big (v / 2 ^ 24 % 256) (v / 2 ^ 16 % 256) (v / 256 % 256) (v % 256) (omega arith)
      (omega arith) (omega arith) (omega arith),
)

-- Writing back the word that was read.
pub be32-of_be32 :
    (a b c d : ℕ)
    → IsByte a
    → IsByte b
    → IsByte c
    → IsByte d
    → be32 (of_be32 a b c d) ≡ a ∷ b ∷ c ∷ d ∷ []
unfolding be32
be32-of_be32 a b c d ha hb hc hd =
    let e : of_be32 a b c d / 2 ^ 24 % 256 ≡ a = omega arith in
    let f : of_be32 a b c d / 2 ^ 16 % 256 ≡ b = omega arith in
    let g : of_be32 a b c d / 256 % 256 ≡ c = omega arith in
    let k : of_be32 a b c d % 256 ≡ d = omega arith in rw (e, f, g, k)

-- Either mixin, on its machine, writes a number of 64 bits as its high and then its low word,
-- each most significant byte first.
pub put64-be32 :
    (big : Bool) (u : ℕ)
    → IsU64 u
    → put64 big u ≡ be32 (u / u32_mod % u32_mod) ++ be32 (u % u32_mod)
unfolding put64 put32
put64-be32 true u h = refl
put64-be32 false u h =
    ap₂ ◌++◌ (put32-be32 false (u / u32_mod % u32_mod) (omega arith))
      (put32-be32 false (u % u32_mod) (omega arith))

-- The uint64 of two words that `get32` would return.
pub get64-words :
    (big : Bool) (a b c d e f g k : ℕ)
    → get64 big (word_of big a b c d) (word_of big e f g k)
      ≡ get32 big a b c d * u32_mod + get32 big e f g k
unfolding get64 get32
get64-words true a b c d e f g k = refl
get64-words false a b c d e f g k = refl

-- The word that a machine loads from the four bytes of `v`.
abbrev pub load_be : Bool → ℕ → ℕ
load_be big v = word_of big (v / 2 ^ 24 % 256) (v / 2 ^ 16 % 256) (v / 256 % 256) (v % 256)

pub get64-load_be :
    (big : Bool) (h l : ℕ)
    → IsU32 h
    → IsU32 l
    → get64 big (load_be big h) (load_be big l) ≡ h * u32_mod + l
get64-load_be big h l hh hl = omega (
  arith,
  get64-words big (h / 2 ^ 24 % 256) (h / 2 ^ 16 % 256) (h / 256 % 256) (h % 256) (l / 2 ^ 24 % 256)
      (l / 2 ^ 16 % 256) (l / 256 % 256) (l % 256),
  get32-be32 big h hh,
  get32-be32 big l hl,
)

-- `swap32le` makes the stored bytes those of network order.
pub word_bytes-swap32le : (big : Bool) (v : ℕ) → IsU32 v → word_bytes big (swap32le big v) ≡ be32 v
unfolding swap32le put32
word_bytes-swap32le true v h = put32-be32 true v h
word_bytes-swap32le false v h = put32-be32 false v h

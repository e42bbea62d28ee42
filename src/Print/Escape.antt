-- ===== src/Print/Escape.antt =====
-- `escape_string` and `hexdump` of xdrpp/printer.cc, read back.
use cs244b.Base.{
  ℕ, ◌+◌, ◌-◌, ◌*◌, ◌/◌, ◌%◌, ◌<◌, Bool, true, false, ◌&&◌, ◌||◌, Option, none, some, [], ◌∷◌, ◌++◌,
  append_assoc, append-nil, ltb, leb, ◌==◌, if◌then◌else◌, ◌≡◌, refl, arith, All,
}
use mathlib.Core.List.{flat_map}
use cs244b.Print.{Text, escape_char, escape_string, hex_digit, hexdump}

-- What a backslash and a character stand for in C.
abbrev meaning : ℕ → ℕ
meaning c = if c == 116 then 9 else if c == 114 then 13 else if c == 110 then 10 else c

-- A string literal is read behind its opening quote: what it holds, and the text behind its end.
read_literal : Bool → Text → Text → Option (Text × Text)
read_literal true v [] = none
read_literal false v [] = none
read_literal true v (c ∷ s) = read_literal false (v ++ (meaning c ∷ [])) s
read_literal false v (c ∷ s) =
    let behind = read_literal true v s in
    let more = read_literal false (v ++ (c ∷ [])) s in
    if c == 34 then some (v, s) else if c == 92 then behind else more

pub read_string : Text → Option (Text × Text)
unfolding read_literal
read_string [] = none
read_string (c ∷ s) = let rest = read_literal false [] s in if c == 34 then rest else none

-- The characters that have an escape of their own, or need none.
abbrev pub IsText : ℕ → Type 0
IsText c = ((leb 32 c && ltb c 127) || ((c == 9) || ((c == 13) || (c == 10)))) ≡ true

read-escape_char :
    (c : ℕ) (v rest : Text)
    → IsText c
    → read_literal false v (escape_char c ++ rest) ≡ read_literal false (v ++ (c ∷ [])) rest
unfolding read_literal escape_char
read-escape_char c v rest h = ground arith

read-escape :
    (s v rest : Text)
    → All IsText s
    → read_literal false v (flat_map escape_char s ++ (34 ∷ rest)) ≡ some (v ++ s, rest)
unfolding read_literal flat_map
read-escape [] v rest h = ground (arith, append-nil v)
read-escape (c ∷ s) v rest (h, hs) = rw (
  append_assoc (escape_char c) (flat_map escape_char s) (34 ∷ rest),
  read-escape_char c v _ h,
  read-escape s _ rest hs,
  append_assoc v (c ∷ []) s,
)

-- A text of printable characters, tabs, carriage returns and newlines that `escape_string`
-- prints, with any text behind it, is read back as a string literal of C: just the text, with
-- the quote at its end as the literal's end.
pub read_string-escape_string :
    (s rest : Text) → All IsText s → read_string (escape_string s ++ rest) ≡ some (s, rest)
unfolding read_string escape_string
read_string-escape_string s rest h =
    rw (append_assoc (flat_map escape_char s) (34 ∷ []) rest) (read-escape s [] rest h)

-- A nibble is read back from its digit, and a byte from its two.
digit_value : ℕ → ℕ
digit_value c = if ltb c 58 then c - 48 else c - 87

read_hex : Text → Text
unfolding digit_value
read_hex [] = []
read_hex (a ∷ []) = []
read_hex (a ∷ b ∷ s) = (digit_value a * 16 + digit_value b) ∷ read_hex s

digit_value-hex_digit : (n : ℕ) → n < 16 → digit_value (hex_digit n) ≡ n
unfolding digit_value hex_digit
digit_value-hex_digit n h = ground arith

-- A dump gives its bytes back.
read_hex-hexdump : (bs : Text) → All (λ b. b < 256) bs → read_hex (hexdump bs) ≡ bs
unfolding read_hex hexdump
read_hex-hexdump [] h = refl
read_hex-hexdump (b ∷ bs) (h, hs) =
    grind (
      arith,
      digit_value-hex_digit (b / 16),
      digit_value-hex_digit (b % 16),
      read_hex-hexdump bs hs,
    )

-- ===== src/Print.antt =====
-- The printing of xdrpp/printer.h and printer.cc. A text is its bytes.
pub mod Escape
mod Examples
use cs244b.Base.{
  ℕ, ◌+◌, ◌/◌, ◌%◌, Bool, true, false, ◌&&◌, ◌||◌, List, [], ◌∷◌, ◌++◌, ltb, leb, ◌==◌,
  if◌then◌else◌,
}
use mathlib.Core.List.{flat_map}

abbrev pub Text : Type 0
Text = List ℕ

-- `setw(2)`, `setfill('0')` and `oct`, for a number below 256
pub octal : ℕ → Text
octal n =
    if ltb n 64
    then (48 + n / 8) ∷ (48 + n % 8) ∷ []
    else (48 + n / 64) ∷ (48 + n / 8 % 8) ∷ (48 + n % 8) ∷ []

-- One round of the loop of `escape_string`. `char` is signed, so that it has no value from 128 on.
pub escape_char : ℕ → Text
unfolding octal
escape_char c =
    if leb 32 c && ltb c 127
    then (if (c == 34) || (c == 92) then 92 ∷ c ∷ [] else c ∷ [])
    else if c == 9
    then 92 ∷ 116 ∷ []
    else if c == 13
    then 92 ∷ 114 ∷ []
    else if c == 10
    then 92 ∷ 110 ∷ []
    else if c == 34
    then 92 ∷ 34 ∷ []
    else 92 ∷ 120 ∷ octal (c % 256)

pub escape_string : Text → Text
unfolding escape_char
escape_string s = 34 ∷ flat_map escape_char s ++ (34 ∷ [])

-- `setw(2)`, `fill('0')` and `hex`
pub hex_digit : ℕ → ℕ
hex_digit n = if ltb n 10 then 48 + n else 87 + n

pub hexdump : Text → Text
unfolding hex_digit
hexdump [] = []
hexdump (b ∷ bs) = hex_digit (b / 16) ∷ hex_digit (b % 16) ∷ hexdump bs

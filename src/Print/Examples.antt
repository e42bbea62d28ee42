-- ===== src/Print/Examples.antt =====
-- Concrete texts for the printing of xdrpp/printer.cc.
use mathlib.Core.List.{flat_map}
use cs244b.Base.{some, [], ◌∷◌, ◌++◌, ◌≡◌, refl}
use cs244b.Print.{escape_string}
use cs244b.Print.Escape.{read_string, read_string-escape_string}

-- Behind `\x` stand octal digits, and two texts are printed alike.
alike : escape_string (16 ∷ 48 ∷ []) ≡ escape_string (128 ∷ [])
unfolding escape_string flat_map
alike = refl

read_string-escape_string_example :
    read_string (escape_string (34 ∷ 9 ∷ 92 ∷ []) ++ (97 ∷ [])) ≡ some (34 ∷ 9 ∷ 92 ∷ [], 97 ∷ [])
read_string-escape_string_example =
    read_string-escape_string (34 ∷ 9 ∷ 92 ∷ []) (97 ∷ []) (refl, (refl, (refl, tt)))

-- ===== src/Ini/Values.antt =====
-- Escapes and properties of xdrpp/iniparse.cc, and texts that stand for a value.
use cs244b.Base.{
  ℕ, ◌≡◌, refl, sym, ap, ◌∙◌, Bool, true, false, ◌||◌, some, [], ◌∷◌, ◌++◌, ◌==◌, if◌then◌else◌,
  append_assoc, append-nil, arith, All, subst,
}
use cs244b.Ini.{
  Text, is_space, drop_while, take_while, unescaped, unescape_from, ini_unescape, in_key, is_empty,
  behind_key, parsekv,
}

-- A text that stands for a value: spaces of any kind and backslashes are written as escapes.
abbrev pub escape_char : ℕ → Text
escape_char c =
    if c == 10
    then 92 ∷ 110 ∷ []
    else if c == 13
    then 92 ∷ 114 ∷ []
    else if c == 32
    then 92 ∷ 115 ∷ []
    else if c == 9
    then 92 ∷ 116 ∷ []
    else if (c == 92) || is_space c
    then 92 ∷ c ∷ []
    else c ∷ []

abbrev pub escape : Text → Text
escape [] = []
escape (c ∷ s) = escape_char c ++ escape s

-- A text that is read as one character.
Gives : ℕ → Text → Type 0
Gives c w = (v s : Text) → unescape_from false v (w ++ s) ≡ unescape_from false (v ++ (c ∷ [])) s

either :
    (c : ℕ) (b : Bool) (x y : Text)
    → (b ≡ true → Gives c x)
    → (b ≡ false → Gives c y)
    → Gives c (if b then x else y)
either c true x y h k = h refl
either c false x y h k = k refl

short_escape : (c d : ℕ) → (c == d) ≡ true → (w : Text) → Gives d w → Gives c w
short_escape c d same w h = let k : c ≡ d = ground arith in subst (λ x. Gives x w) (sym k) h

other_escape : (c : ℕ) → ((c == 92) || is_space c) ≡ true → Gives c (92 ∷ c ∷ [])
unfolding Gives unescape_from unescaped
other_escape c h v s =
    let n : (c == 110) ≡ false = ground arith in
    let r : (c == 114) ≡ false = ground arith in
    let p : (c == 115) ≡ false = ground arith in
    let t : (c == 116) ≡ false = ground arith in rw (n, r, p, t) refl

plain : (c : ℕ) → ((c == 92) || is_space c) ≡ false → Gives c (c ∷ [])
unfolding Gives unescape_from
plain c h v s = let k : (c == 92) ≡ false = ground arith in rw k refl

escape_char-Gives : (c : ℕ) → Gives c (escape_char c)
unfolding Gives unescape_from unescaped
escape_char-Gives c =
    either c (c == 10) _ _ (λ e. short_escape c 10 e (92 ∷ 110 ∷ []) (λ v s. refl))
      λ _.
        either c (c == 13) _ _ (λ e. short_escape c 13 e (92 ∷ 114 ∷ []) (λ v s. refl))
          λ _.
            either c (c == 32) _ _ (λ e. short_escape c 32 e (92 ∷ 115 ∷ []) (λ v s. refl))
              λ _.
                either c (c == 9) _ _ (λ e. short_escape c 9 e (92 ∷ 116 ∷ []) (λ v s. refl))
                  λ _. either c ((c == 92) || is_space c) _ _ (other_escape c) (plain c)

unescape-escape : (v s : Text) → unescape_from false v (escape s) ≡ some (v ++ s)
unfolding unescape_from Gives
unescape-escape v [] = rw append-nil refl
unescape-escape v (c ∷ s) =
    escape_char-Gives c v (escape s)
    ∙ (unescape-escape (v ++ (c ∷ [])) s ∙ ap some (append_assoc v (c ∷ []) s))

-- What `ini_runparse` reads back.
pub ini_unescape-escape : (s : Text) → ini_unescape (escape s) ≡ some s
unfolding ini_unescape
ini_unescape-escape s = unescape-escape [] s

-- A text that starts with no space.
Starts : Text → Type 0
Starts w = (s : Text) → drop_while is_space (w ++ s) ≡ w ++ s

either_start :
    (b : Bool) (x y : Text)
    → (b ≡ true → Starts x)
    → (b ≡ false → Starts y)
    → Starts (if b then x else y)
either_start true x y h k = h refl
either_start false x y h k = k refl

backslash_start : (w : Text) → Starts (92 ∷ w)
unfolding Starts
backslash_start w s = refl

plain_start : (c : ℕ) → ((c == 92) || is_space c) ≡ false → Starts (c ∷ [])
unfolding Starts
plain_start c h s = let k : is_space c ≡ false = ground arith in rw k refl

escape_char-Starts : (c : ℕ) → Starts (escape_char c)
escape_char-Starts c =
    either_start (c == 10) _ _ (λ e. backslash_start (110 ∷ []))
      λ _.
        either_start (c == 13) _ _ (λ e. backslash_start (114 ∷ []))
          λ _.
            either_start (c == 32) _ _ (λ e. backslash_start (115 ∷ []))
              λ _.
                either_start (c == 9) _ _ (λ e. backslash_start (116 ∷ []))
                  λ _.
                    either_start ((c == 92) || is_space c) _ _ (λ e. backslash_start (c ∷ []))
                      (plain_start c)

escape_start : (s : Text) → drop_while is_space (escape s) ≡ escape s
unfolding Starts
escape_start [] = refl
escape_start (c ∷ s) = escape_char-Starts c (escape s)

-- A key that can be read: it is not empty, and has no space and no '='.
abbrev pub IsKey : Text → Type 0
IsKey k = (is_empty k ≡ false) × All (λ c. in_key c ≡ true) k

abbrev pub property_line : Text → Text → Text
property_line k v = k ++ (32 ∷ 61 ∷ 32 ∷ escape v)

take_key : (k s : Text) → All (λ c. in_key c ≡ true) k → take_while in_key (k ++ (32 ∷ s)) ≡ k
take_key [] s h = refl
take_key (c ∷ k) s h = let x = h.0 in rw x (ap (λ r. c ∷ r) (take_key k s h.1))

drop_key : (k s : Text) → All (λ c. in_key c ≡ true) k → drop_while in_key (k ++ (32 ∷ s)) ≡ 32 ∷ s
drop_key [] s h = refl
drop_key (c ∷ k) s h = let x = h.0 in rw x (drop_key k s h.1)

key_start : (k s : Text) → IsKey k → drop_while is_space (k ++ s) ≡ k ++ s
key_start [] s h = cc (h.0)
key_start (c ∷ k) s h = let x = h.1.0 in let y : is_space c ≡ false = ground arith in rw y refl

-- What `ini_runparse` reads back.
pub parsekv-property_line :
    (k v : Text) → IsKey k → parsekv (property_line k v) ≡ some (k, v, escape v)
unfolding parsekv behind_key
parsekv-property_line k v h =
    let tail = 61 ∷ 32 ∷ escape v in
    rw
      (
        key_start k (32 ∷ tail) h,
        take_key k tail h.1,
        drop_key k tail h.1,
        escape_start v,
        h.0,
        ini_unescape-escape v,
      )
      refl

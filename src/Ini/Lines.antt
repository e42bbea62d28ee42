-- ===== src/Ini/Lines.antt =====
-- What one line of a file does in `ini_runparse` of xdrpp/iniparse.cc.
use cs244b.Base.{
  ℕ, ◌+◌, ◌≡◌, refl, ap, ◌∙◌, Bool, true, false, ◌&&◌, not, some, [], ◌∷◌, ◌++◌, ◌==◌, append_assoc,
  append-nil, arith, All,
}
use cs244b.Base.Assoc.{find, text_eq}
use cs244b.Ini.{
  Text, is_blank, is_empty, IniGroup, Call, Ini, last_bracket, name_of, run_line, next_line,
  run_from,
}
use cs244b.Ini.Values.{IsKey, escape, property_line, parsekv-property_line}

-- A key that can start a line: it is not taken for a comment or a group.
abbrev pub may_start : Text → Bool
may_start [] = false
may_start (c ∷ s) = not (c == 35) && not (c == 91)

abbrev pub IsFirstKey : Text → Type 0
IsFirstKey k = IsKey k × (may_start k ≡ true)

abbrev pub group_line : Text → Text
group_line g = 91 ∷ (g ++ (93 ∷ []))

last_bracket-end : (g : Text) → last_bracket (g ++ (93 ∷ [])) ≡ some (g, [])
unfolding last_bracket
last_bracket-end [] = refl
last_bracket-end (c ∷ g) = rw (last_bracket-end g) refl

name_of-end : (g : Text) → is_empty g ≡ false → name_of (some (g, [])) ≡ some g
name_of-end [] h = cc
name_of-end (c ∷ g) h = refl

module _ (throws : Call → Bool) where
  pub next_line-group :
      (g : Text) (cbs : IniGroup) (st : Ini)
      → is_empty g ≡ false
      → find g st.actions ≡ some cbs
      → next_line throws (group_line g) st
        ≡ record st { lineno = st.lineno + 1; group_name = g; group = some g }
  unfolding next_line run_line
  next_line-group g cbs st h there = rw (last_bracket-end g, name_of-end g h, there) refl

  pub next_line-property :
      (g k v : Text) (cbs : IniGroup) (cb : ℕ) (st : Ini)
      → IsFirstKey k
      → st.group ≡ some g
      → find g st.actions ≡ some cbs
      → find k cbs ≡ some (some cb)
      → ((c : Call) → throws c ≡ false)
      → next_line throws (property_line k v) st ≡ record st {
        lineno = st.lineno + 1;
        calls =
            st.calls
            ++ (record { cb = cb; group = g; key = k; value = v; rawvalue = escape v } ∷ []);
      }
  unfolding next_line run_line
  next_line-property g [] v cbs cb st h e there found quiet = cc (h.1)
  next_line-property g (c ∷ k) v cbs cb st h e there found quiet =
      let key = h.0.1.0 in
      let first = h.1 in
      let dark : is_blank c ≡ false = ground arith in
      let no_comment : (c == 35) ≡ false = ground arith in
      let no_group : (c == 91) ≡ false = ground arith in
      rw
        (
          dark,
          no_comment,
          no_group,
          e,
          parsekv-property_line (c ∷ k) v h.0,
          there,
          found,
          quiet (record { cb = cb; group = g; key = c ∷ k; value = v; rawvalue = escape v }),
        )
        refl

  -- A line that a newline ends.
  pub run_from-line :
      (before line rest : Text) (st : Ini)
      → All (λ c. (c == 10) ≡ false) line
      → run_from throws before (line ++ (10 ∷ rest)) st
        ≡ run_from throws [] rest (next_line throws (before ++ line) st)
  unfolding run_from
  run_from-line before [] rest st h = rw append-nil refl
  run_from-line before (c ∷ line) rest st h =
      let x = h.0 in
      rw x (
        run_from-line (before ++ (c ∷ [])) line rest st h.1
        ∙ ap (λ l. run_from throws [] rest (next_line throws l st))
            (append_assoc before (c ∷ []) line))

  -- Text that no newline ends.
  pub run_from-rest :
      (before rest : Text) (st : Ini)
      → All (λ c. (c == 10) ≡ false) rest
      → run_from throws before rest st ≡ st
  unfolding run_from
  run_from-rest before [] st h = refl
  run_from-rest before (c ∷ rest) st h =
      let x = h.0 in rw x (run_from-rest (before ++ (c ∷ [])) rest st h.1)

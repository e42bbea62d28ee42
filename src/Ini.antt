-- ===== src/Ini.antt =====
-- The ini parser of xdrpp/iniparse.h and iniparse.cc. A text is its bytes; a property's callback is a
-- number, and whether it throws a `std::logic_error` is an argument. What is printed is left out.
pub mod Values
pub mod Lines
pub mod Files
mod Examples
use cs244b.Base.{
  ℕ, ◌+◌, Bool, true, false, ◌||◌, ◌&&◌, not, Option, none, some, List, [], ◌∷◌, ◌++◌, leb, ◌==◌,
  if◌then◌else◌,
}
use cs244b.Base.Assoc.{find, assign, insert, text_eq, text_beq}

abbrev pub Text : Type 0
Text = List ℕ

-- The characters of "\t\r ", and `isspace`.
abbrev pub is_blank : ℕ → Bool
is_blank c = (c == 9) || ((c == 13) || (c == 32))

abbrev pub is_space : ℕ → Bool
is_space c = (leb 9 c && leb c 13) || (c == 32)

abbrev pub drop_while : (ℕ → Bool) → Text → Text
drop_while p [] = []
drop_while p (c ∷ s) = let rest = drop_while p s in if p c then rest else c ∷ s

abbrev pub take_while : (ℕ → Bool) → Text → Text
take_while p [] = []
take_while p (c ∷ s) = let rest = take_while p s in if p c then c ∷ rest else []

-- What stands for a character behind a backslash: n, r, s and t, or itself.
unfoldable pub unescaped : ℕ → ℕ
unescaped c =
    if c == 110
    then 10
    else if c == 114
    then 13
    else if c == 115
    then 32
    else if c == 116
    then 9
    else c

-- `ini_unescape`, with `escape` and `v`.
unfoldable pub unescape_from : Bool → Text → Text → Option Text
unfolding unescaped
unescape_from true v [] = none
unescape_from false v [] = some v
unescape_from true v (c ∷ s) = unescape_from false (v ++ (unescaped c ∷ [])) s
unescape_from false v (c ∷ s) =
    let behind = unescape_from true v s in
    let plain = unescape_from false (v ++ (c ∷ [])) s in if c == 92 then behind else plain

unfoldable pub ini_unescape : Text → Option Text
unfolding unescape_from
ini_unescape s = unescape_from false [] s

-- `parsekv`: the key, the value and the raw value.
abbrev pub in_key : ℕ → Bool
in_key c = not (is_space c) && not (c == 61)

abbrev pub is_empty : Text → Bool
is_empty [] = true
is_empty (c ∷ s) = false

abbrev pub with_value : Text → Text → Option Text → Option (Text × Text × Text)
with_value k raw none = none
with_value k raw (some v) = some (k, v, raw)

unfoldable pub behind_key : Text → Text → Option (Text × Text × Text)
unfolding ini_unescape
behind_key k [] = none
behind_key k (c ∷ s) =
    let raw = drop_while is_space s in
    if is_empty k then none else if c == 61 then with_value k raw (ini_unescape raw) else none

unfoldable pub parsekv : Text → Option (Text × Text × Text)
unfolding behind_key
parsekv line =
    let s = drop_while is_space line in
    behind_key (take_while in_key s) (drop_while is_space (drop_while in_key s))

-- `from_string` for a `bool`; `none` is its exception.
unfoldable pub from_string_bool : Text → Option Bool
from_string_bool s =
    if text_beq s (116 ∷ 114 ∷ 117 ∷ 101 ∷ [])
    then some true
    else if text_beq s (102 ∷ 97 ∷ 108 ∷ 115 ∷ 101 ∷ [])
    then some false
    else none

-- `IniGroup`: the callbacks by key, where none is `ignoreline`; and `IniActions`.
abbrev pub IniGroup : Type 0
IniGroup = List (Text × Option ℕ)

abbrev pub IniActions : Type 0
IniActions = List (Text × IniGroup)

-- A callback that is called, with the line's group, key, value and raw value.
pub record Call : Type 0 where
  pub cb : ℕ
  pub group : Text
  pub key : Text
  pub value : Text
  pub rawvalue : Text

-- `IniLine` with the actions, the iterator `group` and the calls.
pub record Ini : Type 0 where
  pub error : Bool
  pub lineno : ℕ
  pub group_name : Text
  pub group : Option Text
  pub actions : IniActions
  pub calls : List Call

abbrev pub failed : Ini → Ini
failed st = record st { error = true }

-- The text before the last ']', and the text behind it.
abbrev pub longer : ℕ → Text → Option (Text × Text) → Option (Text × Text)
longer c s (some (b, a)) = some (c ∷ b, a)
longer c s none = if c == 93 then some ([], s) else none

unfoldable pub last_bracket : Text → Option (Text × Text)
last_bracket [] = none
last_bracket (c ∷ s) = longer c s (last_bracket s)

-- The name of a group line, behind its '['.
abbrev pub name_of : Option (Text × Text) → Option Text
name_of none = none
name_of (some ([], a)) = none
name_of (some (c ∷ b, a)) = if is_empty (drop_while is_blank a) then some (c ∷ b) else none

abbrev pub in_group : Text → Option IniGroup → Ini → Ini
in_group g none st = record st { group_name = g; group = none }
in_group g (some cbs) st = record st { group_name = g; group = some g }

abbrev pub with_name : Option Text → Ini → Ini
with_name none st = failed st
with_name (some g) st = in_group g (find g st.actions) st

module _ (throws : Call → Bool) where
  -- `IniGroup::parse`, and the handler around it.
  abbrev pub parse_with : Text → IniGroup → Text × Text × Text → Option (Option ℕ) → Ini → Ini
  parse_with g cbs (k, v, raw) none st = record st {
    actions = assign g (insert k none cbs) st.actions;
  }
  parse_with g cbs (k, v, raw) (some none) st = st
  parse_with g cbs (k, v, raw) (some (some cb)) st =
      let call : Call = record { cb = cb; group = g; key = k; value = v; rawvalue = raw } in
      record st { calls = st.calls ++ (call ∷ []); error = if throws call then true else st.error }

  abbrev pub parse_in : Text → Option IniGroup → Text × Text × Text → Ini → Ini
  parse_in g none kv st = st
  parse_in g (some cbs) kv st = parse_with g cbs kv (find kv.0 cbs) st

  abbrev pub with_property : Text → Option (Text × Text × Text) → Ini → Ini
  with_property g none st = failed st
  with_property g (some kv) st = parse_in g (find g st.actions) kv st

  abbrev pub property : Option Text → Text → Ini → Ini
  property none line st = if is_empty st.group_name then failed st else st
  property (some g) line st = with_property g (parsekv line) st

  -- A line without the blanks in front.
  unfoldable pub run_line : Text → Ini → Ini
  unfolding parsekv last_bracket
  run_line [] st = st
  run_line (c ∷ s) st =
      if c == 35
      then st
      else if c == 91
      then with_name (name_of (last_bracket s)) st
      else property st.group (c ∷ s) st

  unfoldable pub next_line : Text → Ini → Ini
  unfolding run_line
  next_line line st = run_line (drop_while is_blank line) (record st { lineno = st.lineno + 1 })

  -- The loop of `ini_runparse`. `getline(s, line).good()` fails for a line that no newline ends.
  unfoldable pub run_from : Text → Text → Ini → Ini
  unfolding next_line
  run_from line [] st = st
  run_from line (c ∷ s) st =
      let ended = run_from [] s (next_line line st) in
      let more = run_from (line ++ (c ∷ [])) s st in if c == 10 then ended else more

  -- `auto group = a.end()`, and the loop.
  unfoldable pub ini_runparse : Text → Ini → Ini
  unfolding run_from
  ini_runparse text st = run_from [] text (record st { group = none })

  -- `ini_parse` behind the opening of the file: whether there was no error.
  abbrev pub ini_parse : Text → IniActions → Bool
  ini_parse text a =
      not
        (ini_runparse text (record {
          error = false;
          lineno = 0;
          group_name = [];
          group = none;
          actions = a;
          calls = [];
        })).error

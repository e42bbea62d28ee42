-- ===== src/Ini/Files.antt =====
-- What `ini_runparse` of xdrpp/iniparse.cc makes of a whole file.
use cs244b.Base.{
  ℕ, ◌+◌, ◌≡◌, refl, sym, ap, ◌∙◌, Bool, true, false, ◌||◌, none, some, List, [], ◌∷◌, ◌++◌, map,
  ◌==◌, if◌then◌else◌, append_assoc, append-nil, Bool-cases, inl, inr, arith, All, All-append,
}
use cs244b.Base.Assoc.{find, text_eq}
use cs244b.Ini.{
  Text, is_space, in_key, is_empty, IniGroup, IniActions, Call, Ini, next_line, run_from,
  ini_runparse,
}
use cs244b.Ini.Values.{IsKey, escape, escape_char, property_line}
use cs244b.Ini.Lines.{
  IsFirstKey, group_line, next_line-group, next_line-property, run_from-line, run_from-rest,
}

-- A property with its callback, and a group with its properties.
pub record Property : Type 0 where
  pub key : Text
  pub value : Text
  pub cb : ℕ

pub record Section : Type 0 where
  pub name : Text
  pub properties : List Property

-- The text of a file.
abbrev pub print_properties : List Property → Text
print_properties [] = []
print_properties (p ∷ ps) = property_line p.key p.value ++ (10 ∷ print_properties ps)

abbrev pub print : List Section → Text
print [] = []
print (x ∷ xs) = group_line x.name ++ (10 ∷ (print_properties x.properties ++ print xs))

-- The calls that it stands for.
abbrev pub call_of : Text → Property → Call
call_of g p = record {
  cb = p.cb;
  group = g;
  key = p.key;
  value = p.value;
  rawvalue = escape p.value;
}

abbrev pub calls_of : List Section → List Call
calls_of [] = []
calls_of (x ∷ xs) = map (call_of x.name) x.properties ++ calls_of xs

abbrev pub OneLine : Text → Type 0
OneLine s = All (λ c. (c == 10) ≡ false) s

-- The actions have the group, and a callback for each of its properties.
pub record Registered (actions : IniActions) (x : Section) : Type 0 where
  pub cbs : IniGroup
  pub there : find x.name actions ≡ some cbs
  pub named : is_empty x.name ≡ false
  pub one_line : OneLine x.name
  pub keys : All (λ p. IsFirstKey p.key × (find p.key cbs ≡ some (some p.cb))) x.properties

one_char :
    (b : Bool) (x y : Text) → OneLine x → (b ≡ false → OneLine y) → OneLine (if b then x else y)
one_char true x y h k = h
one_char false x y h k = k refl

escape_char-OneLine : (c : ℕ) → OneLine (escape_char c)
escape_char-OneLine c =
    one_char (c == 10) _ _ (refl, (refl, tt))
      λ no.
        one_char (c == 13) _ _ (refl, (refl, tt))
          λ _.
            one_char (c == 32) _ _ (refl, (refl, tt))
              λ _.
                one_char (c == 9) _ _ (refl, (refl, tt))
                  λ _. one_char ((c == 92) || is_space c) _ _ (refl, (no, tt)) λ _. (no, tt)

escape-OneLine : (v : Text) → OneLine (escape v)
escape-OneLine [] = tt
escape-OneLine (c ∷ v) =
    All-append (λ c. (c == 10) ≡ false) (escape_char c) (escape v) (escape_char-OneLine c)
      (escape-OneLine v)

key-OneLine : (k : Text) → All (λ c. in_key c ≡ true) k → OneLine k
key-OneLine [] h = tt
key-OneLine (c ∷ k) h = (let x = h.0 in ground arith, key-OneLine k h.1)

property_line-OneLine : (k v : Text) → IsKey k → OneLine (property_line k v)
property_line-OneLine k v h =
    All-append (λ c. (c == 10) ≡ false) k _ (key-OneLine k h.1)
      (refl, (refl, (refl, escape-OneLine v)))

module _ (throws : Call → Bool) (quiet : (c : Call) → throws c ≡ false) where
  -- A state behind some calls.
  record Moved (s t : Ini) (cs : List Call) : Type 0 where
    same_error : t.error ≡ s.error
    same_actions : t.actions ≡ s.actions
    more_calls : t.calls ≡ s.calls ++ cs

  run-properties :
      (g : Text) (cbs : IniGroup) (ps : List Property) (rest : Text) (st : Ini)
      → st.group ≡ some g
      → find g st.actions ≡ some cbs
      → All (λ p. IsFirstKey p.key × (find p.key cbs ≡ some (some p.cb))) ps
      → (t : Ini) × (run_from throws [] (print_properties ps ++ rest) st
          ≡ run_from throws [] rest t)
        × Moved st t (map (call_of g) ps)
  run-properties g cbs [] rest st e there h =
      (st, refl, record { same_error = refl; same_actions = refl; more_calls = sym (append-nil _) })
  run-properties g cbs (p ∷ ps) rest st e there h =
      let line = property_line p.key p.value in
      let st' : Ini = record st {
        lineno = st.lineno + 1;
        calls = st.calls ++ (call_of g p ∷ []);
      } in
      let (t, ran, m) = run-properties g cbs ps rest st' e there h.1 in
      (
        t,
        ap (λ s. run_from throws [] s st) (append_assoc line (10 ∷ print_properties ps) rest)
            ∙ (run_from-line throws [] line (print_properties ps ++ rest) st
                  (property_line-OneLine p.key p.value h.0.0.0)
                ∙ (ap (run_from throws [] (print_properties ps ++ rest)) (
                      next_line-property throws g p.key p.value cbs p.cb st h.0.0 e there h.0.1
                        quiet)
                    ∙ ran)),
        record {
          same_error = m.same_error;
          same_actions = m.same_actions;
          more_calls = m.more_calls ∙ append_assoc st.calls (call_of g p ∷ []) (map (call_of g) ps);
        },
      )

  run-sections :
      (actions : IniActions) (xs : List Section) (st : Ini)
      → st.actions ≡ actions
      → All (Registered actions) xs
      → (t : Ini) × (run_from throws [] (print xs) st ≡ t) × Moved st t (calls_of xs)
  unfolding run_from
  run-sections actions [] st e h =
      (st, refl, record { same_error = refl; same_actions = refl; more_calls = sym (append-nil _) })
  run-sections actions (x ∷ xs) st e h =
      let r = h.0 in
      let st' : Ini = record st {
        lineno = st.lineno + 1;
        group_name = x.name;
        group = some x.name;
      } in
      let there : find x.name st.actions ≡ some r.cbs = ap (find x.name) e ∙ r.there in
      let one_line : OneLine (group_line x.name) =
        (refl, All-append (λ c. (c == 10) ≡ false) x.name (93 ∷ []) r.one_line (refl, tt)) in
      let (t1, ran1, m1) =
        run-properties x.name r.cbs x.properties (print xs) st' refl there r.keys in
      let (t2, ran2, m2) = run-sections actions xs t1 (m1.same_actions ∙ e) h.1 in
      (
        t2,
        run_from-line throws [] (group_line x.name) (print_properties x.properties ++ print xs) st
              one_line
            ∙ (ap (run_from throws [] (print_properties x.properties ++ print xs))
                  (next_line-group throws x.name r.cbs st r.named there)
                ∙ (ran1 ∙ ran2)),
        record {
          same_error = m2.same_error ∙ m1.same_error;
          same_actions = m2.same_actions ∙ m1.same_actions;
          more_calls =
              m2.more_calls
              ∙ (ap (λ l. l ++ calls_of xs) m1.more_calls
                  ∙ append_assoc st.calls (map (call_of x.name) x.properties) (calls_of xs));
        },
      )

  -- For callbacks that throw nothing, a file that is printed from groups with properties, whose
  -- values are escaped, and actions that have a callback for each of them, group names that are
  -- not empty and without a newline and keys that can be read: `ini_runparse` calls just these
  -- callbacks, in order and each once, with the key, the value and the raw value, and changes
  -- neither the error flag nor the actions.
  pub ini_runparse-print :
      (xs : List Section) (st : Ini)
      → All (Registered st.actions) xs
      → ((ini_runparse throws (print xs) st).calls ≡ st.calls ++ calls_of xs)
        × ((ini_runparse throws (print xs) st).error ≡ st.error)
        × ((ini_runparse throws (print xs) st).actions ≡ st.actions)
  unfolding ini_runparse
  ini_runparse-print xs st h =
      let (t, ran, m) = run-sections st.actions xs (record st { group = none }) refl h in
      (
        ap (λ x. x.calls) ran ∙ m.more_calls,
        ap (λ x. x.error) ran ∙ m.same_error,
        ap (λ x. x.actions) ran ∙ m.same_actions,
      )

module _ (throws : Call → Bool) where
  run_from-unended :
      (before text rest : Text) (st : Ini)
      → OneLine rest
      → run_from throws before (text ++ (10 ∷ rest)) st
        ≡ run_from throws before (text ++ (10 ∷ [])) st
  unfolding run_from
  run_from-unended before [] rest st h = run_from-rest throws [] rest (next_line throws before st) h
  run_from-unended before (c ∷ text) rest st h = elim (Bool-cases (c == 10)) [
    | inl ends ↦ rw ends (run_from-unended [] text rest (next_line throws before st) h)
    | inr more ↦ rw more (run_from-unended (before ++ (c ∷ [])) text rest st h)
  ]

  -- A last line that no newline ends is not read.
  pub ini_runparse-unended :
      (text rest : Text) (st : Ini)
      → OneLine rest
      → ini_runparse throws (text ++ (10 ∷ rest)) st ≡ ini_runparse throws (text ++ (10 ∷ [])) st
  unfolding ini_runparse
  ini_runparse-unended text rest st h = run_from-unended [] text rest (record st { group = none }) h

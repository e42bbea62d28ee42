-- ===== src/Kv/AsyncClient/Flags.antt =====
-- What `parse_cmd_line` of cxx/async_client.cc makes of a command line.
use cs244b.Base.{
  ℕ, ◌≡◌, refl, ap, ◌∙◌, Bool, true, false, ◌||◌, Option, none, some, List, [], ◌∷◌, ◌++◌, ◌==◌,
  if◌then◌else◌, append_assoc, append-nil, Bool-cases, inl, inr, arith,
}
use cs244b.Rpc.Tracing.{off, distributed_tracing}
use cs244b.Kv.AsyncClient.{is_help, is_distributed, is_tracing, tracing, parse_cmd_line}

-- The flags on a command line: one for help, those that choose a mode, and the other arguments.
abbrev pub asks_help : List (List ℕ) → Bool
asks_help [] = false
asks_help (arg ∷ argv) = is_help arg || asks_help argv

abbrev pub modes : List (List ℕ) → List ℕ
modes [] = []
modes (arg ∷ argv) =
    let rest = modes argv in
    if is_distributed arg
    then distributed_tracing ∷ rest
    else if is_tracing arg
    then tracing ∷ rest
    else rest

abbrev pub operands : List (List ℕ) → List (List ℕ)
operands [] = []
operands (arg ∷ argv) =
    let rest = operands argv in
    if is_distributed arg then rest else if is_tracing arg then rest else arg ∷ rest

-- What the flags say together.
abbrev pub chosen : Bool → List ℕ → List (List ℕ) → Option (List (List ℕ) × ℕ)
chosen true ms args = none
chosen false [] args = some (args, off)
chosen false (mode ∷ []) args = some (args, mode)
chosen false (_ ∷ _ ∷ _) args = none

-- The mode that a flag has chosen before, and the others.
abbrev before : ℕ → List ℕ → List ℕ
before mode ms = if mode == off then ms else mode ∷ ms

two_modes :
    (b : Bool) (x y : ℕ) (ms : List ℕ) (args : List (List ℕ)) → none ≡ chosen b (x ∷ y ∷ ms) args
two_modes true x y ms args = refl
two_modes false x y ms args = refl

parse_from :
    (argv args : List (List ℕ)) (mode : ℕ)
    → parse_cmd_line argv args mode
      ≡ chosen (asks_help argv) (before mode (modes argv)) (args ++ operands argv)
unfolding parse_cmd_line
parse_from [] args mode = elim (Bool-cases (mode == off)) [
  | inl o ↦ let k : mode ≡ off = ground arith in rw (append-nil, o, k) refl
  | inr o ↦ rw (append-nil, o) refl
]
parse_from (arg ∷ argv) args mode = elim (Bool-cases (is_help arg)) [
  | inl h ↦ rw h refl
  | inr h ↦ elim (Bool-cases (is_distributed arg)) [
    | inl d ↦ elim (Bool-cases (mode == off)) [
      | inl o ↦ rw (h, d, o) (parse_from argv args distributed_tracing)
      | inr o ↦ rw (h, d, o) (two_modes (asks_help argv) mode distributed_tracing (modes argv) _)
    ]
    | inr d ↦ elim (Bool-cases (is_tracing arg)) [
      | inl t ↦ elim (Bool-cases (mode == off)) [
        | inl o ↦ rw (h, d, t, o) (parse_from argv args tracing)
        | inr o ↦ rw (h, d, t, o) (two_modes (asks_help argv) mode tracing (modes argv) _)
      ]
      | inr t ↦
          rw (h, d, t)
            (parse_from argv (args ++ (arg ∷ [])) mode
              ∙ ap (chosen (asks_help argv) (before mode (modes argv)))
                  (append_assoc args (arg ∷ []) (operands argv)))
    ]
  ]
]

-- `parse_cmd_line` of the client, which starts with the mode OFF, reads any command line as its
-- flags together say: it shows the usage if one of them asks for help or more than one chooses a
-- mode, and otherwise gives the other arguments in order and the mode that was chosen, or OFF.
pub parse_cmd_line_lem :
    (argv : List (List ℕ))
    → parse_cmd_line argv [] off ≡ chosen (asks_help argv) (modes argv) (operands argv)
parse_cmd_line_lem argv = parse_from argv [] off

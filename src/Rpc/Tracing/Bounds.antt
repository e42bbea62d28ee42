-- ===== src/Rpc/Tracing/Bounds.antt =====
-- The size of the path that `reply_cb` of xdrpp/arpc.h sends.
use cs244b.Base.{
  ℕ, ◌+◌, ◌≤◌, ◌≡◌, refl, List, [], length, length-append, All, All-append, Bool-cases, inl, inr,
  ◌==◌, arith,
}
use cs244b.Base.Assoc.{find, nat_eq}
use cs244b.Xdr.Word.{IsByte, IsU64}
use cs244b.Rpc.Tracing.{Floats, Tracing, off, trace_of, max_path_of, chosen_path}

-- What the tracing relies on: a double has 64 bits, and `std::to_string` of one writes at most 317
-- characters of one byte.
pub record FloatLaws (f : Floats) : Type 0 where
  pub u64_bits : (n : ℕ) → IsU64 (f.of_u64 n)
  pub text_bytes : (x : ℕ) → All IsByte (f.to_text x)
  pub text_short : (x : ℕ) → length (f.to_text x) ≤ 317

module _ (f : Floats) (laws : FloatLaws f) (node_name : List ℕ) (xid now : ℕ) (ts : Tracing) where
  abbrev pub path_of : List ℕ
  path_of = (trace_of f node_name xid now ts).0.0

  -- The path is the name and the chosen paths, with at most 322 characters of its own.
  pub length-path_of : length path_of ≤ length node_name + 322 + length (max_path_of xid ts)
  unfolding trace_of
  length-path_of = omega (arith, laws.text_short, length-append {0})

  pub path_of-IsByte : All IsByte node_name → All IsByte (max_path_of xid ts) → All IsByte path_of
  unfolding trace_of
  path_of-IsByte n p = All-append IsByte node_name _ n (
    omega arith,
    (
      omega arith,
      All-append IsByte _ _ (laws.text_bytes _) (omega arith, (omega arith, (omega arith, p))),
    ),
  )

-- A process that makes no calls of its own has no paths.
pub no_paths : (xid : ℕ) (ts : Tracing) → ts.xid_string_map ≡ [] → max_path_of xid ts ≡ []
unfolding max_path_of chosen_path find
no_paths xid ts h = elim (Bool-cases (ts.trace_mode == off)) [
  | inl o ↦ rw o refl
  | inr o ↦ rw (o, h) refl
]

-- ===== src/Xdr/Format.antt =====
-- RFC 4506's view of a type, as a specification for the traits of xdrpp/types.h: which values it
-- has, the bytes of each, and how deeply they nest. `Implements` is the contract between a codec
-- and its format, and the children take the ways to build a codec in turn.
pub mod Words
pub mod Padding
pub mod Copies
pub mod Bytes
pub mod Struct
pub mod Union
pub mod Items
use cs244b.Base.{ℕ, ◌-◌, ◌%◌, ◌≤◌, ◌≡◌, true, List, ◌++◌, length, replicate, All}
use cs244b.Xdr.Word.{IsByte}
use cs244b.Xdr.Error.{Result, ok, err, is_runtime_error}
use cs244b.Xdr.Archive.{PutArchive, GetArchive}
use cs244b.Xdr.Codec.{Codec}

pub record Format (A : Type 0) : Type 1 where
  pub IsValid : A → Type 0
  pub bytes : A → List ℕ
  pub depth : A → ℕ

-- Zero bytes up to the next multiple of four.
abbrev pub padded : List ℕ → List ℕ
padded bs = bs ++ replicate ((4 - length bs % 4) % 4) 0

-- The archive after `bs` were stored.
abbrev pub stored : PutArchive → List ℕ → PutArchive
stored ar bs = record ar { out = ar.out ++ bs; room = ar.room - length bs }

-- The archive with `rest` left.
abbrev pub at_rest : GetArchive → List ℕ → GetArchive
at_rest ar rest = record ar { rest = rest }

-- What unmarshalling may do on any input: return a valid value whose bytes it took off the front,
-- or throw an `xdr_runtime_error`. A fault, a failed assertion and a logic error are none of these.
abbrev pub GetSound : {A : Type 0} → Format A → GetArchive → Result (A × GetArchive) → Type 0
GetSound f ar (ok (a, ar')) =
    f.IsValid a
    × (f.depth a ≤ ar.stack_limit)
    × (ar.rest ≡ f.bytes a ++ ar'.rest)
    × (ar' ≡ at_rest ar ar'.rest)
GetSound f ar (err e) = is_runtime_error e ≡ true

pub record Implements {A : Type 0} (c : Codec A) (f : Format A) : Type 0 where
  pub size_eq : (a : A) → f.IsValid a → c.serial_size a ≡ ok (length (f.bytes a))
  pub aligned : (a : A) → f.IsValid a → length (f.bytes a) % 4 ≡ 0
  pub put_ok :
      (a : A) (ar : PutArchive)
      → f.IsValid a
      → length (f.bytes a) ≤ ar.room
      → f.depth a ≤ ar.stack_limit
      → c.put a ar ≡ ok (stored ar (f.bytes a))
  pub get_ok :
      (a : A) (ar : GetArchive) (rest : List ℕ)
      → f.IsValid a
      → f.depth a ≤ ar.stack_limit
      → c.get (at_rest ar (f.bytes a ++ rest)) ≡ ok (a, at_rest ar rest)
  pub get_sound :
      (ar : GetArchive) → All IsByte ar.rest → length ar.rest % 4 ≡ 0 → GetSound f ar (c.get ar)

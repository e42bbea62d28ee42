-- ===== src/Xdr/Codec.antt =====
-- `xdr_traits` of xdrpp/types.h: what each marshallable type supplies to the archives, and the
-- templates that build one type's traits from others'.
use cs244b.Base.{ℕ, zero, suc, ◌+◌, ◌*◌, ◌/◌, Option, none, some, List, [], ◌∷◌, leb, length}
use cs244b.Xdr.Error.{Result, ok, err, ◌>>=◌, ◌>>◌, guard, overflow, bad_discriminant, fault}
use cs244b.Xdr.Archive.{
  Put, Get, put_u32, put_u64, put_var_bytes, put_fixed_bytes, put_nested, get_u32, get_u64,
  get_var_bytes, get_fixed_bytes, get_nested, size32,
}

-- `put` and `get` are `archive(ar, t)` for the two archives.
pub record Codec (A : Type 0) : Type 0 where
  pub serial_size : A → Result ℕ
  pub put : A → Put
  pub get : Get A

-- Integers, enums and floating-point numbers, as their bit patterns.
unfoldable pub u32 : Codec ℕ
unfolding put_u32 get_u32
u32 = record { serial_size = λ _. ok 4; put = put_u32; get = get_u32 }

unfoldable pub u64 : Codec ℕ
unfolding put_u64 get_u64
u64 = record { serial_size = λ _. ok 8; put = put_u64; get = get_u64 }

-- `xstring<N>` and `opaque_vec<N>`: `(size + 7) & ~3`.
unfoldable pub var_bytes : ℕ → Codec (List ℕ)
unfolding put_var_bytes get_var_bytes
var_bytes max_size = record {
  serial_size = λ bs. ok ((length bs + 7) / 4 * 4);
  put = put_var_bytes;
  get = get_var_bytes max_size;
}

-- `opaque_array<N>`: `(N + 3) & ~3`.
unfoldable pub fixed_bytes : ℕ → Codec (List ℕ)
unfolding put_fixed_bytes get_fixed_bytes
fixed_bytes n = record {
  serial_size = λ _. ok ((n + 3) / 4 * 4);
  put = put_fixed_bytes;
  get = get_fixed_bytes n;
}

-- `xdr_void`
unfoldable pub void : Codec (Unit {0})
void = record { serial_size = λ _. ok 0; put = λ _ ar. ok ar; get = λ ar. ok (tt, ar) }

-- Two fields, one after the other: `xdr_struct_base` and `tuple_base`.
unfoldable pub pair : {A B : Type 0} → Codec A → Codec B → Codec (A × B)
pair c d = record {
  serial_size = λ p. (do n ← c.serial_size p.0; m ← d.serial_size p.1; ok (n + m));
  put = λ p ar. (do ar' ← c.put p.0 ar; d.put p.1 ar');
  get = λ ar. (do (a, ar') ← c.get ar; (b, ar'') ← d.get ar'; ok ((a, b), ar''));
}

-- A struct whose fields are given by a tuple.
unfoldable pub fields : {A B : Type 0} → (A → B) → (B → A) → Codec B → Codec A
fields to from c = record {
  serial_size = λ a. c.serial_size (to a);
  put = λ a. c.put (to a);
  get = λ ar. (do (b, ar') ← c.get ar; ok (from b, ar'));
}

-- What the archives do around the `save` and `load` of a struct, union or container.
unfoldable pub nested : {A : Type 0} → Codec A → Codec A
unfolding put_nested get_nested
nested c = record {
  serial_size = c.serial_size;
  put = λ a. put_nested (c.put a);
  get = get_nested c.get;
}

-- A union as gen_hh.cc generates it: the discriminant, and the field that it selects, if any.
unfoldable pub union : {A : Type 0} → (A → ℕ) → (ℕ → Option (Codec A)) → Codec A
unfolding put_u32 get_u32
union tag arm = record {
  serial_size = λ a. elim (arm (tag a)) [
    | none ↦ err bad_discriminant
    | some c ↦ (do n ← c.serial_size a; ok (n + 4))
  ];
  put = λ a ar. (do
    ar' ← put_u32 (tag a) ar
    elim (arm (tag a)) [ none ↦ err bad_discriminant | some c ↦ c.put a ar' ]);
  get = λ ar. (do
    (which, ar') ← get_u32 ar
    elim (arm which) [ none ↦ err bad_discriminant | some c ↦ c.get ar' ]);
}

-- The field that one discriminant selects. The class keeps the field that its discriminant names,
-- so the other case, an access to the wrong member of the C++ union, is not reached.
unfoldable pub arm_of : {A B : Type 0} → (A → Option B) → (B → A) → Codec B → Codec A
arm_of project inject c = record {
  serial_size = λ a. elim (project a) [ none ↦ err fault | some b ↦ c.serial_size b ];
  put = λ a ar. elim (project a) [ none ↦ err fault | some b ↦ c.put b ar ];
  get = λ ar. (do (b, ar') ← c.get ar; ok (inject b, ar'));
}

-- `for (const value_type &v : t) archive(a, v)`
unfoldable pub put_items : {A : Type 0} → Codec A → List A → Put
put_items c [] ar = ok ar
put_items c (a ∷ xs) ar = do ar' ← c.put a ar; put_items c xs ar'

-- `for (uint32_t i = 0; i < n; ++i) archive(a, t.extend_at(i))`
unfoldable pub get_items : {A : Type 0} → Codec A → ℕ → Get (List A)
get_items c zero ar = ok ([], ar)
get_items c (suc n) ar = do (a, ar') ← c.get ar; (xs, ar'') ← get_items c n ar'; ok (a ∷ xs, ar'')

unfoldable pub size_items : {A : Type 0} → Codec A → List A → Result ℕ
size_items c [] = ok 0
size_items c (a ∷ xs) = do n ← c.serial_size a; m ← size_items c xs; ok (n + m)

-- `xvector<T, N>`: `check_size` throws when the count read is beyond `N`.
unfoldable pub vector : {A : Type 0} → ℕ → Codec A → Codec (List A)
unfolding put_items get_items size_items put_u32 get_u32 size32
vector max_size c = record {
  serial_size = λ xs. (do m ← size_items c xs; ok (4 + m));
  put = λ xs ar. (do n ← size32 (length xs); ar' ← put_u32 n ar; put_items c xs ar');
  get = λ ar. (do (n, ar') ← get_u32 ar; guard (leb n max_size) overflow; get_items c n ar');
}

abbrev pub to_list : {A : Type 0} → Option A → List A
to_list none = []
to_list (some a) = a ∷ []

abbrev pub of_list : {A : Type 0} → List A → Option A
of_list [] = none
of_list (a ∷ xs) = some a

-- `pointer<T>` is marshalled as a vector of at most one element.
unfoldable pub pointer : {A : Type 0} → Codec A → Codec (Option A)
unfolding vector fields
pointer c = fields to_list of_list (vector 1 c)

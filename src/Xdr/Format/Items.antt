-- ===== src/Xdr/Format/Items.antt =====
-- The formats of vectors and pointers: a count, and the items one after the other.
use cs244b.Base.{
  ℕ, zero, suc, ◌%◌, ◌≤◌, ◌<◌, ◌≡◌, refl, ap, ◌∙◌, true, Option, none, some, List, [], ◌∷◌, ◌++◌,
  length, length-append, append_assoc, append-nil, All, arith, max, ltb, leb, split_trans,
  Bool-cases, inl, inr,
}
use cs244b.Xdr.Word.{u32_mod, IsByte, be32}
use cs244b.Xdr.Error.{Result, ok, err, ◌>>=◌, ◌>>◌, guard, overflow, is_runtime_error}
use cs244b.Xdr.Archive.{PutArchive, GetArchive, get_u32, size32}
use cs244b.Xdr.Codec.{
  Codec, put_items, get_items, size_items, vector, fields, pointer, to_list, of_list,
}
use cs244b.Xdr.Format.Struct.{fields_format}
use cs244b.Xdr.Format.{Format, Implements, GetSound, stored, at_rest}
use cs244b.Xdr.Format.Words.{
  stored-stored, rest-IsByte, rest_aligned, length-be32, put_u32_ok, get_u32_ok, get_u32_sound,
  u32_format,
}

abbrev pub items_bytes : {A : Type 0} → Format A → List A → List ℕ
items_bytes f [] = []
items_bytes f (a ∷ xs) = f.bytes a ++ items_bytes f xs

abbrev pub items_depth : {A : Type 0} → Format A → List A → ℕ
items_depth f [] = 0
items_depth f (a ∷ xs) = max (f.depth a) (items_depth f xs)

abbrev pub items_format : {A : Type 0} → ℕ → Format A → Format (List A)
items_format n f = record {
  IsValid = λ xs. (length xs ≡ n) × All f.IsValid xs;
  bytes = items_bytes f;
  depth = items_depth f;
}

abbrev pub vector_format : {A : Type 0} → ℕ → Format A → Format (List A)
vector_format max_size f = record {
  IsValid = λ xs. (length xs ≤ max_size) × All f.IsValid xs;
  bytes = λ xs. be32 (length xs) ++ items_bytes f xs;
  depth = items_depth f;
}

module _ {A : Type 0} {c : Codec A} {f : Format A} (hc : Implements c f) where
  size_items_ok :
      (xs : List A) → All f.IsValid xs → size_items c xs ≡ ok (length (items_bytes f xs))
  unfolding size_items
  size_items_ok [] v = refl
  size_items_ok (a ∷ xs) v =
      rw (hc.size_eq a v.0, size_items_ok xs v.1, length-append (f.bytes a)) refl

  items_aligned : (xs : List A) → All f.IsValid xs → length (items_bytes f xs) % 4 ≡ 0
  items_aligned [] v = omega arith
  items_aligned (a ∷ xs) v =
      omega (
        arith,
        length-append (f.bytes a) (items_bytes f xs),
        hc.aligned a v.0,
        items_aligned xs v.1,
      )

  put_items_ok :
      (xs : List A) (ar : PutArchive)
      → All f.IsValid xs
      → length (items_bytes f xs) ≤ ar.room
      → items_depth f xs ≤ ar.stack_limit
      → put_items c xs ar ≡ ok (stored ar (items_bytes f xs))
  unfolding put_items
  put_items_ok [] ar v hr hl = rw append-nil (ground arith)
  put_items_ok (a ∷ xs) ar v hr hl =
      let e = length-append (f.bytes a) (items_bytes f xs) in
      rw (hc.put_ok a ar v.0 (omega arith) (omega arith)) (
        put_items_ok xs (stored ar (f.bytes a)) v.1 (omega arith) (omega arith)
        ∙ ap ok (stored-stored ar (f.bytes a) (items_bytes f xs)))

  get_items_ok :
      (xs : List A) (ar : GetArchive) (rest : List ℕ)
      → All f.IsValid xs
      → items_depth f xs ≤ ar.stack_limit
      → get_items c (length xs) (at_rest ar (items_bytes f xs ++ rest)) ≡ ok (xs, at_rest ar rest)
  unfolding get_items
  get_items_ok [] ar rest v hl = refl
  get_items_ok (a ∷ xs) ar rest v hl =
      let n : length (a ∷ xs) ≡ suc (length xs) = omega arith in
      rw
        (
          append_assoc (f.bytes a) (items_bytes f xs) rest,
          hc.get_ok a ar (items_bytes f xs ++ rest) v.0 (omega arith),
          get_items_ok xs ar rest v.1 (omega arith),
        )
        refl

  -- The other items behind a sound first one.
  items_second :
      (n : ℕ) (ar ar' : GetArchive) (a : A) (r : Result (List A × GetArchive))
      → f.IsValid a
      → f.depth a ≤ ar.stack_limit
      → ar.rest ≡ f.bytes a ++ ar'.rest
      → ar' ≡ at_rest ar ar'.rest
      → GetSound (items_format n f) ar' r
      → GetSound (items_format (suc n) f) ar (r >>= λ p. ok (a ∷ p.0, p.1))
  items_second n ar ar' a (err e) va da split same h = h
  items_second n ar ar' a (ok (xs, last)) va da split same (vs, ds, split', same') =
      let limit : ar'.stack_limit ≡ ar.stack_limit = ap (λ x. x.stack_limit) same in
      (
        (let k = vs.0 in omega arith, (va, vs.1)),
        omega arith,
        split_trans (f.bytes a) (items_bytes f xs) last.rest split split',
        same' ∙ ap (λ x. at_rest x last.rest) same,
      )

  get_items_sound :
      (n : ℕ) (ar : GetArchive)
      → All IsByte ar.rest
      → length ar.rest % 4 ≡ 0
      → GetSound (items_format n f) ar (get_items c n ar)
  unfolding get_items
  get_items_sound zero ar h al = ((refl, tt), omega arith, refl, refl)
  get_items_sound (suc n) ar h al =
      go (c.get ar) (hc.get_sound ar h al) (λ ar' h' al'. get_items_sound n ar' h' al')
    where
      go :
          (r : Result (A × GetArchive))
          → GetSound f ar r
          → ((ar' : GetArchive)
              → All IsByte ar'.rest
              → length ar'.rest % 4 ≡ 0
              → GetSound (items_format n f) ar' (get_items c n ar'))
          → GetSound
              (items_format (suc n) f)
              ar
              (r >>= λ p. (get_items c n p.1) >>= λ q. ok (p.0 ∷ q.0, q.1))
      go (err e) s rest = s
      go (ok (a, ar')) (va, da, split, same) rest =
          items_second n ar ar' a (get_items c n ar') va da split same (
            rest ar' (rest-IsByte (f.bytes a) ar'.rest split h)
              (rest_aligned (f.bytes a) ar'.rest split (hc.aligned a va) al))

  vector_put :
      (n : ℕ) (xs : List A) (ar : PutArchive)
      → n < u32_mod
      → (vector_format n f).IsValid xs
      → length ((vector_format n f).bytes xs) ≤ ar.room
      → items_depth f xs ≤ ar.stack_limit
      → (vector n c).put xs ar ≡ ok (stored ar ((vector_format n f).bytes xs))
  unfolding vector size32
  vector_put n xs ar hn v hr hl =
      let e = length-append (be32 (length xs)) (items_bytes f xs) in
      let k = length-be32 (length xs) in
      let short = v.0 in
      let fits : ltb (length xs) u32_mod ≡ true = ground arith in
      rw (fits, put_u32_ok (length xs) ar (omega arith) (omega arith))
        (put_items_ok xs (stored ar (be32 (length xs))) v.1 (omega arith) (omega arith)
          ∙ ap ok (stored-stored ar (be32 (length xs)) (items_bytes f xs)))

  vector_get :
      (n : ℕ) (xs : List A) (ar : GetArchive) (rest : List ℕ)
      → n < u32_mod
      → (vector_format n f).IsValid xs
      → items_depth f xs ≤ ar.stack_limit
      → (vector n c).get (at_rest ar ((vector_format n f).bytes xs ++ rest))
        ≡ ok (xs, at_rest ar rest)
  unfolding vector
  vector_get n xs ar rest hn v hl =
      let short = v.0 in
      let few : leb (length xs) n ≡ true = ground arith in
      rw
        (
          append_assoc (be32 (length xs)) (items_bytes f xs) rest,
          get_u32_ok (length xs) ar (items_bytes f xs ++ rest) (omega arith),
          few,
        )
        (get_items_ok xs ar rest v.1 hl)

  -- The items behind a sound count.
  vector_items :
      (n count : ℕ) (ar ar' : GetArchive) (r : Result (List A × GetArchive))
      → count ≤ n
      → ar.rest ≡ be32 count ++ ar'.rest
      → ar' ≡ at_rest ar ar'.rest
      → GetSound (items_format count f) ar' r
      → GetSound (vector_format n f) ar r
  vector_items n count ar ar' (err e) h split same s = s
  vector_items n count ar ar' (ok (xs, last)) h split same ((len, vs), ds, split', same') =
      let limit : ar'.stack_limit ≡ ar.stack_limit = ap (λ x. x.stack_limit) same in
      (
        (omega arith, vs),
        omega arith,
        rw len (split_trans (be32 count) (items_bytes f xs) last.rest split split'),
        same' ∙ ap (λ x. at_rest x last.rest) same,
      )

  vector_of :
      (n : ℕ) (ar : GetArchive) (r : Result (ℕ × GetArchive))
      → All IsByte ar.rest
      → length ar.rest % 4 ≡ 0
      → GetSound u32_format ar r
      → GetSound
          (vector_format n f)
          ar
          (do (count, ar') ← r; guard (leb count n) overflow; get_items c count ar')
  unfolding is_runtime_error
  vector_of n ar (err e) h al s = s
  vector_of n ar (ok (count, ar')) h al (hs, _, split, same) = elim (Bool-cases (leb count n)) [
    | inr many ↦ rw many refl
    | inl few ↦ rw few (
        vector_items n count ar ar' (get_items c count ar') (ground arith) split same (
          get_items_sound count ar' (rest-IsByte (be32 count) ar'.rest split h)
            (rest_aligned (be32 count) ar'.rest split (rw (length-be32 count) refl) al)))
  ]

  -- For a codec that implements its format and a maximum below 2 ^ 32, the traits of `xvector`
  -- implement the format of a vector: the size is right and a multiple of four, marshalling a
  -- valid vector stores its count and its items, unmarshalling them gives the vector back, and
  -- unmarshalling any bytes gives a valid vector whose bytes stand in front or an
  -- `xdr_runtime_error`.
  pub vector-Implements : (n : ℕ) → n < u32_mod → Implements (vector n c) (vector_format n f)
  unfolding vector
  vector-Implements n hn = record {
    size_eq = λ xs v.
        rw
          (
            size_items_ok xs v.1,
            length-append (be32 (length xs)) (items_bytes f xs),
            length-be32 (length xs),
          )
          refl;
    aligned = λ xs v. omega (
      arith,
      length-append (be32 (length xs)) (items_bytes f xs),
      length-be32 (length xs),
      items_aligned xs v.1,
    );
    put_ok = λ xs ar v hr hl. vector_put n xs ar hn v hr hl;
    get_ok = λ xs ar rest v hl. vector_get n xs ar rest hn v hl;
    get_sound = λ ar h al. vector_of n ar (get_u32 ar) h al (get_u32_sound ar h);
  }

abbrev pub pointer_format : {A : Type 0} → Format A → Format (Option A)
pointer_format f = fields_format to_list (vector_format 1 f)

of_list-to_list : {A : Type 0} (o : Option A) → of_list (to_list o) ≡ o
of_list-to_list none = refl
of_list-to_list (some a) = refl

module _ {A : Type 0} {c : Codec A} {f : Format A} (hc : Implements c f) where
  -- A list of at most one item is an option.
  pointer_of :
      (ar : GetArchive) (r : Result (List A × GetArchive))
      → GetSound (vector_format 1 f) ar r
      → GetSound (pointer_format f) ar (r >>= λ p. ok (of_list p.0, p.1))
  pointer_of ar (err e) s = s
  pointer_of ar (ok ([], ar')) s = s
  pointer_of ar (ok (a ∷ [], ar')) s = s
  pointer_of ar (ok (a ∷ b ∷ xs, ar')) s = absurd (let short = s.0.0 in omega arith)

  -- For a codec that implements its format, the traits of `pointer` implement the format of a value
  -- that may be absent.
  pub pointer-Implements : Implements (pointer c) (pointer_format f)
  unfolding pointer fields
  pointer-Implements =
      let v = vector-Implements hc 1 (omega arith) in
      record {
        size_eq = λ o h. v.size_eq (to_list o) h;
        aligned = λ o h. v.aligned (to_list o) h;
        put_ok = λ o. v.put_ok (to_list o);
        get_ok = λ o ar rest h hl. rw (v.get_ok (to_list o) ar rest h hl, of_list-to_list o) refl;
        get_sound = λ ar h al. pointer_of ar ((vector 1 c).get ar) (v.get_sound ar h al);
      }

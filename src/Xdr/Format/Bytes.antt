-- ===== src/Xdr/Format/Bytes.antt =====
-- The formats of strings and opaque data, of variable and of fixed length.
use cs244b.Base.{
  ℕ, ◌+◌, ◌*◌, ◌/◌, ◌%◌, ◌≤◌, ◌<◌, ◌≡◌, refl, sym, ap, ◌∙◌, true, List, ◌++◌, length, length-append,
  append_assoc, All, arith, ltb, leb, Bool-cases, inl, inr, split_trans,
}
use cs244b.Xdr.Word.{u32_mod, IsByte, IsU32, be32, put32-be32}
use cs244b.Xdr.Error.{Result, ok, err, ◌>>=◌, ◌>>◌, guard, overflow, is_runtime_error}
use cs244b.Xdr.Archive.{
  PutArchive, GetArchive, store, check_room, check_rest, put_var_bytes, put_fixed_bytes, get_bytes,
  get_var_bytes, get_fixed_bytes, get_u32, size32,
}
use cs244b.Xdr.Codec.{var_bytes, fixed_bytes}
use cs244b.Xdr.Format.{Format, Implements, GetSound, stored, at_rest, padded}
use cs244b.Xdr.Format.Padding.{length-padded}
use cs244b.Xdr.Format.Words.{
  length-be32, rest-IsByte, rest_aligned, stored-stored, get_u32_ok, get_u32_sound, u32_format,
}
use cs244b.Xdr.Format.Copies.{put_bytes_ok, get_bytes_ok, BytesSound, get_bytes_sound}

abbrev pub var_bytes_format : ℕ → Format (List ℕ)
var_bytes_format max_size = record {
  IsValid = λ bs. (length bs ≤ max_size) × All IsByte bs;
  bytes = λ bs. be32 (length bs) ++ padded bs;
  depth = λ _. 0;
}

abbrev pub fixed_bytes_format : ℕ → Format (List ℕ)
fixed_bytes_format n = record {
  IsValid = λ bs. (length bs ≡ n) × All IsByte bs;
  bytes = padded;
  depth = λ _. 0;
}

put_fixed_bytes_ok :
    (bs : List ℕ) (ar : PutArchive)
    → length (padded bs) ≤ ar.room
    → put_fixed_bytes bs ar ≡ ok (stored ar (padded bs))
unfolding put_fixed_bytes check_room
put_fixed_bytes_ok bs ar h =
    let e : leb (length bs) ar.room ≡ true = ground (arith, length-padded bs) in
    rw e (put_bytes_ok bs ar h)

put_var_bytes_ok :
    (bs : List ℕ) (ar : PutArchive)
    → IsU32 (length bs)
    → length (be32 (length bs) ++ padded bs) ≤ ar.room
    → put_var_bytes bs ar ≡ ok (stored ar (be32 (length bs) ++ padded bs))
unfolding put_var_bytes check_room size32 store
put_var_bytes_ok bs ar hs h =
    let room : length (be32 (length bs) ++ padded bs) ≡ 4 + length (padded bs) =
      length-append (be32 (length bs)) (padded bs)
      ∙ ap (λ k. k + length (padded bs)) (length-be32 _) in
    let e : leb (4 + length bs) ar.room ≡ true = ground (arith, room, length-padded bs) in
    let f : ltb (length bs) u32_mod ≡ true = ground arith in
    let g : leb (length (be32 (length bs))) ar.room ≡ true =
      ground (arith, room, length-be32 (length bs)) in
    rw (e, f, put32-be32 ar.big (length bs) hs, g)
      (put_bytes_ok bs (stored ar (be32 (length bs))) (omega (arith, room, length-be32 (length bs)))
        ∙ ap ok (stored-stored ar (be32 (length bs)) (padded bs)))

get_fixed_bytes_ok :
    (bs : List ℕ) (ar : GetArchive) (rest : List ℕ)
    → get_fixed_bytes (length bs) (at_rest ar (padded bs ++ rest)) ≡ ok (bs, at_rest ar rest)
unfolding get_fixed_bytes check_rest
get_fixed_bytes_ok bs ar rest =
    let e : leb (length bs) (length (padded bs ++ rest)) ≡ true =
      ground (arith, length-padded bs, length-append (padded bs) rest) in
    rw e (get_bytes_ok bs ar rest)

get_var_bytes_ok :
    (n : ℕ) (bs : List ℕ) (ar : GetArchive) (rest : List ℕ)
    → IsU32 (length bs)
    → length bs ≤ n
    → get_var_bytes n (at_rest ar ((be32 (length bs) ++ padded bs) ++ rest))
      ≡ ok (bs, at_rest ar rest)
unfolding get_var_bytes check_rest
get_var_bytes_ok n bs ar rest hs hn =
    let e : leb (length bs) (length (padded bs ++ rest)) ≡ true =
      ground (arith, length-padded bs, length-append (padded bs) rest) in
    let f : leb (length bs) n ≡ true = ground arith in
    rw
      (
        append_assoc (be32 (length bs)) (padded bs) rest,
        get_u32_ok (length bs) ar (padded bs ++ rest) hs,
        e,
        f,
      )
      (get_bytes_ok bs ar rest)

fixed_of_bytes :
    (n : ℕ) (ar : GetArchive) (r : Result (List ℕ × GetArchive))
    → BytesSound n ar r
    → GetSound (fixed_bytes_format n) ar r
fixed_of_bytes n ar (ok (bs, ar')) (e, h, split, same) = ((e, h), omega arith, split, same)
fixed_of_bytes n ar (err e) h = h

var_of_bytes :
    (n : ℕ) (ar : GetArchive) (size : ℕ) (ar' : GetArchive) (r : Result (List ℕ × GetArchive))
    → size ≤ n
    → ar.rest ≡ be32 size ++ ar'.rest
    → ar' ≡ at_rest ar ar'.rest
    → BytesSound size ar' r
    → GetSound (var_bytes_format n) ar r
var_of_bytes n ar size ar' (err e) hn split same h = h
var_of_bytes n ar size ar' (ok (bs, last)) hn split same (e, h, split', same') = (
  (omega arith, h),
  omega arith,
  split_trans (be32 (length bs)) (padded bs) last.rest (rw e split) split',
  same' ∙ ap (λ x. at_rest x last.rest) same,
)

-- Behind a sound read of the length, the checks and the data.
var_of_size :
    (n : ℕ) (ar : GetArchive) (r : Result (ℕ × GetArchive))
    → n < u32_mod
    → All IsByte ar.rest
    → length ar.rest % 4 ≡ 0
    → GetSound u32_format ar r
    → GetSound
        (var_bytes_format n)
        ar
        (do (size, ar') ← r; check_rest size ar'; guard (leb size n) overflow; get_bytes size ar')
unfolding check_rest is_runtime_error
var_of_size n ar (err e) hn h al s = s
var_of_size n ar (ok (size, ar')) hn h al (hs, _, split, same) =
    elim (Bool-cases (leb size (length ar'.rest))) [
      | inr e ↦ rw e refl
      | inl e ↦ elim (Bool-cases (leb size n)) [
        | inr f ↦ rw (e, f) refl
        | inl f ↦
            rw (e, f)
              (var_of_bytes n ar size ar' _ (ground arith) split same (
                get_bytes_sound size ar' (rest-IsByte (be32 size) ar'.rest split h)
                  (rest_aligned (be32 size) ar'.rest split (rw (length-be32 size)) al)
                  (ground arith)))
      ]
    ]

get_fixed_bytes_sound :
    (n : ℕ) (ar : GetArchive)
    → All IsByte ar.rest
    → length ar.rest % 4 ≡ 0
    → GetSound (fixed_bytes_format n) ar (get_fixed_bytes n ar)
unfolding get_fixed_bytes check_rest is_runtime_error
get_fixed_bytes_sound n ar h al = elim (Bool-cases (leb n (length ar.rest))) [
  | inl e ↦ rw e (fixed_of_bytes n ar _ (get_bytes_sound n ar h al (ground arith)))
  | inr e ↦ rw e refl
]

get_var_bytes_sound :
    (n : ℕ) (ar : GetArchive)
    → n < u32_mod
    → All IsByte ar.rest
    → length ar.rest % 4 ≡ 0
    → GetSound (var_bytes_format n) ar (get_var_bytes n ar)
unfolding get_var_bytes
get_var_bytes_sound n ar hn h al = var_of_size n ar (get_u32 ar) hn h al (get_u32_sound ar h)

var_size : (bs : List ℕ) → (length bs + 7) / 4 * 4 ≡ length (be32 (length bs) ++ padded bs)
var_size bs =
    omega (
      arith,
      length-append (be32 (length bs)) (padded bs),
      length-be32 (length bs),
      length-padded bs,
    )

var_aligned : (bs : List ℕ) → length (be32 (length bs) ++ padded bs) % 4 ≡ 0
var_aligned bs =
    omega (
      arith,
      length-append (be32 (length bs)) (padded bs),
      length-be32 (length bs),
      length-padded bs,
    )

fixed_size : (n : ℕ) (bs : List ℕ) → length bs ≡ n → (n + 3) / 4 * 4 ≡ length (padded bs)
fixed_size n bs h = omega (arith, length-padded bs)

-- Strings and opaque data, for every maximum that fits 32 bits.
pub var_bytes-Implements : (n : ℕ) → n < u32_mod → Implements (var_bytes n) (var_bytes_format n)
unfolding var_bytes
var_bytes-Implements n hn = record {
  size_eq = λ bs h. ap ok (var_size bs);
  aligned = λ bs h. var_aligned bs;
  put_ok = λ bs ar h k _. put_var_bytes_ok bs ar (omega arith) k;
  get_ok = λ bs ar rest h _. get_var_bytes_ok n bs ar rest (omega arith) h.0;
  get_sound = λ ar h al. get_var_bytes_sound n ar hn h al;
}

pub fixed_bytes-Implements : (n : ℕ) → Implements (fixed_bytes n) (fixed_bytes_format n)
unfolding fixed_bytes
fixed_bytes-Implements n = record {
  size_eq = λ bs h. ap ok (fixed_size n bs h.0);
  aligned = λ bs h. omega (arith, length-padded bs);
  put_ok = λ bs ar h k _. put_fixed_bytes_ok bs ar k;
  get_ok = λ bs ar rest h _. rw (sym h.0) (get_fixed_bytes_ok bs ar rest);
  get_sound = λ ar h al. get_fixed_bytes_sound n ar h al;
}

-- ===== src/Xdr/Format/Copies.antt =====
-- `put_bytes` and `get_bytes` of xdrpp/marshal.cc: a copy and its padding.
use cs244b.Base.{
  ℕ, zero, suc, ◌%◌, ◌≤◌, ◌<◌, ◌≡◌, refl, sym, ap, ◌∙◌, true, false, List, [], ◌∷◌, ◌++◌, length,
  length-append, length-drop, length-take, replicate, take, drop, take-append, drop-append,
  take-append-drop, append_assoc, append-nil, All, All-take, arith, ltb, ◌==◌,
}
use cs244b.Xdr.Word.{IsByte}
use cs244b.Xdr.Error.{Result, ok, err, ◌>>=◌, is_runtime_error}
use cs244b.Xdr.Archive.{PutArchive, GetArchive, store, put_bytes, skip_pad, get_bytes}
use cs244b.Xdr.Format.{stored, at_rest, padded}
use cs244b.Xdr.Format.Padding.{pad_count, pad_zeros_lem, skip_pad_ok, skip_pad_sound, PadSound}

pub put_bytes_ok :
    (bs : List ℕ) (ar : PutArchive)
    → length (padded bs) ≤ ar.room
    → put_bytes bs ar ≡ ok (stored ar (padded bs))
unfolding put_bytes store
put_bytes_ok [] ar h = rw append-nil (ground arith)
put_bytes_ok (b ∷ bs) ar h = rw (pad_zeros_lem (length (b ∷ bs))) (ground arith)

-- With data in the buffer: the copy, then the padding.
abbrev copied : ℕ → GetArchive → Result (List ℕ × GetArchive)
copied n ar = do rest ← skip_pad 3 n (drop n ar.rest); ok (take n ar.rest, at_rest ar rest)

get_bytes-copy_lem :
    (n : ℕ) (ar : GetArchive) → 0 < n → n ≤ length ar.rest → get_bytes n ar ≡ copied n ar
unfolding get_bytes
get_bytes-copy_lem n ar h k =
    let e : (n == 0) ≡ false = ground arith in
    let f : ltb (length ar.rest) n ≡ false = ground arith in rw (e, f)

get_bytes_split :
    (bs : List ℕ) (ar : GetArchive) (tail rest : List ℕ)
    → 0 < length bs
    → skip_pad 3 (length bs) tail ≡ ok rest
    → get_bytes (length bs) (at_rest ar (bs ++ tail)) ≡ ok (bs, at_rest ar rest)
get_bytes_split bs ar tail rest h e =
    get_bytes-copy_lem (length bs) (at_rest ar (bs ++ tail)) h
      (omega (arith, length-append bs tail))
    ∙ rw (drop-append bs tail, take-append bs tail, e)

get_bytes_nil : (ar : GetArchive) → get_bytes 0 ar ≡ ok ([], ar)
unfolding get_bytes
get_bytes_nil ar = refl

pub get_bytes_ok :
    (bs : List ℕ) (ar : GetArchive) (rest : List ℕ)
    → get_bytes (length bs) (at_rest ar (padded bs ++ rest)) ≡ ok (bs, at_rest ar rest)
get_bytes_ok [] ar rest = get_bytes_nil (at_rest ar rest)
get_bytes_ok (b ∷ bs) ar rest =
    let pad : List ℕ = replicate (pad_count (length (b ∷ bs))) 0 in
    ap (λ xs. get_bytes (length (b ∷ bs)) (at_rest ar xs)) (append_assoc (b ∷ bs) pad rest)
    ∙ get_bytes_split (b ∷ bs) ar (pad ++ rest) rest (omega arith)
        (skip_pad_ok (length (b ∷ bs)) rest)

-- What `get_bytes` may do on an aligned buffer that holds the data.
abbrev pub BytesSound : ℕ → GetArchive → Result (List ℕ × GetArchive) → Type 0
BytesSound len ar (ok (bs, ar')) =
    (length bs ≡ len)
    × All IsByte bs
    × (ar.rest ≡ padded bs ++ ar'.rest)
    × (ar' ≡ at_rest ar ar'.rest)
BytesSound len ar (err e) = is_runtime_error e ≡ true

copied_sound :
    (len : ℕ) (ar : GetArchive) (r : Result (List ℕ))
    → All IsByte ar.rest
    → len ≤ length ar.rest
    → PadSound (pad_count len) (drop len ar.rest) r
    → BytesSound len ar (r >>= λ rest. ok (take len ar.rest, at_rest ar rest))
copied_sound len ar (ok rest) h hl pad =
    let e : length (take len ar.rest) ≡ len = omega (arith, length-take len ar.rest) in
    (
      e,
      All-take IsByte len ar.rest h,
      sym (take-append-drop len ar.rest)
          ∙ ap (◌++◌ (take len ar.rest)) pad
          ∙ rw e (sym (append_assoc (take len ar.rest) (replicate (pad_count len) 0) rest)),
      refl,
    )
copied_sound len ar (err e) h hl pad = pad

pub get_bytes_sound :
    (len : ℕ) (ar : GetArchive)
    → All IsByte ar.rest
    → length ar.rest % 4 ≡ 0
    → len ≤ length ar.rest
    → BytesSound len ar (get_bytes len ar)
unfolding get_bytes
get_bytes_sound zero ar h al hl = (refl, tt, refl, refl)
get_bytes_sound (suc len) ar h al hl = rw (get_bytes-copy_lem (suc len) ar (omega arith) hl) (
    copied_sound (suc len) ar _ h hl (
      skip_pad_sound (suc len) (drop (suc len) ar.rest)
        (omega (arith, length-drop (suc len) ar.rest))))

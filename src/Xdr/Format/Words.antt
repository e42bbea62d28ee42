-- ===== src/Xdr/Format/Words.antt =====
-- The formats of 32-bit and 64-bit numbers.
use cs244b.Base.{
  ℕ, ◌+◌, ◌-◌, ◌*◌, ◌/◌, ◌%◌, ◌≤◌, ◌≡◌, refl, ap₂, ◌∙◌, true, List, [], ◌∷◌, ◌++◌, length,
  length-append, All, All-append_right, ap, arith, leb, append_assoc,
}
use cs244b.Xdr.Word.{
  u32_mod, IsByte, IsU32, IsU64, be32, get64, word_of, put32-be32, get32-be32, get32-of_be32,
  be32-of_be32, of_be32, put64-be32, get64-words, get64-load_be,
}
use cs244b.Xdr.Error.{ok, is_runtime_error}
use cs244b.Xdr.Archive.{PutArchive, GetArchive, put_u32, put_u64, get_u32, get_u64}
use cs244b.Xdr.Codec.{u32, u64}
use cs244b.Xdr.Format.{Format, Implements, GetSound, stored, at_rest}

abbrev pub u32_format : Format ℕ
u32_format = record { IsValid = IsU32; bytes = be32; depth = λ _. 0 }

abbrev pub be64 : ℕ → List ℕ
be64 u = be32 (u / u32_mod % u32_mod) ++ be32 (u % u32_mod)

abbrev pub u64_format : Format ℕ
u64_format = record { IsValid = IsU64; bytes = be64; depth = λ _. 0 }

pub length-be32 : (v : ℕ) → length (be32 v) ≡ 4
unfolding be32
length-be32 v = refl

pub length-be64 : (v : ℕ) → length (be64 v) ≡ 8
unfolding be32
length-be64 v = refl

-- Two stores, one after the other, are a store of the two together.
pub stored-stored :
    (ar : PutArchive) (bs cs : List ℕ) → stored (stored ar bs) cs ≡ stored ar (bs ++ cs)
stored-stored ar bs cs =
    let e : ar.room - length bs - length cs ≡ ar.room - length (bs ++ cs) =
      omega (arith, length-append bs cs) in
    λ i. record ar { out = append_assoc ar.out bs cs i; room = e i }

-- What a sound read leaves is again an aligned buffer of bytes.
pub rest-IsByte :
    {all : List ℕ} (bs rest : List ℕ) → all ≡ bs ++ rest → All IsByte all → All IsByte rest
rest-IsByte bs rest e h = All-append_right IsByte bs rest (rw e at h)

pub rest_aligned :
    {all : List ℕ} (bs rest : List ℕ)
    → all ≡ bs ++ rest
    → length bs % 4 ≡ 0
    → length all % 4 ≡ 0
    → length rest % 4 ≡ 0
rest_aligned bs rest e hb h = omega (arith, ap length e, length-append bs rest)

pub put_u32_ok :
    (v : ℕ) (ar : PutArchive) → IsU32 v → 4 ≤ ar.room → put_u32 v ar ≡ ok (stored ar (be32 v))
unfolding put_u32
put_u32_ok v ar h k = rw (put32-be32 ar.big v h) (ground (arith, length-be32 v))

pub put_u64_ok :
    (v : ℕ) (ar : PutArchive) → IsU64 v → 8 ≤ ar.room → put_u64 v ar ≡ ok (stored ar (be64 v))
unfolding put_u64
put_u64_ok v ar h k = rw (put64-be32 ar.big v h) (ground (arith, length-be64 v))

pub get_u32_ok :
    (v : ℕ) (ar : GetArchive) (rest : List ℕ)
    → IsU32 v
    → get_u32 (at_rest ar (be32 v ++ rest)) ≡ ok (v, at_rest ar rest)
unfolding get_u32 be32
get_u32_ok v ar rest h = ground (arith, get32-be32 ar.big v)

pub get_u64_ok :
    (v : ℕ) (ar : GetArchive) (rest : List ℕ)
    → IsU64 v
    → get_u64 (at_rest ar (be64 v ++ rest)) ≡ ok (v, at_rest ar rest)
unfolding get_u64 be32
get_u64_ok v ar rest h = ground (arith, get64-load_be ar.big (v / u32_mod % u32_mod) (v % u32_mod))

-- Four bytes at the front are a word, and enough of them for `check`.
u32_sound :
    (ar : GetArchive) (rest : List ℕ)
    → All IsByte rest
    → GetSound u32_format (at_rest ar rest) (get_u32 (at_rest ar rest))
unfolding get_u32 is_runtime_error
u32_sound ar [] h = refl
u32_sound ar (a ∷ []) h = refl
u32_sound ar (a ∷ b ∷ []) h = refl
u32_sound ar (a ∷ b ∷ c ∷ []) h = refl
u32_sound ar (a ∷ b ∷ c ∷ d ∷ rest) (ha, (hb, (hc, (hd, hs)))) =
    let e : leb 4 (length (a ∷ b ∷ c ∷ d ∷ rest)) ≡ true = ground arith in
    rw (e, get32-of_be32 ar.big a b c d ha hb hc hd)
      (omega arith, omega arith, rw (be32-of_be32 a b c d ha hb hc hd), refl)

pub get_u32_sound : (ar : GetArchive) → All IsByte ar.rest → GetSound u32_format ar (get_u32 ar)
get_u32_sound ar h = u32_sound ar ar.rest h

be64-halves : (h l : ℕ) → IsU32 h → IsU32 l → be64 (h * u32_mod + l) ≡ be32 h ++ be32 l
be64-halves h l hh hl =
    let e : (h * u32_mod + l) / u32_mod % u32_mod ≡ h = omega arith in
    let f : (h * u32_mod + l) % u32_mod ≡ l = omega arith in rw (e, f)

u64_sound :
    (ar : GetArchive) (rest : List ℕ)
    → All IsByte rest
    → GetSound u64_format (at_rest ar rest) (get_u64 (at_rest ar rest))
unfolding get_u64 is_runtime_error
u64_sound ar [] h = refl
u64_sound ar (a ∷ []) h = refl
u64_sound ar (a ∷ b ∷ []) h = refl
u64_sound ar (a ∷ b ∷ c ∷ []) h = refl
u64_sound ar (a ∷ b ∷ c ∷ d ∷ []) h = refl
u64_sound ar (a ∷ b ∷ c ∷ d ∷ a' ∷ []) h = refl
u64_sound ar (a ∷ b ∷ c ∷ d ∷ a' ∷ b' ∷ []) h = refl
u64_sound ar (a ∷ b ∷ c ∷ d ∷ a' ∷ b' ∷ c' ∷ []) h = refl
u64_sound ar (a ∷ b ∷ c ∷ d ∷ a' ∷ b' ∷ c' ∷ d' ∷ rest)
      (ha, (hb, (hc, (hd, (ha', (hb', (hc', (hd', hs)))))))) =
    let x : ℕ = of_be32 a b c d in
    let y : ℕ = of_be32 a' b' c' d' in
    let e : leb 8 (length (a ∷ b ∷ c ∷ d ∷ a' ∷ b' ∷ c' ∷ d' ∷ rest)) ≡ true = ground arith in
    let word : get64 ar.big (word_of ar.big a b c d) (word_of ar.big a' b' c' d')
        ≡ x * u32_mod + y =
      omega (
        arith,
        get64-words ar.big a b c d a' b' c' d',
        get32-of_be32 ar.big a b c d ha hb hc hd,
        get32-of_be32 ar.big a' b' c' d' ha' hb' hc' hd',
      ) in
    let bytes : be64 (x * u32_mod + y) ≡ a ∷ b ∷ c ∷ d ∷ a' ∷ b' ∷ c' ∷ d' ∷ [] =
      be64-halves x y (omega arith) (omega arith)
      ∙ ap₂ ◌++◌ (be32-of_be32 a b c d ha hb hc hd) (be32-of_be32 a' b' c' d' ha' hb' hc' hd') in
    rw (e, word) (omega arith, omega arith, rw bytes, refl)

pub get_u64_sound : (ar : GetArchive) → All IsByte ar.rest → GetSound u64_format ar (get_u64 ar)
get_u64_sound ar h = u64_sound ar ar.rest h

pub u32-Implements : Implements u32 u32_format
unfolding u32
u32-Implements = record {
  size_eq = λ v h. rw (length-be32 v);
  aligned = λ v h. rw (length-be32 v);
  put_ok = λ v ar h k _. put_u32_ok v ar h (omega (arith, length-be32 v));
  get_ok = λ v ar rest h _. get_u32_ok v ar rest h;
  get_sound = λ ar h _. get_u32_sound ar h;
}

pub u64-Implements : Implements u64 u64_format
unfolding u64
u64-Implements = record {
  size_eq = λ v h. rw (length-be64 v);
  aligned = λ v h. rw (length-be64 v);
  put_ok = λ v ar h k _. put_u64_ok v ar h (omega (arith, length-be64 v));
  get_ok = λ v ar rest h _. get_u64_ok v ar rest h;
  get_sound = λ ar h _. get_u64_sound ar h;
}

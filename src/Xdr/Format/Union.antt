-- ===== src/Xdr/Format/Union.antt =====
-- The format of unions: the discriminant, then the field that it selects. An `Arm` is a codec for
-- the values of one discriminant.
use cs244b.Base.{
  ℕ, ◌+◌, ◌%◌, ◌≤◌, ◌≡◌, refl, ap, ◌∙◌, Option, none, some, List, ◌++◌, length, length-append,
  append_assoc, All, arith, split_trans,
}
use cs244b.Xdr.Word.{IsByte, IsU32, be32}
use cs244b.Xdr.Error.{Result, ok, err, ◌>>=◌, is_runtime_error, bad_discriminant}
use cs244b.Xdr.Archive.{PutArchive, GetArchive, get_u32}
use cs244b.Xdr.Codec.{Codec, union, arm_of}
use cs244b.Xdr.Format.{Format, Implements, GetSound, stored, at_rest}
use cs244b.Xdr.Format.Words.{
  length-be32, put_u32_ok, get_u32_ok, get_u32_sound, u32_format, stored-stored, rest-IsByte,
  rest_aligned,
}

-- `body` describes what stands behind the discriminant.
abbrev pub union_format : {A : Type 0} → (A → ℕ) → Format A → Format A
union_format tag body = record {
  IsValid = λ a. IsU32 (tag a) × body.IsValid a;
  bytes = λ a. be32 (tag a) ++ body.bytes a;
  depth = body.depth;
}

-- `body` seen at the values of one discriminant.
abbrev pub at_tag : {A : Type 0} → (A → ℕ) → Format A → ℕ → Format A
at_tag tag body which = record {
  IsValid = λ a. (tag a ≡ which) × body.IsValid a;
  bytes = body.bytes;
  depth = body.depth;
}

module _ {A : Type 0} (tag : A → ℕ) (arm : ℕ → Option (Codec A)) (body : Format A)
    (select : (a : A) → body.IsValid a → (c : Codec A) × (arm (tag a) ≡ some c))
    (arms : (which : ℕ) (c : Codec A)
      → arm which ≡ some c
      → Implements c (at_tag tag body which)) where
  union_size :
      (a : A)
      → (union_format tag body).IsValid a
      → (union tag arm).serial_size a ≡ ok (length ((union_format tag body).bytes a))
  unfolding union
  union_size a (ht, v) =
      let (c, e) = select a v in
      let h = arms (tag a) c e in
      rw (e, h.size_eq a (refl, v), length-append (be32 (tag a)) (body.bytes a))
        (ap ok (omega (arith, length-be32 (tag a))))

  union_put :
      (a : A) (ar : PutArchive)
      → (union_format tag body).IsValid a
      → length ((union_format tag body).bytes a) ≤ ar.room
      → body.depth a ≤ ar.stack_limit
      → (union tag arm).put a ar ≡ ok (stored ar ((union_format tag body).bytes a))
  unfolding union
  union_put a ar (ht, v) hr hl =
      let (c, e) = select a v in
      let n : length (be32 (tag a) ++ body.bytes a) ≡ 4 + length (body.bytes a) =
        length-append (be32 (tag a)) (body.bytes a)
        ∙ ap (λ k. k + length (body.bytes a)) (length-be32 (tag a)) in
      rw (put_u32_ok (tag a) ar ht (omega arith), e)
        ((arms (tag a) c e).put_ok a (stored ar (be32 (tag a))) (refl, v)
            (omega (arith, length-be32 (tag a))) hl
          ∙ ap ok (stored-stored ar (be32 (tag a)) (body.bytes a)))

  union_get :
      (a : A) (ar : GetArchive) (rest : List ℕ)
      → (union_format tag body).IsValid a
      → body.depth a ≤ ar.stack_limit
      → (union tag arm).get (at_rest ar ((union_format tag body).bytes a ++ rest))
        ≡ ok (a, at_rest ar rest)
  unfolding union
  union_get a ar rest (ht, v) hl =
      let (c, e) = select a v in
      rw (
        append_assoc (be32 (tag a)) (body.bytes a) rest,
        get_u32_ok (tag a) ar (body.bytes a ++ rest) ht,
        e,
        (arms (tag a) c e).get_ok a ar rest (refl, v) hl,
      )

  -- A sound read of the field behind a sound read of the discriminant.
  union_field :
      (ar ar' : GetArchive) (which : ℕ) (r : Result (A × GetArchive))
      → IsU32 which
      → ar.rest ≡ be32 which ++ ar'.rest
      → ar' ≡ at_rest ar ar'.rest
      → GetSound (at_tag tag body which) ar' r
      → GetSound (union_format tag body) ar r
  union_field ar ar' which (err e) hw split same h = h
  union_field ar ar' which (ok (a, last)) hw split same ((t, v), dp, split', same') =
      let limit : ar'.stack_limit ≡ ar.stack_limit = ap (λ x. x.stack_limit) same in
      (
        (omega arith, v),
        omega arith,
        split_trans (be32 (tag a)) (body.bytes a) last.rest (rw t split) split',
        same' ∙ ap (λ x. at_rest x last.rest) same,
      )

  union_arm :
      (ar ar' : GetArchive) (which : ℕ) (o : Option (Codec A))
      → arm which ≡ o
      → IsU32 which
      → All IsByte ar'.rest
      → length ar'.rest % 4 ≡ 0
      → ar.rest ≡ be32 which ++ ar'.rest
      → ar' ≡ at_rest ar ar'.rest
      → GetSound
          (union_format tag body)
          ar
          (elim o [ none ↦ err bad_discriminant | some c ↦ c.get ar' ])
  unfolding is_runtime_error
  union_arm ar ar' which none e hw h al split same = refl
  union_arm ar ar' which (some c) e hw h al split same =
      union_field ar ar' which (c.get ar') hw split same ((arms which c e).get_sound ar' h al)

  union_sound :
      (ar : GetArchive) (r : Result (ℕ × GetArchive))
      → All IsByte ar.rest
      → length ar.rest % 4 ≡ 0
      → GetSound u32_format ar r
      → GetSound (union_format tag body) ar (do
        (which, ar') ← r
        elim (arm which) [ none ↦ err bad_discriminant | some c ↦ c.get ar' ])
  union_sound ar (err e) h al s = s
  union_sound ar (ok (which, ar')) h al (hw, _, split, same) =
      union_arm ar ar' which (arm which) refl hw (rest-IsByte (be32 which) ar'.rest split h)
        (rest_aligned (be32 which) ar'.rest split (rw (length-be32 which)) al) split same

  union_aligned :
      (a : A) → (union_format tag body).IsValid a → length ((union_format tag body).bytes a) % 4 ≡ 0
  union_aligned a (ht, v) =
      let (c, e) = select a v in
      omega (
        arith,
        length-append (be32 (tag a)) (body.bytes a),
        length-be32 (tag a),
        (arms (tag a) c e).aligned a (refl, v),
      )

  pub union-Implements : Implements (union tag arm) (union_format tag body)
  unfolding union
  union-Implements = record {
    size_eq = union_size;
    aligned = union_aligned;
    put_ok = union_put;
    get_ok = union_get;
    get_sound = λ ar h al. union_sound ar (get_u32 ar) h al (get_u32_sound ar h);
  }

-- The contract of one arm from that of the field's codec.
module _ {A B : Type 0} {c : Codec B} {f : Format B} (tag : A → ℕ) (body : Format A) (which : ℕ)
    (project : A → Option B) (inject : B → A)
    (project-inject : (b : B) → project (inject b) ≡ some b)
    (tag-inject : (b : B) → tag (inject b) ≡ which)
    (valid : (b : B) → f.IsValid b → body.IsValid (inject b))
    (cases : (a : A) → tag a ≡ which → body.IsValid a → (b : B) × (a ≡ inject b) × f.IsValid b)
    (bytes_eq : (b : B) → body.bytes (inject b) ≡ f.bytes b)
    (depth_eq : (b : B) → body.depth (inject b) ≡ f.depth b) (hc : Implements c f) where
  arm_size :
      (a : A)
      → (at_tag tag body which).IsValid a
      → (arm_of project inject c).serial_size a ≡ ok (length (body.bytes a))
  unfolding arm_of
  arm_size a (t, v) =
      let (b, e, vb) = cases a t v in rw (e, project-inject b, bytes_eq b) (hc.size_eq b vb)

  arm_aligned : (a : A) → (at_tag tag body which).IsValid a → length (body.bytes a) % 4 ≡ 0
  arm_aligned a (t, v) = let (b, e, vb) = cases a t v in rw (e, bytes_eq b) (hc.aligned b vb)

  arm_put :
      (a : A) (ar : PutArchive)
      → (at_tag tag body which).IsValid a
      → length (body.bytes a) ≤ ar.room
      → body.depth a ≤ ar.stack_limit
      → (arm_of project inject c).put a ar ≡ ok (stored ar (body.bytes a))
  unfolding arm_of
  arm_put a ar (t, v) hr hl =
      let (b, e, vb) = cases a t v in
      let room : length (f.bytes b) ≤ ar.room = rw (e, bytes_eq b) at hr in
      let limit : f.depth b ≤ ar.stack_limit = rw (e, depth_eq b) at hl in
      rw (e, project-inject b, bytes_eq b) (hc.put_ok b ar vb room limit)

  arm_get :
      (a : A) (ar : GetArchive) (rest : List ℕ)
      → (at_tag tag body which).IsValid a
      → body.depth a ≤ ar.stack_limit
      → (arm_of project inject c).get (at_rest ar (body.bytes a ++ rest)) ≡ ok (a, at_rest ar rest)
  unfolding arm_of
  arm_get a ar rest (t, v) hl =
      let (b, e, vb) = cases a t v in
      let limit : f.depth b ≤ ar.stack_limit = rw (e, depth_eq b) at hl in
      rw (e, bytes_eq b, hc.get_ok b ar rest vb limit)

  arm_result :
      (ar : GetArchive) (r : Result (B × GetArchive))
      → GetSound f ar r
      → GetSound (at_tag tag body which) ar (r >>= λ p. ok (inject p.0, p.1))
  arm_result ar (err e) h = h
  arm_result ar (ok (b, ar')) (v, dp, split, same) =
      ((tag-inject b, valid b v), rw (depth_eq b) dp, rw (bytes_eq b) split, same)

  pub arm-Implements : Implements (arm_of project inject c) (at_tag tag body which)
  unfolding arm_of
  arm-Implements = record {
    size_eq = arm_size;
    aligned = arm_aligned;
    put_ok = arm_put;
    get_ok = arm_get;
    get_sound = λ ar h al. arm_result ar (c.get ar) (hc.get_sound ar h al);
  }

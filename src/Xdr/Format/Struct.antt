-- ===== src/Xdr/Format/Struct.antt =====
-- The formats of structs, tuples and nesting: fields one after the other.
use cs244b.Base.{
  ℕ, suc, ◌+◌, ◌-◌, ◌%◌, ◌≤◌, ◌<◌, ◌≡◌, refl, ap, ◌∙◌, false, List, [], ◌++◌, length, length-append,
  append_assoc, append-nil, All, arith, max, ◌==◌, split_trans, Bool-cases, inl, inr,
}
use cs244b.Xdr.Word.{IsByte}
use cs244b.Xdr.Error.{Result, ok, err, ◌>>=◌, is_runtime_error}
use cs244b.Xdr.Archive.{PutArchive, GetArchive, put_nested, get_nested}
use cs244b.Xdr.Codec.{Codec, void, pair, fields, nested}
use cs244b.Xdr.Format.{Format, Implements, GetSound, stored, at_rest}
use cs244b.Xdr.Format.Words.{stored-stored, rest-IsByte, rest_aligned}

abbrev pub void_format : Format (Unit {0})
void_format = record { IsValid = λ _. Unit {0}; bytes = λ _. []; depth = λ _. 0 }

abbrev pub pair_format : {A B : Type 0} → Format A → Format B → Format (A × B)
pair_format f g = record {
  IsValid = λ p. f.IsValid p.0 × g.IsValid p.1;
  bytes = λ p. f.bytes p.0 ++ g.bytes p.1;
  depth = λ p. max (f.depth p.0) (g.depth p.1);
}

abbrev pub fields_format : {A B : Type 0} → (A → B) → Format B → Format A
fields_format to f = record {
  IsValid = λ a. f.IsValid (to a);
  bytes = λ a. f.bytes (to a);
  depth = λ a. f.depth (to a);
}

abbrev pub nested_format : {A : Type 0} → Format A → Format A
nested_format f = record { IsValid = f.IsValid; bytes = f.bytes; depth = λ a. suc (f.depth a) }

pub void-Implements : Implements void void_format
unfolding void
void-Implements = record {
  size_eq = λ a h. refl;
  aligned = λ a h. refl;
  put_ok = λ a ar h k _. rw append-nil (ground arith);
  get_ok = λ a ar rest h _. refl;
  get_sound = λ ar h al. (tt, omega arith, refl, refl);
}

module _ {A B : Type 0} {c : Codec A} {d : Codec B} {f : Format A} {g : Format B}
    (hc : Implements c f) (hd : Implements d g) where
  pair_put :
      (p : A × B) (ar : PutArchive)
      → (pair_format f g).IsValid p
      → length ((pair_format f g).bytes p) ≤ ar.room
      → (pair_format f g).depth p ≤ ar.stack_limit
      → (pair c d).put p ar ≡ ok (stored ar ((pair_format f g).bytes p))
  unfolding pair
  pair_put (a, b) ar (va, vb) hr hl =
      let e : length (f.bytes a ++ g.bytes b) ≡ length (f.bytes a) + length (g.bytes b) =
        length-append (f.bytes a) (g.bytes b) in
      rw (hc.put_ok a ar va (omega arith) (omega arith)) (
        hd.put_ok b (stored ar (f.bytes a)) vb (omega arith) (omega arith)
        ∙ ap ok (stored-stored ar (f.bytes a) (g.bytes b)))

  pair_get :
      (p : A × B) (ar : GetArchive) (rest : List ℕ)
      → (pair_format f g).IsValid p
      → (pair_format f g).depth p ≤ ar.stack_limit
      → (pair c d).get (at_rest ar ((pair_format f g).bytes p ++ rest)) ≡ ok (p, at_rest ar rest)
  unfolding pair
  pair_get (a, b) ar rest (va, vb) hl = rw (
    append_assoc (f.bytes a) (g.bytes b) rest,
    hc.get_ok a ar (g.bytes b ++ rest) va (omega arith),
    hd.get_ok b ar rest vb (omega arith),
  )

  -- The second field behind a sound first one.
  pair_second :
      (ar ar' : GetArchive) (a : A) (r : Result (B × GetArchive))
      → f.IsValid a
      → f.depth a ≤ ar.stack_limit
      → ar.rest ≡ f.bytes a ++ ar'.rest
      → ar' ≡ at_rest ar ar'.rest
      → GetSound g ar' r
      → GetSound (pair_format f g) ar (r >>= λ p. ok ((a, p.0), p.1))
  pair_second ar ar' a (err e) va da split same h = h
  pair_second ar ar' a (ok (b, last)) va da split same (vb, db, split', same') =
      let limit : ar'.stack_limit ≡ ar.stack_limit = ap (λ x. x.stack_limit) same in
      (
        (va, vb),
        omega arith,
        split_trans (f.bytes a) (g.bytes b) last.rest split split',
        same' ∙ ap (λ x. at_rest x last.rest) same,
      )

  pair_first :
      (ar : GetArchive) (r : Result (A × GetArchive))
      → All IsByte ar.rest
      → length ar.rest % 4 ≡ 0
      → GetSound f ar r
      → GetSound (pair_format f g) ar (do (a, ar') ← r; (b, ar'') ← d.get ar'; ok ((a, b), ar''))
  pair_first ar (err e) h al s = s
  pair_first ar (ok (a, ar')) h al (va, da, split, same) =
      pair_second ar ar' a (d.get ar') va da split same (
        hd.get_sound ar' (rest-IsByte (f.bytes a) ar'.rest split h)
          (rest_aligned (f.bytes a) ar'.rest split (hc.aligned a va) al))

  pub pair-Implements : Implements (pair c d) (pair_format f g)
  unfolding pair
  pair-Implements = record {
    size_eq = λ p v. rw (hc.size_eq p.0 v.0, hd.size_eq p.1 v.1, length-append (f.bytes p.0));
    aligned = λ p v.
        omega (
          arith,
          length-append (f.bytes p.0) (g.bytes p.1),
          hc.aligned p.0 v.0,
          hd.aligned p.1 v.1,
        );
    put_ok = pair_put;
    get_ok = pair_get;
    get_sound = λ ar h al. pair_first ar (c.get ar) h al (hc.get_sound ar h al);
  }

module _ {A B : Type 0} {c : Codec B} {f : Format B} (to : A → B) (from : B → A)
    (to-from : (b : B) → to (from b) ≡ b) (from-to : (a : A) → from (to a) ≡ a)
    (hc : Implements c f) where
  fields_result :
      (ar : GetArchive) (r : Result (B × GetArchive))
      → GetSound f ar r
      → GetSound (fields_format to f) ar (r >>= λ p. ok (from p.0, p.1))
  fields_result ar (err e) h = h
  fields_result ar (ok (b, ar')) h = rw (to-from b) h

  pub fields-Implements : Implements (fields to from c) (fields_format to f)
  unfolding fields
  fields-Implements = record {
    size_eq = λ a v. hc.size_eq (to a) v;
    aligned = λ a v. hc.aligned (to a) v;
    put_ok = λ a. hc.put_ok (to a);
    get_ok = λ a ar rest v hl. rw (hc.get_ok (to a) ar rest v hl, from-to a);
    get_sound = λ ar h al. fields_result ar (c.get ar) (hc.get_sound ar h al);
  }

module _ {A : Type 0} {c : Codec A} {f : Format A} (hc : Implements c f) where
  nested_put :
      (a : A) (ar : PutArchive)
      → f.IsValid a
      → length (f.bytes a) ≤ ar.room
      → f.depth a < ar.stack_limit
      → put_nested (c.put a) ar ≡ ok (stored ar (f.bytes a))
  unfolding put_nested
  nested_put a ar v hr hl =
      let e : (ar.stack_limit == 0) ≡ false = ground arith in
      let k : ar.stack_limit - 1 + 1 ≡ ar.stack_limit = omega arith in
      rw (e, hc.put_ok a (record ar { stack_limit = ar.stack_limit - 1 }) v hr (omega arith))
        (ap (λ n. ok (record (stored ar (f.bytes a)) { stack_limit = n })) k)

  nested_get :
      (a : A) (ar : GetArchive) (rest : List ℕ)
      → f.IsValid a
      → f.depth a < ar.stack_limit
      → get_nested c.get (at_rest ar (f.bytes a ++ rest)) ≡ ok (a, at_rest ar rest)
  unfolding get_nested
  nested_get a ar rest v hl =
      let e : (ar.stack_limit == 0) ≡ false = ground arith in
      let k : ar.stack_limit - 1 + 1 ≡ ar.stack_limit = omega arith in
      rw (e, hc.get_ok a (record ar { stack_limit = ar.stack_limit - 1 }) rest v (omega arith))
        (ap (λ n. ok (a, record (at_rest ar rest) { stack_limit = n })) k)

  nested_result :
      (ar : GetArchive) (r : Result (A × GetArchive))
      → 0 < ar.stack_limit
      → GetSound f (record ar { stack_limit = ar.stack_limit - 1 }) r
      → GetSound
          (nested_format f)
          ar
          (r >>= λ p. ok (p.0, record p.1 { stack_limit = p.1.stack_limit + 1 }))
  nested_result ar (err e) hl h = h
  nested_result ar (ok (a, ar')) hl (v, dp, split, same) =
      let k : ar.stack_limit - 1 + 1 ≡ ar.stack_limit = omega arith in
      (
        v,
        omega arith,
        split,
        ap {B = GetArchive} (λ x. record x { stack_limit = x.stack_limit + 1 }) same
            ∙ ap (λ n. record (at_rest ar ar'.rest) { stack_limit = n }) k,
      )

  nested_sound :
      (ar : GetArchive)
      → All IsByte ar.rest
      → length ar.rest % 4 ≡ 0
      → GetSound (nested_format f) ar (get_nested c.get ar)
  unfolding get_nested is_runtime_error
  nested_sound ar h al = elim (Bool-cases (ar.stack_limit == 0)) [
    | inl e ↦ rw e refl
    | inr e ↦ rw e (
        nested_result ar _ (ground arith)
          (hc.get_sound (record ar { stack_limit = ar.stack_limit - 1 }) h al))
  ]

  pub nested-Implements : Implements (nested c) (nested_format f)
  unfolding nested
  nested-Implements = record {
    size_eq = hc.size_eq;
    aligned = hc.aligned;
    put_ok = λ a ar v hr hl. nested_put a ar v hr hl;
    get_ok = λ a ar rest v hl. nested_get a ar rest v hl;
    get_sound = λ ar h al. nested_sound ar h al;
  }

-- ===== src/Rpc/Tracing/Critical.antt =====
-- The path that the critical-path tracing of xdrpp/arpc.h chooses.
use cs244b.Base.{
  ℕ, ◌≤◌, ◌<◌, ◌≡◌, refl, sym, ap, ◌∙◌, subst, append-nil, ◌⊎◌, inl, inr, List, [], ◌∷◌, ◌++◌, ltb,
  Bool, if◌then◌else◌, Bool-cases, All, All-append, append_assoc, arith,
}
use cs244b.Rpc.Tracing.{Entry, longest, all_paths}

-- Every time is at most `time`; and either there is no time but 0, and no path, or the path is that
-- of the first entry with the time `time`.
pub record IsCritical (es : List Entry) (time : ℕ) (path : List ℕ) : Type 0 where
  pub bounded : All (λ (e : Entry). e.1 ≤ time) es
  pub first :
      ((time ≡ 0) × (path ≡ []))
      ⊎ ((before : List Entry) × (after : List Entry) × (es ≡ before ++ ((path, time) ∷ after))
          × All (λ (e : Entry). e.1 < time) before)

All-lt_of_le :
    (t u : ℕ) (es : List Entry)
    → t < u
    → All (λ (e : Entry). e.1 ≤ t) es
    → All (λ (e : Entry). e.1 < u) es × All (λ (e : Entry). e.1 ≤ u) es
All-lt_of_le t u [] h a = (tt, tt)
All-lt_of_le t u (e ∷ es) h a =
    let (below, within) = All-lt_of_le t u es h a.1 in
    ((omega (arith, a.0), below), (omega (arith, a.0), within))

-- An entry that is later than the best so far becomes the best.
later-IsCritical :
    (seen : List Entry) (t u : ℕ) (p q : List ℕ)
    → IsCritical seen t p
    → t < u
    → IsCritical (seen ++ ((q, u) ∷ [])) u q
later-IsCritical seen t u p q c h =
    let (below, within) = All-lt_of_le t u seen h c.bounded in
    record {
      bounded = All-append (λ (e : Entry). e.1 ≤ u) seen ((q, u) ∷ []) within (omega arith, tt);
      first = inr (seen, [], refl, below);
    }

-- Any other entry leaves it.
earlier-IsCritical :
    (seen : List Entry) (t u : ℕ) (p q : List ℕ)
    → IsCritical seen t p
    → u ≤ t
    → IsCritical (seen ++ ((q, u) ∷ [])) t p
earlier-IsCritical seen t u p q c h = record {
  bounded = All-append (λ (e : Entry). e.1 ≤ t) seen ((q, u) ∷ []) c.bounded (h, tt);
  first = elim c.first [
    | inl nothing ↦ inl nothing
    | inr (before, after, split, below) ↦ inr (
      before,
      after ++ ((q, u) ∷ []),
      ap (λ es. es ++ ((q, u) ∷ [])) split ∙ append_assoc before ((p, t) ∷ after) ((q, u) ∷ []),
      below,
    )
  ];
}

longest_from :
    (seen es : List Entry) (t : ℕ) (p : List ℕ)
    → IsCritical seen t p
    → IsCritical (seen ++ es) (longest es t p).0 (longest es t p).1
unfolding longest
longest_from seen [] t p c = rw append-nil c
longest_from seen ((q, u) ∷ es) t p c =
    let Goal = λ (later : Bool).
      IsCritical (seen ++ ((q, u) ∷ es))
        (longest es (if later then u else t) (if later then q else p)).0
        (longest es (if later then u else t) (if later then q else p)).1 in
    let same = append_assoc seen ((q, u) ∷ []) es in
    elim (Bool-cases (ltb t u)) [
      | inl b ↦ subst Goal (sym b) (
          subst (λ xs. IsCritical xs (longest es u q).0 (longest es u q).1) same
            (longest_from (seen ++ ((q, u) ∷ [])) es u q
              (later-IsCritical seen t u p q c (ground arith))))
      | inr b ↦ subst Goal (sym b) (
          subst (λ xs. IsCritical xs (longest es t p).0 (longest es t p).1) same
            (longest_from (seen ++ ((q, u) ∷ [])) es t p
              (earlier-IsCritical seen t u p q c (ground arith))))
    ]

-- The loop for critical-path tracing ends with a time that no entry exceeds and with the path of
-- the first entry that has it; or, when no entry has a time above 0, with 0 and no path.
pub longest_lem : (es : List Entry) → IsCritical es (longest es 0 []).0 (longest es 0 []).1
longest_lem es = longest_from [] es 0 [] (record { bounded = tt; first = inl (refl, refl) })

-- The paths in their order, each with "; " behind it.
abbrev pub listed : List Entry → List ℕ
listed [] = []
listed ((path, time) ∷ es) = (path ++ (59 ∷ 32 ∷ [])) ++ listed es

pub all_paths_lem : (es : List Entry) (before : List ℕ) → all_paths es before ≡ before ++ listed es
unfolding all_paths
all_paths_lem [] before = sym (append-nil before)
all_paths_lem ((path, time) ∷ es) before =
    all_paths_lem es (before ++ (path ++ (59 ∷ 32 ∷ [])))
    ∙ append_assoc before (path ++ (59 ∷ 32 ∷ [])) (listed es)

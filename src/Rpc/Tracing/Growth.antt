-- ===== src/Rpc/Tracing/Growth.antt =====
-- What the maps of the tracing of xdrpp/arpc.h hold over a run.
use cs244b.Base.{
  ℕ, ◌≡◌, refl, sym, ap, ◌∙◌, subst, Option, none, some, List, [], ◌∷◌, ◌++◌, ◌==◌, if◌then◌else◌,
  Bool-cases, Option-cases, inl, inr, append_assoc, append-nil, arith,
}
use cs244b.Base.Assoc.{find, insert, find-assign, find-insert, insert-found, nat_eq}
use cs244b.Rpc.Tracing.{Floats, Entry, Tracing, with_entry, record_path, start_time, trace_of, off}

-- The paths that are recorded for an xid.
abbrev pub entries : Option (List Entry) → List Entry
entries none = []
entries (some es) = es

find-with_entry :
    (xid j : ℕ) (e : Entry) (m : List (ℕ × List Entry))
    → find j (with_entry xid e (find xid m) m)
      ≡ (if xid == j then some (entries (find xid m) ++ (e ∷ [])) else find j m)
unfolding with_entry
find-with_entry xid j e m = elim (Option-cases (find xid m)) [
  | inl absent ↦ rw absent (find-insert xid j (e ∷ []) m absent)
  | inr (es, there) ↦ rw there (find-assign xid j (es ++ (e ∷ [])) m)
]

-- The paths of each xid behind `record_path`: with the mode OFF they are as before, and
-- otherwise the new one is behind those of its xid.
pub record_path_lem :
    (mode xid j : ℕ) (e : Entry) (t : Tracing)
    → find j (record_path mode xid e t).xid_string_map ≡ (
        if mode == off
        then find j t.xid_string_map
        else if xid == j
        then some (entries (find xid t.xid_string_map) ++ (e ∷ []))
        else find j t.xid_string_map)
unfolding record_path
record_path_lem mode xid j e t = elim (Bool-cases (mode == off)) [
  | inl o ↦ rw o refl
  | inr o ↦ rw o (find-with_entry xid j e t.xid_string_map)
]

-- A start time that is there stays.
abbrev pub Same : Option ℕ → Option ℕ → Type 0
Same none later = Unit {0}
Same (some time) later = later ≡ some time

Same-refl : (o : Option ℕ) → Same o o
Same-refl none = tt
Same-refl (some time) = refl

Same-trans : (o p q : Option ℕ) → Same o p → Same p q → Same o q
Same-trans none p q h k = tt
Same-trans (some time) p q h k = subst (λ x. Same x q) h k

insert-Same : (xid j v : ℕ) (m : List (ℕ × ℕ)) → Same (find j m) (find j (insert xid v m))
insert-Same xid j v m = elim (Option-cases (find j m)) [
  | inl nothing ↦ rw nothing tt
  | inr (w, there) ↦ rw there (elim (Option-cases (find xid m)) [
    | inl absent ↦ ground (arith, find-insert xid j v m absent)
    | inr (u, old) ↦ ap (find j) (insert-found xid v u m old) ∙ there
  ])
]

module _ (f : Floats) where
  -- The steps of a process that change the maps: a request of some mode, with or without the
  -- server's trace, a reply to a call of `async_tier`, and a reply of `reply_cb`.
  pub data Step : Tracing → Tracing → Type 0 where
    request : (t : Tracing) (mode : ℕ) → Step t (record t { trace_mode = mode })
    begin : (t : Tracing) (xid now : ℕ) → Step t (start_time xid now t)
    replied : (t : Tracing) (mode xid : ℕ) (e : Entry) → Step t (record_path mode xid e t)
    answer :
        (t : Tracing) (node_name : List ℕ) (xid now : ℕ) → Step t (trace_of f node_name xid now t).1

  pub data Run (t : Tracing) : Tracing → Type 0 where
    here : Run t t
    next : {u v : Tracing} → Run t u → Step u v → Run t v

  -- The paths of an xid are those from before, and more.
  abbrev pub Keeps : ℕ → Tracing → Tracing → Type 0
  Keeps j t u =
      (more : List Entry) × (entries (find j u.xid_string_map)
        ≡ entries (find j t.xid_string_map) ++ more)

  record_path-Keeps :
      (mode xid j : ℕ) (e : Entry) (t : Tracing) → Keeps j t (record_path mode xid e t)
  record_path-Keeps mode xid j e t = elim (Bool-cases (mode == off)) [
    | inl o ↦ ([], ap entries (record_path_lem mode xid j e t) ∙ rw o (sym (append-nil _)))
    | inr o ↦ elim (Bool-cases (xid == j)) [
      | inl same ↦
          let k : xid ≡ j = ground arith in
          (
            e ∷ [],
            ap entries (record_path_lem mode xid j e t)
                ∙ rw (o, same) (ap (λ i. entries (find i t.xid_string_map) ++ (e ∷ [])) k),
          )
      | inr other ↦
          ([], ap entries (record_path_lem mode xid j e t) ∙ rw (o, other) (sym (append-nil _)))
    ]
  ]

  Step-Keeps : {t u : Tracing} (j : ℕ) → Step t u → Keeps j t u
  unfolding start_time trace_of
  Step-Keeps j (request t mode) = ([], sym (append-nil _))
  Step-Keeps j (begin t xid now) = ([], sym (append-nil _))
  Step-Keeps j (replied t mode xid e) = record_path-Keeps mode xid j e t
  Step-Keeps j (answer t node_name xid now) = ([], sym (append-nil _))

  record_path-times :
      (mode xid : ℕ) (e : Entry) (t : Tracing)
      → (record_path mode xid e t).xid_time_map ≡ t.xid_time_map
  unfolding record_path
  record_path-times mode xid e t = elim (Bool-cases (mode == off)) [
    | inl o ↦ rw o refl
    | inr o ↦ rw o refl
  ]

  Step-Same :
      {t u : Tracing} (j : ℕ) → Step t u → Same (find j t.xid_time_map) (find j u.xid_time_map)
  unfolding start_time trace_of
  Step-Same j (request t mode) = Same-refl (find j t.xid_time_map)
  Step-Same j (begin t xid now) = insert-Same xid j now t.xid_time_map
  Step-Same j (replied t mode xid e) =
      subst (λ m. Same (find j t.xid_time_map) (find j m)) (sym (record_path-times mode xid e t))
        (Same-refl (find j t.xid_time_map))
  Step-Same j (answer t node_name xid now) = insert-Same xid j 0 t.xid_time_map

  -- In every run of requests, replies to the calls of `async_tier`, and replies of `reply_cb`,
  -- the paths recorded for an xid only grow at their end, and a start time that is there for an
  -- xid is never replaced: nothing of one call is gone when its xid is used again.
  pub Run-Keeps :
      {t u : Tracing} (j : ℕ)
      → Run t u
      → Keeps j t u × Same (find j t.xid_time_map) (find j u.xid_time_map)
  Run-Keeps {t} j here = (([], sym (append-nil _)), Same-refl (find j t.xid_time_map))
  Run-Keeps {t} {u} j (next {u = v} r st) =
      let ((more, e), same) = Run-Keeps j r in
      let (last, e') = Step-Keeps j st in
      (
        (more ++ last, e' ∙ ap (λ es. es ++ last) e ∙ append_assoc _ more last),
        Same-trans (find j t.xid_time_map) (find j v.xid_time_map) (find j u.xid_time_map) same
            (Step-Same j st),
      )

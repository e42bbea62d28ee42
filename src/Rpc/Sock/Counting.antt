-- ===== src/Rpc/Sock/Counting.antt =====
-- How often a callback occurs among the calls that wait in an `rpc_sock` of xdrpp/msgsock.h, and
-- among the actions of an operation.
use cs244b.Base.{
  ℕ, ◌+◌, ◌≡◌, refl, sym, ap, ◌∙◌, false, none, some, List, [], ◌∷◌, ◌++◌, ◌==◌, if◌then◌else◌,
  arith, Bool-cases, inl, inr,
}
use mathlib.Core.Option.{some-injective}
use cs244b.Base.Assoc.{Eq, find, insert, erase, find-erase, nat_eq}
use cs244b.Xdr.Error.{Result, ok, err}
use cs244b.Rpc.Sock.{RpcSock, Action, call_back, serve, put, aborted}

module _ {C : Type 0} ⦃e : Eq C⦄ where
  abbrev pub count : C → List C → ℕ
  count c [] = 0
  count c (d ∷ ds) = (if e.same c d then 1 else 0) + count c ds

  pub count-append : (c : C) (xs ys : List C) → count c (xs ++ ys) ≡ count c xs + count c ys
  count-append c [] ys = omega arith
  count-append c (x ∷ xs) ys = omega (arith, count-append c xs ys)

  -- The callbacks that wait, and those that some actions call.
  abbrev pub waiting : List (ℕ × C) → List C
  waiting [] = []
  waiting ((x, cb) ∷ calls) = cb ∷ waiting calls

  abbrev pub called : List (Action C) → List C
  called [] = []
  called (call_back cb msg ∷ acts) = cb ∷ called acts
  called (serve msg ∷ acts) = called acts
  called (put msg ∷ acts) = called acts

  -- No xid stands for two calls.
  abbrev pub IsUnique : List (ℕ × C) → Type 0
  IsUnique [] = Unit {0}
  IsUnique ((x, cb) ∷ calls) = (find x calls ≡ none) × IsUnique calls

  pub called-append : (us vs : List (Action C)) → called (us ++ vs) ≡ called us ++ called vs
  called-append [] vs = refl
  called-append (call_back cb msg ∷ us) vs = ap (◌∷◌ cb) (called-append us vs)
  called-append (serve msg ∷ us) vs = called-append us vs
  called-append (put msg ∷ us) vs = called-append us vs

  pub called-aborted : (calls : List (ℕ × C)) → called (aborted calls) ≡ waiting calls
  called-aborted [] = refl
  called-aborted ((x, cb) ∷ calls) = ap (◌∷◌ cb) (called-aborted calls)

  pub count-insert :
      (c cb : C) (x : ℕ) (calls : List (ℕ × C))
      → find x calls ≡ none
      → count c (waiting (insert x cb calls))
        ≡ count c (waiting calls) + (if e.same c cb then 1 else 0)
  unfolding find insert
  count-insert c cb x [] h = omega arith
  count-insert c cb x ((y, d) ∷ calls) h = elim (Bool-cases (y == x)) [
    | inl k ↦ cc (rw k at h)
    | inr k ↦
        rw k (let r : find x calls ≡ none = rw k at h in omega (arith, count-insert c cb x calls r))
  ]

  insert-keeps :
      (x y : ℕ) (cb : C) (calls : List (ℕ × C))
      → find y calls ≡ none
      → (x == y) ≡ false
      → find y (insert x cb calls) ≡ none
  unfolding find insert
  insert-keeps x y cb [] h k = rw k refl
  insert-keeps x y cb ((z, d) ∷ calls) h k = ground (arith, insert-keeps x y cb calls)

  pub insert-IsUnique :
      (x : ℕ) (cb : C) (calls : List (ℕ × C))
      → find x calls ≡ none
      → IsUnique calls
      → IsUnique (insert x cb calls)
  unfolding find insert
  insert-IsUnique x cb [] h u = (refl, tt)
  insert-IsUnique x cb ((y, d) ∷ calls) h (f, u) = elim (Bool-cases (y == x)) [
    | inl k ↦ cc (rw k at h)
    | inr k ↦
        let r : find x calls ≡ none = rw k at h in
        let k' : (x == y) ≡ false = ground arith in
        rw k (insert-keeps x y cb calls f k', insert-IsUnique x cb calls r u)
  ]

  erase-absent : (x : ℕ) (calls : List (ℕ × C)) → find x calls ≡ none → erase x calls ≡ calls
  unfolding find erase
  erase-absent x [] h = refl
  erase-absent x ((y, d) ∷ calls) h = elim (Bool-cases (y == x)) [
    | inl k ↦ cc (rw k at h)
    | inr k ↦ rw k (ap (◌∷◌ (y, d)) (erase-absent x calls (rw k at h)))
  ]

  pub erase-IsUnique : (x : ℕ) (calls : List (ℕ × C)) → IsUnique calls → IsUnique (erase x calls)
  unfolding erase
  erase-IsUnique x [] u = tt
  erase-IsUnique x ((y, d) ∷ calls) (f, u) = elim (Bool-cases (y == x)) [
    | inl k ↦ rw k (erase-IsUnique x calls u)
    | inr k ↦ rw k (
      find-erase x y calls ∙ (elim (Bool-cases (x == y)) [ inl j ↦ rw j refl | inr j ↦ rw j f ]),
      erase-IsUnique x calls u,
    )
  ]

  pub count-erase :
      (c cb : C) (x : ℕ) (calls : List (ℕ × C))
      → find x calls ≡ some cb
      → IsUnique calls
      → (if e.same c cb then 1 else 0) + count c (waiting (erase x calls)) ≡ count c (waiting calls)
  unfolding find erase
  count-erase c cb x [] h u = cc
  count-erase c cb x ((y, d) ∷ calls) h (f, u) = elim (Bool-cases (y == x)) [
    | inl k ↦
        let same : y ≡ x = ground arith in
        let d_is : some d ≡ some cb = rw k at h in
        let absent : find x calls ≡ none = ap (λ z. find z calls) (sym same) ∙ f in
        let gone : erase x calls ≡ calls = erase-absent x calls absent in
        let same_cb : d ≡ cb = some-injective _ _ d_is in rw (k, gone, same_cb) refl
    | inr k ↦ rw k (omega (arith, count-erase c cb x calls (rw k at h) u))
  ]

  -- What an operation may end in: the callbacks that it calls no longer wait, the others still do, and
  -- no xid stands for two calls; or it fails.
  abbrev pub Balanced : C → RpcSock C → Result (RpcSock C × List (Action C)) → Type 0
  Balanced c s (ok (s', acts)) =
      (count c (called acts) + count c (waiting s'.calls) ≡ count c (waiting s.calls))
      × IsUnique s'.calls
  Balanced c s (err x) = Unit {0}

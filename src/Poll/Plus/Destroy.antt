-- ===== src/Poll/Plus/Destroy.antt =====
-- `~pollset_plus` of xdrpp/pollset.cc: its loop ends, unless a callback has been left without an owner.
use cs244b.Base.{
  ℕ, zero, suc, ◌+◌, ◌-◌, ◌≤◌, ◌<◌, Bool, true, false, not, Option, none, some, List, [], ◌∷◌, ◌==◌,
  ◌≡◌, refl, arith, inl, inr, if◌then◌else◌, Option-cases, length, subst, ◌∙◌, ap,
}
use cs244b.Poll.{is_null}
use cs244b.Poll.Plus.{
  Process, done, thrown, own, set_signal_cb, num_sig, up_to, raise_flagged, handler_returns,
  erase_signal_cb, first_cb, destroy, signal_cb, is_valid,
}
use cs244b.Poll.Plus.Lookups.{has_cb, has_cb-set, handler_returns-Same, raise_flagged-Same}
use cs244b.Poll.Plus.Ownership.{Always, IsHeld, HasNoStray, IsHeld-Kept, HasNoStray-Kept, IsOwned}
use cs244b.Poll.Plus.Acts.{Closed, Kept-Closed, Closed-both, erase_signal_cb-Kept}
use cs244b.Poll.Plus.Handlers.{mem, mem-up_to}

count : (ℕ → Bool) → List ℕ → ℕ
count has [] = 0
count has (j ∷ js) = let n = count has js in if has j then n + 1 else n

count-erased_le :
    (f g : ℕ → Bool) (sig : ℕ) (js : List ℕ)
    → ((j : ℕ) → g j ≡ (if j == sig then false else f j))
    → count g js ≤ count f js
unfolding count
count-erased_le f g sig [] e = omega arith
count-erased_le f g sig (j ∷ js) e = ground (arith, e j, count-erased_le f g sig js e)

count-erased :
    (f g : ℕ → Bool) (sig : ℕ) (js : List ℕ)
    → ((j : ℕ) → g j ≡ (if j == sig then false else f j))
    → mem sig js ≡ true
    → f sig ≡ true
    → count g js < count f js
unfolding count
count-erased f g sig [] e m h = absurd (cc)
count-erased f g sig (j ∷ js) e m h =
    ground (arith, e j, count-erased_le f g sig js e, count-erased f g sig js e)

count_le : (has : ℕ → Bool) (js : List ℕ) → count has js ≤ length js
unfolding count
count_le has [] = omega arith
count_le has (j ∷ js) = ground (arith, count_le has js)

module _ {C : Type 0} where
  first_cb-some :
      (cbs : ℕ → Option C) (js : List ℕ) (sig : ℕ)
      → first_cb cbs js ≡ some sig
      → (mem sig js ≡ true) × (is_null (cbs sig) ≡ false)
  unfolding first_cb
  first_cb-some cbs [] sig e = absurd (cc)
  first_cb-some cbs (j ∷ js) sig e = ground (arith, first_cb-some cbs js sig)

  first_cb-none :
      (cbs : ℕ → Option C) (js : List ℕ) (j : ℕ)
      → first_cb cbs js ≡ none
      → mem j js ≡ true
      → is_null (cbs j) ≡ true
  unfolding first_cb
  first_cb-none cbs [] j e m = absurd (cc)
  first_cb-none cbs (k ∷ js) j e m = ground (arith, first_cb-none cbs js j)

  erase-effect :
      (sig p : ℕ) (s : Process C)
      → s.signal_owners sig ≡ some p
      → (t : Process C) × (erase_signal_cb sig false s ≡ done t)
        × ((q j : ℕ)
            → has_cb t q j
              ≡ (if q == p then (if j == sig then false else has_cb s q j) else has_cb s q j))
  unfolding erase_signal_cb has_cb
  erase-effect sig p s e =
      let gone : Process C = set_signal_cb sig none p (own sig none s) in
      let (o, h, w) = handler_returns-Same sig gone in
      let (o', h', w') = raise_flagged-Same sig (handler_returns sig gone) in
      (
        raise_flagged sig (handler_returns sig gone),
        rw e refl,
        λ q j. h' q j ∙ h q j ∙ has_cb-set sig none p (own sig none s) q j,
      )

  IsOwned-Closed : Closed false (IsOwned {C = C})
  IsOwned-Closed =
      Closed-both false IsHeld HasNoStray (Kept-Closed false IsHeld IsHeld-Kept)
        (Kept-Closed false HasNoStray HasNoStray-Kept)

  -- What the loop leaves: the set has no callback, and the others have what they had.
  abbrev pub Destroyed : ℕ → Process C → Process C → Type 0
  Destroyed p s t =
      IsOwned t × ((q j : ℕ) → has_cb t q j ≡ (if q == p then false else has_cb s q j))

  none_left :
      (p : ℕ) (s : Process C)
      → IsOwned s
      → first_cb (s.sets p).signal_cbs (up_to (num_sig - 1)) ≡ none
      → Destroyed p s s
  unfolding has_cb
  none_left p s (held, stray) e = (
    (held, stray),
    λ q j. ground (
      arith,
      first_cb-none (s.sets p).signal_cbs (up_to (num_sig - 1)) j e,
      mem-up_to j 31,
      held j q,
      stray j q,
    ),
  )

  destroy-none :
      (fuel p : ℕ) (s : Process C)
      → first_cb (s.sets p).signal_cbs (up_to (num_sig - 1)) ≡ none
      → destroy (suc fuel) p s ≡ some s
  unfolding destroy
  destroy-none fuel p s e = rw e refl

  destroy-some :
      (fuel p sig : ℕ) (s t : Process C)
      → first_cb (s.sets p).signal_cbs (up_to (num_sig - 1)) ≡ some sig
      → erase_signal_cb sig false s ≡ done t
      → destroy (suc fuel) p s ≡ destroy fuel p t
  unfolding destroy
  destroy-some fuel p sig s t e e' = rw (e, e') refl

  -- One round: the first callback goes, and the count is less.
  erased_first :
      (p sig : ℕ) (s : Process C)
      → IsOwned s
      → first_cb (s.sets p).signal_cbs (up_to (num_sig - 1)) ≡ some sig
      → (t : Process C) × (erase_signal_cb sig false s ≡ done t)
        × IsOwned t
        × (count (has_cb t p) (up_to (num_sig - 1)) < count (has_cb s p) (up_to (num_sig - 1)))
        × ((q j : ℕ) → (q == p) ≡ false → has_cb t q j ≡ has_cb s q j)
  unfolding has_cb
  erased_first p sig s owned e =
      let (m, n) = first_cb-some (s.sets p).signal_cbs (up_to (num_sig - 1)) sig e in
      let has : has_cb s p sig ≡ true = ap not n in
      let (t, done_t, after) = erase-effect sig p s (owned.1 sig p has) in
      let kept : IsOwned t =
        subst (λ x. Always IsOwned (some x)) done_t
          (erase_signal_cb-Kept IsOwned-Closed sig false s owned) in
      (
        t,
        done_t,
        kept,
        count-erased (has_cb s p) (has_cb t p) sig (up_to (num_sig - 1))
            (λ j. ground (arith, after p j)) m has,
        λ q j ne. ground (arith, after q j),
      )

  destroy_from :
      (fuel p : ℕ) (s : Process C)
      → IsOwned s
      → count (has_cb s p) (up_to (num_sig - 1)) < fuel
      → (t : Process C) × (destroy fuel p s ≡ some t) × Destroyed p s t
  destroy_from zero p s owned h = absurd (omega arith)
  destroy_from (suc fuel) p s owned h =
      elim (Option-cases (first_cb (s.sets p).signal_cbs (up_to (num_sig - 1)))) [
        | inl e ↦ (s, destroy-none fuel p s e, none_left p s owned e)
        | inr (sig, e) ↦
            let (t, done_t, kept, less, others) = erased_first p sig s owned e in
            let (u, ends, (owned_u, after)) = destroy_from fuel p t kept (omega arith) in
            (
              u,
              destroy-some fuel p sig s t e done_t ∙ ends,
              (owned_u, λ q j. ground (arith, after q j, others q j)),
            )
      ]

  -- In a process in which a set has a callback for a signal just when it owns the signal, the
  -- loop of `~pollset_plus` ends within 32 rounds, if `sigaction` does not fail: the set has no
  -- callback then, the other sets have what they had, and a set still has a callback just for
  -- what it owns.
  pub destroy_lem :
      (p : ℕ) (s : Process C)
      → IsOwned s
      → (t : Process C) × (destroy num_sig p s ≡ some t) × Destroyed p s t
  destroy_lem p s owned =
      destroy_from num_sig p s owned (omega (arith, count_le (has_cb s p) (up_to (num_sig - 1))))

  first_cb-only :
      (cbs : ℕ → Option C) (sig : ℕ) (js : List ℕ)
      → ((j : ℕ) → is_null (cbs j) ≡ not (j == sig))
      → mem sig js ≡ true
      → first_cb cbs js ≡ some sig
  unfolding first_cb
  first_cb-only cbs sig [] only m = absurd (cc)
  first_cb-only cbs sig (j ∷ js) only m = ground (arith, only j, first_cb-only cbs sig js only)

  erase_unowned :
      (sig : ℕ) (s : Process C) → s.signal_owners sig ≡ none → erase_signal_cb sig false s ≡ done s
  unfolding erase_signal_cb
  erase_unowned sig s e = rw e refl

  destroy-stray :
      (fuel p sig : ℕ) (s : Process C)
      → first_cb (s.sets p).signal_cbs (up_to (num_sig - 1)) ≡ some sig
      → s.signal_owners sig ≡ none
      → destroy fuel p s ≡ none
  destroy-stray zero p sig s e o = unfold destroy in refl
  destroy-stray (suc fuel) p sig s e o =
      destroy-some fuel p sig s s e (erase_unowned sig s o) ∙ destroy-stray fuel p sig s e o

  -- When `sigaction` fails in the `signal_cb` of a set without callbacks, for a valid signal
  -- without an owner, `signal_cb` throws and leaves the callback in the set without an owner,
  -- and the loop of the set's destructor never ends.
  pub failed_signal_cb-destroy :
      (sig p : ℕ) (c : C) (s : Process C)
      → is_valid sig ≡ true
      → s.signal_owners sig ≡ none
      → ((j : ℕ) → has_cb s p j ≡ false)
      → (t : Process C) × (signal_cb sig (some c) p true s ≡ some (thrown t))
        × ((fuel : ℕ) → destroy fuel p t ≡ none)
  unfolding signal_cb has_cb
  failed_signal_cb-destroy sig p c s v o empty =
      let t : Process C = own sig none (set_signal_cb sig (some c) p s) in
      (
        t,
        rw (v, o) refl,
        λ fuel.
            destroy-stray fuel p sig t
              (first_cb-only (t.sets p).signal_cbs sig (up_to (num_sig - 1))
                (λ j. ground (arith, empty j)) (mem-up_to sig 31 (ground arith) (ground arith)))
              (ground arith),
      )

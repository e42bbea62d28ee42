-- ===== src/Rpc/MsgSock/Writing.antt =====
-- What one call of `output` of xdrpp/msgsock.cc does to the bytes that wait.
use cs244b.Base.{
  ℕ, suc, ◌≤◌, ◌≡◌, refl, sym, ap, ◌∙◌, Bool, false, not, ◌&&◌, List, [], ◌∷◌, ◌++◌, append_assoc,
  ltb, ◌==◌, length, drop, take, length-append, length-drop, arith, Bool-cases, inl, inr,
  drop-append_short, take-append_short, take-append-drop,
}
use cs244b.Xdr.Error.{ok}
use cs244b.Rpc.MsgSock.{OutSock, concat, offered, WriteResult, wrote, again, broken, watch, output}
use cs244b.Rpc.MsgSock.Output.{pending, StartsIn, IsSound, pop_wbytes_lem}

pub concat-append : (xss yss : List (List ℕ)) → concat (xss ++ yss) ≡ concat xss ++ concat yss
concat-append [] yss = refl
concat-append (xs ∷ xss) yss =
    ap (◌++◌ xs) (concat-append xss yss) ∙ sym (append_assoc xs (concat xss) (concat yss))

pub starts-le : (w : ℕ) (queue : List (List ℕ)) → StartsIn w queue → w ≤ length (concat queue)
starts-le w [] h = omega arith
starts-le w (front ∷ queue) h = omega (arith, length-append front (concat queue))

starts-take : (w n : ℕ) (queue : List (List ℕ)) → StartsIn w queue → StartsIn w (take (suc n) queue)
starts-take w n [] h = h
starts-take w n (front ∷ queue) h = h

-- What `writev` is offered is the front of what waits.
offered-pending :
    (s : OutSock) → StartsIn s.wstart s.wqueue → pending s ≡ offered s ++ concat (drop 8 s.wqueue)
unfolding offered
offered-pending s st =
    ap (λ q. drop s.wstart (concat q)) (sym (take-append-drop 8 s.wqueue))
    ∙ ap (drop s.wstart) (concat-append (take 8 s.wqueue) (drop 8 s.wqueue))
    ∙ drop-append_short s.wstart (concat (take 8 s.wqueue)) (concat (drop 8 s.wqueue))
        (starts-le s.wstart (take 8 s.wqueue) (starts-take s.wstart 7 s.wqueue st))

-- The bytes that a `writev` takes, and whether its result is one that it can have.
abbrev pub taken : WriteResult → OutSock → List ℕ
taken (wrote n) s = take n (offered s)
taken again s = []
taken broken s = []

abbrev pub Permitted : WriteResult → OutSock → Type 0
Permitted (wrote n) s = n ≤ length (offered s)
Permitted again s = Unit {0}
Permitted broken s = Unit {0}

watch-keeps :
    (cbset : Bool) (s : OutSock)
    → IsSound s
    → (pending (watch cbset s) ≡ pending s)
      × IsSound (watch cbset s)
      × ((watch cbset s).wfail ≡ s.wfail)
unfolding watch
watch-keeps cbset s i = elim (Bool-cases (ltb 0 s.wsize && not cbset)) [
  | inl e ↦ rw e (refl, record { sized = i.sized; starts = i.starts; whole = i.whole }, refl)
  | inr e ↦ elim (Bool-cases (s.wsize == 0 && cbset)) [
    | inl f ↦ rw (e, f) (refl, record { sized = i.sized; starts = i.starts; whole = i.whole }, refl)
    | inr f ↦ rw (e, f) (refl, i, refl)
  ]
]

-- Either the connection has failed, or the bytes taken and those that wait are the bytes that waited
-- before.
abbrev pub Sent : Bool → List ℕ → List ℕ → OutSock → Type 0
Sent failed before out s =
    IsSound s × ((s.wfail ≡ false) → (failed ≡ false) × (before ≡ out ++ pending s))

pub output_lem :
    (cbset : Bool) (r : WriteResult) (s : OutSock)
    → IsSound s
    → Permitted r s
    → (s' : OutSock) × (output cbset r s ≡ ok s') × Sent s.wfail (pending s) (taken r s) s'
unfolding output
output_lem cbset again s i h = (s, refl, (i, λ e. (e, refl)))
output_lem cbset broken s i h =
    (_, refl, (record { sized = refl; starts = refl; whole = tt }, λ e. cc))
output_lem cbset (wrote n) s i h =
    let front : pending s ≡ offered s ++ concat (drop 8 s.wqueue) = offered-pending s i.starts in
    let le : n ≤ s.wsize =
      omega
        (arith, i.sized, ap length front, length-append (offered s) (concat (drop 8 s.wqueue))) in
    let (s', r, d, i', f, _) = pop_wbytes_lem n s i le in
    let (p, j, k) = watch-keeps cbset s' i' in
    let first : take n (pending s) ≡ take n (offered s) =
      ap (take n) front ∙ take-append_short n (offered s) (concat (drop 8 s.wqueue)) h in
    (
      watch cbset s',
      rw r refl,
      (
        j,
        λ e. (
          sym f ∙ sym k ∙ e,
          sym (take-append-drop n (pending s))
              ∙ ap (λ xs. xs ++ drop n (pending s)) first
              ∙ ap (◌++◌ (take n (offered s))) (sym d ∙ sym p),
        ),
      ),
    )

no-bytes :
    (w : ℕ) (queue : List (List ℕ))
    → StartsIn w queue
    → length (drop w (concat queue)) ≡ 0
    → (w ≡ 0) × (queue ≡ [])
no-bytes w [] h e = (h, refl)
no-bytes w (front ∷ queue) h e =
    absurd
      (omega (arith, length-drop w (concat (front ∷ queue)), length-append front (concat queue)))

-- ===== src/Rpc/MsgSock/Output.antt =====
-- The outgoing half of a message socket of xdrpp/msgsock.cc, seen as a queue of bytes.
use cs244b.Base.{
  ℕ, ◌+◌, ◌-◌, ◌≤◌, ◌<◌, ◌≡◌, refl, sym, ap, ◌∙◌, true, ◌&&◌, List, [], ◌∷◌, ◌++◌, ltb, leb, ◌==◌,
  length, drop, drop-append_long, drop-nil, drop-drop, subst, length-append, length-drop, All,
  arith, Bool-cases, inl, inr,
}
use cs244b.Xdr.Error.{Result, ok}
use cs244b.Rpc.MsgSock.{OutSock, concat, pop_whole, popped, pop_front, pop_wbytes}

-- The bytes that wait, in order.
abbrev pub pending : OutSock → List ℕ
pending s = drop s.wstart (concat s.wqueue)

abbrev pub NonEmpty : List ℕ → Type 0
NonEmpty xs = 0 < length xs

-- `wstart_` stands within the first message, or the queue is empty.
abbrev pub StartsIn : ℕ → List (List ℕ) → Type 0
StartsIn n [] = n ≡ 0
StartsIn n (front ∷ queue) = n < length front

pub record IsSound (s : OutSock) : Type 0 where
  pub sized : s.wsize ≡ length (pending s)
  pub starts : StartsIn s.wstart s.wqueue
  pub whole : All NonEmpty s.wqueue

-- Popping whole messages drops bytes from the front of their concatenation.
pop_whole_lem :
    (n : ℕ) (queue : List (List ℕ))
    → n ≤ length (concat queue)
    → All NonEmpty queue
    → (k : ℕ) × (rest : List (List ℕ)) × (pop_whole n queue ≡ ok (k, rest))
      × (drop k (concat rest) ≡ drop n (concat queue))
      × StartsIn k rest
      × All NonEmpty rest
unfolding pop_whole
pop_whole_lem n [] h a =
    let e : (n == 0) ≡ true = ground arith in (0, [], rw e refl, sym (drop-nil n), refl, tt)
pop_whole_lem n (front ∷ queue) h (f, a) = elim (Bool-cases (ltb 0 n && leb (length front) n)) [
  | inl e ↦
      let le : length front ≤ n = ground arith in
      let (k, rest, r, d, s, w) =
        pop_whole_lem (n - length front) queue (omega (arith, length-append front (concat queue)))
          a in
      (k, rest, rw e r, d ∙ sym (drop-append_long n front (concat queue) le), s, w)
  | inr e ↦ (n, front ∷ queue, rw e refl, refl, ground arith, (f, a))
]

popped_lem :
    (s : OutSock) (n : ℕ) (queue : List (List ℕ))
    → s.wsize ≡ length (drop n (concat queue))
    → n ≤ length (concat queue)
    → All NonEmpty queue
    → (s' : OutSock) × (popped s (pop_whole n queue) ≡ ok s')
      × (pending s' ≡ drop n (concat queue))
      × IsSound s'
      × (s'.wfail ≡ s.wfail)
      × (s'.writing ≡ s.writing)
unfolding popped
popped_lem s n queue z h a =
    let (k, rest, r, d, st, w) = pop_whole_lem n queue h a in
    let s' : OutSock = record s { wqueue = rest; wstart = k } in
    (s', rw r refl, d, record { sized = z ∙ ap length (sym d); starts = st; whole = w }, refl, refl)

-- What popping `n` bytes leaves of `bytes`.
abbrev Popped : OutSock → ℕ → List ℕ → Result OutSock → Type 0
Popped s n bytes r =
    (s' : OutSock) × (r ≡ ok s')
    × (pending s' ≡ drop n bytes)
    × IsSound s'
    × (s'.wfail ≡ s.wfail)
    × (s'.writing ≡ s.writing)

pop_front_lem :
    (n : ℕ) (s : OutSock) (front : List ℕ) (queue : List (List ℕ))
    → s.wqueue ≡ front ∷ queue
    → s.wstart < length front
    → All NonEmpty (front ∷ queue)
    → n ≤ length (drop s.wstart (front ++ concat queue))
    → s.wsize ≡ length (drop s.wstart (front ++ concat queue)) - n
    → Popped s n (drop s.wstart (front ++ concat queue)) (pop_front n s (front ∷ queue))
unfolding pop_front
pop_front_lem n s front queue q h (f, a) le z =
    let both : length (front ++ concat queue) ≡ length front + length (concat queue) =
      length-append front (concat queue) in
    let left : length (drop s.wstart (front ++ concat queue))
        ≡ length (front ++ concat queue) - s.wstart =
      length-drop s.wstart (front ++ concat queue) in
    let shift : drop n (drop s.wstart (front ++ concat queue))
        ≡ drop (s.wstart + n) (front ++ concat queue) =
      drop-drop n s.wstart (front ++ concat queue) in
    elim (Bool-cases (ltb n (length front - s.wstart))) [
      | inl e ↦
          let same : drop (s.wstart + n) (concat s.wqueue)
              ≡ drop n (drop s.wstart (front ++ concat queue)) =
            ap (λ xss. drop (s.wstart + n) (concat xss)) q ∙ sym shift in
          (
            record s { wstart = s.wstart + n },
            rw e refl,
            same,
            record {
              sized =
                  z
                  ∙ sym (length-drop n (drop s.wstart (front ++ concat queue)))
                  ∙ ap length (sym same);
              starts = subst (StartsIn (s.wstart + n)) (sym q) (ground arith);
              whole = subst (All NonEmpty) (sym q) (f, a);
            },
            refl,
            refl,
          )
      | inr e ↦
          let rest : ℕ = n - (length front - s.wstart) in
          let amount : s.wstart + n - length front ≡ rest = ground arith in
          let gone : drop n (drop s.wstart (front ++ concat queue)) ≡ drop rest (concat queue) =
            shift
            ∙ drop-append_long (s.wstart + n) front (concat queue) (ground arith)
            ∙ ap (λ k. drop k (concat queue)) amount in
          let fits : s.wsize ≡ length (drop rest (concat queue)) =
            ground (arith, length-drop rest (concat queue)) in
          let (s', r, d, i, x, y) = popped_lem s rest queue fits (ground arith) a in
          (s', rw e r, d ∙ sym gone, i, x, y)
    ]

pop_queue_lem :
    (n : ℕ) (s : OutSock) (queue : List (List ℕ))
    → s.wqueue ≡ queue
    → 0 < n
    → n ≤ length (drop s.wstart (concat queue))
    → StartsIn s.wstart queue
    → All NonEmpty queue
    → s.wsize ≡ length (drop s.wstart (concat queue)) - n
    → Popped s n (drop s.wstart (concat queue)) (pop_front n s queue)
pop_queue_lem n s [] q h le st a z = absurd (omega (arith, length-drop s.wstart (concat [])))
pop_queue_lem n s (front ∷ queue) q h le st a z = pop_front_lem n s front queue q st a le z

-- In a well-formed output queue in which at least `n` bytes wait, `pop_wbytes` runs into no
-- fault and no failed assertion, and drops just the first `n` of the bytes that wait; the queue
-- stays well-formed, and the flags stay as they were.
pub pop_wbytes_lem :
    (n : ℕ) (s : OutSock)
    → IsSound s
    → n ≤ s.wsize
    → (s' : OutSock) × (pop_wbytes n s ≡ ok s')
      × (pending s' ≡ drop n (pending s))
      × IsSound s'
      × (s'.wfail ≡ s.wfail)
      × (s'.writing ≡ s.writing)
unfolding pop_wbytes
pop_wbytes_lem n s i h = elim (Bool-cases (n == 0)) [
  | inl e ↦
      let z : n ≡ 0 = ground arith in
      (s, rw e refl, ap (λ k. drop k (pending s)) (sym z), i, refl, refl)
  | inr e ↦
      let f : leb n s.wsize ≡ true = ground arith in
      let z : s.wsize - n ≡ length (pending s) - n = ap (λ k. k - n) i.sized in
      rw (e, f)
        (pop_queue_lem n (record s { wsize = s.wsize - n }) s.wqueue refl (ground arith)
          (omega (arith, i.sized)) i.starts i.whole z)
]

-- ===== src/Rpc/MsgIn/Framing.antt =====
-- The bytes that `msg_sock::input` of xdrpp/msgsock.cc has read, as what it has delivered, framed
-- again, and what it holds.
use cs244b.Base.{
  ℕ, ◌+◌, ◌-◌, ◌^◌, ◌≤◌, ◌<◌, ◌≡◌, refl, sym, ap, ◌∙◌, subst, Bool, true, false, Option, none, some,
  List, [], ◌∷◌, ◌++◌, ltb, leb, ◌==◌, if◌then◌else◌, length, drop, take, take-append-drop,
  append_assoc, append-nil, length-take, length-drop, All, All-append, All-drop, arith, Bool-cases,
  inl, inr,
}
use cs244b.Xdr.Word.{IsByte, be32, swap32le, word_of, get32, get32-of_be32, of_be32, be32-of_be32}
use cs244b.Rpc.MsgIn.{
  InSock, ReadResult, chunk, nextlen, call_back, allocate, start_message, with_length,
  finish_message, wanted,
}

-- A message behind its record mark; nothing for a null pointer.
abbrev pub frame : Option (List ℕ) → List ℕ
frame none = []
frame (some body) = be32 (length body + 2 ^ 31) ++ body

abbrev pub frames : List (Option (List ℕ)) → List ℕ
frames [] = []
frames (c ∷ calls) = frame c ++ frames calls

-- The bytes of the frame that is being read.
abbrev pub held_for : Option ℕ → List ℕ → List ℕ
held_for none got = got
held_for (some size) got = be32 (size + 2 ^ 31) ++ got

abbrev pub held : InSock → List ℕ
held s = held_for s.rdmsg s.got

-- `rdpos_` stays within its buffer.
abbrev pub Fits : Option ℕ → List ℕ → Type 0
Fits none got = length got ≤ 4
Fits (some size) got = (length got < size) × (size < 2 ^ 31)

-- A length fits the 31 bits that the record mark has for it.
abbrev pub IsCall : Option (List ℕ) → Type 0
IsCall none = Unit {0}
IsCall (some body) = length body < 2 ^ 31

abbrev pub Sane : List (Option (List ℕ)) → List ℕ → Type 0
Sane calls got = All IsByte got × All IsCall calls

pub add-IsCall :
    (calls : List (Option (List ℕ))) (c : Option (List ℕ))
    → All IsCall calls
    → IsCall c
    → All IsCall (calls ++ (c ∷ []))
add-IsCall calls c h k = All-append IsCall calls (c ∷ []) h (k, tt)

abbrev pub seen : InSock → List ℕ
seen s = frames s.calls ++ held s

-- The bytes read so far, if the state is well-formed.
abbrev pub Holds : List ℕ → InSock → Type 0
Holds received s = (seen s ≡ received) × Fits s.rdmsg s.got × Sane s.calls s.got

abbrev pub bytes_of : ReadResult → List ℕ
bytes_of (chunk bs) = bs
bytes_of _ = []

-- A system call returns bytes, and no more than it was asked for.
abbrev pub Returns : ReadResult → InSock → Type 0
Returns r s = (length (bytes_of r) ≤ wanted s) × All IsByte (bytes_of r)

frames-append : (xs ys : List (Option (List ℕ))) → frames (xs ++ ys) ≡ frames xs ++ frames ys
frames-append [] ys = refl
frames-append (c ∷ xs) ys =
    ap (◌++◌ (frame c)) (frames-append xs ys) ∙ sym (append_assoc (frame c) (frames xs) (frames ys))

-- The frame of a message is what was held for it.
frames-call :
    (calls : List (Option (List ℕ))) (c : Option (List ℕ)) (rest : List ℕ)
    → frames (calls ++ (c ∷ [])) ++ rest ≡ frames calls ++ (frame c ++ rest)
frames-call calls c rest =
    ap (λ xs. xs ++ rest)
      (frames-append calls (c ∷ []) ∙ ap (◌++◌ (frames calls)) (append-nil (frame c)))
    ∙ append_assoc (frames calls) (frame c) rest

-- The four bytes of a length are those of the number that it is read as.
nextlen_lem :
    (big : Bool) (got : List ℕ)
    → length got ≡ 4
    → All IsByte got
    → (got ≡ be32 (nextlen big got)) × (nextlen big got < 2 ^ 32)
unfolding nextlen get32
nextlen_lem big [] h b = absurd (omega arith)
nextlen_lem big (a ∷ []) h b = absurd (omega arith)
nextlen_lem big (a ∷ b ∷ []) h bs = absurd (omega arith)
nextlen_lem big (a ∷ b ∷ c ∷ []) h bs = absurd (omega arith)
nextlen_lem big (a ∷ b ∷ c ∷ d ∷ e ∷ xs) h bs = absurd (omega arith)
nextlen_lem true (a ∷ b ∷ c ∷ d ∷ []) h (x, (y, (z, (w, _)))) =
    (sym (be32-of_be32 a b c d x y z w), omega arith)
nextlen_lem false (a ∷ b ∷ c ∷ d ∷ []) h (x, (y, (z, (w, _)))) =
    let e : swap32le false (word_of false a b c d) ≡ of_be32 a b c d =
      get32-of_be32 false a b c d x y z w in
    rw e (sym (be32-of_be32 a b c d x y z w), omega arith)

abbrev HoldsFor : List ℕ → List (Option (List ℕ)) → Option ℕ → List ℕ → Type 0
HoldsFor received calls o got =
    (frames calls ++ held_for o got ≡ received) × Fits o got × Sane calls got

module _ (big : Bool) (memory : ℕ → Bool) (kills : Option (List ℕ) → Bool) (received : List ℕ) where
  -- A null pointer given to the callback changes nothing else.
  pub call_none :
      (s : InSock) → Holds received s → Holds received (call_back big memory kills none s)
  call_none s (e, f, b) =
      (frames-call s.calls none (held s) ∙ e, f, (b.0, add-IsCall s.calls none (b.1) tt))

  allocate_lem :
      (len : ℕ) (s : InSock)
      → s.rdmsg ≡ none
      → 0 < len
      → len < 2 ^ 31
      → s.got ≡ be32 (len + 2 ^ 31)
      → Holds received s
      → Holds received (allocate big memory kills len s)
  unfolding allocate
  allocate_lem len s e p w g (h, f, b) = elim (Bool-cases (leb len s.maxmsglen)) [
    | inl x ↦ elim (Bool-cases (memory len)) [
      | inl y ↦
          let r : frames s.calls ++ s.got ≡ received =
            ap (λ o. frames s.calls ++ held_for o s.got) (sym e) ∙ h in
          rw (x, y)
            (
              ap (◌++◌ (frames s.calls)) (append-nil (be32 (len + 2 ^ 31)) ∙ sym g) ∙ r,
              (p, w),
              (tt, b.1),
            )
      | inr y ↦ rw (x, y) (call_none s (h, f, b))
    ]
    | inr x ↦ rw x (call_none (record s { reading = false }) (h, f, b))
  ]

  pub if-Holds :
      (b : Bool) (x y : InSock × Bool)
      → Holds received x.0
      → Holds received y.0
      → Holds received (if b then x else y).0
  if-Holds true x y h k = h
  if-Holds false x y h k = k

  -- The four bytes of `got` become the frame of an empty message.
  zero_lem :
      (s : InSock)
      → s.rdmsg ≡ none
      → s.got ≡ be32 (2 ^ 31)
      → Holds received s
      → HoldsFor received (s.calls ++ (some [] ∷ [])) s.rdmsg []
  zero_lem s e g (h, f, b) =
      let r : frames s.calls ++ s.got ≡ received =
        ap (λ o. frames s.calls ++ held_for o s.got) (sym e) ∙ h in
      subst (λ o. HoldsFor received (s.calls ++ (some [] ∷ [])) o []) (sym e)
        (
          frames-call s.calls (some []) []
              ∙ ap (◌++◌ (frames s.calls))
                  (append-nil (be32 (2 ^ 31) ++ []) ∙ append-nil (be32 (2 ^ 31)) ∙ sym g)
              ∙ r,
          omega arith,
          (tt, add-IsCall s.calls (some []) (b.1) (omega arith)),
        )

  pub start_lem :
      (s : InSock)
      → s.rdmsg ≡ none
      → length s.got ≡ 4
      → Holds received s
      → Holds received (start_message big memory kills s).0
  unfolding start_message
  start_lem s e four (h, f, b) =
      let len : ℕ = nextlen big s.got in
      let (g, w) = nextlen_lem big s.got four (b.0) in
      elim (Bool-cases (ltb len (2 ^ 31))) [
        | inl x ↦ rw x (call_none s (h, f, b))
        | inr x ↦ elim (Bool-cases (len - 2 ^ 31 == 0)) [
          | inl y ↦ rw (x, y) (zero_lem s e (g ∙ ap be32 (ground arith)) (h, f, b))
          | inr y ↦
              let k : len ≡ len - 2 ^ 31 + 2 ^ 31 = ground arith in
              rw (x, y)
                (allocate_lem (len - 2 ^ 31) s e (ground arith) (ground arith) (g ∙ ap be32 k)
                  (h, f, b))
        ]
      ]

  pub length_lem :
      (s : InSock)
      → s.rdmsg ≡ none
      → Holds received s
      → Holds received (with_length big memory kills s).0
  unfolding with_length
  length_lem s e (h, f, b) =
      let le : length s.got ≤ 4 = subst (λ o. Fits o s.got) e f in
      elim (Bool-cases (ltb (length s.got) 4)) [
        | inl x ↦ rw x (h, f, b)
        | inr x ↦ rw x (start_lem s e (ground arith) (h, f, b))
      ]

  pub finish_lem :
      (size : ℕ) (s : InSock)
      → s.rdmsg ≡ some size
      → size ≤ length s.got
      → length s.got ≤ size + 4
      → size < 2 ^ 31
      → seen s ≡ received
      → Sane s.calls s.got
      → Holds received (finish_message big memory kills size s).0
  unfolding finish_message
  finish_lem size s e lo hi w h b =
      let body : List ℕ = take size s.got in
      let n : length body ≡ size = omega (arith, length-take size s.got) in
      let s' : InSock =
        call_back big memory kills (some body) (record s { rdmsg = none; got = drop size s.got }) in
      let r : frames s.calls ++ (be32 (size + 2 ^ 31) ++ s.got) ≡ received =
        ap (λ o. frames s.calls ++ held_for o s.got) (sym e) ∙ h in
      let same : frame (some body) ++ drop size s.got ≡ be32 (size + 2 ^ 31) ++ s.got =
        ap (λ k. (be32 (k + 2 ^ 31) ++ body) ++ drop size s.got) n
        ∙ append_assoc (be32 (size + 2 ^ 31)) body (drop size s.got)
        ∙ ap (◌++◌ (be32 (size + 2 ^ 31))) (take-append-drop size s.got) in
      let all : Holds received s' = (
        frames-call s.calls (some body) (drop size s.got) ∙ ap (◌++◌ (frames s.calls)) same ∙ r,
        omega (arith, length-drop size s.got),
        (All-drop IsByte size s.got (b.0), add-IsCall s.calls (some body) (b.1) (omega arith)),
      ) in
      if-Holds (kills (some body)) (s', false) (with_length big memory kills s') all
        (length_lem s' refl all)

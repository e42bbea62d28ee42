-- ===== src/Rpc/MsgIn/Reading.antt =====
-- The rounds of `msg_sock::input` of xdrpp/msgsock.cc, and the framing.
use cs244b.Base.{
  ℕ, ◌+◌, ◌-◌, ◌^◌, ◌≤◌, ◌≡◌, refl, sym, ap, ◌∙◌, subst, Bool, true, false, Option, none, some,
  List, [], ◌∷◌, ◌++◌, ltb, leb, if◌then◌else◌, length, append_assoc, append-nil, length-append,
  length-zero, All-append, arith, Bool-cases, inl, inr,
}
use cs244b.Xdr.Word.{IsByte, be32}
use cs244b.Rpc.MsgIn.{
  InSock, ReadResult, chunk, later, closed, start_message, read_body, read_length, read_for, round,
  rounds, input, wanted_for,
}
use cs244b.Rpc.MsgIn.Framing.{
  frames, held, held_for, Fits, seen, Sane, Holds, bytes_of, Returns, call_none, length_lem,
  start_lem, finish_lem,
}

module _ (big : Bool) (memory : ℕ → Bool) (kills : Option (List ℕ) → Bool) (received : List ℕ) where
  -- Without bytes, a round changes nothing that counts.
  idle : (s : InSock) → Holds received s → Holds (received ++ []) s
  idle s h = subst (λ xs. Holds xs s) (sym (append-nil received)) h

  more_held : (o : Option ℕ) (got bs : List ℕ) → held_for o (got ++ bs) ≡ held_for o got ++ bs
  more_held none got bs = refl
  more_held (some size) got bs = sym (append_assoc (be32 (size + 2 ^ 31)) got bs)

  more_seen :
      (s : InSock) (bs : List ℕ)
      → seen s ≡ received
      → seen (record s { got = s.got ++ bs }) ≡ received ++ bs
  more_seen s bs h =
      ap (◌++◌ (frames s.calls)) (more_held s.rdmsg s.got bs)
      ∙ sym (append_assoc (frames s.calls) (held s) bs)
      ∙ ap (λ xs. xs ++ bs) h

  read_length_lem :
      (r : ReadResult) (s : InSock)
      → s.rdmsg ≡ none
      → Holds received s
      → Returns r s
      → Holds (received ++ bytes_of r) (read_length big memory kills r s).0
  unfolding read_length
  read_length_lem later s e h k = idle s h
  read_length_lem closed s e h k = call_none big memory kills (received ++ []) s (idle s h)
  read_length_lem (chunk bs) s e (h, f, b) (n, a) =
      let le : length s.got ≤ 4 = subst (λ o. Fits o s.got) e f in
      let bound : length bs ≤ 4 - length s.got = subst (λ o. length bs ≤ wanted_for o s.got) e n in
      length_lem big memory kills (received ++ bs) (record s { got = s.got ++ bs }) e
        (
          more_seen s bs h,
          subst (λ o. Fits o (s.got ++ bs)) (sym e) (omega (arith, length-append s.got bs)),
          (All-append IsByte s.got bs (b.0) a, b.1),
        )

  read_lem :
      (r : ReadResult) (o : Option ℕ) (s : InSock)
      → s.rdmsg ≡ o
      → Holds received s
      → Returns r s
      → Holds (received ++ bytes_of r) (read_for big memory kills o r s).0
  unfolding read_for read_body read_length
  read_lem later (some size) s e h k = idle s h
  read_lem closed (some size) s e h k = call_none big memory kills (received ++ []) s (idle s h)
  read_lem (chunk bs) (some size) s e (h, f, b) (n, a) =
      let all : Sane s.calls (s.got ++ bs) = (All-append IsByte s.got bs (b.0) a, b.1) in
      let bound : length bs ≤ size - length s.got + 4 =
        subst (λ o. length bs ≤ wanted_for o s.got) e n in
      let (short, w) = subst (λ o. Fits o s.got) e f in
      let both : length (s.got ++ bs) ≡ length s.got + length bs = length-append s.got bs in
      elim (Bool-cases (leb size (length (s.got ++ bs)))) [
        | inl x ↦ rw x (
            finish_lem big memory kills (received ++ bs) size (record s { got = s.got ++ bs }) e
              (ground arith) (omega arith) w (more_seen s bs h) all)
        | inr x ↦
            rw x
              (more_seen s bs h, subst (λ o. Fits o (s.got ++ bs)) (sym e) (ground arith, w), all)
      ]
  read_lem r none s e h k = elim (Bool-cases (ltb (length s.got) 4)) [
    | inl x ↦ rw x (read_length_lem r s e h k)
    | inr x ↦
        let le : length s.got ≤ 4 = subst (λ o. Fits o s.got) e (h.1) in
        let bound : length (bytes_of r) ≤ 4 - length s.got =
          subst (λ o. length (bytes_of r) ≤ wanted_for o s.got) e (k.0) in
        let nothing : bytes_of r ≡ [] = length-zero (bytes_of r) (ground arith) in
        rw x (
          subst (λ bs. Holds (received ++ bs) (start_message big memory kills s).0) (sym nothing)
            (start_lem big memory kills (received ++ []) s e (ground arith) (idle s h)))
  ]

  -- One round keeps the framing.
  pub round_lem :
      (r : ReadResult) (s : InSock)
      → Holds received s
      → Returns r s
      → Holds (received ++ bytes_of r) (round big memory kills r s).0
  unfolding round
  round_lem r s h k = read_lem r s.rdmsg s refl h k

module _ (big : Bool) (memory : ℕ → Bool) (kills : Option (List ℕ) → Bool) where
  -- The rounds that the loop makes: their results are such as the system calls return, and their
  -- bytes.
  abbrev pub AllReturn : List ReadResult → InSock × Bool → Type 0
  AllReturn [] p = Unit {0}
  AllReturn (r ∷ rs) (s, false) = Unit {0}
  AllReturn (r ∷ rs) (s, true) = Returns r s × AllReturn rs (round big memory kills r s)

  abbrev pub all_bytes : List ReadResult → InSock × Bool → List ℕ
  all_bytes [] p = []
  all_bytes (r ∷ rs) (s, false) = []
  all_bytes (r ∷ rs) (s, true) =
      let rest = all_bytes rs (round big memory kills r s) in
      if s.destroyed then [] else bytes_of r ++ rest

  unless :
      (b : Bool) (s t : InSock) (received bs : List ℕ)
      → Holds (received ++ []) s
      → Holds (received ++ bs) t
      → Holds (received ++ (if b then [] else bs)) (if b then s else t)
  unless true s t received bs h k = h
  unless false s t received bs h k = k

  rounds_lem :
      (rs : List ReadResult) (s : InSock) (more : Bool) (received : List ℕ)
      → Holds received s
      → AllReturn rs (s, more)
      → Holds (received ++ all_bytes rs (s, more)) (rounds big memory kills rs (s, more))
  unfolding rounds
  rounds_lem [] s more received h k = idle big memory kills received s h
  rounds_lem (r ∷ rs) s false received h k = idle big memory kills received s h
  rounds_lem (r ∷ rs) s true received h (k, ks) =
      let p : InSock × Bool = round big memory kills r s in
      let one : Holds (received ++ bytes_of r) p.0 = round_lem big memory kills received r s h k in
      unless s.destroyed s (rounds big memory kills rs p) received (bytes_of r ++ all_bytes rs p)
        (idle big memory kills received s h)
        (subst (λ xs. Holds xs (rounds big memory kills rs p))
          (append_assoc received (bytes_of r) (all_bytes rs p))
          (rounds_lem rs p.0 p.1 (received ++ bytes_of r) one ks))

  -- If the messages delivered, framed again, and the part of a frame that the socket holds are
  -- the bytes received, and the socket's state is well-formed, then so it is behind a call of
  -- `input`, with the bytes that its rounds read behind those received before, whether or not
  -- the call reports an error; the reads return bytes, and no more than they were asked for.
  pub input-Holds :
      (r₁ r₂ r₃ : ReadResult) (s : InSock) (received : List ℕ)
      → Holds received s
      → AllReturn (r₁ ∷ r₂ ∷ r₃ ∷ []) (s, true)
      → Holds
          (received ++ all_bytes (r₁ ∷ r₂ ∷ r₃ ∷ []) (s, true))
          (input big memory kills r₁ r₂ r₃ s)
  unfolding input
  input-Holds r₁ r₂ r₃ s received h k = rounds_lem (r₁ ∷ r₂ ∷ r₃ ∷ []) s true received h k

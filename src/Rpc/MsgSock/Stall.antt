-- ===== src/Rpc/MsgSock/Stall.antt =====
-- A message socket of xdrpp/msgsock.cc on which the first `writev` would block.
use cs244b.Base.{
  ℕ, ◌<◌, ◌≡◌, refl, sym, ap, ◌∙◌, false, List, [], ◌∷◌, ◌++◌, append_assoc, append-nil, ◌==◌,
  if◌then◌else◌, All, arith,
}
use cs244b.Xdr.Error.{Result, ok, ◌>>=◌}
use cs244b.Xdr.Message.{Message}
use cs244b.Rpc.MsgSock.{OutSock, raw, WriteResult, again, output, enqueue, putmsg}
use cs244b.Rpc.MsgSock.Output.{pending, NonEmpty, IsSound}
use cs244b.Rpc.MsgSock.Sending.{fresh, enqueue-pending, enqueue-IsSound}

-- `putmsg` of one message after the other, with the results that `writev` would have.
abbrev pub put_all : List (Message × WriteResult) → OutSock → Result OutSock
put_all [] s = ok s
put_all ((msg, r) ∷ msgs) s = do s' ← putmsg msg r s; put_all msgs s'

abbrev pub raws : List (Message × WriteResult) → List ℕ
raws [] = []
raws ((msg, r) ∷ msgs) = raw msg ++ raws msgs

abbrev pub HasBytes : Message × WriteResult → Type 0
HasBytes (msg, r) = NonEmpty (raw msg)

-- Bytes wait, and nobody will write them.
abbrev pub IsStalled : OutSock → Type 0
IsStalled s = IsSound s × (s.wfail ≡ false) × (s.writing ≡ false) × (0 < s.wsize)

put_all-stays :
    (msgs : List (Message × WriteResult)) (s : OutSock)
    → All HasBytes msgs
    → IsStalled s
    → (s' : OutSock) × (put_all msgs s ≡ ok s')
      × IsStalled s'
      × (pending s' ≡ pending s ++ raws msgs)
unfolding putmsg
put_all-stays [] s h st = (s, refl, st, sym (append-nil (pending s)))
put_all-stays ((msg, r) ∷ msgs) s (p, h) (i, e, w, z) =
    let f : (s.wsize == 0) ≡ false = ground arith in
    let one : putmsg msg r s ≡ ok (enqueue msg s) =
      ap
        (λ b.
          if b
          then ok s
          else if s.wsize == 0
          then output false r (enqueue msg s)
          else ok (enqueue msg s))
        e
      ∙ ap (λ b. if b then output false r (enqueue msg s) else ok (enqueue msg s)) f in
    let (s', all, st, k) =
      put_all-stays msgs (enqueue msg s) h (enqueue-IsSound msg s p i, e, w, omega arith) in
    (
      s',
      ap (λ t. t >>= put_all msgs) one ∙ all,
      st,
      k
          ∙ ap (λ xs. xs ++ raws msgs) (enqueue-pending msg s i)
          ∙ append_assoc (pending s) (raw msg) (raws msgs),
    )

-- When `writev` would block on the first message of a fresh socket, `output` returns before it
-- registers the write callback: whatever messages are put behind it, and whatever `writev` would
-- return for them, all the bytes stay in the queue and nothing will call `output` again.
pub put_all-IsStalled :
    (msg : Message) (msgs : List (Message × WriteResult))
    → NonEmpty (raw msg)
    → All HasBytes msgs
    → (s : OutSock) × (put_all ((msg, again) ∷ msgs) fresh ≡ ok s)
      × IsStalled s
      × (pending s ≡ raw msg ++ raws msgs)
unfolding putmsg output
put_all-IsStalled msg msgs p h =
    let i : IsSound fresh = record { sized = refl; starts = refl; whole = tt } in
    let st : IsStalled (enqueue msg fresh) =
      (enqueue-IsSound msg fresh p i, refl, refl, omega arith) in
    let (s, all, st', k) = put_all-stays msgs (enqueue msg fresh) h st in
    (s, all, st', k ∙ ap (λ xs. xs ++ raws msgs) (append-nil (raw msg)))

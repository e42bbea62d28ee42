-- ===== src/Rpc/MsgSock/Sending.antt =====
-- What a message socket of xdrpp/msgsock.cc sends over a run of `putmsg` and the write callback.
use cs244b.Base.{
  ℕ, ◌+◌, ◌≡◌, refl, sym, ap, ◌∙◌, Bool, true, false, List, [], ◌∷◌, ◌++◌, append_assoc, append-nil,
  ◌==◌, if◌then◌else◌, length, drop, length-append, All-append, arith, Bool-cases, inl, inr,
  drop-append_short, subst, ◌≢◌,
}
use cs244b.Xdr.Error.{Result, ok}
use cs244b.Xdr.Message.{Message}
use cs244b.Rpc.MsgSock.{OutSock, raw, concat, WriteResult, output, enqueue, putmsg}
use cs244b.Rpc.MsgSock.Output.{pending, NonEmpty, StartsIn, IsSound}
use cs244b.Rpc.MsgSock.Writing.{concat-append, starts-le, taken, Permitted, Sent, output_lem}

starts-append :
    (w : ℕ) (queue : List (List ℕ)) (xs : List ℕ)
    → StartsIn w queue
    → NonEmpty xs
    → StartsIn w (queue ++ (xs ∷ []))
starts-append w [] xs h p = omega arith
starts-append w (front ∷ queue) xs h p = h

pub enqueue-pending :
    (msg : Message) (s : OutSock) → IsSound s → pending (enqueue msg s) ≡ pending s ++ raw msg
enqueue-pending msg s i =
    ap (drop s.wstart)
      (concat-append s.wqueue (raw msg ∷ []) ∙ ap (◌++◌ (concat s.wqueue)) (append-nil (raw msg)))
    ∙ drop-append_short s.wstart (concat s.wqueue) (raw msg) (starts-le s.wstart s.wqueue i.starts)

pub enqueue-IsSound :
    (msg : Message) (s : OutSock) → NonEmpty (raw msg) → IsSound s → IsSound (enqueue msg s)
enqueue-IsSound msg s p i = record {
  sized =
      ap (λ n. n + length (raw msg)) i.sized
      ∙ sym (length-append (pending s) (raw msg))
      ∙ ap length (sym (enqueue-pending msg s i));
  starts = starts-append s.wstart s.wqueue (raw msg) i.starts p;
  whole = All-append NonEmpty s.wqueue (raw msg ∷ []) i.whole (p, tt);
}

-- What `putmsg` writes at once.
abbrev pub put_taken : Message → WriteResult → OutSock → List ℕ
put_taken msg r s = if s.wfail then [] else if s.wsize == 0 then taken r (enqueue msg s) else []

failed-not : {b : Bool} → b ≡ true → b ≢ false
failed-not e f = cc

pub putmsg_lem :
    (msg : Message) (r : WriteResult) (s : OutSock)
    → IsSound s
    → NonEmpty (raw msg)
    → Permitted r (enqueue msg s)
    → (s' : OutSock) × (putmsg msg r s ≡ ok s')
      × Sent s.wfail (pending s ++ raw msg) (put_taken msg r s) s'
unfolding putmsg
putmsg_lem msg r s i p h = elim (Bool-cases s.wfail) [
  | inl e ↦ (
    s,
    ap
        (λ b.
          if b
          then ok s
          else if s.wsize == 0
          then output false r (enqueue msg s)
          else ok (enqueue msg s))
        e,
    (i, λ f. absurd (failed-not e f)),
  )
  | inr e ↦
      let head : putmsg msg r s
          ≡ (if s.wsize == 0 then output false r (enqueue msg s) else ok (enqueue msg s)) =
        ap
          (λ b.
            if b
            then ok s
            else if s.wsize == 0
            then output false r (enqueue msg s)
            else ok (enqueue msg s))
          e in
      let out : put_taken msg r s ≡ (if s.wsize == 0 then taken r (enqueue msg s) else []) =
        ap (λ b. if b then [] else if s.wsize == 0 then taken r (enqueue msg s) else []) e in
      let k : pending (enqueue msg s) ≡ pending s ++ raw msg = enqueue-pending msg s i in
      let j : IsSound (enqueue msg s) = enqueue-IsSound msg s p i in
      elim (Bool-cases (s.wsize == 0)) [
        | inl f ↦
            let (s', o, (j', l)) = output_lem false r (enqueue msg s) j h in
            (
              s',
              head
                  ∙ ap (λ b. if b then output false r (enqueue msg s) else ok (enqueue msg s)) f
                  ∙ o,
              (
                j',
                λ g. (
                  e,
                  sym k
                      ∙ (l g).1
                      ∙ ap (λ xs. xs ++ pending s')
                          (sym (out ∙ ap (λ b. if b then taken r (enqueue msg s) else []) f)),
                ),
              ),
            )
        | inr f ↦ (
          enqueue msg s,
          head ∙ ap (λ b. if b then output false r (enqueue msg s) else ok (enqueue msg s)) f,
          (
            j,
            λ g. (
              e,
              sym k
                  ∙ ap (λ xs. xs ++ pending (enqueue msg s))
                      (sym (out ∙ ap (λ b. if b then taken r (enqueue msg s) else []) f)),
            ),
          ),
        )
      ]
]

-- A fresh socket.
abbrev pub fresh : OutSock
fresh = record { wqueue = []; wsize = 0; wstart = 0; wfail = false; writing = false }

-- The states that calls of `putmsg` and of the write callback lead to, with the bytes of the messages
-- given to the socket and the bytes that `writev` took.
pub data Runs : OutSock → List ℕ → List ℕ → Type 0 where
  start : Runs fresh [] []
  put :
      {s s' : OutSock} {given out : List ℕ} (msg : Message) (r : WriteResult)
      → Runs s given out
      → NonEmpty (raw msg)
      → Permitted r (enqueue msg s)
      → putmsg msg r s ≡ ok s'
      → Runs s' (given ++ raw msg) (out ++ put_taken msg r s)
  ready :
      {s s' : OutSock} {given out : List ℕ} (r : WriteResult)
      → Runs s given out
      → s.writing ≡ true
      → Permitted r s
      → output true r s ≡ ok s'
      → Runs s' given (out ++ taken r s)

ok_unique : {a b : OutSock} {r : Result OutSock} → r ≡ ok a → r ≡ ok b → a ≡ b
ok_unique e f = cc

-- In every state that `putmsg` of messages and the write callback lead to, with results that
-- `writev` can have, the output queue is well-formed; and unless the connection has failed, the
-- bytes of the messages given to the socket, in order, are the bytes that `writev` took and then
-- the bytes that wait.
pub Runs-in_order :
    (s : OutSock) (given out : List ℕ)
    → Runs s given out
    → IsSound s × ((s.wfail ≡ false) → given ≡ out ++ pending s)
Runs-in_order s given out start = (record { sized = refl; starts = refl; whole = tt }, λ e. refl)
Runs-in_order s given out (put {s = s₀} {given = given₀} {out = out₀} msg r runs p h e) =
    let (i, l) = Runs-in_order s₀ given₀ out₀ runs in
    let (s', o, (j, k)) = putmsg_lem msg r s₀ i p h in
    let same : s' ≡ s = ok_unique o e in
    subst
      (λ t.
        IsSound t
        × ((t.wfail ≡ false) → given₀ ++ raw msg ≡ (out₀ ++ put_taken msg r s₀) ++ pending t))
      same
      (
        j,
        λ f.
            ap (λ xs. xs ++ raw msg) (l (k f).0)
            ∙ append_assoc out₀ (pending s₀) (raw msg)
            ∙ ap (◌++◌ out₀) (k f).1
            ∙ sym (append_assoc out₀ (put_taken msg r s₀) (pending s')),
      )
Runs-in_order s given out (ready {s = s₀} {given = given₀} {out = out₀} r runs w h e) =
    let (i, l) = Runs-in_order s₀ given₀ out₀ runs in
    let (s', o, (j, k)) = output_lem true r s₀ i h in
    let same : s' ≡ s = ok_unique o e in
    subst (λ t. IsSound t × ((t.wfail ≡ false) → given₀ ≡ (out₀ ++ taken r s₀) ++ pending t)) same
      (
        j,
        λ f. l (k f).0 ∙ ap (◌++◌ out₀) (k f).1 ∙ sym (append_assoc out₀ (taken r s₀) (pending s')),
      )

-- ===== src/Rpc/Sock/Once.antt =====
-- How often an `rpc_sock` of xdrpp/msgsock.h calls the callbacks that `send_call` is given.
use cs244b.Base.{
  ℕ, ◌+◌, ◌≡◌, refl, ap₂, subst, append-nil, ◌∙◌, Bool, Option, none, some, List, [], ◌∷◌, ◌++◌,
  ltb, ◌==◌, length, arith, Bool-cases, inl, inr,
}
use cs244b.Base.Assoc.{Eq, find, nat_eq}
use cs244b.Xdr.Word.{swap32le}
use cs244b.Xdr.Error.{Result, ok, err, ◌>>=◌}
use cs244b.Xdr.Message.{Machine, Message}
use cs244b.Rpc.Types.{call_type, reply_type}
use cs244b.Rpc.Sock.{
  RpcSock, Action, put, word, send_call, recv_call, on_reply, aborted, abort_all_calls, give_up,
  no_server, recv_message, recv_msg,
}
use cs244b.Rpc.Sock.Counting.{
  count, count-append, waiting, called, IsUnique, called-append, called-aborted, count-insert,
  insert-IsUnique, erase-IsUnique, count-erase, Balanced,
}

module _ (C : Type 0) ⦃e : Eq C⦄ where
  -- The actions call no callback of a call.
  abbrev Silent : Result (List (Action C)) → Type 0
  Silent (ok acts) = called acts ≡ []
  Silent (err x) = Unit {0}

  put-Silent : (r : Result Message) → Silent (do reply ← r; ok (put reply ∷ []))
  put-Silent (ok reply) = refl
  put-Silent (err x) = tt

  no_server-Silent : (m : Machine) (msg : Option Message) → Silent (no_server m msg)
  unfolding no_server
  no_server-Silent m none = tt
  no_server-Silent m (some msg) = put-Silent _

module _ {C : Type 0} ⦃e : Eq C⦄ where
  recv_call-Silent :
      (m : Machine) (msg : Option Message) (s : RpcSock C) → Silent C (recv_call m msg s)
  unfolding recv_call
  recv_call-Silent m msg s = elim (Bool-cases s.has_server) [
    | inl h ↦ rw h refl
    | inr h ↦ rw h (no_server-Silent C m msg)
  ]

  serve-Balanced :
      (c : C) (s : RpcSock C) (r : Result (List (Action C)))
      → IsUnique s.calls
      → Silent C r
      → Balanced c s (do acts ← r; ok (s, acts))
  serve-Balanced c s (ok acts) u h = (rw h (omega arith), u)
  serve-Balanced c s (err x) u h = tt

  abort-Balanced :
      (c : C) (s : RpcSock C) (r : Result (List (Action C)))
      → Silent C r
      → Balanced c s (do more ← r; ok (record s { calls = [] }, aborted s.calls ++ more))
  abort-Balanced c s (ok more) h =
      let e : called (aborted s.calls ++ more) ≡ waiting s.calls ++ [] =
        called-append (aborted s.calls) more ∙ ap₂ ◌++◌ (called-aborted s.calls) h in
      (rw (e, append-nil (waiting s.calls)) (omega arith), tt)
  abort-Balanced c s (err x) h = tt

  give_up-Balanced : (c : C) (m : Machine) (s : RpcSock C) → Balanced c s (give_up m s)
  unfolding give_up abort_all_calls
  give_up-Balanced c m s = abort-Balanced c s (recv_call m none s) (recv_call-Silent m none s)

  on_reply-Balanced :
      (c : C) (msg : Message) (x : ℕ) (s : RpcSock C) (o : Option C)
      → find x s.calls ≡ o
      → IsUnique s.calls
      → Balanced c s (ok (on_reply msg x s o))
  unfolding on_reply
  on_reply-Balanced c msg x s none f u = (omega arith, u)
  on_reply-Balanced c msg x s (some cb) f u =
      (omega (arith, count-erase c cb x s.calls f u), erase-IsUnique x s.calls u)

  -- Whatever arrives, also when the connection ends, `recv_msg` calls each callback as often as it
  -- takes it off the calls that wait.
  pub recv_msg-Balanced :
      (c : C) (m : Machine) (msg : Option Message) (s : RpcSock C)
      → IsUnique s.calls
      → Balanced c s (recv_msg m msg s)
  unfolding recv_msg recv_message
  recv_msg-Balanced c m none s u = give_up-Balanced c m s
  recv_msg-Balanced c m (some msg) s u = elim (Bool-cases (ltb (length msg.body) 8)) [
    | inl h ↦ rw h (give_up-Balanced c m s)
    | inr h ↦ elim (Bool-cases (word m 1 msg == swap32le m.big call_type)) [
      | inl k ↦
          rw (h, k)
            (serve-Balanced c s (recv_call m (some msg) s) u (recv_call-Silent m (some msg) s))
      | inr k ↦ elim (Bool-cases (word m 1 msg == swap32le m.big reply_type)) [
        | inl j ↦
            rw (h, k, j)
              (on_reply-Balanced c msg (word m 0 msg) s (find (word m 0 msg) s.calls) refl u)
        | inr j ↦ rw (h, k, j) (give_up-Balanced c m s)
      ]
    ]
  ]

  -- The states that `send_call` of messages with new xids and `recv_msg` lead to, with the callbacks
  -- given to the socket and those that were called.
  pub data History (m : Machine) : RpcSock C → List C → List C → Type 0 where
    created :
        (has_server : Bool)
        → History m (record { xid = 0; calls = []; has_server = has_server }) [] []
    sent :
        {s : RpcSock C} {given done : List C} (msg : Message) (cb : C)
        → History m s given done
        → find (word m 0 msg) s.calls ≡ none
        → History m (send_call m msg cb s).0 (given ++ (cb ∷ [])) done
    received :
        {s s' : RpcSock C} {given done : List C} {acts : List (Action C)} (msg : Option Message)
        → History m s given done
        → recv_msg m msg s ≡ ok (s', acts)
        → History m s' given (done ++ called acts)

  -- In every state that `send_call` of messages whose xid no call waits for and `recv_msg` of
  -- anything lead to, each callback was given to the socket as often as it was called and still
  -- waits, taken together, and no xid stands for two waiting calls: no callback is lost, and
  -- none is called twice.
  pub History-once :
      (m : Machine) (c : C) (s : RpcSock C) (given done : List C)
      → History m s given done
      → (count c given ≡ count c done + count c (waiting s.calls)) × IsUnique s.calls
  unfolding send_call
  History-once m c s given done (created h) = (refl, tt)
  History-once m c s given done (sent {s = s₀} {given = given₀} {done = done₀} msg cb h f) =
      let (e, u) = History-once m c s₀ given₀ done₀ h in
      (
        omega (
          arith,
          e,
          count-append c given₀ (cb ∷ []),
          count-insert c cb (word m 0 msg) s₀.calls f,
        ),
        insert-IsUnique (word m 0 msg) cb s₀.calls f u,
      )
  History-once m c s given done
        (received {s = s₀} {s' = s₁} {given = given₀} {done = done₀} {acts = acts} msg h r) =
      let (e, u) = History-once m c s₀ given₀ done₀ h in
      let (b, v) = subst (Balanced c s₀) r (recv_msg-Balanced c m msg s₀ u) in
      (omega (arith, e, b, count-append c done₀ (called acts)), v)

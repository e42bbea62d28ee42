-- ===== src/Rpc/Sock/Calls.antt =====
-- Choosing the xid of a call, and matching a reply with its call.
use cs244b.Base.{
  ℕ, zero, suc, ◌+◌, ◌-◌, ◌%◌, ◌≤◌, ◌≡◌, refl, sym, ◌∙◌, Bool, true, false, ◌&&◌, not, none, some,
  List, [], ◌∷◌, ltb, ◌==◌, length, arith, Bool-cases, Option-cases, inl, inr, ◌⊎◌,
}
use cs244b.Base.Assoc.{find, insert, erase, find-insert, find-erase, nat_eq}
use cs244b.Xdr.Word.{u32_mod, IsU32, swap32le, swap32}
use cs244b.Xdr.Error.{ok}
use cs244b.Xdr.Message.{Machine, Message}
use cs244b.Rpc.Types.{reply_type}
use cs244b.Rpc.Sock.{
  RpcSock, call_back, word, next_xid, get_xid, send_call, on_reply, is_some, recv_message, recv_msg,
}

-- A message that `recv_msg` takes for a reply, or for a call.
abbrev pub IsReply : Machine → Message → Type 0
IsReply m msg = (8 ≤ length msg.body) × (word m 1 msg ≡ swap32le m.big reply_type)

types-differ : (big : Bool) → (swap32le big 1 == swap32le big 0) ≡ false
unfolding swap32le swap32
types-differ true = refl
types-differ false = refl

not-true : (a b : Bool) → (a && not b) ≡ true → b ≡ false
not-true true false h = refl
not-true true true h = cc
not-true false b h = cc

module _ {C : Type 0} where
  IsFree : ℕ → List (ℕ × C) → Type 0
  IsFree x calls = IsU32 x × ((x ≡ 0) ⊎ (find x calls ≡ none))

  stop_free :
      (x : ℕ) (calls : List (ℕ × C))
      → (is_some (find x calls) && not (x == 0)) ≡ false
      → (x ≡ 0) ⊎ (find x calls ≡ none)
  unfolding is_some
  stop_free x calls h = elim (Option-cases (find x calls)) [
    | inl e ↦ inr e
    | inr (c, e) ↦ inl (let k : not (x == 0) ≡ false = rw e at h in ground arith)
  ]

  -- The round goes on, or ends with an xid that may be taken.
  next_xid_cases :
      (b : Bool) (fuel x : ℕ) (calls : List (ℕ × C))
      → (is_some (find x calls) && not (x == 0)) ≡ b
      → IsU32 x
      → (b ≡ true → IsFree (next_xid fuel calls x) calls)
      → IsFree (elim b [ true ↦ next_xid fuel calls x | false ↦ x ]) calls
  unfolding IsFree
  next_xid_cases true fuel x calls e h k = k refl
  next_xid_cases false fuel x calls e h k = (h, stop_free x calls e)

  next_xid_lem :
      (fuel : ℕ) (calls : List (ℕ × C)) (xid : ℕ)
      → IsU32 xid
      → fuel + xid ≡ u32_mod
      → IsFree (next_xid fuel calls xid) calls
  unfolding next_xid IsFree
  next_xid_lem zero calls xid h e = absurd (omega arith)
  next_xid_lem (suc fuel) calls xid h e =
      let x : ℕ = (xid + 1) % u32_mod in
      next_xid_cases (is_some (find x calls) && not (x == 0)) fuel x calls refl (omega arith) (λ k.
        let z : (x == 0) ≡ false = not-true (is_some (find x calls)) (x == 0) k in
        next_xid_lem fuel calls x (omega arith) (ground arith))

  -- Whatever calls wait, for an `xid_` of 32 bits the loop of `get_xid` ends within the rounds
  -- that the model gives it, with an xid of 32 bits that is 0 or that no call waits for, and
  -- `xid_` is that xid.
  pub get_xid_lem :
      (s : RpcSock C)
      → IsU32 s.xid
      → IsU32 (get_xid s).0
        × (((get_xid s).0 ≡ 0) ⊎ (find (get_xid s).0 s.calls ≡ none))
        × ((get_xid s).1 ≡ record s { xid = (get_xid s).0 })
  unfolding get_xid IsFree
  get_xid_lem s h =
      let (a, b) = next_xid_lem (u32_mod - s.xid) s.calls s.xid h (omega arith) in (a, b, refl)

  -- A reply of at least 8 bytes whose xid no call waits for changes nothing and calls nothing.
  pub recv_msg-unknown :
      (m : Machine) (r : Message) (s : RpcSock C)
      → IsReply m r
      → find (word m 0 r) s.calls ≡ none
      → recv_msg m (some r) s ≡ ok (s, [])
  unfolding recv_msg recv_message on_reply
  recv_msg-unknown m r s (l, w) f =
      let e : ltb (length r.body) 8 ≡ false = ground arith in
      rw (e, w, types-differ m.big, f)
        (let g : (swap32le m.big reply_type == swap32le m.big reply_type) ≡ true = ground arith in
          rw g refl)

  -- For a message whose xid no call waits for, the first reply with that xid behind its
  -- `send_call` runs the call's callback, once and on that reply, and forgets the call; what
  -- waits for any other xid is as before the two.
  pub recv_msg-send_call :
      (m : Machine) (msg r : Message) (cb : C) (s : RpcSock C)
      → find (word m 0 msg) s.calls ≡ none
      → IsReply m r
      → word m 0 r ≡ word m 0 msg
      → (s' : RpcSock C) × (recv_msg m (some r) (send_call m msg cb s).0
          ≡ ok (s', call_back cb (some r) ∷ []))
        × ((x : ℕ) → find x s'.calls ≡ find x s.calls)
  unfolding recv_msg recv_message on_reply send_call
  recv_msg-send_call m msg r cb s f (l, w) same =
      let x : ℕ = word m 0 msg in
      let sent : List (ℕ × C) = insert x cb s.calls in
      let e : ltb (length r.body) 8 ≡ false = ground arith in
      let g : (swap32le m.big reply_type == swap32le m.big reply_type) ≡ true = ground arith in
      let self : (x == x) ≡ true = ground arith in
      let found : find x sent ≡ some cb = find-insert x x cb s.calls f ∙ rw self refl in
      (
        record s { calls = erase x sent },
        rw (e, w, types-differ m.big, g, same, found) refl,
        λ j. find-erase x j sent ∙ elim (Bool-cases (x == j)) [
          | inl k ↦ let q : x ≡ j = ground arith in rw (k, sym q) (sym f)
          | inr k ↦ rw (k, find-insert x j cb s.calls f) (rw k refl)
        ],
      )

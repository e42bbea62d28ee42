-- ===== src/Rpc/Reply/Once.antt =====
-- How often `reply_cb_impl` of xdrpp/arpc.h calls its callback.
use cs244b.Base.{
  ℕ, ◌≤◌, ◌≡◌, refl, ◌∙◌, ◌⊎◌, inl, inr, Bool, true, false, Option, some, none, List, [], ◌∷◌, map,
  length, if◌then◌else◌, arith,
}
use cs244b.Xdr.Word.{IsU32}
use cs244b.Xdr.Error.{Error, Result, ok, err, ◌>>=◌}
use cs244b.Xdr.Codec.{Codec}
use cs244b.Xdr.Message.{Machine, Message}
use cs244b.Rpc.Types.{proc_unavail}
use cs244b.Rpc.Replies.{rpc_accepted_error_msg, rpc_auth_error_msg}
use cs244b.Rpc.Replies.Decode.{rpc_accepted_error_msg_carries}
use cs244b.Rpc.Tracing.{Floats}
use cs244b.Rpc.Reply.{
  ReplyCb, fresh, send_reply_msg, reject, reject_auth, reply_msg, send_reply, destroy, is_abort,
  after_use, use_all, end_life, life,
}

-- What a holder of the callback may call: `operator()`, with its trace, and the two `reject`.
pub data Use (A : Type 0) : Type 0 where
  replied : List ℕ × ℕ → A → Use A
  rejected auth_rejected : ℕ → Use A

module _ {A : Type 0} (m : Machine) (f : Floats) (c : Codec A) where
  abbrev pub used : Use A → ReplyCb → Result ReplyCb
  used (replied trace t) r = send_reply m f trace c t r
  used (rejected stat) r = reject m stat r
  used (auth_rejected stat) r = reject_auth m stat r

-- Before the reply, or behind it.
abbrev Fair : ReplyCb → Type 0
Fair r = ((r.live ≡ true) × (r.sent ≡ [])) ⊎ ((r.live ≡ false) × (length r.sent ≡ 1))

-- A step keeps this, and the xid.
abbrev StepFair : ℕ → Result ReplyCb → Type 0
StepFair xid (ok r) = Fair r × (r.xid ≡ xid)
StepFair xid (err e) = Unit {0}

send_reply_msg-StepFair :
    (msg : Message) (r : ReplyCb) → Fair r → StepFair r.xid (send_reply_msg msg r)
unfolding send_reply_msg
send_reply_msg-StepFair msg r (inl (live, none_sent)) =
    rw live (inr (refl, rw none_sent refl), refl)
send_reply_msg-StepFair msg r (inr (dead, one)) = rw dead tt

built-StepFair :
    (built : Result Message) (r : ReplyCb)
    → Fair r
    → StepFair r.xid (do msg ← built; send_reply_msg msg r)
built-StepFair (err e) r h = tt
built-StepFair (ok msg) r h = send_reply_msg-StepFair msg r h

-- Where a life ends: the process, by a failed assertion or a fault, or the object, behind one reply.
abbrev pub RepliedOnce : Result (ReplyCb × Option Error) → Type 0
RepliedOnce (ok (r, e)) = (length r.sent ≡ 1) × (r.live ≡ false)
RepliedOnce (err e) = is_abort e ≡ true

module _ (m : Machine) (xid : ℕ) (x : IsU32 xid) (deep : 6 ≤ m.marshaling_stack_limit) where
  end_life-RepliedOnce :
      (r : ReplyCb) (e : Option Error) → Fair r → r.xid ≡ xid → RepliedOnce (end_life m (r, e))
  unfolding end_life destroy send_reply_msg
  end_life-RepliedOnce r e (inl (live, none_sent)) same =
      let (msg, built, _, _) =
        rpc_accepted_error_msg_carries m xid x deep proc_unavail (omega arith) (omega arith)
          (omega arith) in
      rw (live, same, built, none_sent) (refl, refl)
  end_life-RepliedOnce r e (inr (dead, one)) same = rw dead (one, refl)

  ended : Error → Bool → ReplyCb → Result (ReplyCb × Option Error)
  ended e b r = do y ← (if b then err e else ok (r, some e)); end_life m y

  ended-RepliedOnce :
      (r : ReplyCb) (e : Error) (b : Bool)
      → is_abort e ≡ b
      → Fair r
      → r.xid ≡ xid
      → RepliedOnce (ended e b r)
  unfolding ended
  ended-RepliedOnce r e true a h same = a
  ended-RepliedOnce r e false a h same = end_life-RepliedOnce r (some e) h same

  module _ {A : Type 0} (f : Floats) (c : Codec A) where
    used-StepFair : (u : Use A) (r : ReplyCb) → Fair r → StepFair r.xid (used m f c u r)
    unfolding send_reply
    used-StepFair (replied trace t) r h = built-StepFair (reply_msg m f r.xid trace c t) r h
    used-StepFair (rejected stat) r h = built-StepFair (rpc_accepted_error_msg m r.xid stat) r h
    used-StepFair (auth_rejected stat) r h = built-StepFair (rpc_auth_error_msg m r.xid stat) r h

    life_from :
        (us : List (Use A)) (r : ReplyCb)
        → Fair r
        → r.xid ≡ xid
        → RepliedOnce (life m (map (used m f c) us) r)
    unfolding life use_all ended
    life_from [] r h same = end_life-RepliedOnce r none h same
    life_from (u ∷ us) r h same =
        go (used m f c u r) (used-StepFair u r h) (λ r' fair e. life_from us r' fair e)
      where
        go :
            (res : Result ReplyCb)
            → StepFair r.xid res
            → ((r' : ReplyCb)
                → Fair r'
                → r'.xid ≡ xid
                → RepliedOnce (life m (map (used m f c) us) r'))
            → RepliedOnce (do x ← after_use res r (use_all (map (used m f c) us)); end_life m x)
        go (ok r') (fair, xid_same) rest = rest r' fair (xid_same ∙ same)
        go (err e) _ rest = ended-RepliedOnce r e (is_abort e) refl h same

    -- For an xid of 32 bits and a stack limit of at least 6, whatever a server does with its
    -- reply callback (any sequence of replies and rejections, an exception of one of them, or
    -- nothing), the life of the callback object ends with exactly one message sent, or the
    -- process ends by a failed assertion or a fault.
    pub life-RepliedOnce :
        (us : List (Use A)) → RepliedOnce (life m (map (used m f c) us) (fresh xid))
    life-RepliedOnce us = life_from us (fresh xid) (inl (refl, refl)) refl

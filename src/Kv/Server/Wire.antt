-- ===== src/Kv/Server/Wire.antt =====
-- The synchronous server over the wire: what a client's callback gets for its calls.
use cs244b.Base.{
  ℕ, ◌^◌, ◌≤◌, ◌<◌, ◌≡◌, refl, sym, ap, ◌∙◌, subst, Bool, none, some, List, [], ◌∷◌, ◌++◌, length,
  length-append, arith, if◌then◌else◌,
}
use cs244b.Base.Assoc.{find, assign, find-assign, text_eq}
use cs244b.Base.Ordered
use cs244b.Xdr.Word.{IsU32, IsU64}
use cs244b.Xdr.Error.{ok}
use cs244b.Xdr.Codec.{Codec, u32}
use cs244b.Xdr.Format.{Format, Implements}
use cs244b.Xdr.Format.Words.{u32-Implements, length-be32}
use cs244b.Xdr.Message.{Machine, Message}
use cs244b.Rpc.Types.{RpcMsg}
use cs244b.Rpc.Codec.Header.{msg_format}
use cs244b.Rpc.Replies.{SuccessHdr, success_msg}
use cs244b.Rpc.Replies.Success.{success_header, length-success_header, IsValidHdr}
use cs244b.Rpc.Dispatch.{Outcome, send, with_args, dispatch, register_service_base}
use cs244b.Rpc.Dispatch.Header.{request}
use cs244b.Rpc.Dispatch.Errors.{dispatch-served}
use cs244b.Rpc.Client.{result, call_header, on_reply}
use cs244b.Rpc.Client.Invoke.{call_header-IsValid}
use cs244b.Rpc.Client.Replies.{on_reply-success_msg}
use cs244b.Kv.Protocol.{value, success, get_res, kv_vers, kv_proc, kv_put_proc, kv_get_proc}
use cs244b.Kv.Protocol.Format.{
  get_res-Implements, put_format, put_args-Implements, get_format, get_args-Implements,
}
use cs244b.Kv.Server.{
  Store, kv_put, found_value, kv_get, srpc_path, srpc_reply, kv_service, kv_servers,
}
use cs244b.Kv.Server.Values.{
  IsSound, IsSound, assign-IsSound, found_value-IsValid, found_value-depth, found_value-length,
  if-found,
}

-- One reply and no exception, in the given state; a client's callback gets the given result from it,
-- with and without the trace.
abbrev pub Yields : {A S : Type 0} → Machine → Codec A → S → Outcome S → A → Type 0
Yields m c s o a =
    (msg : Message) × (o ≡ record { replies = some msg ∷ []; thrown = none; state = s })
    × ((trace : Bool) → on_reply m c trace (some msg) ≡ ok (result a))

success_msg-Yields :
    {A S : Type 0} {c : Codec A} {f : Format A} (imp : Implements c f) (m : Machine) (s : S)
    (h : SuccessHdr) (t : A)
    → IsValidHdr h
    → f.IsValid t
    → 6 ≤ m.marshaling_stack_limit
    → f.depth t ≤ m.marshaling_stack_limit
    → length (msg_format.bytes (success_header h) ++ f.bytes t) < 2 ^ 31
    → Yields m c s (send s (success_msg m h c t)) t
unfolding send
success_msg-Yields imp m s h t v w deep d short =
    let (msg, built, back) = on_reply-success_msg imp m h t v w deep d short in
    (msg, rw built refl, back)

module _ (m : Machine) (now : ℕ) (deep : 8 ≤ m.marshaling_stack_limit) (time : IsU64 now) where
  srpc_reply-Yields :
      {A S : Type 0} {c : Codec A} {f : Format A} (imp : Implements c f) (s : S) (hdr : RpcMsg)
      (t : A)
      → IsU32 hdr.xid
      → f.IsValid t
      → f.depth t ≤ 8
      → length (f.bytes t) ≤ 1024
      → Yields m c s (srpc_reply m now c s hdr t) t
  unfolding srpc_reply
  srpc_reply-Yields {f = f} imp s hdr t x w d n =
      let h : SuccessHdr = record { xid = hdr.xid; e_time = now; path = srpc_path } in
      let v : IsValidHdr h = record {
        xid_fits = x;
        time_fits = time;
        path_fits = omega arith;
        path_bytes = omega arith;
      } in
      success_msg-Yields imp m s h t v w (omega arith) (omega arith) (
        omega (
          arith,
          length-append (msg_format.bytes (success_header h)) (f.bytes t),
          length-success_header h,
        ))

  module _ {A : Type 0} {c : Codec A} {f : Format A} (imp : Implements c f)
      (handler : Store → RpcMsg → A → Outcome Store) (proc mode xid : ℕ) (mark : List ℕ)
      (vals : Store) (a : A) (runs : (kv_service m now).procs proc ≡ some (with_args m c handler))
      (valid : msg_format.IsValid (call_header xid (kv_proc proc) mode)) (v : f.IsValid a)
      (d : f.depth a ≤ 8) where
    -- A call of a procedure of the interface runs it.
    served :
        (handler vals (call_header xid (kv_proc proc) mode) a).thrown ≡ none
        → dispatch m
            (kv_servers m now)
            vals
            (request mark (call_header xid (kv_proc proc) mode) (f.bytes a))
          ≡ handler vals (call_header xid (kv_proc proc) mode) a
    unfolding register_service_base Ordered.find Ordered.assign
    served quiet =
        dispatch-served m (kv_servers m now) vals mark xid _ (f.bytes a) valid (omega arith)
          (imp.aligned a v) ((kv_vers, kv_service m now) ∷ []) (kv_service m now) refl refl refl
          (refl, refl) c handler runs f a imp v (omega arith) refl quiet

    served-Yields :
        {B : Type 0} (rc : Codec B) (vals' : Store) (b : B)
        → Yields m rc vals' (handler vals (call_header xid (kv_proc proc) mode) a) b
        → Yields m rc vals'
            (dispatch m
              (kv_servers m now)
              vals
              (request mark (call_header xid (kv_proc proc) mode) (f.bytes a)))
            b
    served-Yields rc vals' b (msg, e, back) = (msg, served (ap (λ o. o.thrown) e) ∙ e, back)

  module _ (mode xid : ℕ) (mark : List ℕ) (vals : Store) (x : IsU32 xid) (t : IsU32 mode) where
    header-IsValid :
        (proc : ℕ) → IsU32 proc → msg_format.IsValid (call_header xid (kv_proc proc) mode)
    header-IsValid proc p =
        call_header-IsValid xid (kv_proc proc) mode x
          (record { prog_fits = omega arith; vers_fits = omega arith; proc_fits = p }) t

    -- On a machine whose stack limit is at least 8, with a clock of 64 bits and an xid and trace
    -- mode of 32 bits, `dispatch` of a `kv_put` of a key and a value within the protocol's
    -- limits stores the value, and sends one reply from which the client's callback gets
    -- SUCCESS.
    pub put_served :
        (k v : List ℕ)
        → put_format.IsValid (k, v)
        → Yields m u32
            (assign k v vals)
            (dispatch m
              (kv_servers m now)
              vals
              (request mark (call_header xid kv_put_proc mode) (put_format.bytes (k, v))))
            success
    unfolding kv_put
    put_served k v w =
        served-Yields put_args-Implements
          (λ vals hdr (k, v).
            let (res, vals') = kv_put k v vals in srpc_reply m now u32 vals' hdr res)
          1 mode xid mark vals (k, v) refl (header-IsValid 1 (omega arith)) w (omega arith) u32
          (assign k v vals) success
          (srpc_reply-Yields u32-Implements (assign k v vals) (call_header xid kv_put_proc mode)
            success x (omega arith) (omega arith) (omega (arith, length-be32 success)))

    -- Under the same bounds, and with a store whose values are within the protocol's limits,
    -- `dispatch` of a `kv_get` changes nothing, and sends one reply from which the client's
    -- callback gets the value stored for the key, or NOTFOUND.
    pub get_served :
        (k : List ℕ)
        → get_format.IsValid k
        → IsSound vals
        → Yields m get_res vals
            (dispatch m
              (kv_servers m now)
              vals
              (request mark (call_header xid kv_get_proc mode) (get_format.bytes k)))
            (found_value (find k vals))
    unfolding kv_get
    get_served k w s =
        served-Yields get_args-Implements
          (λ vals hdr k. srpc_reply m now get_res vals hdr (kv_get k vals)) 2 mode xid mark vals k
          refl (header-IsValid 2 (omega arith)) w (omega arith) get_res vals
          (found_value (find k vals))
          (srpc_reply-Yields get_res-Implements vals (call_header xid kv_get_proc mode)
            (found_value (find k vals)) x (found_value-IsValid (find k vals) (s k))
            (found_value-depth (find k vals)) (found_value-length (find k vals) (s k)))

  -- On a machine whose stack limit is at least 8, with a server clock of 64 bits, xids and trace
  -- modes of 32 bits, a key and a value within the protocol's limits, and a store whose values
  -- are within them: after `dispatch` of a `kv_put` of `v` for `k`, `dispatch` of a `kv_get` for
  -- `j` sends one reply, from which the client's callback gets `v` if `j` is `k`, and what was
  -- stored for `j` before, or NOTFOUND, otherwise; the get leaves the store as the put made it.
  pub put_then_get :
      (mode mode' xid xid' : ℕ) (mark mark' : List ℕ) (vals : Store) (k v j : List ℕ)
      → IsU32 xid
      → IsU32 xid'
      → IsU32 mode
      → IsU32 mode'
      → put_format.IsValid (k, v)
      → get_format.IsValid j
      → IsSound vals
      → Yields m get_res
          (assign k v vals)
          (dispatch m
            (kv_servers m now)
            (dispatch m
              (kv_servers m now)
              vals
              (request mark (call_header xid kv_put_proc mode) (put_format.bytes (k, v)))).state
            (request mark' (call_header xid' kv_get_proc mode') (get_format.bytes j)))
          (if text_eq.same k j then value v else found_value (find j vals))
  unfolding kv_put found_value
  put_then_get mode mode' xid xid' mark mark' vals k v j x x' t t' w w' s =
      let (_, e, _) = put_served mode xid mark vals x t k v w in
      let stored : (dispatch m (kv_servers m now) vals
            (request mark (call_header xid kv_put_proc mode) (put_format.bytes (k, v)))).state
          ≡ assign k v vals =
        ap (λ o. o.state) e in
      let got : found_value (find j (assign k v vals))
          ≡ (if text_eq.same k j then value v else found_value (find j vals)) =
        ap found_value (find-assign k j v vals)
        ∙ if-found (text_eq.same k j) (some v) (find j vals) in
      subst
        (λ r.
          Yields m get_res (assign k v vals)
            (dispatch m (kv_servers m now) r
              (request mark' (call_header xid' kv_get_proc mode') (get_format.bytes j)))
            (if text_eq.same k j then value v else found_value (find j vals)))
        (sym stored)
        (subst
          (Yields m get_res (assign k v vals) (
            dispatch m (kv_servers m now) (assign k v vals)
              (request mark' (call_header xid' kv_get_proc mode') (get_format.bytes j))))
          got
          (get_served mode' xid' mark' (assign k v vals) x' t' j w'
            (assign-IsSound k v vals (w.1) s)))

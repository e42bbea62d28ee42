-- ===== src/Kv/AsyncServer/Wire.antt =====
-- The asynchronous server over the wire.
use cs244b.Base.{
  ℕ, ◌≤◌, ◌≡◌, refl, sym, ap, ◌∙◌, subst, some, List, [], ◌∷◌, length, length-append, All,
  Bool-cases, inl, inr, if◌then◌else◌, arith,
}
use cs244b.Base.Assoc.{find, assign, find-assign, text_eq}
use cs244b.Base.Ordered
use cs244b.Xdr.Word.{IsU32, IsByte}
use cs244b.Xdr.Codec.{Codec, u32}
use cs244b.Xdr.Format.{Format, Implements}
use cs244b.Xdr.Format.Words.{u32-Implements, length-be32}
use cs244b.Xdr.Message.{Machine}
use cs244b.Rpc.Types.{RpcMsg, CallBody}
use cs244b.Rpc.Codec.Header.{msg_format}
use cs244b.Rpc.Replies.{SuccessHdr}
use cs244b.Rpc.Replies.Success.{success_header, length-success_header, IsValidHdr}
use cs244b.Rpc.Dispatch.{Outcome, dispatch, register_service_base}
use cs244b.Rpc.Dispatch.Header.{request}
use cs244b.Rpc.Dispatch.Errors.{dispatch-runs}
use cs244b.Rpc.Client.{null_auth, call_header}
use cs244b.Rpc.Client.Invoke.{call_header-IsValid}
use cs244b.Rpc.Client.Replies.{on_reply-success_msg}
use cs244b.Rpc.Tracing.{Tracing, trace_of, start_time}
use cs244b.Rpc.Tracing.Bounds.{FloatLaws, length-path_of, path_of-IsByte, no_paths}
use cs244b.Rpc.Reply.{reply_msg, answer_once, arpc_procedure, quantized, begin}
use cs244b.Rpc.Reply.Serve.{traced, behind_trace, answer_once_ok, called, arpc_procedure_ok}
use cs244b.Kv.Protocol.{
  GetRes, value, success, get_res, kv_prog, kv_vers, kv_proc, kv_put_proc, kv_get_proc,
}
use cs244b.Kv.Protocol.Format.{
  get_res-Implements, put_format, get_format, put_args-Implements, get_args-Implements,
}
use cs244b.Kv.Server.{Store, found_value}
use cs244b.Kv.Server.Wire.{Yields}
use cs244b.Kv.Server.Values.{
  IsSound, assign-IsSound, found_value-IsValid, found_value-depth, found_value-length, if-found,
}
use cs244b.Kv.AsyncServer.{Node, kv_put, kv_get, async_service, async_servers}

-- A server process whose name is short, and which makes no calls of its own.
pub record IsLeaf (n : Node) (ts : Tracing) : Type 0 where
  pub laws : FloatLaws n.floats
  pub name_short : length n.node_name ≤ 64
  pub name_bytes : All IsByte n.node_name
  pub no_calls : ts.xid_string_map ≡ []

-- The maps behind a reply.
abbrev pub replied : Node → ℕ → Tracing → Tracing
replied n xid ts = behind_trace n.floats n.node_name xid n.replied_at ts

replied-IsLeaf : (n : Node) (xid : ℕ) (ts : Tracing) → IsLeaf n ts → IsLeaf n (replied n xid ts)
unfolding trace_of
replied-IsLeaf n xid ts l = record {
  laws = l.laws;
  name_short = l.name_short;
  name_bytes = l.name_bytes;
  no_calls = l.no_calls;
}

-- The header of a call.
abbrev kv_call : ℕ → ℕ → CallBody
kv_call proc mode = record {
  rpcvers = 2;
  prog = kv_prog;
  vers = kv_vers;
  proc = proc;
  cred = null_auth;
  verf = null_auth;
  trace_mode = mode;
}

module _ (n : Node) where
  -- The maps when the method runs, and behind its reply.
  abbrev at_call : ℕ → ℕ → ℕ → Tracing → Tracing
  at_call proc mode xid ts = called (kv_call proc mode) n.xdr_trace_server n.called_at xid ts

  abbrev pub behind_call : ℕ → ℕ → ℕ → Tracing → Tracing
  behind_call proc mode xid ts = replied n xid (at_call proc mode xid ts)

  at_call-IsLeaf :
      (proc mode xid : ℕ) (ts : Tracing) → IsLeaf n ts → IsLeaf n (at_call proc mode xid ts)
  unfolding begin start_time
  at_call-IsLeaf proc mode xid ts l = record {
    laws = l.laws;
    name_short = l.name_short;
    name_bytes = l.name_bytes;
    no_calls = elim (Bool-cases n.xdr_trace_server) [
      | inl b ↦ rw b l.no_calls
      | inr b ↦ rw b l.no_calls
    ];
  }

  behind_call-IsLeaf :
      (proc mode xid : ℕ) (ts : Tracing) → IsLeaf n ts → IsLeaf n (behind_call proc mode xid ts)
  behind_call-IsLeaf proc mode xid ts l =
      replied-IsLeaf n xid (at_call proc mode xid ts) (at_call-IsLeaf proc mode xid ts l)

module _ (m : Machine) (n : Node) (deep : 8 ≤ m.marshaling_stack_limit) where
  answer_once-Yields :
      {A S : Type 0} {c : Codec A} {f : Format A} (imp : Implements c f) (s : S) (ts : Tracing)
      (hdr : RpcMsg) (t : A)
      → IsLeaf n ts
      → IsU32 hdr.xid
      → f.IsValid t
      → f.depth t ≤ 8
      → length (f.bytes t) ≤ 1024
      → Yields m c
          (s, replied n hdr.xid ts)
          (answer_once m n.floats n.node_name n.replied_at c s ts hdr t)
          t
  unfolding reply_msg
  answer_once-Yields {c = c} {f = f} imp s ts hdr t l x w d k =
      let (path, raw_time) = traced n.floats n.node_name hdr.xid n.replied_at ts in
      let none_known = no_paths hdr.xid ts l.no_calls in
      let short : length path ≤ 386 = omega (
        arith,
        length-path_of n.floats l.laws n.node_name hdr.xid n.replied_at ts,
        l.name_short,
        ap length none_known,
      ) in
      let h : SuccessHdr = record {
        xid = hdr.xid;
        e_time = n.floats.of_u64 (quantized n.floats raw_time);
        path = path;
      } in
      let v : IsValidHdr h = record {
        xid_fits = x;
        time_fits = l.laws.u64_bits _;
        path_fits = omega arith;
        path_bytes =
            path_of-IsByte n.floats l.laws n.node_name hdr.xid n.replied_at ts l.name_bytes
              (subst (All IsByte) (sym none_known) tt);
      } in
      let (msg, built, back) = on_reply-success_msg imp m h t v w (omega arith) (omega arith) (
        omega (
          arith,
          length-append (msg_format.bytes (success_header h)) (f.bytes t),
          length-success_header h,
        )) in
      (msg, answer_once_ok m n.floats n.node_name n.replied_at c s ts hdr t msg built, back)

  module _ {A B : Type 0} {c : Codec A} {f : Format A} (imp : Implements c f) (rc : Codec B)
      (handler : Store × Tracing → RpcMsg → A → Outcome (Store × Tracing)) (proc mode xid : ℕ)
      (mark : List ℕ) (vals vals' : Store) (ts : Tracing) (a : A) (b : B)
      (runs : (async_service m n).procs proc
        ≡ some (arpc_procedure m c n.xdr_trace_server n.called_at handler))
      (x : IsU32 xid) (t : IsU32 mode) (p : IsU32 proc) (v : f.IsValid a) (d : f.depth a ≤ 8) where
    -- A call of a procedure of the interface runs its method, between the two updates of the maps.
    async_served :
        Yields m rc
          (vals', behind_call n proc mode xid ts)
          (handler (vals, at_call n proc mode xid ts) (call_header xid (kv_proc proc) mode) a)
          b
        → Yields m rc
            (vals', behind_call n proc mode xid ts)
            (dispatch m
              (async_servers m n)
              (vals, ts)
              (request mark (call_header xid (kv_proc proc) mode) (f.bytes a)))
            b
    unfolding register_service_base Ordered.find Ordered.assign
    async_served (msg, e, back) =
        let run = arpc_procedure m c n.xdr_trace_server n.called_at handler in
        let valid =
          call_header-IsValid xid (kv_proc proc) mode x
            (record { prog_fits = omega arith; vers_fits = omega arith; proc_fits = p }) t in
        let ran =
          arpc_procedure_ok m c f a n.xdr_trace_server n.called_at xid handler vals ts
            (kv_call proc mode) imp v (omega arith) in
        (
          msg,
          dispatch-runs m (async_servers m n) (vals, ts) mark xid (kv_call proc mode) (f.bytes a)
                valid (omega arith) (imp.aligned a v) ((kv_vers, async_service m n) ∷ [])
                (async_service m n) refl refl refl (refl, refl) run runs
                (ap (λ o. o.thrown) (ran ∙ e))
              ∙ ran
              ∙ e,
          back,
        )

  module _ (mode xid : ℕ) (mark : List ℕ) (vals : Store) (ts : Tracing) (l : IsLeaf n ts)
      (x : IsU32 xid) (t : IsU32 mode) where
    pub async_put_served :
        (k v : List ℕ)
        → put_format.IsValid (k, v)
        → Yields m u32
            (assign k v vals, behind_call n 1 mode xid ts)
            (dispatch m
              (async_servers m n)
              (vals, ts)
              (request mark (call_header xid kv_put_proc mode) (put_format.bytes (k, v))))
            success
    unfolding kv_put
    async_put_served k v w =
        async_served put_args-Implements u32 (kv_put m n) 1 mode xid mark vals (assign k v vals) ts
          (k, v) success refl x t (omega arith) w (omega arith)
          (answer_once-Yields u32-Implements (assign k v vals) (at_call n 1 mode xid ts)
            (call_header xid kv_put_proc mode) success (at_call-IsLeaf n 1 mode xid ts l) x
            (omega arith) (omega arith) (omega (arith, length-be32 success)))

    pub async_get_served :
        (k : List ℕ)
        → get_format.IsValid k
        → IsSound vals
        → Yields m get_res
            (vals, behind_call n 2 mode xid ts)
            (dispatch m
              (async_servers m n)
              (vals, ts)
              (request mark (call_header xid kv_get_proc mode) (get_format.bytes k)))
            (found_value (find k vals))
    unfolding kv_get
    async_get_served k w s =
        async_served get_args-Implements get_res (kv_get m n) 2 mode xid mark vals vals ts k
          (found_value (find k vals)) refl x t (omega arith) w (omega arith)
          (answer_once-Yields get_res-Implements vals (at_call n 2 mode xid ts)
            (call_header xid kv_get_proc mode) (found_value (find k vals))
            (at_call-IsLeaf n 2 mode xid ts l) x (found_value-IsValid (find k vals) (s k))
            (found_value-depth (find k vals)) (found_value-length (find k vals) (s k)))

  -- For a server process without calls of its own, with a name of at most 64 bytes and doubles
  -- of 64 bits, a stack limit of at least 8, xids and trace modes of 32 bits, a key and a value
  -- within the protocol's limits, and a store whose values are: after `dispatch` of a `kv_put`
  -- of `v` for `k`, `dispatch` of a `kv_get` for `j` sends one reply, from which the client's
  -- callback gets `v` if `j` is `k`, and what was stored for `j` before, or NOTFOUND, otherwise;
  -- the maps of the tracing are those behind the two calls.
  pub async_put_then_get :
      (mode mode' xid xid' : ℕ) (mark mark' : List ℕ) (vals : Store) (ts : Tracing) (k v j : List ℕ)
      → IsLeaf n ts
      → IsU32 xid
      → IsU32 xid'
      → IsU32 mode
      → IsU32 mode'
      → put_format.IsValid (k, v)
      → get_format.IsValid j
      → IsSound vals
      → Yields m get_res
          (assign k v vals, behind_call n 2 mode' xid' (behind_call n 1 mode xid ts))
          (dispatch m
            (async_servers m n)
            (dispatch m
              (async_servers m n)
              (vals, ts)
              (request mark (call_header xid kv_put_proc mode) (put_format.bytes (k, v)))).state
            (request mark' (call_header xid' kv_get_proc mode') (get_format.bytes j)))
          (if text_eq.same k j then value v else found_value (find j vals))
  unfolding found_value
  async_put_then_get mode mode' xid xid' mark mark' vals ts k v j l x x' t t' w w' s =
      let (_, e, _) = async_put_served mode xid mark vals ts l x t k v w in
      let ts' = behind_call n 1 mode xid ts in
      let request' = request mark' (call_header xid' kv_get_proc mode') (get_format.bytes j) in
      let Seen = λ (st : Store × Tracing) (r : GetRes).
        Yields m get_res (assign k v vals, behind_call n 2 mode' xid' ts')
          (dispatch m (async_servers m n) st request') r in
      let got : found_value (find j (assign k v vals))
          ≡ (if text_eq.same k j then value v else found_value (find j vals)) =
        ap found_value (find-assign k j v vals)
        ∙ if-found (text_eq.same k j) (some v) (find j vals) in
      subst (λ st. Seen st (if text_eq.same k j then value v else found_value (find j vals)))
        (sym (ap (λ o. o.state) e))
        (subst (Seen (assign k v vals, ts')) got (
          async_get_served mode' xid' mark' (assign k v vals) ts'
            (behind_call-IsLeaf n 1 mode xid ts l) x' t' j w' (assign-IsSound k v vals (w.1) s)))

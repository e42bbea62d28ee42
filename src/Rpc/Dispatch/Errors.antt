-- ===== src/Rpc/Dispatch/Errors.antt =====
-- The ways through `rpc_server_base::dispatch` of xdrpp/server.cc: the error replies, and the call of a
-- procedure.
use cs244b.Base.{
  ℕ, ◌%◌, ◌≤◌, ◌≡◌, ◌≢◌, refl, ap, sym, subst, ◌∙◌, true, false, none, some, List, [], ◌∷◌, length,
  append-nil, arith, ◌==◌,
}
use cs244b.Base.Ordered
use cs244b.Base.Ordered.{last_key, IsSorted, IsAbove}
use cs244b.Xdr.Word.{IsU32}
use cs244b.Xdr.Error.{ok, ◌>>=◌, ◌>>◌}
use cs244b.Xdr.Archive.{GetArchive, done}
use cs244b.Xdr.Codec.{Codec}
use cs244b.Xdr.Format.{Format, Implements}
use cs244b.Xdr.Message.{Machine}
use cs244b.Rpc.Types.{
  prog_unavail, proc_unavail, garbage_args, RpcMsg, CallBody, failed, prog_mismatch, rpc_mismatch,
}
use cs244b.Rpc.Codec.Header.{msg_format}
use cs244b.Rpc.Replies.{rpc_accepted_error_msg, rpc_prog_mismatch_msg, rpc_rpc_mismatch_msg}
use cs244b.Rpc.Replies.Decode.{
  accepted_msg, denied_msg, rpc_accepted_error_msg_carries, rpc_prog_mismatch_msg_carries,
  rpc_rpc_mismatch_msg_carries,
}
use cs244b.Rpc.Dispatch.{
  Outcome, Procedure, Service, Servers, process, catch_garbage, check_call, call_dispatch,
  with_version, choose_version, answer_call, answer, with_args, decode_arg, run_procedure, on_args,
  catch_decode, dispatch,
}
use cs244b.Rpc.Dispatch.Header.{Answers, send-Answers, behind, request, call_msg, dispatch-answer}

version_mismatch :
    {S : Type 0} (m : Machine) (s : S) (xid low : ℕ) (service : Service S)
    (more : List (ℕ × Service S)) (c : CallBody) (g : GetArchive)
    → IsU32 xid
    → 6 ≤ m.marshaling_stack_limit
    → IsU32 low
    → IsU32 (last_key low more)
    → Ordered.find c.vers ((low, service) ∷ more) ≡ none
    → Answers m s
        (choose_version m ((low, service) ∷ more) c s (call_msg xid c) g)
        (accepted_msg xid (prog_mismatch (record { low = low; high = last_key low more })))
unfolding choose_version with_version
version_mismatch m s xid low service more c g hx deep hl hh e =
    subst
      (λ o.
        Answers m s (with_version m ((low, service) ∷ more) c s (call_msg xid c) g o)
          (accepted_msg xid (prog_mismatch (record { low = low; high = last_key low more }))))
      (sym e)
      (send-Answers m s (rpc_prog_mismatch_msg m xid low (last_key low more)) _
        (rpc_prog_mismatch_msg_carries m xid hx deep low (last_key low more) hl hh))

-- One reply and no exception are left as they are by the `try`.
catch_garbage-Answers :
    {S : Type 0} (m : Machine) (s : S) (xid : ℕ) (o : Outcome S) (h : RpcMsg)
    → Answers m s o h
    → Answers m s (catch_garbage m xid o) h
unfolding catch_garbage
catch_garbage-Answers m s xid o h (msg, e, back) = (msg, rw e refl, back)

pub decode_arg_ok :
    {A : Type 0} (m : Machine) (codec : Codec A) (f : Format A) (a : A) (args : List ℕ)
    → Implements codec f
    → f.IsValid a
    → f.depth a ≤ m.marshaling_stack_limit
    → args ≡ f.bytes a
    → decode_arg codec (behind m args) ≡ ok (some a)
unfolding decode_arg catch_decode done
decode_arg_ok m codec f a args imp v d e =
    let got : codec.get (behind m args) ≡ ok (a, behind m []) =
      ap (λ xs. codec.get (behind m xs)) (e ∙ sym (append-nil (f.bytes a)))
      ∙ imp.get_ok a (behind m []) [] v d in
    ap (λ r. catch_decode (do (b, g') ← r; done g'; ok b)) got

pub with_args_ok :
    {A S : Type 0} (m : Machine) (codec : Codec A) (f : Format A) (a : A)
    (handler : S → RpcMsg → A → Outcome S) (s : S) (hdr : RpcMsg)
    → Implements codec f
    → f.IsValid a
    → f.depth a ≤ m.marshaling_stack_limit
    → with_args m codec handler s hdr (behind m (f.bytes a)) ≡ handler s hdr a
unfolding with_args on_args
with_args_ok m codec f a handler s hdr imp v d =
    rw (decode_arg_ok m codec f a (f.bytes a) imp v d refl) refl

module _ {S : Type 0} (m : Machine) (servers : Servers S) (s : S) (mark : List ℕ) (xid : ℕ)
    (c : CallBody) (args : List ℕ) (valid : msg_format.IsValid (call_msg xid c))
    (deep : 6 ≤ m.marshaling_stack_limit) (whole : length args % 4 ≡ 0) where
  by_answer :
      (h : RpcMsg)
      → Answers m s (answer_call m servers c s (call_msg xid c) (behind m args)) h
      → Answers m s (dispatch m servers s (request mark (call_msg xid c) args)) h
  unfolding answer
  by_answer h a =
      subst (λ o. Answers m s o h)
        (sym (dispatch-answer m servers s mark (call_msg xid c) args valid deep whole)) a

  -- A call whose header is valid, on a machine with a stack limit of at least 6 and with
  -- arguments in whole words, with another RPC version than 2 is answered once, by a denial with
  -- the call's xid that names version 2, and leaves the state as it was.
  pub dispatch-rpc_mismatch :
      c.rpcvers ≢ 2
      → Answers m s
          (dispatch m servers s (request mark (call_msg xid c) args))
          (denied_msg xid (rpc_mismatch (record { low = 2; high = 2 })))
  unfolding answer_call
  dispatch-rpc_mismatch h =
      let e : (c.rpcvers == 2) ≡ false = ground arith in
      by_answer _ (
        rw e (
          send-Answers m s (rpc_rpc_mismatch_msg m xid) _
            (rpc_rpc_mismatch_msg_carries m xid (valid.0) deep)))

  -- A call whose header is valid, on a machine with a stack limit of at least 6 and with
  -- arguments in whole words, with RPC version 2, of a program that is not registered, is
  -- answered once, by PROG_UNAVAIL with the call's xid, and leaves the state as it was.
  pub dispatch-prog_unavail :
      c.rpcvers ≡ 2
      → Ordered.find c.prog servers ≡ none
      → Answers m s
          (dispatch m servers s (request mark (call_msg xid c) args))
          (accepted_msg xid (failed prog_unavail))
  unfolding answer_call
  dispatch-prog_unavail h e =
      let t : (c.rpcvers == 2) ≡ true = ground arith in
      by_answer _ (
        rw (t, e)
          (send-Answers m s (rpc_accepted_error_msg m xid prog_unavail) _ (
            rpc_accepted_error_msg_carries m xid (valid.0) deep prog_unavail (omega arith)
              (omega arith) (omega arith))))

  -- A call whose header is valid, on a machine with a stack limit of at least 6 and with
  -- arguments in whole words, with RPC version 2, of a registered program but of a version that
  -- it lacks, is answered once, by PROG_MISMATCH with the call's xid and the first and the last
  -- key of the program's versions, and leaves the state as it was; these keys have 32 bits.
  pub dispatch-prog_mismatch :
      (low : ℕ) (service : Service S) (more : List (ℕ × Service S))
      → c.rpcvers ≡ 2
      → Ordered.find c.prog servers ≡ some ((low, service) ∷ more)
      → Ordered.find c.vers ((low, service) ∷ more) ≡ none
      → IsU32 low
      → IsU32 (last_key low more)
      → Answers m s
          (dispatch m servers s (request mark (call_msg xid c) args))
          (accepted_msg xid (prog_mismatch (record { low = low; high = last_key low more })))
  unfolding answer_call
  dispatch-prog_mismatch low service more h e f hl hh =
      let t : (c.rpcvers == 2) ≡ true = ground arith in
      by_answer _ (
        rw (t, e)
          (version_mismatch m s xid low service more c (behind m args) (valid.0) deep hl hh f))

  module _ (versions : List (ℕ × Service S)) (service : Service S) (two : c.rpcvers ≡ 2)
      (found : Ordered.find c.prog servers ≡ some versions)
      (there : Ordered.find c.vers versions ≡ some service)
      (own : (service.prog ≡ c.prog) × (service.vers ≡ c.vers)) where
    -- What a call of a registered program and version comes to.
    to_procedure :
        dispatch m servers s (request mark (call_msg xid c) args)
        ≡ catch_garbage m xid (call_dispatch m service c.proc s (call_msg xid c) (behind m args))
    unfolding answer answer_call choose_version with_version process check_call
    to_procedure =
        let t : (c.rpcvers == 2) ≡ true = ground arith in
        let p : (c.prog == service.prog) ≡ true = ground arith in
        let v : (c.vers == service.vers) ≡ true = ground arith in
        dispatch-answer m servers s mark (call_msg xid c) args valid deep whole
        ∙ rw (t, found)
            (ap (with_version m versions c s (call_msg xid c) (behind m args)) there
              ∙ rw (t, p, v) refl)

    -- A call whose header is valid, on a machine with a stack limit of at least 6 and with
    -- arguments in whole words, with RPC version 2, of a registered program and version but of a
    -- procedure that the interface lacks, is answered once, by PROC_UNAVAIL with the call's xid,
    -- and leaves the state as it was.
    pub dispatch-proc_unavail :
        service.procs c.proc ≡ none
        → Answers m s
            (dispatch m servers s (request mark (call_msg xid c) args))
            (accepted_msg xid (failed proc_unavail))
    unfolding call_dispatch run_procedure
    dispatch-proc_unavail e =
        rw (to_procedure, e)
          (catch_garbage-Answers m s xid _ _ (
            send-Answers m s (rpc_accepted_error_msg m xid proc_unavail) _ (
              rpc_accepted_error_msg_carries m xid (valid.0) deep proc_unavail (omega arith)
                (omega arith) (omega arith))))

    -- The procedure runs, if it throws nothing.
    pub dispatch-runs :
        (run : Procedure S)
        → service.procs c.proc ≡ some run
        → (run s (call_msg xid c) (behind m args)).thrown ≡ none
        → dispatch m servers s (request mark (call_msg xid c) args)
          ≡ run s (call_msg xid c) (behind m args)
    unfolding call_dispatch run_procedure catch_garbage
    dispatch-runs run e quiet = rw (to_procedure, e, quiet) refl

    module _ {A : Type 0} (codec : Codec A) (handler : S → RpcMsg → A → Outcome S)
        (runs : service.procs c.proc ≡ some (with_args m codec handler)) where
      -- A call whose header is valid, on a machine with a stack limit of at least 6 and with
      -- arguments in whole words, with RPC version 2, of a registered procedure, with arguments
      -- that `decode_arg` refuses, is answered once, by GARBAGE_ARGS with the call's xid, and
      -- leaves the state as it was.
      pub dispatch-garbage_args :
          decode_arg codec (behind m args) ≡ ok none
          → Answers m s
              (dispatch m servers s (request mark (call_msg xid c) args))
              (accepted_msg xid (failed garbage_args))
      unfolding call_dispatch run_procedure with_args on_args
      dispatch-garbage_args e =
          rw (to_procedure, runs, e)
            (catch_garbage-Answers m s xid _ _ (
              send-Answers m s (rpc_accepted_error_msg m xid garbage_args) _ (
                rpc_accepted_error_msg_carries m xid (valid.0) deep garbage_args (omega arith)
                  (omega arith) (omega arith))))

      -- A call with RPC version 2 of a program, version and procedure that are registered, whose
      -- header is valid, on a machine with a stack limit of at least 6, whose arguments are the
      -- bytes of a valid value in the procedure's format and within the stack limit, is
      -- dispatched to the procedure's handler with that value, the header and the state, and
      -- does what the handler does, if the handler throws nothing.
      pub dispatch-served :
          (f : Format A) (a : A)
          → Implements codec f
          → f.IsValid a
          → f.depth a ≤ m.marshaling_stack_limit
          → args ≡ f.bytes a
          → (handler s (call_msg xid c) a).thrown ≡ none
          → dispatch m servers s (request mark (call_msg xid c) args) ≡ handler s (call_msg xid c) a
      unfolding call_dispatch run_procedure with_args on_args catch_garbage
      dispatch-served f a imp v d e quiet =
          rw (to_procedure, runs, decode_arg_ok m codec f a args imp v d e, quiet) refl

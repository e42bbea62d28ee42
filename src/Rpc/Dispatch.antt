-- ===== src/Rpc/Dispatch.antt =====
-- Dispatching a request: `rpc_server_base` of xdrpp/server.cc, `service_base` of xdrpp/server.h and
-- the `process` that arpc.h and srpc.h share.
pub mod Header
pub mod Errors
pub mod Register
use cs244b.Base.{
  ℕ, Bool, true, false, Option, none, some, List, [], ◌∷◌, ◌++◌, ◌==◌, ◌&&◌, if◌then◌else◌,
}
use cs244b.Base.Ordered
use cs244b.Base.Ordered.{last_key}
use cs244b.Xdr.Error.{Error, Result, ok, err, ◌>>=◌, ◌>>◌, is_runtime_error}
use cs244b.Xdr.Archive.{GetArchive, done}
use cs244b.Xdr.Codec.{Codec}
use cs244b.Xdr.Message.{Machine, Message, xdr_get}
use cs244b.Rpc.Types.{RpcMsg, Body, CallBody, call, reply, prog_unavail, proc_unavail, garbage_args}
use cs244b.Rpc.Codec.{rpc_msg}
use cs244b.Rpc.Replies.{rpc_accepted_error_msg, rpc_prog_mismatch_msg, rpc_rpc_mismatch_msg}

-- The calls of the reply callback, in order, the exception that ends the run, if any, and the state
-- of the server object behind it. A reply of `none` is `reply(nullptr)`.
pub record Outcome (S : Type 0) : Type 0 where
  pub replies : List (Option Message)
  pub thrown : Option Error
  pub state : S

-- What a procedure does with the archive behind the header, and the request's header.
abbrev pub Procedure : Type 0 → Type 0
Procedure S = S → RpcMsg → GetArchive → Outcome S

-- `call_dispatch`'s switch over the procedures of an interface.
pub record Service (S : Type 0) : Type 0 where
  pub prog : ℕ
  pub vers : ℕ
  pub procs : ℕ → Option (Procedure S)

-- `servers_`: services by program and version.
abbrev pub Servers : Type 0 → Type 0
Servers S = List (ℕ × List (ℕ × Service S))

unfoldable pub catch_decode : {A : Type 0} → Result A → Result (Option A)
catch_decode (ok a) = ok (some a)
catch_decode (err e) = if is_runtime_error e then ok none else err e

-- `decode_arg`, where `none` is the result `false`: the whole message must be used up, and an
-- `xdr_runtime_error` is caught.
unfoldable pub decode_arg : {A : Type 0} → Codec A → GetArchive → Result (Option A)
unfolding catch_decode
decode_arg c g = catch_decode (do (a, g') ← c.get g; done g'; ok a)

module _ {S : Type 0} where
  abbrev pub silent : S → Outcome S
  silent s = record { replies = []; thrown = none; state = s }

  abbrev pub throw : S → Error → Outcome S
  throw s e = record { replies = []; thrown = some e; state = s }

  -- A reply with a message that is built first.
  unfoldable pub send : S → Result Message → Outcome S
  send s (ok msg) = record { replies = some msg ∷ []; thrown = none; state = s }
  send s (err e) = throw s e

  abbrev pub versions_of : Option (List (ℕ × Service S)) → List (ℕ × Service S)
  versions_of none = []
  versions_of (some versions) = versions

  -- `servers_[s->prog_][s->vers_].reset(s)`
  unfoldable pub register_service_base : Service S → Servers S → Servers S
  register_service_base s servers =
      Ordered.assign s.prog (Ordered.assign s.vers s (versions_of (Ordered.find s.prog servers)))
        servers

  -- `service_base::check_call`
  unfoldable pub check_call : Service S → Body → Bool
  check_call s (call c) = c.rpcvers == 2 && (c.prog == s.prog && c.vers == s.vers)
  check_call s (reply r) = false

  pub run_procedure : Machine → S → RpcMsg → GetArchive → Option (Procedure S) → Outcome S
  run_procedure m s hdr g (some run) = run s hdr g
  run_procedure m s hdr g none = send s (rpc_accepted_error_msg m hdr.xid proc_unavail)

  -- `call_dispatch`, with the reply for a procedure that the interface lacks.
  unfoldable pub call_dispatch : Machine → Service S → ℕ → S → RpcMsg → GetArchive → Outcome S
  unfolding run_procedure
  call_dispatch m service proc s hdr g = run_procedure m s hdr g (service.procs proc)

  -- `arpc_service::process` and `srpc_service::process`. There is no return behind
  -- `reply(nullptr)`.
  unfoldable pub process : Machine → Service S → CallBody → S → RpcMsg → GetArchive → Outcome S
  process m service c s hdr g =
      let rest = call_dispatch m service c.proc s hdr g in
      if check_call service (call c) then rest else record rest { replies = none ∷ rest.replies }

  pub on_args :
      {A : Type 0}
      → Machine
      → (S → RpcMsg → A → Outcome S)
      → S
      → RpcMsg
      → Result (Option A)
      → Outcome S
  on_args m handler s hdr (ok (some a)) = handler s hdr a
  on_args m handler s hdr (ok none) = send s (rpc_accepted_error_msg m hdr.xid garbage_args)
  on_args m handler s hdr (err e) = throw s e

  -- The part of `dispatch` that the service's procedures share: decode the arguments, and answer
  -- GARBAGE_ARGS if that fails.
  unfoldable pub with_args :
      {A : Type 0} → Machine → Codec A → (S → RpcMsg → A → Outcome S) → Procedure S
  unfolding on_args decode_arg
  with_args m c handler s hdr g = on_args m handler s hdr (decode_arg c g)

  -- The last line of `dispatch`, behind the replies that were sent before.
  pub reply_garbage : Machine → ℕ → Outcome S → Outcome S
  reply_garbage m xid o =
      let last = send o.state (rpc_accepted_error_msg m xid garbage_args) in
      record last { replies = o.replies ++ last.replies }

  -- The `try` around `process`: a runtime error is answered by GARBAGE_ARGS.
  unfoldable pub catch_garbage : Machine → ℕ → Outcome S → Outcome S
  unfolding reply_garbage
  catch_garbage m xid o = elim o.thrown [
    | none ↦ o
    | some e ↦ if is_runtime_error e then reply_garbage m xid o else o
  ]

  -- Behind the lookup of the version: `cbegin()` of an empty map is no access that C++ defines.
  pub with_version :
      Machine
      → List (ℕ × Service S)
      → CallBody
      → S
      → RpcMsg
      → GetArchive
      → Option (Service S)
      → Outcome S
  with_version m versions c s hdr g (some service) =
      catch_garbage m hdr.xid (process m service c s hdr g)
  with_version m [] c s hdr g none = throw s Error.fault
  with_version m ((low, service) ∷ more) c s hdr g none =
      send s (rpc_prog_mismatch_msg m hdr.xid low (last_key low more))

  -- Behind the lookup of the program.
  unfoldable pub choose_version :
      Machine → List (ℕ × Service S) → CallBody → S → RpcMsg → GetArchive → Outcome S
  choose_version m versions c s hdr g =
      with_version m versions c s hdr g (Ordered.find c.vers versions)

  -- `rpc_server_base::dispatch` behind the unmarshalling of the header.
  unfoldable pub answer_call : Machine → Servers S → CallBody → S → RpcMsg → GetArchive → Outcome S
  answer_call m servers c s hdr g =
      if c.rpcvers == 2
      then elim (Ordered.find c.prog servers) [
        | none ↦ send s (rpc_accepted_error_msg m hdr.xid prog_unavail)
        | some versions ↦ choose_version m versions c s hdr g
      ]
      else send s (rpc_rpc_mismatch_msg m hdr.xid)

  unfoldable pub answer : Machine → Servers S → Body → S → RpcMsg → GetArchive → Outcome S
  answer m servers (call c) s hdr g = answer_call m servers c s hdr g
  answer m servers (reply r) s hdr g = silent s

  -- A malformed header is ignored, if the exception is a runtime error.
  pub on_header : Machine → Servers S → S → Result (RpcMsg × GetArchive) → Outcome S
  on_header m servers s (ok (hdr, g)) = answer m servers hdr.body s hdr g
  on_header m servers s (err e) = if is_runtime_error e then silent s else throw s e

  -- A message whose size is no multiple of four throws outside the `try`.
  pub on_archive : Machine → Servers S → S → Result GetArchive → Outcome S
  unfolding on_header
  on_archive m servers s (ok g) = on_header m servers s (rpc_msg.get g)
  on_archive m servers s (err e) = throw s e

  unfoldable pub dispatch : Machine → Servers S → S → Message → Outcome S
  unfolding on_archive
  dispatch m servers s msg = on_archive m servers s (xdr_get m msg)

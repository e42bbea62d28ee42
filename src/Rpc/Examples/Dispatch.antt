-- ===== src/Rpc/Examples/Dispatch.antt =====
-- Dispatching a request to a small table of services.
use cs244b.Base.{ℕ, ◌≡◌, refl, false, Option, none, some, [], ◌∷◌, arith, ◌==◌, if◌then◌else◌}
use cs244b.Base.Ordered
use cs244b.Xdr.Word.{be32}
use cs244b.Xdr.Error.{ok, is_runtime_error}
use cs244b.Xdr.Archive.{get_u32, check_rest}
use cs244b.Xdr.Codec.{u32}
use cs244b.Xdr.Format.Words.{u32_format, u32-Implements}
use cs244b.Xdr.Message.{Machine}
use cs244b.Rpc.Types.{RpcMsg, CallBody, failed, garbage_args}
use cs244b.Rpc.Client.{null_auth}
use cs244b.Rpc.Replies.Decode.{accepted_msg}
use cs244b.Rpc.Dispatch.{
  Outcome, Procedure, Service, Servers, silent, with_args, decode_arg, catch_decode, dispatch,
}
use cs244b.Rpc.Dispatch.Header.{Answers, request, call_msg, behind}
use cs244b.Rpc.Dispatch.Errors.{dispatch-garbage_args, dispatch-served}
use cs244b.Rpc.Dispatch.Register.{IsRegistry}

abbrev little : Machine
little = record { big = false; marshaling_stack_limit = 10 }

-- One procedure, number 1, which keeps its argument as the state and does not reply.
abbrev keep : ℕ → RpcMsg → ℕ → Outcome ℕ
keep s hdr a = silent a

abbrev procs : ℕ → Option (Procedure ℕ)
procs proc = if proc == 1 then some (with_args little u32 keep) else none

abbrev service : Service ℕ
service = record { prog = 9; vers = 3; procs = procs }

abbrev servers : Servers ℕ
servers = (9, (3, service) ∷ []) ∷ []

abbrev a_call : ℕ → ℕ → ℕ → ℕ → CallBody
a_call rpcvers prog vers proc = record {
  rpcvers = rpcvers;
  prog = prog;
  vers = vers;
  proc = proc;
  cred = null_auth;
  verf = null_auth;
  trace_mode = 0;
}

too_short : decode_arg u32 (behind little []) ≡ ok none
unfolding decode_arg catch_decode u32 get_u32 check_rest is_runtime_error
too_short = refl

garbage_args_example :
    Answers little 0
      (dispatch little servers 0 (request [] (call_msg 7 (a_call 2 9 3 1)) []))
      (accepted_msg 7 (failed garbage_args))
unfolding Ordered.find
garbage_args_example =
    dispatch-garbage_args little servers 0 [] 7 (a_call 2 9 3 1) [] (omega arith) (omega arith) refl
      ((3, service) ∷ []) service refl refl refl (refl, refl) u32 keep refl too_short

served_example :
    dispatch little servers 0 (request [] (call_msg 7 (a_call 2 9 3 1)) (be32 5)) ≡ silent 5
unfolding Ordered.find be32
served_example =
    dispatch-served little servers 0 [] 7 (a_call 2 9 3 1) (be32 5) (omega arith) (omega arith) refl
      ((3, service) ∷ []) service refl refl refl (refl, refl) u32 keep refl u32_format 5
      u32-Implements (omega arith) (omega arith) refl refl

empty : IsRegistry {S = ℕ} []
unfolding Ordered.find
empty = (tt, λ p. tt)

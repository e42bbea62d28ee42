-- ===== src/Rpc/Reply/Serve.antt =====
-- The asynchronous server of xdrpp/arpc.h behind `rpc_server_base::dispatch`: what a method's reply
-- comes to.
use cs244b.Base.{ℕ, ◌≤◌, ◌≡◌, refl, Bool, some, none, List, [], ◌∷◌}
use cs244b.Xdr.Error.{ok}
use cs244b.Xdr.Codec.{Codec}
use cs244b.Xdr.Format.{Format, Implements}
use cs244b.Xdr.Message.{Machine, Message}
use cs244b.Rpc.Types.{RpcMsg, CallBody}
use cs244b.Rpc.Dispatch.{Outcome}
use cs244b.Rpc.Dispatch.Header.{behind, call_msg}
use cs244b.Rpc.Dispatch.Errors.{with_args_ok}
use cs244b.Rpc.Tracing.{Floats, Tracing, trace_of}
use cs244b.Rpc.Reply.{
  reply_msg, send_reply, send_reply_msg, answer, answer_once, outcome_of, life, after_use, use_all,
  end_life, destroy, arpc_procedure, with_mode, begin,
}

-- The trace of a reply, and what the maps are behind it.
abbrev pub traced : Floats → List ℕ → ℕ → ℕ → Tracing → List ℕ × ℕ
traced f node_name xid e_time ts = (trace_of f node_name xid e_time ts).0

abbrev pub behind_trace : Floats → List ℕ → ℕ → ℕ → Tracing → Tracing
behind_trace f node_name xid e_time ts = (trace_of f node_name xid e_time ts).1

-- A reply that can be built is the one reply.
pub answer_once_ok :
    {A S : Type 0} (m : Machine) (f : Floats) (node_name : List ℕ) (e_time : ℕ) (c : Codec A)
    (s : S) (ts : Tracing) (hdr : RpcMsg) (t : A) (msg : Message)
    → reply_msg m f hdr.xid (traced f node_name hdr.xid e_time ts) c t ≡ ok msg
    → answer_once m f node_name e_time c s ts hdr t ≡ record {
      replies = some msg ∷ [];
      thrown = none;
      state = (s, behind_trace f node_name hdr.xid e_time ts);
    }
unfolding answer_once answer send_reply send_reply_msg outcome_of life use_all end_life destroy
answer_once_ok m f node_name e_time c s ts hdr t msg e = rw (e, after_use) refl

-- The tracing when a method runs.
abbrev pub called : CallBody → Bool → ℕ → ℕ → Tracing → Tracing
called c trace_server now xid ts =
    begin trace_server now xid (record ts { trace_mode = c.trace_mode })

pub arpc_procedure_ok :
    {A S : Type 0} (m : Machine) (codec : Codec A) (f : Format A) (a : A) (trace_server : Bool)
    (now xid : ℕ) (handler : S × Tracing → RpcMsg → A → Outcome (S × Tracing)) (s : S)
    (ts : Tracing) (c : CallBody)
    → Implements codec f
    → f.IsValid a
    → f.depth a ≤ m.marshaling_stack_limit
    → arpc_procedure m codec trace_server now handler
        (s, ts)
        (call_msg xid c)
        (behind m (f.bytes a))
      ≡ handler (s, called c trace_server now xid ts) (call_msg xid c) a
unfolding arpc_procedure with_mode
arpc_procedure_ok m codec f a trace_server now xid handler s ts c imp v d =
    with_args_ok m codec f a
      (λ (s', ts') hdr a. handler (s', begin trace_server now hdr.xid ts') hdr a)
      (s, record ts { trace_mode = c.trace_mode }) (call_msg xid c) imp v d

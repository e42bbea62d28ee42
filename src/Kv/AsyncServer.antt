-- ===== src/Kv/AsyncServer.antt =====
-- The asynchronous server: cxx/async_server.h and async_server.cc, behind `arpc_service` of
-- xdrpp/arpc.h. A method's sleep is the time between the clock at the call and at the reply.
pub mod Wire
use cs244b.Base.{ℕ, Bool, Option, none, some, List, [], ◌∷◌, ◌==◌, if◌then◌else◌}
use cs244b.Base.Assoc.{find, assign, text_eq}
use cs244b.Xdr.Codec.{u32, void}
use cs244b.Xdr.Message.{Machine}
use cs244b.Rpc.Types.{RpcMsg}
use cs244b.Rpc.Dispatch.{Outcome, Procedure, Service, Servers, register_service_base}
use cs244b.Rpc.Tracing.{Floats, Tracing}
use cs244b.Rpc.Reply.{answer_once, arpc_procedure}
use cs244b.Kv.Protocol.{success, get_res, null_args, put_args, get_args, kv_prog, kv_vers}
use cs244b.Kv.Server.{Store, found_value}

-- What a server process has: the operations on doubles, its name, the global `xdr_trace_server`, and
-- the clock at a call and at its reply.
pub record Node : Type 0 where
  pub floats : Floats
  pub node_name : List ℕ
  pub xdr_trace_server : Bool
  pub called_at : ℕ
  pub replied_at : ℕ

module _ (m : Machine) (n : Node) where
  -- `KVPROT1_server::kv_null`
  unfoldable pub kv_null : Store × Tracing → RpcMsg → Unit {0} → Outcome (Store × Tracing)
  kv_null (vals, ts) hdr u = answer_once m n.floats n.node_name n.replied_at void vals ts hdr tt

  -- `KVPROT1_server::kv_put`
  unfoldable pub kv_put : Store × Tracing → RpcMsg → List ℕ × List ℕ → Outcome (Store × Tracing)
  kv_put (vals, ts) hdr (k, v) =
      answer_once m n.floats n.node_name n.replied_at u32 (assign k v vals) ts hdr success

  -- `KVPROT1_server::kv_get`
  unfoldable pub kv_get : Store × Tracing → RpcMsg → List ℕ → Outcome (Store × Tracing)
  kv_get (vals, ts) hdr k =
      answer_once m n.floats n.node_name n.replied_at get_res vals ts hdr
        (found_value (find k vals))

  abbrev pub async_procs : ℕ → Option (Procedure (Store × Tracing))
  async_procs proc =
      if proc == 0
      then some (arpc_procedure m null_args n.xdr_trace_server n.called_at kv_null)
      else if proc == 1
      then some (arpc_procedure m put_args n.xdr_trace_server n.called_at kv_put)
      else if proc == 2
      then some (arpc_procedure m get_args n.xdr_trace_server n.called_at kv_get)
      else none

  abbrev pub async_service : Service (Store × Tracing)
  async_service = record { prog = kv_prog; vers = kv_vers; procs = async_procs }

  -- `listen.register_service(s)` of `main`.
  abbrev pub async_servers : Servers (Store × Tracing)
  async_servers = register_service_base async_service []

-- ===== src/Kv/Server.antt =====
-- The synchronous server: server.h and server.cc, behind `srpc_service` of xdrpp/srpc.h.
pub mod Values
pub mod Wire
use cs244b.Base.{ℕ, Option, none, some, List, [], ◌∷◌, ◌==◌, if◌then◌else◌}
use cs244b.Base.Assoc.{find, assign, text_eq}
use cs244b.Xdr.Codec.{Codec, u32, void}
use cs244b.Xdr.Message.{Machine}
use cs244b.Rpc.Types.{RpcMsg}
use cs244b.Rpc.Replies.{SuccessHdr, success_msg}
use cs244b.Rpc.Dispatch.{
  Outcome, Procedure, Service, Servers, send, with_args, register_service_base,
}
use cs244b.Kv.Protocol.{
  GetRes, value, no_value, success, not_found, get_res, null_args, put_args, get_args, kv_prog,
  kv_vers,
}

-- `vals_`
abbrev pub Store : Type 0
Store = List (List ℕ × List ℕ)

-- `KVPROT1_server::kv_put`
unfoldable pub kv_put : List ℕ → List ℕ → Store → ℕ × Store
kv_put k v vals = (success, assign k v vals)

unfoldable pub found_value : Option (List ℕ) → GetRes
found_value none = no_value not_found
found_value (some v) = value v

-- `KVPROT1_server::kv_get`
unfoldable pub kv_get : List ℕ → Store → GetRes
unfolding found_value
kv_get k vals = found_value (find k vals)

-- "/S1/"
abbrev pub srpc_path : List ℕ
srpc_path = 47 ∷ 83 ∷ 49 ∷ 47 ∷ []

-- `reply(xdr_to_msg(rpc_success_hdr(…), *res))` of `srpc_service::dispatch`. `now` is the bit pattern of
-- `CycleTimer::currentSeconds()`.
unfoldable pub srpc_reply : {A S : Type 0} → Machine → ℕ → Codec A → S → RpcMsg → A → Outcome S
srpc_reply m now c s hdr res =
    send s (success_msg m (record { xid = hdr.xid; e_time = now; path = srpc_path }) c res)

abbrev pub kv_null_procedure : Machine → ℕ → Procedure Store
kv_null_procedure m now = with_args m null_args (λ vals hdr args. srpc_reply m now void vals hdr tt)

abbrev pub kv_put_procedure : Machine → ℕ → Procedure Store
kv_put_procedure m now =
    with_args m put_args
      (λ vals hdr (k, v). let (res, vals') = kv_put k v vals in srpc_reply m now u32 vals' hdr res)

abbrev pub kv_get_procedure : Machine → ℕ → Procedure Store
kv_get_procedure m now =
    with_args m get_args (λ vals hdr k. srpc_reply m now get_res vals hdr (kv_get k vals))

abbrev pub kv_procs : Machine → ℕ → ℕ → Option (Procedure Store)
kv_procs m now proc =
    if proc == 0
    then some (kv_null_procedure m now)
    else if proc == 1
    then some (kv_put_procedure m now)
    else if proc == 2
    then some (kv_get_procedure m now)
    else none

abbrev pub kv_service : Machine → ℕ → Service Store
kv_service m now = record { prog = kv_prog; vers = kv_vers; procs = kv_procs m now }

-- `listen.register_service(s)`
abbrev pub kv_servers : Machine → ℕ → Servers Store
kv_servers m now = register_service_base (kv_service m now) []

-- ===== src/Kv/TieringServer/Calls.antt =====
-- What a method of cxx/tiering_server.cc sends to the next tier.
use cs244b.Base.{ℕ, ◌≤◌, ◌^◌, ◌≡◌, refl, List, [], ◌∷◌, ◌++◌, length, All}
use cs244b.Xdr.Word.{IsU32}
use cs244b.Xdr.Error.{ok}
use cs244b.Xdr.Codec.{Codec}
use cs244b.Xdr.Format.{Format, Implements}
use cs244b.Xdr.Message.{Machine}
use cs244b.Rpc.Codec.Header.{msg_format}
use cs244b.Rpc.Dispatch.Header.{request}
use cs244b.Rpc.Sock.{RpcSock, Action, get_xid, send_call}
use cs244b.Rpc.Client.{Proc, call_header}
use cs244b.Rpc.Client.Invoke.{IsProc, mark_of, invoke-request}
use cs244b.Rpc.Tier.{tier_invoke}
use cs244b.Kv.TieringServer.{Connections, call_all}

module _ {A C : Type 0} {c : Codec A} {f : Format A} (imp : Implements c f) (m : Machine) (p : Proc)
    (a : A) (cb : C) (mode : ℕ) where
  -- One call on one socket: the request has the next xid.
  abbrev pub call_on : RpcSock C → RpcSock C × List (Action C)
  call_on s =
      send_call m
        (request (mark_of (msg_format.bytes (call_header (get_xid s).0 p mode) ++ f.bytes a))
          (call_header (get_xid s).0 p mode) (f.bytes a))
        cb (get_xid s).1

  -- A call on each socket.
  abbrev pub calls_on : Connections C → Connections C × List (Action C)
  calls_on [] = ([], [])
  calls_on ((server_id, s) ∷ conns) =
      ((server_id, (call_on s).0) ∷ (calls_on conns).0, (call_on s).1 ++ (calls_on conns).1)

  -- For sockets whose `xid_` has 32 bits and arguments within the limits, the loop makes one
  -- call on each connection, with the next xid of its socket.
  pub call_all_lem :
      (conns : Connections C)
      → All (λ (x : List ℕ × RpcSock C). IsU32 (x.1.xid)) conns
      → IsProc p
      → IsU32 mode
      → f.IsValid a
      → 6 ≤ m.marshaling_stack_limit
      → f.depth a ≤ m.marshaling_stack_limit
      → length (f.bytes a) ≤ 2 ^ 30
      → call_all m c p a cb mode conns ≡ ok (calls_on conns)
  unfolding call_all tier_invoke
  call_all_lem [] h i t v deep d n = refl
  call_all_lem ((server_id, s) ∷ conns) h i t v deep d n =
      rw
        (
          invoke-request imp m p a cb mode s (h.0) i t v deep d n,
          call_all_lem conns (h.1) i t v deep d n,
        )
        refl

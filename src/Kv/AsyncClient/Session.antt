-- ===== src/Kv/AsyncClient/Session.antt =====
-- The client program of cxx/async_client.cc with the server of cxx/server.cc: what a run shows.
use cs244b.Base.{
  ℕ, ◌^◌, ◌≤◌, ◌≡◌, refl, ap, Bool, false, Option, none, some, List, [], ◌∷◌, ◌++◌, length,
  length-append, ltb, arith,
}
use cs244b.Base.Assoc.{find, text_eq}
use cs244b.Xdr.Word.{IsU32, IsU64, be32}
use cs244b.Xdr.Format.{padded}
use cs244b.Xdr.Format.Words.{length-be32}
use cs244b.Xdr.Format.Padding.{length-padded}
use cs244b.Xdr.Error.{ok}
use cs244b.Xdr.Message.{Machine, Message}
use cs244b.Rpc.Codec.Header.{msg_format}
use cs244b.Rpc.Dispatch.{dispatch}
use cs244b.Rpc.Dispatch.Header.{request}
use cs244b.Rpc.Sock.{RpcSock, get_xid, send_call}
use cs244b.Rpc.Sock.Calls.{get_xid_lem}
use cs244b.Rpc.Client.{call_header, CallResult, result, on_reply}
use cs244b.Rpc.Client.Invoke.{mark_of, invoke-request}
use cs244b.Rpc.Tracing.{off}
use cs244b.Kv.Protocol.{GetRes, get_res, kv_get_proc}
use cs244b.Kv.Protocol.Format.{key_format, key-Implements}
use cs244b.Kv.Server.{Store, found_value, kv_servers}
use cs244b.Kv.Server.Values.{IsSound}
use cs244b.Kv.Server.Wire.{get_served}
use cs244b.Kv.AsyncClient.{Exit, get_cb, started_by, call_by, main, parse_cmd_line}

-- How `client key` ends when `stored` is what the server has for the key.
abbrev pub shows : Option (List ℕ) → Exit
shows none = record { status = 1; shown = none }
shows (some v) = record { status = 0; shown = some v }

get_cb-found_value :
    (stored : Option (List ℕ)) → get_cb (result (found_value stored)) ≡ shows stored
unfolding get_cb found_value
get_cb-found_value none = refl
get_cb-found_value (some v) = refl

-- The message of the call for a key.
abbrev pub get_request : {C : Type 0} → List ℕ → ℕ → RpcSock C → Message
get_request k mode s =
    let hdr = call_header (get_xid s).0 kv_get_proc mode in
    request (mark_of (msg_format.bytes hdr ++ key_format.bytes k)) hdr (key_format.bytes k)

pub key-length : (k : List ℕ) → length k ≤ 64 → length (key_format.bytes k) ≤ 2 ^ 30
key-length k h =
    omega (
      arith,
      h,
      length-append (be32 (length k)) (padded k),
      length-be32 (length k),
      length-padded k,
    )

module _ {C : Type 0} (m : Machine) (on_get on_put : C) where
  main-get :
      (argv : List (List ℕ)) (k : List ℕ) (mode : ℕ) (s : RpcSock C)
      → parse_cmd_line argv [] off ≡ some (k ∷ [], mode)
      → IsU32 s.xid
      → IsU32 mode
      → key_format.IsValid k
      → 6 ≤ m.marshaling_stack_limit
      → main m on_get on_put argv s
        ≡ started_by (ok (send_call m (get_request k mode s) on_get (get_xid s).1))
  unfolding main call_by
  main-get argv k mode s parsed x i v deep =
      let short : ltb 64 (length k) ≡ false = let n = v.0 in ground arith in
      let called =
        invoke-request key-Implements m kv_get_proc k on_get mode s x
          (record { prog_fits = omega arith; vers_fits = omega arith; proc_fits = omega arith }) i v
          deep (omega arith) (key-length k v.0) in
      rw (parsed, short) (ap started_by called)

  -- For a command line that is read as one key and a mode of 32 bits, a socket whose `xid_` has
  -- 32 bits, a key within the protocol's limit, a stack limit of at least 8, a server clock of
  -- 64 bits, and a store whose values are within the limits: the client makes one call, whose
  -- message the server answers with one reply and without a change, and the callback of the
  -- client ends the program with status 0 and the value stored for the key, or with status 1 and
  -- no value if there is none.
  pub get_session :
      (now : ℕ) (argv : List (List ℕ)) (k : List ℕ) (mode : ℕ) (s : RpcSock C) (vals : Store)
      → parse_cmd_line argv [] off ≡ some (k ∷ [], mode)
      → IsU32 s.xid
      → IsU32 mode
      → key_format.IsValid k
      → 8 ≤ m.marshaling_stack_limit
      → IsU64 now
      → IsSound vals
      → (reply : Message) × (main m on_get on_put argv s
          ≡ started_by (ok (send_call m (get_request k mode s) on_get (get_xid s).1)))
        × (dispatch m (kv_servers m now) vals (get_request k mode s)
            ≡ record { replies = some reply ∷ []; thrown = none; state = vals })
        × ((trace : Bool)
            → (r : CallResult GetRes) × (on_reply m get_res trace (some reply) ≡ ok r)
              × (get_cb r ≡ shows (find k vals)))
  get_session now argv k mode s vals parsed x i v deep time sound =
      let (x', _, _) = get_xid_lem s x in
      let (reply, answered, back) =
        get_served m now deep time mode (get_xid s).0
          (mark_of
            (msg_format.bytes (call_header (get_xid s).0 kv_get_proc mode) ++ key_format.bytes k))
          vals x' i k v sound in
      (
        reply,
        main-get argv k mode s parsed x i v (omega arith),
        answered,
        λ trace. (result (found_value (find k vals)), back trace, get_cb-found_value (find k vals)),
      )

-- ===== src/Kv/AsyncClient.antt =====
-- The asynchronous client program: cxx/async_client.cc. What it prints is the value that it shows, if
-- any, and the connection to the server is a socket that is given.
pub mod Flags
pub mod Session
use cs244b.Base.{
  ℕ, ◌+◌, Bool, ◌||◌, Option, none, some, List, [], ◌∷◌, ◌++◌, ltb, ◌==◌, if◌then◌else◌, length,
}
use cs244b.Base.Assoc.{text_beq}
use cs244b.Xdr.Error.{Error, Result, ok, err, ◌>>=◌, overflow}
use cs244b.Xdr.Codec.{pair}
use cs244b.Xdr.Message.{Machine}
use cs244b.Rpc.Sock.{RpcSock, Action}
use cs244b.Rpc.Client.{CallResult, result, failure, invoke}
use cs244b.Rpc.Tracing.{off, distributed_tracing}
use cs244b.Kv.Protocol.{
  GetRes, value, no_value, success, key, value_bytes, kv_put_proc, kv_get_proc,
}

-- How the program ends: its status, and the value that it has shown.
pub record Exit : Type 0 where
  pub status : ℕ
  pub shown : Option (List ℕ)

-- `get_cb`
unfoldable pub get_cb : CallResult GetRes → Exit
get_cb (result (value v)) = record { status = 0; shown = some v }
get_cb (result (no_value stat)) = record { status = 1; shown = none }
get_cb (failure stat) = record { status = 1; shown = none }

-- The callback of `kv_put` in `main`.
unfoldable pub put_cb : CallResult ℕ → Exit
put_cb (failure stat) = record { status = 1; shown = none }
put_cb (result stat) = record { status = if stat == success then 0 else 1; shown = none }

-- TRACING
abbrev pub tracing : ℕ
tracing = 1

-- "-h" and "--help", "-d" and "--distributed", "-t" and "--tracing".
abbrev pub is_help : List ℕ → Bool
is_help arg = text_beq arg (45 ∷ 104 ∷ []) || text_beq arg (45 ∷ 45 ∷ 104 ∷ 101 ∷ 108 ∷ 112 ∷ [])

abbrev pub is_distributed : List ℕ → Bool
is_distributed arg =
    text_beq arg (45 ∷ 100 ∷ [])
    || text_beq arg (45 ∷ 45 ∷ 100 ∷ 105 ∷ 115 ∷ 116 ∷ 114 ∷ 105 ∷ 98 ∷ 117 ∷ 116 ∷ 101 ∷ 100 ∷ [])

abbrev pub is_tracing : List ℕ → Bool
is_tracing arg =
    text_beq arg (45 ∷ 116 ∷ [])
    || text_beq arg (45 ∷ 45 ∷ 116 ∷ 114 ∷ 97 ∷ 99 ∷ 105 ∷ 110 ∷ 103 ∷ [])

-- The loop of `parse_cmd_line`; `none` shows the usage and exits with status 1.
unfoldable pub parse_cmd_line : List (List ℕ) → List (List ℕ) → ℕ → Option (List (List ℕ) × ℕ)
parse_cmd_line [] args mode = some (args, mode)
parse_cmd_line (arg ∷ argv) args mode =
    let distributed = parse_cmd_line argv args distributed_tracing in
    let traced = parse_cmd_line argv args tracing in
    let operand = parse_cmd_line argv (args ++ (arg ∷ [])) mode in
    if is_help arg
    then none
    else if is_distributed arg
    then (if mode == off then distributed else none)
    else if is_tracing arg
    then (if mode == off then traced else none)
    else operand

-- The constructor of `xstring<N>`.
abbrev pub xstring : ℕ → List ℕ → Result (List ℕ)
xstring max_size s = if ltb max_size (length s) then err overflow else ok s

-- What `main` does before `ps.run()`: it shows the usage, an exception ends it, or it waits on the
-- socket, behind the calls that it made.
pub data Started (C : Type 0) : Type 0 where
  usage : Started C
  terminated : Error → Started C
  runs : RpcSock C → List (Action C) → Started C

abbrev pub started_by : {C : Type 0} → Result (RpcSock C × List (Action C)) → Started C
started_by (err e) = terminated e
started_by (ok (s, acts)) = runs s acts

module _ {C : Type 0} (m : Machine) (on_get on_put : C) where
  -- The calls of `main`, with the socket and the arguments that are no flags.
  unfoldable pub call_by : ℕ → RpcSock C → List (List ℕ) → Started C
  call_by mode s [] = runs s []
  call_by mode s (k ∷ []) =
      started_by (do k' ← xstring 64 k; invoke m key kv_get_proc k' on_get mode s)
  call_by mode s (k ∷ v ∷ []) = started_by (do
    k' ← xstring 64 k
    v' ← xstring 512 v
    invoke m (pair key value_bytes) kv_put_proc (k', v') on_put mode s)
  call_by mode s (_ ∷ _ ∷ _ ∷ _) = usage

  abbrev pub with_args : Option (List (List ℕ) × ℕ) → RpcSock C → Started C
  with_args none s = usage
  with_args (some (args, mode)) s = call_by mode s args

  unfoldable pub main : List (List ℕ) → RpcSock C → Started C
  unfolding parse_cmd_line call_by
  main argv s = with_args (parse_cmd_line argv [] off) s

-- ===== src/Kv/Examples/Tiers.antt =====
-- The asynchronous and the tiering server at concrete calls.
use cs244b.Base.{ℕ, ◌≡◌, refl, false, true, List, [], ◌∷◌, ◌++◌, arith}
use cs244b.Base.Assoc.{find, assign, text_eq}
use cs244b.Xdr.Word.{be32}
use cs244b.Xdr.Error.{ok, wrong_union}
use cs244b.Xdr.Message.{Machine}
use cs244b.Rpc.Types.{RpcMsg}
use cs244b.Rpc.Dispatch.{dispatch}
use cs244b.Rpc.Sock.{RpcSock, Action}
use cs244b.Rpc.Dispatch.Header.{request}
use cs244b.Rpc.Client.{call_header, result}
use cs244b.Rpc.Tracing.{Tracing}
use cs244b.Rpc.Examples.Traces.{seconds, seconds-FloatLaws}
use cs244b.Kv.Protocol.{GetRes, value, get_res, kv_put_proc, kv_get_proc, no_value, key}
use cs244b.Kv.Protocol.Format.{key-Implements, put_format, get_format}
use cs244b.Kv.Server.Wire.{Yields}
use cs244b.Kv.Server.Values.{IsSound}
use cs244b.Kv.AsyncServer.{Node, async_servers}
use cs244b.Kv.AsyncServer.Wire.{IsLeaf, behind_call, async_put_then_get}
use cs244b.Kv.TieringServer.{
  Turn, counts, tests, handles, Connections, call_all, Master, process_throws, kv_get,
}
use cs244b.Kv.TieringServer.Calls.{calls_on, call_all_lem}
use cs244b.Kv.TieringServer.Gather.{kv_get_not_found}
use cs244b.Kv.TieringServer.Race.{
  Shared, Reach, counted, waiting, here, next, load, store, open_calls, Reach-all_counted,
}

abbrev little : Machine
little = record { big = false; marshaling_stack_limit = 10 }

-- The key "k" and the value "ab".
abbrev k : List ℕ
k = 107 ∷ []

abbrev ab : List ℕ
ab = 97 ∷ 98 ∷ []

abbrev leaf : Node
leaf = record {
  floats = seconds;
  node_name = 83 ∷ [];
  xdr_trace_server = true;
  called_at = 4;
  replied_at = 9;
}

abbrev idle : Tracing
idle = record { trace_mode = 0; xid_string_map = []; xid_time_map = [] }

leaf-IsLeaf : IsLeaf leaf idle
leaf-IsLeaf = record {
  laws = seconds-FloatLaws;
  name_short = omega arith;
  name_bytes = (omega arith, tt);
  no_calls = refl;
}

empty-IsSound : IsSound []
unfolding find
empty-IsSound j v e = cc

async_example :
    Yields little get_res
      (assign k ab [], behind_call leaf 2 1 8 (behind_call leaf 1 0 7 idle))
      (dispatch little
        (async_servers little leaf)
        (dispatch little
          (async_servers little leaf)
          ([], idle)
          (request [] (call_header 7 kv_put_proc 0) (put_format.bytes (k, ab)))).state
        (request [] (call_header 8 kv_get_proc 1) (get_format.bytes k)))
      (value ab)
async_example =
    async_put_then_get little leaf (omega arith) 0 1 7 8 [] [] [] idle k ab k leaf-IsLeaf
      (omega arith) (omega arith) (omega arith) (omega arith) (omega arith) (omega arith)
      empty-IsSound

-- One callback that has counted.
abbrev one_counted : Shared
one_counted = record {
  get_waiting = 0;
  last_get = k;
  callbacks = counted (result (value ab)) ∷ [];
  running = true;
}

a_run : Reach (waiting k (result (value ab) ∷ [])) one_counted
a_run =
    next (next here refl (load [] [] (result (value ab)) refl refl)) refl
      (store [] [] 1 (result (value ab)) refl refl)

counted_example : open_calls one_counted.callbacks ≡ 0
counted_example = Reach-all_counted k (result (value ab) ∷ []) (omega arith) a_run refl

-- Two servers in the next tier.
abbrev sock : RpcSock ℕ
sock = record { xid = 0; calls = []; has_server = false }

abbrev next_tier : Connections ℕ
next_tier = (49 ∷ [], sock) ∷ (50 ∷ [], sock) ∷ []

abbrev made : Connections ℕ × List (Action ℕ)
made = calls_on key-Implements little kv_get_proc k 40 0 next_tier

called : call_all little key kv_get_proc k 40 0 next_tier ≡ ok made
unfolding be32
called =
    call_all_lem key-Implements little kv_get_proc k 40 0 next_tier (omega arith, (omega arith, tt))
      (record { prog_fits = omega arith; vers_fits = omega arith; proc_fits = omega arith })
      (omega arith) (omega arith) (omega arith) (omega arith) (omega arith)

abbrev master : Master ℕ
master = record {
  connections = next_tier;
  waiting = record { get_waiting = 0; put_waiting = 0; last_get = [] };
}

abbrev hdr : RpcMsg
hdr = call_header 7 kv_get_proc 0

-- Both callbacks count before the loop tests, and the second has not stored its value.
abbrev turns : List (Turn GetRes)
turns = counts ∷ tests ∷ handles (result (value ab)) ∷ counts ∷ []

not_found_example :
    kv_get little leaf 40 (turns ++ (handles (result (no_value 1)) ∷ [])) idle (master, idle) hdr k
    ≡ (process_throws wrong_union, made.1)
not_found_example =
    kv_get_not_found little leaf 40 idle idle hdr k master made.0 made.1 (omega arith) called turns
      [] 1 (refl, (refl, (refl, (refl, tt)))) (omega arith, (omega arith, (omega arith, tt)))

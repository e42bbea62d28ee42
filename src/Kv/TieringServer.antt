-- ===== src/Kv/TieringServer.antt =====
-- The tiering server: cxx/tiering_server.h and tiering_server.cc. Its methods wait in a loop for the
-- replies of the next tier, whose callbacks run in other threads. The steps of the callbacks and the
-- tests of the loop are an argument, in their order; in it a decrement of the counter is one step, and
-- Race has what two decrements do to one another.
pub mod Calls
pub mod Gather
pub mod Race
use cs244b.Base.{
  ℕ, ◌+◌, ◌-◌, ◌%◌, Bool, true, false, Option, none, some, List, [], ◌∷◌, ◌++◌, ◌==◌, length,
  if◌then◌else◌,
}
use cs244b.Base.Assoc.{assign, text_eq}
use cs244b.Xdr.Word.{u32_mod}
use cs244b.Xdr.Error.{Error, Result, ok, err, ◌>>=◌, wrong_union}
use cs244b.Xdr.Codec.{Codec, u32, void, pair}
use cs244b.Xdr.Message.{Machine}
use cs244b.Rpc.Types.{RpcMsg}
use cs244b.Rpc.Dispatch.{Outcome}
use cs244b.Rpc.Sock.{RpcSock, Action}
use cs244b.Rpc.Client.{Proc, CallResult, result, failure}
use cs244b.Rpc.Tracing.{Floats, Tracing}
use cs244b.Rpc.Reply.{fresh, end_life, outcome_of, answer_once}
use cs244b.Rpc.Tier.{tier_invoke}
use cs244b.Kv.Protocol.{
  GetRes, value, no_value, success, get_res, key, value_bytes, kv_put_proc, kv_get_proc,
}
use cs244b.Kv.AsyncServer.{Node}

-- The globals `get_waiting`, `put_waiting` and `last_get`.
pub record Waiting : Type 0 where
  pub get_waiting : ℕ
  pub put_waiting : ℕ
  pub last_get : List ℕ

-- `--` on a `uint32_t`.
abbrev pub decrement : ℕ → ℕ
decrement w = (w + (u32_mod - 1)) % u32_mod

-- How a callback ends: it returns, throws, or calls `exit`.
pub data Ended (A : Type 0) : Type 0 where
  returns : A → Ended A
  throws : Error → Ended A
  exits : ℕ → Ended A

-- The first line of `get_cb`, and what is behind it: after the message for another status, `value()` is
-- read all the same.
abbrev pub count_get : Waiting → Waiting
count_get w = record w { get_waiting = decrement w.get_waiting }

unfoldable pub handle_get : CallResult GetRes → Waiting → Ended Waiting
handle_get (result (value v)) w = returns (record w { last_get = v })
handle_get (result (no_value stat)) w = throws wrong_union
handle_get (failure stat) w = returns w

-- `put_cb`, in the same parts.
abbrev pub count_put : Waiting → Waiting
count_put w = record w { put_waiting = decrement w.put_waiting }

unfoldable pub handle_put : CallResult ℕ → Waiting → Ended Waiting
handle_put (failure stat) w = exits 1
handle_put (result stat) w = if stat == success then returns w else exits 1

-- A step while a method waits: a callback counts its reply, a callback handles it, or the loop tests
-- the counter.
pub data Turn (A : Type 0) : Type 0 where
  counts tests : Turn A
  handles : CallResult A → Turn A

-- How `while (waiting > 0) {}` ends, for the steps that come while it runs: a test of the loop leaves it,
-- a callback ends the process, or it still runs. Steps behind its end are no part of the method.
pub data Loop : Type 0 where
  left : Waiting → Loop
  spins : Waiting → Loop
  thrown_by : Error → Loop
  exit_by : ℕ → Loop

abbrev pub and_then : Ended Waiting → (Waiting → Loop) → Loop
and_then (returns w) next = next w
and_then (throws e) next = thrown_by e
and_then (exits status) next = exit_by status

module _ {A : Type 0} (counter : Waiting → ℕ) (count : Waiting → Waiting)
    (handle : CallResult A → Waiting → Ended Waiting) where
  unfoldable pub await : List (Turn A) → Waiting → Loop
  await [] w = spins w
  await (counts ∷ ts) w = await ts (count w)
  await (handles r ∷ ts) w = and_then (handle r w) (await ts)
  await (tests ∷ ts) w = let rest = await ts w in if counter w == 0 then left w else rest

-- `next_tier_connections_`: the sockets of the clients by server.
abbrev pub Connections : Type 0 → Type 0
Connections C = List (List ℕ × RpcSock C)

-- `set_connection`
unfoldable pub set_connection : {C : Type 0} → List ℕ → RpcSock C → Connections C → Connections C
set_connection server_id s conns = assign server_id s conns

-- The loop over the connections: one call on each.
unfoldable pub call_all :
    {A C : Type 0}
    → Machine
    → Codec A
    → Proc
    → A
    → C
    → ℕ
    → Connections C
    → Result (Connections C × List (Action C))
call_all m c p a cb mode [] = ok ([], [])
call_all m c p a cb mode ((server_id, s) ∷ conns) = do
  (s', acts) ← tier_invoke m c p a cb mode s
  (conns', more) ← call_all m c p a cb mode conns
  ok ((server_id, s') ∷ conns', acts ++ more)

-- The server object with the globals.
pub record Master (C : Type 0) : Type 0 where
  pub connections : Connections C
  pub waiting : Waiting

-- A method: what it sends to the next tier, and how it ends, if it does.
pub data Method (S : Type 0) : Type 0 where
  ends : Outcome S → Method S
  never_ends : Method S
  process_throws : Error → Method S
  process_exits : ℕ → Method S

module _ {C : Type 0} (m : Machine) (n : Node) (cb : C) where
  -- An exception destroys the reply callback, which sends PROC_UNAVAIL.
  unfoldable pub unwound : Error → Master C → Tracing → RpcMsg → Outcome (Master C × Tracing)
  unwound e s ts hdr = outcome_of (s, ts) (end_life m (fresh hdr.xid, some e))

  -- Behind the loop: the reply.
  unfoldable pub behind_loop :
      {A : Type 0}
      → Codec A
      → (Waiting → A)
      → Connections C
      → Tracing
      → RpcMsg
      → Loop
      → Method (Master C × Tracing)
  behind_loop c res conns ts hdr (left w) = ends (
      answer_once m n.floats n.node_name n.replied_at c
        (record { connections = conns; waiting = w }) ts hdr (res w))
  behind_loop c res conns ts hdr (spins w) = never_ends
  behind_loop c res conns ts hdr (thrown_by e) = process_throws e
  behind_loop c res conns ts hdr (exit_by status) = process_exits status

  abbrev pub with_calls :
      Result (Connections C × List (Action C))
      → Master C
      → Tracing
      → RpcMsg
      → (Connections C → Method (Master C × Tracing))
      → Method (Master C × Tracing) × List (Action C)
  with_calls (err e) s ts hdr next = (ends (unwound e s ts hdr), [])
  with_calls (ok (conns, acts)) s ts hdr next = (next conns, acts)

  -- `KVPROT1_master::kv_null`
  unfoldable pub kv_null : Master C × Tracing → RpcMsg → Unit {0} → Outcome (Master C × Tracing)
  kv_null (s, ts) hdr u = answer_once m n.floats n.node_name n.replied_at void s ts hdr tt

  -- `KVPROT1_master::kv_put`, with the steps that come while it waits, and the maps behind them.
  unfoldable pub kv_put :
      List (Turn ℕ)
      → Tracing
      → Master C × Tracing
      → RpcMsg
      → List ℕ × List ℕ
      → Method (Master C × Tracing) × List (Action C)
  unfolding behind_loop
  kv_put turns ts' (s, ts) hdr (k, v) =
      let w = record s.waiting { put_waiting = length s.connections % u32_mod } in
      with_calls
        (call_all m (pair key value_bytes) kv_put_proc (k, v) cb ts.trace_mode s.connections)
        (record s { waiting = w }) ts hdr
        λ conns.
          behind_loop u32 (λ _. success) conns ts' hdr
            (await (λ w. w.put_waiting) count_put handle_put turns w)

  -- `KVPROT1_master::kv_get`
  unfoldable pub kv_get :
      List (Turn GetRes)
      → Tracing
      → Master C × Tracing
      → RpcMsg
      → List ℕ
      → Method (Master C × Tracing) × List (Action C)
  unfolding behind_loop
  kv_get turns ts' (s, ts) hdr k =
      let w = record s.waiting { get_waiting = length s.connections % u32_mod } in
      with_calls (call_all m key kv_get_proc k cb ts.trace_mode s.connections)
        (record s { waiting = w }) ts hdr
        λ conns.
          behind_loop get_res (λ w'. value w'.last_get) conns ts' hdr
            (await (λ w. w.get_waiting) count_get handle_get turns w)

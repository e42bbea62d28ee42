-- ===== src/Kv/TieringServer/Gather.antt =====
-- What `kv_get` of cxx/tiering_server.cc makes of the replies of the next tier, when no two callbacks
-- decrement the counter at the same time; the callbacks' other steps and the tests of the loop come in any
-- order.
use cs244b.Base.{
  ℕ, suc, ◌-◌, ◌%◌, ◌<◌, ◌≡◌, refl, sym, append-nil, ap, ◌∙◌, Bool, true, false, List, [], ◌∷◌,
  ◌++◌, ◌==◌, length, All, arith,
}
use cs244b.Xdr.Word.{u32_mod}
use cs244b.Xdr.Error.{ok, wrong_union}
use cs244b.Xdr.Message.{Machine}
use cs244b.Rpc.Types.{RpcMsg}
use cs244b.Rpc.Sock.{Action}
use cs244b.Rpc.Client.{result, failure}
use cs244b.Rpc.Tracing.{Tracing}
use cs244b.Kv.Protocol.{GetRes, value, no_value, get_res, key, kv_get_proc}
use cs244b.Kv.AsyncServer.{Node}
use cs244b.Kv.TieringServer.{
  Waiting, decrement, count_get, handle_get, Turn, counts, tests, handles, await, Loop, thrown_by,
  Connections, call_all, Master, never_ends, process_throws, behind_loop, kv_get,
}

-- A reply with a value, or none at all: not NOTFOUND.
abbrev pub readable : Turn GetRes → Bool
readable (handles (result (no_value stat))) = false
readable _ = true

abbrev pub AllReadable : List (Turn GetRes) → Type 0
AllReadable ts = All (λ t. readable t ≡ true) ts

-- The value that is stored last, or else what `last_get` was.
abbrev pub last_value : List ℕ → List (Turn GetRes) → List ℕ
last_value old [] = old
last_value old (handles (result (value v)) ∷ ts) = last_value v ts
last_value old (_ ∷ ts) = last_value old ts

-- How many callbacks count.
abbrev pub counted : List (Turn GetRes) → ℕ
counted [] = 0
counted (counts ∷ ts) = suc (counted ts)
counted (_ ∷ ts) = counted ts

-- With `k` callbacks that have still to count, no more count, and the loop tests only before the last
-- of them has.
abbrev pub StillWaits : ℕ → List (Turn GetRes) → Type 0
StillWaits k [] = Unit
StillWaits k (counts ∷ ts) = (0 < k) × StillWaits (k - 1) ts
StillWaits k (tests ∷ ts) = (0 < k) × StillWaits k ts
StillWaits k (handles r ∷ ts) = StillWaits k ts

counted-StillWaits : (ts : List (Turn GetRes)) (k : ℕ) → counted ts < k → StillWaits k ts
counted-StillWaits [] k h = tt
counted-StillWaits (counts ∷ ts) k h = (omega arith, counted-StillWaits ts (k - 1) (omega arith))
counted-StillWaits (tests ∷ ts) k h = (omega arith, counted-StillWaits ts k h)
counted-StillWaits (handles (result (value v)) ∷ ts) k h = counted-StillWaits ts k h
counted-StillWaits (handles (result (no_value stat)) ∷ ts) k h = counted-StillWaits ts k h
counted-StillWaits (handles (failure stat) ∷ ts) k h = counted-StillWaits ts k h

-- The globals when `k` more replies are to be counted, and the last value is `v`.
abbrev waiting_for : ℕ → List ℕ → Waiting → Waiting
waiting_for k v w = record w { get_waiting = k; last_get = v }

abbrev gets : List (Turn GetRes) → Waiting → Loop
gets = await (λ w. w.get_waiting) count_get handle_get

decrement_lem : (k : ℕ) → 0 < k → k < u32_mod → decrement k ≡ k - 1
decrement_lem k z h = omega arith

-- The steps before the loop is left: replies are counted, and the last of their values is kept.
gets-append :
    (ts late : List (Turn GetRes)) (k : ℕ) (old : List ℕ) (w : Waiting)
    → AllReadable ts
    → StillWaits k ts
    → k < u32_mod
    → gets (ts ++ late) (waiting_for k old w)
      ≡ gets late (waiting_for (k - counted ts) (last_value old ts) w)
unfolding await handle_get
gets-append [] late k old w h s n = ap (λ j. gets late (waiting_for j old w)) (omega arith)
gets-append (counts ∷ ts) late k old w h (z, s) n =
    ap (λ j. gets (ts ++ late) (waiting_for j old w)) (decrement_lem k z n)
    ∙ gets-append ts late (k - 1) old w h.1 s (omega arith)
    ∙ ap (λ j. gets late (waiting_for j (last_value old ts) w)) (omega arith)
gets-append (tests ∷ ts) late k old w h (z, s) n =
    let more : (k == 0) ≡ false = ground arith in rw more (gets-append ts late k old w h.1 s n)
gets-append (handles (result (value v)) ∷ ts) late k old w h s n = gets-append ts late k v w h.1 s n
gets-append (handles (result (no_value stat)) ∷ ts) late k old w h s n = cc (h.0)
gets-append (handles (failure stat) ∷ ts) late k old w h s n = gets-append ts late k old w h.1 s n

module _ {C : Type 0} (m : Machine) (n : Node) (cb : C) (ts ts' : Tracing) (hdr : RpcMsg)
    (k : List ℕ) (s : Master C) (conns : Connections C) (acts : List (Action C))
    (few : length s.connections < u32_mod)
    (called : call_all m key kv_get_proc k cb ts.trace_mode s.connections ≡ ok (conns, acts)) where
  abbrev loop_of : List (Turn GetRes) → Loop
  loop_of turns = gets turns (waiting_for (length s.connections) s.waiting.last_get s.waiting)

  by_loop :
      (turns : List (Turn GetRes)) (l : Loop)
      → loop_of turns ≡ l
      → kv_get m n cb turns ts' (s, ts) hdr k
        ≡ (behind_loop m n cb get_res (λ w. value w.last_get) conns ts' hdr l, acts)
  unfolding kv_get
  by_loop turns l e =
      let small : length s.connections % u32_mod ≡ length s.connections = omega arith in
      rw (small, called, e) refl

  -- For fewer than 2 ^ 32 connections and calls that are made, when no two callbacks decrement
  -- the counter at once, and in any other order of the callbacks' steps and the loop's tests:
  -- when a callback handles a reply that is not SUCCESS, the first such, while the server still
  -- waits, as each earlier test of the loop came while a callback had still to count, `get_cb`
  -- throws `xdr_wrong_union` in its thread, which ends the process.
  pub kv_get_not_found :
      (turns late : List (Turn GetRes)) (stat : ℕ)
      → AllReadable turns
      → StillWaits (length s.connections) turns
      → kv_get m n cb (turns ++ (handles (result (no_value stat)) ∷ late)) ts' (s, ts) hdr k
        ≡ (process_throws wrong_union, acts)
  unfolding behind_loop await handle_get
  kv_get_not_found turns late stat h w =
      by_loop (turns ++ (handles (result (no_value stat)) ∷ late)) (thrown_by wrong_union) (
        gets-append turns (handles (result (no_value stat)) ∷ late) (length s.connections)
          s.waiting.last_get s.waiting h w few)

  -- For fewer than 2 ^ 32 connections and calls that are made, when fewer callbacks count than there are
  -- connections, in any order of steps without NOTFOUND, the loop of `kv_get` is not left.
  pub kv_get_spins :
      (turns : List (Turn GetRes))
      → AllReadable turns
      → counted turns < length s.connections
      → kv_get m n cb turns ts' (s, ts) hdr k ≡ (never_ends, acts)
  unfolding behind_loop await
  kv_get_spins turns h lt = by_loop turns _ (
      ap (λ us. gets us (waiting_for (length s.connections) s.waiting.last_get s.waiting))
        (sym (append-nil turns))
      ∙ gets-append turns [] (length s.connections) s.waiting.last_get s.waiting h
          (counted-StillWaits turns (length s.connections) lt) few)

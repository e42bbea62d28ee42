-- ===== src/Kv/TieringServer/Race.antt =====
-- The callbacks of cxx/tiering_server.cc run in one thread for each connection, and share
-- `get_waiting` and `last_get` with the method that waits. `get_waiting--` loads the counter and then
-- stores it, and behind it comes what `get_cb` does with the reply; each of these is one step here. The
-- exception for a reply that is not SUCCESS ends the process, and with it all threads.
use cs244b.Base.{
  ℕ, suc, ◌+◌, ◌≤◌, ◌<◌, ◌≡◌, refl, sym, subst, List, [], ◌∷◌, ◌++◌, map, length, All, arith, Bool,
  true, false,
}
use cs244b.Xdr.Word.{u32_mod}
use cs244b.Rpc.Status.{CallStat}
use cs244b.Rpc.Client.{CallResult, result, failure}
use cs244b.Kv.Protocol.{GetRes, value, no_value}
use cs244b.Kv.TieringServer.{decrement}

-- A callback: it has its reply, it has loaded the counter, it has stored it, it has returned or thrown.
pub data Callback : Type 0 where
  pending : CallResult GetRes → Callback
  loaded : ℕ → CallResult GetRes → Callback
  counted : CallResult GetRes → Callback
  returned thrown : Callback

pub record Shared : Type 0 where
  pub get_waiting : ℕ
  pub last_get : List ℕ
  pub callbacks : List Callback
  pub running : Bool

-- One step of one callback, `c`, between `before` and `after`.
pub data Step (s t : Shared) : Type 0 where
  load :
      (before after : List Callback) (r : CallResult GetRes)
      → s.callbacks ≡ before ++ (pending r ∷ after)
      → t ≡ record s { callbacks = before ++ (loaded s.get_waiting r ∷ after) }
      → Step s t
  store :
      (before after : List Callback) (w : ℕ) (r : CallResult GetRes)
      → s.callbacks ≡ before ++ (loaded w r ∷ after)
      → t ≡ record s { get_waiting = decrement w; callbacks = before ++ (counted r ∷ after) }
      → Step s t
  write :
      (before after : List Callback) (v : List ℕ)
      → s.callbacks ≡ before ++ (counted (result (value v)) ∷ after)
      → t ≡ record s { last_get = v; callbacks = before ++ (returned ∷ after) }
      → Step s t
  report :
      (before after : List Callback) (stat : CallStat)
      → s.callbacks ≡ before ++ (counted (failure stat) ∷ after)
      → t ≡ record s { callbacks = before ++ (returned ∷ after) }
      → Step s t
  throw :
      (before after : List Callback) (stat : ℕ)
      → s.callbacks ≡ before ++ (counted (result (no_value stat)) ∷ after)
      → t ≡ record s { callbacks = before ++ (thrown ∷ after); running = false }
      → Step s t

pub data Reach (s : Shared) : Shared → Type 0 where
  here : Reach s s
  next : {t u : Shared} → Reach s t → t.running ≡ true → Step t u → Reach s u

-- The state when `kv_get` starts to wait, for the replies that will come.
abbrev pub waiting : List ℕ → List (CallResult GetRes) → Shared
waiting old replies = record {
  get_waiting = length replies;
  last_get = old;
  callbacks = map pending replies;
  running = true;
}

-- Whether a callback has still to store the counter.
abbrev pub open_calls : List Callback → ℕ
open_calls [] = 0
open_calls (pending v ∷ cs) = suc (open_calls cs)
open_calls (loaded w v ∷ cs) = suc (open_calls cs)
open_calls (counted v ∷ cs) = open_calls cs
open_calls (returned ∷ cs) = open_calls cs
open_calls (thrown ∷ cs) = open_calls cs

open_calls-append : (xs ys : List Callback) → open_calls (xs ++ ys) ≡ open_calls xs + open_calls ys
open_calls-append [] ys = omega arith
open_calls-append (pending v ∷ xs) ys = omega (arith, open_calls-append xs ys)
open_calls-append (loaded w v ∷ xs) ys = omega (arith, open_calls-append xs ys)
open_calls-append (counted v ∷ xs) ys = omega (arith, open_calls-append xs ys)
open_calls-append (returned ∷ xs) ys = omega (arith, open_calls-append xs ys)
open_calls-append (thrown ∷ xs) ys = omega (arith, open_calls-append xs ys)

-- A loaded counter is no less than `k`.
abbrev AtLeast : ℕ → Callback → Type 0
AtLeast k (loaded w v) = (k ≤ w) × (w < u32_mod)
AtLeast k (pending v) = Unit {0}
AtLeast k (counted v) = Unit {0}
AtLeast k returned = Unit {0}
AtLeast k thrown = Unit {0}

abbrev CountsOf : ℕ → List Callback → Type 0
CountsOf w cs = (open_calls cs ≤ w) × (w < u32_mod) × All (AtLeast (open_calls cs)) cs

abbrev Counts : Shared → Type 0
Counts s = CountsOf s.get_waiting s.callbacks

AtLeast-mono : (j k : ℕ) (c : Callback) → j ≤ k → AtLeast k c → AtLeast j c
AtLeast-mono j k (pending v) h a = tt
AtLeast-mono j k (loaded w v) h a = omega arith
AtLeast-mono j k (counted v) h a = tt
AtLeast-mono j k returned h a = tt
AtLeast-mono j k thrown h a = tt

All-mono : (j k : ℕ) (cs : List Callback) → j ≤ k → All (AtLeast k) cs → All (AtLeast j) cs
All-mono j k [] h a = tt
All-mono j k (c ∷ cs) h a = (AtLeast-mono j k c h a.0, All-mono j k cs h a.1)

-- One callback is replaced.
All-replace :
    (k : ℕ) (before after : List Callback) (c d : Callback)
    → AtLeast k d
    → All (AtLeast k) (before ++ (c ∷ after))
    → All (AtLeast k) (before ++ (d ∷ after))
All-replace k [] after c d h a = (h, a.1)
All-replace k (b ∷ before) after c d h a = (a.0, All-replace k before after c d h a.1)

All-middle :
    (k : ℕ) (before after : List Callback) (c : Callback)
    → All (AtLeast k) (before ++ (c ∷ after))
    → AtLeast k c
All-middle k [] after c a = a.0
All-middle k (b ∷ before) after c a = All-middle k before after c a.1

-- The invariant for the state that a step leads to, from that of the callbacks it starts from.
load-Counts :
    (w : ℕ) (r : CallResult GetRes) (before after : List Callback)
    → CountsOf w (before ++ (pending r ∷ after))
    → CountsOf w (before ++ (loaded w r ∷ after))
load-Counts w r before after (few, fits, all) =
    let e = open_calls-append before (pending r ∷ after) in
    let f = open_calls-append before (loaded w r ∷ after) in
    let same : open_calls (before ++ (loaded w r ∷ after))
        ≡ open_calls (before ++ (pending r ∷ after)) =
      omega arith in
    (
      omega arith,
      fits,
      subst (λ k. All (AtLeast k) (before ++ (loaded w r ∷ after))) (sym same)
          (All-replace _ before after (pending r) (loaded w r) (few, fits) all),
    )

store-Counts :
    (u w : ℕ) (r : CallResult GetRes) (before after : List Callback)
    → CountsOf u (before ++ (loaded w r ∷ after))
    → CountsOf (decrement w) (before ++ (counted r ∷ after))
store-Counts u w r before after (few, fits, all) =
    let e = open_calls-append before (loaded w r ∷ after) in
    let f = open_calls-append before (counted r ∷ after) in
    let (enough, small) = All-middle _ before after (loaded w r) all in
    let less : open_calls (before ++ (loaded w r ∷ after))
        ≡ suc (open_calls (before ++ (counted r ∷ after))) =
      omega arith in
    (
      omega arith,
      omega arith,
      All-mono _ _ (before ++ (counted r ∷ after)) (omega arith)
          (All-replace _ before after (loaded w r) (counted r) tt all),
    )

-- A callback that has counted ends, in `c`.
end-Counts :
    (u : ℕ) (r : CallResult GetRes) (before after : List Callback) (c : Callback)
    → open_calls (c ∷ after) ≡ open_calls after
    → ((k : ℕ) → AtLeast k c)
    → CountsOf u (before ++ (counted r ∷ after))
    → CountsOf u (before ++ (c ∷ after))
end-Counts u r before after c shut free (few, fits, all) =
    let e = open_calls-append before (counted r ∷ after) in
    let f = open_calls-append before (c ∷ after) in
    let same : open_calls (before ++ (c ∷ after)) ≡ open_calls (before ++ (counted r ∷ after)) =
      omega arith in
    (
      omega arith,
      fits,
      subst (λ k. All (AtLeast k) (before ++ (c ∷ after))) (sym same)
          (All-replace _ before after (counted r) c (free _) all),
    )

with_callbacks :
    (s : Shared) (cs : List Callback) → s.callbacks ≡ cs → Counts s → CountsOf s.get_waiting cs
with_callbacks s cs e h = subst (CountsOf s.get_waiting) e h

Step-Counts : {s t : Shared} → Step s t → Counts s → Counts t
Step-Counts {s} (load before after r e f) h =
    subst Counts (sym f) (load-Counts s.get_waiting r before after (with_callbacks s _ e h))
Step-Counts {s} (store before after w r e f) h =
    subst Counts (sym f) (store-Counts s.get_waiting w r before after (with_callbacks s _ e h))
Step-Counts {s} (write before after v e f) h = subst Counts (sym f) (
    end-Counts s.get_waiting (result (value v)) before after returned refl (λ k. tt)
      (with_callbacks s _ e h))
Step-Counts {s} (report before after stat e f) h = subst Counts (sym f) (
    end-Counts s.get_waiting (failure stat) before after returned refl (λ k. tt)
      (with_callbacks s _ e h))
Step-Counts {s} (throw before after stat e f) h = subst Counts (sym f) (
    end-Counts s.get_waiting (result (no_value stat)) before after thrown refl (λ k. tt)
      (with_callbacks s _ e h))

all_open : (replies : List (CallResult GetRes)) → open_calls (map pending replies) ≡ length replies
all_open [] = refl
all_open (r ∷ replies) = omega (arith, all_open replies)

none_loaded : (k : ℕ) (replies : List (CallResult GetRes)) → All (AtLeast k) (map pending replies)
none_loaded k [] = tt
none_loaded k (r ∷ replies) = (tt, none_loaded k replies)

Reach-Counts :
    (old : List ℕ) (replies : List (CallResult GetRes)) {s : Shared}
    → length replies < u32_mod
    → Reach (waiting old replies) s
    → Counts s
Reach-Counts old replies h here = (omega (arith, all_open replies), h, none_loaded _ replies)
Reach-Counts old replies h (next r on st) = Step-Counts st (Reach-Counts old replies h r)

-- In every interleaving of the callbacks of fewer than 2 ^ 32 replies, with or without a value,
-- when `get_waiting` is 0 every callback has stored the counter: the loop of `kv_get` is not
-- left before all the replies have come.
pub Reach-all_counted :
    {s : Shared} (old : List ℕ) (replies : List (CallResult GetRes))
    → length replies < u32_mod
    → Reach (waiting old replies) s
    → s.get_waiting ≡ 0
    → open_calls s.callbacks ≡ 0
Reach-all_counted old replies h r e = let (few, _, _) = Reach-Counts old replies h r in omega arith

-- A reply can be counted before its value is written: `get_waiting` is 0, and `last_get` is
-- still the old value.
pub Reach-stale :
    (old v : List ℕ)
    → (s : Shared) × Reach (waiting old (result (value v) ∷ [])) s
      × (s.get_waiting ≡ 0)
      × (s.last_get ≡ old)
Reach-stale old v = (
  record {
    get_waiting = 0;
    last_get = old;
    callbacks = counted (result (value v)) ∷ [];
    running = true;
  },
  next (next here refl (load [] [] (result (value v)) refl refl)) refl
      (store [] [] 1 (result (value v)) refl refl),
  refl,
  refl,
)

-- For any two values that two replies bring, there is an interleaving in which both callbacks
-- have returned and `get_waiting` is 1, so that the loop of `kv_get` never ends.
pub Reach-lost_count :
    (old u v : List ℕ)
    → (s : Shared) × Reach (waiting old (result (value u) ∷ result (value v) ∷ [])) s
      × (s.callbacks ≡ returned ∷ returned ∷ [])
      × (s.get_waiting ≡ 1)
Reach-lost_count old u v =
    let a : CallResult GetRes = result (value u) in
    let b : CallResult GetRes = result (value v) in
    (
      record {
        get_waiting = 1;
        last_get = v;
        callbacks = returned ∷ returned ∷ [];
        running = true;
      },
      next
          (next
            (next
              (next
                (next (next here refl (load [] (pending b ∷ []) a refl refl)) refl
                  (load (loaded 2 a ∷ []) [] b refl refl))
                refl (store [] (loaded 2 b ∷ []) 2 a refl refl))
              refl (store (counted a ∷ []) [] 2 b refl refl))
            refl (write [] (counted b ∷ []) u refl refl))
          refl (write (returned ∷ []) [] v refl refl),
      refl,
      refl,
    )

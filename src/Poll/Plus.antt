-- ===== src/Poll/Plus.antt =====
-- `pollset_plus` of xdrpp/pollset.h and pollset.cc: signals and the callbacks that other threads inject.
-- The static members and all the sets of the process, by number, are one state. What a callback does to
-- it is a list of calls, among which the signal handler and other threads may come. Whether `sigaction`
-- fails is an argument, and a self-pipe has room for each byte.
pub mod Calls
pub mod Lookups
pub mod Ownership
pub mod Acts
pub mod Callbacks
pub mod Handlers
pub mod Reach
pub mod Loops
pub mod Strays
pub mod Destroy
pub mod Injected
pub mod Queue
mod Examples
pub mod Woken
use cs244b.Poll.{is_null}
use cs244b.Base.{
  ℕ, zero, suc, ◌+◌, ◌-◌, Bool, true, false, ◌&&◌, not, Option, none, some, List, [], ◌∷◌, ◌++◌,
  ltb, ◌==◌, if◌then◌else◌,
}

abbrev pub put {ℓ} : {V : Type ℓ} → ℕ → V → (ℕ → V) → ℕ → V
put k v f j = if j == k then v else f j

-- `wake_type`
pub data WakeType : Type 0 where
  normal signal : WakeType

-- A set's members, with what its self-pipe holds and with `num_cbs()`.
pub record PollsetPlus (C : Type 0) : Type 0 where
  pub selfpipe : List WakeType
  pub async_cbs : List C
  pub async_pending : Bool
  pub nasync : ℕ
  pub signal_pending : Bool
  pub signal_cbs : ℕ → Option C

-- The process: `signal_owners`, `signal_flags`, the sets, and the signals raised with `SIG_DFL`.
pub record Process (C : Type 0) : Type 0 where
  pub signal_owners : ℕ → Option ℕ
  pub signal_flags : ℕ → ℕ
  pub sets : ℕ → PollsetPlus C
  pub raised : List ℕ

-- How a call ends that does not abort: it returns, or an exception leaves it.
pub data Ended (C : Type 0) : Type 0 where
  done thrown : Process C → Ended C

abbrev pub is_signal : WakeType → Bool
is_signal normal = false
is_signal signal = true

abbrev pub has_signal : List WakeType → Bool
has_signal [] = false
has_signal (b ∷ bs) = if is_signal b then true else has_signal bs

abbrev pub num_sig : ℕ
num_sig = 32

-- `assert(sig > 0 && sig < num_sig)`
abbrev pub is_valid : ℕ → Bool
is_valid sig = ltb 0 sig && ltb sig num_sig

-- The numbers that `signal_cbs_` can hold, in the map's order.
abbrev pub up_to : ℕ → List ℕ
up_to zero = []
up_to (suc n) = up_to n ++ (suc n ∷ [])

module _ {C : Type 0} where
  -- A set that has been made; its Read callback on the self-pipe is `run_pending_asyncs`.
  abbrev pub fresh : PollsetPlus C
  fresh = record {
    selfpipe = [];
    async_cbs = [];
    async_pending = false;
    nasync = 0;
    signal_pending = false;
    signal_cbs = λ sig. none;
  }

  abbrev pub fresh_process : Process C
  fresh_process = record {
    signal_owners = λ sig. none;
    signal_flags = λ sig. 0;
    sets = λ p. fresh;
    raised = [];
  }

  abbrev pub store : ℕ → PollsetPlus C → Process C → Process C
  store p t s = record s { sets = put p t s.sets }

  -- `pending`, with the callbacks and timeouts that `num_cbs` counts.
  abbrev pub pending : PollsetPlus C → ℕ → Bool
  pending t num_cbs = if t.nasync == 0 then not (num_cbs == 0) else true

  -- `wake(wt)`
  abbrev pub wake : WakeType → ℕ → Process C → Process C
  wake wt p s = let t = s.sets p in store p (record t { selfpipe = t.selfpipe ++ (wt ∷ []) }) s

  -- `signal_handler`, up to its `wake` and behind it. It is at work on a signal while the flag is 1.
  abbrev pub wake_owner : Option ℕ → Process C → Process C
  wake_owner none s = s
  wake_owner (some p) s = wake signal p s

  pub signal_handler : ℕ → Process C → Process C
  signal_handler sig s =
      if s.signal_flags sig == 0
      then wake_owner (s.signal_owners sig) (record s { signal_flags = put sig 1 s.signal_flags })
      else s

  pub handler_returns : ℕ → Process C → Process C
  handler_returns sig s =
      if s.signal_flags sig == 1 then record s { signal_flags = put sig 2 s.signal_flags } else s

  abbrev pub own : ℕ → Option ℕ → Process C → Process C
  own sig o s = record s { signal_owners = put sig o s.signal_owners }

  abbrev pub set_signal_cb : ℕ → Option C → ℕ → Process C → Process C
  set_signal_cb sig c p s =
      let t = s.sets p in store p (record t { signal_cbs = put sig c t.signal_cbs }) s

  -- The last lines of `signal_cb`.
  abbrev pub wake_flagged : ℕ → ℕ → Process C → Process C
  wake_flagged sig p s = if s.signal_flags sig == 0 then s else wake signal p s

  -- The signal has no owner, this set or another one.
  abbrev pub take_signal : ℕ → ℕ → Bool → Option ℕ → Process C → Ended C
  take_signal sig p fails none s =
      if fails then thrown (own sig none s) else done (wake_flagged sig p (own sig (some p) s))
  take_signal sig p fails (some q) s =
      if q == p
      then done s
      else done (wake_flagged sig p (set_signal_cb sig none q (own sig (some p) s)))

  -- `erase_signal_cb`. While another thread's handler is at work it waits, and the handler then leaves 2.
  abbrev pub raise_flagged : ℕ → Process C → Process C
  raise_flagged sig s =
      if s.signal_flags sig == 0
      then s
      else record s { signal_flags = put sig 0 s.signal_flags; raised = s.raised ++ (sig ∷ []) }

  abbrev pub erase_owned : ℕ → Bool → Option ℕ → Process C → Ended C
  erase_owned sig fails none s = done s
  erase_owned sig fails (some p) s =
      if fails
      then thrown s
      else done
          (raise_flagged sig (handler_returns sig (set_signal_cb sig none p (own sig none s))))

  pub erase_signal_cb : ℕ → Bool → Process C → Ended C
  unfolding handler_returns
  erase_signal_cb sig fails s = erase_owned sig fails (s.signal_owners sig) s

  -- `signal_cb(sig)` and `signal_cb(sig, cb)` of set `p`.
  pub remove_signal_cb : ℕ → Bool → Process C → Option (Ended C)
  unfolding erase_signal_cb
  remove_signal_cb sig fails s = if is_valid sig then some (erase_signal_cb sig fails s) else none

  pub signal_cb : ℕ → Option C → ℕ → Bool → Process C → Option (Ended C)
  unfolding remove_signal_cb
  signal_cb sig none p fails s = remove_signal_cb sig fails s
  signal_cb sig (some c) p fails s =
      if is_valid sig
      then some (take_signal sig p fails (s.signal_owners sig) (set_signal_cb sig (some c) p s))
      else none

  -- `~pollset_plus`: its loop, with `fuel` rounds.
  pub first_cb : (ℕ → Option C) → List ℕ → Option ℕ
  first_cb cbs [] = none
  first_cb cbs (sig ∷ sigs) = if is_null (cbs sig) then first_cb cbs sigs else some sig

  abbrev pub erased_next : (Process C → Option (Process C)) → Ended C → Option (Process C)
  erased_next rest (done s) = rest s
  erased_next rest (thrown s) = none

  abbrev pub destroy_next :
      (Process C → Option (Process C)) → Process C → Option ℕ → Option (Process C)
  destroy_next rest s none = some s
  destroy_next rest s (some sig) = erased_next rest (erase_signal_cb sig false s)

  pub destroy : ℕ → ℕ → Process C → Option (Process C)
  unfolding erase_signal_cb first_cb
  destroy zero p s = none
  destroy (suc fuel) p s =
      destroy_next (destroy fuel p) s (first_cb (s.sets p).signal_cbs (up_to (num_sig - 1)))

  -- `inject_cb`; and `async`, `async_task::start` with `done` as the callback, and `done`'s count.
  pub inject_cb : C → ℕ → Process C → Process C
  inject_cb c p s =
      let t = s.sets p in
      let t' = record t { async_cbs = t.async_cbs ++ (c ∷ []); async_pending = true } in
      if t.async_pending then store p t' s else wake normal p (store p t' s)

  abbrev pub async : ℕ → Process C → Process C
  async p s = let t = s.sets p in store p (record t { nasync = t.nasync + 1 }) s

  abbrev pub async_done : ℕ → Process C → Process C
  async_done p s = let t = s.sets p in store p (record t { nasync = t.nasync - 1 }) s

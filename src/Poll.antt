-- ===== src/Poll.antt =====
-- The event loop of xdrpp/pollset.h and pollset.cc: the callbacks of file descriptors here, and the
-- timeouts in Poll.Timers. `none` is std::terminate, a failed assertion or the exception of `at`. What
-- the system's `poll` returns and what a callback does to the set are arguments.
pub mod Invariant
pub mod Entered
pub mod Register
pub mod Compact
pub mod Moving
pub mod Consolidate
pub mod Rounds
pub mod Plus
pub mod Timers
mod Examples
use cs244b.Base.{
  ℕ, zero, suc, ◌+◌, ◌-◌, Bool, true, false, ◌&&◌, ◌||◌, not, Option, none, some, List, [], ◌∷◌,
  ◌++◌, ltb, ◌==◌, if◌then◌else◌, length,
}
use cs244b.Base.Arrays.{get_elem?, set, pop_back, back}
use cs244b.Base.Assoc.{find, assign, erase, nat_eq}

infixl 5 ◌>>=◌
abbrev pub ◌>>=◌ {ℓ κ} : {A : Type ℓ} {B : Type κ} → Option A → (A → Option B) → Option B
none >>= next = none
some a >>= next = next a

-- op_t
pub data Op : Type 0 where
  read write read_write read_once write_once : Op

-- The flags: `op & kReadFlag`, `op & kWriteFlag` and `op & kOnceFlag`.
abbrev pub reads : Op → Bool
reads read = true
reads read_write = true
reads read_once = true
reads _ = false

abbrev pub writes : Op → Bool
writes write = true
writes read_write = true
writes write_once = true
writes _ = false

abbrev pub once : Op → Bool
once read_once = true
once write_once = true
once _ = false

-- `pollfd`, with POLLIN and POLLOUT of `events`.
pub record Pollfd : Type 0 where
  pub fd : ℕ
  pub pollin : Bool
  pub pollout : Bool

-- `fd_state`. An `idx` of -1 stands only in an entry that `state_[s]` has just made.
pub record FdState (C : Type 0) : Type 0 where
  pub rcb : Option C
  pub wcb : Option C
  pub idx : ℕ
  pub roneshot : Bool
  pub woneshot : Bool

-- `pollfds_` and `state_`
pub record Pollset (C : Type 0) : Type 0 where
  pub pollfds : List Pollfd
  pub state : List (ℕ × FdState C)

abbrev pub has_events : Pollfd → Bool
has_events p = p.pollin || p.pollout

unfoldable pub unwatched : Op → Pollfd → Pollfd
unwatched op p = record p {
  pollin = if reads op then false else p.pollin;
  pollout = if writes op then false else p.pollout;
}

module _ {C : Type 0} where
  -- The entry of `s`, made if there is none, with its `pollfd`.
  unfoldable pub with_entry :
      ℕ → Option (FdState C) → Pollset C → Option (FdState C × (Pollfd × Pollset C))
  with_entry fd none s =
      let p : Pollfd = record { fd = fd; pollin = false; pollout = false } in
      some (
        record {
          rcb = none;
          wcb = none;
          idx = length s.pollfds;
          roneshot = false;
          woneshot = false;
        },
        (p, record s { pollfds = s.pollfds ++ (p ∷ []) }),
      )
  with_entry fd (some fs) s = do
    p ← get_elem? s.pollfds fs.idx
    if p.fd == fd then some (fs, (p, s)) else none

  -- An entry and its `pollfd` are stored.
  unfoldable pub store_entry : ℕ → FdState C → Pollfd → Pollset C → Pollset C
  store_entry fd fs p s = record { pollfds = set s.pollfds fs.idx p; state = assign fd fs s.state }

  -- `fd_cb_helper`, and the assignment to what it returns.
  unfoldable pub fd_cb_helper :
      ℕ → Op → Option C → FdState C × (Pollfd × Pollset C) → Option (Pollset C)
  unfolding store_entry
  fd_cb_helper fd op cb (fs, (p, s)) =
      if reads op
      then (if writes op
          then none
          else some (
              store_entry fd (record fs { rcb = cb; roneshot = once op })
                (record p { pollin = true }) s))
      else if writes op
      then some (
          store_entry fd (record fs { wcb = cb; woneshot = once op }) (record p { pollout = true })
            s)
      else none

  -- `fd_cb(s, op)`: the callbacks are removed.
  unfoldable pub cleared : Op → FdState C → FdState C
  cleared op fs = record fs {
    rcb = if reads op then none else fs.rcb;
    wcb = if writes op then none else fs.wcb;
  }

  unfoldable pub remove_entry : ℕ → Op → Option (FdState C) → Pollset C → Option (Pollset C)
  unfolding cleared unwatched store_entry
  remove_entry fd op none s = some s
  remove_entry fd op (some fs) s = do
    p ← get_elem? s.pollfds fs.idx
    some (store_entry fd (cleared op fs) (unwatched op p) s)

  unfoldable pub remove_cb : ℕ → Op → Pollset C → Option (Pollset C)
  unfolding remove_entry
  remove_cb fd op s = remove_entry fd op (find fd s.state) s

  abbrev pub unless_null : ℕ → Op → Option C → Pollset C → Option (Pollset C)
  unless_null fd op none s = remove_cb fd op s
  unless_null fd op (some c) s = some s

  -- `fd_cb(s, op, cb)`. A null `cb` removes.
  unfoldable pub fd_cb : ℕ → Op → Option C → Pollset C → Option (Pollset C)
  unfolding with_entry fd_cb_helper remove_cb
  fd_cb fd op cb s = do
    entry ← with_entry fd (find fd s.state) s
    s' ← fd_cb_helper fd op cb entry
    unless_null fd op cb s'

  -- `~fd_state`: the assertion on an entry that goes.
  abbrev pub is_null : Option C → Bool
  is_null none = true
  is_null (some c) = false

  abbrev pub may_go : Option (FdState C) → Bool
  may_go none = true
  may_go (some fs) = is_null fs.rcb && is_null fs.wcb

  unfoldable pub erase_state : ℕ → List (ℕ × FdState C) → Option (List (ℕ × FdState C))
  erase_state fd state = if may_go (find fd state) then some (erase fd state) else none

  -- The first loop of `consolidate`: the last `pollfd` goes while it has no events. As many rounds as
  -- there are elements are enough.
  unfoldable pub drop_last : Pollfd → Pollset C → Option (Pollset C)
  unfolding erase_state
  drop_last p s = do
    state ← erase_state p.fd s.state
    some (record { pollfds = pop_back s.pollfds; state = state })

  abbrev pub trim_last :
      Option Pollfd → (Pollset C → Option (Pollset C)) → Pollset C → Option (Pollset C)
  trim_last none rest s = some s
  trim_last (some p) rest s = if has_events p then some s else (do s' ← drop_last p s; rest s')

  unfoldable pub trim : ℕ → Pollset C → Option (Pollset C)
  unfolding drop_last
  trim zero s = some s
  trim (suc fuel) s = trim_last (back s.pollfds) (trim fuel) s

  -- The second loop: the last `pollfd` is moved to where one has no events.
  unfoldable pub move_last : ℕ → Pollfd → Pollfd → Pollset C → Option (Pollset C)
  unfolding erase_state
  move_last i gone last s = do
    state ← erase_state gone.fd s.state
    fs ← find last.fd state
    some (record {
      pollfds = pop_back (set s.pollfds i last);
      state = assign last.fd (record fs { idx = i }) state;
    })

  unfoldable pub compact_at : ℕ → Pollfd → Pollset C → Option (Pollset C)
  unfolding move_last
  compact_at i p s =
      if has_events p then some s else (do last ← back s.pollfds; move_last i p last s)

  -- With `i` more rounds.
  unfoldable pub compact : ℕ → Pollset C → Option (Pollset C)
  unfolding compact_at
  compact zero s = some s
  compact (suc i) s = do p ← get_elem? s.pollfds i; s' ← compact_at i p s; compact i s'

  unfoldable pub consolidate : Pollset C → Option (Pollset C)
  unfolding trim compact
  consolidate s = do
    s' ← trim (length s.pollfds) s
    if ltb (length s'.pollfds) 2 then some s' else compact (length s'.pollfds - 1) s'

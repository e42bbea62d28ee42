-- ===== src/Poll/Rounds.antt =====
-- `poll` of xdrpp/pollset.cc: what it calls for the descriptors, and the end of the round. The system's
-- `poll` gives the results, and `run` is what a callback does to the set.
pub mod Total
use cs244b.Base.{
  ℕ, zero, suc, ◌+◌, ◌-◌, Bool, true, false, ◌||◌, Option, none, some, List, [], ◌∷◌, ◌++◌, ◌==◌,
  if◌then◌else◌,
}
use cs244b.Base.Arrays.{get_elem?, set}
use cs244b.Base.Assoc.{find, assign, nat_eq}
use cs244b.Poll.{Pollfd, FdState, Pollset, consolidate, ◌>>=◌}

-- `revents` of a `pollfd`
pub record Revents : Type 0 where
  pub pollin : Bool
  pub pollout : Bool
  pub pollhup : Bool
  pub pollerr : Bool
  pub pollnval : Bool

abbrev pub is_ready : Revents → Bool
is_ready v = v.pollin || (v.pollout || (v.pollhup || (v.pollerr || v.pollnval)))

abbrev pub read_ready : Revents → Bool
read_ready v = v.pollin || (v.pollhup || v.pollerr)

abbrev pub write_ready : Revents → Bool
write_ready v = v.pollout || (v.pollhup || v.pollerr)

-- What the system's `poll` returns: EINTR, another error, or how many are ready, with the `revents` of
-- each `pollfd`. The elements stay where they are until `consolidate`, and so do their `revents`.
pub data Polled : Type 0 where
  interrupted failed : Polled
  polled : ℕ → List Revents → Polled

-- `pfp` and `fi` are changed in place.
unfoldable pub store_at : {C : Type 0} → ℕ → Pollfd → FdState C → Pollset C → Pollset C
store_at i p fs s = record { pollfds = set s.pollfds i p; state = assign p.fd fs s.state }

module _ {C : Type 0} (run : C → Pollset C → Option (Pollset C)) where
  -- `cb()`, with the set behind it and the callbacks called.
  unfoldable pub call : C → Pollset C → Option (Pollset C × List C)
  call c s = do s' ← run c s; some (s', c ∷ [])

  unfoldable pub call_read :
      ℕ → Pollfd → FdState C → Option C → Pollset C → Option (Pollset C × List C)
  unfolding call store_at
  call_read i p fs none s = some (s, [])
  call_read i p fs (some c) s =
      if fs.roneshot
      then call c (store_at i (record p { pollin = false }) (record fs { rcb = none }) s)
      else call c s

  unfoldable pub call_write :
      ℕ → Pollfd → FdState C → Option C → Pollset C → Option (Pollset C × List C)
  unfolding call store_at
  call_write i p fs none s = some (s, [])
  call_write i p fs (some c) s =
      if fs.woneshot
      then call c (store_at i (record p { pollout = false }) (record fs { wcb = none }) s)
      else call c s

  -- The two tests of a round of the loop, each on what is there then.
  unfoldable pub serve_read : Revents → ℕ → Pollset C → Option (Pollset C × List C)
  unfolding call_read
  serve_read v i s = do
    p ← get_elem? s.pollfds i
    fs ← find p.fd s.state
    if v.pollnval then none else if read_ready v then call_read i p fs fs.rcb s else some (s, [])

  unfoldable pub serve_write : Revents → ℕ → Pollset C → Option (Pollset C × List C)
  unfolding call_write
  serve_write v i s = do
    p ← get_elem? s.pollfds i
    fs ← find p.fd s.state
    if write_ready v then call_write i p fs fs.wcb s else some (s, [])

  unfoldable pub serve : Revents → ℕ → Pollset C → Option (Pollset C × List C)
  unfolding serve_read serve_write
  serve v i s = do (s1, l1) ← serve_read v i s; (s2, l2) ← serve_write v i s1; some (s2, l1 ++ l2)

  -- The loop, at index `i`, with `r` still to come.
  unfoldable pub serve_all : ℕ → ℕ → List Revents → Pollset C → Option (Pollset C × List C)
  unfolding serve
  serve_all r i [] s = some (s, [])
  serve_all zero i (v ∷ vs) s = some (s, [])
  serve_all (suc r) i (v ∷ vs) s = do
    (s1, l1) ← serve v i s
    (s2, l2) ← serve_all (if is_ready v then r else suc r) (i + 1) vs s1
    some (s2, l1 ++ l2)

  unfoldable pub poll : Polled → Pollset C → Option (Pollset C × List C)
  unfolding serve_all
  poll interrupted s = some (s, [])
  poll failed s = none
  poll (polled r vs) s = do (s1, l) ← serve_all r 0 vs s; s2 ← consolidate s1; some (s2, l)

-- ===== src/Poll/Examples.antt =====
-- The event loop of xdrpp/pollset.h and pollset.cc on concrete sets.
use cs244b.Base.{
  ℕ, ◌-◌, ◌≤◌, ◌<◌, ◌≡◌, refl, true, false, Option, none, some, List, [], ◌∷◌, map, if◌then◌else◌,
  ◌==◌, arith, All, ◌⊎◌,
}
use cs244b.Base.Arrays.{get_elem?}
use cs244b.Base.Assoc.{find, assign, nat_eq}
use cs244b.Poll.{
  read, write, read_once, write_once, Pollfd, Pollset, with_entry, store_entry, fd_cb_helper,
  cleared, unwatched, remove_entry, remove_cb, fd_cb, consolidate, has_events,
}
use cs244b.Poll.Invariant.{Inv, Kept, view}
use cs244b.Poll.Register.{changed, fd_cb_lem, fd_cb-Inv, remove_cb-Inv}
use cs244b.Poll.Consolidate.{consolidate_lem}
use cs244b.Poll.Rounds.{Revents, polled, poll}
use cs244b.Poll.Rounds.Total.{Behaves, poll_lem}
use cs244b.Poll.Timers.{Timers, int_max, next_timeout, run_timeouts}
use cs244b.Poll.Timers.Order.{IsSorted, next_timeout_lem}
use cs244b.Poll.Timers.Due.{due, later, set_all, set_by, run_timeouts_lem}

abbrev fresh : Pollset ℕ
fresh = record { pollfds = []; state = [] }

-- Descriptor 4 reads, and 3 reads once.
abbrev two : Pollset ℕ
two = record {
  pollfds =
      record { fd = 4; pollin = true; pollout = false }
      ∷ record { fd = 3; pollin = true; pollout = false }
      ∷ [];
  state =
      (4, record { rcb = some 1; wcb = none; idx = 0; roneshot = false; woneshot = false })
      ∷ (3, record { rcb = some 7; wcb = none; idx = 1; roneshot = true; woneshot = false })
      ∷ [];
}

-- Descriptor 4 has no callback any more.
abbrev idle : Pollset ℕ
idle = record {
  pollfds =
      record { fd = 4; pollin = false; pollout = false }
      ∷ record { fd = 3; pollin = true; pollout = false }
      ∷ [];
  state =
      (4, record { rcb = none; wcb = none; idx = 0; roneshot = false; woneshot = false })
      ∷ (3, record { rcb = some 7; wcb = none; idx = 1; roneshot = true; woneshot = false })
      ∷ [];
}

abbrev one_fd : Pollset ℕ
one_fd = record {
  pollfds = record { fd = 4; pollin = true; pollout = false } ∷ [];
  state =
      (4, record { rcb = some 1; wcb = none; idx = 0; roneshot = false; woneshot = false }) ∷ [];
}

fresh-Inv : Inv fresh
unfolding find
fresh-Inv = record { placed = λ fd fs h. absurd cc; listed = λ i p h. absurd cc }

first_set : fd_cb 4 read (some 1) fresh ≡ some one_fd
unfolding fd_cb with_entry find fd_cb_helper store_entry assign
first_set = refl

second_set : fd_cb 3 read_once (some 7) one_fd ≡ some two
unfolding fd_cb with_entry find fd_cb_helper store_entry assign
second_set = refl

removed : remove_cb 4 read two ≡ some idle
unfolding remove_cb remove_entry find cleared unwatched store_entry assign
removed = refl

one_fd-Inv : Inv one_fd
one_fd-Inv = fd_cb-Inv fresh one_fd 4 read (some 1) fresh-Inv (λ h. cc) first_set

two-Inv : Inv two
two-Inv = fd_cb-Inv one_fd two 3 read_once (some 7) one_fd-Inv (λ h. cc) second_set

idle-Inv : Inv idle
idle-Inv = remove_cb-Inv two idle 4 read two-Inv removed

fd_cb_example :
    (s' : Pollset ℕ) × (fd_cb 3 write (some 8) two ≡ some s')
    × Inv s'
    × Kept two s'
    × ((d : ℕ) → view d s' ≡ (if 3 == d then changed write (some 8) (view d two) else view d two))
fd_cb_example = fd_cb_lem two 3 write (some 8) two-Inv (λ h. cc)

consolidate_example :
    (t : Pollset ℕ) × (consolidate idle ≡ some t)
    × Inv t
    × ((d : ℕ) → view d t ≡ view d idle)
    × ((i : ℕ) (p : Pollfd) → get_elem? t.pollfds i ≡ some p → has_events p ≡ true)
consolidate_example = consolidate_lem idle idle-Inv

-- Each callback registers itself for descriptor 9.
abbrev again : ℕ → Pollset ℕ → Option (Pollset ℕ)
again c s = fd_cb 9 write_once (some c) s

again-Behaves : Behaves again
again-Behaves c s inv =
    let (s', ok, keeps, kept, views) = fd_cb_lem s 9 write_once (some c) inv (λ h. cc) in
    (s', ok, keeps, kept)

abbrev readable : Revents
readable = record {
  pollin = true;
  pollout = false;
  pollhup = false;
  pollerr = false;
  pollnval = false;
}

poll_example :
    (t : Pollset ℕ) × (l : List ℕ) × (poll again (polled 2 (readable ∷ readable ∷ [])) two
      ≡ some (t, l))
    × Inv t
    × ((i : ℕ) (p : Pollfd) → get_elem? t.pollfds i ≡ some p → has_events p ≡ true)
poll_example =
    poll_lem again 2 (readable ∷ readable ∷ []) two again-Behaves two-Inv refl (refl, (refl, tt))

-- Two timeouts, of which one is due at 50.
abbrev timers : Timers ℕ
timers = record {
  time_cbs = record { time = 20; id = 1; cb = 7 } ∷ record { time = 90; id = 0; cb = 8 } ∷ [];
  next_id = 2;
}

timers-IsSorted : IsSorted timers.time_cbs
timers-IsSorted = ((omega arith, tt), (tt, tt))

next_timeout_example :
    (w : ℕ) × (next_timeout 15 (some 1000) timers.time_cbs ≡ some w)
    × (w ≤ int_max)
    × All (λ f. w ≤ f.time - 15) timers.time_cbs
    × ((b : ℕ) → some 1000 ≡ some b → w ≤ b)
    × ((w ≡ 20 - 15) ⊎ ((w ≡ int_max) ⊎ (some 1000 ≡ some w)))
next_timeout_example =
    next_timeout_lem 15 (some 1000) (record { time = 20; id = 1; cb = 7 })
      (record { time = 90; id = 0; cb = 8 } ∷ []) timers-IsSorted
      (λ b h. let one : 1000 ≡ b = cc in omega arith)

-- Each callback sets itself again, for 60.
abbrev repeats : ℕ → List (ℕ × ℕ)
repeats c = (60, c) ∷ []

run_timeouts_example :
    (t' : Timers ℕ) × (run_timeouts (λ c. set_all (repeats c)) 3 50 timers
      ≡ some (t', map (λ d. d.cb) (due 50 timers.time_cbs)))
    × (t'
        ≡ set_by repeats
            (due 50 timers.time_cbs)
            (record timers { time_cbs = later 50 timers.time_cbs }))
    × All (λ e. 50 < e.time) t'.time_cbs
run_timeouts_example =
    run_timeouts_lem repeats 3 50 timers timers-IsSorted (λ c. (omega arith, tt)) (omega arith)

-- ===== src/Rpc/Tracing.antt =====
-- The tracing of xdrpp/arpc.h: the global maps, what `async_tier` puts into them, and the path that
-- `reply_cb` makes of them. A double is its bit pattern, and its operations are a parameter. A
-- function under `path_map_mutex` is one step.
pub mod Critical
pub mod Growth
pub mod Bounds
use cs244b.Base.{
  ℕ, ◌+◌, Bool, true, false, Option, none, some, List, [], ◌∷◌, ◌++◌, ltb, ◌==◌, if◌then◌else◌,
}
use cs244b.Base.Assoc.{find, assign, insert, nat_eq}

-- The operations on doubles, and `std::to_string`, that the tracing uses.
pub record Floats : Type 0 where
  pub minus : ℕ → ℕ → ℕ
  pub times : ℕ → ℕ → ℕ
  pub ceil : ℕ → ℕ
  pub of_u64 : ℕ → ℕ
  pub to_u64 : ℕ → ℕ
  pub to_text : ℕ → List ℕ

-- TraceMode
abbrev pub off : ℕ
off = 0

abbrev pub distributed_tracing : ℕ
distributed_tracing = 2

-- SIG_FIG
abbrev pub sig_fig : ℕ
sig_fig = 10000

-- A path and its time, as the replies to one call brought them.
abbrev pub Entry : Type 0
Entry = List ℕ × ℕ

-- `trace_mode_`, `xid_string_map` and `xid_time_map`.
pub record Tracing : Type 0 where
  pub trace_mode : ℕ
  pub xid_string_map : List (ℕ × List Entry)
  pub xid_time_map : List (ℕ × ℕ)

pub with_entry : ℕ → Entry → Option (List Entry) → List (ℕ × List Entry) → List (ℕ × List Entry)
with_entry xid e none m = insert xid (e ∷ []) m
with_entry xid e (some es) m = assign xid (es ++ (e ∷ [])) m

-- `async_tier` adds a path to those of its xid, unless the mode of its call is OFF.
unfoldable pub record_path : ℕ → ℕ → Entry → Tracing → Tracing
unfolding with_entry
record_path mode xid e t =
    if mode == off
    then t
    else record t { xid_string_map = with_entry xid e (find xid t.xid_string_map) t.xid_string_map }

-- `arpc_service::dispatch`: `xid_time_map.insert({hdr.xid, time})`.
unfoldable pub start_time : ℕ → ℕ → Tracing → Tracing
start_time xid now t = record t { xid_time_map = insert xid now t.xid_time_map }

-- `xid_time_map[xid]`: a missing entry becomes 0.0.
abbrev pub started_at : Option ℕ → ℕ
started_at none = 0
started_at (some time) = time

-- The loop for distributed tracing: every path, with "; " behind it.
unfoldable pub all_paths : List Entry → List ℕ → List ℕ
all_paths [] max_path = max_path
all_paths ((path, time) ∷ es) max_path = all_paths es (max_path ++ (path ++ (59 ∷ 32 ∷ [])))

-- The loop for critical-path tracing, with `max_time` and `max_path`.
unfoldable pub longest : List Entry → ℕ → List ℕ → ℕ × List ℕ
longest [] max_time max_path = (max_time, max_path)
longest ((path, time) ∷ es) max_time max_path =
    longest es (if ltb max_time time then time else max_time)
      (if ltb max_time time then path else max_path)

pub chosen_path : ℕ → Option (List Entry) → List ℕ
unfolding all_paths longest
chosen_path mode none = []
chosen_path mode (some es) =
    if mode == distributed_tracing then all_paths es [] else (longest es 0 []).1

-- `max_path` of `reply_cb::operator()`.
unfoldable pub max_path_of : ℕ → Tracing → List ℕ
unfolding chosen_path
max_path_of xid t =
    if t.trace_mode == off then [] else chosen_path t.trace_mode (find xid t.xid_string_map)

-- `trace`: the path and the time in seconds.
unfoldable pub trace_of : Floats → List ℕ → ℕ → ℕ → Tracing → (List ℕ × ℕ) × Tracing
unfolding max_path_of
trace_of f node_name xid e_time t =
    let time_in_sec = f.minus e_time (started_at (find xid t.xid_time_map)) in
    let path =
      node_name
      ++ ((95 ∷ 91 ∷ [])
          ++ (f.to_text time_in_sec ++ ((115 ∷ 93 ∷ []) ++ ((47 ∷ []) ++ max_path_of xid t)))) in
    ((path, time_in_sec), record t { xid_time_map = insert xid 0 t.xid_time_map })

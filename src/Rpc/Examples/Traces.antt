-- ===== src/Rpc/Examples/Traces.antt =====
-- The tracing at a small tree of servers, with doubles that stand for whole seconds.
use cs244b.Base.{
  ◌+◌, ◌-◌, ◌*◌, ◌%◌, ◌^◌, ◌≡◌, false, some, List, [], ◌∷◌, ◌++◌, map, ◌==◌, if◌then◌else◌, arith,
}
use cs244b.Base.Assoc.{find, nat_eq}
use cs244b.Xdr.Codec.{u32}
use cs244b.Xdr.Message.{Machine}
use cs244b.Rpc.Types.{failed}
use cs244b.Rpc.Replies.{SuccessHdr, rpc_accepted_error_msg}
use cs244b.Rpc.Replies.Decode.{Carries, accepted_msg, rpc_accepted_error_msg_carries}
use cs244b.Rpc.Tracing.{Floats, Entry, Tracing, record_path, start_time, trace_of, all_paths, off}
use cs244b.Rpc.Tracing.Critical.{listed, all_paths_lem}
use cs244b.Rpc.Tracing.Growth.{
  Run, Keeps, Same, here, next, begin, replied, answer, Run-Keeps, entries, record_path_lem,
}
use cs244b.Rpc.Tracing.Bounds.{FloatLaws}
use cs244b.Rpc.Reply.{life, fresh}
use cs244b.Rpc.Reply.Once.{rejected, auth_rejected, used, RepliedOnce, life-RepliedOnce}

abbrev little : Machine
little = record { big = false; marshaling_stack_limit = 10 }

-- Seconds as numbers, printed as one digit.
abbrev pub seconds : Floats
seconds = record {
  minus = λ a b. a - b;
  times = λ a b. a * b;
  ceil = λ a. a;
  of_u64 = λ n. n % 2 ^ 64;
  to_u64 = λ a. a;
  to_text = λ a. (48 + a % 10) ∷ [];
}

pub seconds-FloatLaws : FloatLaws seconds
seconds-FloatLaws = record {
  u64_bits = λ n. omega arith;
  text_bytes = λ x. (omega arith, tt);
  text_short = λ x. omega arith;
}

-- Paths "a" and "b" with their times.
abbrev two_paths : List Entry
two_paths = (97 ∷ [], 10) ∷ (98 ∷ [], 30) ∷ (97 ∷ [], 30) ∷ []

distributed_example : all_paths two_paths [] ≡ [] ++ listed two_paths
distributed_example = all_paths_lem two_paths []

abbrev idle : Tracing
idle = record { trace_mode = 1; xid_string_map = []; xid_time_map = [] }

record_example : find 7 (record_path 1 7 (97 ∷ [], 10) idle).xid_string_map ≡ (
    if 1 == off
    then find 7 idle.xid_string_map
    else if 7 == 7
    then some (entries (find 7 idle.xid_string_map) ++ ((97 ∷ [], 10) ∷ []))
    else find 7 idle.xid_string_map)
record_example = record_path_lem 1 7 7 (97 ∷ [], 10) idle

-- A request, the reply of the next tier, and the answer.
abbrev answered : Tracing
answered = (trace_of seconds (97 ∷ []) 7 9 (record_path 1 7 (98 ∷ [], 10) (start_time 7 4 idle))).1

a_run : Run seconds idle answered
a_run =
    next (next (next here (begin idle 7 4)) (replied (start_time 7 4 idle) 1 7 (98 ∷ [], 10)))
      (answer (record_path 1 7 (98 ∷ [], 10) (start_time 7 4 idle)) (97 ∷ []) 7 9)

growth_example :
    Keeps seconds 7 idle answered × Same (find 7 idle.xid_time_map) (find 7 answered.xid_time_map)
growth_example = Run-Keeps seconds 7 a_run

replies_example :
    RepliedOnce
      (life little (map (used little seconds u32) (rejected 3 ∷ auth_rejected 1 ∷ [])) (fresh 7))
replies_example =
    life-RepliedOnce little 7 (omega arith) (omega arith) seconds u32
      (rejected 3 ∷ auth_rejected 1 ∷ [])

abbrev hdr : SuccessHdr
hdr = record { xid = 7; e_time = 5; path = 47 ∷ [] }

refused : Carries little (rpc_accepted_error_msg little 7 3) (accepted_msg 7 (failed 3))
refused =
    rpc_accepted_error_msg_carries little 7 (omega arith) (omega arith) 3 (omega arith)
      (omega arith) (omega arith)

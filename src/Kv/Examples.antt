-- ===== src/Kv/Examples.antt =====
-- The key-value server at concrete calls.
mod Tiers
mod Runs
use cs244b.Base.{ℕ, false, List, [], ◌∷◌, arith}
use cs244b.Base.Assoc.{find, assign, text_eq}
use cs244b.Xdr.Codec.{u32}
use cs244b.Xdr.Message.{Machine}
use cs244b.Rpc.Dispatch.{dispatch}
use cs244b.Rpc.Dispatch.Header.{request}
use cs244b.Rpc.Client.{call_header}
use cs244b.Kv.Protocol.{value, success, get_res, kv_put_proc, kv_get_proc}
use cs244b.Kv.Protocol.Format.{put_format, get_format}
use cs244b.Kv.Server.{kv_put, found_value, kv_servers}
use cs244b.Kv.Server.Wire.{Yields, put_served, get_served, put_then_get}
use cs244b.Kv.Server.Values.{IsSound}

abbrev little : Machine
little = record { big = false; marshaling_stack_limit = 10 }

-- The key "k" and the value "ab".
abbrev k : List ℕ
k = 107 ∷ []

abbrev ab : List ℕ
ab = 97 ∷ 98 ∷ []

empty-IsSound : IsSound []
unfolding find
empty-IsSound j v e = cc

put_then_get_example :
    Yields little get_res
      (assign k ab [])
      (dispatch little
        (kv_servers little 5)
        (dispatch little
          (kv_servers little 5)
          []
          (request [] (call_header 7 kv_put_proc 0) (put_format.bytes (k, ab)))).state
        (request [] (call_header 8 kv_get_proc 1) (get_format.bytes k)))
      (value ab)
put_then_get_example =
    put_then_get little 5 (omega arith) (omega arith) 0 1 7 8 [] [] [] k ab k (omega arith)
      (omega arith) (omega arith) (omega arith) (omega arith) (omega arith) empty-IsSound

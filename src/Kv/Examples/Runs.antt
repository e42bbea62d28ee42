-- ===== src/Kv/Examples/Runs.antt =====
-- Runs of the client programs of cxx/async_client.cc and cxx/client.cc.
use cs244b.Base.{
  ℕ, ◌+◌, ◌^◌, ◌≡◌, refl, Bool, false, none, some, List, [], ◌∷◌, length, drop, take, arith,
}
use cs244b.Base.Assoc.{find, text_eq}
use cs244b.Xdr.Word.{be32}
use cs244b.Xdr.Error.{ok}
use cs244b.Xdr.Message.{Machine, Message}
use cs244b.Rpc.Dispatch.{dispatch}
use cs244b.Rpc.Replies.{SuccessHdr}
use cs244b.Rpc.Sock.{RpcSock, get_xid, send_call}
use cs244b.Rpc.Client.{CallResult, on_reply}
use cs244b.Rpc.Srpc.Invoke.{reply_bytes}
use cs244b.Rpc.Tracing.{off}
use cs244b.Kv.Protocol.{GetRes, get_res}
use cs244b.Kv.Protocol.Format.{get_res_format, value_format}
use cs244b.Kv.Server.{found_value, kv_servers}
use cs244b.Kv.Server.Values.{IsSound}
use cs244b.Kv.AsyncClient.{Exit, get_cb, Started, started_by, parse_cmd_line}
use cs244b.Kv.AsyncClient
use cs244b.Kv.AsyncClient.Flags.{asks_help, modes, operands, chosen, parse_cmd_line_lem}
use cs244b.Kv.AsyncClient.Session.{shows, get_request, get_session}

abbrev little : Machine
little = record { big = false; marshaling_stack_limit = 10 }

-- The key "k", the value "ab", and the command line "-t k".
abbrev k : List ℕ
k = 107 ∷ []

abbrev ab : List ℕ
ab = 97 ∷ 98 ∷ []

abbrev traced : List (List ℕ)
traced = (45 ∷ 116 ∷ []) ∷ k ∷ []

flags_example :
    parse_cmd_line traced [] off ≡ chosen (asks_help traced) (modes traced) (operands traced)
flags_example = parse_cmd_line_lem traced

abbrev sock : RpcSock ℕ
sock = record { xid = 0; calls = []; has_server = false }

empty-IsSound : IsSound []
unfolding find
empty-IsSound j v e = cc

parsed : parse_cmd_line traced [] off ≡ some (k ∷ [], 1)
unfolding parse_cmd_line
parsed = refl

session_example :
    (reply : Message) × (AsyncClient.main little 40 41 traced sock
      ≡ started_by (ok (send_call little (get_request k 1 sock) 40 (get_xid sock).1)))
    × (dispatch little (kv_servers little 5) [] (get_request k 1 sock)
        ≡ record { replies = some reply ∷ []; thrown = none; state = [] })
    × ((trace : Bool)
        → (r : CallResult GetRes) × (on_reply little get_res trace (some reply) ≡ ok r)
          × (get_cb r ≡ shows (find k [])))
session_example =
    get_session little 40 41 5 traced k 1 sock [] parsed (omega arith) (omega arith) (omega arith)
      (omega arith) (omega arith) empty-IsSound

abbrev hdr : SuccessHdr
hdr = record { xid = 7; e_time = 5; path = 47 ∷ [] }

abbrev answer : List ℕ
answer = reply_bytes get_res_format hdr (found_value (some ab))

abbrev mark : List (List ℕ)
mark = be32 (length answer + 2 ^ 31) ∷ []

abbrev cut : List (List ℕ)
cut = take 10 answer ∷ drop 10 answer ∷ []

ab-IsValid : value_format.IsValid ab
ab-IsValid = omega arith

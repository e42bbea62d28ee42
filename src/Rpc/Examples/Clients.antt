-- ===== src/Rpc/Examples/Clients.antt =====
-- Calls of a small procedure, and the replies that they get.
use cs244b.Base.{ℕ, ◌≡◌, Bool, true, false, some, [], ◌∷◌, ◌++◌, arith}
use cs244b.Xdr.Word.{be32}
use cs244b.Xdr.Error.{ok, err, wrong_union}
use cs244b.Xdr.Codec.{u32}
use cs244b.Xdr.Format.Words.{u32_format, u32-Implements}
use cs244b.Xdr.Message.{Machine, Message}
use cs244b.Rpc.Types.{failed}
use cs244b.Rpc.Replies.{SuccessHdr, success_msg, rpc_accepted_error_msg}
use cs244b.Rpc.Replies.Success.{IsValidHdr}
use cs244b.Rpc.Replies.Decode.{no_auth, Carries, accepted_msg, rpc_accepted_error_msg_carries}
use cs244b.Rpc.Status.{call_stat_of, check_call_hdr, check_of_stat, check_call_hdr_lem}
use cs244b.Rpc.Sock.{RpcSock, get_xid, send_call}
use cs244b.Rpc.Client.{result, Proc, invoke, on_reply}
use cs244b.Rpc.Client.Replies.{on_reply-success_msg}
use cs244b.Rpc.Client.Refusals.{on_reply-trace}
use cs244b.Rpc.Client.Invoke.{framed, call_bytes, invoke_lem}

abbrev little : Machine
little = record { big = false; marshaling_stack_limit = 10 }

abbrev hdr : SuccessHdr
hdr = record { xid = 7; e_time = 5; path = 47 ∷ [] }

hdr-IsValidHdr : IsValidHdr hdr
hdr-IsValidHdr = record {
  xid_fits = omega arith;
  time_fits = omega arith;
  path_fits = omega arith;
  path_bytes = omega arith;
}

success_example :
    (msg : Message) × (success_msg little hdr u32 12 ≡ ok msg)
    × ((trace : Bool) → on_reply little u32 trace (some msg) ≡ ok (result 12))
unfolding be32
success_example =
    on_reply-success_msg u32-Implements little hdr 12 hdr-IsValidHdr (omega arith) (omega arith)
      (omega arith) (omega arith)

-- PROC_UNAVAIL, as a server sends it.
refused : Carries little (rpc_accepted_error_msg little 7 3) (accepted_msg 7 (failed 3))
refused =
    rpc_accepted_error_msg_carries little 7 (omega arith) (omega arith) 3 (omega arith)
      (omega arith) (omega arith)

trace_example : on_reply little u32 true (some refused.0) ≡ err wrong_union
trace_example =
    on_reply-trace u32 little refused.0 7 (record { verf = no_auth; reply_data = failed 3 })
      (omega arith) (refused.3)

check_example :
    check_call_hdr (accepted_msg 7 (failed 3))
    ≡ check_of_stat (accepted_msg 7 (failed 3)).body (call_stat_of (accepted_msg 7 (failed 3)))
check_example = check_call_hdr_lem (accepted_msg 7 (failed 3))

abbrev a_proc : Proc
a_proc = record { prog = 9; vers = 3; proc = 1 }

abbrev idle : RpcSock ℕ
idle = record { xid = 6; calls = []; has_server = false }

invoke_example :
    invoke little u32 a_proc 12 40 0 idle
    ≡ ok (
        send_call little
          (framed (call_bytes (get_xid idle).0 9 3 1 0 ++ u32_format.bytes 12))
          40
          (get_xid idle).1)
unfolding be32
invoke_example =
    invoke_lem u32-Implements little a_proc 12 40 0 idle (omega arith)
      (record { prog_fits = omega arith; vers_fits = omega arith; proc_fits = omega arith })
      (omega arith) (omega arith) (omega arith) (omega arith) (omega arith)

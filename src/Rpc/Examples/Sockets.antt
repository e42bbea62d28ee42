-- ===== src/Rpc/Examples/Sockets.antt =====
-- Small runs of the two sockets.
use cs244b.Base.{
  ℕ, ◌+◌, ◌≡◌, ◌⊎◌, refl, Bool, true, false, Option, none, some, List, [], ◌∷◌, ◌++◌, arith,
}
use cs244b.Base.Assoc.{find, nat_eq}
use cs244b.Xdr.Word.{be32, IsU32, swap32le, swap32, word_of}
use cs244b.Xdr.Error.{ok}
use cs244b.Xdr.Message.{Machine, Message, xdr_from_msg}
use cs244b.Rpc.Types.{failed, prog_unavail}
use cs244b.Rpc.Codec.{rpc_msg}
use cs244b.Rpc.Replies.Decode.{accepted_msg}
use cs244b.Rpc.Client.{null_auth}
use cs244b.Rpc.Dispatch.Header.{request, call_msg}
use cs244b.Rpc.MsgSock.{
  OutSock, raw, wrote, again, pop_wbytes, output, putmsg, offered, pop_front, popped, pop_whole,
  watch,
}
use cs244b.Rpc.MsgSock.Output.{pending, IsSound}
use cs244b.Rpc.MsgSock.Sending.{fresh, Runs, start, put, Runs-in_order}
use cs244b.Rpc.MsgSock.Stall.{put_all, raws, IsStalled, put_all-IsStalled}
use cs244b.Rpc.MsgIn.{
  InSock, ReadResult, chunk, later, input, round, read_for, read_length, read_body, with_length,
  start_message, allocate, nextlen, finish_message,
}
use cs244b.Rpc.MsgIn.Reading.{AllReturn, all_bytes}
use cs244b.Rpc.MsgIn.Stream.{open_sock, readable, somes, framed_all, Reads-prefix}
use cs244b.Rpc.Sock.{RpcSock, Action, call_back, get_xid, send_call, recv_msg, word, word_at}
use cs244b.Rpc.Sock.Calls.{IsReply, get_xid_lem, recv_msg-send_call}
use cs244b.Rpc.Sock.Once.{created, sent, History-once}
use cs244b.Rpc.Sock.Counting.{count, waiting, IsUnique}
use cs244b.Rpc.Sock.NoServer.{recv_msg-no_server}

abbrev little : Machine
little = record { big = false; marshaling_stack_limit = 10 }

abbrev hello : Message
hello = record { header = 128 ∷ 0 ∷ 0 ∷ 4 ∷ []; body = 1 ∷ 2 ∷ 3 ∷ 4 ∷ [] }

-- One message waits, and two of its bytes are gone.
abbrev half : OutSock
half = record { wqueue = raw hello ∷ []; wsize = 6; wstart = 2; wfail = false; writing = true }

half-IsSound : IsSound half
half-IsSound = record { sized = refl; starts = omega arith; whole = (omega arith, tt) }

-- The first three bytes of `hello` are written at once.
abbrev sent_three : OutSock
sent_three = record {
  wqueue = raw hello ∷ [];
  wsize = 5;
  wstart = 3;
  wfail = false;
  writing = true;
}

a_run : Runs sent_three (raw hello) (128 ∷ 0 ∷ 0 ∷ [])
unfolding putmsg output pop_wbytes pop_front popped pop_whole watch offered
a_run = put hello (wrote 3) start (omega arith) (omega arith) refl

in_order_example :
    IsSound sent_three
    × ((sent_three.wfail ≡ false) → raw hello ≡ (128 ∷ 0 ∷ 0 ∷ []) ++ pending sent_three)
in_order_example = Runs-in_order sent_three (raw hello) (128 ∷ 0 ∷ 0 ∷ []) a_run

stall_example :
    (s : OutSock) × (put_all ((hello, again) ∷ (hello, wrote 8) ∷ []) fresh ≡ ok s)
    × IsStalled s
    × (pending s ≡ raw hello ++ raws ((hello, wrote 8) ∷ []))
stall_example = put_all-IsStalled hello ((hello, wrote 8) ∷ []) (omega arith) (omega arith, tt)

abbrev memory : ℕ → Bool
memory n = true

abbrev kills : Option (List ℕ) → Bool
kills msg = false

abbrev opened : InSock
opened = record {
  maxmsglen = 1024;
  rdmsg = none;
  got = [];
  reading = true;
  destroyed = false;
  calls = [];
}

-- The length arrives in one piece, the message in two.
abbrev mark_read : ReadResult
mark_read = chunk (128 ∷ 0 ∷ 0 ∷ 4 ∷ [])

abbrev body_read : ReadResult
body_read = chunk (1 ∷ 2 ∷ [])

returns : AllReturn false memory kills (mark_read ∷ body_read ∷ later ∷ []) (opened, true)
unfolding round read_for read_length read_body with_length start_message allocate nextlen swap32le
    swap32 word_of finish_message
returns = ((omega arith, omega arith), ((omega arith, omega arith), tt))

abbrev part : InSock
part = input false memory kills mark_read body_read later opened

abbrev part_bytes : List ℕ
part_bytes = [] ++ all_bytes false memory kills (mark_read ∷ body_read ∷ later ∷ []) (opened, true)

abbrev sent_bodies : List (List ℕ)
sent_bodies = (1 ∷ 2 ∷ 3 ∷ 4 ∷ []) ∷ []

two_missing : part_bytes ++ (3 ∷ 4 ∷ []) ≡ framed_all sent_bodies
unfolding round read_for read_length read_body with_length start_message allocate nextlen swap32le
    swap32 word_of finish_message be32
two_missing = refl

prefix_example : (more : List (List ℕ)) × (somes part.calls ++ more ≡ sent_bodies)
prefix_example =
    Reads-prefix false memory kills part part_bytes (3 ∷ 4 ∷ []) sent_bodies
      (readable mark_read body_read later (open_sock 1024) returns) (omega arith, tt) two_missing

-- The call with xid 1 waits for its reply.
abbrev one_call : RpcSock ℕ
one_call = record { xid = 0; calls = (1, 40) ∷ []; has_server = false }

get_xid_example :
    IsU32 (get_xid one_call).0
    × (((get_xid one_call).0 ≡ 0) ⊎ (find (get_xid one_call).0 one_call.calls ≡ none))
    × ((get_xid one_call).1 ≡ record one_call { xid = (get_xid one_call).0 })
get_xid_example = get_xid_lem one_call (omega arith)

abbrev question : Message
question = record { header = []; body = 0 ∷ 0 ∷ 0 ∷ 2 ∷ 0 ∷ 0 ∷ 0 ∷ 0 ∷ [] }

abbrev answer : Message
answer = record { header = []; body = 0 ∷ 0 ∷ 0 ∷ 2 ∷ 0 ∷ 0 ∷ 0 ∷ 1 ∷ [] }

new_call : find (word little 0 question) one_call.calls ≡ none
unfolding word word_at word_of find
new_call = refl

is_reply : IsReply little answer
unfolding word word_at word_of swap32le swap32
is_reply = (omega arith, refl)

send_call_example :
    (s : RpcSock ℕ) × (recv_msg little (some answer) (send_call little question 41 one_call).0
      ≡ ok (s, call_back 41 (some answer) ∷ []))
    × ((x : ℕ) → find x s.calls ≡ find x one_call.calls)
unfolding word
send_call_example = recv_msg-send_call little question answer 41 one_call new_call is_reply refl

abbrev two_calls : RpcSock ℕ
two_calls = (send_call little question 41 (record { xid = 0; calls = []; has_server = false })).0

no_calls : find {V = ℕ} (word little 0 question) [] ≡ none
unfolding find
no_calls = refl

once_example :
    (count {C = ℕ} 41 (41 ∷ []) ≡ count {C = ℕ} 41 [] + count {C = ℕ} 41 (waiting two_calls.calls))
    × IsUnique two_calls.calls
once_example =
    History-once little 41 two_calls ([] ++ (41 ∷ [])) []
      (sent question 41 (created false) no_calls)

no_server_example :
    (reply : Message) × (recv_msg little
        (some (
          request []
            (call_msg 1 (record {
              rpcvers = 2;
              prog = 9;
              vers = 3;
              proc = 1;
              cred = null_auth;
              verf = null_auth;
              trace_mode = 0;
            }))
            []))
        one_call
      ≡ ok (one_call, Action.put reply ∷ []))
    × (xdr_from_msg little rpc_msg reply
        ≡ ok (accepted_msg (swap32le false 1) (failed prog_unavail)))
no_server_example =
    recv_msg-no_server little one_call [] 1
      (record {
        rpcvers = 2;
        prog = 9;
        vers = 3;
        proc = 1;
        cred = null_auth;
        verf = null_auth;
        trace_mode = 0;
      })
      [] (omega arith) (omega arith) refl

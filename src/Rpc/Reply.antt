-- ===== src/Rpc/Reply.antt =====
-- The reply callback of the asynchronous server, `reply_cb` and `reply_cb_impl` of xdrpp/arpc.h, and
-- `arpc_service` of the same file. The clock is an argument.
pub mod Once
pub mod Serve
use cs244b.Base.{ℕ, Bool, true, false, Option, none, some, List, [], ◌∷◌, ◌++◌, map, if◌then◌else◌}
use cs244b.Xdr.Error.{Error, Result, ok, err, ◌>>=◌, assertion, fault, wrong_union}
use cs244b.Xdr.Codec.{Codec}
use cs244b.Xdr.Message.{Machine, Message}
use cs244b.Rpc.Types.{RpcMsg, Body, call, reply, proc_unavail}
use cs244b.Rpc.Replies.{SuccessHdr, success_msg, rpc_accepted_error_msg, rpc_auth_error_msg}
use cs244b.Rpc.Dispatch.{Outcome, Procedure, throw, with_args}
use cs244b.Rpc.Tracing.{Floats, Tracing, sig_fig, start_time, trace_of}

-- `cb_`, by whether it is set, and the messages that it was called with.
pub record ReplyCb : Type 0 where
  pub xid : ℕ
  pub live : Bool
  pub sent : List Message

abbrev pub fresh : ℕ → ReplyCb
fresh xid = record { xid = xid; live = true; sent = [] }

-- `send_reply_msg`: the assertion fails at a second reply.
unfoldable pub send_reply_msg : Message → ReplyCb → Result ReplyCb
send_reply_msg msg r =
    if r.live then ok (record r { live = false; sent = r.sent ++ (msg ∷ []) }) else err assertion

-- The two `reject`.
abbrev pub reject : Machine → ℕ → ReplyCb → Result ReplyCb
reject m stat r = do msg ← rpc_accepted_error_msg m r.xid stat; send_reply_msg msg r

abbrev pub reject_auth : Machine → ℕ → ReplyCb → Result ReplyCb
reject_auth m stat r = do msg ← rpc_auth_error_msg m r.xid stat; send_reply_msg msg r

-- The message of `send_reply`, with the quantized time.
abbrev pub quantized : Floats → ℕ → ℕ
quantized f raw_time = f.to_u64 (f.ceil (f.times raw_time (f.of_u64 sig_fig)))

unfoldable pub reply_msg :
    {A : Type 0} → Machine → Floats → ℕ → List ℕ × ℕ → Codec A → A → Result Message
reply_msg m f xid (path, raw_time) c t =
    success_msg m (record { xid = xid; e_time = f.of_u64 (quantized f raw_time); path = path }) c t

unfoldable pub send_reply :
    {A : Type 0} → Machine → Floats → List ℕ × ℕ → Codec A → A → ReplyCb → Result ReplyCb
unfolding reply_msg send_reply_msg
send_reply m f trace c t r = do msg ← reply_msg m f r.xid trace c t; send_reply_msg msg r

-- `reply_cb::operator()`: the trace, then `send_reply`.
unfoldable pub answer :
    {A : Type 0}
    → Machine
    → Floats
    → List ℕ
    → ℕ
    → Codec A
    → A
    → ReplyCb
    → Tracing
    → Result ReplyCb × Tracing
unfolding send_reply
answer m f node_name e_time c t r ts =
    let (trace, ts') = trace_of f node_name r.xid e_time ts in (send_reply m f trace c t r, ts')

-- `~reply_cb_impl`
unfoldable pub destroy : Machine → ReplyCb → Result ReplyCb
unfolding send_reply_msg
destroy m r = if r.live then reject m proc_unavail r else ok r

-- What ends the process, and what unwinds the stack instead.
abbrev pub is_abort : Error → Bool
is_abort assertion = true
is_abort fault = true
is_abort _ = false

-- The life of a callback object: it is used, and then destroyed, by an exception too. A step is the use
-- and what it throws.
abbrev pub after_use :
    Result ReplyCb
    → ReplyCb
    → (ReplyCb → Result (ReplyCb × Option Error))
    → Result (ReplyCb × Option Error)
after_use (ok r') r rest = rest r'
after_use (err e) r rest = if is_abort e then err e else ok (r, some e)

unfoldable pub use_all : List (ReplyCb → Result ReplyCb) → ReplyCb → Result (ReplyCb × Option Error)
use_all [] r = ok (r, none)
use_all (u ∷ us) r = after_use (u r) r (use_all us)

unfoldable pub end_life : Machine → ReplyCb × Option Error → Result (ReplyCb × Option Error)
unfolding destroy
end_life m (r, e) = do r' ← destroy m r; ok (r', e)

unfoldable pub life :
    Machine → List (ReplyCb → Result ReplyCb) → ReplyCb → Result (ReplyCb × Option Error)
unfolding use_all end_life
life m us r = do x ← use_all us r; end_life m x

-- What `dispatch` sees of it.
unfoldable pub outcome_of : {S : Type 0} → S → Result (ReplyCb × Option Error) → Outcome S
outcome_of s (err e) = throw s e
outcome_of s (ok (r, e)) = record { replies = map some r.sent; thrown = e; state = s }

-- A server's method that calls its callback once, in state `s`.
unfoldable pub answer_once :
    {A S : Type 0}
    → Machine
    → Floats
    → List ℕ
    → ℕ
    → Codec A
    → S
    → Tracing
    → RpcMsg
    → A
    → Outcome (S × Tracing)
unfolding outcome_of life answer
answer_once m f node_name e_time c s ts hdr t =
    let (_, ts') = trace_of f node_name hdr.xid e_time ts in
    outcome_of (s, ts')
      (life m ((λ r. (answer m f node_name e_time c t r ts).0) ∷ []) (fresh hdr.xid))

-- `trace_mode_ = …cbody().trace_mode`
unfoldable pub with_mode : Body → Tracing → Result Tracing
with_mode (call c) ts = ok (record ts { trace_mode = c.trace_mode })
with_mode (reply r) ts = err wrong_union

-- With the server's trace, the time of the call is kept.
unfoldable pub begin : Bool → ℕ → ℕ → Tracing → Tracing
unfolding start_time
begin trace_server now xid ts = if trace_server then start_time xid now ts else ts

-- `arpc_service::dispatch`, for one procedure. `now` is the clock at the call.
unfoldable pub arpc_procedure :
    {A S : Type 0}
    → Machine
    → Codec A
    → Bool
    → ℕ
    → (S × Tracing → RpcMsg → A → Outcome (S × Tracing))
    → Procedure (S × Tracing)
unfolding with_mode begin
arpc_procedure m c trace_server now handler (s, ts) hdr g = elim (with_mode hdr.body ts) [
  | err e ↦ throw (s, ts) e
  | ok ts' ↦
      with_args m c (λ (s', ts'') hdr' a. handler (s', begin trace_server now hdr'.xid ts'') hdr' a)
        (s, ts') hdr g
]

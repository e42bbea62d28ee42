-- ===== src/Rpc/Client/Invoke.antt =====
-- What the client of xdrpp/arpc.h sends.
use cs244b.Base.{
  ℕ, ◌+◌, ◌^◌, ◌≤◌, ◌<◌, ◌≡◌, refl, ap, ◌∙◌, List, ◌++◌, length, length-append, arith,
}
use cs244b.Base.Assoc.{nat_eq}
use cs244b.Xdr.Word.{IsU32, be32}
use cs244b.Xdr.Error.{ok}
use cs244b.Xdr.Codec.{Codec}
use cs244b.Xdr.Format.{Format, Implements}
use cs244b.Xdr.Format.Struct.{pair-Implements}
use cs244b.Xdr.Message.{Machine, Message}
use cs244b.Xdr.Message.RoundTrip.{xdr_to_msg_ok}
use cs244b.Rpc.Codec.Header.{msg_format, rpc_msg-Implements}
use cs244b.Rpc.Dispatch.Header.{request}
use cs244b.Rpc.Sock.{RpcSock, get_xid, send_call}
use cs244b.Rpc.Sock.Calls.{get_xid_lem}
use cs244b.Rpc.Client.{Proc, call_header, invoke}

pub record IsProc (p : Proc) : Type 0 where
  pub prog_fits : IsU32 p.prog
  pub vers_fits : IsU32 p.vers
  pub proc_fits : IsU32 p.proc

pub call_header-IsValid :
    (xid : ℕ) (p : Proc) (mode : ℕ)
    → IsU32 xid
    → IsProc p
    → IsU32 mode
    → msg_format.IsValid (call_header xid p mode)
call_header-IsValid xid p mode x f t = (
  x,
  (
    omega arith,
    (
      omega arith,
      (
        f.prog_fits,
        (
          f.vers_fits,
          (f.proc_fits, ((omega arith, (omega arith, tt)), ((omega arith, (omega arith, tt)), t))),
        ),
      ),
    ),
  ),
)

pub length-call_header :
    (xid : ℕ) (p : Proc) (mode : ℕ) → length (msg_format.bytes (call_header xid p mode)) ≡ 44
unfolding be32
length-call_header xid p mode = omega arith

-- RFC 5531's call, with two empty AUTH_NONE fields, and behind it the trace mode of xdrpp/rpc_msg.x.
abbrev pub call_bytes : ℕ → ℕ → ℕ → ℕ → ℕ → List ℕ
call_bytes xid prog vers proc mode =
    be32 xid
    ++ be32 0
    ++ be32 2
    ++ be32 prog
    ++ be32 vers
    ++ be32 proc
    ++ be32 0
    ++ be32 0
    ++ be32 0
    ++ be32 0
    ++ be32 mode

pub call_header-bytes :
    (xid : ℕ) (p : Proc) (mode : ℕ)
    → msg_format.bytes (call_header xid p mode) ≡ call_bytes xid p.prog p.vers p.proc mode
unfolding be32
call_header-bytes xid p mode = refl

-- The record mark of a request.
abbrev pub mark_of : List ℕ → List ℕ
mark_of bs = be32 (length bs + 2 ^ 31)

-- The call that `invoke` makes, with the header that it builds.
pub invoke-request :
    {A C : Type 0} {c : Codec A} {f : Format A} (imp : Implements c f) (m : Machine) (p : Proc)
    (a : A) (cb : C) (mode : ℕ) (s : RpcSock C)
    → IsU32 s.xid
    → IsProc p
    → IsU32 mode
    → f.IsValid a
    → 6 ≤ m.marshaling_stack_limit
    → f.depth a ≤ m.marshaling_stack_limit
    → length (f.bytes a) ≤ 2 ^ 30
    → invoke m c p a cb mode s
      ≡ ok (
          send_call m
            (request
              (mark_of (msg_format.bytes (call_header (get_xid s).0 p mode) ++ f.bytes a))
              (call_header (get_xid s).0 p mode)
              (f.bytes a))
            cb
            (get_xid s).1)
unfolding invoke
invoke-request {f = f} imp m p a cb mode s x i t v deep d n =
    let (x', _, _) = get_xid_lem s x in
    let hdr = call_header (get_xid s).0 p mode in
    let total : length (msg_format.bytes hdr ++ f.bytes a) < 2 ^ 31 = omega (
      arith,
      length-append (msg_format.bytes hdr) (f.bytes a),
      length-call_header (get_xid s).0 p mode,
    ) in
    rw
      (xdr_to_msg_ok (pair-Implements rpc_msg-Implements imp) m (hdr, a)
        (call_header-IsValid (get_xid s).0 p mode x' i t, v) (omega arith) total)
      refl

-- A message with its record mark.
abbrev pub framed : List ℕ → Message
framed bs = record { header = mark_of bs; body = bs }

-- For a socket whose `xid_`, a procedure whose numbers and a trace mode that have 32 bits, a
-- machine with a stack limit of at least 6, and an argument that is valid, within the stack
-- limit and no longer than 2 ^ 30 bytes: `invoke` takes the next xid and calls `send_call` once,
-- with the record mark and the bytes of RFC 5531's call of that xid, RPC version 2 and the
-- procedure's numbers, with empty AUTH_NONE fields, and behind them the trace mode and the bytes
-- of the argument.
pub invoke_lem :
    {A C : Type 0} {c : Codec A} {f : Format A} (imp : Implements c f) (m : Machine) (p : Proc)
    (a : A) (cb : C) (mode : ℕ) (s : RpcSock C)
    → IsU32 s.xid
    → IsProc p
    → IsU32 mode
    → f.IsValid a
    → 6 ≤ m.marshaling_stack_limit
    → f.depth a ≤ m.marshaling_stack_limit
    → length (f.bytes a) ≤ 2 ^ 30
    → invoke m c p a cb mode s
      ≡ ok (
          send_call m
            (framed (call_bytes (get_xid s).0 p.prog p.vers p.proc mode ++ f.bytes a))
            cb
            (get_xid s).1)
invoke_lem {f = f} imp m p a cb mode s x i t v deep d n =
    invoke-request imp m p a cb mode s x i t v deep d n
    ∙ ap (λ h. ok (send_call m (framed (h ++ f.bytes a)) cb (get_xid s).1))
        (call_header-bytes (get_xid s).0 p mode)

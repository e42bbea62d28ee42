-- ===== src/Rpc/Examples/Blocking.antt =====
-- Frames and a call of the synchronous client, cut into several reads.
use cs244b.Base.{
  ℕ, ◌+◌, ◌^◌, ◌%◌, ◌≡◌, refl, false, some, List, [], ◌∷◌, ◌++◌, ◌==◌, if◌then◌else◌, length, take,
  drop, arith,
}
use cs244b.Xdr.Word.{be32}
use cs244b.Xdr.Error.{ok, err, bad_message_size}
use cs244b.Xdr.Codec.{u32}
use cs244b.Xdr.Format.Words.{u32_format, u32-Implements}
use cs244b.Xdr.Message.{Machine}
use cs244b.Xdr.Message.RoundTrip.{framed}
use cs244b.Rpc.Replies.{SuccessHdr, success_msg}
use cs244b.Rpc.MsgSock.{raw}
use cs244b.Rpc.Client.{Proc}
use cs244b.Rpc.Srpc.{read_message, invoke}
use cs244b.Rpc.Srpc.Loop.{reads}
use cs244b.Rpc.Srpc.Frames.{tested, read_message_frame}
use cs244b.Rpc.Srpc.Invoke.{reply_bytes, xid_behind, invoke-success_msg}

abbrev little : Machine
little = record { big = false; marshaling_stack_limit = 10 }

-- Three bytes: their number is no multiple of four, and the little-endian machine takes them.
abbrev odd_body : List ℕ
odd_body = 1 ∷ 2 ∷ 3 ∷ []

abbrev odd_mark : List (List ℕ)
odd_mark = (128 ∷ 0 ∷ []) ∷ (0 ∷ 3 ∷ []) ∷ []

frame_example :
    read_message little (reads odd_mark ++ (reads ((1 ∷ []) ∷ (2 ∷ 3 ∷ []) ∷ []) ++ [])) ≡ (
      if tested false (length odd_body) % 4 == 0
      then (ok (framed odd_body), [])
      else (err bad_message_size, reads ((1 ∷ []) ∷ (2 ∷ 3 ∷ []) ∷ []) ++ []))
unfolding be32
frame_example =
    read_message_frame little odd_body odd_mark ((1 ∷ []) ∷ (2 ∷ 3 ∷ []) ∷ []) []
      (omega arith, (omega arith, tt)) (omega arith, (omega arith, tt)) refl refl (omega arith)

abbrev hdr : SuccessHdr
hdr = record { xid = 7; e_time = 5; path = 47 ∷ [] }

abbrev answer : List ℕ
answer = reply_bytes u32_format hdr 12

abbrev a_proc : Proc
a_proc = record { prog = 9; vers = 3; proc = 1 }

abbrev mark : List (List ℕ)
mark = be32 (length answer + 2 ^ 31) ∷ []

abbrev cut : List (List ℕ)
cut = take 10 answer ∷ drop 10 answer ∷ []

blocking_example :
    (success_msg little hdr u32 12 ≡ ok (framed answer))
    × (invoke little u32 u32 a_proc 3
          (λ msg. some (length (raw msg)))
          (reads mark ++ (reads cut ++ []))
          6
        ≡ ((ok 12, []), xid_behind 6))
unfolding be32
blocking_example =
    invoke-success_msg u32-Implements u32-Implements little a_proc 3 12 hdr
      (λ msg. some (length (raw msg))) mark cut [] 6
      (record { prog_fits = omega arith; vers_fits = omega arith; proc_fits = omega arith })
      (omega arith) (omega arith)
      (record {
        xid_fits = omega arith;
        time_fits = omega arith;
        path_fits = omega arith;
        path_bytes = omega arith;
      })
      (omega arith) (omega arith) (omega arith) (omega arith) (omega arith) refl (λ msg. refl)
      (omega arith, tt) (omega arith, (omega arith, tt)) refl refl refl

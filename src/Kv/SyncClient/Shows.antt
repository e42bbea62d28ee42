-- ===== src/Kv/SyncClient/Shows.antt =====
-- What the client program of cxx/client.cc shows for a reply of the server.
use cs244b.Base.{
  ℕ, ◌%◌, ◌^◌, ◌+◌, ◌≤◌, ◌<◌, ◌≡◌, refl, ap, ◌∙◌, false, Option, none, some, List, [], ◌∷◌, ◌++◌,
  ltb, length, All, arith,
}
use cs244b.Xdr.Word.{be32}
use cs244b.Xdr.Error.{ok}
use cs244b.Xdr.Message.{Machine, Message}
use cs244b.Rpc.Replies.{SuccessHdr}
use cs244b.Rpc.Replies.Success.{IsValidHdr}
use cs244b.Rpc.Srpc.{Read}
use cs244b.Rpc.Srpc.Frames.{tested}
use cs244b.Rpc.Srpc.Loop.{reads, joined, Arrives}
use cs244b.Rpc.Srpc.Invoke.{xid_behind, WritesAll, reply_bytes, invoke-success_msg}
use cs244b.Kv.Protocol.{kv_get_proc}
use cs244b.Kv.Protocol.Format.{
  key_format, key-Implements, value_format, get_res_format, get_res-Implements,
}
use cs244b.Kv.Server.{found_value}
use cs244b.Kv.Server.Values.{found_value-IsValid, found_value-depth}
use cs244b.Kv.AsyncClient.Session.{shows, key-length}
use cs244b.Kv.SyncClient.{exits, get, behind_get, main}

behind_get-found_value :
    (stored : Option (List ℕ)) → behind_get (ok (found_value stored)) ≡ exits (shows stored)
unfolding behind_get found_value
behind_get-found_value none = refl
behind_get-found_value (some v) = refl

-- When `write` takes the whole request and the reads bring the server's reply for what is
-- stored for a key, however they are cut, `client key` exits with status 0 and shows the value,
-- or with status 1 if there is none.
pub main-shows :
    (m : Machine) (h : SuccessHdr) (write : Message → Option ℕ) (hs bss : List (List ℕ))
    (rs : List Read) (counter : ℕ) (k : List ℕ) (stored : Option (List ℕ))
    → key_format.IsValid k
    → ((v : List ℕ) → stored ≡ some v → value_format.IsValid v)
    → IsValidHdr h
    → 8 ≤ m.marshaling_stack_limit
    → length (reply_bytes get_res_format h (found_value stored)) < 2 ^ 31
    → tested m.big (length (reply_bytes get_res_format h (found_value stored))) % 4 ≡ 0
    → WritesAll write
    → All Arrives hs
    → All Arrives bss
    → joined hs ≡ be32 (length (reply_bytes get_res_format h (found_value stored)) + 2 ^ 31)
    → joined bss ≡ reply_bytes get_res_format h (found_value stored)
    → h.xid ≡ xid_behind counter
    → main m write (reads hs ++ (reads bss ++ rs)) counter (k ∷ []) ≡ exits (shows stored)
unfolding main get
main-shows m h write hs bss rs counter k stored kv sound vh deep short bits w arrives arrive e e'
      same =
    let few : ltb 64 (length k) ≡ false = let n = kv.0 in ground arith in
    let (built, called) =
      invoke-success_msg key-Implements get_res-Implements m kv_get_proc k (found_value stored) h
        write hs bss rs counter
        (record { prog_fits = omega arith; vers_fits = omega arith; proc_fits = omega arith }) kv
        (found_value-IsValid stored sound) vh (omega arith) (omega arith)
        (let d = found_value-depth stored in omega arith) (key-length k kv.0) short bits w arrives
        arrive e e' same in
    rw few (ap (λ r. behind_get r.0.0) called ∙ behind_get-found_value stored)

-- ===== src/Kv/SyncClient.antt =====
-- The synchronous client program: cxx/client.cc. The server is what `write` and the reads of the
-- connection bring, as in Rpc.Srpc.
pub mod Shows
use cs244b.Base.{
  ℕ, ◌%◌, ◌^◌, ◌+◌, ◌≤◌, ◌<◌, ◌≡◌, refl, ap, ◌∙◌, sym, Bool, true, false, Option, none, some, List,
  [], ◌∷◌, ◌++◌, ltb, ◌==◌, if◌then◌else◌, length, All, arith,
}
use cs244b.Xdr.Word.{be32}
use cs244b.Xdr.Error.{Error, Result, ok, err, ◌>>=◌}
use cs244b.Xdr.Codec.{u32, pair}
use cs244b.Xdr.Message.{Machine, Message}
use cs244b.Rpc.Srpc.{Read, invoke}
use cs244b.Kv.Protocol.{
  GetRes, value, no_value, success, get_res, key, value_bytes, kv_put_proc, kv_get_proc,
}
use cs244b.Kv.AsyncClient.{Exit, xstring}

-- How the program ends: it exits, or an exception ends it.
pub data Ended : Type 0 where
  exits : Exit → Ended
  throws : Error → Ended

-- The rest of `main` behind a call.
unfoldable pub behind_get : Result GetRes → Ended
behind_get (err e) = throws e
behind_get (ok (value v)) = exits (record { status = 0; shown = some v })
behind_get (ok (no_value stat)) = exits (record { status = 1; shown = none })

unfoldable pub behind_put : Result ℕ → Ended
behind_put (err e) = throws e
behind_put (ok stat) = exits (record { status = if stat == success then 0 else 1; shown = none })

module _ (m : Machine) (write : Message → Option ℕ) (reads : List Read) (xid_counter : ℕ) where
  unfoldable pub get : List ℕ → Result GetRes
  get k = do k' ← xstring 64 k; (invoke m get_res key kv_get_proc k' write reads xid_counter).0.0

  unfoldable pub put : List ℕ → List ℕ → Result ℕ
  put k v = do
    k' ← xstring 64 k
    v' ← xstring 512 v
    (invoke m u32 (pair key value_bytes) kv_put_proc (k', v') write reads xid_counter).0.0

  -- `main`, with the arguments behind the program's name.
  unfoldable pub main : List (List ℕ) → Ended
  unfolding get put behind_get behind_put
  main (k ∷ []) = behind_get (get k)
  main (k ∷ v ∷ []) = behind_put (put k v)
  main [] = exits (record { status = 1; shown = none })
  main (_ ∷ _ ∷ _ ∷ _) = exits (record { status = 1; shown = none })

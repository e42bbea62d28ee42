-- ===== src/Kv/Protocol.antt =====
-- The types of kvprot.x with the traits that xdrc generates for them. A key or a value is its bytes.
pub mod Format
use cs244b.Base.{ℕ, Option, none, some, List, ◌==◌, if◌then◌else◌}
use cs244b.Xdr.Codec.{Codec, u32, var_bytes, void, pair, nested, union, arm_of}
use cs244b.Rpc.Client.{Proc}

-- Status
abbrev pub success : ℕ
success = 0

abbrev pub not_found : ℕ
not_found = 1

abbrev pub system_err : ℕ
system_err = 2

-- The union under `stat`; `no_value` is the void default case with its discriminant.
pub data GetRes : Type 0 where
  value : List ℕ → GetRes
  no_value : ℕ → GetRes

abbrev pub stat : GetRes → ℕ
stat (value v) = success
stat (no_value s) = s

-- `value()`, when the discriminant selects it.
abbrev pub value? : GetRes → Option (List ℕ)
value? (value v) = some v
value? (no_value s) = none

abbrev pub key : Codec (List ℕ)
key = var_bytes 64

abbrev pub value_bytes : Codec (List ℕ)
value_bytes = var_bytes 512

abbrev pub get_res_arm : ℕ → Option (Codec GetRes)
get_res_arm which =
    if which == success
    then some (arm_of value? value value_bytes)
    else some (arm_of (λ _. some tt) (λ _. no_value which) void)

unfoldable pub get_res : Codec GetRes
get_res = nested (union stat get_res_arm)

-- What a server reads into: a tuple of the arguments.
unfoldable pub null_args : Codec (Unit {0})
null_args = nested void

unfoldable pub put_args : Codec (List ℕ × List ℕ)
put_args = nested (pair key value_bytes)

unfoldable pub get_args : Codec (List ℕ)
get_args = nested key

-- KVPROG, KVPROT1 and its procedures.
abbrev pub kv_prog : ℕ
kv_prog = 0x2b0eefac

abbrev pub kv_vers : ℕ
kv_vers = 1

abbrev pub kv_proc : ℕ → Proc
kv_proc proc = record { prog = kv_prog; vers = kv_vers; proc = proc }

abbrev pub kv_null_proc : Proc
kv_null_proc = kv_proc 0

abbrev pub kv_put_proc : Proc
kv_put_proc = kv_proc 1

abbrev pub kv_get_proc : Proc
kv_get_proc = kv_proc 2

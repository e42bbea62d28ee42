-- ===== src/Rpc/Codec/Format.antt =====
-- The formats of the structs of xdrpp/rpc_msg.x: each lists the fields as the specification has them, in
-- place of the order that the generated code archives.
use cs244b.Base.{refl, arith}
use cs244b.Xdr.Format.{Format, Implements}
use cs244b.Xdr.Format.Words.{u32_format, u64_format, u32-Implements, u64-Implements}
use cs244b.Xdr.Format.Bytes.{
  var_bytes_format, fixed_bytes_format, var_bytes-Implements, fixed_bytes-Implements,
}
use cs244b.Xdr.Format.Struct.{
  pair_format, fields_format, nested_format, pair-Implements, fields-Implements, nested-Implements,
}
use cs244b.Rpc.Types.{OpaqueAuth, CallBody, Success, MismatchInfo}
use cs244b.Rpc.Codec.{
  xdr_max_len, opaque_auth_fields, opaque_auth_of, opaque_auth, call_fields, call_of, call_body,
  success_fields, success_of, success_body, mismatch_fields, mismatch_of, mismatch_info,
}

abbrev pub opaque_auth_format : Format OpaqueAuth
opaque_auth_format =
    nested_format
      (fields_format (λ a. (a.flavor, a.body)) (pair_format u32_format (var_bytes_format 400)))

pub opaque_auth-Implements : Implements opaque_auth opaque_auth_format
unfolding opaque_auth
opaque_auth-Implements = nested-Implements (
    fields-Implements opaque_auth_fields opaque_auth_of (λ b. refl) (λ a. refl)
      (pair-Implements u32-Implements (var_bytes-Implements 400 (omega arith))))

abbrev pub call_format : Format CallBody
call_format = nested_format (
    fields_format (λ c. (c.rpcvers, (c.prog, (c.vers, (c.proc, (c.cred, (c.verf, c.trace_mode)))))))
      (pair_format u32_format (
        pair_format u32_format (
          pair_format u32_format (
            pair_format u32_format
              (pair_format opaque_auth_format (pair_format opaque_auth_format u32_format)))))))

pub call_body-Implements : Implements call_body call_format
unfolding call_body
call_body-Implements = nested-Implements (
    fields-Implements call_fields call_of (λ b. refl) (λ a. refl)
      (pair-Implements u32-Implements (
        pair-Implements u32-Implements (
          pair-Implements u32-Implements (
            pair-Implements u32-Implements (
              pair-Implements opaque_auth-Implements
                (pair-Implements opaque_auth-Implements u32-Implements)))))))

abbrev pub success_format : Format Success
success_format = nested_format (
    fields_format (λ s. (s.end_time, (s.path, s.results)))
      (pair_format u64_format (pair_format (var_bytes_format xdr_max_len) (fixed_bytes_format 0))))

pub success_body-Implements : Implements success_body success_format
unfolding success_body
success_body-Implements = nested-Implements (
    fields-Implements success_fields success_of (λ b. refl) (λ a. refl)
      (pair-Implements u64-Implements (
        pair-Implements (var_bytes-Implements xdr_max_len (omega arith))
          (fixed_bytes-Implements 0))))

abbrev pub mismatch_format : Format MismatchInfo
mismatch_format =
    nested_format (fields_format (λ i. (i.low, i.high)) (pair_format u32_format u32_format))

pub mismatch_info-Implements : Implements mismatch_info mismatch_format
unfolding mismatch_info
mismatch_info-Implements = nested-Implements (
    fields-Implements mismatch_fields mismatch_of (λ b. refl) (λ a. refl)
      (pair-Implements u32-Implements u32-Implements))

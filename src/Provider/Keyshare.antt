-- ===== src/Provider/Keyshare.antt =====
-- LUNA_PARAM_set_encoded_public_key and LUNA_PARAM_get_encoded_public_key of
-- lunaProvider/lunaCommon.c: the two parts of the public key of an ECX hybrid KEM are swapped on the
-- way out and on the way in. OSSL_PARAM_set_octet_string takes what is passed on here, and
-- OSSL_PARAM_get_octet_string is an argument: its result and the bytes that it read.
use luna_openssl_provider.Prelude.{
  ℕ, ◌-◌, Bool, not, ◌||◌, Option, none, some, ◌++◌, Bytes, length, take, drop, ltb, ◌==◌,
  if◌then◌else◌,
}

-- The fields of OQSX_KEY that matter: `keytype == KEY_TYPE_ECX_HYB_KEM`, and `lunakeyctx->sublen`.
pub record OqsxKey : Type 0 where
  pub is_ecx_hyb_kem : Bool
  pub sublen : ℕ

-- What is passed to OSSL_PARAM_set_octet_string; `none` is the early `return 0`.
unfoldable pub luna_param_set_encoded_public_key : OqsxKey → Bytes → Option Bytes
luna_param_set_encoded_public_key key val =
    if not key.is_ecx_hyb_kem
    then some val
    else if ltb (length val) key.sublen || ltb key.sublen 1
    then none
    else some (drop key.sublen val ++ take key.sublen val)

-- The return value, and the value that the caller has then.
unfoldable pub luna_param_get_encoded_public_key : OqsxKey → ℕ → Bytes → ℕ × Bytes
luna_param_get_encoded_public_key key rc val =
    if rc == 0 || not key.is_ecx_hyb_kem
    then (rc, val)
    else if ltb (length val) key.sublen || ltb key.sublen 1
    then (0, val)
    else (rc, drop (length val - key.sublen) val ++ take (length val - key.sublen) val)

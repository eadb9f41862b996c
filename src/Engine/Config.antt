-- ===== src/Engine/Config.antt =====
-- The configuration of engine/e_gem.c: the strings of `g_preconfig` and `g_config`, the numbers of
-- `g_postconfig`, and the getters that read a string with `atoi` or fall back on a default.
use luna_openssl_provider.Prelude.{
  ℕ, Bool, true, false, Option, none, some, Bytes, codes, split_at, atoi, ℤ, pos, if◌then◌else◌,
  is_zero,
}

pub record Config : Type 0 where
  -- g_preconfig
  pub conf_engine_init : Option Bytes
  pub conf_engine2_init : Option Bytes
  -- g_config
  pub engine_init : Option Bytes
  pub engine2_init : Option Bytes
  pub appliance : Option Bytes
  pub enable_limited_user : Option Bytes
  pub enable_rsa_ex : Option Bytes
  pub rsa_ex : Option Bytes
  pub enable_dsa_ex : Option Bytes
  pub enable_ecdsa_ex : Option Bytes
  pub disable_rsa : Option Bytes
  pub disable_dsa : Option Bytes
  pub disable_ecdsa : Option Bytes
  pub enable_load_priv_key : Option Bytes
  pub enable_load_pub_key : Option Bytes
  pub enable_pkey_meths : Option Bytes
  pub enable_pkey_asn1_meths : Option Bytes
  pub disable_register_all : Option Bytes
  pub enable_digests : Option Bytes
  pub enable_login_init : Option Bytes
  pub enable_rsa_gen_key_pair : Option Bytes
  pub enable_dsa_gen_key_pair : Option Bytes
  pub enable_pqc_gen_key_pair : Option Bytes
  pub enable_ec_gen_key_pair : Option Bytes
  pub enable_ed_gen_key_pair : Option Bytes
  pub enable_em_gen_key_pair : Option Bytes
  pub recovery_level : Option Bytes
  pub enable_token_object : Option Bytes
  pub enable_pqc_shim : Option Bytes
  pub delegate_hw_pqc_kem_encap_to_sw : Option Bytes
  pub delegate_sw_pqc_kem_encap_rng_to_hw : Option Bytes
  -- g_postconfig
  pub disable_check_finalize : ℤ
  pub intermediate_processes : ℤ
  pub disable_session_cache : ℤ
  pub disable_multi_thread : ℤ
  -- the static `skip_c_initialize`, and whether the loaded library has CT_HsmIdFromSlotId
  pub skip_c_initialize : Bool
  pub has_hsm_id : Bool

abbrev value_or : Option Bytes → ℤ → ℤ
value_or none d = d
value_or (some s) d = atoi s

unfoldable pub luna_get_engine_init : Config → Option Bytes
luna_get_engine_init c = elim c.conf_engine_init [ none ↦ c.engine_init | some s ↦ some s ]

unfoldable pub luna_get_engine2_init : Config → Option Bytes
luna_get_engine2_init c = elim c.conf_engine2_init [ none ↦ c.engine2_init | some s ↦ some s ]

-- ENGINE_KEY_SECURE of engine/e_gem.h
abbrev engine_key_secure : Bytes
engine_key_secure = codes "KeySecure"

unfoldable pub luna_pa_check_lib : Config → Bool
luna_pa_check_lib c = elim c.appliance [
  | none ↦ false
  | some s ↦ elim (split_at engine_key_secure s) [ none ↦ false | some _ ↦ true ]
]

unfoldable pub luna_ps_check_lib : Config → Bool
luna_ps_check_lib c = c.has_hsm_id

-- CKU_USER and CKU_LIMITED_USER
unfoldable pub luna_get_user_type : Config → ℕ
luna_get_user_type c = if is_zero (value_or c.enable_limited_user (pos 0)) then 1 else 0x8000_0001

unfoldable pub luna_get_rsa_ex : Config → ℤ
luna_get_rsa_ex c = value_or c.enable_rsa_ex (value_or c.rsa_ex (pos 1))

unfoldable pub luna_get_dsa_ex : Config → ℤ
luna_get_dsa_ex c = value_or c.enable_dsa_ex (pos 1)

unfoldable pub luna_get_ecdsa_ex : Config → ℤ
luna_get_ecdsa_ex c = value_or c.enable_ecdsa_ex (pos 1)

unfoldable pub luna_get_disable_rsa : Config → ℤ
luna_get_disable_rsa c = value_or c.disable_rsa (pos 0)

unfoldable pub luna_get_disable_dsa : Config → ℤ
luna_get_disable_dsa c = value_or c.disable_dsa (pos 1)

unfoldable pub luna_get_disable_ecdsa : Config → ℤ
luna_get_disable_ecdsa c = value_or c.disable_ecdsa (pos 1)

unfoldable pub luna_get_enable_load_privkey : Config → ℤ
luna_get_enable_load_privkey c = value_or c.enable_load_priv_key (pos 1)

unfoldable pub luna_get_enable_load_pubkey : Config → ℤ
luna_get_enable_load_pubkey c = value_or c.enable_load_pub_key (pos 1)

unfoldable pub luna_get_enable_pkey_meths : Config → ℤ
luna_get_enable_pkey_meths c = value_or c.enable_pkey_meths (pos 1)

unfoldable pub luna_get_enable_pkey_asn1_meths : Config → ℤ
luna_get_enable_pkey_asn1_meths c = value_or c.enable_pkey_asn1_meths (pos 1)

unfoldable pub luna_get_disable_register_all : Config → ℤ
luna_get_disable_register_all c = value_or c.disable_register_all (pos 1)

unfoldable pub luna_get_enable_digests : Config → ℤ
luna_get_enable_digests c = value_or c.enable_digests (pos 1)

unfoldable pub luna_get_enable_login_init : Config → ℤ
luna_get_enable_login_init c = value_or c.enable_login_init (pos 0)

unfoldable pub luna_get_enable_rsa_gen_key_pair : Config → ℤ
luna_get_enable_rsa_gen_key_pair c = value_or c.enable_rsa_gen_key_pair (pos 0)

unfoldable pub luna_get_enable_dsa_gen_key_pair : Config → ℤ
luna_get_enable_dsa_gen_key_pair c = value_or c.enable_dsa_gen_key_pair (pos 0)

unfoldable pub luna_get_enable_pqc_gen_key_pair : Config → ℤ
luna_get_enable_pqc_gen_key_pair c = value_or c.enable_pqc_gen_key_pair (pos 0)

unfoldable pub luna_get_enable_ec_gen_key_pair : Config → ℤ
luna_get_enable_ec_gen_key_pair c = value_or c.enable_ec_gen_key_pair (pos 0)

unfoldable pub luna_get_enable_ed_gen_key_pair : Config → ℤ
luna_get_enable_ed_gen_key_pair c = value_or c.enable_ed_gen_key_pair (pos 0)

unfoldable pub luna_get_enable_em_gen_key_pair : Config → ℤ
luna_get_enable_em_gen_key_pair c = value_or c.enable_em_gen_key_pair (pos 0)

unfoldable pub luna_get_recovery_level : Config → ℤ
luna_get_recovery_level c = value_or c.recovery_level (pos 1)

unfoldable pub luna_get_token_object : Config → ℤ
luna_get_token_object c = value_or c.enable_token_object (pos 1)

unfoldable pub luna_get_pqc_shim : Config → ℤ
luna_get_pqc_shim c = value_or c.enable_pqc_shim (pos 0)

unfoldable pub luna_get_delegate_hw_pqc_kem_encap_to_sw : Config → ℤ
luna_get_delegate_hw_pqc_kem_encap_to_sw c = value_or c.delegate_hw_pqc_kem_encap_to_sw (pos 0)

unfoldable pub luna_get_delegate_sw_pqc_kem_encap_rng_to_hw : Config → ℤ
luna_get_delegate_sw_pqc_kem_encap_rng_to_hw c =
    value_or c.delegate_sw_pqc_kem_encap_rng_to_hw (pos 0)

-- ===== src/Provider/Key/State.antt =====
-- The state of an operation on a key: the fields of luna_prov_key_ctx and of luna_prov_keyinfo of
-- lunaProvider/lunaCommon.c, the calls of PKCS#11 on keys, which are a parameter, and the
-- codes of Thales.
use luna_openssl_provider.Prelude.{
  ℕ, ◌/◌, ◌%◌, zero, suc, Bool, not, ◌||◌, Option, List, [], ◌∷◌, Bytes, ◌==◌,
}
use luna_openssl_provider.Cryptoki.{Cryptoki}
use luna_openssl_provider.Engine.Session.State.{Context, Globals}
use luna_openssl_provider.Engine.Session.Context.{luna_context_set_last_error}
use luna_openssl_provider.Provider.Algorithms.{KeyCtx}
use luna_openssl_provider.Provider.Blob.{Attribute}
use luna_openssl_provider.Provider.KeyLock.{Reason}

-- LUNA_PROV_MAGIC_ZERO, LUNA_PROV_MAGIC_ERROR and LUNA_PROV_MAGIC_OK
pub data Magic : Type 0 where
  magic_zero : Magic
  magic_error : Magic
  magic_ok : Magic

abbrev pub is_zero_magic : Magic → Bool
is_zero_magic magic_zero = Bool.true
is_zero_magic magic_error = Bool.false
is_zero_magic magic_ok = Bool.false

abbrev pub is_ok_magic : Magic → Bool
is_ok_magic magic_zero = Bool.false
is_ok_magic magic_error = Bool.false
is_ok_magic magic_ok = Bool.true

abbrev pub is_zero_reason : Reason → Bool
is_zero_reason Reason.reason_zero = Bool.true
is_zero_reason Reason.gen = Bool.false
is_zero_reason Reason.set_params = Bool.false
is_zero_reason Reason.from_data = Bool.false
is_zero_reason Reason.from_encoding = Bool.false
is_zero_reason Reason.create = Bool.false

abbrev pub is_gen_reason : Reason → Bool
is_gen_reason Reason.reason_zero = Bool.false
is_gen_reason Reason.gen = Bool.true
is_gen_reason Reason.set_params = Bool.false
is_gen_reason Reason.from_data = Bool.false
is_gen_reason Reason.from_encoding = Bool.false
is_gen_reason Reason.create = Bool.false

-- luna_prov_ctxtype
pub data Ctxtype : Type 0 where
  ctxtype_zero : Ctxtype
  oqs : Ctxtype
  ecxgen : Ctxtype
  eddsa : Ctxtype
  ecxexch : Ctxtype

-- luna_prov_key_ctx but for the lock, with the buffers of the key that it points to: `pubkey` is the
-- empty list, and `privkey` is `none`, where the pointer is NULL.
pub record ProvKey : Type 0 where
  pub alg : KeyCtx
  pub magic : Magic
  pub h_public : ℕ
  pub h_private : ℕ
  pub b_token_object : Bool
  pub count_c_init : ℕ
  pub is_hardware : Bool
  pub reason : Reason
  pub ctxtype : Ctxtype
  pub pubkey : Bytes
  pub privkey : Option Bytes

-- The key, the session context of luna_prov_keyinfo, and the globals of the engine.
pub record Work (T : Type 0) : Type 0 where
  pub key : ProvKey
  pub sess : Context
  pub globals : Globals T

module _ {T : Type 0} where
  -- P11_CHECK_COUNT: true if the count is not of the running library.
  abbrev pub p11_check_count : ℕ → Globals T → Bool
  p11_check_count count g = not g.have_c_init || not (count == g.init_count)

  abbrev pub set_last_error : ℕ → Work T → Work T
  set_last_error rv w = record w { sess = luna_context_set_last_error w.sess rv }

  abbrev pub set_token : T → Work T → Work T
  set_token t w = record w { globals = record w.globals { token = t } }

  abbrev pub set_magic : Magic → Work T → Work T
  set_magic magic w = record w { key = record w.key { magic = magic } }

-- The calls on objects. Each takes the session handle first; a buffer length of `none` is a NULL
-- buffer.
pub record KeyCalls (c : Cryptoki) : Type 0 where
  pub c_find_objects_init : ℕ → List Attribute → c.Token → ℕ × c.Token
  -- the length of the array; the handles that are found
  pub c_find_objects : ℕ → ℕ → c.Token → ℕ × List ℕ × c.Token
  -- mechanism, public and private template; the public and the private handle
  pub c_generate_key_pair : ℕ → ℕ → List Attribute → List Attribute → c.Token → ℕ × ℕ × ℕ × c.Token
  -- handle, attribute type and buffer length; the length and the value
  pub c_get_attribute_value : ℕ → ℕ → ℕ → Option ℕ → c.Token → ℕ × ℕ × Bytes × c.Token
  -- mechanism and handle
  pub c_sign_init : ℕ → ℕ → ℕ → c.Token → ℕ × c.Token
  -- message and buffer length; the length and the signature
  pub c_sign : ℕ → Bytes → Option ℕ → c.Token → ℕ × ℕ × Bytes × c.Token
  pub c_verify_init : ℕ → ℕ → ℕ → c.Token → ℕ × c.Token
  -- message and signature
  pub c_verify : ℕ → Bytes → Bytes → c.Token → ℕ × c.Token

abbrev pub ckr_arguments_bad : ℕ
ckr_arguments_bad = 0x7

abbrev pub ckr_key_changed : ℕ
ckr_key_changed = 0x65

-- CK_INVALID_X
abbrev pub ckp_invalid : ℕ
ckp_invalid = 0x7fff_ffff

-- The codes of lunaProvider/lunaCommon.c and of lunaProvider/pqcdefs.h, which are those of the PQC
-- functionality module.
abbrev pub ckr_object_count_too_small : ℕ
ckr_object_count_too_small = 0x7fff_ff01

abbrev pub ckr_object_count_too_large : ℕ
ckr_object_count_too_large = 0x7fff_ff02

abbrev pub ckr_object_decoding_failed : ℕ
ckr_object_decoding_failed = 0x7fff_ff04

abbrev pub cka_key_params : ℕ
cka_key_params = 0xc000_0001

abbrev pub ckk_ml_dsa : ℕ
ckk_ml_dsa = 0xc000_0008

abbrev pub ckk_ml_kem : ℕ
ckk_ml_kem = 0xc000_0009

abbrev pub ckm_ml_kem_key_pair_gen : ℕ
ckm_ml_kem_key_pair_gen = 0xc000_0013

abbrev pub ckm_ml_kem_key_encap : ℕ
ckm_ml_kem_key_encap = 0xc000_0014

abbrev pub ckm_ml_kem_key_decap : ℕ
ckm_ml_kem_key_decap = 0xc000_0015

abbrev pub ckm_ml_dsa_key_pair_gen : ℕ
ckm_ml_dsa_key_pair_gen = 0xc000_0065

abbrev pub ckm_ml_dsa : ℕ
ckm_ml_dsa = 0xc000_0066

abbrev pub ckp_ml_kem_512 : ℕ
ckp_ml_kem_512 = 1

abbrev pub ckp_ml_kem_768 : ℕ
ckp_ml_kem_768 = 2

abbrev pub ckp_ml_kem_1024 : ℕ
ckp_ml_kem_1024 = 3

abbrev pub ckp_ml_kem_512_ipd : ℕ
ckp_ml_kem_512_ipd = 4

abbrev pub ckp_ml_kem_768_ipd : ℕ
ckp_ml_kem_768_ipd = 5

abbrev pub ckp_ml_kem_1024_ipd : ℕ
ckp_ml_kem_1024_ipd = 6

abbrev pub ckp_ml_dsa_44 : ℕ
ckp_ml_dsa_44 = 1

abbrev pub ckp_ml_dsa_65 : ℕ
ckp_ml_dsa_65 = 2

abbrev pub ckp_ml_dsa_87 : ℕ
ckp_ml_dsa_87 = 3

abbrev pub ckp_ml_dsa_44_ipd : ℕ
ckp_ml_dsa_44_ipd = 4

abbrev pub ckp_ml_dsa_65_ipd : ℕ
ckp_ml_dsa_65_ipd = 5

abbrev pub ckp_ml_dsa_87_ipd : ℕ
ckp_ml_dsa_87_ipd = 6

-- A CK_ULONG in memory.
unfoldable pub le_bytes : ℕ → ℕ → Bytes
le_bytes zero v = []
le_bytes (suc n) v = (v % 256) ∷ le_bytes n (v / 256)

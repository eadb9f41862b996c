-- ===== src/Provider/Key/Wrap.antt =====
-- The bytes of a secret key in the HSM, from LunaUnwrapKeyBytes_prep to LunaDeriveUnwrapKeyBytes of
-- lunaProvider/lunaCommon.c: the HSM wraps the key with an RSA key pair of the provider, and OpenSSL
-- unwraps it. The RSA operations of OpenSSL are a parameter. Built without LUNA_OSSL_3_4, the RSA key
-- has 1024 bits.
use luna_openssl_provider.Prelude.{
  ℕ, Bool, true, false, not, ◌||◌, Option, none, some, List, [], ◌∷◌, Bytes, length, ◌==◌,
  if◌then◌else◌,
}
use luna_openssl_provider.Cryptoki.{Cryptoki, ckr_ok, ckr_general_error}
use luna_openssl_provider.Provider.Blob.{Attribute}
use luna_openssl_provider.Provider.Key.State.{Work, set_last_error, set_token, le_bytes}

-- A mechanism, and the part of its parameter that varies.
pub record Mechanism : Type 0 where
  pub mech_type : ℕ
  pub parameter : Bytes

-- The calls on secret keys; each takes the session handle first.
pub record SecretCalls (c : Cryptoki) : Type 1 where
  -- the key pair for wrapping
  pub Pkey : Type 0
  -- luna_init_wrapping_pkey_deferred
  pub new_pkey : Option Pkey
  -- RSA_get0_key and BN_bn2bin
  pub modulus : Pkey → Bytes
  pub exponent : Pkey → Bytes
  -- EVP_PKEY_decrypt, with OAEP of SHA-256
  pub decrypt : Pkey → Bytes → Option Bytes
  pub c_create_object : ℕ → List Attribute → c.Token → ℕ × ℕ × c.Token
  pub c_destroy_object : ℕ → ℕ → c.Token → ℕ × c.Token
  -- wrapping key and key
  pub c_wrap_key : ℕ → ℕ → ℕ → c.Token → ℕ × Bytes × c.Token
  -- base key and template
  pub c_derive_key : ℕ → Mechanism → ℕ → List Attribute → c.Token → ℕ × ℕ × c.Token
  -- private key, template and ciphertext
  pub ca_decapsulate_key : ℕ → Mechanism → ℕ → List Attribute → Bytes → c.Token → ℕ × ℕ × c.Token
  -- base key and template, and the wrapping key
  pub ca_derive_key_and_wrap :
      ℕ → Mechanism → ℕ → List Attribute → ℕ → c.Token → ℕ × Bytes × c.Token

abbrev pub ckr_key_needed : ℕ
ckr_key_needed = 0x66

-- LUNA_RSAWRAP_KEYBITS
abbrev pub luna_rsawrap_keybits : ℕ
luna_rsawrap_keybits = 1024

-- luna_wrapping_pkey, luna_wrapping_error, luna_wrapping_handle and luna_wrapping_count_c_init
pub record Wrapping (P : Type 0) : Type 0 where
  pub pkey : Option P
  pub error : Bool
  pub handle : ℕ
  pub count_c_init : ℕ

abbrev pub luna_init_ecdh : {P : Type 0} → Wrapping P
luna_init_ecdh = record { pkey = none; error = false; handle = 0; count_c_init = 0 }

-- A key to wrap, or one to derive and wrap (LunaUnwrapKeyBytesOAEP_st).
pub data Target : Type 0 where
  object : ℕ → Target
  derived : Mechanism → ℕ → List Attribute → Target

module _ (c : Cryptoki) (secrets : SecretCalls c) where
  -- The template of the public key for wrapping.
  abbrev pub wrapper_template : secrets.Pkey → List Attribute
  wrapper_template pkey =
      record { attr_type = 0x1; value = 0 ∷ [] }
      ∷ record { attr_type = 0x0; value = le_bytes 8 2 }
      ∷ record { attr_type = 0x100; value = le_bytes 8 0 }
      ∷ record { attr_type = 0x106; value = 1 ∷ [] }
      ∷ record { attr_type = 0x120; value = secrets.modulus pkey }
      ∷ record { attr_type = 0x122; value = secrets.exponent pkey }
      ∷ []

  -- "import sw rsa public to hw"
  unfoldable pub import_wrapper :
      secrets.Pkey → Wrapping secrets.Pkey → Work c.Token → ℕ × Wrapping secrets.Pkey × Work c.Token
  import_wrapper pkey x w =
      let (rv, h, t) =
        secrets.c_create_object w.sess.h_session (wrapper_template pkey) w.globals.token in
      if not (x.handle == 0 || not (x.count_c_init == w.globals.init_count))
      then (ckr_ok, x, w)
      else if not (length (secrets.exponent pkey) == 3)
          || not (length (secrets.modulus pkey) == 128)
      then (ckr_general_error, x, w)
      else if not (rv == ckr_ok)
      then (rv, x, set_token t w)
      else (ckr_ok, record x { handle = h; count_c_init = w.globals.init_count }, set_token t w)

  -- "hw wrap the tls key"
  unfoldable pub wrap_target : Target → ℕ → Work c.Token → ℕ × Bytes × Work c.Token
  wrap_target (object h) wrapper w =
      let (rv, wrapped, t) = secrets.c_wrap_key w.sess.h_session wrapper h w.globals.token in
      (rv, wrapped, set_token t w)
  wrap_target (derived mech base a) wrapper w =
      let (rv, wrapped, t) =
        secrets.ca_derive_key_and_wrap w.sess.h_session mech base a wrapper w.globals.token in
      (rv, wrapped, set_token t w)

  -- "sw unwrap the tls key"
  unfoldable pub decrypt_secret : secrets.Pkey → Bytes → ℕ → Option Bytes
  decrypt_secret pkey wrapped secret_len = elim (secrets.decrypt pkey wrapped) [
    | none ↦ none
    | some out ↦ if length out == secret_len then some out else none
  ]

  -- The return value and the bytes that are written to `psecret`.
  unfoldable pub luna_unwrap_key_bytes_oaep :
      Target
      → ℕ
      → Wrapping secrets.Pkey
      → Work c.Token
      → ℕ × Option Bytes × Wrapping secrets.Pkey × Work c.Token
  luna_unwrap_key_bytes_oaep target secret_len x w = elim x.pkey [
    | none ↦ (ckr_key_needed, none, x, set_last_error ckr_key_needed w)
    | some pkey ↦
        let (rv, x1, w1) = import_wrapper pkey x w in
        let (rv2, wrapped, w2) = wrap_target target x1.handle w1 in
        let secret = decrypt_secret pkey wrapped secret_len in
        let rv3 : ℕ = elim secret [ none ↦ ckr_general_error | some out ↦ ckr_ok ] in
        if not (rv == ckr_ok)
        then (rv, none, x1, set_last_error rv w1)
        else if not (rv2 == ckr_ok)
        then (rv2, none, x1, set_last_error rv2 w2)
        else (rv3, secret, x1, set_last_error rv3 w2)
  ]

  unfoldable pub luna_unwrap_key_bytes_prep : Wrapping secrets.Pkey → ℕ × Wrapping secrets.Pkey
  luna_unwrap_key_bytes_prep x =
      let error : Bool = elim secrets.new_pkey [ none ↦ true | some _ ↦ false ] in
      let fresh : Wrapping secrets.Pkey = record {
        pkey = secrets.new_pkey;
        error = error;
        handle = 0;
        count_c_init = 0;
      } in
      let made : Wrapping secrets.Pkey = elim x.pkey [ none ↦ fresh | some _ ↦ x ] in
      let x1 = if x.error then x else made in (if x1.error then ckr_general_error else ckr_ok, x1)

  -- LunaUnwrapKeyBytes and LunaDeriveUnwrapKeyBytes.
  unfoldable pub luna_unwrap_key_bytes :
      Target
      → ℕ
      → Wrapping secrets.Pkey
      → Work c.Token
      → ℕ × Option Bytes × Wrapping secrets.Pkey × Work c.Token
  luna_unwrap_key_bytes target secret_len x w =
      let (rv, x1) = luna_unwrap_key_bytes_prep x in
      if rv == ckr_ok
      then luna_unwrap_key_bytes_oaep target secret_len x1 w
      else (ckr_general_error, none, x1, w)

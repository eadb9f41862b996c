-- ===== src/Provider/Key/Decap.antt =====
-- LunaPqcKemDecap of lunaProvider/lunaPqcKem.c and LUNA_OQS_KEM_decaps of lunaProvider/lunaCommon.c.
use luna_openssl_provider.Prelude.{
  ℕ, ◌%◌, Bool, true, false, not, ◌||◌, ◌&&◌, Option, none, some, List, [], ◌∷◌, Bytes, codes,
  length, ltb, is_zero, ◌==◌, if◌then◌else◌,
}
use luna_openssl_provider.Cryptoki.{Cryptoki, ckr_ok, ckr_general_error}
use luna_openssl_provider.Engine.Config.{Config, luna_get_pqc_shim}
use luna_openssl_provider.Engine.Session.State.{Globals}
use luna_openssl_provider.Provider.Algorithms.{Alg, luna_lookup_alg_name}
use luna_openssl_provider.Provider.Blob.{Attribute, cka_label}
use luna_openssl_provider.Provider.Key.State.{
  Work, ProvKey, KeyCalls, set_last_error, set_token, le_bytes, p11_check_count, ckr_key_changed,
  ckr_arguments_bad, ckk_ml_kem,
}
use luna_openssl_provider.Provider.Key.Firmware.{no_codes, luna_translate_fm2fw}
use luna_openssl_provider.Provider.Key.Gen.{or_else}
use luna_openssl_provider.Provider.Key.Ops.{
  begin_op, end_op, prepare_op, luna_oqs_findobject_helper_pre,
}
use luna_openssl_provider.Provider.Key.Wrap.{
  SecretCalls, Mechanism, Wrapping, object, luna_unwrap_key_bytes,
}

abbrev pub ckk_kyber : ℕ
ckk_kyber = 0xc000_0001

-- CK_KEYTYPE_IS_PQC_KEM
abbrev pub is_pqc_kem : ℕ → Bool
is_pqc_kem t = t == ckk_kyber || t == ckk_ml_kem

-- CK_KEYTYPE_IS_ECX_KEM: CKK_EC_MONTGOMERY
abbrev pub is_ecx_kem : ℕ → Bool
is_ecx_kem t = t == 0x41

abbrev pub luna_prov_is_ecdh_len : ℕ → Bool
luna_prov_is_ecdh_len len = len == 66 || len == 48 || len == 32 || len == 64 || len == 56

abbrev pub attr : ℕ → Bytes → Attribute
attr t v = record { attr_type = t; value = v }

-- decapTemplate
abbrev pub decap_template : ℕ → List Attribute
decap_template secret_len =
    attr 0x0 (le_bytes 8 4)
    ∷ attr 0x1 (0 ∷ [])
    ∷ attr 0x161 (le_bytes 8 secret_len)
    ∷ attr 0x100 (le_bytes 8 0x10)
    ∷ attr 0x170 (0 ∷ [])
    ∷ attr 0x162 (1 ∷ [])
    ∷ attr 0x104 (1 ∷ [])
    ∷ attr 0x105 (1 ∷ [])
    ∷ attr cka_label (codes "temp-luna-kem-decap")
    ∷ []

module _ (cfg : Config) (c : Cryptoki) (secrets : SecretCalls c) where
  -- The decapsulation: C_DeriveKey for a curve or under the shim, CA_DecapsulateKey otherwise.
  unfoldable pub decap_key : Alg → ℕ → Bytes → Work c.Token → ℕ × ℕ × c.Token
  decap_key a secret_len ct w =
      let fw =
        luna_translate_fm2fw
          (record no_codes { keytype = some a.keytype; type_decap = some a.type_decap }) in
      let point = 0x4 ∷ (length ct % 256) ∷ ct in
      let mech : Mechanism = record {
        mech_type = a.type_decap;
        parameter = if is_pqc_kem a.keytype then ct else point;
      } in
      let fw_mech : Mechanism = record {
        mech_type = or_else fw.type_decap a.type_decap;
        parameter = [];
      } in
      if not (is_pqc_kem a.keytype) || not (is_zero (luna_get_pqc_shim cfg))
      then secrets.c_derive_key w.sess.h_session mech w.key.h_private (decap_template secret_len)
          w.globals.token
      else secrets.ca_decapsulate_key w.sess.h_session fw_mech w.key.h_private
          (decap_template secret_len) ct w.globals.token

  abbrev pub destroy : ℕ → Work c.Token → Work c.Token
  destroy h w =
      if h == 0
      then w
      else set_token (secrets.c_destroy_object w.sess.h_session h w.globals.token).1 w

  -- The return value, the bytes that are written to `psecret`, and the states behind.
  abbrev pub Decapped : Type 0
  Decapped = ℕ × Option Bytes × Wrapping secrets.Pkey × Work c.Token

  -- From the check for a stale handle on.
  unfoldable pub decap_and_unwrap :
      Alg → ℕ → Bytes → Wrapping secrets.Pkey → Work c.Token → Decapped
  decap_and_unwrap a secret_len ct x w =
      let (rv, h, t) = decap_key a secret_len ct w in
      let w1 = set_token t w in
      let (rv2, secret, x1, w2) = luna_unwrap_key_bytes c secrets (object h) secret_len x w1 in
      if p11_check_count w.key.count_c_init w.globals
      then (ckr_key_changed, none, x, set_last_error ckr_key_changed w)
      else if not (rv == ckr_ok)
      then (rv, none, x, set_last_error rv (destroy h w1))
      else (rv2, secret, x1, set_last_error rv2 (destroy h w2))

  module _ (tab : List Alg) where
    -- `none` is an assertion that fails.
    unfoldable pub luna_pqc_kem_decap :
        ℕ → Bytes → Wrapping secrets.Pkey → Work c.Token → Option Decapped
    luna_pqc_kem_decap secret_len ct x w0 =
        let (rvlookup, found, alg1) = luna_lookup_alg_name tab w0.key.alg in
        let w = record w0 { key = record w0.key { alg = alg1 } } in
        elim found [
          | none ↦ some (rvlookup, none, x, w)
          | some a ↦
              if not (is_pqc_kem a.keytype || is_ecx_kem a.keytype)
              then some (ckr_arguments_bad, none, x, w)
              else if not (luna_prov_is_ecdh_len secret_len)
              then some (ckr_arguments_bad, none, x, w)
              else if not (is_pqc_kem a.keytype) && ltb 62 (length ct)
              then none
              else some (decap_and_unwrap a secret_len ct x w)
        ]

    -- LUNA_KEYCTX_LEN_SECRET
    abbrev pub len_secret : ProvKey → ℕ
    len_secret key = if key.alg.sublen == 56 then 56 else 32

    -- The return value, `*outlen` if it is written, the secret if it is written, and the states behind;
    -- an output length of `none` is a query.
    unfoldable pub luna_oqs_kem_decaps :
        KeyCalls c
        → Option ℕ
        → Bytes
        → Wrapping secrets.Pkey
        → ProvKey
        → Globals c.Token
        → Option
            (Bool × Option ℕ × Option Bytes × Wrapping secrets.Pkey × ProvKey × Globals c.Token)
    luna_oqs_kem_decaps calls none ct x key g = some (true, some (len_secret key), none, x, key, g)
    luna_oqs_kem_decaps calls (some outlen) ct x key g =
        let (rc, here, w) =
          luna_oqs_findobject_helper_pre cfg c calls tab (begin_op cfg c calls tab key g) in
        let (rv, w1) = prepare_op cfg c calls tab here w in
        let rv1 = if ltb outlen (len_secret key) then ckr_general_error else rv in
        let (key0, g0) = end_op cfg c calls tab w in
        let (key1, g1) = end_op cfg c calls tab (set_last_error rv1 w1) in
        if not rc
        then some (false, none, none, x, key0, g0)
        else if not (rv1 == ckr_ok)
        then some (false, none, none, x, key1, g1)
        else elim (luna_pqc_kem_decap (len_secret key) ct x w1) [
          | none ↦ none
          | some (rv2, secret, x2, w2) ↦
              let (key2, g2) = end_op cfg c calls tab (set_last_error rv2 w2) in
              some (
                rv2 == ckr_ok,
                if rv2 == ckr_ok then some (len_secret key) else none,
                secret,
                x2,
                key2,
                g2,
              )
        ]

-- ===== src/Provider/Key/Encap.antt =====
-- LunaPqcKemEncap of lunaProvider/lunaPqcKem.c; LUNA_OQS_KEM_encaps and the query before it, of
-- lunaProvider/lunaCommon.c.
use luna_openssl_provider.Prelude.{
  ℕ, Bool, false, not, ◌&&◌, Option, none, some, List, [], ◌∷◌, Bytes, codes, ltb, is_zero, ◌==◌,
  if◌then◌else◌,
}
use luna_openssl_provider.Cryptoki.{Cryptoki, ckr_ok, ckr_general_error}
use luna_openssl_provider.Engine.Config.{Config, luna_get_pqc_shim}
use luna_openssl_provider.Engine.Session.State.{Globals}
use luna_openssl_provider.Provider.Algorithms.{Alg, luna_lookup_alg_name}
use luna_openssl_provider.Provider.Blob.{Attribute, cka_label}
use luna_openssl_provider.Provider.Key.State.{
  Work, ProvKey, KeyCalls, set_last_error, set_token, le_bytes, p11_check_count, ckr_key_changed,
  ckr_arguments_bad,
}
use luna_openssl_provider.Provider.Key.Gen.{or_else}
use luna_openssl_provider.Provider.Key.Ops.{
  begin_op, end_op, open_op, luna_oqs_findobject_helper_pre, luna_oqs_query_any_public_op,
}
use luna_openssl_provider.Provider.Key.Wrap.{SecretCalls, Wrapping, object, luna_unwrap_key_bytes}
use luna_openssl_provider.Provider.Key.Decap.{
  is_pqc_kem, luna_prov_is_ecdh_len, destroy, len_secret, attr,
}
use luna_openssl_provider.Provider.Key.Peer.{
  EncapParams, luna_prov_key_reason_pubkey, fw_codes, public_object,
}

-- The calls that encapsulate: session, mechanism, public key, template and the length of the buffer for
-- the ciphertext, `none` for a NULL buffer; the length, the ciphertext and the handle of the secret.
pub record EncapCalls (c : Cryptoki) : Type 0 where
  pub c_derive_key :
      ℕ → ℕ → EncapParams → ℕ → List Attribute → Option ℕ → c.Token → ℕ × ℕ × Bytes × ℕ × c.Token
  pub ca_encapsulate_key :
      ℕ → ℕ → ℕ → List Attribute → Option ℕ → c.Token → ℕ × ℕ × Bytes × ℕ × c.Token

-- encapTemplate
abbrev pub encap_template : ℕ → List Attribute
encap_template secret_len =
    attr 0x0 (le_bytes 8 4)
    ∷ attr 0x1 (0 ∷ [])
    ∷ attr 0x161 (le_bytes 8 secret_len)
    ∷ attr 0x100 (le_bytes 8 0x10)
    ∷ attr 0x170 (0 ∷ [])
    ∷ attr 0x162 (1 ∷ [])
    ∷ attr 0x104 (1 ∷ [])
    ∷ attr 0x105 (1 ∷ [])
    ∷ attr cka_label (codes "temp-luna-kem-encap")
    ∷ []

module _ (cfg : Config) (c : Cryptoki) (secrets : SecretCalls c) (encaps : EncapCalls c) where
  unfoldable pub encap_key :
      Alg → ℕ → ℕ → EncapParams → Option ℕ → Work c.Token → ℕ × ℕ × Bytes × ℕ × c.Token
  encap_key a secret_len h params buffer w =
      if is_zero (luna_get_pqc_shim cfg)
      then encaps.ca_encapsulate_key w.sess.h_session
          (or_else (fw_codes cfg c secrets a).type_encap a.type_encap) h (encap_template secret_len)
          buffer w.globals.token
      else encaps.c_derive_key w.sess.h_session a.type_encap params h (encap_template secret_len)
          buffer w.globals.token

  -- The return value, `*plen`, the ciphertext, the secret, and the states behind.
  pub record Encapped : Type 0 where
    pub rv : ℕ
    pub len : ℕ
    pub ciphertext : Bytes
    pub secret : Option Bytes
    pub wrapping : Wrapping secrets.Pkey
    pub work : Work c.Token

  abbrev refused : ℕ → ℕ → Wrapping secrets.Pkey → Work c.Token → Encapped
  refused rv len x w = record {
    rv = rv;
    len = len;
    ciphertext = [];
    secret = none;
    wrapping = x;
    work = w;
  }

  -- The query of the length.
  unfoldable pub encap_query :
      Alg → ℕ → ℕ → EncapParams → Wrapping secrets.Pkey → Work c.Token → Encapped
  encap_query a secret_len h params x w =
      let stale = not (h == 0) && p11_check_count w.key.count_c_init w.globals in
      let (rv, len, _, _, t) = encap_key a secret_len h params none w in
      if stale
      then refused ckr_key_changed 0 x (set_last_error ckr_key_changed w)
      else refused rv len x (set_last_error rv (set_token t w))

  unfoldable pub encap_and_unwrap :
      Alg → ℕ → ℕ → EncapParams → ℕ → Wrapping secrets.Pkey → Work c.Token → Encapped
  encap_and_unwrap a secret_len h params len x w =
      let stale = not (h == 0) && p11_check_count w.key.count_c_init w.globals in
      let (rv, len1, ct, k, t) = encap_key a secret_len h params (some len) w in
      let w1 = set_token t w in
      let (rv2, secret, x1, w2) = luna_unwrap_key_bytes c secrets (object k) secret_len x w1 in
      if ltb len 32
      then refused ckr_arguments_bad len x w
      else if stale
      then refused ckr_key_changed len x (set_last_error ckr_key_changed w)
      else if not (rv == ckr_ok)
      then refused rv len1 x (set_last_error rv (destroy cfg c secrets k w1))
      else record {
        rv = rv2;
        len = len1;
        ciphertext = if rv2 == ckr_ok then ct else [];
        secret = secret;
        wrapping = x1;
        work = set_last_error rv2 (destroy cfg c secrets k w2);
      }

  module _ (tab : List Alg) where
    -- A length of `none` is a query; `len` is then 0 if the call returns early.
    unfoldable pub luna_pqc_kem_encap :
        ℕ → Option ℕ → Wrapping secrets.Pkey → Work c.Token → Encapped
    luna_pqc_kem_encap secret_len output x w0 =
        let (rvlookup, found, alg1) = luna_lookup_alg_name tab w0.key.alg in
        let w = record w0 { key = record w0.key { alg = alg1 } } in
        let len0 = or_else output 0 in
        elim found [
          | none ↦ refused rvlookup len0 x w
          | some a ↦
              let (rv, h, params, w1) = public_object cfg c secrets a w in
              if not (is_pqc_kem a.keytype)
              then refused ckr_arguments_bad len0 x w
              else if not (luna_prov_is_ecdh_len secret_len)
              then refused ckr_arguments_bad len0 x w
              else if not (rv == ckr_ok)
              then refused rv len0 x w1
              else elim output [
                | none ↦ encap_query a secret_len h params x w1
                | some len ↦ encap_and_unwrap a secret_len h params len x w1
              ]
        ]

    module _ (calls : KeyCalls c) where
      -- The return value, the two lengths, the ciphertext and the secret if they are written, and the
      -- states behind; buffers of `none` are a query. `none` is an assertion that fails.
      abbrev pub Encapsulation : Type 0
      Encapsulation =
          Bool
          × Option (ℕ × ℕ)
          × Bytes
          × Option Bytes
          × Wrapping secrets.Pkey
          × ProvKey
          × Globals c.Token

      abbrev finish_encap : ProvKey → Encapped → Encapsulation
      finish_encap key r =
          let (key1, g1) = end_op cfg c calls tab (set_last_error r.rv r.work) in
          (
            r.rv == ckr_ok,
            if r.rv == ckr_ok then some (r.len, len_secret cfg c secrets tab key) else none,
            r.ciphertext,
            r.secret,
            r.wrapping,
            key1,
            g1,
          )

      unfoldable pub luna_oqs_kem_encaps :
          Option (ℕ × ℕ) → Wrapping secrets.Pkey → ProvKey → Globals c.Token → Option Encapsulation
      luna_oqs_kem_encaps buffers x key g =
          let (rc, here, w) =
            luna_oqs_findobject_helper_pre cfg c calls tab (begin_op cfg c calls tab key g) in
          let (rv, w1) = open_op cfg c calls tab w in
          let (key0, g0) = end_op cfg c calls tab w in
          let secret_len = len_secret cfg c secrets tab key in
          let rv1 : ℕ = elim buffers [
            | none ↦ rv
            | some (outlen, secretlen) ↦ if ltb secretlen secret_len then ckr_general_error else rv
          ] in
          let output : Option ℕ = elim buffers [ none ↦ none | some (outlen, _) ↦ some outlen ] in
          if not rc
          then some (false, none, [], none, x, key0, g0)
          else if here
          then none
          else if not (rv1 == ckr_ok)
          then some (finish_encap key (refused rv1 0 x w1))
          else some (finish_encap key (luna_pqc_kem_encap secret_len output x w1))

      unfoldable pub luna_oqs_query_kem_encaps :
          ProvKey → Globals c.Token → Bool × ProvKey × Globals c.Token
      luna_oqs_query_kem_encaps key g =
          let (rc, key1, g1) = luna_oqs_query_any_public_op cfg c calls tab key g in
          (
            rc && not (key1.h_public == 0 && not (luna_prov_key_reason_pubkey key1.reason)),
            key1,
            g1,
          )

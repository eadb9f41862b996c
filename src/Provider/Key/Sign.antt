-- ===== src/Provider/Key/Sign.antt =====
-- LunaPqcSigSign and LunaPqcSigVerify of lunaProvider/lunaPqcSig.c.
use luna_openssl_provider.Prelude.{
  ℕ, not, Option, none, some, List, [], Bytes, is_zero, ◌==◌, if◌then◌else◌,
}
use luna_openssl_provider.Cryptoki.{Cryptoki, ckr_ok}
use luna_openssl_provider.Engine.Config.{Config, luna_get_pqc_shim}
use luna_openssl_provider.Provider.Algorithms.{Alg, luna_lookup_alg_name}
use luna_openssl_provider.Provider.Key.State.{
  Work, KeyCalls, p11_check_count, set_last_error, set_token, ckr_key_changed,
}
use luna_openssl_provider.Provider.Key.Gen.{or_else}
use luna_openssl_provider.Provider.Key.Firmware.{no_codes, luna_translate_fm2fw}

module _ (cfg : Config) (c : Cryptoki) (calls : KeyCalls c) (tab : List Alg) where
  -- The mechanism of a row of the table.
  unfoldable pub sign_mech : Alg → ℕ
  sign_mech a =
      let fw = luna_translate_fm2fw (record no_codes { type_sign = some a.type_sign }) in
      if is_zero (luna_get_pqc_shim cfg) then or_else fw.type_sign a.type_sign else a.type_sign

  -- The return value, `*pulSignatureLen` and the signature.
  unfoldable pub luna_pqc_sig_sign : Bytes → Option ℕ → Work c.Token → ℕ × ℕ × Bytes × Work c.Token
  luna_pqc_sig_sign message buffer w0 =
      let (rvlookup, found, alg1) = luna_lookup_alg_name tab w0.key.alg in
      let w = record w0 { key = record w0.key { alg = alg1 } } in
      let session = w.sess.h_session in
      elim found [
        | none ↦ (rvlookup, 0, [], w)
        | some a ↦
            let (rv, t) =
              calls.c_sign_init session (sign_mech a) w0.key.h_private w.globals.token in
            let (rv2, len, sig, t2) = calls.c_sign session message buffer t in
            if p11_check_count w.key.count_c_init w.globals
            then (ckr_key_changed, 0, [], set_last_error ckr_key_changed w)
            else if not (rv == ckr_ok)
            then (rv, 0, [], set_last_error rv (set_token t w))
            else (rv2, len, sig, set_last_error rv2 (set_token t2 w))
      ]

  unfoldable pub luna_pqc_sig_verify : Bytes → Bytes → Work c.Token → ℕ × Work c.Token
  luna_pqc_sig_verify message signature w0 =
      let (rvlookup, found, alg1) = luna_lookup_alg_name tab w0.key.alg in
      let w = record w0 { key = record w0.key { alg = alg1 } } in
      let session = w.sess.h_session in
      elim found [
        | none ↦ (rvlookup, w)
        | some a ↦
            let (rv, t) =
              calls.c_verify_init session (sign_mech a) w0.key.h_public w.globals.token in
            let (rv2, t2) = calls.c_verify session message signature t in
            if p11_check_count w.key.count_c_init w.globals
            then (ckr_key_changed, set_last_error ckr_key_changed w)
            else if not (rv == ckr_ok)
            then (rv, set_last_error rv (set_token t w))
            else (rv2, set_last_error rv2 (set_token t2 w))
      ]

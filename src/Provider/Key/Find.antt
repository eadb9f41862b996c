-- ===== src/Provider/Key/Find.antt =====
-- LunaFind of lunaProvider/lunaCommon.c and LunaPqcFind of lunaProvider/lunaPqcSig.c: a key pair is
-- looked for by the labels in its private key blob. Built without LUNA_OSSL_FIND_2_OBJECTS and
-- LUNA_OSSL_CALL_FINAL, as the source has it.
use luna_openssl_provider.Prelude.{ℕ, Bool, true, false, not, List, [], ◌∷◌, ◌==◌, if◌then◌else◌}
use luna_openssl_provider.Cryptoki.{Cryptoki, ckr_ok}
use luna_openssl_provider.Provider.Algorithms.{Alg, luna_lookup_alg_name}
use luna_openssl_provider.Provider.Blob.{
  Attribute, Template, decoded, arguments_bad, decoding_failed, cka_label, cka_id,
  luna_pqc_decode_template,
}
use luna_openssl_provider.Provider.Key.State.{
  ckr_object_count_too_small, ckr_object_count_too_large, ckr_object_decoding_failed, Work,
  KeyCalls, set_last_error, set_token, ckr_arguments_bad,
}

abbrev pub blank_template : Template
blank_template = record {
  label = record { attr_type = cka_label; value = [] };
  ident = record { attr_type = cka_id; value = [] };
}

module _ (c : Cryptoki) (calls : KeyCalls c) where
  -- `*ph` is the second part of the result, 0 if it is not set.
  unfoldable pub luna_find : List Attribute → Work c.Token → ℕ × ℕ × Work c.Token
  luna_find a w =
      let session = w.sess.h_session in
      let (rv, t) = calls.c_find_objects_init session a w.globals.token in
      let (rv2, found, t2) = calls.c_find_objects session 1 t in
      if not (rv == ckr_ok)
      then (rv, 0, set_last_error rv (set_token t w))
      else if not (rv2 == ckr_ok)
      then (rv2, 0, set_last_error rv2 (set_token t2 w))
      else elim found [
        | [] ↦ (ckr_object_count_too_small, 0, set_token t2 w)
        | h ∷ [] ↦ (ckr_ok, h, set_token t2 w)
        | h ∷ h2 ∷ more ↦ (ckr_object_count_too_large, 0, set_token t2 w)
      ]

  -- The two searches, private key first; the private and the public handle.
  unfoldable pub find_pair : Template → Template → Work c.Token → ℕ × ℕ × ℕ × Work c.Token
  find_pair pub_t priv_t w =
      let (rv, h_private, w1) = luna_find (priv_t.label ∷ []) w in
      let (rv2, h_public, w2) = luna_find (pub_t.label ∷ []) w1 in
      if not (rv == ckr_ok) then (rv, 0, 0, w1) else (rv2, h_private, h_public, w2)

  module _ (tab : List Alg) where
    -- With the labels of the blob.
    unfoldable pub find_labels : Template → Template → Work c.Token → ℕ × Work c.Token
    find_labels pub_t priv_t w0 =
        let (rvlookup, _, alg1) = luna_lookup_alg_name tab w0.key.alg in
        let w = record w0 { key = record w0.key { alg = alg1 } } in
        let (rv, h_private, h_public, w1) = find_pair pub_t priv_t w in
        if not (rvlookup == ckr_ok)
        then (rvlookup, w)
        else if not (rv == ckr_ok)
        then (rv, record w1 { key = record w1.key { count_c_init = 0 } })
        else (
          rv,
          record w1 {
            key = record w1.key {
              h_public = h_public;
              h_private = h_private;
              count_c_init = w1.globals.init_count;
            };
          },
        )

    unfoldable pub luna_pqc_find : Work c.Token → ℕ × Work c.Token
    luna_pqc_find w =
        let hardware = λ (b : Bool). record w { key = record w.key { is_hardware = b } } in
        elim (luna_pqc_decode_template blank_template blank_template w.key.privkey) [
          | arguments_bad ↦ (ckr_arguments_bad, hardware true)
          | decoding_failed ↦ (ckr_object_decoding_failed, hardware false)
          | decoded pub_t priv_t ↦ find_labels pub_t priv_t (hardware true)
        ]

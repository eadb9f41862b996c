-- ===== src/Provider/Key/Active.antt =====
-- LunaPqcFind in a library that, as PKCS#11 has it, takes one search of a session at a time.
use luna_openssl_provider.Prelude.{
  ℕ, ◌≡◌, ◌≢◌, true, false, List, arith, ◌==◌, [], ◌∷◌, Bool-cases, inl, inr,
}
use luna_openssl_provider.Cryptoki.{Cryptoki, ckr_ok}
use luna_openssl_provider.Provider.Algorithms.{Alg, luna_lookup_alg_name}
use luna_openssl_provider.Provider.Blob.{
  Attribute, Template, Decoded, decoded, arguments_bad, decoding_failed, luna_pqc_decode_template,
}
use luna_openssl_provider.Provider.Key.State.{
  Work, KeyCalls, set_token, ckr_arguments_bad, ckr_object_decoding_failed,
}
use luna_openssl_provider.Provider.Key.Find.{
  luna_find, find_pair, find_labels, luna_pqc_find, blank_template,
}
use luna_openssl_provider.Provider.Key.Steady.{hardware}

-- What PKCS#11 says of a search: it is active once C_FindObjectsInit has begun it, also behind a
-- C_FindObjects that answers CKR_OK, until C_FindObjectsFinal is called; while it is, C_FindObjectsInit
-- fails in that session, as a rule with CKR_OPERATION_ACTIVE.
pub record SearchRules (c : Cryptoki) (calls : KeyCalls c) : Type 1 where
  pub IsSearching : c.Token → ℕ → Type 0
  pub started :
      (session n : ℕ) (a : List Attribute) (t : c.Token)
      → let r = calls.c_find_objects_init session a t in
        let r2 = calls.c_find_objects session n r.1 in
        r.0 ≡ ckr_ok → r2.0 ≡ ckr_ok → IsSearching r2.2 session
  pub active :
      (session : ℕ) (a : List Attribute) (t : c.Token)
      → IsSearching t session
      → (calls.c_find_objects_init session a t).0 ≢ ckr_ok

module _ (c : Cryptoki) (calls : KeyCalls c) (rules : SearchRules c calls) where
  -- A search that succeeds has changed the token only.
  luna_find-done :
      (a : List Attribute) (w : Work c.Token)
      → (luna_find c calls a w).0 ≡ ckr_ok
      → let r = calls.c_find_objects_init w.sess.h_session a w.globals.token in
        (r.0 ≡ ckr_ok)
        × ((calls.c_find_objects w.sess.h_session 1 r.1).0 ≡ ckr_ok)
        × ((luna_find c calls a w).2 ≡ set_token (calls.c_find_objects w.sess.h_session 1 r.1).2 w)
  unfolding luna_find
  luna_find-done a w e = ground (arith, e)

  luna_find-refused :
      (a : List Attribute) (w : Work c.Token)
      → rules.IsSearching w.globals.token w.sess.h_session
      → (luna_find c calls a w).0 ≢ ckr_ok
  unfolding luna_find
  luna_find-refused a w searching =
      ground (arith, rules.active w.sess.h_session a w.globals.token searching)

  find_pair-refused : (p q : Template) (w : Work c.Token) → (find_pair c calls p q w).0 ≢ ckr_ok
  unfolding find_pair
  find_pair-refused p q w e =
      let first = luna_find c calls (q.label ∷ []) w in
      elim (Bool-cases (first.0 == ckr_ok)) [
        | inr bad ↦ absurd (ground (arith, bad, e))
        | inl done ↦
            let (init_ok, find_ok, left) = luna_find-done (q.label ∷ []) w (ground (arith, done)) in
            let searching =
              rules.started w.sess.h_session 1 (q.label ∷ []) w.globals.token init_ok find_ok in
            let refused =
              luna_find-refused (p.label ∷ [])
                (set_token
                  (calls.c_find_objects w.sess.h_session 1
                    (calls.c_find_objects_init w.sess.h_session (q.label ∷ []) w.globals.token).1).2
                  w)
                searching in
            ground (arith, done, e, left, refused)
      ]

  module _ (tab : List Alg) where
    find_labels-refused :
        (p q : Template) (w : Work c.Token) → (find_labels c calls tab p q w).0 ≢ ckr_ok
    unfolding find_labels
    find_labels-refused p q w =
        let alg1 = (luna_lookup_alg_name tab w.key.alg).2 in
        ground (arith, find_pair-refused p q (record w { key = record w.key { alg = alg1 } }))

    -- In a library that refuses a second search of a session while the first is active, LunaPqcFind
    -- never answers CKR_OK, for no key, no session and no state of the token.
    pub luna_pqc_find-refused : (w : Work c.Token) → (luna_pqc_find c calls tab w).0 ≢ ckr_ok
    unfolding luna_pqc_find
    luna_pqc_find-refused w =
        by_decoded (luna_pqc_decode_template blank_template blank_template w.key.privkey)
      where
        by_decoded :
            (d : Decoded)
            → (elim d as (λ x. ℕ × Work c.Token) [
              | arguments_bad ↦ (ckr_arguments_bad, hardware true w)
              | decoding_failed ↦ (ckr_object_decoding_failed, hardware false w)
              | decoded p q ↦ find_labels c calls tab p q (hardware true w)
            ]).0
              ≢ ckr_ok
        by_decoded (decoded p q) e = find_labels-refused p q (hardware true w) e
        by_decoded arguments_bad e = omega (arith, e)
        by_decoded decoding_failed e = omega (arith, e)

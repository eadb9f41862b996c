-- ===== src/Provider/Key/Steady.antt =====
-- What the parts of an operation on a key leave as it was: the magic value, and all of the engine's
-- globals but the state of the library.
use luna_openssl_provider.Prelude.{
  ℕ, ◌≡◌, Bool, true, false, Option, none, some, List, [], ◌∷◌, Bytes, arith, Option-cases, inl,
  inr, length,
}
use luna_openssl_provider.Cryptoki.{Cryptoki}
use luna_openssl_provider.Engine.Config.{Config}
use luna_openssl_provider.Engine.Session.Context.{luna_context_set_last_error}
use luna_openssl_provider.Provider.Algorithms.{Alg, luna_lookup_alg_name}
use luna_openssl_provider.Provider.Blob.{
  Attribute, Template, Decoded, decoded, arguments_bad, decoding_failed, luna_pqc_decode_template,
  luna_pqc_encode_template, luna_pqc_fill_template,
}
use luna_openssl_provider.Provider.Key.State.{
  ckr_object_decoding_failed, Work, ckr_arguments_bad, KeyCalls, set_token,
}
use luna_openssl_provider.Provider.Key.Find.{
  luna_find, find_pair, find_labels, luna_pqc_find, blank_template,
}
use luna_openssl_provider.Provider.Key.Export.{export_value, export_point, luna_export_public}
use luna_openssl_provider.Provider.Key.Gen.{generate, luna_pqc_gen, or_else}

-- The fields that such a part does not touch.
pub record Kept {T : Type 0} (w w' : Work T) : Type 0 where
  pub magic_eq : w'.key.magic ≡ w.key.magic
  pub globals_eq : w'.globals ≡ record w.globals { token = w'.globals.token }
  pub flag_eq : w'.sess.flag_init ≡ w.sess.flag_init
  pub slot_eq : w'.sess.per_slot_id ≡ w.sess.per_slot_id
  pub session_eq : w'.sess.h_session ≡ w.sess.h_session

abbrev pub hardware : {T : Type 0} → Bool → Work T → Work T
hardware b w = record w { key = record w.key { is_hardware = b } }

module _ (c : Cryptoki) (calls : KeyCalls c) where
  luna_find-Kept : (a : List Attribute) (w : Work c.Token) → Kept w (luna_find c calls a w).2
  unfolding luna_find luna_context_set_last_error
  luna_find-Kept a w = ground arith

  find_pair-Kept : (p q : Template) (w : Work c.Token) → Kept w (find_pair c calls p q w).3
  unfolding find_pair
  find_pair-Kept p q w =
      let w1 = (luna_find c calls (q.label ∷ []) w).2 in
      ground (arith, luna_find-Kept (q.label ∷ []) w, luna_find-Kept (p.label ∷ []) w1)

  pub find_labels-Kept :
      (tab : List Alg) (p q : Template) (w : Work c.Token)
      → Kept w (find_labels c calls tab p q w).1
  unfolding find_labels
  find_labels-Kept tab p q w =
      let alg1 = (luna_lookup_alg_name tab w.key.alg).2 in
      ground (arith, find_pair-Kept p q (record w { key = record w.key { alg = alg1 } }))

  pub luna_pqc_find-Kept :
      (tab : List Alg) (w : Work c.Token) → Kept w (luna_pqc_find c calls tab w).1
  unfolding luna_pqc_find
  luna_pqc_find-Kept tab w =
      by_decoded (luna_pqc_decode_template blank_template blank_template w.key.privkey)
    where
      by_decoded :
          (d : Decoded)
          → Kept w
              (elim d as (λ x. ℕ × Work c.Token) [
                | arguments_bad ↦ (ckr_arguments_bad, hardware true w)
                | decoding_failed ↦ (ckr_object_decoding_failed, hardware false w)
                | decoded p q ↦ find_labels c calls tab p q (hardware true w)
              ]).1
      by_decoded (decoded p q) = ground (arith, find_labels-Kept tab p q (hardware true w))
      by_decoded arguments_bad = ground arith
      by_decoded decoding_failed = ground arith

  export_value-Kept : (a n : ℕ) (w : Work c.Token) → Kept w (export_value c calls a n w).1
  unfolding export_value luna_context_set_last_error
  export_value-Kept a n w = ground arith

  export_point-Kept : (a n : ℕ) (w : Work c.Token) → Kept w (export_point c calls a n w).1
  unfolding export_point luna_context_set_last_error
  export_point-Kept a n w =
      let t =
        (calls.c_get_attribute_value w.sess.h_session w.key.h_public a (some n)
          w.globals.token).3 in
      ground (arith, export_value-Kept a n w, export_value-Kept a n (set_token t w))

  pub luna_export_public-Kept :
      (a : ℕ) (w : Work c.Token) → Kept w (luna_export_public c calls a w).1
  unfolding luna_export_public luna_context_set_last_error
  luna_export_public-Kept a w =
      let r = calls.c_get_attribute_value w.sess.h_session w.key.h_public a none w.globals.token in
      let w1 = set_token r.3 w in
      ground (arith, export_value-Kept a r.1 w1, export_point-Kept a r.1 w1)

  module _ (cfg : Config) (tab : List Alg) (rand_label rand_pad : ℕ → Option Bytes) where
    generate-Kept :
        (a : Alg) (p q : Template) (is_kem is_ecx : Bool) (w : Work c.Token) {r : ℕ × Work c.Token}
        → generate cfg c calls tab rand_label rand_pad a p q is_kem is_ecx w ≡ some r
        → Kept w r.1
    unfolding generate luna_context_set_last_error
    generate-Kept a p q is_kem is_ecx w e =
        let blob = luna_pqc_encode_template rand_pad p q (or_else w.key.privkey []) in
        elim (Option-cases blob) [
          | inl h ↦ ground (arith, e, h)
          | inr (b, h) ↦ ground (arith, e, h)
        ]

    pub luna_pqc_gen-Kept :
        (is_kem is_ecx : Bool) (w : Work c.Token) {r : ℕ × Work c.Token}
        → luna_pqc_gen cfg c calls tab rand_label rand_pad is_kem is_ecx w ≡ some r
        → Kept w r.1
    unfolding luna_pqc_gen
    luna_pqc_gen-Kept is_kem is_ecx w {r = r} e =
        let look = luna_lookup_alg_name tab (record w.key.alg { is_kem = is_kem }) in
        let w1 : Work c.Token = record w { key = record w.key { alg = look.2 } } in
        let filled =
          luna_pqc_fill_template rand_label blank_template blank_template
            (length (or_else w.key.privkey [])) in
        elim (Option-cases look.1) [
          | inl none_found ↦ ground (arith, e, none_found)
          | inr (a, found) ↦ elim (Option-cases filled) [
            | inl not_filled ↦ ground (arith, e, found, not_filled)
            | inr ((p, q), fill) ↦
                let made : generate cfg c calls tab rand_label rand_pad a p q is_kem is_ecx w1
                    ≡ some r =
                  ground (arith, e, found, fill) in
                ground (arith, generate-Kept a p q is_kem is_ecx w1 made)
          ]
        ]

-- ===== src/Provider/Key/Gen.antt =====
-- LunaPqcGen of lunaProvider/lunaPqcSig.c. `none` is an assertion that fails. luna_RAND_bytes is called
-- for the labels and again for the padding.
use luna_openssl_provider.Prelude.{
  ℕ, Bool, true, false, not, ◌||◌, Option, none, some, List, [], ◌∷◌, ◌++◌, Bytes, codes, length,
  strcmp_eq, is_zero, ◌==◌, if◌then◌else◌,
}
use luna_openssl_provider.Cryptoki.{Cryptoki, ckr_ok, ckr_general_error}
use luna_openssl_provider.Engine.Config.{Config, luna_get_pqc_shim, luna_get_token_object}
use luna_openssl_provider.Provider.Algorithms.{Alg, luna_lookup_alg_name}
use luna_openssl_provider.Provider.Blob.{
  Attribute, Template, luna_pqc_fill_template, luna_pqc_encode_template,
}
use luna_openssl_provider.Provider.Key.State.{
  cka_key_params, Work, KeyCalls, set_last_error, set_token, ckp_invalid, le_bytes,
}
use luna_openssl_provider.Provider.Key.Find.{blank_template}
use luna_openssl_provider.Provider.Key.Firmware.{no_codes, luna_translate_fm2fw}

abbrev yes_ : Bytes
yes_ = 1 ∷ []

abbrev bool_byte : Bool → Bytes
bool_byte b = (if b then 1 else 0) ∷ []

abbrev attr : ℕ → Bytes → Attribute
attr t v = record { attr_type = t; value = v }

-- CKA_ECDSA_PARAMS of the four curves, by the name of the algorithm.
abbrev curve_params : Bytes → List Attribute
curve_params name =
    if strcmp_eq name (codes "ed25519")
    then attr 0x180
        (0x06 ∷ 0x09 ∷ 0x2b ∷ 0x06 ∷ 0x01 ∷ 0x04 ∷ 0x01 ∷ 0xda ∷ 0x47 ∷ 0x0f ∷ 0x01 ∷ [])
      ∷ []
    else if strcmp_eq name (codes "ed448")
    then attr 0x180 (0x06 ∷ 0x03 ∷ 0x2b ∷ 0x65 ∷ 0x71 ∷ []) ∷ []
    else if strcmp_eq name (codes "x25519")
    then attr 0x180
        (0x06 ∷ 0x0a ∷ 0x2b ∷ 0x06 ∷ 0x01 ∷ 0x04 ∷ 0x01 ∷ 0x97 ∷ 0x55 ∷ 0x01 ∷ 0x05 ∷ 0x01 ∷ [])
      ∷ []
    else if strcmp_eq name (codes "x448")
    then attr 0x180 (0x06 ∷ 0x03 ∷ 0x2b ∷ 0x65 ∷ 0x6f ∷ []) ∷ []
    else []

abbrev pub or_else {ℓ} : {A : Type ℓ} → Option A → A → A
or_else none d = d
or_else (some v) d = v

-- The mechanism and the two templates behind their CKA_LABEL and CKA_ID.
pub record GenCall : Type 0 where
  pub mech_gen : ℕ
  pub public_rest : List Attribute
  pub private_rest : List Attribute

module _ (cfg : Config) where
  unfoldable pub gen_call : Alg → Bytes → Bool → Bool → Bool → GenCall
  gen_call a name is_kem is_ecx token_object =
      let shim = not (is_zero (luna_get_pqc_shim cfg)) in
      let public_fixed =
        attr 0x1 (bool_byte token_object)
        ∷ attr 0x10a (bool_byte (not is_kem))
        ∷ attr 0x2 yes_
        ∷ attr 0x170 yes_
        ∷ [] in
      let private_fixed =
        attr 0x1 (bool_byte token_object)
        ∷ attr 0x108 (bool_byte (not is_kem))
        ∷ attr 0x2 yes_
        ∷ attr 0x170 yes_
        ∷ attr 0x162 yes_
        ∷ [] in
      let public_kem =
        if is_kem then attr (if shim || is_ecx then 0x10c else 0x633) yes_ ∷ [] else [] in
      let private_kem =
        if is_kem then attr (if shim || is_ecx then 0x10c else 0x634) yes_ ∷ [] else [] in
      let fw =
        luna_translate_fm2fw
          (record no_codes { params = some a.ckp_params; type_generate = some a.type_generate }) in
      let fw_params = le_bytes 8 (or_else fw.params a.ckp_params) in
      if a.ckp_params == ckp_invalid
      then record {
        mech_gen = a.type_generate;
        public_rest = public_fixed ++ (public_kem ++ curve_params name);
        private_rest = private_fixed ++ private_kem;
      }
      else if shim
      then record {
        mech_gen = a.type_generate;
        public_rest = public_fixed ++ public_kem;
        private_rest =
            private_fixed ++ (private_kem ++ attr cka_key_params (le_bytes 8 a.ckp_params) ∷ []);
      }
      else record {
        mech_gen = or_else fw.type_generate a.type_generate;
        public_rest = public_fixed ++ (public_kem ++ attr 0x61d fw_params ∷ []);
        private_rest = private_fixed ++ (private_kem ++ attr 0x61d fw_params ∷ []);
      }

  module _ (c : Cryptoki) (calls : KeyCalls c) (tab : List Alg)
      (rand_label rand_pad : ℕ → Option Bytes) where
    -- C_GenerateKeyPair, and the blob of the new key pair.
    unfoldable pub generate :
        Alg → Template → Template → Bool → Bool → Work c.Token → Option (ℕ × Work c.Token)
    generate a pub_t priv_t is_kem is_ecx w =
        let token_object = if is_kem then false else not (is_zero (luna_get_token_object cfg)) in
        let call = gen_call a w.key.alg.alg_name is_kem is_ecx token_object in
        let (rv, h_public, h_private, t) =
          calls.c_generate_key_pair w.sess.h_session call.mech_gen
            (pub_t.label ∷ pub_t.ident ∷ call.public_rest)
            (priv_t.label ∷ priv_t.ident ∷ call.private_rest) w.globals.token in
        let w1 = set_token t w in
        let privkey = or_else w.key.privkey [] in
        if not (rv == ckr_ok)
        then some (rv, set_last_error rv (record w1 { key = record w.key { count_c_init = 0 } }))
        else elim (luna_pqc_encode_template rand_pad pub_t priv_t privkey) [
          | none ↦ none
          | some blob ↦ some (
            rv,
            set_last_error rv (record w1 {
              key = record w.key {
                is_hardware = true;
                h_public = h_public;
                h_private = h_private;
                b_token_object = token_object;
                count_c_init = w.globals.init_count;
                privkey = some blob;
              };
            }),
          )
        ]

    unfoldable pub luna_pqc_gen : Bool → Bool → Work c.Token → Option (ℕ × Work c.Token)
    luna_pqc_gen is_kem is_ecx w0 =
        let (rvlookup, found, alg1) =
          luna_lookup_alg_name tab (record w0.key.alg { is_kem = is_kem }) in
        let w = record w0 { key = record w0.key { alg = alg1 } } in
        let privkeylen = length (or_else w.key.privkey []) in
        elim found [
          | none ↦ some (rvlookup, w)
          | some a ↦
              elim (luna_pqc_fill_template rand_label blank_template blank_template privkeylen) [
                | none ↦ some (ckr_general_error, w)
                | some (pub_t, priv_t) ↦ generate a pub_t priv_t is_kem is_ecx w
              ]
        ]

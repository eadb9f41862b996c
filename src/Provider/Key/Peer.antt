-- ===== src/Provider/Key/Peer.antt =====
-- The public key that LunaPqcKemEncap of lunaProvider/lunaPqcKem.c uses: one in the HSM, or the bytes of
-- a peer's key.
use luna_openssl_provider.Prelude.{
  ℕ, Bool, true, false, not, ◌||◌, Option, none, some, [], ◌∷◌, Bytes, is_zero, ◌==◌, if◌then◌else◌,
}
use luna_openssl_provider.Cryptoki.{Cryptoki, ckr_ok}
use luna_openssl_provider.Engine.Config.{Config, luna_get_pqc_shim}
use luna_openssl_provider.Provider.Algorithms.{Alg}
use luna_openssl_provider.Provider.KeyLock.{
  Reason, reason_zero, gen, set_params, from_data, from_encoding, create,
}
use luna_openssl_provider.Provider.Key.State.{Work, set_token, le_bytes, ckr_key_changed}
use luna_openssl_provider.Provider.Key.Firmware.{FmCodes, no_codes, luna_translate_fm2fw}
use luna_openssl_provider.Provider.Key.Gen.{or_else}
use luna_openssl_provider.Provider.Key.Wrap.{SecretCalls}
use luna_openssl_provider.Provider.Key.Decap.{attr}

-- CK_KEM_ENCAP_PARAMS: the public key, if its bytes are given, and the parameter set.
pub record EncapParams : Type 0 where
  pub public_key : Option Bytes
  pub params : ℕ

abbrev pub luna_prov_key_reason_pubkey : Reason → Bool
luna_prov_key_reason_pubkey reason_zero = false
luna_prov_key_reason_pubkey gen = false
luna_prov_key_reason_pubkey set_params = true
luna_prov_key_reason_pubkey from_data = true
luna_prov_key_reason_pubkey from_encoding = true
luna_prov_key_reason_pubkey create = false

module _ (cfg : Config) (c : Cryptoki) (secrets : SecretCalls c) where
  abbrev pub fw_codes : Alg → FmCodes
  fw_codes a = luna_translate_fm2fw (record no_codes {
    keytype = some a.keytype;
    params = some a.ckp_params;
    type_encap = some a.type_encap;
  })

  -- A public key that was generated or created in the HSM.
  abbrev pub own_object : Work c.Token → ℕ × ℕ × EncapParams × Work c.Token
  own_object w = (
    if w.key.h_public == 0 then ckr_key_changed else ckr_ok,
    w.key.h_public,
    record { public_key = none; params = 0 },
    w,
  )

  -- "create the public key once"
  unfoldable pub create_public : Alg → Work c.Token → ℕ × ℕ × EncapParams × Work c.Token
  create_public a w =
      let fw = fw_codes a in
      let template =
        attr 0x1 (0 ∷ [])
        ∷ attr 0x0 (le_bytes 8 2)
        ∷ attr 0x100 (le_bytes 8 (or_else fw.keytype a.keytype))
        ∷ attr 0x633 (1 ∷ [])
        ∷ attr 0x11 w.key.pubkey
        ∷ attr 0x61d (le_bytes 8 (or_else fw.params a.ckp_params))
        ∷ [] in
      let (rv, h, t) = secrets.c_create_object w.sess.h_session template w.globals.token in
      let none_given : EncapParams = record { public_key = none; params = 0 } in
      let w1 = set_token t w in
      if not (rv == ckr_ok) || h == 0 then (ckr_key_changed, 0, none_given, w1) else (
        ckr_ok,
        h,
        none_given,
        record w1 { key = record w.key { h_public = h; reason = create } },
      )

  -- The public key to use, or the code of an early return.
  unfoldable pub public_object : Alg → Work c.Token → ℕ × ℕ × EncapParams × Work c.Token
  public_object a w =
      let from_buffer =
        if is_zero (luna_get_pqc_shim cfg)
        then create_public a w
        else (ckr_ok, 0, record { public_key = some w.key.pubkey; params = a.ckp_params }, w) in
      elim w.key.reason [
        | create ↦ own_object w
        | set_params ↦ from_buffer
        | from_data ↦ from_buffer
        | from_encoding ↦ from_buffer
        | gen ↦ own_object w
        | reason_zero ↦ (ckr_key_changed, 0, record { public_key = none; params = 0 }, w)
      ]

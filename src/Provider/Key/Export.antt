-- ===== src/Provider/Key/Export.antt =====
-- LunaExportPublic of lunaProvider/lunaPqcKem.c: the public key bytes are read from the HSM into the
-- buffer of the key, on the right if they are fewer.
use luna_openssl_provider.Prelude.{
  ℕ, ◌+◌, ◌-◌, not, ◌&&◌, none, some, ◌++◌, Bytes, length, take, drop, replicate, get_or, ltb, ◌==◌,
  if◌then◌else◌,
}
use luna_openssl_provider.Cryptoki.{Cryptoki, ckr_ok, ckr_general_error}
use luna_openssl_provider.Provider.Key.State.{
  Work, KeyCalls, p11_check_count, set_last_error, set_token, ckr_key_changed,
}

abbrev pub cka_value : ℕ
cka_value = 0x11

abbrev pub cka_ec_point : ℕ
cka_ec_point = 0x181

module _ (c : Cryptoki) (calls : KeyCalls c) where
  abbrev pub set_pubkey : Bytes → Work c.Token → Work c.Token
  set_pubkey pubkey w = record w { key = record w.key { pubkey = pubkey } }

  -- The value of `len` bytes, behind zeros if it is shorter than the buffer.
  unfoldable pub export_value : ℕ → ℕ → Work c.Token → ℕ × Work c.Token
  export_value attr_type len w =
      let pubkeylen = length w.key.pubkey in
      let padlen = pubkeylen - len in
      let (rv, _, value, t) =
        calls.c_get_attribute_value w.sess.h_session w.key.h_public attr_type (some pubkeylen)
          w.globals.token in
      let w1 = set_last_error rv (set_token t w) in
      if ltb pubkeylen len
      then (ckr_general_error, set_last_error ckr_general_error w)
      else if rv == ckr_ok
      then (rv, set_pubkey (replicate padlen 0 ++ value) w1)
      else (rv, set_pubkey (replicate padlen 0 ++ drop padlen w.key.pubkey) w1)

  -- A point that is encoded as an octet string, of 64 bytes at most, is stripped of its header.
  unfoldable pub export_point : ℕ → ℕ → Work c.Token → ℕ × Work c.Token
  export_point attr_type len w =
      let pubkeylen = length w.key.pubkey in
      let (rv, _, point, t) =
        calls.c_get_attribute_value w.sess.h_session w.key.h_public attr_type (some len)
          w.globals.token in
      if ltb 64 len
      then export_value attr_type len w
      else if not (rv == ckr_ok)
      then export_value attr_type len (set_token t w)
      else if get_or point 0 0 == 0x04 && get_or point 1 0 == pubkeylen
      then (
        ckr_ok,
        set_last_error ckr_ok (set_pubkey (take pubkeylen (drop 2 point)) (set_token t w)),
      )
      else export_value attr_type len (set_token t w)

  unfoldable pub luna_export_public : ℕ → Work c.Token → ℕ × Work c.Token
  luna_export_public attr_type w =
      let (rv, len, _, t) =
        calls.c_get_attribute_value w.sess.h_session w.key.h_public attr_type none
          w.globals.token in
      let w1 = set_token t w in
      if p11_check_count w.key.count_c_init w.globals
      then (ckr_key_changed, set_last_error ckr_key_changed w)
      else if not (rv == ckr_ok)
      then (rv, set_last_error rv w1)
      else if attr_type == cka_ec_point && len == length w.key.pubkey + 2
      then export_point attr_type len w1
      else export_value attr_type len w1

  abbrev pub luna_pqc_export_public : Work c.Token → ℕ × Work c.Token
  luna_pqc_export_public = luna_export_public cka_value

  abbrev pub luna_ecx_export_public : Work c.Token → ℕ × Work c.Token
  luna_ecx_export_public = luna_export_public cka_ec_point

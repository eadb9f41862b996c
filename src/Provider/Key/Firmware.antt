-- ===== src/Provider/Key/Firmware.antt =====
-- LunaTranslateFM2FW of lunaProvider/lunaCommon.c: the codes of the main firmware in place of those of
-- the PQC functionality module.
use luna_openssl_provider.Prelude.{
  ℕ, Bool, false, not, ◌&&◌, ◌||◌, Option, none, some, ◌==◌, if◌then◌else◌,
}
use luna_openssl_provider.Provider.Key.State.{
  ckk_ml_dsa, ckk_ml_kem, ckm_ml_kem_key_pair_gen, ckm_ml_kem_key_encap, ckm_ml_kem_key_decap,
  ckm_ml_dsa_key_pair_gen, ckm_ml_dsa, ckp_ml_kem_512, ckp_ml_kem_768, ckp_ml_kem_1024,
  ckp_ml_kem_512_ipd, ckp_ml_kem_768_ipd, ckp_ml_kem_1024_ipd, ckp_ml_dsa_44, ckp_ml_dsa_65,
  ckp_ml_dsa_87, ckp_ml_dsa_44_ipd, ckp_ml_dsa_65_ipd, ckp_ml_dsa_87_ipd,
}

-- The values that LunaTranslateFM2FW may change; `none` for a NULL argument.
pub record FmCodes : Type 0 where
  pub keytype : Option ℕ
  pub params : Option ℕ
  pub type_generate : Option ℕ
  pub type_sign : Option ℕ
  pub type_encap : Option ℕ
  pub type_decap : Option ℕ

abbrev pub no_codes : FmCodes
no_codes = record {
  keytype = none;
  params = none;
  type_generate = none;
  type_sign = none;
  type_encap = none;
  type_decap = none;
}

abbrev is_code : ℕ → Option ℕ → Bool
is_code m none = false
is_code m (some n) = n == m

-- A code and its replacement.
abbrev replace : ℕ → ℕ → Option ℕ → Option ℕ
replace m n none = none
replace m n (some k) = if k == m then some n else some k

-- The three parameter sets, 1 to 3, and 0 for any other.
abbrev set_number : ℕ → ℕ → ℕ → ℕ → ℕ → ℕ → ℕ → ℕ
set_number a a' b b' d d' p =
    if p == a || p == a'
    then 1
    else if p == b || p == b'
    then 2
    else if p == d || p == d'
    then 3
    else 0

unfoldable pub luna_translate_fm2fw : FmCodes → FmCodes
luna_translate_fm2fw x =
    let is_ml_kem =
      is_code ckm_ml_kem_key_pair_gen x.type_generate
      || is_code ckm_ml_kem_key_encap x.type_encap
      || is_code ckm_ml_kem_key_decap x.type_decap in
    let is_ml_dsa =
      (not (is_code ckm_ml_kem_key_pair_gen x.type_generate)
        && is_code ckm_ml_dsa_key_pair_gen x.type_generate)
      || is_code ckm_ml_dsa x.type_sign in
    let kem_set = λ (p : ℕ).
      if is_ml_kem
      then set_number ckp_ml_kem_512 ckp_ml_kem_512_ipd ckp_ml_kem_768 ckp_ml_kem_768_ipd
          ckp_ml_kem_1024 ckp_ml_kem_1024_ipd p
      else p in
    let dsa_set = λ (p : ℕ).
      if is_ml_dsa
      then set_number ckp_ml_dsa_44 ckp_ml_dsa_44_ipd ckp_ml_dsa_65 ckp_ml_dsa_65_ipd ckp_ml_dsa_87
          ckp_ml_dsa_87_ipd p
      else p in
    record {
      keytype = elim x.keytype [
        | none ↦ none
        | some t ↦
            if t == ckk_ml_kem then some 0x49 else if t == ckk_ml_dsa then some 0x4a else some t
      ];
      params = elim x.params [ none ↦ none | some p ↦ some (dsa_set (kem_set p)) ];
      type_generate = elim x.type_generate [
        | none ↦ none
        | some m ↦
            if m == ckm_ml_kem_key_pair_gen
            then some 0xf
            else if m == ckm_ml_dsa_key_pair_gen
            then some 0x1c
            else some m
      ];
      type_sign = replace ckm_ml_dsa 0x1d x.type_sign;
      type_encap = replace ckm_ml_kem_key_encap 0x17 x.type_encap;
      type_decap = replace ckm_ml_kem_key_decap 0x17 x.type_decap;
    }

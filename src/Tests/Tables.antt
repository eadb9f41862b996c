-- ===== src/Tests/Tables.antt =====
-- Examples on algorithms, names and encodings (Provider).
use luna_openssl_provider.Prelude.{
  split_at-none, inl, inr, Occurs, ◌⊎◌, ℕ, ◌≡◌, refl, true, false, some, List, [], ◌∷◌, Bytes,
  codes, arith, strcmp_eq, split_at, starts_with,
}
use luna_openssl_provider.Cryptoki.{ckr_ok}
use luna_openssl_provider.Provider.Algorithms.{
  ckr_mechanism_invalid, Alg, KeyCtx, no_subtype, luna_oqs_refresh_alg_name, included,
  luna_init_algorithm_table, luna_lookup_alg_name, luna_lookup_alg_name_range, lookup_rows,
}
use luna_openssl_provider.Provider.Algorithms.Lookup.{
  FirstIncluded, luna_lookup_alg_name_range-FirstIncluded,
}
use luna_openssl_provider.Provider.Algorithms.Lists.{LetThrough}
use luna_openssl_provider.Provider.Algorithms.Listed.{luna_lookup_alg_name-LetThrough}
use luna_openssl_provider.Provider.Algorithms.Kept.{
  luna_lookup_alg_name-luna_oqs_refresh_alg_name, luna_lookup_alg_name-luna_init_algorithm_table,
}
use luna_openssl_provider.Provider.Base64.{
  luna_sprintf_base64url, decode, IsBytes, decode-luna_sprintf_base64url,
}
use luna_openssl_provider.Provider.Keyshare.{OqsxKey}
use luna_openssl_provider.Provider.Names.{Agree, luna_short_name-luna_tls_name}

abbrev row : Bytes → ℕ → Alg
row name key = record {
  flag_include = true;
  alg_name = name;
  keytype = key;
  ckp_params = 0;
  type_generate = 0;
  type_sign = 0;
  type_encap = 0;
  type_decap = 0;
}

abbrev tab : List Alg
tab = row (codes "INVALID") 0 ∷ row (codes "x25519") 1 ∷ row (codes "mldsa65") 2 ∷ []

abbrev key : KeyCtx
key = record {
  alg_name = codes "mldsa65";
  index_alg = 0;
  is_kem = false;
  subtype = no_subtype;
  sublen = 0;
}

found : (luna_lookup_alg_name tab key).0 ≡ ckr_ok
unfolding luna_lookup_alg_name luna_lookup_alg_name_range lookup_rows strcmp_eq
found = refl

found_range :
    luna_lookup_alg_name_range tab (codes "mldsa65") 1 2
    ≡ (ckr_ok, some (2, row (codes "mldsa65") 2))
unfolding luna_lookup_alg_name_range lookup_rows strcmp_eq
found_range = refl

luna_lookup_alg_name_range-FirstIncluded_example :
    FirstIncluded tab (codes "mldsa65") 1 2 2 (row (codes "mldsa65") 2)
luna_lookup_alg_name_range-FirstIncluded_example =
    luna_lookup_alg_name_range-FirstIncluded tab (codes "mldsa65") 1 2 found_range

luna_lookup_alg_name-luna_oqs_refresh_alg_name_example :
    (luna_lookup_alg_name tab
      (luna_oqs_refresh_alg_name (luna_lookup_alg_name tab key).2 (codes "x25519"))).0
    ≡ ckr_mechanism_invalid
unfolding strcmp_eq
luna_lookup_alg_name-luna_oqs_refresh_alg_name_example =
    luna_lookup_alg_name-luna_oqs_refresh_alg_name tab key (codes "x25519") found refl

found_listed :
    (luna_lookup_alg_name (luna_init_algorithm_table (codes "ALL") (codes "x25519") tab) key).0
    ≡ ckr_ok
unfolding luna_lookup_alg_name luna_lookup_alg_name_range lookup_rows strcmp_eq
    luna_init_algorithm_table included split_at starts_with
found_listed = refl

luna_lookup_alg_name-luna_init_algorithm_table_example :
    ((codes "ALL" ≡ codes "ALL") ⊎ Occurs (codes "mldsa65") (codes "ALL"))
    × ((codes "x25519" ≡ codes "NONE") ⊎ ¬ (Occurs (codes "mldsa65") (codes "x25519")))
luna_lookup_alg_name-luna_init_algorithm_table_example =
    luna_lookup_alg_name-luna_init_algorithm_table (codes "ALL") (codes "x25519") tab key
      found_listed

mldsa65-LetThrough : LetThrough (codes "ALL") (codes "x25519") (codes "mldsa65")
unfolding split_at starts_with
mldsa65-LetThrough = (inl refl, inr (split_at-none (codes "mldsa65") (codes "x25519") refl))

luna_lookup_alg_name-LetThrough_example :
    (luna_lookup_alg_name (luna_init_algorithm_table (codes "ALL") (codes "x25519") tab) key).0
    ≡ ckr_ok
luna_lookup_alg_name-LetThrough_example =
    luna_lookup_alg_name-LetThrough (codes "ALL") (codes "x25519") tab key 2 refl (omega arith) refl
      refl mldsa65-LetThrough

-- The lists are texts, not lists of names: another name's text is enough.
mlkem512-LetThrough : LetThrough (codes "p256_mlkem512") (codes "NONE") (codes "mlkem512")
mlkem512-LetThrough = (inr (codes "p256_", [], refl), inl refl)

input-IsBytes : IsBytes (1 ∷ 0 ∷ 255 ∷ [])
unfolding IsBytes
input-IsBytes = (omega arith, (omega arith, (omega arith, tt)))

decode-luna_sprintf_base64url_example :
    decode (luna_sprintf_base64url (1 ∷ 0 ∷ 255 ∷ [])) ≡ 1 ∷ 0 ∷ 255 ∷ []
decode-luna_sprintf_base64url_example =
    decode-luna_sprintf_base64url (1 ∷ 0 ∷ 255 ∷ []) input-IsBytes

abbrev hybrid : OqsxKey
hybrid = record { is_ecx_hyb_kem = true; sublen = 2 }

luna_short_name-luna_tls_name_example : Agree (codes "ML-DSA-65")
luna_short_name-luna_tls_name_example = luna_short_name-luna_tls_name (codes "ML-DSA-65")

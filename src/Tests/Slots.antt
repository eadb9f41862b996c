-- ===== src/Tests/Slots.antt =====
-- Examples on slot strings (Engine/Slotid).
use luna_openssl_provider.Prelude.{
  ◌≤◌, ◌≡◌, ◌≢◌, refl, true, false, none, ◌++◌, some, [], ◌∷◌, codes, pos, arith, strcmp_eq,
  starts_with,
}
use luna_openssl_provider.Engine.Slotid.{
  luna_parse_slotid2, desc_ids, luna_label_to_slotid, luna_parse_session_desc, find_label,
  norm_label, before_zero,
}
use luna_openssl_provider.Engine.Slotid.Decimal.{Without}
use luna_openssl_provider.Engine.Slotid.Parsing.{
  desc_string, quoted_string, luna_parse_session_desc-desc_string, luna_parse_slotid2-quoted_string,
}
use luna_openssl_provider.Engine.Slotid.Labels.{
  FirstWith, AllReadable, luna_label_to_slotid-FirstWith,
}
use luna_openssl_provider.Engine.Slotid.Secret.{Sources, luna_parse_password}
use luna_openssl_provider.Engine.Slotid.Secrets.{luna_parse_password-desc_string}
use luna_openssl_provider.Tests.Sample.{sample}

secret_nonempty : codes "secret" ≢ []
secret_nonempty e = ground (arith, e)

secret_not_null : codes "secret" ≢ codes "NULL"
secret_not_null e = ground (arith, e)

-- "3:12:34:secret", "3:12:34:" and "3:12:34:NULL"
luna_parse_session_desc-desc_string_example :
    (luna_parse_session_desc sample (desc_string 3 12 34 (codes "secret")) 0
      ≡ some (record {
        slot = 3;
        app_id_hi = pos 12;
        app_id_low = pos 34;
        password = some (codes "secret");
      }))
    × (luna_parse_session_desc sample (desc_string 3 12 34 []) 0
        ≡ some (record { slot = 3; app_id_hi = pos 12; app_id_low = pos 34; password = none }))
    × (luna_parse_session_desc sample (desc_string 3 12 34 (codes "NULL")) 0
        ≡ some (record { slot = 3; app_id_hi = pos 12; app_id_low = pos 34; password = none }))
luna_parse_session_desc-desc_string_example =
    luna_parse_session_desc-desc_string sample 3 12 34 (codes "secret") 0 (omega arith)
      (omega arith) (omega arith) secret_nonempty secret_not_null

hsm_no_at : Without b'@' (codes "hsm")
unfolding Without
hsm_no_at = ((λ e. omega (arith, e)), ((λ e. omega (arith, e)), ((λ e. omega (arith, e)), tt)))

-- "@hsm@:1:2"
luna_parse_slotid2-quoted_string_example :
    (luna_parse_slotid2 (quoted_string b'@' (codes "hsm") (codes "1:2")) ≡ some (codes "hsm", true))
    × (luna_parse_session_desc sample (quoted_string b'@' (codes "hsm") (codes "1:2")) 0
        ≡ (elim (luna_label_to_slotid sample (codes "hsm") 0) [
          | none ↦ none
          | some slot ↦ desc_ids sample slot (codes "1:2")
        ]))
luna_parse_slotid2-quoted_string_example =
    luna_parse_slotid2-quoted_string sample 1 (codes "hsm") (codes "1:2") 0 refl hsm_no_at

found_hsm : luna_label_to_slotid sample (codes "hsm") 0 ≡ some 8
unfolding luna_label_to_slotid find_label norm_label before_zero strcmp_eq
found_hsm = refl

luna_label_to_slotid-FirstWith_example :
    FirstWith sample (codes "hsm") (3 ∷ 8 ∷ []) 0 8 × (1 ≤ 3) × (3 ≤ 32)
luna_label_to_slotid-FirstWith_example =
    luna_label_to_slotid-FirstWith sample (codes "hsm") 0 found_hsm

not_found : luna_label_to_slotid sample (codes "gem") 0 ≡ none
unfolding luna_label_to_slotid find_label norm_label before_zero strcmp_eq
not_found = refl

readable_slots : AllReadable sample (3 ∷ 8 ∷ []) 0
unfolding AllReadable
readable_slots = (refl, (refl, tt))

-- No file, no variable, no console and no library.
abbrev no_sources : Sources
no_sources = record {
  passfile = λ _. none;
  getenv = λ _. none;
  passphrase = λ _. none;
  passdll = λ _ _. none;
}

luna_parse_password-desc_string_example :
    (luna_parse_password no_sources (desc_string 3 1 2 (codes "password=" ++ codes "secret"))
      ≡ some (some (codes "secret")))
    × (luna_parse_password no_sources (desc_string 3 1 2 (codes "password=" ++ [])) ≡ some none)
    × (luna_parse_password no_sources (desc_string 3 1 2 (codes "password=" ++ codes "NULL"))
        ≡ some none)
luna_parse_password-desc_string_example =
    luna_parse_password-desc_string no_sources 3 1 2 (codes "secret") secret_nonempty
      secret_not_null

plain_secret : starts_with (codes "pass") (codes "secret") ≡ false
unfolding starts_with
plain_secret = refl

-- ===== src/Tests/Logins.antt =====
-- Examples on stored PINs (Engine/Password).
use luna_openssl_provider.Prelude.{
  ◌≤◌, ◌≡◌, ◌≢◌, ◌↔◌, ◌⊎◌, none, [], ◌∷◌, Bytes, codes, length, arith,
}
use luna_openssl_provider.Cryptoki.{ckr_ok, ckr_general_error}
use luna_openssl_provider.Engine.Password.{luna_pw_malloc, luna_pw_login, pw_c_login}
use luna_openssl_provider.Engine.Password.RoundTrip.{IsText, luna_pw_login-luna_pw_malloc}
use luna_openssl_provider.Engine.Password.Limits.{luna_pw_malloc-length, luna_pw_login-stops}
use luna_openssl_provider.Tests.Sample.{sample, sample_digests, settings, digest, no_pin}

abbrev pin : Bytes
pin = codes "1234"

pin-IsText : IsText pin
unfolding IsText
pin-IsText = (
  (λ e. omega (arith, e)),
  ((λ e. omega (arith, e)), ((λ e. omega (arith, e)), ((λ e. omega (arith, e)), tt))),
)

digest_works : (m : Bytes) → digest m ≢ none
digest_works m e = ground (arith, e)

stored : (luna_pw_malloc sample no_pin pin (1 ∷ [])).bool_init ≡ 1
stored =
    (luna_pw_malloc-length sample (λ m. digest_works m) (λ m n. digest_works _) no_pin pin
        (1 ∷ [])).1
      (omega arith, omega arith)

luna_pw_malloc-length_example :
    ((luna_pw_malloc sample no_pin pin (1 ∷ [])).bool_init ≡ 1)
    ↔ ((4 ≤ length pin) × (length pin ≤ 255))
luna_pw_malloc-length_example =
    luna_pw_malloc-length sample (λ m. digest_works m) (λ m n. digest_works _) no_pin pin (1 ∷ [])

luna_pw_login-luna_pw_malloc_example :
    luna_pw_login sample settings (luna_pw_malloc sample no_pin pin (1 ∷ [])) 5 0
    ≡ pw_c_login sample settings (luna_pw_malloc sample no_pin pin (1 ∷ [])) 5 pin 0
luna_pw_login-luna_pw_malloc_example =
    luna_pw_login-luna_pw_malloc sample sample_digests settings no_pin pin (1 ∷ []) 5 0 pin-IsText
      stored

-- No PIN is stored, so a login fails.
no_pin_fails : (luna_pw_login sample settings no_pin 5 0).0 ≢ ckr_ok
unfolding luna_pw_login
no_pin_fails e = omega (arith, e)

luna_pw_login-stops_example :
    let failed = luna_pw_login sample settings no_pin 5 0 in
    ((failed.1 ≡ no_pin) × (failed.2 ≡ 0))
    ⊎ (luna_pw_login sample settings failed.1 6 1 ≡ (ckr_general_error, failed.1, 1))
luna_pw_login-stops_example = luna_pw_login-stops sample settings no_pin 5 6 0 1 no_pin_fails

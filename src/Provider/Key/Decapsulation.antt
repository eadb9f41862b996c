-- ===== src/Provider/Key/Decapsulation.antt =====
-- What LunaPqcKemDecap gives, and what it leaves in the HSM.
use luna_openssl_provider.Prelude.{ℕ, ◌≡◌, ◌≢◌, none, some, Bytes, ◌⊎◌}
use luna_openssl_provider.Cryptoki.{Cryptoki, ckr_ok}
use luna_openssl_provider.Engine.Config.{Config}
use luna_openssl_provider.Provider.Key.State.{Work}
use luna_openssl_provider.Provider.Key.Wrap.{SecretCalls}
use luna_openssl_provider.Provider.Key.Decap.{Decapped}
use luna_openssl_provider.Provider.Key.Unwrapping.{SecretRules, TokenFailed}

-- C_DestroyObject ends an object, if it answers CKR_OK.
pub record DestroyRules (c : Cryptoki) (secrets : SecretCalls c) (rules : SecretRules c secrets)
    : Type 1 where
  pub Gone : c.Token → ℕ → Type 0
  pub destroyed :
      (session h : ℕ) (t : c.Token)
      → rules.IsSession t session
      → let r = secrets.c_destroy_object session h t in (r.0 ≢ ckr_ok) ⊎ Gone r.1 h

module _ (cfg : Config) (c : Cryptoki) (secrets : SecretCalls c) (rules : SecretRules c secrets)
    (ends : DestroyRules c secrets rules) where
  -- The HSM has made a session key with the value `v`, and has kept the keys for wrapping.
  pub record GivesKey (w : Work c.Token) (d : ℕ × ℕ × c.Token) (v : Bytes) : Type 0 where
    pub ok : d.0 ≡ ckr_ok
    pub nonzero : d.1 ≢ 0
    pub value : rules.Value d.2 d.1 v
    pub open_ : rules.IsSession d.2 w.sess.h_session
    pub keeps : (k : ℕ) (p : secrets.Pkey) → rules.Wraps w.globals.token k p → rules.Wraps d.2 k p

  -- The last call of the token was C_DestroyObject for `h`, and `h` is gone if that answered CKR_OK.
  pub record Destroyed (h : ℕ) (after : c.Token) : Type 0 where
    pub session : ℕ
    pub before : c.Token
    pub called : after ≡ (secrets.c_destroy_object session h before).1
    pub gone : ((secrets.c_destroy_object session h before).0 ≢ ckr_ok) ⊎ ends.Gone after h

  -- What a decapsulation that works gives.
  pub record Decapsulated (v : Bytes) (h : ℕ) (r : Decapped cfg c secrets) : Type 0 where
    pub done : r.0 ≡ ckr_ok
    pub secret : r.1 ≡ some v
    pub destroyed : Destroyed h r.3.globals.token

  -- A decapsulation whose session key the token did not give out: the code of the call that has
  -- failed, and no secret.
  pub record Withheld (h session : ℕ) (t : c.Token) (r : Decapped cfg c secrets) : Type 0 where
    pub failed : r.0 ≢ ckr_ok
    pub nothing : r.1 ≡ none
    pub because : TokenFailed c secrets rules r.0 h session t

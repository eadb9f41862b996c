-- ===== src/Provider/Key/Unwrapping.antt =====
-- The secret that Provider/Key/Wrap gives is the value of the key in the HSM, whatever library has the
-- public key for wrapping.
use luna_openssl_provider.Prelude.{
  ℕ, ◌≡◌, ◌≢◌, ◌⊎◌, none, refl, true, false, Option, some, Bytes, length, arith, ◌==◌, Option-cases,
  Bool-cases, inl, inr, ◌||◌, not,
}
use luna_openssl_provider.Cryptoki.{Cryptoki, ckr_ok}
use luna_openssl_provider.Engine.Session.Context.{luna_context_set_last_error}
use luna_openssl_provider.Provider.Key.State.{Work, set_last_error, set_token}
use luna_openssl_provider.Provider.Key.Wrap.{
  SecretCalls, Wrapping, object, wrapper_template, import_wrapper, wrap_target, decrypt_secret,
  luna_unwrap_key_bytes_oaep, luna_unwrap_key_bytes_prep, luna_unwrap_key_bytes,
}

-- What PKCS#11 and RSA promise of the calls that answer CKR_OK; each of them may fail, C_CreateObject
-- for want of memory and C_WrapKey for a value that is too long for the modulus, say. `Value t h v`: the object `h` is a secret key with this value;
-- `Wraps t k p`: the object `k` is the public key of the pair `p`.
pub record SecretRules (c : Cryptoki) (secrets : SecretCalls c) : Type 1 where
  pub IsSession : c.Token → ℕ → Type 0
  pub Value : c.Token → ℕ → Bytes → Type 0
  pub Wraps : c.Token → ℕ → secrets.Pkey → Type 0
  pub sizes :
      (p : secrets.Pkey)
      → secrets.new_pkey ≡ some p
      → (length (secrets.exponent p) ≡ 3) × (length (secrets.modulus p) ≡ 128)
  pub created :
      (session : ℕ) (p : secrets.Pkey) (t : c.Token)
      → IsSession t session
      → let r = secrets.c_create_object session (wrapper_template c secrets p) t in
        (r.0 ≢ ckr_ok)
        ⊎ (Wraps r.2 r.1 p
            × IsSession r.2 session
            × ((h : ℕ) (v : Bytes) → Value t h v → Value r.2 h v))
  pub wrapped :
      (session k h : ℕ) (p : secrets.Pkey) (v : Bytes) (t : c.Token)
      → IsSession t session
      → Wraps t k p
      → Value t h v
      → let r = secrets.c_wrap_key session k h t in
        (r.0 ≢ ckr_ok) ⊎ ((secrets.decrypt p r.1 ≡ some v) × IsSession r.2 session × Wraps r.2 k p)

set_last_error-session :
    {T : Type 0} (rv : ℕ) (w : Work T) → (set_last_error rv w).sess.h_session ≡ w.sess.h_session
unfolding luna_context_set_last_error
set_last_error-session rv w = ground arith

module _ (c : Cryptoki) (secrets : SecretCalls c) (rules : SecretRules c secrets) where
  -- The key pair is the one that was made, and the handle is of its public key while the library
  -- that has given it runs.
  pub record Sound (x : Wrapping secrets.Pkey) (w : Work c.Token) : Type 0 where
    pub no_error : x.error ≡ false
    pub made : (p : secrets.Pkey) → x.pkey ≡ some p → secrets.new_pkey ≡ some p
    pub wraps :
        (p : secrets.Pkey)
        → x.pkey ≡ some p
        → x.handle ≢ 0
        → x.count_c_init ≡ w.globals.init_count
        → rules.Wraps w.globals.token x.handle p

  -- What an unwrapping leaves: the value, and a state in which the next one works.
  pub record Unwrapped (v : Bytes) (r : ℕ × Option Bytes × Wrapping secrets.Pkey × Work c.Token)
      : Type 0 where
    pub ok : r.0 ≡ ckr_ok
    pub secret : r.1 ≡ some v
    pub sound : Sound r.2 r.3
    pub open_kept : rules.IsSession r.3.globals.token r.3.sess.h_session

  -- What C_CreateObject answers for the public key of the pair.
  abbrev created_code : secrets.Pkey → ℕ → c.Token → ℕ
  created_code p session t = (secrets.c_create_object session (wrapper_template c secrets p) t).0

  -- The code is that of C_CreateObject for the public key, or of a C_WrapKey of the object.
  abbrev pub TokenFailed : ℕ → ℕ → ℕ → c.Token → Type 0
  TokenFailed rv h session t =
      ((p : secrets.Pkey) × (rv ≡ created_code p session t))
      ⊎ ((k : ℕ) × (t' : c.Token) × (rv ≡ (secrets.c_wrap_key session k h t').0))

  -- An unwrapping that a call of the token has failed: its code, and no bytes.
  pub record Refused (h : ℕ) (w : Work c.Token)
      (r : ℕ × Option Bytes × Wrapping secrets.Pkey × Work c.Token) : Type 0 where
    pub failed : r.0 ≢ ckr_ok
    pub nothing : r.1 ≡ none
    pub because : TokenFailed r.0 h w.sess.h_session w.globals.token

  module _ (x : Wrapping secrets.Pkey) (w : Work c.Token) (p : secrets.Pkey) (h : ℕ)
      (v : Bytes) where
    record Imported (r : ℕ × Wrapping secrets.Pkey × Work c.Token) : Type 0 where
      ok : r.0 ≡ ckr_ok
      open_kept : rules.IsSession r.2.globals.token r.2.sess.h_session
      value_kept : rules.Value r.2.globals.token h v
      wraps_now : rules.Wraps r.2.globals.token r.1.handle p
      count_now : r.1.count_c_init ≡ r.2.globals.init_count
      pkey_kept : r.1.pkey ≡ x.pkey
      error_kept : r.1.error ≡ x.error

    record NotImported (r : ℕ × Wrapping secrets.Pkey × Work c.Token) : Type 0 where
      failed : r.0 ≢ ckr_ok
      because : r.0 ≡ created_code p w.sess.h_session w.globals.token

    import_wrapper-Imported :
        rules.IsSession w.globals.token w.sess.h_session
        → rules.Value w.globals.token h v
        → Sound x w
        → x.pkey ≡ some p
        → let r = import_wrapper c secrets p x w in Imported r ⊎ NotImported r
    unfolding import_wrapper
    import_wrapper-Imported open_ valued sound has =
        elim (Bool-cases (x.handle == 0 || not (x.count_c_init == w.globals.init_count))) [
          | inl new ↦
              let s = rules.sizes p (sound.made p has) in
              elim (Bool-cases (created_code p w.sess.h_session w.globals.token == ckr_ok)) [
                | inl ok_ ↦
                    let created : created_code p w.sess.h_session w.globals.token ≡ ckr_ok =
                      ground (arith, ok_) in
                    elim (rules.created w.sess.h_session p w.globals.token open_) [
                      | inl bad ↦ absurd (bad created)
                      | inr r ↦ inl (
                          rw (new, s.0, s.1, created)
                            (record {
                              ok = refl;
                              open_kept = r.1;
                              value_kept = r.2 h v valued;
                              wraps_now = r.0;
                              count_now = refl;
                              pkey_kept = refl;
                              error_kept = refl;
                            }))
                    ]
                | inr failed ↦ inr (record {
                  failed = ground (arith, new, s.0, s.1, failed);
                  because = ground (arith, new, s.0, s.1, failed);
                })
              ]
          | inr kept ↦ inl (
              rw kept (record {
                ok = refl;
                open_kept = open_;
                value_kept = valued;
                wraps_now = sound.wraps p has (ground (arith, kept)) (ground (arith, kept));
                count_now = ground (arith, kept);
                pkey_kept = refl;
                error_kept = refl;
              }))
        ]

    import_wrapper-session : (import_wrapper c secrets p x w).2.sess.h_session ≡ w.sess.h_session
    unfolding import_wrapper
    import_wrapper-session = ground arith

    wrap-Unwrapped :
        Sound x w
        → x.pkey ≡ some p
        → let made = import_wrapper c secrets p x w in
          Imported made
          → (secrets.c_wrap_key made.2.sess.h_session made.1.handle h made.2.globals.token).0
            ≡ ckr_ok
          → Unwrapped v (luna_unwrap_key_bytes_oaep c secrets (object h) (length v) x w)
    unfolding luna_unwrap_key_bytes_oaep wrap_target decrypt_secret
    wrap-Unwrapped sound has got done =
        let made = import_wrapper c secrets p x w in
        let t = (secrets.c_wrap_key made.2.sess.h_session made.1.handle h made.2.globals.token).2 in
        let same : (length v == length v) ≡ true = ground arith in
        elim (rules.wrapped made.2.sess.h_session made.1.handle h p v made.2.globals.token
          got.open_kept got.wraps_now got.value_kept) [
            | inl bad ↦ absurd (bad done)
            | inr r ↦
                let result : luna_unwrap_key_bytes_oaep c secrets (object h) (length v) x w
                    ≡ (ckr_ok, some v, made.1, set_last_error ckr_ok (set_token t made.2)) =
                  ground (arith, has, got.ok, done, r.0, same) in
                rw result (record {
                  ok = refl;
                  secret = refl;
                  sound = record {
                    no_error = cc (got.error_kept, sound.no_error);
                    made = λ q e. sound.made q (cc (e, got.pkey_kept));
                    wraps = λ q e _ _. let q_eq : q ≡ p = cc (e, got.pkey_kept, has) in rw q_eq r.2;
                  };
                  open_kept = rw (set_last_error-session ckr_ok (set_token t made.2)) r.1;
                })
          ]

    oaep-Unwrapped :
        rules.IsSession w.globals.token w.sess.h_session
        → rules.Value w.globals.token h v
        → Sound x w
        → x.pkey ≡ some p
        → let r = luna_unwrap_key_bytes_oaep c secrets (object h) (length v) x w in
          Unwrapped v r ⊎ Refused h w r
    unfolding luna_unwrap_key_bytes_oaep wrap_target decrypt_secret
    oaep-Unwrapped open_ valued sound has = elim (import_wrapper-Imported open_ valued sound has) [
      | inr bad ↦ inr (record {
        failed = ground (arith, has, bad.failed);
        nothing = ground (arith, has, bad.failed);
        because = inl (p, ground (arith, has, bad.failed, bad.because));
      })
      | inl got ↦
          let made = import_wrapper c secrets p x w in
          let wrap =
            secrets.c_wrap_key made.2.sess.h_session made.1.handle h made.2.globals.token in
          elim (Bool-cases (wrap.0 == ckr_ok)) [
            | inl done ↦ inl (wrap-Unwrapped sound has got (ground (arith, done)))
            | inr bad ↦ inr (record {
              failed = ground (arith, has, got.ok, bad);
              nothing = ground (arith, has, got.ok, bad);
              because = inr (
                made.1.handle,
                made.2.globals.token,
                ground (arith, has, got.ok, bad, import_wrapper-session),
              );
            })
          ]
    ]

  -- Once an RSA key pair can be made, the bytes of a secret key in the HSM are given in every state of
  -- the wrapping key, the first one and those behind a restart of the library included: the call
  -- succeeds, the bytes are the value of the key, and the wrapping key is left such that the next
  -- call works too, unless C_CreateObject for the public key or C_WrapKey fails, whose code is then
  -- returned. The session is open, and the length that is asked for is that of the value.
  pub luna_unwrap_key_bytes-Unwrapped :
      (x : Wrapping secrets.Pkey) (w : Work c.Token) {p : secrets.Pkey} (h : ℕ) (v : Bytes)
      → secrets.new_pkey ≡ some p
      → rules.IsSession w.globals.token w.sess.h_session
      → rules.Value w.globals.token h v
      → Sound x w
      → let r = luna_unwrap_key_bytes c secrets (object h) (length v) x w in
        Unwrapped v r ⊎ Refused h w r
  unfolding luna_unwrap_key_bytes luna_unwrap_key_bytes_prep
  luna_unwrap_key_bytes-Unwrapped x w {p} h v new open_ valued sound = elim (Option-cases x.pkey) [
    | inl missing ↦
        let fresh : Wrapping secrets.Pkey = record {
          pkey = secrets.new_pkey;
          error = false;
          handle = 0;
          count_c_init = 0;
        } in
        let fresh-Sound : Sound fresh w = record {
          no_error = refl;
          made = λ q e. e;
          wraps = λ q e nonzero _. absurd (nonzero refl);
        } in
        let result : luna_unwrap_key_bytes c secrets (object h) (length v) x w
            ≡ luna_unwrap_key_bytes_oaep c secrets (object h) (length v) fresh w =
          ground (arith, missing, new, sound.no_error) in
        rw result (oaep-Unwrapped fresh w p h v open_ valued fresh-Sound new)
    | inr (q, there) ↦
        let result : luna_unwrap_key_bytes c secrets (object h) (length v) x w
            ≡ luna_unwrap_key_bytes_oaep c secrets (object h) (length v) x w =
          ground (arith, there, sound.no_error) in
        rw result (oaep-Unwrapped x w q h v open_ valued sound there)
  ]

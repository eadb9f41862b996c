-- ===== src/Engine/Password/Limits.antt =====
-- When LUNA_pw_malloc stores a PIN, and what a failed LUNA_pw_login does (Engine/Password.antt).
use luna_openssl_provider.Prelude.{
  ℕ, zero, suc, ◌+◌, ◌≤◌, ◌≡◌, ◌≢◌, ◌↔◌, ◌⊎◌, refl, Option, none, some, [], ◌∷◌, ◌++◌, Bytes,
  length, take, drop, replicate, arith, Option-cases, inl, inr,
}
use luna_openssl_provider.Cryptoki.{Cryptoki, ckr_ok, ckr_general_error}
use luna_openssl_provider.Engine.Config.{Config}
use luna_openssl_provider.Engine.Password.{
  Passphrase, luna_passwd_maxblk, xor_bytes, memcpy_at, pbkdf2_rounds, luna_pbkdf2_f, pbkdf2_blocks,
  luna_pbkdf2_main, pw_mask_key, luna_pw_mask, pin_block, luna_pw_malloc, pw_c_login, luna_pw_login,
}

module _ (c : Cryptoki) where
  module _ (total : (m : Bytes) → c.sha1 m ≢ none)
      (total_too : (m n : Bytes) → c.sha1_too m n ≢ none) where
    rounds_total : (n : ℕ) (p u : Bytes) → pbkdf2_rounds c n p u ≢ none
    unfolding pbkdf2_rounds
    rounds_total zero p u e = ground (arith, e)
    rounds_total (suc n) p u e = elim (Option-cases (c.sha1_too p u)) [
      | inl q ↦ total_too p u q
      | inr (md, q) ↦ ground (arith, q, e, rounds_total n p (xor_bytes u md))
    ]

    f_total : (p s : Bytes) (iterations ii : ℕ) → luna_pbkdf2_f c p s iterations ii ≢ none
    unfolding luna_pbkdf2_f
    f_total p s iterations ii e = rounds_total iterations p _ e

    blocks_total :
        (l it : ℕ) (p s : Bytes) (iterations : ℕ) → pbkdf2_blocks c l it p s iterations ≢ none
    unfolding pbkdf2_blocks
    blocks_total zero it p s iterations e = ground (arith, e)
    blocks_total (suc l) it p s iterations e =
        elim (Option-cases (luna_pbkdf2_f c p s iterations it)) [
          | inl q ↦ f_total p s iterations it q
          | inr (u, q) ↦ elim (Option-cases (pbkdf2_blocks c l (it + 1) p s iterations)) [
            | inl f ↦ blocks_total l (it + 1) p s iterations f
            | inr (us, f) ↦ ground (arith, q, f, e)
          ]
        ]

    key_total : (addr1 addr2 : Bytes) → pw_mask_key c addr1 addr2 ≢ none
    unfolding pw_mask_key luna_pbkdf2_main
    key_total addr1 addr2 e = elim (Option-cases (c.sha1 (addr1 ++ replicate 8 255))) [
      | inl q ↦ total _ q
      | inr (sha1, q) ↦ elim (Option-cases (c.sha1 (addr1 ++ addr2))) [
        | inl f ↦ total _ f
        | inr (sha2, f) ↦ ground (arith, q, f, e, blocks_total 14 1 sha1 sha2 5)
      ]
    ]

    pin_total : (szpw : Bytes) → pin_block c szpw ≢ none
    unfolding pin_block
    pin_total szpw e =
        let blk = memcpy_at 24 (szpw ++ 0 ∷ []) (replicate luna_passwd_maxblk 0) in
        hashed blk (c.sha1 (take 256 (drop 24 blk))) refl e
      where
        hashed :
            (blk : Bytes) (o : Option Bytes)
            → c.sha1 (take 256 (drop 24 blk)) ≡ o
            → (elim o [ none ↦ none | some sha ↦ some (memcpy_at 4 sha blk) ]) ≢ none
        hashed blk none q f = total _ q
        hashed blk (some sha) q f = ground (arith, f)

    -- If every digest succeeds, a PIN is stored (`boolInit` is 1) exactly if it has 4 to 255 bytes.
    pub luna_pw_malloc-length :
        (ppw : Passphrase) (szpw block_addr : Bytes)
        → ((luna_pw_malloc c ppw szpw block_addr).bool_init ≡ 1)
          ↔ ((4 ≤ length szpw) × (length szpw ≤ 255))
    unfolding luna_pw_malloc luna_pw_mask
    luna_pw_malloc-length ppw szpw block_addr = elim (Option-cases (pin_block c szpw)) [
      | inl q ↦ absurd (pin_total szpw q)
      | inr (blk, q) ↦ elim (Option-cases (pw_mask_key c ppw.addr block_addr)) [
        | inl f ↦ absurd (key_total ppw.addr block_addr f)
        | inr (key, f) ↦ ground (arith, q, f)
      ]
    ]

  -- A refused C_Login marks the store, and nothing else changes it.
  record Attempt (ppw : Passphrase) (t : c.Token) (res : ℕ × Passphrase × c.Token) : Type 0 where
    outcome :
        ((res.0 ≡ ckr_ok) × (res.1 ≡ ppw))
        ⊎ ((res.0 ≡ ckr_general_error) × (res.1 ≡ ppw) × (res.2 ≡ t))
        ⊎ ((res.0 ≢ ckr_ok) × (res.1.bool_init ≡ 2))

  pw_c_login-Attempt :
      (cfg : Config) (ppw : Passphrase) (h : ℕ) (pin : Bytes) (t : c.Token)
      → Attempt ppw t (pw_c_login c cfg ppw h pin t)
  unfolding pw_c_login
  pw_c_login-Attempt cfg ppw h pin t = record { outcome = ground arith }

  luna_pw_login-Attempt :
      (cfg : Config) (ppw : Passphrase) (h : ℕ) (t : c.Token)
      → Attempt ppw t (luna_pw_login c cfg ppw h t)
  unfolding luna_pw_login
  luna_pw_login-Attempt cfg ppw h t = record { outcome = grind (arith, pw_c_login-Attempt) }

  login_refused :
      (cfg : Config) (ppw : Passphrase) (h : ℕ) (t : c.Token)
      → ppw.bool_init ≢ 1
      → luna_pw_login c cfg ppw h t ≡ (ckr_general_error, ppw, t)
  unfolding luna_pw_login
  login_refused cfg ppw h t ne = ground (arith, ne)

  -- A login that fails either changed nothing, or no later login reaches the token: each answers
  -- CKR_GENERAL_ERROR, so a PIN that the token refused is never tried a second time.
  pub luna_pw_login-stops :
      (cfg : Config) (ppw : Passphrase) (h h' : ℕ) (t t' : c.Token)
      → (luna_pw_login c cfg ppw h t).0 ≢ ckr_ok
      → let failed = luna_pw_login c cfg ppw h t in
        ((failed.1 ≡ ppw) × (failed.2 ≡ t))
        ⊎ (luna_pw_login c cfg failed.1 h' t' ≡ (ckr_general_error, failed.1, t'))
  luna_pw_login-stops cfg ppw h h' t t' ne =
      let failed = luna_pw_login c cfg ppw h t in
      elim (luna_pw_login-Attempt cfg ppw h t).outcome [
        | inl (well, _) ↦ absurd (ne well)
        | inr (inl (_, same, kept)) ↦ inl (same, kept)
        | inr (inr (_, marked)) ↦ inr (login_refused cfg failed.1 h' t' (ground (arith, marked)))
      ]

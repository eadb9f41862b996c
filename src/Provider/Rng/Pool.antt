-- ===== src/Provider/Rng/Pool.antt =====
-- The cache of random bytes (Provider/Rng.antt) as a pool: bytes are taken from its front, and none is
-- given out twice.
use luna_openssl_provider.Prelude.{
  ℕ, zero, suc, ◌+◌, ◌-◌, ◌≤◌, ◌<◌, ◌≡◌, ◌≢◌, refl, ap, inl, inr, true, false, Option, none, some,
  [], ◌∷◌, Bytes, length, take, drop, length-drop, arith, ltb, ◌==◌, if◌then◌else◌, Bool-cases,
}
use luna_openssl_provider.Cryptoki.{Cryptoki, ckr_ok}
use luna_openssl_provider.Engine.Config.{Config}
use luna_openssl_provider.Engine.Session.State.{context_init}
use luna_openssl_provider.Engine.Session.Context.{luna_open_context}
use luna_openssl_provider.Provider.Rng.{
  luna_pqc_rng_cache, Rng, luna_pqc_rng_hw_pkcs11, refill_cache, luna_pqc_rng_hw_cache_locked,
}

-- The bytes that are left to give out, or `none` while the cache is dirty.
abbrev pub pool : {T S : Type 0} → Rng T S → Option Bytes
pool s = if s.dirty then none else some (drop s.offset s.bytes)

-- A cache that is not dirty is full, and its offset is inside.
abbrev pub IsFull : {T S : Type 0} → Rng T S → Type 0
IsFull s = s.dirty ≡ false → (length s.bytes ≡ luna_pqc_rng_cache) × (s.offset ≤ luna_pqc_rng_cache)

drop_add : (m n k : ℕ) (xs : Bytes) → k ≡ m + n → drop k xs ≡ drop n (drop m xs)
drop_add zero n k xs e = ap (λ j. drop j xs) (omega (arith, e))
drop_add (suc m) n zero xs e = absurd (omega (arith, e))
drop_add (suc m) zero (suc k) [] e = refl
drop_add (suc m) (suc n) (suc k) [] e = refl
drop_add (suc m) n (suc k) (x ∷ xs) e = drop_add m n k xs (omega (arith, e))

module _ (c : Cryptoki) (cfg : Config) {S : Type 0} (liboqs : ℕ → S → Bytes × S) where
  -- C_GenerateRandom writes as many bytes as it was asked for.
  abbrev pub RandomRule : Type 0
  RandomRule =
      (h n : ℕ) (t : c.Token)
      → (c.c_generate_random h n t).0 ≡ ckr_ok
      → length (c.c_generate_random h n t).1 ≡ n

  -- What a request of up to 2560 bytes does to the pool.
  pub data Served (n : ℕ) (s : Rng c.Token S) (res : ℕ × Bytes × Rng c.Token S) : Type 0 where
    -- from the pool, with no call of the library
    from_pool :
        (left : Bytes)
        → pool s ≡ some left
        → n ≤ length left
        → res.0 ≡ ckr_ok
        → res.1 ≡ take n left
        → pool res.2 ≡ some (drop n left)
        → res.2.globals ≡ s.globals
        → Served n s res
    -- from 2560 fresh bytes, when the pool has too few
    refilled :
        (fresh : Bytes)
        → length fresh ≡ luna_pqc_rng_cache
        → ((left : Bytes) → pool s ≡ some left → length left < n)
        → res.0 ≡ ckr_ok
        → res.1 ≡ take n fresh
        → pool res.2 ≡ some (drop n fresh)
        → Served n s res
    -- no bytes, and no pool any more
    failed :
        ((left : Bytes) → pool s ≡ some left → length left < n)
        → res.0 ≢ ckr_ok
        → pool res.2 ≡ none
        → res.2.hw_error ≡ true
        → Served n s res

  -- The library's part: the bytes, or the sticky error; the cache is not touched.
  record Asked (n : ℕ) (s : Rng c.Token S) (res : ℕ × Bytes × Rng c.Token S) : Type 0 where
    dirty_eq : res.2.dirty ≡ s.dirty
    written : res.0 ≡ ckr_ok → length res.1 ≡ n
    sticky : res.0 ≢ ckr_ok → res.2.hw_error ≡ true

  module _ (rule : RandomRule) where
    pkcs11-Asked : (n : ℕ) (s : Rng c.Token S) → Asked n s (luna_pqc_rng_hw_pkcs11 c cfg liboqs n s)
    unfolding luna_pqc_rng_hw_pkcs11
    pkcs11-Asked n s =
        let opened = luna_open_context c cfg context_init s.globals in
        let asked = rule opened.1.h_session n opened.2.token in
        record {
          dirty_eq = ground arith;
          written = λ e. ground (arith, e, asked);
          sticky = λ ne. ground (arith, ne);
        }

    refill_cache-Served :
        (n : ℕ) (s s1 : Rng c.Token S)
        → n ≤ luna_pqc_rng_cache
        → ((left : Bytes) → pool s ≡ some left → length left < n)
        → s1.dirty ≡ true
        → Served n s (refill_cache c cfg liboqs n s1)
    unfolding refill_cache
    refill_cache-Served n s s1 le short off =
        let res = luna_pqc_rng_hw_pkcs11 c cfg liboqs luna_pqc_rng_cache s1 in
        let asked = pkcs11-Asked luna_pqc_rng_cache s1 in
        elim (Bool-cases (res.0 == ckr_ok)) [
          | inl e ↦ simp e (refilled res.1 (asked.written (ground (arith, e))) short refl refl refl)
          | inr e ↦
              let ne : res.0 ≢ ckr_ok = ground (arith, e) in
              simp e (failed short ne (ground (arith, asked.dirty_eq, off)) (asked.sticky ne))
        ]

    refill_cache-IsFull :
        (n : ℕ) (s1 : Rng c.Token S)
        → n ≤ luna_pqc_rng_cache
        → s1.dirty ≡ true
        → IsFull (refill_cache c cfg liboqs n s1).2
    unfolding refill_cache
    refill_cache-IsFull n s1 le off =
        let asked = pkcs11-Asked luna_pqc_rng_cache s1 in
        λ on. ground (arith, asked.dirty_eq, off, asked.written, on)

    pub luna_pqc_rng_hw_cache_locked-Served :
        (n : ℕ) (s : Rng c.Token S)
        → n ≤ luna_pqc_rng_cache
        → IsFull s
        → Served n s (luna_pqc_rng_hw_cache_locked c cfg liboqs n s)
          × IsFull (luna_pqc_rng_hw_cache_locked c cfg liboqs n s).2
    unfolding luna_pqc_rng_hw_cache_locked
    luna_pqc_rng_hw_cache_locked-Served n s le full =
        let cnt = s.cnt in
        let s1 : Rng c.Token S = record s {
          cnt = record cnt { reset = cnt.reset + 1 };
          dirty = true;
        } in
        let small : ltb luna_pqc_rng_cache n ≡ false = ground (arith, le) in
        let served = λ (short : (left : Bytes) → pool s ≡ some left → length left < n).
          refill_cache-Served n s s1 le short refl in
        let filled = refill_cache-IsFull n s1 le refl in
        elim (Bool-cases s.dirty) [
          | inl e ↦ simp (small, e) (served (λ left p. ground (arith, e, p)), filled)
          | inr e ↦
              let there = full e in
              let have : pool s ≡ some (drop s.offset s.bytes) = ground (arith, e) in
              let long : length (drop s.offset s.bytes) ≡ luna_pqc_rng_cache - s.offset =
                omega (arith, length-drop s.offset s.bytes, there.0) in
              elim (Bool-cases (ltb luna_pqc_rng_cache (s.offset + n))) [
                | inl f ↦
                    simp (small, e, f)
                      (
                        served (λ left p.
                            few left (ground (arith, have, p)) long (ground (arith, f, there.1))),
                        filled,
                      )
                | inr f ↦
                    simp (small, e, f)
                      (
                        from_pool (drop s.offset s.bytes) have (ground (arith, long, f, there.1))
                            refl refl (ap some (drop_add s.offset n (s.offset + n) s.bytes refl))
                            refl,
                        λ _. (there.0, ground (arith, f)),
                      )
              ]
        ]
      where
        few :
            (left : Bytes)
            → left ≡ drop s.offset s.bytes
            → length (drop s.offset s.bytes) ≡ luna_pqc_rng_cache - s.offset
            → luna_pqc_rng_cache - s.offset < n
            → length left < n
        few left e l lt = ground (arith, e, l, lt)

-- ===== src/Provider/Rng/Supply.antt =====
-- Many requests for random bytes (Provider/Rng.antt): the pool is given out in order, every request of
-- luna_pqc_rng gets its bytes, and a hardware error is final.
use luna_openssl_provider.Prelude.{
  ℕ, ◌+◌, ◌≤◌, ◌≡◌, ◌≢◌, refl, sym, ap, ◌∙◌, true, some, List, [], ◌∷◌, ◌++◌, Bytes, length, take,
  drop, length-take, length-drop, take-append-drop, append_assoc, arith, ltb, leb, ◌==◌, Bool-cases,
  inl, inr,
}
use luna_openssl_provider.Cryptoki.{Cryptoki, ckr_ok}
use luna_openssl_provider.Engine.Config.{Config}
use luna_openssl_provider.Provider.Rng.{
  luna_pqc_rng_small, luna_pqc_rng_cache, Rng, luna_pqc_rng_hw_cache_locked, luna_pqc_rng_hw_int,
  luna_pqc_rng_hw, luna_pqc_rng,
}
use luna_openssl_provider.Provider.Rng.Pool.{
  pool, IsFull, RandomRule, from_pool, refilled, failed, luna_pqc_rng_hw_cache_locked-Served,
}

module _ (c : Cryptoki) (cfg : Config) {S : Type 0} (liboqs : ℕ → S → Bytes × S) where
  -- All bytes that some requests to the cache give, one after the other.
  unfoldable pub serve_all : List ℕ → Rng c.Token S → Bytes × Rng c.Token S
  serve_all [] s = ([], s)
  serve_all (n ∷ ns) s =
      let (_, out, s1) = luna_pqc_rng_hw_cache_locked c cfg liboqs n s in
      let (outs, s2) = serve_all ns s1 in (out ++ outs, s2)

  unfoldable pub total : List ℕ → ℕ
  total [] = 0
  total (n ∷ ns) = n + total ns

  module _ (rule : RandomRule c cfg liboqs) where
    -- A request that the pool has enough for.
    record Front (n : ℕ) (left : Bytes) (res : ℕ × Bytes × Rng c.Token S) : Type 0 where
      out_eq : res.1 ≡ take n left
      pool_eq : pool res.2 ≡ some (drop n left)
      full : IsFull res.2

    served-Front :
        (n : ℕ) (s : Rng c.Token S) (left : Bytes)
        → IsFull s
        → pool s ≡ some left
        → n ≤ length left
        → Front n left (luna_pqc_rng_hw_cache_locked c cfg liboqs n s)
    served-Front n s left full e le =
        let bound : length left ≤ luna_pqc_rng_cache = pool_bound s left full e in
        let step =
          luna_pqc_rng_hw_cache_locked-Served c cfg liboqs rule n s (omega (arith, le, bound))
            full in
        elim step.0 [
          | from_pool left2 e2 le2 ok out rest same ↦
              let eq : left2 ≡ left = some_injective (sym e2 ∙ e) in
              record {
                out_eq = out ∙ ap (take n) eq;
                pool_eq = rest ∙ ap (λ l. some (drop n l)) eq;
                full = step.1;
              }
          | refilled fresh long short ok out rest ↦ absurd (omega (arith, short left e, le))
          | failed short ok rest err ↦ absurd (omega (arith, short left e, le))
        ]
      where
        some_injective : {x y : Bytes} → some x ≡ some y → x ≡ y
        some_injective e = ground (arith, e)

        pool_bound :
            (s : Rng c.Token S) (left : Bytes)
            → IsFull s
            → pool s ≡ some left
            → length left ≤ luna_pqc_rng_cache
        pool_bound s left full e = elim (Bool-cases s.dirty) [
          | inl d ↦ absurd (ground (arith, d, e))
          | inr d ↦
              let eq : drop s.offset s.bytes ≡ left = ground (arith, d, e) in
              ground (arith, eq, length-drop s.offset s.bytes, (full d).0)
        ]

    -- Requests that the pool has enough for get its bytes in order, none twice and none left out: what
    -- they get, followed by the pool that is left, is the pool of before.
    pub serve_all-pool :
        (ns : List ℕ) (s : Rng c.Token S) (left : Bytes)
        → IsFull s
        → pool s ≡ some left
        → total ns ≤ length left
        → (rest : Bytes) × (pool (serve_all ns s).1 ≡ some rest)
          × ((serve_all ns s).0 ++ rest ≡ left)
    unfolding serve_all total
    serve_all-pool [] s left full e le = (left, e, refl)
    serve_all-pool (n ∷ ns) s left full e le =
        let s1 = (luna_pqc_rng_hw_cache_locked c cfg liboqs n s).2 in
        let f = served-Front n s left full e (omega (arith, le)) in
        let (rest, e1, eq) =
          serve_all-pool ns s1 (drop n left) f.full f.pool_eq
            (omega (arith, le, length-drop n left)) in
        let out = (luna_pqc_rng_hw_cache_locked c cfg liboqs n s).1 in
        let outs = (serve_all ns s1).0 in
        (
          rest,
          e1,
          append_assoc out outs rest
              ∙ ap (λ l. out ++ l) eq
              ∙ ap (λ o. o ++ drop n left) f.out_eq
              ∙ take-append-drop n left,
        )

    -- How luna_pqc_rng_hw_int ends.
    record Answered (n : ℕ) (res : ℕ × Bytes × Rng c.Token S) : Type 0 where
      enough : res.0 ≡ ckr_ok → length res.1 ≡ n
      filled : IsFull res.2
      sticky : res.0 ≢ ckr_ok → res.2.hw_error ≡ true

    module _ (system_rule : (n : ℕ) (e : S) → length (liboqs n e).0 ≡ n) where
      locked-Answered :
          (n : ℕ) (s : Rng c.Token S)
          → n ≤ luna_pqc_rng_cache
          → IsFull s
          → Answered n (luna_pqc_rng_hw_cache_locked c cfg liboqs n s)
      locked-Answered n s le full =
          let step = luna_pqc_rng_hw_cache_locked-Served c cfg liboqs rule n s le full in
          elim step.0 [
            | from_pool left e fits ok out rest same ↦ record {
              enough = λ _. ap length out ∙ omega (arith, length-take n left, fits);
              filled = step.1;
              sticky = λ ne. absurd (ne ok);
            }
            | refilled fresh long short ok out rest ↦ record {
              enough = λ _. ap length out ∙ omega (arith, length-take n fresh, long, le);
              filled = step.1;
              sticky = λ ne. absurd (ne ok);
            }
            | failed short ne rest err ↦ record {
              enough = λ ok. absurd (ne ok);
              filled = step.1;
              sticky = λ _. err;
            }
          ]

      int-Answered :
          (n : ℕ) (s : Rng c.Token S) → IsFull s → Answered n (luna_pqc_rng_hw_int c cfg liboqs n s)
      unfolding luna_pqc_rng_hw_int
      int-Answered n s full =
          let cnt = s.cnt in
          let s1 : Rng c.Token S = record s { cnt = record cnt { cache = cnt.cache + 1 } } in
          elim (Bool-cases (leb n luna_pqc_rng_small)) [
            | inl e ↦
                simp e (locked-Answered n s1 (ground (arith, e)) (λ d. ((full d).0, (full d).1)))
            | inr e ↦ simp e (record {
              enough = λ _. system_rule n s.system;
              filled = λ d. ((full d).0, (full d).1);
              sticky = λ ne. absurd (ne refl);
            })
          ]

      hw-Answered :
          (n : ℕ) (s : Rng c.Token S) → IsFull s → Answered n (luna_pqc_rng_hw c cfg liboqs n s)
      unfolding luna_pqc_rng_hw
      hw-Answered n s full =
          let res = luna_pqc_rng_hw_int c cfg liboqs n s in
          let a = int-Answered n s full in
          let cnt = res.2.cnt in
          elim (Bool-cases (ltb cnt.hwm n)) [
            | inl e ↦ simp e (record {
              enough = a.enough;
              filled = λ d. ((a.filled d).0, (a.filled d).1);
              sticky = a.sticky;
            })
            | inr e ↦ simp e a
          ]

      -- Every request of luna_pqc_rng gets as many bytes as it asks for, from the hardware or not, and the
      -- cache stays well formed; after a hardware error the library is never called again.
      pub luna_pqc_rng-length :
          (n : ℕ) (s : Rng c.Token S)
          → IsFull s
          → (length (luna_pqc_rng c cfg liboqs n s).0 ≡ n)
            × IsFull (luna_pqc_rng c cfg liboqs n s).1
            × (s.hw_error ≡ true
                → ((luna_pqc_rng c cfg liboqs n s).1.globals ≡ s.globals)
                  × ((luna_pqc_rng c cfg liboqs n s).1.hw_error ≡ true))
      unfolding luna_pqc_rng
      luna_pqc_rng-length n s full =
          let res = luna_pqc_rng_hw c cfg liboqs n s in
          let a = hw-Answered n s full in
          elim (Bool-cases s.hw_error) [
            | inl err ↦ simp err (system_rule n s.system, (λ d. full d), (λ _. (refl, refl)))
            | inr fine ↦ elim (Bool-cases (res.0 == ckr_ok)) [
              | inl ok ↦ simp (fine, ok) (a.enough (ground (arith, ok)), a.filled, (λ on. cc on))
              | inr ne ↦
                  simp (fine, ne) (system_rule n res.2.system, (λ d. a.filled d), (λ on. cc on))
            ]
          ]

-- ===== src/Tests/Randoms.antt =====
-- Examples on random bytes (Provider/Rng).
use luna_openssl_provider.Prelude.{
  ℕ, ◌+◌, ◌≤◌, ◌≡◌, refl, true, false, some, [], ◌∷◌, ◌++◌, Bytes, length, replicate,
  length-replicate, drop, arith,
}
use luna_openssl_provider.Provider.Rng.{Rng, luna_pqc_rng}
use luna_openssl_provider.Provider.Rng.Pool.{pool, IsFull, RandomRule}
use luna_openssl_provider.Provider.Rng.Supply.{
  serve_all, total, serve_all-pool, luna_pqc_rng-length,
}
use luna_openssl_provider.Tests.Sample.{sample, settings, running}

-- The operating system's generator counts its calls.
abbrev system : ℕ → ℕ → Bytes × ℕ
system n e = (replicate n e, e + 1)

sample_random : RandomRule sample settings system
sample_random h n t _ = length-replicate n h

abbrev ones : Bytes
ones = replicate 2560 1

ones-length : length ones ≡ 2560
ones-length = length-replicate {A = ℕ} 2560 1

-- 2500 of 2560 bytes are given out.
abbrev nearly : Rng ℕ ℕ
nearly = record {
  globals = running;
  system = 0;
  hw_error = false;
  dirty = false;
  offset = 2500;
  bytes = ones;
  cnt = record { big = 0; reset = 1; error = 0; copy = 100; cache = 101; liboqs = 0; hwm = 25 };
}

nearly-IsFull : IsFull nearly
nearly-IsFull _ = (ones-length, omega arith)

left_over : total sample settings system (16 ∷ 32 ∷ []) ≤ length (drop 2500 ones)
unfolding total
left_over = omega arith

serve_all-pool_example :
    (rest : Bytes) × (pool (serve_all sample settings system (16 ∷ 32 ∷ []) nearly).1 ≡ some rest)
    × ((serve_all sample settings system (16 ∷ 32 ∷ []) nearly).0 ++ rest ≡ drop 2500 ones)
serve_all-pool_example =
    serve_all-pool sample settings system sample_random (16 ∷ 32 ∷ []) nearly (drop 2500 ones)
      nearly-IsFull refl left_over

luna_pqc_rng-length_example :
    (length (luna_pqc_rng sample settings system 64 nearly).0 ≡ 64)
    × IsFull (luna_pqc_rng sample settings system 64 nearly).1
    × (false ≡ true
        → ((luna_pqc_rng sample settings system 64 nearly).1.globals ≡ running)
          × ((luna_pqc_rng sample settings system 64 nearly).1.hw_error ≡ true))
luna_pqc_rng-length_example =
    luna_pqc_rng-length sample settings system sample_random (λ n e. length-replicate n e) 64 nearly
      nearly-IsFull

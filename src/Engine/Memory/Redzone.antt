-- ===== src/Engine/Memory/Redzone.antt =====
-- What the redzone of a block (Engine/Memory.antt) detects.
use luna_openssl_provider.Prelude.{
  ℕ, zero, suc, ◌+◌, ◌<◌, ◌≤◌, ◌≡◌, ◌≢◌, ◌∙◌, refl, ap, Bool, some, [], ◌∷◌, ◌++◌, Bytes, take,
  length, set, length-drop, length-take, length-append, length-replicate, drop_front, drop,
  replicate, pos, arith,
}
use luna_openssl_provider.Engine.Memory.{
  luna_max_malloc, luna_max_redzone, redzone_value, fill_from, luna_redzone_fill, memcmp_from,
  luna_redzone_memcmp, luna_malloc, luna_cleanse,
}

length-fill_from : (ii n : ℕ) (ptr : Bytes) → length (fill_from ii n ptr) ≡ length ptr
unfolding fill_from
length-fill_from ii zero ptr = refl
length-fill_from ii (suc n) [] = refl
length-fill_from ii (suc n) (x ∷ xs) = ap suc (length-fill_from (suc ii) n xs)

memcmp_from-fill_from : (ii n rc : ℕ) (ptr : Bytes) → memcmp_from ii n rc (fill_from ii n ptr) ≡ rc
unfolding memcmp_from fill_from
memcmp_from-fill_from ii zero rc ptr = refl
memcmp_from-fill_from ii (suc n) rc [] = refl
memcmp_from-fill_from ii (suc n) rc (x ∷ xs) =
    ground (arith, memcmp_from-fill_from (suc ii) n rc xs)

memcmp_from-set :
    (ii n rc k v i : ℕ) (ptr : Bytes)
    → n ≤ length ptr
    → k < n
    → i ≡ ii + k
    → v ≢ redzone_value i
    → memcmp_from ii n rc (set (fill_from ii n ptr) k v) ≡ suc i
unfolding memcmp_from fill_from
memcmp_from-set ii zero rc k v i ptr h lt e ne = absurd (omega arith)
memcmp_from-set ii (suc n) rc k v i [] h lt e ne = absurd (omega arith)
memcmp_from-set ii (suc n) rc zero v i (x ∷ xs) h lt e ne =
    ground (arith, memcmp_from-fill_from (suc ii) n (suc ii) xs)
memcmp_from-set ii (suc n) rc (suc k) v i (x ∷ xs) h lt e ne =
    ground
      (arith, memcmp_from-set (suc ii) n rc k v i xs (omega arith) (omega arith) (omega arith) ne)

set_behind :
    (xs rest : Bytes) (k v i : ℕ) → i ≡ length xs + k → set (xs ++ rest) i v ≡ xs ++ set rest k v
set_behind [] rest k v i e = ap (λ j. set rest j v) (omega arith)
set_behind (x ∷ xs) rest k v zero e = absurd (omega arith)
set_behind (x ∷ xs) rest k v (suc i) e = ap (λ l. x ∷ l) (set_behind xs rest k v i (omega arith))

-- The redzone of a new block, and what stands in front of it.
abbrev new_block : ℕ → Bytes
new_block size0 = replicate (size0 + luna_max_redzone) 0

abbrev new_redzone : ℕ → Bytes
new_redzone size0 = luna_redzone_fill (drop size0 (new_block size0))

abbrev new_front : ℕ → Bytes
new_front size0 = take size0 (new_block size0)

length-new_block : (size0 : ℕ) → length (new_block size0) ≡ size0 + luna_max_redzone
length-new_block size0 = length-replicate (size0 + luna_max_redzone) 0

length-new_front : (size0 : ℕ) → length (new_front size0) ≡ size0
length-new_front size0 = omega (arith, length-take size0 (new_block size0), length-new_block size0)

length-new_redzone : (size0 : ℕ) → length (new_redzone size0) ≡ luna_max_redzone
unfolding luna_redzone_fill
length-new_redzone size0 = omega (
  arith,
  length-fill_from 0 luna_max_redzone (drop size0 (new_block size0)),
  length-drop size0 (new_block size0),
  length-new_block size0,
)

-- LUNA_malloc gives a block for the sizes from 1 to 2088 only, and the block has 16 bytes more than
-- asked for.
pub luna_malloc-length :
    (openssl_malloc : ℕ → Bool) (size0 : ℕ) {ptr : Bytes}
    → luna_malloc openssl_malloc (pos size0) ≡ some ptr
    → (1 ≤ size0) × (size0 ≤ luna_max_malloc) × (length ptr ≡ size0 + luna_max_redzone)
unfolding luna_malloc
luna_malloc-length openssl_malloc size0 e = ground (
  arith,
  e,
  length-append (new_front size0) (new_redzone size0),
  length-new_front size0,
  length-new_redzone size0,
)

block_redzone :
    (openssl_malloc : ℕ → Bool) (size0 : ℕ) {ptr : Bytes}
    → luna_malloc openssl_malloc (pos size0) ≡ some ptr
    → (size0 ≤ luna_max_malloc) × (drop size0 ptr ≡ new_redzone size0)
unfolding luna_malloc
block_redzone openssl_malloc size0 e =
    ground
      (arith, e, drop_front size0 (new_front size0) (new_redzone size0) (length-new_front size0))

module _ (openssl_malloc : ℕ → Bool) (openssl_cleanse : Bytes → Bytes) where
  luna_cleanse_zone :
      (size0 : ℕ) (contents zone : Bytes)
      → size0 ≤ luna_max_malloc
      → length contents ≡ size0
      → (luna_cleanse openssl_cleanse (some (contents ++ zone)) size0).0 ≡ luna_redzone_memcmp zone
  unfolding luna_cleanse
  luna_cleanse_zone size0 contents zone h l = ground (arith, drop_front size0 contents zone l)

  -- Whatever is written to the bytes of a block that were asked for, LUNA_cleanse returns 0.
  pub luna_cleanse-luna_malloc :
      (size0 : ℕ) {ptr : Bytes} (contents : Bytes)
      → luna_malloc openssl_malloc (pos size0) ≡ some ptr
      → length contents ≡ size0
      → (luna_cleanse openssl_cleanse (some (contents ++ drop size0 ptr)) size0).0 ≡ 0
  unfolding luna_redzone_memcmp luna_redzone_fill
  luna_cleanse-luna_malloc size0 contents e l =
      let (h, zone) = block_redzone openssl_malloc size0 e in
      luna_cleanse_zone size0 contents _ h l
      ∙ ap luna_redzone_memcmp zone
      ∙ memcmp_from-fill_from 0 luna_max_redzone 0 _

  -- One wrong byte at place k behind the bytes that were asked for, within the redzone, makes
  -- LUNA_cleanse return k + 1, whatever was written to the bytes that were asked for.
  pub luna_cleanse-overrun :
      (size0 : ℕ) {ptr : Bytes} (contents : Bytes) (k v : ℕ)
      → luna_malloc openssl_malloc (pos size0) ≡ some ptr
      → length contents ≡ size0
      → k < luna_max_redzone
      → v ≢ redzone_value k
      → (luna_cleanse openssl_cleanse
          (some (set (contents ++ drop size0 ptr) (size0 + k) v))
          size0).0
        ≡ suc k
  unfolding luna_redzone_memcmp luna_redzone_fill
  luna_cleanse-overrun size0 {ptr} contents k v e l lt ne =
      let (h, zone) = block_redzone openssl_malloc size0 e in
      ap (λ b. (luna_cleanse openssl_cleanse (some b) size0).0)
        (set_behind contents (drop size0 ptr) k v (size0 + k) (omega arith))
      ∙ luna_cleanse_zone size0 contents _ h l
      ∙ ap (λ z. luna_redzone_memcmp (set z k v)) zone
      ∙ memcmp_from-set 0 luna_max_redzone 0 k v k (drop size0 (new_block size0))
          (omega (arith, length-drop size0 (new_block size0), length-new_block size0)) lt
          (omega arith) ne

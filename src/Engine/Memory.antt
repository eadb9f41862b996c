-- ===== src/Engine/Memory.antt =====
-- The memory blocks of engine/e_gem.c with their redzone: luna_redzone_fill, luna_redzone_memcmp,
-- LUNA_malloc, LUNA_cleanse and LUNA_cleanse_free. A block is the list of its bytes, redzone and all;
-- a pointer into it is what is left of the list there. Whether OPENSSL_malloc has memory and what
-- OPENSSL_cleanse leaves in it are arguments. A size is an `int`; LUNA_cleanse is given no negative
-- one.
pub mod Redzone
use luna_openssl_provider.Prelude.{
  ℕ, zero, suc, ◌+◌, ◌%◌, ◌^◌, Bool, true, false, not, Option, none, some, List, [], ◌∷◌, ◌++◌,
  Bytes, take, drop, replicate, ℤ, pos, negsuc, ltb, leb, ◌==◌, if◌then◌else◌,
}

abbrev pub luna_max_malloc : ℕ
luna_max_malloc = 2048 + 32 + 8

abbrev pub luna_max_redzone : ℕ
luna_max_redzone = 16

-- LUNA_REDZONE_VALUE, an unsigned char
abbrev pub redzone_value : ℕ → ℕ
redzone_value ii = (ii + 187) % 2 ^ 8

-- The loop from `ii`, with its rounds left.
unfoldable pub fill_from : ℕ → ℕ → Bytes → Bytes
fill_from ii zero ptr = ptr
fill_from ii (suc n) [] = []
fill_from ii (suc n) (x ∷ xs) = redzone_value ii ∷ fill_from (suc ii) n xs

unfoldable pub luna_redzone_fill : Bytes → Bytes
luna_redzone_fill ptr = fill_from 0 luna_max_redzone ptr

-- The loop from `ii`, with its rounds left and `rc`.
unfoldable pub memcmp_from : ℕ → ℕ → ℕ → Bytes → ℕ
memcmp_from ii zero rc ptr = rc
memcmp_from ii (suc n) rc [] = rc
memcmp_from ii (suc n) rc (x ∷ xs) =
    memcmp_from (suc ii) n (if not (x == redzone_value ii) then suc ii else rc) xs

unfoldable pub luna_redzone_memcmp : Bytes → ℕ
luna_redzone_memcmp ptr = memcmp_from 0 luna_max_redzone 0 ptr

-- `openssl_malloc` tells of a size whether there is memory for it.
unfoldable pub luna_malloc : (ℕ → Bool) → ℤ → Option Bytes
luna_malloc openssl_malloc (negsuc _) = none
luna_malloc openssl_malloc (pos size0) =
    let size = size0 + luna_max_redzone in
    let ptr = replicate size 0 in
    if ltb size0 1
    then none
    else if ltb luna_max_malloc size0
    then none
    else if leb (size % 2 ^ 32) (size0 % 2 ^ 32)
    then none
    else if openssl_malloc size
    then some (take size0 ptr ++ luna_redzone_fill (drop size0 ptr))
    else none

-- The return value, and the block afterwards; `none` is NULL.
unfoldable pub luna_cleanse : (Bytes → Bytes) → Option Bytes → ℕ → ℕ × Option Bytes
luna_cleanse openssl_cleanse none size0 = (0, none)
luna_cleanse openssl_cleanse (some ptr) size0 =
    let size = size0 + luna_max_redzone in
    if ltb luna_max_malloc size0 then (0, some ptr) else (
      luna_redzone_memcmp (drop size0 ptr),
      some (openssl_cleanse (take size ptr) ++ drop size ptr),
    )

-- The block is freed, so the return value is all.
unfoldable pub luna_cleanse_free : (Bytes → Bytes) → Option Bytes → ℕ → ℕ
luna_cleanse_free openssl_cleanse none size0 = 0
luna_cleanse_free openssl_cleanse (some ptr) size0 =
    (luna_cleanse openssl_cleanse (some ptr) size0).0

-- ===== src/Provider/Blob/Text.antt =====
-- The texts that LunaPqcFillTemplate makes of random bytes (Provider/Blob.antt) are printable.
use luna_openssl_provider.Prelude.{
  ℕ, zero, suc, ◌+◌, ◌*◌, ◌/◌, ◌%◌, ◌<◌, ◌≤◌, ◌≡◌, refl, Bool, true, false, ◌&&◌, [], ◌∷◌, ◌++◌,
  Bytes, length, take, replicate, leb, ◌==◌, if◌then◌else◌, arith, Bool-cases, inl, inr,
}
use luna_openssl_provider.Engine.Slotid.{before_zero}
use luna_openssl_provider.Provider.Base64.{luna_sprintf_base64url, symbol, IsBytes}
use luna_openssl_provider.Provider.Blob.{
  luna_prov_test_utf8, test_from, luna_prov_test_utf8_buffer, padded, hex_digit, luna_sprintf_hex,
}

-- Every byte is a printable ASCII character.
unfoldable pub IsText : Bytes → Type 0
IsText [] = Unit
IsText (x ∷ xs) = (32 ≤ x) × (x ≤ 126) × IsText xs

pub before_zero-IsText : (xs : Bytes) → IsText xs → before_zero xs ≡ xs
unfolding before_zero IsText
before_zero-IsText [] t = refl
before_zero-IsText (x ∷ xs) t = ground (arith, before_zero-IsText xs)

test_from-zeros : (n m count : ℕ) → test_from true count (take n (replicate m 0)) ≡ leb 1 count
unfolding test_from
test_from-zeros zero m count = refl
test_from-zeros (suc n) zero count = refl
test_from-zeros (suc n) (suc m) count = test_from-zeros n m count

test_from-IsText :
    (n m count : ℕ) (xs : Bytes)
    → IsText xs
    → length xs ≤ n
    → 1 ≤ count + length xs
    → test_from false count (take n (xs ++ replicate m 0)) ≡ true
unfolding test_from IsText luna_prov_test_utf8
test_from-IsText zero m count [] t fits h = ground arith
test_from-IsText (suc n) zero count [] t fits h = ground arith
test_from-IsText (suc n) (suc m) count [] t fits h = ground (arith, test_from-zeros n m count)
test_from-IsText zero m count (x ∷ xs) t fits h = absurd (omega arith)
test_from-IsText (suc n) m count (x ∷ xs) (lo, hi, t) fits h =
    ground (arith, test_from-IsText n m (count + 1) xs t (omega arith) (omega arith))

pub luna_prov_test_utf8_buffer-IsText :
    (n : ℕ) (xs : Bytes)
    → IsText xs
    → 1 ≤ length xs
    → length xs ≤ n
    → luna_prov_test_utf8_buffer (padded n xs) ≡ true
unfolding luna_prov_test_utf8_buffer
luna_prov_test_utf8_buffer-IsText n xs t h fits = test_from-IsText n n 0 xs t fits (omega arith)

-- All of the first `n` symbols are printable.
symbols_text : ℕ → Bool
symbols_text zero = true
symbols_text (suc v) =
    let others = symbols_text v in if leb 32 (symbol v) && leb (symbol v) 126 then others else false

symbols_text_at : (n v : ℕ) → v < n → symbols_text n ≡ true → (32 ≤ symbol v) × (symbol v ≤ 126)
unfolding symbols_text
symbols_text_at zero v lt done = absurd (omega (arith, lt))
symbols_text_at (suc n) v lt done = elim (Bool-cases (v == n)) [
  | inl here ↦ let same : v ≡ n = ground (arith, here) in rw same (ground (arith, done))
  | inr elsewhere ↦ symbols_text_at n v (ground (arith, elsewhere, lt)) (ground (arith, done))
]

symbol_text : (v : ℕ) → v < 64 → (32 ≤ symbol v) × (symbol v ≤ 126)
unfolding symbols_text symbol
symbol_text v h = symbols_text_at 64 v h refl

pub luna_sprintf_base64url-IsText : (xs : Bytes) → IsText (luna_sprintf_base64url xs)
unfolding luna_sprintf_base64url IsText
luna_sprintf_base64url-IsText [] = tt
luna_sprintf_base64url-IsText (x ∷ []) =
    omega (arith, symbol_text (x / 4 % 64) (omega arith), symbol_text (x % 4 * 16) (omega arith))
luna_sprintf_base64url-IsText (x ∷ y ∷ []) = omega (
  arith,
  symbol_text (x / 4 % 64) (omega arith),
  symbol_text (x % 4 * 16 + y / 16 % 16) (omega arith),
  symbol_text (y % 16 * 4) (omega arith),
)
luna_sprintf_base64url-IsText (x ∷ y ∷ z ∷ rest) =
    let a = symbol_text (x / 4 % 64) (omega arith) in
    let b = symbol_text (x % 4 * 16 + y / 16 % 16) (omega arith) in
    let d = symbol_text (y % 16 * 4 + z / 64 % 4) (omega arith) in
    let e = symbol_text (z % 64) (omega arith) in
    (a.0, a.1, (b.0, b.1, (d.0, d.1, (e.0, e.1, luna_sprintf_base64url-IsText rest))))

hex_digit_text : (d : ℕ) → d < 16 → (32 ≤ hex_digit d) × (hex_digit d ≤ 126)
unfolding hex_digit
hex_digit_text d h = ground arith

pub luna_sprintf_hex-IsText : (xs : Bytes) → IsBytes xs → IsText (luna_sprintf_hex xs)
unfolding luna_sprintf_hex IsText IsBytes
luna_sprintf_hex-IsText [] b = tt
luna_sprintf_hex-IsText (x ∷ xs) (x_lt, b) =
    let hi = hex_digit_text (x / 16) (omega arith) in
    let lo = hex_digit_text (x % 16) (omega arith) in
    (hi.0, hi.1, (lo.0, lo.1, luna_sprintf_hex-IsText xs b))

pub length-luna_sprintf_hex : (xs : Bytes) → length (luna_sprintf_hex xs) ≡ 2 * length xs
unfolding luna_sprintf_hex
length-luna_sprintf_hex [] = refl
length-luna_sprintf_hex (x ∷ xs) = omega (arith, length-luna_sprintf_hex xs)

pub IsBytes-take : (n : ℕ) (xs : Bytes) → IsBytes xs → IsBytes (take n xs)
unfolding IsBytes
IsBytes-take zero xs b = tt
IsBytes-take (suc n) [] b = tt
IsBytes-take (suc n) (x ∷ xs) (x_lt, b) = (x_lt, IsBytes-take n xs b)

-- ===== src/Provider/Base64.antt =====
-- luna_sprintf_base64url of lunaProvider/lunaCommon.c: BASE64URL without padding. The text that it
-- writes is returned; shifts and masks of bytes are quotients and remainders.
use luna_openssl_provider.Prelude.{
  Bool-cases, inl, inr, false, ℕ, zero, suc, ◌+◌, ◌*◌, ◌/◌, ◌%◌, ◌<◌, ◌≡◌, refl, ap, Bool, true, [],
  ◌∷◌, Bytes, codes, length, get_or, arith, ◌==◌, if◌then◌else◌,
}

abbrev pub bstr : Bytes
bstr = codes "ABCDEFGHIJKLMNOPQRSTUVWXYZabcdefghijklmnopqrstuvwxyz0123456789-_"

unfoldable pub symbol : ℕ → ℕ
symbol v = get_or bstr v 0

-- The loop, by the bytes that remain.
unfoldable pub luna_sprintf_base64url : Bytes → Bytes
luna_sprintf_base64url [] = []
luna_sprintf_base64url (x ∷ []) = symbol (x / 4 % 64) ∷ symbol (x % 4 * 16) ∷ []
luna_sprintf_base64url (x ∷ y ∷ []) =
    symbol (x / 4 % 64) ∷ symbol (x % 4 * 16 + y / 16 % 16) ∷ symbol (y % 16 * 4) ∷ []
luna_sprintf_base64url (x ∷ y ∷ z ∷ rest) =
    symbol (x / 4 % 64)
    ∷ symbol (x % 4 * 16 + y / 16 % 16)
    ∷ symbol (y % 16 * 4 + z / 64 % 4)
    ∷ symbol (z % 64)
    ∷ luna_sprintf_base64url rest

-- RFC 4648, section 5, the other way round: the value of a symbol, and four symbols to three bytes.
unfoldable pub value_in : Bytes → ℕ → ℕ
value_in [] s = 0
value_in (b ∷ bs) s = if b == s then 0 else value_in bs s + 1

unfoldable pub decode : Bytes → Bytes
decode [] = []
decode (a ∷ []) = []
decode (a ∷ b ∷ []) = (value_in bstr a * 4 + value_in bstr b / 16) ∷ []
decode (a ∷ b ∷ d ∷ []) =
    (value_in bstr a * 4 + value_in bstr b / 16)
    ∷ (value_in bstr b % 16 * 16 + value_in bstr d / 4)
    ∷ []
decode (a ∷ b ∷ d ∷ e ∷ rest) =
    (value_in bstr a * 4 + value_in bstr b / 16)
    ∷ (value_in bstr b % 16 * 16 + value_in bstr d / 4)
    ∷ (value_in bstr d % 4 * 64 + value_in bstr e)
    ∷ decode rest

-- The first `n` symbols are read back.
read_back : ℕ → Bool
read_back zero = true
read_back (suc v) =
    let others = read_back v in if value_in bstr (symbol v) == v then others else false

read_back_at : (n v : ℕ) → v < n → read_back n ≡ true → value_in bstr (symbol v) ≡ v
unfolding read_back
read_back_at zero v lt done = absurd (omega (arith, lt))
read_back_at (suc n) v lt done = elim (Bool-cases (v == n)) [
  | inl here ↦ let same : v ≡ n = ground (arith, here) in rw same (ground (arith, done))
  | inr elsewhere ↦ read_back_at n v (ground (arith, elsewhere, lt)) (ground (arith, done))
]

value-symbol : (v : ℕ) → v < 64 → value_in bstr (symbol v) ≡ v
unfolding read_back value_in symbol
value-symbol v h = read_back_at 64 v h refl

unfoldable pub IsBytes : Bytes → Type 0
IsBytes [] = Unit
IsBytes (x ∷ xs) = (x < 256) × IsBytes xs

cons_eq : {x y : ℕ} {xs ys : Bytes} → x ≡ y → xs ≡ ys → x ∷ xs ≡ y ∷ ys
cons_eq e f = cc (e, f)

-- Every string of bytes is read back from its BASE64URL text by the decoder of RFC 4648.
pub decode-luna_sprintf_base64url :
    (xs : Bytes) → IsBytes xs → decode (luna_sprintf_base64url xs) ≡ xs
unfolding decode luna_sprintf_base64url IsBytes
decode-luna_sprintf_base64url [] p = refl
decode-luna_sprintf_base64url (x ∷ []) (a, p) =
    ap (λ v. v ∷ [])
      (omega
        (arith, value-symbol (x / 4 % 64) (omega arith), value-symbol (x % 4 * 16) (omega arith)))
decode-luna_sprintf_base64url (x ∷ y ∷ []) (a, (b, p)) =
    let v1 = value-symbol (x / 4 % 64) (omega arith) in
    let v2 = value-symbol (x % 4 * 16 + y / 16 % 16) (omega arith) in
    let v3 = value-symbol (y % 16 * 4) (omega arith) in
    simp (v1, v2, v3) (cons_eq (omega arith) (cons_eq (omega arith) refl))
decode-luna_sprintf_base64url (x ∷ y ∷ z ∷ rest) (a, (b, (d, p))) =
    let v1 = value-symbol (x / 4 % 64) (omega arith) in
    let v2 = value-symbol (x % 4 * 16 + y / 16 % 16) (omega arith) in
    let v3 = value-symbol (y % 16 * 4 + z / 64 % 4) (omega arith) in
    let v4 = value-symbol (z % 64) (omega arith) in
    let back = decode-luna_sprintf_base64url rest p in
    simp (v1, v2, v3, v4)
      (cons_eq (omega arith) (cons_eq (omega arith) (cons_eq (omega arith) back)))

-- The text has four symbols for three bytes, and two or three for one or two bytes at the end.
pub length-luna_sprintf_base64url :
    (xs : Bytes) → length (luna_sprintf_base64url xs) ≡ (length xs * 4 + 2) / 3
unfolding luna_sprintf_base64url
length-luna_sprintf_base64url [] = refl
length-luna_sprintf_base64url (x ∷ []) = omega arith
length-luna_sprintf_base64url (x ∷ y ∷ []) = omega arith
length-luna_sprintf_base64url (x ∷ y ∷ z ∷ rest) = omega (arith, length-luna_sprintf_base64url rest)

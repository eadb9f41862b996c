-- ===== src/Engine/Password/Mask.antt =====
-- Masking with exclusive or undoes itself, and the mask of LUNA_pw_mask covers the whole block.
use Prim.Native.Nat.{bit_xor, digits, differ, bit_xor-bitwise}
use luna_openssl_provider.Prelude.{
  ℕ, zero, suc, ◌+◌, ◌*◌, ◌/◌, ◌%◌, ◌≤◌, ◌<◌, ◌≡◌, refl, sym, ap, ◌∙◌, some, [], ◌∷◌, ◌++◌, Bytes,
  length, take, replicate, length-append, length-take, arith, Option-cases, inl, inr,
}
use luna_openssl_provider.Cryptoki.{Cryptoki, DigestRules}
use luna_openssl_provider.Engine.Password.{
  xor_bytes, pbkdf2_rounds, luna_pbkdf2_f, pbkdf2_blocks, luna_pbkdf2_main, pw_mask_key,
}

abbrev xor_digits : ℕ → ℕ → ℕ → ℕ
xor_digits n a b = digits (λ b. b) differ n a b

of_zero : (count a b : ℕ) → a ≡ 0 → xor_digits count a b ≡ b
of_zero zero a b e = refl
of_zero (suc count) a b e = rw e refl

-- The lowest digit apart, for any count of digits to go.
lowest :
    (count a b : ℕ)
    → xor_digits (suc count) a b ≡ xor_digits count (a / 2) (b / 2) * 2 + differ (a % 2) (b % 2)
lowest count zero b = omega (arith, of_zero count 0 (b / 2) refl)
lowest count (suc a) b = refl

-- Counts that are large enough do not differ.
any_count : (few many a b : ℕ) → a ≤ few → few ≤ many → xor_digits few a b ≡ xor_digits many a b
any_count zero many a b h le = sym (of_zero many a b (omega (arith, h)))
any_count (suc few) zero a b h le = absurd (omega (arith, le))
any_count (suc few) (suc many) a b h le =
    let halves = any_count few many (a / 2) (b / 2) (omega (arith, h)) (omega (arith, le)) in
    omega (arith, lowest few a b, lowest many a b, halves)

bit_xor_lowest : (a b : ℕ) → bit_xor a b ≡ bit_xor (a / 2) (b / 2) * 2 + differ (a % 2) (b % 2)
bit_xor_lowest a b =
    let whole : bit_xor a b ≡ xor_digits a a b = bit_xor-bitwise a b in
    let more = any_count a (suc a) a b (omega arith) (omega arith) in
    let half : bit_xor (a / 2) (b / 2) ≡ xor_digits (a / 2) (a / 2) (b / 2) =
      bit_xor-bitwise (a / 2) (b / 2) in
    let rest = any_count (a / 2) a (a / 2) (b / 2) (omega arith) (omega arith) in
    omega (arith, whole, more, half, rest, lowest a a b)

-- One binary digit.
differ_digit : (x y : ℕ) → x < 2 → y < 2 → (differ x y < 2) × (differ (differ x y) y ≡ x)
differ_digit zero zero p q = (omega arith, refl)
differ_digit zero (suc zero) p q = (omega arith, refl)
differ_digit (suc zero) zero p q = (omega arith, refl)
differ_digit (suc zero) (suc zero) p q = (omega arith, refl)
differ_digit zero (suc (suc y)) p q = absurd (omega arith)
differ_digit (suc zero) (suc (suc y)) p q = absurd (omega arith)
differ_digit (suc (suc x)) y p q = absurd (omega arith)

bit_xor_cancel_fuel : (n a b : ℕ) → a ≤ n → b ≤ n → bit_xor (bit_xor a b) b ≡ a
bit_xor_cancel_fuel zero zero zero p q = refl
bit_xor_cancel_fuel zero zero (suc b) p q = absurd (omega arith)
bit_xor_cancel_fuel zero (suc a) b p q = absurd (omega arith)
bit_xor_cancel_fuel (suc n) a b p q =
    let x = bit_xor a b in
    let d = differ_digit (a % 2) (b % 2) (omega arith) (omega arith) in
    let step = bit_xor_lowest a b in
    let half : x / 2 ≡ bit_xor (a / 2) (b / 2) = omega (arith, step, d.0) in
    let low : x % 2 ≡ differ (a % 2) (b % 2) = omega (arith, step, d.0) in
    let again = bit_xor_lowest x b in
    let rest = bit_xor_cancel_fuel n (a / 2) (b / 2) (omega arith) (omega arith) in
    let high : bit_xor (x / 2) (b / 2) ≡ a / 2 = rw half rest in
    let digit : differ (x % 2) (b % 2) ≡ a % 2 = rw low d.1 in omega (arith, again, high, digit)

pub bit_xor_cancel : (a b : ℕ) → bit_xor (bit_xor a b) b ≡ a
bit_xor_cancel a b = bit_xor_cancel_fuel (a + b) a b (omega arith) (omega arith)

pub xor_bytes_cancel : (xs ys : Bytes) → length xs ≤ length ys → xor_bytes (xor_bytes xs ys) ys ≡ xs
unfolding xor_bytes
xor_bytes_cancel [] ys h = refl
xor_bytes_cancel (x ∷ xs) [] h = absurd (omega arith)
xor_bytes_cancel (x ∷ xs) (y ∷ ys) h = rw (bit_xor_cancel x y, xor_bytes_cancel xs ys (omega arith))

pub length-xor_bytes :
    (xs ys : Bytes) → length xs ≤ length ys → length (xor_bytes xs ys) ≡ length xs
unfolding xor_bytes
length-xor_bytes [] ys h = refl
length-xor_bytes (x ∷ xs) [] h = absurd (omega arith)
length-xor_bytes (x ∷ xs) (y ∷ ys) h = ap suc (length-xor_bytes xs ys (omega arith))

module _ (c : Cryptoki) (d : DigestRules c) where
  rounds_length :
      (n : ℕ) (p u : Bytes) {k : Bytes}
      → length u ≡ 20
      → pbkdf2_rounds c n p u ≡ some k
      → length k ≡ 20
  unfolding pbkdf2_rounds
  rounds_length zero p u h e = ground (arith, e)
  rounds_length (suc n) p u {k = k} h e = elim (Option-cases (c.sha1_too p u)) [
    | inl q ↦ ground (arith, q)
    | inr (md, q) ↦
        let long = length-xor_bytes u md (omega (arith, h, d.sha1_too_length p u q)) in
        ground (arith, q, rounds_length n p (xor_bytes u md) {k = k} (long ∙ h))
  ]

  -- One block, from the first 16 bytes of the salt and its number.
  f_length :
      (p s : Bytes) (iterations ii : ℕ) {u : Bytes}
      → length s ≡ 20
      → luna_pbkdf2_f c p s iterations ii ≡ some u
      → length u ≡ 20
  unfolding luna_pbkdf2_f
  f_length p s iterations ii h e = rounds_length iterations p _ (salt_length s _ _ _ _ h) e
    where
      salt_length :
          (s : Bytes) (a b x y : ℕ) → length s ≡ 20 → length (take 16 s ++ a ∷ b ∷ x ∷ y ∷ []) ≡ 20
      salt_length s a b x y h = omega (arith, length-append (take 16 s) _, length-take 16 s, h)

  blocks_length :
      (l it : ℕ) (p s : Bytes) (iterations : ℕ) {k : Bytes}
      → length s ≡ 20
      → pbkdf2_blocks c l it p s iterations ≡ some k
      → length k ≡ 20 * l
  unfolding pbkdf2_blocks
  blocks_length zero it p s iterations h e = ground (arith, e)
  blocks_length (suc l) it p s iterations h e =
      elim (Option-cases (luna_pbkdf2_f c p s iterations it)) [
        | inl q ↦ ground (arith, q)
        | inr (u, q) ↦ elim (Option-cases (pbkdf2_blocks c l (it + 1) p s iterations)) [
          | inl f ↦ ground (arith, q, f)
          | inr (us, f) ↦
              let long = f_length p s iterations it h q in
              let rest = blocks_length l (it + 1) p s iterations h f in
              ground (arith, q, f, length-append u us)
        ]
      ]

  -- The key has the 280 bytes of a block.
  pub pw_mask_key-length :
      (addr1 addr2 : Bytes) {k : Bytes} → pw_mask_key c addr1 addr2 ≡ some k → length k ≡ 280
  unfolding pw_mask_key luna_pbkdf2_main
  pw_mask_key-length addr1 addr2 {k = k} e =
      elim (Option-cases (c.sha1 (addr1 ++ replicate 8 255))) [
        | inl q ↦ ground (arith, q)
        | inr (sha1, q) ↦ elim (Option-cases (c.sha1 (addr1 ++ addr2))) [
          | inl f ↦ ground (arith, q, f)
          | inr (sha2, f) ↦ ground (
            arith,
            q,
            f,
            blocks_length 14 1 sha1 sha2 5 {k = k} (d.sha1_length (addr1 ++ addr2) f),
          )
        ]
      ]

-- ===== src/Engine/Slotid/Decimal.antt =====
-- Numbers in decimal, as the slot strings hold them, and what `atoi` reads back.
use luna_openssl_provider.Prelude.{
  ℕ, zero, suc, ◌+◌, ◌-◌, ◌*◌, ◌/◌, ◌%◌, ◌≤◌, ◌<◌, ◌≡◌, ◌≢◌, refl, ap, ◌∙◌, none, some, [], ◌∷◌,
  ◌++◌, Bytes, arith, ltb, if◌then◌else◌, Bool-cases, inl, inr, atoi, atoi_digits, pos, cut_at,
}
use luna_openssl_provider.Engine.Slotid.{luna_isspace, skip_space, is_quote, quoted}

-- The decimal digits of a number, on fuel that the number itself is enough of.
unfoldable pub decimal_fuel : ℕ → ℕ → Bytes
decimal_fuel zero n = []
decimal_fuel (suc f) n =
    let front = decimal_fuel f (n / 10) in
    if ltb n 10 then (48 + n) ∷ [] else front ++ (48 + n % 10) ∷ []

unfoldable pub decimal : ℕ → Bytes
decimal n = decimal_fuel (suc n) n

unfoldable pub AllDigits : Bytes → Type 0
AllDigits [] = Unit
AllDigits (x ∷ xs) = (48 ≤ x) × (x ≤ 57) × AllDigits xs

AllDigits-append : (xs ys : Bytes) → AllDigits xs → AllDigits ys → AllDigits (xs ++ ys)
unfolding AllDigits
AllDigits-append [] ys p q = q
AllDigits-append (x ∷ xs) ys (a, b, p) q = (a, b, AllDigits-append xs ys p q)

one_digit : (d : ℕ) → d < 10 → AllDigits ((48 + d) ∷ [])
unfolding AllDigits
one_digit d h = (omega arith, omega arith, tt)

pub decimal-AllDigits_fuel : (f n : ℕ) → AllDigits (decimal_fuel f n)
unfolding decimal_fuel AllDigits
decimal-AllDigits_fuel zero n = tt
decimal-AllDigits_fuel (suc f) n = elim (Bool-cases (ltb n 10)) [
  | inl e ↦ simp e (one_digit n (ground arith))
  | inr e ↦ simp e (
      AllDigits-append (decimal_fuel f (n / 10)) _ (decimal-AllDigits_fuel f (n / 10))
        (one_digit (n % 10) (omega arith)))
]

atoi_digits-snoc :
    (acc d : ℕ) (xs : Bytes)
    → AllDigits xs
    → d < 10
    → atoi_digits acc (xs ++ (48 + d) ∷ []) ≡ atoi_digits acc xs * 10 + d
unfolding atoi_digits AllDigits
atoi_digits-snoc acc d [] p h = ground arith
atoi_digits-snoc acc d (x ∷ xs) (a, b, p) h =
    ground (arith, atoi_digits-snoc (acc * 10 + (x - b'0')) d xs p h)

single : (d : ℕ) → d < 10 → atoi_digits 0 ((48 + d) ∷ []) ≡ d
unfolding atoi_digits
single d h = ground arith

atoi_digits-decimal_fuel : (f n : ℕ) → n < f → atoi_digits 0 (decimal_fuel f n) ≡ n
unfolding decimal_fuel
atoi_digits-decimal_fuel zero n h = absurd (omega arith)
atoi_digits-decimal_fuel (suc f) n h = elim (Bool-cases (ltb n 10)) [
  | inl e ↦ simp e (single n (ground arith))
  | inr e ↦
      let back = atoi_digits-decimal_fuel f (n / 10) (ground (arith, e, h)) in
      let step =
        atoi_digits-snoc 0 (n % 10) (decimal_fuel f (n / 10)) (decimal-AllDigits_fuel f (n / 10))
          (omega arith) in
      simp e (omega (arith, step, back))
]

atoi_of_digits : (xs : Bytes) → AllDigits xs → atoi xs ≡ pos (atoi_digits 0 xs)
unfolding atoi atoi_digits AllDigits
atoi_of_digits [] p = refl
atoi_of_digits (x ∷ xs) (a, b, p) = ground arith

pub atoi-decimal : (n : ℕ) → atoi (decimal n) ≡ pos n
unfolding decimal
atoi-decimal n =
    atoi_of_digits (decimal_fuel (suc n) n) (decimal-AllDigits_fuel (suc n) n)
    ∙ ap pos (atoi_digits-decimal_fuel (suc n) n (omega arith))

-- A byte does not occur.
unfoldable pub Without : ℕ → Bytes → Type 0
Without c [] = Unit
Without c (x ∷ xs) = (x ≢ c) × Without c xs

pub cut_at-Without :
    (c : ℕ) (xs ys : Bytes) → Without c xs → cut_at c (xs ++ c ∷ ys) ≡ some (xs, ys)
unfolding cut_at Without
cut_at-Without c [] ys w = ground arith
cut_at-Without c (x ∷ xs) ys (ne, w) = ground (arith, cut_at-Without c xs ys w)

pub cut_at-none : (c : ℕ) (xs : Bytes) → Without c xs → cut_at c xs ≡ none
unfolding cut_at Without
cut_at-none c [] w = refl
cut_at-none c (x ∷ xs) (ne, w) = ground (arith, cut_at-none c xs w)

digits_no_colon : (xs : Bytes) → AllDigits xs → Without b':' xs
unfolding AllDigits Without
digits_no_colon [] p = tt
digits_no_colon (x ∷ xs) (a, b, p) = ((λ e. omega arith), digits_no_colon xs p)

pub decimal-Without : (n : ℕ) → Without b':' (decimal n)
unfolding decimal
decimal-Without n = digits_no_colon (decimal_fuel (suc n) n) (decimal-AllDigits_fuel (suc n) n)

-- A digit is neither a space nor a quote.
digits_unquoted :
    (xs ys : Bytes)
    → AllDigits xs
    → (skip_space (xs ++ b':' ∷ ys) ≡ xs ++ b':' ∷ ys) × (quoted (xs ++ b':' ∷ ys) ≡ none)
unfolding AllDigits skip_space luna_isspace is_quote quoted
digits_unquoted [] ys p = ground arith
digits_unquoted (x ∷ xs) ys (a, b, p) = ground arith

pub decimal_unquoted :
    (n : ℕ) (ys : Bytes)
    → (skip_space (decimal n ++ b':' ∷ ys) ≡ decimal n ++ b':' ∷ ys)
      × (quoted (decimal n ++ b':' ∷ ys) ≡ none)
unfolding decimal
decimal_unquoted n ys =
    digits_unquoted (decimal_fuel (suc n) n) ys (decimal-AllDigits_fuel (suc n) n)

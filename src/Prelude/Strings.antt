-- ===== src/Prelude/Strings.antt =====
-- C strings and the C library calls on them: a string is the list of its bytes before the
-- terminating 0, and a pointer into it is the list of what follows.
use Prim.Native.Char.{code}
use Prim.Native.String.{String}
use Prim.Native.Nat.{ℕ, zero, suc, ◌+◌, ◌-◌, ◌*◌}
use mathlib.Core.Path.{◌≡◌, refl, sym, ap, ◌∙◌}
use mathlib.Core.Logic.{◌≢◌, inl, inr}
use mathlib.Core.Bool.{Bool, true, false, ◌&&◌, ◌||◌}
use mathlib.Core.List.{List, [], ◌∷◌, ◌++◌}
use mathlib.Core.Option.{Option, none, some}
use native.Mathlib.Omega.{arith}
use luna_openssl_provider.Prelude.Tests.{leb, ◌==◌, if◌then◌else◌, Bool-cases, Option-cases}
use luna_openssl_provider.Prelude.Lists.{length}
use luna_openssl_provider.Prelude.Int.{ℤ, pos, negsuc}

abbrev pub Bytes : Type 0
Bytes = List ℕ

-- The bytes of a literal; every literal of the development is ASCII.
abbrev pub codes : String → Bytes
codes String.[] = []
codes (String.◌∷◌ c s) = code c ∷ codes s

-- `strcmp(a, b) == 0`, and `memcmp` on arrays of one length.
unfoldable pub strcmp_eq : Bytes → Bytes → Bool
strcmp_eq [] [] = true
strcmp_eq [] (y ∷ ys) = false
strcmp_eq (x ∷ xs) [] = false
strcmp_eq (x ∷ xs) (y ∷ ys) = x == y && strcmp_eq xs ys

-- `strncmp(s, prefix, strlen(prefix)) == 0`
unfoldable pub starts_with : Bytes → Bytes → Bool
starts_with [] s = true
starts_with (p ∷ ps) [] = false
starts_with (p ∷ ps) (x ∷ xs) = p == x && starts_with ps xs

-- `strstr(s, needle)`: what stands before the first occurrence, and the occurrence with its rest.
unfoldable pub split_at : Bytes → Bytes → Option (Bytes × Bytes)
split_at needle [] = if starts_with needle [] then some ([], []) else none
split_at needle (x ∷ xs) =
    let later = split_at needle xs in
    if starts_with needle (x ∷ xs)
    then some ([], x ∷ xs)
    else elim later [ none ↦ none | some (front, rest) ↦ some (x ∷ front, rest) ]

-- `strchr(s, c)`: what stands before the first `c`, and what follows it.
unfoldable pub cut_at : ℕ → Bytes → Option (Bytes × Bytes)
cut_at c [] = none
cut_at c (x ∷ xs) =
    let later = cut_at c xs in
    if x == c
    then some ([], xs)
    else elim later [ none ↦ none | some (front, rest) ↦ some (x ∷ front, rest) ]

-- `isspace` of the C locale, which `atoi` skips.
abbrev is_c_space : ℕ → Bool
is_c_space c = c == b' ' || (leb 9 c && leb c 13)

unfoldable pub atoi_digits : ℕ → Bytes → ℕ
atoi_digits acc [] = acc
atoi_digits acc (c ∷ cs) =
    let more = atoi_digits (acc * 10 + (c - b'0')) cs in
    if leb b'0' c && leb c b'9' then more else acc

abbrev negate : ℕ → ℤ
negate zero = pos 0
negate (suc n) = negsuc n

-- `atoi`, where the value fits in an `int`.
unfoldable pub atoi : Bytes → ℤ
atoi [] = pos 0
atoi (c ∷ cs) =
    let skipped = atoi cs in
    if is_c_space c
    then skipped
    else if c == b'-'
    then negate (atoi_digits 0 cs)
    else if c == b'+'
    then pos (atoi_digits 0 cs)
    else pos (atoi_digits 0 (c ∷ cs))

atoi_runs : (atoi (codes " -12x") ≡ negsuc 11) × (atoi (codes "+7") ≡ pos 7)
unfolding atoi atoi_digits
atoi_runs = (refl, refl)

pub strcmp_eq_sound : (xs ys : Bytes) → strcmp_eq xs ys ≡ true → xs ≡ ys
unfolding strcmp_eq
strcmp_eq_sound [] [] e = refl
strcmp_eq_sound [] (y ∷ ys) e = absurd (ground (arith, e))
strcmp_eq_sound (x ∷ xs) [] e = absurd (ground (arith, e))
strcmp_eq_sound (x ∷ xs) (y ∷ ys) e =
    let head : x ≡ y = ground (arith, e) in
    let tail = strcmp_eq_sound xs ys (ground (arith, e)) in cc (head, tail)

pub strcmp_eq_refl : (xs : Bytes) → strcmp_eq xs xs ≡ true
unfolding strcmp_eq
strcmp_eq_refl [] = refl
strcmp_eq_refl (x ∷ xs) = ground (arith, strcmp_eq_refl xs)

pub strcmp_eq_other : (xs ys : Bytes) → xs ≢ ys → strcmp_eq xs ys ≡ false
strcmp_eq_other xs ys apart = elim (Bool-cases (strcmp_eq xs ys)) [
  | inl same ↦ absurd (apart (strcmp_eq_sound xs ys same))
  | inr other ↦ other
]

pub length_nonempty : (xs : Bytes) → xs ≢ [] → (length xs == 0) ≡ false
length_nonempty [] nonempty = absurd (nonempty refl)
length_nonempty (x ∷ xs) nonempty = ground arith

-- `needle` stands somewhere in `s`.
abbrev pub Occurs : Bytes → Bytes → Type 0
Occurs needle s = (front : Bytes) × (rest : Bytes) × (s ≡ front ++ (needle ++ rest))

starts_with_sound : (p s : Bytes) → starts_with p s ≡ true → (rest : Bytes) × (s ≡ p ++ rest)
unfolding starts_with
starts_with_sound [] s e = (s, refl)
starts_with_sound (p ∷ ps) [] e = absurd (ground (arith, e))
starts_with_sound (p ∷ ps) (x ∷ xs) e =
    let head : p ≡ x = ground (arith, e) in
    let (rest, tail) = starts_with_sound ps xs (ground (arith, e)) in (rest, cc (head, tail))

starts_with_append : (p rest : Bytes) → starts_with p (p ++ rest) ≡ true
unfolding starts_with
starts_with_append [] rest = refl
starts_with_append (p ∷ ps) rest = ground (arith, starts_with_append ps rest)

-- `strstr` finds what is there, and nothing else.
pub split_at-Occurs :
    (needle s : Bytes) {r : Bytes × Bytes} → split_at needle s ≡ some r → Occurs needle s
unfolding split_at
split_at-Occurs needle [] e = elim (Bool-cases (starts_with needle [])) [
  | inl here ↦ let (rest, same) = starts_with_sound needle [] here in ([], rest, same)
  | inr not_here ↦ absurd (ground (arith, e, not_here))
]
split_at-Occurs needle (x ∷ xs) e = elim (Bool-cases (starts_with needle (x ∷ xs))) [
  | inl here ↦ let (rest, same) = starts_with_sound needle (x ∷ xs) here in ([], rest, same)
  | inr not_here ↦ elim (Option-cases (split_at needle xs)) [
    | inl missing ↦ absurd (ground (arith, e, not_here, missing))
    | inr (_, later) ↦
        let (front, rest, same) = split_at-Occurs needle xs later in (x ∷ front, rest, cc same)
  ]
]

split_at_here : (needle rest : Bytes) → split_at needle (needle ++ rest) ≢ none
unfolding split_at starts_with
split_at_here [] [] e = ground (arith, e)
split_at_here [] (x ∷ xs) e = ground (arith, e)
split_at_here (n ∷ ns) rest e = ground (arith, e, starts_with_append ns rest)

split_at_append : (needle front rest : Bytes) → split_at needle (front ++ (needle ++ rest)) ≢ none
unfolding split_at
split_at_append needle [] rest e = split_at_here needle rest e
split_at_append needle (x ∷ front) rest e = ground (arith, e, split_at_append needle front rest)

pub split_at-none : (needle s : Bytes) → split_at needle s ≡ none → ¬ (Occurs needle s)
split_at-none needle s e (front, rest, same) =
    split_at_append needle front rest (sym (ap (split_at needle) same) ∙ e)

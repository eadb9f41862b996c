-- ===== src/Provider/Blob/RoundTrip.antt =====
-- The labels that LunaPqcEncodeTemplate writes (Provider/Blob.antt) and LunaPqcDecodeTemplate reads.
use luna_openssl_provider.Prelude.{
  ℕ, zero, suc, ◌+◌, ◌-◌, ◌<◌, ◌≤◌, ◌≡◌, ◌≢◌, refl, ap, Bool, true, false, Option, some, [], ◌∷◌,
  ◌++◌, Bytes, length, take, drop, replicate, arith, take_front, drop_front, length-take,
  length-append, length-replicate, Option-cases, inl, inr,
}
use luna_openssl_provider.Engine.Slotid.{before_zero}
use luna_openssl_provider.Provider.Blob.{
  Template, decoding_failed, labelled, set_labels, luna_pqc_encoding_magic, stored, loaded,
  luna_encode_uint32, luna_prov_test_utf8, test_from, luna_prov_test_utf8_buffer, padded,
  luna_pqc_encode_template_v2, sk_to_pk, luna_pqc_decode_template_v2, luna_pqc_encode_template_v1,
  luna_pqc_decode_template_v1, replace_zeros, padding, luna_pqc_encode_pad_ex,
}

pub length-padded : (n : ℕ) (label : Bytes) → length label ≤ n → length (padded n label) ≡ n
length-padded n label h = omega (
  arith,
  length-take n (label ++ replicate n 0),
  length-append label (replicate n 0),
  length-replicate {A = ℕ} n 0,
)

pub before_zero-take :
    (n m : ℕ) (label : Bytes)
    → length label ≤ n
    → before_zero (take n (label ++ replicate m 0)) ≡ before_zero label
unfolding before_zero
before_zero-take zero m [] h = refl
before_zero-take (suc n) zero [] h = refl
before_zero-take (suc n) (suc m) [] h = refl
before_zero-take zero m (x ∷ xs) h = absurd (omega arith)
before_zero-take (suc n) m (x ∷ xs) h = ground (arith, before_zero-take n m xs)

-- The bytes that pass the test.
unfoldable IsSmall : Bytes → Type 0
IsSmall [] = Unit
IsSmall (x ∷ xs) = (x < 127) × IsSmall xs

test_from-IsSmall :
    (beyond : Bool) (count : ℕ) (xs : Bytes) → test_from beyond count xs ≡ true → IsSmall xs
unfolding test_from IsSmall luna_prov_test_utf8
test_from-IsSmall beyond count [] h = tt
test_from-IsSmall true count (x ∷ xs) h = ground (arith, test_from-IsSmall true count xs)
test_from-IsSmall false count (x ∷ xs) h =
    ground (arith, test_from-IsSmall true count xs, test_from-IsSmall false (count + 1) xs)

-- Printable text is no magic value.
text_is_no_magic :
    (xs rest : Bytes)
    → 4 ≤ length xs
    → IsSmall xs
    → luna_encode_uint32 (loaded (take 4 (xs ++ rest))) ≢ luna_pqc_encoding_magic
unfolding luna_encode_uint32 IsSmall
text_is_no_magic (a ∷ b ∷ c ∷ d ∷ xs) rest h (a_lt, (b_lt, (c_lt, (d_lt, _)))) e = omega arith
text_is_no_magic [] rest h s e = absurd (omega arith)
text_is_no_magic (a ∷ []) rest h s e = absurd (omega arith)
text_is_no_magic (a ∷ b ∷ []) rest h s e = absurd (omega arith)
text_is_no_magic (a ∷ b ∷ c ∷ []) rest h s e = absurd (omega arith)

take-before_zero : (xs : Bytes) → take (length (before_zero xs)) xs ≡ before_zero xs
unfolding before_zero
take-before_zero [] = refl
take-before_zero (x ∷ xs) = ground (arith, take-before_zero xs)

take-sk_to_pk :
    (xs : Bytes) → take (length (before_zero xs)) (sk_to_pk xs) ≡ sk_to_pk (before_zero xs)
unfolding before_zero sk_to_pk
take-sk_to_pk [] = refl
take-sk_to_pk (s ∷ []) = ground arith
take-sk_to_pk (s ∷ k ∷ rest) = ground (arith, take-before_zero rest)

abbrev pub v2_blob : Bytes → Bytes → Bytes
v2_blob label rest =
    replicate 4 0 ++ (stored (luna_encode_uint32 luna_pqc_encoding_magic) ++ (label ++ rest))

abbrev pub v1_blob : Bytes → Bytes → Bytes → Bytes
v1_blob priv pub_ rest = replicate 4 0 ++ (priv ++ (pub_ ++ rest))

-- What the encoders have checked, and what they write.
module _ (pub_t priv_t : Template) (dest : Bytes) {blob : Bytes} where
  pub encode_v2_inv :
      luna_pqc_encode_template_v2 pub_t priv_t (some dest) ≡ some blob
      → (length priv_t.label.value ≤ 24)
        × (luna_prov_test_utf8_buffer (padded 24 priv_t.label.value) ≡ true)
        × (32 ≤ length dest)
        × (blob ≡ v2_blob (padded 24 priv_t.label.value) (drop 32 dest))
  unfolding luna_pqc_encode_template_v2
  encode_v2_inv e = ground (arith, e)

  pub encode_v1_inv :
      luna_pqc_encode_template_v1 pub_t priv_t (some dest) ≡ some blob
      → (length priv_t.label.value ≤ 30)
        × (length pub_t.label.value ≤ 30)
        × (luna_prov_test_utf8_buffer (padded 30 priv_t.label.value) ≡ true)
        × (luna_prov_test_utf8_buffer (padded 30 pub_t.label.value) ≡ true)
        × (64 ≤ length dest)
        × (blob
            ≡ v1_blob (padded 30 priv_t.label.value) (padded 30 pub_t.label.value) (drop 64 dest))
  unfolding luna_pqc_encode_template_v1
  encode_v1_inv e = ground (arith, e)

pub length-v2_blob :
    (label rest : Bytes) → length (v2_blob label rest) ≡ 8 + length label + length rest
length-v2_blob label rest = omega (arith, length-append label rest)

pub length-v1_blob :
    (priv pub_ rest : Bytes)
    → length (v1_blob priv pub_ rest) ≡ 4 + length priv + length pub_ + length rest
length-v1_blob priv pub_ rest =
    omega (arith, length-append priv (pub_ ++ rest), length-append pub_ rest)

module _ (pub_t priv_t : Template) (ok : labelled pub_t priv_t ≡ true) where
  pub decode_v2_blob :
      (label rest : Bytes)
      → length label ≡ 24
      → luna_prov_test_utf8_buffer label ≡ true
      → luna_pqc_decode_template_v2 pub_t priv_t (some (v2_blob label rest))
        ≡ set_labels pub_t priv_t (sk_to_pk (before_zero label)) (before_zero label)
  unfolding luna_pqc_decode_template_v2 luna_encode_uint32
  decode_v2_blob label rest n u =
      rw (ok, take_front 24 label rest n, u, take-sk_to_pk label)
        (ground (arith, length-append label rest))

  pub decode_v2_text :
      (priv pub_ rest : Bytes)
      → length priv ≡ 30
      → luna_prov_test_utf8_buffer priv ≡ true
      → luna_pqc_decode_template_v2 pub_t priv_t (some (v1_blob priv pub_ rest)) ≡ decoding_failed
  unfolding luna_pqc_decode_template_v2 luna_prov_test_utf8_buffer
  decode_v2_text priv pub_ rest n u =
      ground (
        arith,
        text_is_no_magic priv (pub_ ++ rest) (omega arith) (test_from-IsSmall false 0 priv u),
      )

  pub decode_v1_blob :
      (priv pub_ rest : Bytes)
      → length priv ≡ 30
      → length pub_ ≡ 30
      → luna_prov_test_utf8_buffer priv ≡ true
      → luna_prov_test_utf8_buffer pub_ ≡ true
      → luna_pqc_decode_template_v1 pub_t priv_t (some (v1_blob priv pub_ rest))
        ≡ set_labels pub_t priv_t (before_zero pub_) (before_zero priv)
  unfolding luna_pqc_decode_template_v1
  decode_v1_blob priv pub_ rest n n' u u' =
      rw
        (
          ok,
          take_front 30 priv (pub_ ++ rest) n,
          drop_front 30 priv (pub_ ++ rest) n,
          take_front 30 pub_ rest n',
          u,
          u',
        )
        (ground (arith, length-append priv (pub_ ++ rest), length-append pub_ rest))

-- luna_RAND_bytes answers with as many bytes as it is asked for.
abbrev pub GivesLength : (ℕ → Option Bytes) → Type 0
GivesLength rand_bytes = (n : ℕ) (bytes : Bytes) → rand_bytes n ≡ some bytes → length bytes ≡ n

length-replace_zeros : (i : ℕ) (xs : Bytes) → length (replace_zeros i xs) ≡ length xs
unfolding replace_zeros
length-replace_zeros i [] = refl
length-replace_zeros i (x ∷ xs) = ap suc (length-replace_zeros (i + 1) xs)

length_padded_buffer :
    (buf random : Bytes) (fixedlen version : ℕ)
    → length buf ≡ fixedlen + 3 + length random
    → length (take fixedlen buf ++ padding version random) ≡ length buf
length_padded_buffer buf random fixedlen version e = omega (
  arith,
  length-append (take fixedlen buf) (padding version random),
  length-take fixedlen buf,
  length-append (replace_zeros 0 random) (0 ∷ []),
  length-replace_zeros 0 random,
)

module _ (rand_bytes : ℕ → Option Bytes) (gives : GivesLength rand_bytes) where
  pub length-luna_pqc_encode_pad_ex :
      (buf : Bytes) (fixedlen version : ℕ) {padded_buf : Bytes}
      → luna_pqc_encode_pad_ex rand_bytes buf fixedlen version ≡ some padded_buf
      → length padded_buf ≡ length buf
  unfolding luna_pqc_encode_pad_ex
  length-luna_pqc_encode_pad_ex buf fixedlen version e =
      let padlen = length buf - fixedlen in
      elim (Option-cases (rand_bytes (padlen - 3))) [
        | inl p ↦ ground (arith, e, p, length_padded_buffer buf [] fixedlen version)
        | inr (random, p) ↦ ground (
          arith,
          e,
          p,
          gives (padlen - 3) random p,
          length_padded_buffer buf [] fixedlen version,
          length_padded_buffer buf random fixedlen version,
        )
      ]

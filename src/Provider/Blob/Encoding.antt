-- ===== src/Provider/Blob/Encoding.antt =====
-- When the encodings of Provider/Blob.antt succeed.
use luna_openssl_provider.Prelude.{
  ℕ, ◌-◌, ◌≤◌, ◌≡◌, true, Option, some, Bytes, length, drop, arith, Option-cases, inl, inr,
}
use luna_openssl_provider.Provider.Base64.{IsBytes}
use luna_openssl_provider.Provider.Blob.{
  Template, labelled, padded, luna_pqc_encode_template_v2, luna_pqc_encode_template_v1,
  luna_pqc_encode_pad_ex, luna_prov_max_buffer,
}
use luna_openssl_provider.Provider.Blob.RoundTrip.{GivesLength, v1_blob, v2_blob}
use luna_openssl_provider.Provider.Blob.Text.{IsText, luna_prov_test_utf8_buffer-IsText}

-- luna_RAND_bytes works: it gives as many bytes as it is asked for.
pub record RandRules (rand_bytes : ℕ → Option Bytes) : Type 0 where
  pub answer : ℕ → Bytes
  pub answers : (n : ℕ) → rand_bytes n ≡ some (answer n)
  pub length_answer : (n : ℕ) → length (answer n) ≡ n
  pub answer_IsBytes : (n : ℕ) → IsBytes (answer n)

module _ {rand_bytes : ℕ → Option Bytes} (rules : RandRules rand_bytes) where
  pub RandRules-GivesLength : GivesLength rand_bytes
  RandRules-GivesLength n bytes e =
      let same : bytes ≡ rules.answer n = ground (arith, e, rules.answers n) in
      rw same (rules.length_answer n)

  pub pad_succeeds :
      (buf : Bytes) (fixedlen version : ℕ)
      → fixedlen ≤ length buf
      → length buf ≤ luna_prov_max_buffer
      → (b : Bytes) × (luna_pqc_encode_pad_ex rand_bytes buf fixedlen version ≡ some b)
  unfolding luna_pqc_encode_pad_ex
  pad_succeeds buf fixedlen version low high =
      elim (Option-cases (luna_pqc_encode_pad_ex rand_bytes buf fixedlen version)) [
        | inl p ↦ absurd (ground (arith, p, rules.answers (length buf - fixedlen - 3)))
        | inr b ↦ b
      ]

-- A label of `n` bytes at most, which is printable.
abbrev pub Fits : ℕ → Bytes → Type 0
Fits n label = IsText label × (1 ≤ length label) × (length label ≤ n)

module _ (p q : Template) (ok : labelled p q ≡ true) (dest : Bytes) where
  pub encode_v2_succeeds :
      Fits 24 p.label.value
      → Fits 24 q.label.value
      → 32 ≤ length dest
      → luna_pqc_encode_template_v2 p q (some dest)
        ≡ some (v2_blob (padded 24 q.label.value) (drop 32 dest))
  unfolding luna_pqc_encode_template_v2
  encode_v2_succeeds f (text, some_, fits) room =
      rw (ok, luna_prov_test_utf8_buffer-IsText 24 q.label.value text some_ fits) (ground arith)

  pub encode_v1_succeeds :
      Fits 30 p.label.value
      → Fits 30 q.label.value
      → 64 ≤ length dest
      → luna_pqc_encode_template_v1 p q (some dest)
        ≡ some (v1_blob (padded 30 q.label.value) (padded 30 p.label.value) (drop 64 dest))
  unfolding luna_pqc_encode_template_v1
  encode_v1_succeeds (text', some_', fits') (text, some_, fits) room =
      rw
        (
          ok,
          luna_prov_test_utf8_buffer-IsText 30 q.label.value text some_ fits,
          luna_prov_test_utf8_buffer-IsText 30 p.label.value text' some_' fits',
        )
        (ground arith)

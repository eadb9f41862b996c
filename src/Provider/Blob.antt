-- ===== src/Provider/Blob.antt =====
-- The labels of a key pair in its private key blob: the templates of lunaProvider/lunaPqcSig.c, from
-- luna_encode_uint32 to LunaPqcFillTemplate, and luna_sprintf_hex of engine/e_gem.c. An assertion that
-- fails ends the process, `none` in the encoders. luna_RAND_bytes is an argument, with `none` for a
-- failure. A blob is `none` for NULL, and `privkeylen` is its length. The host is little-endian.
pub mod RoundTrip
pub mod Text
pub mod Labels
pub mod Encoding
pub mod Filling
use luna_openssl_provider.Prelude.{
  ℕ, zero, suc, ◌+◌, ◌-◌, ◌*◌, ◌/◌, ◌%◌, ◌^◌, Bool, true, false, not, ◌&&◌, ◌||◌, Option, none,
  some, [], ◌∷◌, ◌++◌, Bytes, length, take, drop, replicate, ltb, leb, ◌==◌, if◌then◌else◌,
}
use luna_openssl_provider.Engine.Slotid.{before_zero}
use luna_openssl_provider.Provider.Base64.{luna_sprintf_base64url}

abbrev pub cka_label : ℕ
cka_label = 0x3

abbrev pub cka_id : ℕ
cka_id = 0x102

pub record Attribute : Type 0 where
  pub attr_type : ℕ
  pub value : Bytes

-- The first two attributes of a template: CKA_LABEL and CKA_ID.
pub record Template : Type 0 where
  pub label : Attribute
  pub ident : Attribute

abbrev pub set_value : Attribute → Bytes → Attribute
set_value a v = record a { value = v }

abbrev pub labelled : Template → Template → Bool
labelled pub_t priv_t = pub_t.label.attr_type == cka_label && priv_t.label.attr_type == cka_label

-- CK_RV of a decoder, with the labels that it sets: CKR_OK, CKR_ARGUMENTS_BAD or
-- CKR_OBJECT_DECODING_FAILED.
pub data Decoded : Type 0 where
  decoded : Template → Template → Decoded
  arguments_bad : Decoded
  decoding_failed : Decoded

abbrev pub luna_pqc_encoding_magic : ℕ
luna_pqc_encoding_magic = 0x80cafe82

-- ENCODE_UINT32
abbrev pub encode_uint32 : ℕ → Bytes
encode_uint32 v = (v / 2 ^ 24 % 256) ∷ (v / 2 ^ 16 % 256) ∷ (v / 2 ^ 8 % 256) ∷ (v % 256) ∷ []

-- An `unsigned` in memory, and what is read from memory.
abbrev pub stored : ℕ → Bytes
stored v = (v % 256) ∷ (v / 2 ^ 8 % 256) ∷ (v / 2 ^ 16 % 256) ∷ (v / 2 ^ 24 % 256) ∷ []

abbrev pub loaded : Bytes → ℕ
loaded [] = 0
loaded (x ∷ xs) = x + 256 * loaded xs

unfoldable pub luna_encode_uint32 : ℕ → ℕ
luna_encode_uint32 rvalue = loaded (encode_uint32 rvalue)

-- true is the return value 0
unfoldable pub luna_prov_test_utf8 : ℕ → Bool
luna_prov_test_utf8 ch = if ch == 0 then false else if ltb ch 0x20 then false else leb ch 126

-- The loop, with `beyondEndOfString` and `count`.
unfoldable pub test_from : Bool → ℕ → Bytes → Bool
test_from beyond count [] = leb 1 count
test_from true count (c ∷ cs) = if not (c == 0) then false else test_from true count cs
test_from false count (c ∷ cs) = elim (c == 0) [
  | true ↦ test_from true count cs
  | false ↦ elim (luna_prov_test_utf8 c) [ false ↦ false | true ↦ test_from false (count + 1) cs ]
]

unfoldable pub luna_prov_test_utf8_buffer : Bytes → Bool
luna_prov_test_utf8_buffer buf = test_from false 0 buf

-- A label in its array of `n` bytes, which were cleared before.
abbrev pub padded : ℕ → Bytes → Bytes
padded n label = take n (label ++ replicate n 0)

unfoldable pub luna_pqc_encode_template_v2 : Template → Template → Option Bytes → Option Bytes
luna_pqc_encode_template_v2 pub_t priv_t none = none
luna_pqc_encode_template_v2 pub_t priv_t (some dest) =
    let label = padded 24 priv_t.label.value in
    if not (labelled pub_t priv_t)
    then none
    else if ltb 24 (length pub_t.label.value) || ltb 24 (length priv_t.label.value)
    then none
    else if not (luna_prov_test_utf8_buffer label)
    then none
    else if ltb (length dest) 32
    then none
    else some (
        replicate 4 0
        ++ (stored (luna_encode_uint32 luna_pqc_encoding_magic) ++ (label ++ drop 32 dest)))

-- "sk" in front becomes "pk".
unfoldable pub sk_to_pk : Bytes → Bytes
sk_to_pk [] = []
sk_to_pk (s ∷ []) = s ∷ []
sk_to_pk (s ∷ k ∷ rest) = if s == b's' && k == b'k' then b'p' ∷ k ∷ rest else s ∷ k ∷ rest

abbrev pub set_labels : Template → Template → Bytes → Bytes → Decoded
set_labels pub_t priv_t pub_label priv_label =
    decoded (record pub_t { label = set_value pub_t.label pub_label })
      (record priv_t { label = set_value priv_t.label priv_label })

unfoldable pub luna_pqc_decode_template_v2 : Template → Template → Option Bytes → Decoded
luna_pqc_decode_template_v2 pub_t priv_t none = arguments_bad
luna_pqc_decode_template_v2 pub_t priv_t (some src) =
    let magic = luna_encode_uint32 (loaded (take 4 (drop 4 src))) in
    let label = take 24 (drop 8 src) in
    if not (labelled pub_t priv_t)
    then arguments_bad
    else if ltb (length src) 32
    then decoding_failed
    else if not (magic == luna_pqc_encoding_magic)
    then decoding_failed
    else if not (luna_prov_test_utf8_buffer label)
    then decoding_failed
    else set_labels pub_t priv_t (take (length (before_zero label)) (sk_to_pk label))
        (before_zero label)

unfoldable pub luna_pqc_encode_template_v1 : Template → Template → Option Bytes → Option Bytes
luna_pqc_encode_template_v1 pub_t priv_t none = none
luna_pqc_encode_template_v1 pub_t priv_t (some dest) =
    let priv = padded 30 priv_t.label.value in
    let pub_ = padded 30 pub_t.label.value in
    if not (labelled pub_t priv_t)
    then none
    else if ltb 30 (length pub_t.label.value) || ltb 30 (length priv_t.label.value)
    then none
    else if not (luna_prov_test_utf8_buffer priv) || not (luna_prov_test_utf8_buffer pub_)
    then none
    else if ltb (length dest) 64
    then none
    else some (replicate 4 0 ++ (priv ++ (pub_ ++ drop 64 dest)))

unfoldable pub luna_pqc_decode_template_v1 : Template → Template → Option Bytes → Decoded
luna_pqc_decode_template_v1 pub_t priv_t none = arguments_bad
luna_pqc_decode_template_v1 pub_t priv_t (some src) =
    let priv = take 30 (drop 4 src) in
    let pub_ = take 30 (drop 34 src) in
    if not (labelled pub_t priv_t)
    then arguments_bad
    else if ltb (length src) 64
    then decoding_failed
    else if not (luna_prov_test_utf8_buffer priv) || not (luna_prov_test_utf8_buffer pub_)
    then decoding_failed
    else set_labels pub_t priv_t (before_zero pub_) (before_zero priv)

-- The loop that replaces zeros, from `i`.
unfoldable pub replace_zeros : ℕ → Bytes → Bytes
replace_zeros i [] = []
replace_zeros i (x ∷ xs) =
    (if x == 0 then (if i % 256 == 0 then 0x7f else i % 256) else x) ∷ replace_zeros (i + 1) xs

abbrev pub luna_prov_max_buffer : ℕ
luna_prov_max_buffer = 64 * 1024 - 16

abbrev pub padding : ℕ → Bytes → Bytes
padding version random = 0 ∷ version ∷ (replace_zeros 0 random ++ 0 ∷ [])

module _ (rand_bytes : ℕ → Option Bytes) where
  unfoldable pub luna_pqc_encode_pad_ex : Bytes → ℕ → ℕ → Option Bytes
  luna_pqc_encode_pad_ex buf fixedlen version =
      let padlen = length buf - fixedlen in
      if ltb luna_prov_max_buffer (length buf)
      then none
      else if ltb (length buf) fixedlen
      then none
      else if ltb padlen 3
      then some buf
      else if padlen == 3
      then some (take fixedlen buf ++ padding version [])
      else elim (rand_bytes (padlen - 3)) [
        | none ↦ none
        | some random ↦ some (take fixedlen buf ++ padding version random)
      ]

  -- The encoders by version, after the padding.
  unfoldable pub luna_pqc_encode_template : Template → Template → Bytes → Option Bytes
  luna_pqc_encode_template pub_t priv_t privkey =
      if ltb (length privkey) 32
      then none
      else if ltb (length privkey) 64
      then elim (luna_pqc_encode_pad_ex privkey 32 0x02) [
        | none ↦ none
        | some buf ↦ luna_pqc_encode_template_v2 pub_t priv_t (some buf)
      ]
      else elim (luna_pqc_encode_pad_ex privkey 64 0x01) [
        | none ↦ none
        | some buf ↦ luna_pqc_encode_template_v1 pub_t priv_t (some buf)
      ]

unfoldable pub luna_pqc_decode_template : Template → Template → Option Bytes → Decoded
luna_pqc_decode_template pub_t priv_t none = arguments_bad
luna_pqc_decode_template pub_t priv_t (some src) =
    if not (labelled pub_t priv_t)
    then arguments_bad
    else if ltb (length src) 32
    then arguments_bad
    else elim (luna_pqc_decode_template_v2 pub_t priv_t (some src)) [
      | decoded p q ↦ decoded p q
      | arguments_bad ↦ arguments_bad
      | decoding_failed ↦
          if ltb (length src) 64
          then decoding_failed
          else luna_pqc_decode_template_v1 pub_t priv_t (some src)
    ]

-- "%x" of a number below 16
unfoldable pub hex_digit : ℕ → ℕ
hex_digit d = if ltb d 10 then b'0' + d else b'a' + (d - 10)

unfoldable pub luna_sprintf_hex : Bytes → Bytes
luna_sprintf_hex [] = []
luna_sprintf_hex (x ∷ xs) = hex_digit (x / 16) ∷ hex_digit (x % 16) ∷ luna_sprintf_hex xs

abbrev pub set_ident : Template → Bytes → Template
set_ident t id =
    if t.ident.attr_type == cka_id then record t { ident = set_value t.ident id } else t

-- The labels and ids for the version; `none` is CKR_GENERAL_ERROR.
unfoldable pub luna_pqc_fill_template_ex :
    (ℕ → Option Bytes) → Template → Template → Bool → Option (Template × Template)
luna_pqc_fill_template_ex rand_bytes pub_t priv_t base64url =
    if not (labelled pub_t priv_t) then none else elim (rand_bytes 16) [
      | none ↦ none
      | some id ↦
          let text =
            if base64url then luna_sprintf_base64url id else luna_sprintf_hex (take 14 id) in
          let idlen : ℕ = if base64url then 16 else 14 in
          some (
            set_ident (record pub_t { label = set_value pub_t.label (b'p' ∷ b'k' ∷ text) })
                (take idlen id),
            set_ident (record priv_t { label = set_value priv_t.label (b's' ∷ b'k' ∷ text) })
                (take idlen id),
          )
    ]

unfoldable pub luna_pqc_fill_template :
    (ℕ → Option Bytes) → Template → Template → ℕ → Option (Template × Template)
luna_pqc_fill_template rand_bytes pub_t priv_t privkeylen =
    if ltb privkeylen 32
    then none
    else if ltb privkeylen 64
    then luna_pqc_fill_template_ex rand_bytes pub_t priv_t true
    else luna_pqc_fill_template_ex rand_bytes pub_t priv_t false

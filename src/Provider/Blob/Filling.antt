-- ===== src/Provider/Blob/Filling.antt =====
-- From random bytes to a private key blob and back (Provider/Blob.antt): no assertion fails, and the
-- labels of a new key pair are read from its blob.
use luna_openssl_provider.Prelude.{
  ℕ, ◌≤◌, ◌≡◌, ◌≢◌, ◌∙◌, refl, ap, Bool, true, false, Option, some, ◌∷◌, Bytes, length, take, drop,
  ltb, if◌then◌else◌, arith, Bool-cases, inl, inr, length-take,
}
use luna_openssl_provider.Provider.Base64.{luna_sprintf_base64url, length-luna_sprintf_base64url}
use luna_openssl_provider.Provider.Blob.{
  Template, labelled, set_labels, set_value, set_ident, padded, sk_to_pk, luna_pqc_encode_template,
  luna_prov_max_buffer, luna_pqc_decode_template, luna_sprintf_hex, luna_pqc_fill_template_ex,
  luna_pqc_fill_template,
}
use luna_openssl_provider.Provider.Blob.RoundTrip.{v1_blob, v2_blob, length-luna_pqc_encode_pad_ex}
use luna_openssl_provider.Provider.Blob.Text.{
  IsText, before_zero-IsText, luna_sprintf_base64url-IsText, luna_sprintf_hex-IsText,
  length-luna_sprintf_hex, IsBytes-take,
}
use luna_openssl_provider.Provider.Blob.Labels.{
  luna_pqc_decode_template-luna_pqc_encode_template, kept_labels,
}
use luna_openssl_provider.Provider.Blob.Encoding.{
  RandRules, RandRules-GivesLength, pad_succeeds, Fits, encode_v2_succeeds, encode_v1_succeeds,
}

module _ {rand_bytes : ℕ → Option Bytes} (rules : RandRules rand_bytes) (pub_t priv_t : Template)
    (ok : labelled pub_t priv_t ≡ true) where
  abbrev new_text : Bool → Bytes
  new_text base64url =
      if base64url
      then luna_sprintf_base64url (rules.answer 16)
      else luna_sprintf_hex (take 14 (rules.answer 16))

  abbrev new_ident : Bool → Bytes
  new_ident base64url = take (if base64url then 16 else 14) (rules.answer 16)

  abbrev new_pub : Bool → Template
  new_pub b =
      set_ident (record pub_t { label = set_value pub_t.label (b'p' ∷ b'k' ∷ new_text b) })
        (new_ident b)

  abbrev new_priv : Bool → Template
  new_priv b =
      set_ident (record priv_t { label = set_value priv_t.label (b's' ∷ b'k' ∷ new_text b) })
        (new_ident b)

  fill_ex_succeeds :
      (b : Bool)
      → luna_pqc_fill_template_ex rand_bytes pub_t priv_t b ≡ some (new_pub b, new_priv b)
  unfolding luna_pqc_fill_template_ex
  fill_ex_succeeds b = rw (ok, rules.answers 16) refl

  new_labelled : (b : Bool) → labelled (new_pub b) (new_priv b) ≡ true
  new_labelled b = ground (arith, ok)

  new_pub_label : (b : Bool) → (new_pub b).label.value ≡ b'p' ∷ b'k' ∷ new_text b
  new_pub_label b = ground arith

  new_priv_label : (b : Bool) → (new_priv b).label.value ≡ b's' ∷ b'k' ∷ new_text b
  new_priv_label b = ground arith

  new_text-IsText : (b : Bool) → IsText (new_text b)
  new_text-IsText true = luna_sprintf_base64url-IsText (rules.answer 16)
  new_text-IsText false =
      luna_sprintf_hex-IsText (take 14 (rules.answer 16))
        (IsBytes-take 14 (rules.answer 16) (rules.answer_IsBytes 16))

  length-new_text : (b : Bool) → length (new_text b) ≡ (if b then 22 else 28)
  length-new_text true =
      omega (arith, length-luna_sprintf_base64url (rules.answer 16), rules.length_answer 16)
  length-new_text false = omega (
    arith,
    length-luna_sprintf_hex (take 14 (rules.answer 16)),
    length-take 14 (rules.answer 16),
    rules.length_answer 16,
  )

  text-Fits :
      (b : Bool) (c : ℕ) → 32 ≤ c → c ≤ 126 → Fits (if b then 24 else 30) (c ∷ b'k' ∷ new_text b)
  unfolding IsText
  text-Fits b c low high = (
    (low, high, (omega arith, omega arith, new_text-IsText b)),
    omega arith,
    ground (arith, length-new_text b),
  )

  new_pub-Fits : (b : Bool) → Fits (if b then 24 else 30) (new_pub b).label.value
  new_pub-Fits b = rw (new_pub_label b) (text-Fits b b'p' (omega arith) (omega arith))

  new_priv-Fits : (b : Bool) → Fits (if b then 24 else 30) (new_priv b).label.value
  new_priv-Fits b = rw (new_priv_label b) (text-Fits b b's' (omega arith) (omega arith))

  new_kept :
      (n : ℕ)
      → kept_labels n (new_pub (ltb n 64)) (new_priv (ltb n 64))
        ≡ ((new_pub (ltb n 64)).label.value, (new_priv (ltb n 64)).label.value)
  unfolding sk_to_pk
  new_kept n =
      let b = ltb n 64 in
      rw
        (
          before_zero-IsText (new_pub b).label.value (new_pub-Fits b).0,
          before_zero-IsText (new_priv b).label.value (new_priv-Fits b).0,
        )
        (ground (arith, new_pub_label b, new_priv_label b))

  encode_succeeds :
      (privkey : Bytes) (b : Bool)
      → ltb (length privkey) 64 ≡ b
      → 32 ≤ length privkey
      → length privkey ≤ luna_prov_max_buffer
      → (blob : Bytes) × (luna_pqc_encode_template rand_bytes (new_pub b) (new_priv b) privkey
          ≡ some blob)
  unfolding luna_pqc_encode_template
  encode_succeeds privkey true e low high =
      let (buf, p) = pad_succeeds rules privkey 32 0x02 low high in
      let len =
        length-luna_pqc_encode_pad_ex rand_bytes (RandRules-GivesLength rules) privkey 32 0x02 p in
      let done =
        encode_v2_succeeds (new_pub true) (new_priv true) (new_labelled true) buf
          (new_pub-Fits true) (new_priv-Fits true) (omega arith) in
      (
        v2_blob (padded 24 (new_priv true).label.value) (drop 32 buf),
        rw (e, p, done) (ground arith),
      )
  encode_succeeds privkey false e low high =
      let large : 64 ≤ length privkey = ground (arith, e) in
      let (buf, p) = pad_succeeds rules privkey 64 0x01 large high in
      let len =
        length-luna_pqc_encode_pad_ex rand_bytes (RandRules-GivesLength rules) privkey 64 0x01 p in
      let done =
        encode_v1_succeeds (new_pub false) (new_priv false) (new_labelled false) buf
          (new_pub-Fits false) (new_priv-Fits false) (omega arith) in
      (
        v1_blob (padded 30 (new_priv false).label.value) (padded 30 (new_pub false).label.value)
            (drop 64 buf),
        rw (e, p, done) (ground arith),
      )

  fill_refused :
      (n : ℕ) {r : Template × Template}
      → ltb n 32 ≡ true
      → luna_pqc_fill_template rand_bytes pub_t priv_t n ≢ some r
  unfolding luna_pqc_fill_template
  fill_refused n low = ground (arith, low)

  fill_succeeds :
      (n : ℕ) (b : Bool)
      → ltb n 64 ≡ b
      → 32 ≤ n
      → luna_pqc_fill_template rand_bytes pub_t priv_t n ≡ some (new_pub b, new_priv b)
  unfolding luna_pqc_fill_template
  fill_succeeds n true e low = rw (e, fill_ex_succeeds true) (ground arith)
  fill_succeeds n false e low = rw (e, fill_ex_succeeds false) (ground arith)

  -- The labels of a new key pair are kept by a blob for the buffer that they were made for.
  pub fill-kept_labels :
      (n : ℕ) {p q : Template}
      → luna_pqc_fill_template rand_bytes pub_t priv_t n ≡ some (p, q)
      → kept_labels n p q ≡ (p.label.value, q.label.value)
  fill-kept_labels n {p} {q} e = elim (Bool-cases (ltb n 32)) [
    | inl low ↦ absurd (fill_refused n low e)
    | inr high ↦
        let b = ltb n 64 in
        let done = fill_succeeds n b refl (ground (arith, high)) in
        let p_new : p ≡ new_pub b = cc (e, done) in
        let q_new : q ≡ new_priv b = cc (e, done) in rw (p_new, q_new) (new_kept n)
  ]

  -- With a luna_RAND_bytes that works and a private key buffer of 32 to 65520 bytes, filling two
  -- templates that begin with a label succeeds, no assertion of LunaPqcEncodeTemplate fails on them,
  -- and the blob that it leaves gives the very labels of the new key pair to LunaPqcDecodeTemplate.
  pub luna_pqc_fill_template-luna_pqc_decode_template :
      (pub_t' priv_t' : Template) (privkey : Bytes)
      → labelled pub_t' priv_t' ≡ true
      → 32 ≤ length privkey
      → length privkey ≤ luna_prov_max_buffer
      → (p : Template) × (q : Template) × (blob : Bytes) × (luna_pqc_fill_template rand_bytes pub_t
            priv_t
            (length privkey)
          ≡ some (p, q))
        × (luna_pqc_encode_template rand_bytes p q privkey ≡ some blob)
        × (luna_pqc_decode_template pub_t' priv_t' (some blob)
            ≡ set_labels pub_t' priv_t' p.label.value q.label.value)
  luna_pqc_fill_template-luna_pqc_decode_template pub_t' priv_t' privkey ok' low high =
      let b = ltb (length privkey) 64 in
      let (blob, e) = encode_succeeds privkey b refl low high in
      let (_, read) =
        luna_pqc_decode_template-luna_pqc_encode_template rand_bytes (RandRules-GivesLength rules)
          (new_pub b) (new_priv b) pub_t' priv_t' ok' privkey e in
      (
        new_pub b,
        new_priv b,
        blob,
        fill_succeeds (length privkey) b refl low,
        e,
        read
            ∙ ap (λ (l : Bytes × Bytes). set_labels pub_t' priv_t' l.0 l.1)
                (new_kept (length privkey)),
      )

-- ===== src/Provider/Blob/Labels.antt =====
-- A key pair is found again by the labels in its private key blob (Provider/Blob.antt).
use luna_openssl_provider.Prelude.{
  ℕ, ◌≤◌, ◌≡◌, ◌∙◌, true, Option, some, Bytes, length, drop, ltb, if◌then◌else◌, arith, Bool-cases,
  Option-cases, inl, inr, length-drop,
}
use luna_openssl_provider.Engine.Slotid.{before_zero}
use luna_openssl_provider.Provider.Blob.{
  Template, decoded, decoding_failed, labelled, set_labels, padded, luna_pqc_encode_template_v2,
  sk_to_pk, luna_pqc_decode_template_v2, luna_pqc_encode_template_v1, luna_pqc_decode_template_v1,
  luna_pqc_encode_pad_ex, luna_pqc_encode_template, luna_pqc_decode_template,
}
use luna_openssl_provider.Provider.Blob.RoundTrip.{
  GivesLength, encode_v1_inv, encode_v2_inv, v1_blob, v2_blob, length-v1_blob, length-v2_blob,
  decode_v2_blob, decode_v2_text, decode_v1_blob, length-padded, before_zero-take,
  length-luna_pqc_encode_pad_ex,
}

module _ (pub_t priv_t : Template) (ok : labelled pub_t priv_t ≡ true) (blob : Bytes) where
  decode_by_v2 :
      (p q : Template)
      → 32 ≤ length blob
      → luna_pqc_decode_template_v2 pub_t priv_t (some blob) ≡ decoded p q
      → luna_pqc_decode_template pub_t priv_t (some blob) ≡ decoded p q
  unfolding luna_pqc_decode_template
  decode_by_v2 p q n e = rw (ok, e) (ground arith)

  decode_by_v1 :
      64 ≤ length blob
      → luna_pqc_decode_template_v2 pub_t priv_t (some blob) ≡ decoding_failed
      → luna_pqc_decode_template pub_t priv_t (some blob)
        ≡ luna_pqc_decode_template_v1 pub_t priv_t (some blob)
  unfolding luna_pqc_decode_template
  decode_by_v1 n e = rw (ok, e) (ground arith)

module _ (pub_t priv_t pub_t' priv_t' : Template) (ok : labelled pub_t' priv_t' ≡ true) where
  decode-encode_v2 :
      (dest : Bytes) {blob : Bytes}
      → luna_pqc_encode_template_v2 pub_t priv_t (some dest) ≡ some blob
      → (length blob ≡ length dest)
        × (luna_pqc_decode_template pub_t' priv_t' (some blob)
            ≡ set_labels pub_t' priv_t'
                (sk_to_pk (before_zero priv_t.label.value))
                (before_zero priv_t.label.value))
  decode-encode_v2 dest {blob} e =
      let (fits, tested, room, laid) = encode_v2_inv pub_t priv_t dest e in
      let label = padded 24 priv_t.label.value in
      let whole = length-padded 24 priv_t.label.value fits in
      let long : length (v2_blob label (drop 32 dest)) ≡ length dest =
        omega (arith, length-v2_blob label (drop 32 dest), length-drop 32 dest) in
      let read = decode_v2_blob pub_t' priv_t' ok label (drop 32 dest) whole tested in
      rw laid (
        long,
        rw (← before_zero-take 24 24 priv_t.label.value fits)
            (decode_by_v2 pub_t' priv_t' ok (v2_blob label (drop 32 dest)) _ _ (omega arith) read),
      )

  decode-encode_v1 :
      (dest : Bytes) {blob : Bytes}
      → luna_pqc_encode_template_v1 pub_t priv_t (some dest) ≡ some blob
      → (length blob ≡ length dest)
        × (luna_pqc_decode_template pub_t' priv_t' (some blob)
            ≡ set_labels pub_t' priv_t'
                (before_zero pub_t.label.value)
                (before_zero priv_t.label.value))
  decode-encode_v1 dest {blob} e =
      let (fits, fits', tested, tested', room, laid) = encode_v1_inv pub_t priv_t dest e in
      let label = padded 30 priv_t.label.value in
      let label' = padded 30 pub_t.label.value in
      let whole = length-padded 30 priv_t.label.value fits in
      let whole' = length-padded 30 pub_t.label.value fits' in
      let rest = drop 64 dest in
      let long : length (v1_blob label label' rest) ≡ length dest =
        omega (arith, length-v1_blob label label' rest, length-drop 64 dest) in
      let no_v2 = decode_v2_text pub_t' priv_t' ok label label' rest whole tested in
      let read = decode_v1_blob pub_t' priv_t' ok label label' rest whole whole' tested tested' in
      rw laid (
        long,
        rw
            (
              ← before_zero-take 30 30 priv_t.label.value fits,
              ← before_zero-take 30 30 pub_t.label.value fits',
            )
            (decode_by_v1 pub_t' priv_t' ok (v1_blob label label' rest) (omega arith) no_v2 ∙ read),
      )

-- The labels that LunaPqcDecodeTemplate gives for a blob of `n` bytes with these labels: the blob of
-- fewer than 64 bytes has room for the private label only.
abbrev pub kept_labels : ℕ → Template → Template → Bytes × Bytes
kept_labels n pub_t priv_t = (
  if ltb n 64 then sk_to_pk (before_zero priv_t.label.value) else before_zero pub_t.label.value,
  before_zero priv_t.label.value,
)

module _ (rand_bytes : ℕ → Option Bytes) (gives : GivesLength rand_bytes)
    (pub_t priv_t pub_t' priv_t' : Template) (ok : labelled pub_t' priv_t' ≡ true) where
  -- Whatever labels LunaPqcEncodeTemplate has written into a private key blob of any size,
  -- LunaPqcDecodeTemplate reads them from it, each up to its first 0, into templates that begin with
  -- a label; from a blob of fewer than 64 bytes the public label is the private one with "pk" for
  -- "sk". The blob keeps its length.
  pub luna_pqc_decode_template-luna_pqc_encode_template :
      (privkey : Bytes) {blob : Bytes}
      → luna_pqc_encode_template rand_bytes pub_t priv_t privkey ≡ some blob
      → (length blob ≡ length privkey)
        × (luna_pqc_decode_template pub_t' priv_t' (some blob) ≡ (
            let (pub_label, priv_label) = kept_labels (length privkey) pub_t priv_t in
            set_labels pub_t' priv_t' pub_label priv_label))
  unfolding luna_pqc_encode_template
  luna_pqc_decode_template-luna_pqc_encode_template privkey {blob} e =
      elim (Bool-cases (ltb (length privkey) 64)) [
        | inl small ↦ elim (Option-cases (luna_pqc_encode_pad_ex rand_bytes privkey 32 0x02)) [
          | inl p ↦ absurd (ground (arith, e, small, p))
          | inr (buf, p) ↦
              let e' : luna_pqc_encode_template_v2 pub_t priv_t (some buf) ≡ some blob =
                ground (arith, e, small, p) in
              let (same, read) = decode-encode_v2 pub_t priv_t pub_t' priv_t' ok buf e' in
              let len = length-luna_pqc_encode_pad_ex rand_bytes gives privkey 32 0x02 p in
              rw small (same ∙ len, read)
        ]
        | inr large ↦ elim (Option-cases (luna_pqc_encode_pad_ex rand_bytes privkey 64 0x01)) [
          | inl p ↦ absurd (ground (arith, e, large, p))
          | inr (buf, p) ↦
              let e' : luna_pqc_encode_template_v1 pub_t priv_t (some buf) ≡ some blob =
                ground (arith, e, large, p) in
              let (same, read) = decode-encode_v1 pub_t priv_t pub_t' priv_t' ok buf e' in
              let len = length-luna_pqc_encode_pad_ex rand_bytes gives privkey 64 0x01 p in
              rw large (same ∙ len, read)
        ]
      ]

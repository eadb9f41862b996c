-- ===== src/Engine/Password/RoundTrip.antt =====
-- LUNA_pw_malloc and LUNA_pw_login (Engine/Password.antt): a PIN that was stored comes back.
use luna_openssl_provider.Prelude.{
  ℕ, ◌+◌, ◌≤◌, ◌≡◌, ◌≢◌, refl, subst, ap, ◌∙◌, some, [], ◌∷◌, ◌++◌, Bytes, length, take, drop,
  replicate, length-append, length-take, take_front, drop_front, take_whole, append_assoc,
  length-drop, arith, strcmp_eq_refl, Option-cases, inl, inr,
}
use luna_openssl_provider.Cryptoki.{Cryptoki, DigestRules}
use luna_openssl_provider.Engine.Config.{Config}
use luna_openssl_provider.Engine.Password.{
  Block, Passphrase, luna_passwd_maxblk, xor_bytes, c_string, memcpy_at, pw_mask_key, luna_pw_mask,
  pin_block, luna_pw_malloc, pw_c_login, luna_pw_login,
}
use luna_openssl_provider.Engine.Password.Mask.{xor_bytes_cancel, pw_mask_key-length}

-- No byte of a C string is 0.
unfoldable pub IsText : Bytes → Type 0
IsText [] = Unit
IsText (x ∷ xs) = (x ≢ 0) × IsText xs

c_string-text : (xs ys : Bytes) → IsText xs → c_string ((xs ++ 0 ∷ []) ++ ys) ≡ xs
unfolding c_string IsText
c_string-text [] ys t = refl
c_string-text (x ∷ xs) ys (ne, t) = ground (arith, c_string-text xs ys t)

-- What is read back of a `memcpy_at` that fits.
drop-memcpy_at :
    (at : ℕ) (src dest : Bytes)
    → at ≤ length dest
    → drop at (memcpy_at at src dest) ≡ src ++ drop (at + length src) dest
unfolding memcpy_at
drop-memcpy_at at src dest h = rw (append_assoc (take at dest) src (drop (at + length src) dest)) (
    drop_front at (take at dest) (src ++ drop (at + length src) dest)
      (omega (arith, length-take at dest)))

drop-memcpy_at_behind :
    (at n : ℕ) (src dest : Bytes)
    → n ≡ at + length src
    → at ≤ length dest
    → drop n (memcpy_at at src dest) ≡ drop n dest
unfolding memcpy_at
drop-memcpy_at_behind at n src dest e h = rw (← e) (
    drop_front n (take at dest ++ src) (drop n dest)
      (omega (arith, length-append (take at dest) src, length-take at dest)))

length-memcpy_at :
    (at : ℕ) (src dest : Bytes)
    → at + length src ≤ length dest
    → length (memcpy_at at src dest) ≡ length dest
unfolding memcpy_at
length-memcpy_at at src dest h =
    let behind = drop (at + length src) dest in
    let e : length (take at dest ++ src ++ behind) ≡ length dest = omega (
      arith,
      length-append (take at dest ++ src) behind,
      length-append (take at dest) src,
      length-take at dest,
      length-drop (at + length src) dest,
    ) in
    e

module _ (c : Cryptoki) (d : DigestRules c) where
  -- What LUNA_pw_login finds in a plain block.
  record Reads (szpw blk : Bytes) : Type 0 where
    sha : Bytes
    area_sha : c.sha1 (take 256 (drop 24 blk)) ≡ some sha
    stored_sha : take 20 (drop 4 blk) ≡ sha
    stored_pin : c_string (take 256 (drop 24 blk)) ≡ szpw
    whole : length blk ≡ 280

  blocks_read :
      (szpw sha dest : Bytes)
      → length szpw ≤ 255
      → IsText szpw
      → length dest ≡ 280
      → let blk = memcpy_at 24 (szpw ++ 0 ∷ []) dest in
        c.sha1 (take 256 (drop 24 blk)) ≡ some sha → Reads szpw (memcpy_at 4 sha blk)
  blocks_read szpw sha dest le text full e =
      let src = szpw ++ 0 ∷ [] in
      let blk = memcpy_at 24 src dest in
      let long : length src ≡ length szpw + 1 = length-append szpw (0 ∷ []) in
      let blk_long : length blk ≡ 280 = length-memcpy_at 24 src dest (omega (arith, long)) ∙ full in
      let sha_long = d.sha1_length _ e in
      let rest = drop (24 + length src) dest in
      let area : drop 24 (memcpy_at 4 sha blk) ≡ drop 24 blk =
        drop-memcpy_at_behind 4 24 sha blk (omega arith) (omega arith) in
      let area_src : drop 24 blk ≡ src ++ rest = drop-memcpy_at 24 src dest (omega arith) in
      let fits : take 256 (drop 24 blk) ≡ drop 24 blk =
        take_whole 256 (drop 24 blk) (omega (arith, length-drop 24 blk)) in
      record {
        sha = sha;
        area_sha = rw area e;
        stored_sha =
            ap (take 20) (drop-memcpy_at 4 sha blk (omega arith)) ∙ take_front 20 sha _ sha_long;
        stored_pin = rw (area, fits, area_src) (c_string-text szpw rest text);
        whole = length-memcpy_at 4 sha blk (omega arith) ∙ blk_long;
      }

  pin_block-Reads :
      (szpw : Bytes) {blk : Bytes}
      → length szpw ≤ 255
      → IsText szpw
      → pin_block c szpw ≡ some blk
      → Reads szpw blk
  unfolding pin_block
  pin_block-Reads szpw {blk} le text e =
      let blk0 = memcpy_at 24 (szpw ++ 0 ∷ []) (replicate luna_passwd_maxblk 0) in
      elim (Option-cases (c.sha1 (take 256 (drop 24 blk0)))) [
        | inl q ↦ ground (arith, q, e)
        | inr (sha, q) ↦
            let read = blocks_read szpw sha (replicate luna_passwd_maxblk 0) le text refl q in
            let same : memcpy_at 4 sha blk0 ≡ blk = ground (arith, q, e) in
            subst (Reads szpw) same read
      ]

  -- LUNA_pw_malloc when it stores a PIN.
  record Stored (ppw : Passphrase) (szpw block_addr : Bytes) : Type 0 where
    fits : length szpw ≤ 255
    long_enough : 4 ≤ length szpw
    blk : Bytes
    key : Bytes
    built : pin_block c szpw ≡ some blk
    keyed : pw_mask_key c ppw.addr block_addr ≡ some key
    result : luna_pw_malloc c ppw szpw block_addr ≡ record {
      addr = ppw.addr;
      bool_init = 1;
      sz_pass = some (record { addr = block_addr; bytes = xor_bytes blk key });
      h_session = 0;
    }

  luna_pw_malloc-Stored :
      (ppw : Passphrase) (szpw block_addr : Bytes)
      → (luna_pw_malloc c ppw szpw block_addr).bool_init ≡ 1
      → Stored ppw szpw block_addr
  unfolding luna_pw_malloc luna_pw_mask
  luna_pw_malloc-Stored ppw szpw block_addr e = elim (Option-cases (pin_block c szpw)) [
    | inl q ↦ absurd (ground (arith, q, e))
    | inr (blk, q) ↦ elim (Option-cases (pw_mask_key c ppw.addr block_addr)) [
      | inl f ↦ absurd (ground (arith, q, f, e))
      | inr (key, f) ↦ record {
        fits = ground (arith, q, f, e);
        long_enough = ground (arith, q, f, e);
        blk = blk;
        key = key;
        built = q;
        keyed = f;
        result = ground (arith, q, f, e);
      }
    ]
  ]

  login-Reads :
      (cfg : Config) (ppw : Passphrase) (block : Block) (h : ℕ) (t : c.Token) (szpw blk : Bytes)
      → ppw.sz_pass ≡ some block
      → ppw.bool_init ≡ 1
      → luna_pw_mask c ppw.addr block.addr block.bytes ≡ some blk
      → Reads szpw blk
      → luna_pw_login c cfg ppw h t ≡ pw_c_login c cfg ppw h szpw t
  unfolding luna_pw_login
  login-Reads cfg ppw block h t szpw blk e1 e2 e3 r =
      ground (arith, e1, e2, e3, r.area_sha, r.stored_sha, r.stored_pin, strcmp_eq_refl r.sha)

  -- A PIN without 0 bytes that LUNA_pw_malloc has stored (`boolInit` is 1) is the very PIN that
  -- LUNA_pw_login hands to C_Login, for every session: masking, digest and length come back.
  pub luna_pw_login-luna_pw_malloc :
      (cfg : Config) (ppw : Passphrase) (szpw block_addr : Bytes) (h : ℕ) (t : c.Token)
      → IsText szpw
      → (luna_pw_malloc c ppw szpw block_addr).bool_init ≡ 1
      → luna_pw_login c cfg (luna_pw_malloc c ppw szpw block_addr) h t
        ≡ pw_c_login c cfg (luna_pw_malloc c ppw szpw block_addr) h szpw t
  unfolding luna_pw_mask
  luna_pw_login-luna_pw_malloc cfg ppw szpw block_addr h t text e =
      let s = luna_pw_malloc-Stored ppw szpw block_addr e in
      let read = pin_block-Reads szpw s.fits text s.built in
      let long = pw_mask_key-length c d ppw.addr block_addr s.keyed in
      let back = xor_bytes_cancel s.blk s.key (omega (arith, read.whole, long)) in
      rw s.result (
        login-Reads cfg _ (record { addr = block_addr; bytes = xor_bytes s.blk s.key }) h t szpw
          s.blk refl refl (ground (arith, s.keyed, back)) read)

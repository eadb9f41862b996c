-- ===== src/Engine/Password.antt =====
-- The PIN store of engine/e_gem.c: LUNA_PBKDF2_F, LUNA_PBKDF2_main, LUNA_pw_mask, LUNA_pw_malloc,
-- LUNA_pw_free and LUNA_pw_login. A stored PIN is masked by a key derived from two addresses.
-- `LUNA_malloc` of the block succeeds, and `luna_SHA1` may fail.
pub mod Mask
pub mod RoundTrip
pub mod Limits
use Prim.Native.Nat.{bit_xor}
use luna_openssl_provider.Prelude.{
  ℕ, zero, suc, ◌+◌, ◌/◌, ◌%◌, not, Option, none, some, [], ◌∷◌, ◌++◌, Bytes, length, take, drop,
  replicate, strcmp_eq, ltb, ◌==◌, if◌then◌else◌,
}
use luna_openssl_provider.Cryptoki.{Cryptoki, ckr_ok, ckr_general_error, ckr_user_already_logged_in}
use luna_openssl_provider.Engine.Config.{Config, luna_get_user_type}

abbrev pub luna_passwd_maxlen : ℕ
luna_passwd_maxlen = 255

abbrev pub luna_passwd_maxblk : ℕ
luna_passwd_maxblk = 280

abbrev pub local_hlen : ℕ
local_hlen = 20

abbrev local_iterations : ℕ
local_iterations = 5

-- A block that `szPass` points to: its address, as the bytes of the pointer, and its content.
pub record Block : Type 0 where
  pub addr : Bytes
  pub bytes : Bytes

-- luna_passphrase_t; `addr` is the address of the struct itself.
pub record Passphrase : Type 0 where
  pub addr : Bytes
  pub bool_init : ℕ
  pub sz_pass : Option Block
  pub h_session : ℕ

-- The loop `U[jj] ^= md[jj]`, and `dest[ii] = (src[ii] ^ baMask[ii])`.
unfoldable pub xor_bytes : Bytes → Bytes → Bytes
xor_bytes [] ys = []
xor_bytes (x ∷ xs) [] = []
xor_bytes (x ∷ xs) (y ∷ ys) = bit_xor x y ∷ xor_bytes xs ys

-- The bytes of a C string up to its end.
unfoldable pub c_string : Bytes → Bytes
c_string [] = []
c_string (x ∷ xs) = if x == 0 then [] else x ∷ c_string xs

-- `memset(&blkPw, 0, ..)` and a `memcpy` of `src` to offset `at`.
unfoldable pub memcpy_at : ℕ → Bytes → Bytes → Bytes
memcpy_at at src dest = take at dest ++ src ++ drop (at + length src) dest

module _ (c : Cryptoki) where
  -- The loop of LUNA_PBKDF2_F, on the rounds left.
  unfoldable pub pbkdf2_rounds : ℕ → Bytes → Bytes → Option Bytes
  pbkdf2_rounds zero p u = some u
  pbkdf2_rounds (suc n) p u = elim (c.sha1_too p u) [
    | none ↦ none
    | some md ↦ pbkdf2_rounds n p (xor_bytes u md)
  ]

  unfoldable pub luna_pbkdf2_f : Bytes → Bytes → ℕ → ℕ → Option Bytes
  luna_pbkdf2_f p s iterations ii = pbkdf2_rounds iterations p (
      take 16 s
      ++ (ii / 0x100_0000 % 256) ∷ (ii / 0x1_0000 % 256) ∷ (ii / 0x100 % 256) ∷ (ii % 256) ∷ [])

  -- The loop of LUNA_PBKDF2_main, on the blocks left.
  unfoldable pub pbkdf2_blocks : ℕ → ℕ → Bytes → Bytes → ℕ → Option Bytes
  pbkdf2_blocks zero it p s iterations = some []
  pbkdf2_blocks (suc l) it p s iterations = elim (luna_pbkdf2_f p s iterations it) [
    | none ↦ none
    | some u ↦ elim (pbkdf2_blocks l (it + 1) p s iterations) [
      | none ↦ none
      | some us ↦ some (u ++ us)
    ]
  ]

  -- `some` of the mask stands for the return value 1.
  unfoldable pub luna_pbkdf2_main : Bytes → Bytes → ℕ → ℕ → Option Bytes
  luna_pbkdf2_main p s iterations dk_len =
      if ltb iterations local_iterations
      then none
      else if not (dk_len % local_hlen == 0)
      then none
      else pbkdf2_blocks (dk_len / local_hlen) 1 p s iterations

  -- The mask `baMask` of LUNA_pw_mask.
  unfoldable pub pw_mask_key : Bytes → Bytes → Option Bytes
  pw_mask_key addr1 addr2 = elim (c.sha1 (addr1 ++ replicate 8 255)) [
    | none ↦ none
    | some sha1 ↦ elim (c.sha1 (addr1 ++ addr2)) [
      | none ↦ none
      | some sha2 ↦ luna_pbkdf2_main sha1 sha2 local_iterations luna_passwd_maxblk
    ]
  ]

  unfoldable pub luna_pw_mask : Bytes → Bytes → Bytes → Option Bytes
  luna_pw_mask addr1 addr2 src = elim (pw_mask_key addr1 addr2) [
    | none ↦ none
    | some mask ↦ some (xor_bytes src mask)
  ]

  -- The plain block: SHA-1 of the PIN area at offset 4, the PIN with its end at offset 24.
  unfoldable pub pin_block : Bytes → Option Bytes
  pin_block szpw =
      let blk = memcpy_at 24 (szpw ++ 0 ∷ []) (replicate luna_passwd_maxblk 0) in
      elim (c.sha1 (take 256 (drop 24 blk))) [ none ↦ none | some sha ↦ some (memcpy_at 4 sha blk) ]

  -- The block address is what LUNA_malloc returns.
  unfoldable pub luna_pw_malloc : Passphrase → Bytes → Bytes → Passphrase
  luna_pw_malloc ppw szpw block_addr =
      let zeroed : Passphrase = record {
        addr = ppw.addr;
        bool_init = 0;
        sz_pass = none;
        h_session = 0;
      } in
      let clear : Passphrase = record zeroed {
        sz_pass = some (record { addr = block_addr; bytes = replicate luna_passwd_maxblk 0 });
      } in
      if ltb luna_passwd_maxlen (length szpw)
      then zeroed
      else if ltb (length szpw) 4
      then zeroed
      else elim (pin_block szpw) [
        | none ↦ clear
        | some blk ↦ elim (luna_pw_mask ppw.addr block_addr blk) [
          | none ↦ clear
          | some masked ↦ record zeroed {
            bool_init = 1;
            sz_pass = some (record { addr = block_addr; bytes = masked });
          }
        ]
      ]

  unfoldable pub luna_pw_free : Passphrase → Passphrase
  luna_pw_free ppw = record { addr = ppw.addr; bool_init = 0; sz_pass = none; h_session = 0 }

  -- The C_Login call at the end of LUNA_pw_login.
  unfoldable pub pw_c_login : Config → Passphrase → ℕ → Bytes → c.Token → ℕ × Passphrase × c.Token
  pw_c_login cfg ppw h szpw t =
      let (rv, t') = c.c_login h (luna_get_user_type cfg) szpw t in
      let rv2 = if rv == ckr_user_already_logged_in then ckr_ok else rv in
      if rv2 == ckr_ok then (rv2, ppw, t') else (rv2, record ppw { bool_init = 2 }, t')

  unfoldable pub luna_pw_login : Config → Passphrase → ℕ → c.Token → ℕ × Passphrase × c.Token
  luna_pw_login cfg ppw h t = elim ppw.sz_pass [
    | none ↦ (ckr_general_error, ppw, t)
    | some block ↦
        if not (ppw.bool_init == 1)
        then (ckr_general_error, ppw, t)
        else elim (luna_pw_mask ppw.addr block.addr block.bytes) [
          | none ↦ (ckr_general_error, ppw, t)
          | some blk ↦ elim (c.sha1 (take 256 (drop 24 blk))) [
            | none ↦ (ckr_general_error, ppw, t)
            | some sha ↦
                if strcmp_eq sha (take 20 (drop 4 blk))
                then pw_c_login cfg ppw h (c_string (take 256 (drop 24 blk))) t
                else (ckr_general_error, ppw, t)
          ]
        ]
  ]

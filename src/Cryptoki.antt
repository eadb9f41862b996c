-- ===== src/Cryptoki.antt =====
-- What the engine calls and does not implement: the PKCS#11 library behind `p11.std` and `p11.ext`
-- of engine/e_gem.c, and OpenSSL's SHA-1. A call takes the state of the library and its token and
-- returns CK_RV, what the call writes, and the next state.
use luna_openssl_provider.Prelude.{ℕ, ◌≡◌, ◌≢◌, Bool, Option, some, List, Bytes, length, ℤ}

-- pkcs11t.h
abbrev pub ckr_ok : ℕ
ckr_ok = 0

abbrev pub ckr_general_error : ℕ
ckr_general_error = 0x5

abbrev pub ckr_device_error : ℕ
ckr_device_error = 0x30

abbrev pub ckr_session_handle_invalid : ℕ
ckr_session_handle_invalid = 0xb3

abbrev pub ckr_token_not_present : ℕ
ckr_token_not_present = 0xe0

abbrev pub ckr_user_already_logged_in : ℕ
ckr_user_already_logged_in = 0x100

abbrev pub ckr_cryptoki_already_initialized : ℕ
ckr_cryptoki_already_initialized = 0x191

abbrev pub luna_invalid_handle : ℕ
luna_invalid_handle = 0

pub record Cryptoki : Type 1 where
  pub Token : Type 0
  -- dlopen and C_GetFunctionList, as `luna_load_p11` calls them; true if all went well
  pub load_library : Token → Bool × Token
  -- C_Initialize; the flag says that CKF_OS_LOCKING_OK is passed
  pub c_initialize : Bool → Token → ℕ × Token
  pub c_finalize : Token → ℕ × Token
  -- the handle is meaningful only under CKR_OK
  pub c_open_session : ℕ → Token → ℕ × ℕ × Token
  pub c_close_session : ℕ → Token → ℕ × Token
  -- C_Login of a session with a user type and a PIN
  pub c_login : ℕ → ℕ → Bytes → Token → ℕ × Token
  pub c_logout : ℕ → Token → ℕ × Token
  -- C_GenerateRandom of a session and a length
  pub c_generate_random : ℕ → ℕ → Token → ℕ × Bytes × Token
  pub ca_set_application_id : ℤ → ℤ → Token → ℕ × Token
  -- C_GetSlotList(TRUE, ..) and the 32 label bytes of C_GetTokenInfo; neither changes the state
  pub c_get_slot_list : Token → ℕ × List ℕ
  pub c_get_token_label : ℕ → Token → ℕ × Bytes
  -- luna_SHA1 and luna_SHA1too over EVP_Digest; `none` is a failure
  pub sha1 : Bytes → Option Bytes
  pub sha1_too : Bytes → Bytes → Option Bytes

-- What PKCS#11 says of sessions: C_OpenSession gives a handle that no open session has, and a
-- session stays open until C_CloseSession names it or C_Finalize ends them all.
pub record SessionRules (c : Cryptoki) : Type 1 where
  pub IsOpen : c.Token → ℕ → Type 0
  pub opened :
      (slot : ℕ) (t : c.Token)
      → (c.c_open_session slot t).0 ≡ ckr_ok
      → IsOpen (c.c_open_session slot t).2 (c.c_open_session slot t).1
  pub open_fresh :
      (slot : ℕ) (t : c.Token)
      → (c.c_open_session slot t).0 ≡ ckr_ok
      → ¬ IsOpen t (c.c_open_session slot t).1
  pub load_keeps : (t : c.Token) (h : ℕ) → IsOpen t h → IsOpen (c.load_library t).1 h
  pub open_keeps :
      (slot : ℕ) (t : c.Token) (h : ℕ) → IsOpen t h → IsOpen (c.c_open_session slot t).2 h
  pub close_keeps :
      (k : ℕ) (t : c.Token) (h : ℕ) → h ≢ k → IsOpen t h → IsOpen (c.c_close_session k t).1 h
  pub login_keeps :
      (k user : ℕ) (pin : Bytes) (t : c.Token) (h : ℕ)
      → IsOpen t h
      → IsOpen (c.c_login k user pin t).1 h

-- SHA-1 answers with 20 bytes.
pub record DigestRules (c : Cryptoki) : Type 0 where
  pub sha1_length : (m : Bytes) {d : Bytes} → c.sha1 m ≡ some d → length d ≡ 20
  pub sha1_too_length : (m n : Bytes) {d : Bytes} → c.sha1_too m n ≡ some d → length d ≡ 20

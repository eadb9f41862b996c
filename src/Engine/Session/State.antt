-- ===== src/Engine/Session/State.antt =====
-- The state that the session functions of engine/e_gem.c share: luna_context_t, luna_per_slot_t,
-- g_rtconfig, and the globals of the library's life. 0/1 flags are Booleans. The ex-data indices of
-- luna_per_slot_t belong to OpenSSL's key objects and are left out; so are the logs.
use luna_openssl_provider.Prelude.{ℕ, Bool, true, false, Option, none, List, ◌==◌, if◌then◌else◌}
use luna_openssl_provider.Cryptoki.{
  ckr_device_error, ckr_token_not_present, ckr_session_handle_invalid,
}
use luna_openssl_provider.Engine.Password.{Passphrase}

-- An array of LUNA_MAX_SLOT = 2 items; every index that the code uses is 0 or 1.
pub record PerSlot (A : Type 0) : Type 0 where
  pub at0 : A
  pub at1 : A

abbrev pub luna_max_slot : ℕ
luna_max_slot = 2

module _ {A : Type 0} where
  abbrev pub get : PerSlot A → ℕ → A
  get p i = if i == 0 then p.at0 else p.at1

  abbrev pub put : PerSlot A → ℕ → A → PerSlot A
  put p i a = if i == 0 then record p { at0 = a } else record p { at1 = a }

pub record SlotState : Type 0 where
  pub slot_id : ℕ
  pub session_handle : ℕ
  pub slot_activity : ℕ

-- luna_context_t; `pcache` is the cache item, which holds the session handle once more.
pub record Context : Type 0 where
  pub flag_init : Bool
  pub slotid : ℕ
  pub h_session : ℕ
  pub pid : ℕ
  pub count_c_init : ℕ
  pub pcache : Option ℕ
  pub per_slot_id : ℕ
  pub flag_finalize_pending : Bool
  pub rv_last : ℕ
  pub flag_error : Bool

-- LUNA_CONTEXT_T_INIT, and what `memset` leaves.
abbrev pub context_init : Context
context_init = record {
  flag_init = false;
  slotid = 0;
  h_session = 0;
  pid = 0;
  count_c_init = 0;
  pcache = none;
  per_slot_id = 0;
  flag_finalize_pending = false;
  rv_last = 0;
  flag_error = false;
}

-- `T` is the state of the PKCS#11 library; `self` is what getpid() answers; `held` says that the
-- mutex LUNA_MUTEX_NDX_HW is taken.
pub record Globals (T : Type 0) : Type 0 where
  pub token : T
  pub have_c_funclist : Bool
  pub have_c_init : Bool
  pub have_c_error : Bool
  pub init_count : ℕ
  pub activity : ℕ
  pub slots : PerSlot SlotState
  pub ckses : PerSlot (List ℕ)
  pub pws : PerSlot Passphrase
  pub pid_bind : ℕ
  pub pid_intermediate_count : ℕ
  pub pid_intermediate : ℕ
  pub pid_c_init : ℕ
  pub in_child_v : Bool
  pub flag_recovery : Bool
  pub cb_tainted : Bool
  pub held : Bool
  pub self : ℕ

module _ {T : Type 0} where
  abbrev pub luna_mutex_enter : Globals T → Globals T
  luna_mutex_enter g = record g { held = true }

  abbrev pub luna_mutex_exit : Globals T → Globals T
  luna_mutex_exit g = record g { held = false }

unfoldable pub luna_rv_severity : ℕ → ℕ
luna_rv_severity rv =
    if rv == ckr_device_error
    then 2
    else if rv == ckr_token_not_present
    then 2
    else if rv == ckr_session_handle_invalid
    then 1
    else 0

-- ===== src/Tests/Sample.antt =====
-- A small PKCS#11 library for the examples: its state counts the sessions that were opened, the handle
-- of a session is its number, and a digest is twenty times the sum of the bytes.
use luna_openssl_provider.Prelude.{
  ℕ, ◌+◌, ◌%◌, ◌≤◌, ◌<◌, ◌≡◌, true, false, Option, none, some, [], ◌∷◌, ◌++◌, Bytes, codes, length,
  replicate, pos, arith, ◌==◌, if◌then◌else◌,
}
use luna_openssl_provider.Cryptoki.{Cryptoki, SessionRules, DigestRules}
use luna_openssl_provider.Engine.Config.{Config}
use luna_openssl_provider.Engine.Password.{Passphrase}
use luna_openssl_provider.Engine.Session.State.{SlotState, Context, Globals, context_init}
use luna_openssl_provider.Engine.Session.World.{World, user}

unfoldable pub sum : Bytes → ℕ
sum [] = 0
sum (x ∷ xs) = x + sum xs

abbrev pub digest : Bytes → Option Bytes
digest m = some (replicate 20 (sum m % 256))

abbrev pub label_in : ℕ → Bytes
label_in slot = if slot == 8 then codes "hsm" else codes "other"

abbrev pub sample : Cryptoki
sample = record {
  Token = ℕ;
  load_library = λ t. (true, t);
  c_initialize = λ os_locking t. (0, t);
  c_finalize = λ t. (0, t);
  c_open_session = λ slot t. (0, t + 1, t + 1);
  c_close_session = λ h t. (0, t);
  c_login = λ h kind pin t. (0, t);
  c_logout = λ h t. (0, t);
  c_generate_random = λ h n t. (0, replicate n h, t);
  ca_set_application_id = λ hi lo t. (0, t);
  c_get_slot_list = λ t. (0, 3 ∷ 8 ∷ []);
  c_get_token_label = λ slot t. (0, label_in slot);
  sha1 = digest;
  sha1_too = λ m n. digest (m ++ n);
}

abbrev pub sample_rules : SessionRules sample
sample_rules = record {
  IsOpen = λ t h. (0 < h) × (h ≤ t);
  opened = λ slot t _. (omega arith, omega arith);
  open_fresh = λ slot t _ o. omega (arith, o.1);
  load_keeps = λ t h o. o;
  open_keeps = λ slot t h o. (o.0, omega (arith, o.1));
  close_keeps = λ k t h _ o. o;
  login_keeps = λ k kind pin t h o. o;
}

pub digest-length : (m : Bytes) {d : Bytes} → digest m ≡ some d → length d ≡ 20
digest-length m e = ground (arith, e)

abbrev pub sample_digests : DigestRules sample
sample_digests = record {
  sha1_length = λ m e. digest-length m e;
  sha1_too_length = λ m n e. digest-length (m ++ n) e;
}

-- A configuration in which nothing is set.
abbrev pub settings : Config
settings = record {
  conf_engine_init = none;
  conf_engine2_init = none;
  engine_init = none;
  engine2_init = none;
  appliance = none;
  enable_limited_user = none;
  enable_rsa_ex = none;
  rsa_ex = none;
  enable_dsa_ex = none;
  enable_ecdsa_ex = none;
  disable_rsa = none;
  disable_dsa = none;
  disable_ecdsa = none;
  enable_load_priv_key = none;
  enable_load_pub_key = none;
  enable_pkey_meths = none;
  enable_pkey_asn1_meths = none;
  disable_register_all = none;
  enable_digests = none;
  enable_login_init = none;
  enable_rsa_gen_key_pair = none;
  enable_dsa_gen_key_pair = none;
  enable_pqc_gen_key_pair = none;
  enable_ec_gen_key_pair = none;
  enable_ed_gen_key_pair = none;
  enable_em_gen_key_pair = none;
  recovery_level = none;
  enable_token_object = none;
  enable_pqc_shim = none;
  delegate_hw_pqc_kem_encap_to_sw = none;
  delegate_sw_pqc_kem_encap_rng_to_hw = none;
  disable_check_finalize = pos 0;
  intermediate_processes = pos 0;
  disable_session_cache = pos 0;
  disable_multi_thread = pos 0;
  skip_c_initialize = false;
  has_hsm_id = false;
}

abbrev pub no_pin : Passphrase
no_pin = record { addr = []; bool_init = 0; sz_pass = none; h_session = 0 }

abbrev pub slot_state : ℕ → SlotState
slot_state n = record { slot_id = n; session_handle = 0; slot_activity = 0 }

-- A process 7 that is bound to the engine, before its first open.
abbrev pub start : Globals ℕ
start = record {
  token = 0;
  have_c_funclist = false;
  have_c_init = false;
  have_c_error = false;
  init_count = 0;
  activity = 0;
  slots = record { at0 = slot_state 3; at1 = slot_state 8 };
  ckses = record { at0 = []; at1 = [] };
  pws = record { at0 = no_pin; at1 = no_pin };
  pid_bind = 7;
  pid_intermediate_count = 0;
  pid_intermediate = 0;
  pid_c_init = 0;
  in_child_v = false;
  flag_recovery = false;
  cb_tainted = false;
  held = false;
  self = 7;
}

abbrev pub start_world : World ℕ
start_world = record { globals = start; threads = λ i. user context_init }

-- The library runs in process 7, and a context has session 1; its slot has one session cached, 9.
abbrev pub running : Globals ℕ
running = record start {
  token = 9;
  have_c_funclist = true;
  have_c_init = true;
  init_count = 1;
  activity = 1;
  slots = record {
    at0 = record { slot_id = 3; session_handle = 0; slot_activity = 1 };
    at1 = slot_state 8;
  };
  ckses = record { at0 = 9 ∷ []; at1 = [] };
  pid_bind = 6;
  pid_c_init = 7;
}

abbrev pub in_use : Context
in_use = record {
  flag_init = true;
  slotid = 3;
  h_session = 1;
  pid = 7;
  count_c_init = 1;
  pcache = some 1;
  per_slot_id = 0;
  flag_finalize_pending = false;
  rv_last = 0;
  flag_error = false;
}

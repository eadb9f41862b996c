-- ===== src/Tests/MlDsa.antt =====
-- An ML-DSA key and the rows of its algorithm, for the examples.
use luna_openssl_provider.Prelude.{ℕ, true, false, some, List, [], ◌∷◌, Bytes, codes, replicate}
use luna_openssl_provider.Engine.Session.State.{Globals}
use luna_openssl_provider.Provider.Algorithms.{Alg, no_subtype}
use luna_openssl_provider.Provider.KeyLock.{reason_zero}
use luna_openssl_provider.Provider.Key.State.{magic_zero, ProvKey, oqs}
use luna_openssl_provider.Tests.Sample.{no_pin, slot_state}
use luna_openssl_provider.Tests.Objects.{Objects}

abbrev pub row : Bytes → ℕ → Alg
row name params = record {
  flag_include = true;
  alg_name = name;
  keytype = 0xc000_0008;
  ckp_params = params;
  type_generate = 0xc000_0065;
  type_sign = 0xc000_0066;
  type_encap = 0;
  type_decap = 0;
}

abbrev pub tab : List Alg
tab = row (codes "INVALID") 0 ∷ row (codes "mldsa65") 5 ∷ row (codes "mldsa87") 6 ∷ []

-- A key without handles, whose private key bytes are still zero.
abbrev pub new_key : ProvKey
new_key = record {
  alg = record {
    alg_name = codes "mldsa65";
    index_alg = 0;
    is_kem = false;
    subtype = no_subtype;
    sublen = 0;
  };
  magic = magic_zero;
  h_public = 0;
  h_private = 0;
  b_token_object = false;
  count_c_init = 0;
  is_hardware = false;
  reason = reason_zero;
  ctxtype = oqs;
  pubkey = 0 ∷ 0 ∷ 0 ∷ 0 ∷ [];
  privkey = some (replicate 40 0);
}

abbrev pub idle_token : Globals Objects
idle_token = record {
  token = record { stored = []; hits = []; searching = false; sessions = 0 };
  have_c_funclist = false;
  have_c_init = false;
  have_c_error = false;
  init_count = 0;
  activity = 0;
  slots = record { at0 = slot_state 3; at1 = slot_state 8 };
  ckses = record { at0 = []; at1 = [] };
  pws = record { at0 = no_pin; at1 = no_pin };
  pid_bind = 7;
  pid_intermediate_count = 0;
  pid_intermediate = 0;
  pid_c_init = 0;
  in_child_v = false;
  flag_recovery = false;
  cb_tainted = false;
  held = false;
  self = 7;
}

-- ===== src/Tests/Secrets.antt =====
-- A small token with secret keys, and an example on LunaPqcKemDecap (Provider/Key).
use luna_openssl_provider.Prelude.{
  ℕ, ◌+◌, ◌≤◌, ◌≡◌, ◌≢◌, refl, true, false, Option, none, some, List, [], ◌∷◌, Bytes, codes, length,
  replicate, ◌==◌, if◌then◌else◌, arith, inr,
}
use luna_openssl_provider.Cryptoki.{Cryptoki}
use luna_openssl_provider.Engine.Session.State.{context_init, Globals}
use luna_openssl_provider.Provider.Algorithms.{Alg, no_subtype}
use luna_openssl_provider.Provider.KeyLock.{reason_zero}
use luna_openssl_provider.Provider.Key.State.{Work, magic_ok, oqs}
use luna_openssl_provider.Provider.Key.Wrap.{SecretCalls, Wrapping}
use luna_openssl_provider.Provider.Key.Decap.{decap_key}
use luna_openssl_provider.Provider.Key.Unwrapping.{SecretRules}
use luna_openssl_provider.Provider.Key.Decapsulation.{DestroyRules}
use luna_openssl_provider.Provider.Key.Encap.{
  EncapCalls, luna_oqs_kem_encaps, luna_oqs_query_kem_encaps,
}
use luna_openssl_provider.Provider.Key.Encapsulation.{luna_oqs_kem_encaps-luna_oqs_query_kem_encaps}
use luna_openssl_provider.Provider.Key.Ops.{luna_oqs_query_any_public_op}
use luna_openssl_provider.Provider.Key.State.{KeyCalls}
use luna_openssl_provider.Tests.Sample.{sample, settings, no_pin, slot_state}

-- The keys with their handles, and the number of sessions.
record Vault : Type 0 where
  keys : List (ℕ × Bytes)
  sessions : ℕ

abbrev with_vault : Cryptoki
with_vault = record {
  Token = Vault;
  load_library = λ t. (true, t);
  c_initialize = λ os_locking t. (0, t);
  c_finalize = λ t. (0, t);
  c_open_session = λ slot t. (0, t.sessions + 1, record t { sessions = t.sessions + 1 });
  c_close_session = λ h t. (0, t);
  c_login = λ h kind pin t. (0, t);
  c_logout = λ h t. (0, t);
  c_generate_random = λ h n t. (0, replicate n h, t);
  ca_set_application_id = λ hi lo t. (0, t);
  c_get_slot_list = λ t. (0, 3 ∷ []);
  c_get_token_label = λ slot t. (0, codes "hsm");
  sha1 = sample.sha1;
  sha1_too = sample.sha1_too;
}

unfoldable value_of : ℕ → List (ℕ × Bytes) → Option Bytes
value_of h [] = none
value_of h ((k, v) ∷ rest) = let later = value_of h rest in if h == k then some v else later

unfoldable without : ℕ → List (ℕ × Bytes) → List (ℕ × Bytes)
without h [] = []
without h ((k, v) ∷ rest) = let later = without h rest in if h == k then later else (k, v) ∷ later

value_of-without : (h : ℕ) (keys : List (ℕ × Bytes)) → value_of h (without h keys) ≡ none
unfolding value_of without
value_of-without h [] = refl
value_of-without h ((k, v) ∷ rest) = ground (arith, value_of-without h rest)

-- The wrapping key is the object 7; the HSM gives its bytes back as they are.
abbrev wrap : ℕ → ℕ → Vault → ℕ × Bytes × Vault
wrap k h t = elim (value_of h t.keys) [
  | none ↦ (0x82, [], t)
  | some v ↦ if k == 7 then (0, v, t) else (0x114, [], t)
]

abbrev secret : Bytes
secret = replicate 32 5

abbrev vault_calls : SecretCalls with_vault
vault_calls = record {
  Pkey = ℕ;
  new_pkey = some 3;
  modulus = λ p. replicate 128 p;
  exponent = λ p. 1 ∷ 0 ∷ 1 ∷ [];
  decrypt = λ p wrapped. some wrapped;
  c_create_object = λ session a t. (0, 7, t);
  c_destroy_object = λ session h t. (0, record t { keys = without h t.keys });
  c_wrap_key = λ session k h t. wrap k h t;
  c_derive_key = λ session mech h a t. (0x70, 0, t);
  ca_decapsulate_key = λ session mech h a ct t. (0, 9, record t { keys = (9, secret) ∷ t.keys });
  ca_derive_key_and_wrap = λ session mech h a k t. (0x70, [], t);
}

wrap_gives :
    (k h : ℕ) (v : Bytes) (t : Vault) → k ≡ 7 → value_of h t.keys ≡ some v → wrap k h t ≡ (0, v, t)
wrap_gives k h v t seven has = ground (arith, seven, has)

abbrev vault_rules : SecretRules with_vault vault_calls
vault_rules = record {
  IsSession = λ t session. session ≤ t.sessions;
  Value = λ t h v. value_of h t.keys ≡ some v;
  Wraps = λ t k p. k ≡ 7;
  sizes = λ p made. (refl, refl);
  created = λ session p t open_. inr (refl, open_, λ h v has. has);
  wrapped = λ session k h p v t open_ seven has.
      inr (rw (wrap_gives k h v t seven has) (refl, open_, seven));
}

abbrev vault_ends : DestroyRules with_vault vault_calls vault_rules
vault_ends = record {
  Gone = λ t h. value_of h t.keys ≡ none;
  destroyed = λ session h t open_. inr (value_of-without h t.keys);
}

abbrev kem : Alg
kem = record {
  flag_include = true;
  alg_name = codes "mlkem768";
  keytype = 0xc000_0009;
  ckp_params = 5;
  type_generate = 0xc000_0013;
  type_sign = 0;
  type_encap = 0xc000_0014;
  type_decap = 0xc000_0015;
}

abbrev kems : List Alg
kems =
    record kem { alg_name = codes "INVALID" }
    ∷ kem
    ∷ record kem { alg_name = codes "mlkem512" }
    ∷ []

abbrev kem_work : Work Vault
kem_work = record {
  key = record {
    alg = record {
      alg_name = codes "mlkem768";
      index_alg = 0;
      is_kem = true;
      subtype = no_subtype;
      sublen = 0;
    };
    magic = magic_ok;
    h_public = 4;
    h_private = 5;
    b_token_object = false;
    count_c_init = 1;
    is_hardware = true;
    reason = reason_zero;
    ctxtype = oqs;
    pubkey = [];
    privkey = none;
  };
  sess = record context_init { flag_init = true; h_session = 1; count_c_init = 1; pid = 7 };
  globals = record {
    token = record { keys = []; sessions = 1 };
    have_c_funclist = true;
    have_c_init = true;
    have_c_error = false;
    init_count = 1;
    activity = 1;
    slots = record { at0 = slot_state 3; at1 = slot_state 8 };
    ckses = record { at0 = []; at1 = [] };
    pws = record { at0 = no_pin; at1 = no_pin };
    pid_bind = 7;
    pid_intermediate_count = 0;
    pid_intermediate = 0;
    pid_c_init = 7;
    in_child_v = false;
    flag_recovery = false;
    cb_tainted = false;
    held = false;
    self = 7;
  };
}

abbrev ciphertext : Bytes
ciphertext = 1 ∷ 2 ∷ 3 ∷ []

abbrev decapped : ℕ × ℕ × Vault
decapped = decap_key settings with_vault vault_calls kem (length secret) ciphertext kem_work

abbrev no_objects : KeyCalls with_vault
no_objects = record {
  c_find_objects_init = λ session a t. (0, t);
  c_find_objects = λ session n t. (0, [], t);
  c_generate_key_pair = λ session mech p q t. (0x70, 0, 0, t);
  c_get_attribute_value = λ session h a len t. (0x12, 0, [], t);
  c_sign_init = λ session mech h t. (0x70, t);
  c_sign = λ session m len t. (0x70, 0, [], t);
  c_verify_init = λ session mech h t. (0x70, t);
  c_verify = λ session m sig t. (0x70, t);
}

abbrev vault_encaps : EncapCalls with_vault
vault_encaps = record {
  c_derive_key = λ session mech params h a buffer t. (0x70, 0, [], 0, t);
  ca_encapsulate_key =
      λ session mech h a buffer t. (0, 3, ciphertext, 9, record t { keys = (9, secret) ∷ t.keys });
}

luna_oqs_kem_encaps-luna_oqs_query_kem_encaps_example :
    let query =
      luna_oqs_query_kem_encaps settings with_vault vault_calls vault_encaps kems no_objects
        kem_work.key kem_work.globals in
    (query
      ≡ luna_oqs_query_any_public_op settings with_vault no_objects kems kem_work.key
          kem_work.globals)
    × (query.0 ≡ true
        → (buffers : Option (ℕ × ℕ)) (x : Wrapping vault_calls.Pkey) (g' : Globals Vault)
        → luna_oqs_kem_encaps settings with_vault vault_calls vault_encaps kems no_objects buffers x
            query.1 g'
          ≢ none)
luna_oqs_kem_encaps-luna_oqs_query_kem_encaps_example =
    luna_oqs_kem_encaps-luna_oqs_query_kem_encaps settings with_vault no_objects kems vault_calls
      vault_encaps kem_work.key kem_work.globals

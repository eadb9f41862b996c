-- ===== src/Tests/Operations.antt =====
-- Examples on the operations of Provider/Key: an ML-DSA key in the token of Tests/Objects.antt.
use luna_openssl_provider.Prelude.{
  ◌≢◌, ◌⊎◌, ℕ, ◌≤◌, strcmp_eq, ◌≡◌, refl, Bool, true, false, Option, none, some, [], ◌∷◌, arith,
}
use luna_openssl_provider.Cryptoki.{ckr_ok}
use luna_openssl_provider.Engine.Slotid.{before_zero}
use luna_openssl_provider.Engine.Config.{luna_get_engine2_init}
use luna_openssl_provider.Engine.Session.Context.{
  luna_open_context, luna_open_context_ndx, open_locked, finalize_if_forked, note_process,
  choose_slot, open_on_slot, open_succeeded, luna_context_set_last_error,
}
use luna_openssl_provider.Engine.Session.Close.{
  luna_close_context, luna_close_context_w_err, close_locked, return_session, decrement_activity,
  finish_close, drop_session,
}
use luna_openssl_provider.Engine.Session.Init.{luna_init_p11_conditional}
use luna_openssl_provider.Engine.Session.Cache.{luna_cache_pop}
use luna_openssl_provider.Engine.Session.State.{luna_rv_severity, Globals, context_init, Context}
use luna_openssl_provider.Provider.Algorithms.{
  luna_lookup_alg_name, luna_lookup_alg_name_range, lookup_rows,
}
use luna_openssl_provider.Provider.Base64.{luna_sprintf_base64url, symbol}
use luna_openssl_provider.Provider.Blob.{
  sk_to_pk, Template, luna_pqc_decode_template, luna_pqc_decode_template_v2,
  luna_pqc_decode_template_v1, luna_encode_uint32, luna_pqc_fill_template,
  luna_pqc_fill_template_ex, luna_pqc_encode_template, luna_pqc_encode_pad_ex,
  luna_pqc_encode_template_v2, luna_prov_test_utf8_buffer, test_from, luna_prov_test_utf8,
  replace_zeros,
}
use luna_openssl_provider.Provider.Key.State.{
  magic_ok, ProvKey, Work, p11_check_count, is_ok_magic, is_zero_magic,
}
use luna_openssl_provider.Provider.Key.Find.{
  blank_template, luna_find, find_pair, find_labels, luna_pqc_find,
}
use luna_openssl_provider.Provider.Key.Export.{luna_export_public, export_value}
use luna_openssl_provider.Provider.Key.Gen.{generate, luna_pqc_gen}
use luna_openssl_provider.Provider.Key.Ops.{
  begin_op, open_op, end_op, finish_op, find_or_gen, luna_oqs_findobject_helper_pre,
  luna_oqs_keypair,
}
use luna_openssl_provider.Provider.Key.Once.{luna_oqs_keypair-once}
use luna_openssl_provider.Provider.Key.Fresh.{luna_oqs_findobject_helper_pre-fresh}
use luna_openssl_provider.Provider.Key.Objects.{PairFound, PairMissed}
use luna_openssl_provider.Provider.Key.Active.{luna_pqc_find-refused}
use luna_openssl_provider.Provider.Key.Found.{luna_pqc_gen-luna_pqc_find}
use luna_openssl_provider.Tests.Sample.{settings}
use luna_openssl_provider.Tests.Objects.{
  Objects, calls_on, one_search, with_objects, object_calls, object_rules, matches,
}
use luna_openssl_provider.Tests.Keys.{give_sevens, sevens_work, sevens_give}
use luna_openssl_provider.Tests.MlDsa.{tab, new_key, idle_token}

abbrev open_session : Context
open_session = record context_init { flag_init = true; h_session = 1; count_c_init = 1; pid = 7 }

abbrev new_work : Work Objects
new_work = record {
  key = new_key;
  sess = open_session;
  globals = record idle_token {
    token = record { stored = []; hits = []; searching = false; sessions = 1 };
    have_c_init = true;
    init_count = 1;
  };
}

abbrev outcome : Option (ℕ × Work Objects) → Work Objects
outcome none = new_work
outcome (some (rv, w)) = w

abbrev generation : Option (ℕ × Work Objects)
generation =
    luna_pqc_gen settings with_objects object_calls tab give_sevens give_sevens false false new_work

generation_done : generation ≡ some (ckr_ok, outcome generation)
unfolding luna_pqc_gen luna_lookup_alg_name luna_lookup_alg_name_range lookup_rows strcmp_eq
    luna_pqc_fill_template luna_pqc_fill_template_ex generate luna_pqc_encode_template
    luna_pqc_encode_pad_ex luna_pqc_encode_template_v2 luna_sprintf_base64url
    luna_prov_test_utf8_buffer test_from luna_prov_test_utf8 symbol replace_zeros
generation_done = refl

abbrev later_work : Work Objects
later_work = record new_work {
  key = record new_key { privkey = (outcome generation).key.privkey };
  globals = record new_work.globals { token = (outcome generation).globals.token };
}

labels_unused :
    (p q : Template)
    → luna_pqc_fill_template give_sevens blank_template blank_template 40 ≡ some (p, q)
    → (matches p.label [] ≡ []) × (matches q.label [] ≡ [])
unfolding matches
labels_unused p q e = (refl, refl)

listed : (luna_lookup_alg_name tab new_key.alg).0 ≡ ckr_ok
unfolding luna_lookup_alg_name luna_lookup_alg_name_range lookup_rows strcmp_eq
listed = refl

still_open : later_work.sess.h_session ≤ later_work.globals.token.sessions
unfolding luna_pqc_gen luna_lookup_alg_name luna_lookup_alg_name_range lookup_rows strcmp_eq
    luna_pqc_fill_template luna_pqc_fill_template_ex generate luna_pqc_encode_template
    luna_pqc_encode_pad_ex luna_pqc_encode_template_v2 luna_sprintf_base64url
    luna_prov_test_utf8_buffer test_from luna_prov_test_utf8 symbol replace_zeros
still_open = omega arith

luna_pqc_gen-luna_pqc_find_example :
    let r = luna_pqc_find with_objects object_calls tab later_work in
    let made = (outcome generation).key in
    PairFound with_objects object_calls object_rules made.h_public made.h_private 1 r
    ⊎ PairMissed with_objects object_calls object_rules 1 later_work.key.h_public
        later_work.key.h_private r
luna_pqc_gen-luna_pqc_find_example =
    luna_pqc_gen-luna_pqc_find with_objects object_calls object_rules tab settings give_sevens
      give_sevens sevens_work sevens_give false false new_work later_work generation_done
      labels_unused refl (λ a h e. e) still_open listed

-- In a library that ends a search for the next one, the pair is found.
pair_found : (luna_pqc_find with_objects object_calls tab later_work).0 ≡ ckr_ok
unfolding luna_pqc_find luna_find find_pair find_labels luna_pqc_decode_template
    luna_pqc_decode_template_v2 luna_pqc_decode_template_v1 luna_encode_uint32 luna_pqc_gen
    luna_lookup_alg_name luna_lookup_alg_name_range lookup_rows strcmp_eq luna_pqc_fill_template
    luna_pqc_fill_template_ex generate luna_pqc_encode_template luna_pqc_encode_pad_ex
    luna_pqc_encode_template_v2 luna_sprintf_base64url luna_prov_test_utf8_buffer test_from
    luna_prov_test_utf8 symbol replace_zeros matches luna_context_set_last_error luna_rv_severity
    before_zero sk_to_pk
pair_found = refl

luna_pqc_find-refused_example :
    (luna_pqc_find with_objects (calls_on false) tab later_work).0 ≢ ckr_ok
luna_pqc_find-refused_example =
    luna_pqc_find-refused with_objects (calls_on false) one_search tab later_work

-- The library runs, and a session is cached.
abbrev ready_token : Globals Objects
ready_token = record idle_token {
  token = record { stored = []; hits = []; searching = false; sessions = 1 };
  have_c_funclist = true;
  have_c_init = true;
  init_count = 1;
  ckses = record { at0 = 1 ∷ []; at1 = [] };
  pid_c_init = 7;
}

abbrev keypair : ProvKey → Globals Objects → Option (Bool × ProvKey × Globals Objects)
keypair key g =
    luna_oqs_keypair settings with_objects object_calls tab give_sevens give_sevens false key g

abbrev key_behind : Option (Bool × ProvKey × Globals Objects) → ProvKey
key_behind none = new_key
key_behind (some (done, key, g)) = key

abbrev globals_behind : Option (Bool × ProvKey × Globals Objects) → Globals Objects
globals_behind none = idle_token
globals_behind (some (done, key, g)) = g

abbrev first_time : Option (Bool × ProvKey × Globals Objects)
first_time = keypair new_key ready_token

keypair_done : first_time ≡ some (true, key_behind first_time, globals_behind first_time)
unfolding luna_oqs_keypair open_op end_op finish_op find_or_gen luna_pqc_find
    luna_pqc_decode_template luna_open_context luna_open_context_ndx open_locked
    luna_init_p11_conditional finalize_if_forked note_process choose_slot luna_get_engine2_init
    open_on_slot open_succeeded luna_cache_pop luna_pqc_decode_template_v2
    luna_pqc_decode_template_v1 luna_encode_uint32 luna_pqc_gen luna_lookup_alg_name
    luna_lookup_alg_name_range lookup_rows strcmp_eq luna_pqc_fill_template
    luna_pqc_fill_template_ex generate luna_pqc_encode_template luna_pqc_encode_pad_ex
    luna_pqc_encode_template_v2 luna_sprintf_base64url luna_prov_test_utf8_buffer test_from
    luna_prov_test_utf8 symbol replace_zeros luna_export_public export_value
    luna_context_set_last_error luna_rv_severity luna_close_context luna_close_context_w_err
    close_locked return_session decrement_activity finish_close drop_session
keypair_done = refl

luna_oqs_keypair-once_example :
    ((is_ok_magic (key_behind first_time).magic ≡ true)
      × (is_zero_magic (key_behind first_time).magic ≡ false))
    × (keypair (key_behind first_time) idle_token ≡ some (false, key_behind first_time, idle_token))
luna_oqs_keypair-once_example =
    luna_oqs_keypair-once settings with_objects object_calls tab give_sevens give_sevens false
      new_key ready_token idle_token keypair_done refl

-- A key that was found before the library was started again.
abbrev old_key : ProvKey
old_key = record new_key {
  magic = magic_ok;
  h_public = 5;
  h_private = 6;
  count_c_init = 4;
  privkey = (outcome generation).key.privkey;
}

abbrev searched : Bool × Bool × Work Objects
searched =
    luna_oqs_findobject_helper_pre settings with_objects object_calls tab
      (begin_op settings with_objects object_calls tab old_key ready_token)

luna_oqs_findobject_helper_pre-fresh_example :
    (is_ok_magic searched.2.key.magic ≡ searched.0)
    × (searched.0 ≡ true → p11_check_count searched.2.key.count_c_init searched.2.globals ≡ false)
luna_oqs_findobject_helper_pre-fresh_example =
    luna_oqs_findobject_helper_pre-fresh with_objects object_calls tab settings old_key ready_token

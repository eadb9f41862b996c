-- ===== src/Engine/Session/Init.antt =====
-- The start and the end of the PKCS#11 library in engine/e_gem.c: luna_init_p11_deferred,
-- luna_init_p11_conditional and luna_fini_p11.
use luna_openssl_provider.Prelude.{
  ℕ, Bool, true, false, ◌||◌, not, Option, none, some, [], Bytes, ◌==◌, is_zero, if◌then◌else◌,
}
use luna_openssl_provider.Cryptoki.{
  Cryptoki, ckr_ok, ckr_cryptoki_already_initialized, luna_invalid_handle,
}
use luna_openssl_provider.Engine.Config.{
  Config, luna_get_engine_init, luna_get_engine2_init, luna_get_enable_login_init,
  luna_pa_check_lib,
}
use luna_openssl_provider.Engine.Session.State.{get, put, SlotState, Globals}
use luna_openssl_provider.Engine.Session.Cache.{
  luna_cache_delete_all, luna_close_session, luna_callback_close_session,
}
use luna_openssl_provider.Engine.Session.Commands.{
  engineinit, engine2init, EngineCmd, next_init_count, luna_load_p11_deferred,
  luna_cmdarg_engine_ext2, luna_do_deferred_login,
}

module _ (c : Cryptoki) (cfg : Config) where
  -- C_Finalize, unless `skip_c_initialize`.
  abbrev pub finalize : c.Token → c.Token
  finalize t = if cfg.skip_c_initialize then t else (c.c_finalize t).1

  abbrev give_up : Globals c.Token → Bool × Globals c.Token
  give_up g =
      (false, record g { have_c_error = true; token = finalize g.token; have_c_init = false })

  -- An EngineInit or Engine2Init string, if there is one.
  unfoldable pub run_init_string :
      Option Bytes → EngineCmd → Globals c.Token → Bool × Globals c.Token
  run_init_string none cmd g = (true, g)
  run_init_string (some arg) cmd g = luna_cmdarg_engine_ext2 c cfg arg cmd g

  -- The post commands and the login, after `luna_have_c_init = 1`.
  unfoldable pub after_c_initialize : Globals c.Token → Bool × Globals c.Token
  after_c_initialize g =
      let (done1, g1) = run_init_string (luna_get_engine_init cfg) engineinit g in
      if not done1
      then give_up g1
      else let (done2, g2) = run_init_string (luna_get_engine2_init cfg) engine2init g1 in
        if not done2
        then give_up g2
        else let (done3, g3) = luna_do_deferred_login c cfg g2 in
          if done3 then (true, g3) else give_up g3

  -- C_Initialize; a library that is initialized already is well.
  unfoldable pub call_c_initialize : c.Token → Bool × c.Token
  call_c_initialize t =
      if cfg.skip_c_initialize
      then (true, t)
      else let (rv, t') = c.c_initialize (luna_pa_check_lib cfg) t in
        (rv == ckr_ok || rv == ckr_cryptoki_already_initialized, t')

  -- From luna_cache_init on.
  unfoldable pub start_p11 : Globals c.Token → Bool × Globals c.Token
  start_p11 g =
      let (started, t) = call_c_initialize g.token in
      let g1 : Globals c.Token = record g {
        ckses = record { at0 = []; at1 = [] };
        pid_c_init = g.self;
        token = t;
      } in
      if started
      then after_c_initialize
          (record g1 { init_count = next_init_count g.init_count; have_c_init = true })
      else (false, record g1 { have_c_error = true; token = finalize t })

  unfoldable pub luna_init_p11_deferred : Globals c.Token → Bool × Globals c.Token
  luna_init_p11_deferred g =
      let (loaded, g1) = luna_load_p11_deferred c cfg g in
      if not loaded then (false, g1) else if g1.have_c_init then (false, g1) else start_p11 g1

  -- The lock is the caller's.
  unfoldable pub luna_init_p11_conditional : Globals c.Token → Bool × Globals c.Token
  luna_init_p11_conditional g = if g.have_c_init then (true, g) else luna_init_p11_deferred g

  -- One round of the logout loop in luna_fini_p11.
  unfoldable pub logout_slot : ℕ → Globals c.Token → Globals c.Token
  logout_slot ii g =
      let pw = get g.pws ii in
      if is_zero (luna_get_enable_login_init cfg)
      then g
      else if not (pw.bool_init == 1)
      then g
      else elim pw.sz_pass [
        | none ↦ g
        | some _ ↦
            if pw.h_session == luna_invalid_handle
            then g
            else let (_, t) = c.c_logout pw.h_session g.token in
              let (_, t') = luna_close_session c pw.h_session t in
              record g {
                token = t';
                pws = put g.pws ii (record pw { h_session = luna_invalid_handle });
              }
      ]

  -- The two luna_cache_delete_ALL calls of luna_fini_p11.
  unfoldable pub close_cached : Globals c.Token → Globals c.Token
  close_cached g =
      let cb = luna_callback_close_session c in
      let (left0, s0) = luna_cache_delete_all (some cb) g.ckses.at0 (g.cb_tainted, g.token) in
      let (left1, s1) = luna_cache_delete_all (some cb) g.ckses.at1 s0 in
      record g { ckses = record { at0 = left0; at1 = left1 }; cb_tainted = s1.0; token = s1.1 }

  -- What is done only while the library is initialized.
  unfoldable pub stop_p11 : Globals c.Token → Globals c.Token
  stop_p11 g =
      let g1 = logout_slot 0 g in
      let g2 : Globals c.Token = elim (luna_get_engine2_init cfg) [
        | none ↦ g1
        | some _ ↦ logout_slot 1 g1
      ] in
      let g3 = close_cached g2 in record g3 { token = finalize g3.token; have_c_init = false }

  abbrev clear_slot : SlotState → SlotState
  clear_slot s = record s { session_handle = luna_invalid_handle; slot_activity = 0 }

  unfoldable pub luna_fini_p11 : Globals c.Token → Globals c.Token
  luna_fini_p11 g =
      let g1 = if g.have_c_init then stop_p11 g else g in
      record g1 {
        ckses = record { at0 = []; at1 = [] };
        slots = record { at0 = clear_slot g1.slots.at0; at1 = clear_slot g1.slots.at1 };
        activity = 0;
      }

-- ===== src/Engine/Session/Steady.antt =====
-- What the calls of Engine/Session/Init.antt leave alone: the mutex, whose library it is, and the
-- activity counts.
use luna_openssl_provider.Prelude.{
  ℕ, ◌≡◌, ◌≢◌, refl, ◌∙◌, true, false, Option, none, some, List, [], arith,
}
use luna_openssl_provider.Cryptoki.{Cryptoki}
use luna_openssl_provider.Engine.Config.{Config, luna_get_engine_init, luna_get_engine2_init}
use luna_openssl_provider.Engine.Session.State.{Globals}
use luna_openssl_provider.Engine.Session.Commands.{
  EngineCmd, login_slot, luna_do_deferred_login, luna_load_p11_deferred, luna_cmdarg_engine_ext2,
  run_engine_cmd, next_init_count,
}
use luna_openssl_provider.Engine.Session.Init.{
  luna_fini_p11, luna_init_p11_deferred, start_p11, after_c_initialize, run_init_string,
  call_c_initialize, logout_slot, stop_p11, close_cached,
}

pub record Steady {T : Type 0} (g g' : Globals T) : Type 0 where
  pub same_pid : g'.pid_c_init ≡ g.pid_c_init
  pub same_self : g'.self ≡ g.self
  pub same_held : g'.held ≡ g.held
  pub same_activity : g'.activity ≡ g.activity
  pub same_slot0 : g'.slots.at0.slot_activity ≡ g.slots.at0.slot_activity
  pub same_slot1 : g'.slots.at1.slot_activity ≡ g.slots.at1.slot_activity

-- The init count is never 0, so a context that was never opened is never taken for one of the
-- library's.
pub next_init_count-ne-zero : (n : ℕ) → next_init_count n ≢ 0
unfolding next_init_count
next_init_count-ne-zero n = ground arith

module _ (c : Cryptoki) (cfg : Config) where
  abbrev Running : Globals c.Token → Globals c.Token → Type 0
  Running g g' = Steady g g' × (g'.have_c_init ≡ g.have_c_init)

  login_slot-Steady : (ii : ℕ) (g : Globals c.Token) → Running g (login_slot c cfg ii g).1
  unfolding login_slot
  login_slot-Steady ii g = ground arith

  pub luna_do_deferred_login-Steady :
      (g : Globals c.Token) → Running g (luna_do_deferred_login c cfg g).1
  unfolding luna_do_deferred_login
  luna_do_deferred_login-Steady g =
      ground (arith, login_slot-Steady 0 g, login_slot-Steady 1 (login_slot c cfg 0 g).1)

  run_init_string-Steady :
      (s : Option (List ℕ)) (g : Globals c.Token)
      → Running g (run_init_string c cfg s EngineCmd.engineinit g).1
        × Running g (run_init_string c cfg s EngineCmd.engine2init g).1
  unfolding run_init_string luna_cmdarg_engine_ext2 run_engine_cmd
  run_init_string-Steady none g = ground arith
  run_init_string-Steady (some arg) g = ground arith

  -- The start's tail says whether the library is initialized.
  after_c_initialize-Steady :
      (g : Globals c.Token)
      → g.have_c_init ≡ true
      → let res = after_c_initialize c cfg g in (res.1.have_c_init ≡ res.0) × Steady g res.1
  unfolding after_c_initialize
  after_c_initialize-Steady g on =
      let e1 = luna_get_engine_init cfg in
      let e2 = luna_get_engine2_init cfg in
      let g1 = (run_init_string c cfg e1 EngineCmd.engineinit g).1 in
      let g2 = (run_init_string c cfg e2 EngineCmd.engine2init g1).1 in
      ground (
        arith,
        (run_init_string-Steady e1 g).0,
        (run_init_string-Steady e2 g1).1,
        luna_do_deferred_login-Steady g2,
      )

  start_p11_result :
      (g : Globals c.Token)
      → g.have_c_init ≡ false
      → let res = start_p11 c cfg g in
        (res.1.have_c_init ≡ res.0) × Steady (record g { pid_c_init = g.self }) res.1
  unfolding start_p11
  start_p11_result g off =
      let g1 : Globals c.Token = record g {
        ckses = record { at0 = []; at1 = [] };
        pid_c_init = g.self;
        token = (call_c_initialize c cfg g.token).1;
        init_count = next_init_count g.init_count;
        have_c_init = true;
      } in
      ground (arith, after_c_initialize-Steady g1 refl)

  luna_load_p11_deferred-Steady :
      (g : Globals c.Token) → Running g (luna_load_p11_deferred c cfg g).1
  unfolding luna_load_p11_deferred
  luna_load_p11_deferred-Steady g = ground arith

  -- Starting a library that is not initialized succeeds exactly if it is initialized afterwards, and
  -- a start that succeeds belongs to the process that made it; the mutex and the activity counts
  -- are as before.
  pub luna_init_p11_deferred_result :
      (g : Globals c.Token)
      → g.have_c_init ≡ false
      → let res = luna_init_p11_deferred c cfg g in
        (res.1.have_c_init ≡ res.0)
        × (res.0 ≡ true → res.1.pid_c_init ≡ g.self)
        × Steady (record g { pid_c_init = res.1.pid_c_init }) res.1
  unfolding luna_init_p11_deferred
  luna_init_p11_deferred_result g off =
      let g1 = (luna_load_p11_deferred c cfg g).1 in
      let a = luna_load_p11_deferred-Steady g in
      let b = start_p11_result g1 (a.1 ∙ off) in
      (ground (arith, a, b), ground (arith, a, b), ground (arith, a, b))

  -- The end of the library.
  pub record Ended (g g' : Globals c.Token) : Type 0 where
    pub ended_pid : g'.pid_c_init ≡ g.pid_c_init
    pub ended_self : g'.self ≡ g.self
    pub ended_held : g'.held ≡ g.held
    pub ended_activity : g'.activity ≡ 0
    pub ended_slot0 : g'.slots.at0.slot_activity ≡ 0
    pub ended_slot1 : g'.slots.at1.slot_activity ≡ 0
    pub ended_init : g'.have_c_init ≡ false

  logout_slot-Steady : (ii : ℕ) (g : Globals c.Token) → Steady g (logout_slot c cfg ii g)
  unfolding logout_slot
  logout_slot-Steady ii g = ground arith

  pub luna_fini_p11-Ended : (g : Globals c.Token) → Ended g (luna_fini_p11 c cfg g)
  unfolding luna_fini_p11 stop_p11 close_cached
  luna_fini_p11-Ended g =
      ground (arith, logout_slot-Steady 0 g, logout_slot-Steady 1 (logout_slot c cfg 0 g))

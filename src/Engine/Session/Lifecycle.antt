-- ===== src/Engine/Session/Lifecycle.antt =====
-- Starting, stopping and recovering the library (Engine/Session/Init.antt) as abstract moves.
use luna_openssl_provider.Prelude.{
  ℕ, ◌+◌, ◌^◌, ◌<◌, ◌≡◌, refl, inl, inr, true, false, Option, none, some, List, [], arith,
  Bool-cases,
}
use luna_openssl_provider.Cryptoki.{Cryptoki, SessionRules}
use luna_openssl_provider.Engine.Config.{Config, luna_get_engine_init, luna_get_engine2_init}
use luna_openssl_provider.Engine.Session.State.{Globals}
use luna_openssl_provider.Engine.Session.Commands.{
  EngineCmd, login_slot, luna_do_deferred_login, luna_load_p11_deferred, luna_cmdarg_engine_ext2,
  run_engine_cmd, next_init_count,
}
use luna_openssl_provider.Engine.Session.Init.{
  luna_fini_p11, stop_p11, logout_slot, close_cached, luna_init_p11_deferred,
  luna_init_p11_conditional, start_p11, after_c_initialize, run_init_string, call_c_initialize,
}
use luna_openssl_provider.Engine.Session.Moves.{
  count, luna_open_session-Grows, luna_open_session-some, luna_pw_login-Grows,
  luna_close_session-keeps, Kept, Reset, Passive, Kept-refl, Kept-trans, Passive-trans,
}

module _ (c : Cryptoki) (r : SessionRules c) (cfg : Config) where
  login_slot-IsOpen :
      (ii : ℕ) (g : Globals c.Token) (h : ℕ)
      → r.IsOpen g.token h
      → r.IsOpen (login_slot c cfg ii g).1.token h
  unfolding login_slot
  login_slot-IsOpen ii g h o = grind (
    arith,
    luna_open_session-Grows c r,
    luna_open_session-some c r,
    luna_pw_login-Grows c r,
    luna_close_session-keeps c r,
  )

  pub login_slot-Kept : (ii : ℕ) (g : Globals c.Token) → Kept c r g (login_slot c cfg ii g).1
  unfolding login_slot
  login_slot-Kept ii g = record {
    same_count = ground arith;
    same_init = ground arith;
    same_self = ground arith;
    fewer = λ h. ground arith;
    grows = λ h o. login_slot-IsOpen ii g h o;
  }

  pub luna_do_deferred_login-Kept :
      (g : Globals c.Token) → Kept c r g (luna_do_deferred_login c cfg g).1
  unfolding luna_do_deferred_login
  luna_do_deferred_login-Kept g =
      let first = login_slot-Kept 0 g in
      ground (
        arith,
        Kept-refl c r g,
        first,
        Kept-trans c r first (login_slot-Kept 1 (login_slot c cfg 0 g).1),
      )

  -- luna_fini_p11 ends the library's life, whatever was going on.
  logout_slot-same :
      (ii : ℕ) (g : Globals c.Token)
      → ((logout_slot c cfg ii g).init_count ≡ g.init_count)
        × ((logout_slot c cfg ii g).self ≡ g.self)
  unfolding logout_slot
  logout_slot-same ii g = (ground arith, ground arith)

  stop_p11-same :
      (g : Globals c.Token)
      → ((stop_p11 c cfg g).init_count ≡ g.init_count)
        × ((stop_p11 c cfg g).self ≡ g.self)
        × ((stop_p11 c cfg g).have_c_init ≡ false)
  unfolding stop_p11 close_cached
  stop_p11-same g =
      let g1 = logout_slot c cfg 0 g in
      let a = logout_slot-same 0 g in
      let b = logout_slot-same 1 g1 in (ground (arith, a, b), ground (arith, a, b), refl)

  pub luna_fini_p11-same :
      (g : Globals c.Token)
      → ((luna_fini_p11 c cfg g).init_count ≡ g.init_count)
        × ((luna_fini_p11 c cfg g).self ≡ g.self)
        × ((luna_fini_p11 c cfg g).have_c_init ≡ false)
        × ((luna_fini_p11 c cfg g).ckses ≡ record { at0 = []; at1 = [] })
  unfolding luna_fini_p11
  luna_fini_p11-same g =
      let a = stop_p11-same g in (ground (arith, a), ground (arith, a), ground (arith, a), refl)

  pub luna_fini_p11-Reset : (g : Globals c.Token) → Reset c r g (luna_fini_p11 c cfg g)
  unfolding count
  luna_fini_p11-Reset g =
      let a = luna_fini_p11-same g in
      record {
        later_count = omega (arith, a.0);
        ended = inl a.2;
        reset_self = a.1;
        emptied = λ h. rw a.3;
      }

  -- What a start leaves alone.
  abbrev Fixed : Globals c.Token → Globals c.Token → Type 0
  Fixed g g' = (g'.init_count ≡ g.init_count) × (g'.self ≡ g.self) × (g'.ckses ≡ g.ckses)

  login_slot-Fixed : (ii : ℕ) (g : Globals c.Token) → Fixed g (login_slot c cfg ii g).1
  unfolding login_slot
  login_slot-Fixed ii g = (ground arith, ground arith, ground arith)

  luna_do_deferred_login-Fixed : (g : Globals c.Token) → Fixed g (luna_do_deferred_login c cfg g).1
  unfolding luna_do_deferred_login
  luna_do_deferred_login-Fixed g =
      let a = login_slot-Fixed 0 g in
      let b = login_slot-Fixed 1 (login_slot c cfg 0 g).1 in
      (ground (arith, a, b), ground (arith, a, b), ground (arith, a, b))

  run_init_string-Fixed :
      (s : Option (List ℕ)) (g : Globals c.Token)
      → Fixed g (run_init_string c cfg s EngineCmd.engineinit g).1
        × Fixed g (run_init_string c cfg s EngineCmd.engine2init g).1
  unfolding run_init_string luna_cmdarg_engine_ext2 run_engine_cmd
  run_init_string-Fixed none g = ((refl, refl, refl), (refl, refl, refl))
  run_init_string-Fixed (some arg) g =
      ((ground arith, ground arith, ground arith), (ground arith, ground arith, ground arith))

  after_c_initialize-Fixed : (g : Globals c.Token) → Fixed g (after_c_initialize c cfg g).1
  unfolding after_c_initialize
  after_c_initialize-Fixed g =
      let e1 = luna_get_engine_init cfg in
      let e2 = luna_get_engine2_init cfg in
      let g1 = (run_init_string c cfg e1 EngineCmd.engineinit g).1 in
      let g2 = (run_init_string c cfg e2 EngineCmd.engine2init g1).1 in
      let a = (run_init_string-Fixed e1 g).0 in
      let b = (run_init_string-Fixed e2 g1).1 in
      let d = luna_do_deferred_login-Fixed g2 in
      (ground (arith, a, b, d), ground (arith, a, b, d), ground (arith, a, b, d))

  next_init_count-suc : (n : ℕ) → n + 1 < 2 ^ 32 → next_init_count n ≡ n + 1
  unfolding next_init_count
  next_init_count-suc n h = ground arith

  start_p11-Reset :
      (g : Globals c.Token)
      → g.have_c_init ≡ false
      → g.init_count + 1 < 2 ^ 32
      → Reset c r g (start_p11 c cfg g).1
  unfolding start_p11 count
  start_p11-Reset g off room =
      let g1 : Globals c.Token = record g {
        ckses = record { at0 = []; at1 = [] };
        pid_c_init = g.self;
        token = (call_c_initialize c cfg g.token).1;
        init_count = next_init_count g.init_count;
        have_c_init = true;
      } in
      let a = after_c_initialize-Fixed g1 in
      let n = next_init_count-suc g.init_count room in
      record {
        later_count = ground (arith, a.0, n);
        ended = ground (arith, a.0, n);
        reset_self = ground (arith, a.1);
        emptied = λ h. ground (arith, a.2);
      }

  luna_load_p11_deferred-Kept :
      (g : Globals c.Token) → Kept c r g (luna_load_p11_deferred c cfg g).1
  unfolding luna_load_p11_deferred
  luna_load_p11_deferred-Kept g = record {
    same_count = ground arith;
    same_init = ground arith;
    same_self = ground arith;
    fewer = λ h. ground arith;
    grows = λ h o. ground (arith, r.load_keeps g.token h o);
  }

  luna_init_p11_deferred-Passive :
      (g : Globals c.Token)
      → g.init_count + 1 < 2 ^ 32
      → Passive c r g (luna_init_p11_deferred c cfg g).1
  unfolding luna_init_p11_deferred
  luna_init_p11_deferred-Passive g room =
      let g1 = (luna_load_p11_deferred c cfg g).1 in
      let k = luna_load_p11_deferred-Kept g in
      elim (Bool-cases (luna_load_p11_deferred c cfg g).0) [
        | inr e ↦ rw e (inl k)
        | inl e ↦ elim (Bool-cases g1.have_c_init) [
          | inl on ↦ rw (e, on) (inl k)
          | inr off ↦
              rw (e, off)
                (Passive-trans c r (inl k)
                  (inr (start_p11-Reset g1 off (omega (arith, k.same_count)))))
        ]
      ]

  pub luna_init_p11_conditional-Passive :
      (g : Globals c.Token)
      → g.init_count + 1 < 2 ^ 32
      → Passive c r g (luna_init_p11_conditional c cfg g).1
  unfolding luna_init_p11_conditional
  luna_init_p11_conditional-Passive g room = elim (Bool-cases g.have_c_init) [
    | inl on ↦ simp on (inl (Kept-refl c r g))
    | inr off ↦ simp off (luna_init_p11_deferred-Passive g room)
  ]

-- ===== src/Engine/Session/Process.antt =====
-- Whose library a context uses: the fork check of luna_open_context_ndx.
use luna_openssl_provider.Prelude.{ℕ, ◌≡◌, true, arith, is_zero}
use luna_openssl_provider.Cryptoki.{Cryptoki}
use luna_openssl_provider.Engine.Config.{Config}
use luna_openssl_provider.Engine.Session.State.{Context, Globals}
use luna_openssl_provider.Engine.Session.Cache.{luna_cache_pop}
use luna_openssl_provider.Engine.Session.Init.{luna_fini_p11, luna_init_p11_conditional}
use luna_openssl_provider.Engine.Session.Context.{
  finalize_if_forked, note_process, open_failed, open_succeeded, open_login, open_on_slot,
  open_locked, new_context,
}
use luna_openssl_provider.Engine.Session.Steady.{luna_init_p11_deferred_result, luna_fini_p11-Ended}

module _ (c : Cryptoki) (cfg : Config) where
  abbrev SamePids : Globals c.Token → Globals c.Token → Type 0
  SamePids g g' = (g'.pid_c_init ≡ g.pid_c_init) × (g'.self ≡ g.self)

  open_failed-pids : (ctx : Context) (g : Globals c.Token) → SamePids g (open_failed c cfg ctx g).2
  unfolding open_failed
  open_failed-pids ctx g = ground (arith, luna_fini_p11-Ended c cfg g)

  open_succeeded-pids :
      (ctx : Context) (k : ℕ) (g : Globals c.Token) → SamePids g (open_succeeded c cfg ctx k g).2
  unfolding open_succeeded
  open_succeeded-pids ctx k g = ground arith

  open_login-pids :
      (ctx : Context) (k : ℕ) (g : Globals c.Token) → SamePids g (open_login c cfg ctx k g).2
  unfolding open_login
  open_login-pids ctx k g = (
    grind (arith, open_failed-pids, open_succeeded-pids),
    grind (arith, open_failed-pids, open_succeeded-pids),
  )

  open_on_slot-pids :
      (ctx : Context) (g : Globals c.Token) → SamePids g (open_on_slot c cfg ctx g).2
  unfolding open_on_slot luna_cache_pop
  open_on_slot-pids ctx g = (
    grind (arith, open_failed-pids, open_succeeded-pids, open_login-pids),
    grind (arith, open_failed-pids, open_succeeded-pids, open_login-pids),
  )

  note_process-pids : (g : Globals c.Token) → SamePids g (note_process c cfg g).1
  unfolding note_process
  note_process-pids g = ground arith

  -- While the fork check is on, a library that another process started is ended before an open, so
  -- it is initialized by this process when the context gets its session.
  ready-pid :
      (g : Globals c.Token)
      → is_zero cfg.disable_check_finalize ≡ true
      → let res = luna_init_p11_conditional c cfg (finalize_if_forked c cfg g) in
        res.0 ≡ true → res.1.pid_c_init ≡ res.1.self
  unfolding luna_init_p11_conditional finalize_if_forked
  ready-pid g check =
      let ended = luna_fini_p11 c cfg g in
      ground (
        arith,
        luna_fini_p11-Ended c cfg g,
        luna_init_p11_deferred_result c cfg g,
        luna_init_p11_deferred_result c cfg ended,
      )

  -- With the fork check on (DisableCheckFinalize = 0), every open that takes the lock and succeeds
  -- leaves a library that this very process has initialized: a child does not go on with the
  -- library of its parent.
  pub open_locked-pid :
      (ndx : ℕ) (g : Globals c.Token)
      → is_zero cfg.disable_check_finalize ≡ true
      → (open_locked c cfg ndx g).0 ≡ true
      → (open_locked c cfg ndx g).2.pid_c_init ≡ (open_locked c cfg ndx g).2.self
  unfolding open_locked
  open_locked-pid ndx g check done =
      let g1 : Globals c.Token = record g { held = true } in
      let res = luna_init_p11_conditional c cfg (finalize_if_forked c cfg g1) in
      let noted = note_process c cfg res.1 in
      ground (
        arith,
        ready-pid g1 check,
        note_process-pids res.1,
        open_on_slot-pids (new_context c cfg ndx noted.0 noted.1) noted.1,
      )

-- ===== src/Engine/Session/Opened.antt =====
-- A session that luna_open_context has just opened is one of a library that runs.
use luna_openssl_provider.Prelude.{ℕ, ◌≡◌, Bool, true, arith}
use luna_openssl_provider.Cryptoki.{Cryptoki}
use luna_openssl_provider.Engine.Config.{Config}
use luna_openssl_provider.Engine.Session.State.{Context, context_init, Globals, luna_max_slot}
use luna_openssl_provider.Engine.Session.Cache.{luna_cache_pop}
use luna_openssl_provider.Engine.Session.Init.{luna_init_p11_conditional}
use luna_openssl_provider.Engine.Session.Context.{
  finalize_if_forked, note_process, open_failed, open_succeeded, open_login, open_on_slot,
  open_locked, new_context, luna_open_context_ndx, luna_open_context,
}
use luna_openssl_provider.Engine.Session.Steady.{luna_init_p11_deferred_result}

module _ (c : Cryptoki) (cfg : Config) where
  abbrev Runs : Globals c.Token → Bool × Context × Globals c.Token → Type 0
  Runs g r = r.0 ≡ true → r.2.have_c_init ≡ g.have_c_init

  open_failed-Runs : (ctx : Context) (g g' : Globals c.Token) → Runs g' (open_failed c cfg ctx g)
  unfolding open_failed
  open_failed-Runs ctx g g' = ground arith

  open_succeeded-Runs :
      (ctx : Context) (k : ℕ) (g : Globals c.Token) → Runs g (open_succeeded c cfg ctx k g)
  unfolding open_succeeded
  open_succeeded-Runs ctx k g = ground arith

  open_login-Runs :
      (ctx : Context) (k : ℕ) (g : Globals c.Token) → Runs g (open_login c cfg ctx k g)
  unfolding open_login open_failed
  open_login-Runs ctx k g = grind (arith, open_succeeded-Runs)

  open_on_slot-Runs : (ctx : Context) (g : Globals c.Token) → Runs g (open_on_slot c cfg ctx g)
  unfolding open_on_slot luna_cache_pop open_failed
  open_on_slot-Runs ctx g = grind (arith, open_succeeded-Runs, open_login-Runs)

  note_process-runs : (g : Globals c.Token) → (note_process c cfg g).1.have_c_init ≡ g.have_c_init
  unfolding note_process
  note_process-runs g = ground arith

  ready-runs :
      (g : Globals c.Token)
      → let res = luna_init_p11_conditional c cfg g in res.0 ≡ true → res.1.have_c_init ≡ true
  unfolding luna_init_p11_conditional
  ready-runs g = ground (arith, luna_init_p11_deferred_result c cfg g)

  open_locked-runs :
      (ndx : ℕ) (g : Globals c.Token)
      → let res = open_locked c cfg ndx g in res.0 ≡ true → res.2.have_c_init ≡ true
  unfolding open_locked
  open_locked-runs ndx g done =
      let g1 = finalize_if_forked c cfg (record g { held = true }) in
      let res = luna_init_p11_conditional c cfg g1 in
      let noted = note_process c cfg res.1 in
      ground (
        arith,
        ready-runs g1,
        note_process-runs res.1,
        open_on_slot-Runs (new_context c cfg ndx noted.0 noted.1) noted.1,
      )

  pub luna_open_context-runs :
      (g : Globals c.Token)
      → let res = luna_open_context c cfg context_init g in res.0 ≡ true → res.2.have_c_init ≡ true
  unfolding luna_open_context luna_open_context_ndx
  luna_open_context-runs g = open_locked-runs luna_max_slot g

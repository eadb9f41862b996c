-- ===== src/Engine/Session/Close.antt =====
-- luna_close_context_w_err of engine/e_gem.c, with the recovery that it may do.
use luna_openssl_provider.Prelude.{
  ℕ, ◌-◌, Bool, true, false, ◌&&◌, ◌||◌, not, none, some, ◌==◌, leb, ltb_ℤ, is_zero, pos,
  if◌then◌else◌,
}
use luna_openssl_provider.Cryptoki.{Cryptoki, ckr_ok, luna_invalid_handle}
use luna_openssl_provider.Engine.Config.{Config, luna_get_recovery_level}
use luna_openssl_provider.Engine.Session.State.{
  get, put, luna_max_slot, Context, Globals, luna_mutex_enter, luna_mutex_exit,
}
use luna_openssl_provider.Engine.Session.Cache.{
  luna_cache_push, luna_cache_delete_all, luna_close_session,
}
use luna_openssl_provider.Engine.Session.Commands.{luna_do_deferred_login}
use luna_openssl_provider.Engine.Session.Init.{luna_fini_p11}
use luna_openssl_provider.Engine.Session.Context.{
  closed, waiting, luna_rv_needs_recovery, luna_rv_needs_finalize, luna_context_set_last_error,
  Closing, context_closed,
}

module _ (c : Cryptoki) (cfg : Config) where
  unfoldable pub decrement_activity : ℕ → Globals c.Token → Globals c.Token
  decrement_activity i g =
      let s = get g.slots i in
      record g {
        slots = put g.slots i (record s { slot_activity = s.slot_activity - 1 });
        activity = g.activity - 1;
      }

  -- "dont cache session, because an error occurred or session cache disabled"
  unfoldable pub drop_session : Context → Globals c.Token → Bool × Context × Globals c.Token
  drop_session ctx g =
      let (_, t) = luna_close_session c ctx.h_session g.token in
      (
        luna_rv_needs_recovery ctx.rv_last,
        record ctx { h_session = luna_invalid_handle; pcache = none },
        record g { token = t },
      )

  -- The session goes back to the cache, or is closed, or is forgotten; whether recovery is needed.
  unfoldable pub return_session :
      Context → Bool → Globals c.Token → Bool × Context × Globals c.Token
  return_session ctx w_err g =
      let i = ctx.per_slot_id in
      if g.have_c_init && ctx.count_c_init == g.init_count && ctx.pid == g.self
      then elim ctx.pcache [
        | none ↦ drop_session ctx g
        | some item ↦
            if w_err || not (is_zero cfg.disable_session_cache) then drop_session ctx g else (
              false,
              record ctx { pcache = none },
              record g { ckses = put g.ckses i (luna_cache_push (get g.ckses i) (some item)) },
            )
      ]
      else (true, record ctx { pcache = none }, g)

  -- "if one session is bad then likely all sessions are bad so purge the cache"
  unfoldable pub purge_caches : Globals c.Token → Globals c.Token
  purge_caches g = record g {
    ckses = record {
      at0 = (luna_cache_delete_all none g.ckses.at0 tt).0;
      at1 = (luna_cache_delete_all none g.ckses.at1 tt).0;
    };
  }

  -- Recovery, with the mutex held and no activity: a login, and a C_Finalize if that fails.
  unfoldable pub close_recover : Context → Globals c.Token → Globals c.Token
  close_recover ctx g =
      let level = luna_get_recovery_level cfg in
      let (logged_in, g1) = luna_do_deferred_login c cfg g in
      let g2 : Globals c.Token =
        if ltb_ℤ level (pos 1)
        then g
        else if not logged_in && luna_rv_needs_finalize ctx.rv_last && not (ltb_ℤ level (pos 2))
        then luna_fini_p11 c cfg g1
        else g1 in
      luna_mutex_exit (record g2 { flag_recovery = false })

  -- From `if (context->flagFinalizePending == 1)` on.
  unfoldable pub finish_close : Bool → Context → Globals c.Token → Closing × Globals c.Token
  finish_close recovery ctx g =
      if ctx.flag_finalize_pending
      then (closed context_closed, luna_mutex_exit (luna_fini_p11 c cfg g))
      else if not recovery
      then (closed context_closed, luna_mutex_exit g)
      else if g.activity == 0
      then (closed context_closed, close_recover ctx (record g { flag_recovery = true }))
      else (waiting ctx, luna_mutex_exit (record g { flag_recovery = true }))

  unfoldable pub close_locked : Context → Bool → Globals c.Token → Closing × Globals c.Token
  close_locked ctx w_err g =
      let (recovery, ctx1, g1) = return_session ctx w_err (decrement_activity ctx.per_slot_id g) in
      finish_close recovery ctx1 (if recovery then purge_caches g1 else g1)

  unfoldable pub luna_close_context_w_err :
      Context → Bool → ℕ → Globals c.Token → Closing × Globals c.Token
  luna_close_context_w_err ctx flag_err rv_last g =
      let w_err = flag_err || not (rv_last == ckr_ok) in
      let ctx1 = luna_context_set_last_error ctx rv_last in
      if not ctx1.flag_init
      then (closed ctx1, g)
      else if leb luna_max_slot ctx1.per_slot_id
      then (closed ctx1, g)
      else if not ctx1.flag_finalize_pending && is_zero cfg.disable_multi_thread
      then close_locked ctx1 w_err (luna_mutex_enter g)
      else close_locked ctx1 w_err g

  unfoldable pub luna_close_context : Context → Globals c.Token → Closing × Globals c.Token
  luna_close_context ctx g = luna_close_context_w_err ctx false ctx.rv_last g

  -- A thread that waited goes on.
  unfoldable pub close_resume : Context → Globals c.Token → Context × Globals c.Token
  close_resume ctx g = (context_closed, close_recover ctx (luna_mutex_enter g))

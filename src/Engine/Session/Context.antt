-- ===== src/Engine/Session/Context.antt =====
-- luna_open_context_ndx and luna_context_set_last_error of
-- engine/e_gem.c. Built with LUNA_21906_RECOVERY and LUNA_21906_RECOVERY_FINALIZE, as the source
-- has it. A loop that sleeps until another thread has changed a global is a precondition: a thread
-- goes on with `open_locked` when `flag_recovery` is clear, and with `close_recover` when the
-- activity count is zero; what the other threads do meanwhile are steps of their own.
use luna_openssl_provider.Prelude.{
  ℕ, ◌+◌, Bool, true, false, ◌&&◌, not, none, some, ◌==◌, ltb, leb, ltb_ℤ, is_zero, pos,
  if◌then◌else◌,
}
use luna_openssl_provider.Cryptoki.{Cryptoki, ckr_ok, luna_invalid_handle}
use luna_openssl_provider.Engine.Config.{Config, luna_get_engine2_init, luna_ps_check_lib}
use luna_openssl_provider.Engine.Password.{luna_pw_login}
use luna_openssl_provider.Engine.Session.State.{
  get, put, luna_max_slot, Context, context_init, Globals, luna_mutex_enter, luna_mutex_exit,
  luna_rv_severity,
}
use luna_openssl_provider.Engine.Session.Cache.{
  luna_cache_pop, luna_open_session, luna_close_session,
}
use luna_openssl_provider.Engine.Session.Init.{luna_init_p11_conditional, luna_fini_p11}

unfoldable pub luna_rv_needs_recovery : ℕ → Bool
luna_rv_needs_recovery rv = leb 1 (luna_rv_severity rv)

unfoldable pub luna_rv_needs_finalize : ℕ → Bool
luna_rv_needs_finalize rv = leb 2 (luna_rv_severity rv)

unfoldable pub luna_context_set_last_error : Context → ℕ → Context
luna_context_set_last_error ctx rv =
    if ltb (luna_rv_severity ctx.rv_last) (luna_rv_severity rv)
    then record ctx { rv_last = rv }
    else ctx

-- A closing thread has returned with this context, or it waits for the activity to reach zero.
pub data Closing : Type 0 where
  closed : Context → Closing
  waiting : Context → Closing

-- The context behind every return but the first two of luna_close_context_w_err.
abbrev pub context_closed : Context
context_closed = record context_init { flag_error = true }

module _ (c : Cryptoki) (cfg : Config) where
  -- "if child detects fork"
  unfoldable pub finalize_if_forked : Globals c.Token → Globals c.Token
  finalize_if_forked g =
      if is_zero cfg.disable_check_finalize && not (g.self == g.pid_c_init)
      then luna_fini_p11 c cfg g
      else g

  -- Whether the process is the one that bound the engine, or one of its intermediate children:
  -- `flagFinalizePending`, and the process counters.
  unfoldable pub note_process : Globals c.Token → Bool × Globals c.Token
  note_process g =
      if not (is_zero cfg.disable_check_finalize)
      then (false, record g { in_child_v = true })
      else if g.self == g.pid_bind
      then (true, record g { in_child_v = false })
      else let g1 : Globals c.Token = if g.pid_intermediate == g.self then g else record g {
        pid_intermediate_count = g.pid_intermediate_count + 1;
        pid_intermediate = g.self;
      } in
        if ltb_ℤ cfg.intermediate_processes (pos g1.pid_intermediate_count)
        then (false, record g1 { in_child_v = true })
        else (true, record g1 { in_child_v = false })

  -- "Use shortest waiting line", or the index that was asked for.
  unfoldable pub choose_slot : ℕ → Globals c.Token → ℕ
  choose_slot ndx g = elim (luna_get_engine2_init cfg) [
    | none ↦ 0
    | some _ ↦
        if leb luna_max_slot ndx
        then if leb g.slots.at0.slot_activity g.slots.at1.slot_activity then 0 else 1
        else ndx
  ]

  -- A failure with the mutex held: a pending C_Finalize is done before the mutex is left.
  unfoldable pub open_failed : Context → Globals c.Token → Bool × Context × Globals c.Token
  open_failed ctx g =
      (false, ctx, luna_mutex_exit (if ctx.flag_finalize_pending then luna_fini_p11 c cfg g else g))

  unfoldable pub open_succeeded : Context → ℕ → Globals c.Token → Bool × Context × Globals c.Token
  open_succeeded ctx h g =
      let i = ctx.per_slot_id in
      let s = get g.slots i in
      let g1 : Globals c.Token = record g {
        slots = put g.slots i (record s { slot_activity = s.slot_activity + 1 });
        activity = g.activity + 1;
      } in
      let ctx1 : Context = record ctx {
        h_session = h;
        pcache = some h;
        flag_init = true;
        flag_error = false;
      } in
      if not ctx.flag_finalize_pending && is_zero cfg.disable_multi_thread
      then (true, ctx1, luna_mutex_exit g1)
      else (true, ctx1, g1)

  -- The login of a new session, which only a library with CT_HsmIdFromSlotId wants.
  unfoldable pub open_login : Context → ℕ → Globals c.Token → Bool × Context × Globals c.Token
  open_login ctx h g =
      let i = ctx.per_slot_id in
      let (rv, pw, t) = luna_pw_login c cfg (get g.pws i) h g.token in
      let g1 : Globals c.Token = record g { token = t; pws = put g.pws i pw } in
      if not (luna_ps_check_lib cfg)
      then open_succeeded ctx h g
      else if rv == ckr_ok
      then open_succeeded ctx h g1
      else let (_, t') = luna_close_session c h t in
        open_failed (record ctx { h_session = luna_invalid_handle }) (record g1 { token = t' })

  -- A session from the cache, or a new one.
  unfoldable pub open_on_slot : Context → Globals c.Token → Bool × Context × Globals c.Token
  open_on_slot ctx g =
      let i = ctx.per_slot_id in
      elim (luna_cache_pop (get g.ckses i)) [
        | some (h, rest) ↦ open_succeeded ctx h (record g { ckses = put g.ckses i rest })
        | none ↦
            let (opened, t) = luna_open_session c ctx.slotid g.token in
            elim opened [
              | none ↦ open_failed ctx (record g { token = t })
              | some h ↦ open_login (record ctx { h_session = h }) h (record g { token = t })
            ]
      ]

  -- The context on the way to its session.
  abbrev pub new_context : ℕ → Bool → Globals c.Token → Context
  new_context ndx pending g =
      let i = choose_slot ndx g in
      record context_closed {
        flag_finalize_pending = pending;
        per_slot_id = i;
        slotid = (get g.slots i).slot_id;
        count_c_init = g.init_count;
        pid = g.self;
      }

  -- From `context->flagError = 1` on, with `flag_recovery` clear.
  unfoldable pub open_locked : ℕ → Globals c.Token → Bool × Context × Globals c.Token
  open_locked ndx g =
      let (ready, g1) = luna_init_p11_conditional c cfg (finalize_if_forked (luna_mutex_enter g)) in
      if not ready
      then (false, context_closed, luna_mutex_exit g1)
      else let (pending, g2) = note_process g1 in open_on_slot (new_context ndx pending g2) g2

  unfoldable pub luna_open_context_ndx :
      Context → ℕ → Globals c.Token → Bool × Context × Globals c.Token
  luna_open_context_ndx ctx ndx g =
      if ctx.flag_error
      then (false, ctx, g)
      else if ctx.flag_init
      then (true, ctx, g)
      else open_locked ndx g

  unfoldable pub luna_open_context : Context → Globals c.Token → Bool × Context × Globals c.Token
  luna_open_context ctx g = luna_open_context_ndx ctx luna_max_slot g

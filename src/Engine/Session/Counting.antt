-- ===== src/Engine/Session/Counting.antt =====
-- The mutex and the activity counts of luna_open_context_ndx.
use luna_openssl_provider.Prelude.{
  ℕ, ◌+◌, ◌≤◌, ◌<◌, ◌≡◌, Bool, true, false, not, ◌&&◌, ◌||◌, arith, is_zero,
}
use luna_openssl_provider.Cryptoki.{Cryptoki}
use luna_openssl_provider.Engine.Config.{Config}
use luna_openssl_provider.Engine.Session.State.{Context, Globals}
use luna_openssl_provider.Engine.Session.Cache.{luna_cache_pop}
use luna_openssl_provider.Engine.Session.Init.{luna_init_p11_conditional}
use luna_openssl_provider.Engine.Session.Context.{
  finalize_if_forked, note_process, open_failed, open_succeeded, open_login, open_on_slot,
  open_locked, new_context, luna_open_context_ndx,
}
use luna_openssl_provider.Engine.Session.Steady.{luna_init_p11_deferred_result, luna_fini_p11-Ended}

-- The total is never more than the two slots' counts together.
abbrev pub IsCounted : {T : Type 0} → Globals T → Type 0
IsCounted g = g.activity ≤ g.slots.at0.slot_activity + g.slots.at1.slot_activity

module _ (c : Cryptoki) (cfg : Config) where
  -- What a context holds the mutex for.
  abbrev pub keeps_mutex : Context → Bool
  keeps_mutex ctx = ctx.flag_finalize_pending || not (is_zero cfg.disable_multi_thread)

  -- How an open ends, from a state with the mutex held.
  pub record Ending (g : Globals c.Token) (res : Bool × Context × Globals c.Token) : Type 0 where
    pub result : res.0 ≡ res.1.flag_init
    pub error : res.1.flag_error ≡ not res.0
    pub mutex : res.2.held ≡ (res.0 && keeps_mutex res.1)
    pub counted : IsCounted g → IsCounted res.2
    pub counts : res.0 ≡ true → 0 < res.2.activity

  open_failed-Ending :
      (ctx : Context) (g : Globals c.Token)
      → ctx.flag_init ≡ false
      → ctx.flag_error ≡ true
      → Ending g (open_failed c cfg ctx g)
  unfolding open_failed
  open_failed-Ending ctx g off err = ground (arith, luna_fini_p11-Ended c cfg g)

  open_succeeded-Ending :
      (ctx : Context) (k : ℕ) (g : Globals c.Token)
      → g.held ≡ true
      → Ending g (open_succeeded c cfg ctx k g)
  unfolding open_succeeded
  open_succeeded-Ending ctx k g held = ground arith

  open_login-Ending :
      (ctx : Context) (k : ℕ) (g : Globals c.Token)
      → g.held ≡ true
      → ctx.flag_init ≡ false
      → ctx.flag_error ≡ true
      → Ending g (open_login c cfg ctx k g)
  unfolding open_login
  open_login-Ending ctx k g held off err = record {
    result = grind (arith, open_failed-Ending, open_succeeded-Ending);
    error = grind (arith, open_failed-Ending, open_succeeded-Ending);
    mutex = grind (arith, open_failed-Ending, open_succeeded-Ending);
    counted = grind (arith, open_failed-Ending, open_succeeded-Ending);
    counts = grind (arith, open_failed-Ending, open_succeeded-Ending);
  }

  open_on_slot-Ending :
      (ctx : Context) (g : Globals c.Token)
      → g.held ≡ true
      → ctx.flag_init ≡ false
      → ctx.flag_error ≡ true
      → Ending g (open_on_slot c cfg ctx g)
  unfolding open_on_slot luna_cache_pop
  open_on_slot-Ending ctx g held off err = record {
    result = grind (arith, open_failed-Ending, open_succeeded-Ending, open_login-Ending);
    error = grind (arith, open_failed-Ending, open_succeeded-Ending, open_login-Ending);
    mutex = grind (arith, open_failed-Ending, open_succeeded-Ending, open_login-Ending);
    counted = grind (arith, open_failed-Ending, open_succeeded-Ending, open_login-Ending);
    counts = grind (arith, open_failed-Ending, open_succeeded-Ending, open_login-Ending);
  }

  -- Up to the choice of the slot.
  record Prepared (g g' : Globals c.Token) : Type 0 where
    kept_held : g'.held ≡ g.held
    kept_count : IsCounted g → IsCounted g'

  finalize_if_forked-Prepared : (g : Globals c.Token) → Prepared g (finalize_if_forked c cfg g)
  unfolding finalize_if_forked
  finalize_if_forked-Prepared g = ground (arith, luna_fini_p11-Ended c cfg g)

  luna_init_p11_conditional-Prepared :
      (g : Globals c.Token) → Prepared g (luna_init_p11_conditional c cfg g).1
  unfolding luna_init_p11_conditional
  luna_init_p11_conditional-Prepared g = ground (arith, luna_init_p11_deferred_result c cfg g)

  note_process-Prepared : (g : Globals c.Token) → Prepared g (note_process c cfg g).1
  unfolding note_process
  note_process-Prepared g = ground arith

  open_locked-Ending : (ndx : ℕ) (g : Globals c.Token) → Ending g (open_locked c cfg ndx g)
  unfolding open_locked
  open_locked-Ending ndx g =
      let g1 : Globals c.Token = record g { held = true } in
      let g2 = finalize_if_forked c cfg g1 in
      let res = luna_init_p11_conditional c cfg g2 in
      let noted = note_process c cfg res.1 in
      let ctx = new_context c cfg ndx noted.0 noted.1 in
      ground (
        arith,
        finalize_if_forked-Prepared g1,
        luna_init_p11_conditional-Prepared g2,
        note_process-Prepared res.1,
        open_on_slot-Ending ctx noted.1,
      )

  -- From a context that neither failed nor is open, an open returns 1 exactly if the context is
  -- initialized and sets the error flag exactly otherwise; the mutex is left held exactly if it
  -- succeeds with a pending C_Finalize or without multi-threading; the total activity stays within
  -- the two slots' counts, and a success counts.
  pub luna_open_context_ndx-Ending :
      (ctx : Context) (ndx : ℕ) (g : Globals c.Token)
      → ctx.flag_error ≡ false
      → ctx.flag_init ≡ false
      → Ending g (luna_open_context_ndx c cfg ctx ndx g)
  unfolding luna_open_context_ndx
  luna_open_context_ndx-Ending ctx ndx g fine off = simp (fine, off) (open_locked-Ending ndx g)

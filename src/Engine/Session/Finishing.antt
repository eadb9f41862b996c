-- ===== src/Engine/Session/Finishing.antt =====
-- The mutex and the activity counts of luna_close_context_w_err.
use luna_openssl_provider.Prelude.{
  ℕ, ◌<◌, ◌≡◌, refl, ◌∙◌, Bool, true, false, not, ◌&&◌, ◌||◌, arith, is_zero, leb, ◌==◌,
  if◌then◌else◌, Bool-cases, inl, inr,
}
use luna_openssl_provider.Cryptoki.{Cryptoki, ckr_ok}
use luna_openssl_provider.Engine.Config.{Config}
use luna_openssl_provider.Engine.Session.State.{Context, Globals, luna_max_slot}
use luna_openssl_provider.Engine.Session.Commands.{luna_do_deferred_login}
use luna_openssl_provider.Engine.Session.Context.{luna_context_set_last_error}
use luna_openssl_provider.Engine.Session.Close.{
  decrement_activity, drop_session, return_session, purge_caches, close_recover, finish_close,
  close_locked, luna_close_context_w_err,
}
use luna_openssl_provider.Engine.Session.Steady.{luna_fini_p11-Ended, luna_do_deferred_login-Steady}
use luna_openssl_provider.Engine.Session.Counting.{IsCounted}

module _ (c : Cryptoki) (cfg : Config) where
  -- How a close of an initialized context ends.
  pub record Finished (g g' : Globals c.Token) : Type 0 where
    pub released : g'.held ≡ false
    pub still_counted : IsCounted g → IsCounted g'

  close_recover-Finished :
      (ctx : Context) (g : Globals c.Token) → Finished g (close_recover c cfg ctx g)
  unfolding close_recover
  close_recover-Finished ctx g =
      let res = luna_do_deferred_login c cfg g in
      ground (arith, luna_do_deferred_login-Steady c cfg g, luna_fini_p11-Ended c cfg res.1)

  finish_close-Finished :
      (recovery : Bool) (ctx : Context) (g : Globals c.Token)
      → Finished g (finish_close c cfg recovery ctx g).1
  unfolding finish_close
  finish_close-Finished recovery ctx g = ground (
    arith,
    luna_fini_p11-Ended c cfg g,
    close_recover-Finished ctx (record g { flag_recovery = true }),
  )

  decrement_activity-IsCounted :
      (i : ℕ) (g : Globals c.Token) → IsCounted g → IsCounted (decrement_activity c cfg i g)
  unfolding decrement_activity
  decrement_activity-IsCounted i g h = ground arith

  -- The counts are those of before.
  record SameCounts (g g' : Globals c.Token) : Type 0 where
    slots_eq : g'.slots ≡ g.slots
    activity_eq : g'.activity ≡ g.activity

  return_session-SameCounts :
      (ctx : Context) (w_err : Bool) (g : Globals c.Token)
      → SameCounts g (return_session c cfg ctx w_err g).2
  unfolding return_session drop_session
  return_session-SameCounts ctx w_err g = record {
    slots_eq = ground arith;
    activity_eq = ground arith;
  }

  purge_caches-SameCounts : (g : Globals c.Token) → SameCounts g (purge_caches c cfg g)
  unfolding purge_caches
  purge_caches-SameCounts g = record { slots_eq = refl; activity_eq = refl }

  close_locked-Finished :
      (ctx : Context) (w_err : Bool) (g : Globals c.Token)
      → Finished g (close_locked c cfg ctx w_err g).1
  unfolding close_locked
  close_locked-Finished ctx w_err g =
      let g0 = decrement_activity c cfg ctx.per_slot_id g in
      let res = return_session c cfg ctx w_err g0 in
      let purged = purge_caches c cfg res.2 in
      let last = finish_close-Finished res.0 res.1 (if res.0 then purged else res.2) in
      record {
        released = last.released;
        still_counted = λ h. last.still_counted (
            ground (
              arith,
              decrement_activity-IsCounted ctx.per_slot_id g h,
              return_session-SameCounts ctx w_err g0,
              purge_caches-SameCounts res.2,
            ));
      }

  last_error_same :
      (ctx : Context) (rv : ℕ)
      → let ctx1 = luna_context_set_last_error ctx rv in
        (ctx1.flag_init ≡ ctx.flag_init) × (ctx1.per_slot_id ≡ ctx.per_slot_id)
  unfolding luna_context_set_last_error
  last_error_same ctx rv = ground arith

  -- Closing an initialized context always leaves the mutex, waiting for recovery or not, and keeps
  -- the total activity within the two slots' counts.
  pub luna_close_context_w_err-Finished :
      (ctx : Context) (flag_err : Bool) (rv : ℕ) (g : Globals c.Token)
      → ctx.flag_init ≡ true
      → ctx.per_slot_id < luna_max_slot
      → Finished g (luna_close_context_w_err c cfg ctx flag_err rv g).1
  unfolding luna_close_context_w_err
  luna_close_context_w_err-Finished ctx flag_err rv g on slot =
      let ctx1 = luna_context_set_last_error ctx rv in
      let w_err = flag_err || not (rv == ckr_ok) in
      let same = last_error_same ctx rv in
      let init : ctx1.flag_init ≡ true = same.0 ∙ on in
      let in_range : leb luna_max_slot ctx1.per_slot_id ≡ false = ground (arith, same.1, slot) in
      elim (Bool-cases (not ctx1.flag_finalize_pending && is_zero cfg.disable_multi_thread)) [
        | inl q ↦
            let entered : Globals c.Token = record g { held = true } in
            let last = close_locked-Finished ctx1 w_err entered in
            simp (init, in_range, q)
              (record { released = last.released; still_counted = last.still_counted })
        | inr q ↦ simp (init, in_range, q) (close_locked-Finished ctx1 w_err g)
      ]

-- ===== src/Engine/Session/Purge.antt =====
-- Closing a context with an error (Engine/Session/Context.antt): its session is not cached, and after
-- an error that needs recovery nothing is.
use luna_openssl_provider.Prelude.{
  ℕ, ◌≤◌, ◌<◌, ◌≡◌, ◌≢◌, refl, ◌∙◌, ◌⊎◌, inl, inr, Bool, true, false, not, ◌||◌, arith, ◌==◌, leb,
  if◌then◌else◌,
}
use luna_openssl_provider.Cryptoki.{Cryptoki, SessionRules, ckr_ok}
use luna_openssl_provider.Engine.Config.{Config}
use luna_openssl_provider.Engine.Session.State.{Context, Globals, luna_max_slot}
use luna_openssl_provider.Engine.Session.Cache.{luna_cache_delete_all}
use luna_openssl_provider.Engine.Session.Context.{
  luna_rv_needs_recovery, luna_context_set_last_error,
}
use luna_openssl_provider.Engine.Session.Close.{
  decrement_activity, drop_session, return_session, purge_caches, close_locked,
  luna_close_context_w_err,
}
use luna_openssl_provider.Engine.Session.Moves.{count, cached, Passive}
use luna_openssl_provider.Engine.Session.Closing.{finish_close-Passive}

module _ (c : Cryptoki) (r : SessionRules c) (cfg : Config) where
  -- No more sessions are cached than before.
  abbrev pub NoneCached : Globals c.Token → Globals c.Token → Type 0
  NoneCached g g' = (h : ℕ) → cached h g' ≤ cached h g

  Passive-NoneCached : {g g' : Globals c.Token} → Passive c r g g' → NoneCached g g'
  Passive-NoneCached (inl k) h = k.fewer h
  Passive-NoneCached (inr k) h = omega (arith, k.emptied h)

  return_error-ckses :
      (ctx : Context) (g : Globals c.Token) → (return_session c cfg ctx true g).2.ckses ≡ g.ckses
  unfolding return_session drop_session
  return_error-ckses ctx g = ground arith

  return_error-recovery :
      (ctx : Context) (g : Globals c.Token)
      → luna_rv_needs_recovery ctx.rv_last ≡ true
      → (return_session c cfg ctx true g).0 ≡ true
  unfolding return_session drop_session
  return_error-recovery ctx g e = ground (arith, e)

  purge_caches-empty : (g : Globals c.Token) (h : ℕ) → cached h (purge_caches c cfg g) ≡ 0
  unfolding purge_caches luna_cache_delete_all count
  purge_caches-empty g h = refl

  purged_fewer :
      (recovery : Bool) (g : Globals c.Token)
      → NoneCached g (if recovery then purge_caches c cfg g else g)
  purged_fewer true g h = omega (arith, purge_caches-empty g h)
  purged_fewer false g h = omega arith

  decrement_activity-ckses :
      (i : ℕ) (g : Globals c.Token) → (decrement_activity c cfg i g).ckses ≡ g.ckses
  unfolding decrement_activity
  decrement_activity-ckses i g = refl

  close_locked-NoneCached :
      (ctx : Context) (g : Globals c.Token) → NoneCached g (close_locked c cfg ctx true g).1
  unfolding close_locked
  close_locked-NoneCached ctx g h =
      let g0 = decrement_activity c cfg ctx.per_slot_id g in
      let res = return_session c cfg ctx true g0 in
      let next : Globals c.Token = if res.0 then purge_caches c cfg res.2 else res.2 in
      ground (
        arith,
        Passive-NoneCached (finish_close-Passive c r cfg res.0 res.1 next).1 h,
        purged_fewer res.0 res.2 h,
        return_error-ckses ctx g0,
        decrement_activity-ckses ctx.per_slot_id g,
      )

  close_locked-emptied :
      (ctx : Context) (g : Globals c.Token) (h : ℕ)
      → luna_rv_needs_recovery ctx.rv_last ≡ true
      → cached h (close_locked c cfg ctx true g).1 ≡ 0
  unfolding close_locked
  close_locked-emptied ctx g h e =
      let g0 = decrement_activity c cfg ctx.per_slot_id g in
      let res = return_session c cfg ctx true g0 in
      let on : res.0 ≡ true = return_error-recovery ctx g0 e in
      let purged = purge_caches c cfg res.2 in
      let later = Passive-NoneCached (finish_close-Passive c r cfg true res.1 purged).1 h in
      simp on (omega (arith, later, purge_caches-empty res.2 h))

  -- Closing with an error, or with the error flag, caches no session: every session stands at most as
  -- often in the caches as before.
  pub luna_close_context_w_err-NoneCached :
      (ctx : Context) (flag_err : Bool) (rv : ℕ) (g : Globals c.Token)
      → (flag_err ≡ true) ⊎ (rv ≢ ckr_ok)
      → NoneCached g (luna_close_context_w_err c cfg ctx flag_err rv g).1
  unfolding luna_close_context_w_err
  luna_close_context_w_err-NoneCached ctx flag_err rv g bad h =
      let ctx1 = luna_context_set_last_error ctx rv in
      let failed : (flag_err || not (rv == ckr_ok)) ≡ true = ground (arith, bad) in
      let g1 : Globals c.Token = record g { held = true } in
      ground (arith, failed, close_locked-NoneCached ctx1 g1 h, close_locked-NoneCached ctx1 g h)

  last_error_keeps :
      (ctx : Context) (rv : ℕ)
      → let ctx1 = luna_context_set_last_error ctx rv in
        (ctx1.flag_init ≡ ctx.flag_init) × (ctx1.per_slot_id ≡ ctx.per_slot_id)
  unfolding luna_context_set_last_error
  last_error_keeps ctx rv = ground arith

  -- Closing an open context with an error, after the worst error of the context asks for recovery,
  -- leaves no session in either cache, whichever slot the context was for.
  pub luna_close_context_w_err-emptied :
      (ctx : Context) (flag_err : Bool) (rv : ℕ) (g : Globals c.Token)
      → (flag_err ≡ true) ⊎ (rv ≢ ckr_ok)
      → ctx.flag_init ≡ true
      → ctx.per_slot_id < luna_max_slot
      → luna_rv_needs_recovery (luna_context_set_last_error ctx rv).rv_last ≡ true
      → (h : ℕ) → cached h (luna_close_context_w_err c cfg ctx flag_err rv g).1 ≡ 0
  unfolding luna_close_context_w_err
  luna_close_context_w_err-emptied ctx flag_err rv g bad on slot e h =
      let ctx1 = luna_context_set_last_error ctx rv in
      let same = last_error_keeps ctx rv in
      let failed : (flag_err || not (rv == ckr_ok)) ≡ true = ground (arith, bad) in
      let init : ctx1.flag_init ≡ true = same.0 ∙ on in
      let in_range : leb luna_max_slot ctx1.per_slot_id ≡ false = ground (arith, same.1, slot) in
      let g1 : Globals c.Token = record g { held = true } in
      ground (
        arith,
        failed,
        init,
        in_range,
        close_locked-emptied ctx1 g1 h e,
        close_locked-emptied ctx1 g h e,
      )

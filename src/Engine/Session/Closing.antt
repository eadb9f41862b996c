-- ===== src/Engine/Session/Closing.antt =====
-- luna_close_context_w_err (Engine/Session/Context.antt) as a whole, as an abstract move.
use luna_openssl_provider.Prelude.{
  ℕ, ◌≡◌, refl, ◌⊎◌, inl, inr, Bool, true, false, not, ◌&&◌, ◌||◌, arith, ◌==◌, leb, ltb_ℤ, pos,
  is_zero, if◌then◌else◌, Bool-cases,
}
use luna_openssl_provider.Cryptoki.{Cryptoki, SessionRules, ckr_ok}
use luna_openssl_provider.Engine.Config.{Config, luna_get_recovery_level}
use luna_openssl_provider.Engine.Session.State.{Context, Globals, luna_max_slot}
use luna_openssl_provider.Engine.Session.Cache.{luna_cache_delete_all}
use luna_openssl_provider.Engine.Session.Commands.{luna_do_deferred_login}
use luna_openssl_provider.Engine.Session.Context.{
  closed, luna_context_set_last_error, luna_rv_needs_finalize,
}
use luna_openssl_provider.Engine.Session.Close.{
  decrement_activity, return_session, purge_caches, close_recover, finish_close, close_locked,
  luna_close_context_w_err,
}
use luna_openssl_provider.Engine.Session.Moves.{
  count, Kept, Passive, Kept-refl, Kept-trans, Passive-trans, Same, Same-Kept,
}
use luna_openssl_provider.Engine.Session.Lifecycle.{
  luna_fini_p11-Reset, luna_do_deferred_login-Kept,
}
use luna_openssl_provider.Engine.Session.Returning.{
  Idle, Released, unlocked, return_session-Returned,
}

module _ (c : Cryptoki) (r : SessionRules c) where
  module _ (cfg : Config) where
    pub close_recover-Passive :
        (ctx : Context) (g : Globals c.Token) → Passive c r g (close_recover c cfg ctx g)
    unfolding close_recover
    close_recover-Passive ctx g =
        let res = luna_do_deferred_login c cfg g in
        let level = luna_get_recovery_level cfg in
        let login = inl (luna_do_deferred_login-Kept c r cfg g) in
        elim (Bool-cases (ltb_ℤ level (pos 1))) [
          | inl e ↦ simp e (inl (unlocked c r cfg g))
          | inr e ↦
              elim (Bool-cases
                (not res.0 && luna_rv_needs_finalize ctx.rv_last && not (ltb_ℤ level (pos 2)))) [
                  | inl f ↦
                      simp (e, f)
                        (Passive-trans c r login (
                          Passive-trans c r (inr (luna_fini_p11-Reset c r cfg res.1))
                            (inl (unlocked c r cfg _))))
                  | inr f ↦ simp (e, f) (Passive-trans c r login (inl (unlocked c r cfg res.1)))
                ]
        ]

    pub purge_caches-Kept : (g : Globals c.Token) → Kept c r g (purge_caches c cfg g)
    unfolding purge_caches luna_cache_delete_all count
    purge_caches-Kept g = record {
      same_count = refl;
      same_init = refl;
      same_self = refl;
      fewer = λ h. omega arith;
      grows = λ h o. o;
    }

    pub maybe_purged :
        (recovery : Bool) (g : Globals c.Token)
        → Kept c r g (if recovery then purge_caches c cfg g else g)
    maybe_purged true g = purge_caches-Kept g
    maybe_purged false g = Kept-refl c r g

    pub decrement_activity-Same :
        (i : ℕ) (g : Globals c.Token) → Same c r g (decrement_activity c cfg i g)
    unfolding decrement_activity
    decrement_activity-Same i g = record {
      token_eq = refl;
      count_eq = refl;
      init_eq = refl;
      self_eq = refl;
      ckses_eq = refl;
    }

    pub finish_close-Passive :
        (recovery : Bool) (ctx : Context) (g : Globals c.Token)
        → Idle (finish_close c cfg recovery ctx g).0
          × Passive c r g (finish_close c cfg recovery ctx g).1
    unfolding finish_close
    finish_close-Passive recovery ctx g =
        let blocked : Globals c.Token = record g { flag_recovery = true } in
        let block : Kept c r g blocked = record {
          same_count = refl;
          same_init = refl;
          same_self = refl;
          fewer = λ h. omega arith;
          grows = λ h o. o;
        } in
        let leave = λ (x : Globals c.Token).
          Same-Kept c r {g = x} {g' = record x { held = false }} (record {
            token_eq = refl;
            count_eq = refl;
            init_eq = refl;
            self_eq = refl;
            ckses_eq = refl;
          }) in
        elim (Bool-cases ctx.flag_finalize_pending) [
          | inl e ↦
              simp e (refl, Passive-trans c r (inr (luna_fini_p11-Reset c r cfg g)) (inl (leave _)))
          | inr e ↦ elim (Bool-cases recovery) [
            | inr f ↦ simp (e, f) (refl, inl (leave g))
            | inl f ↦ elim (Bool-cases (g.activity == 0)) [
              | inl q ↦
                  simp (e, f, q)
                    (refl, Passive-trans c r (inl block) (close_recover-Passive ctx blocked))
              | inr q ↦ simp (e, f, q) (tt, inl (Kept-trans c r block (leave blocked)))
            ]
          ]
        ]

    close_locked-Released :
        (ctx : Context) (w_err : Bool) (g : Globals c.Token)
        → Released c r ctx g (close_locked c cfg ctx w_err g)
    unfolding close_locked
    close_locked-Released ctx w_err g =
        let g0 = decrement_activity c cfg ctx.per_slot_id g in
        let res = return_session c cfg ctx w_err g0 in
        let purged = purge_caches c cfg res.2 in
        let kept = finish_close-Passive res.0 res.1 (if res.0 then purged else res.2) in
        record {
          before = g0;
          after = res.2;
          entered = decrement_activity-Same ctx.per_slot_id g;
          returned = return_session-Returned c r cfg ctx w_err g0;
          finished = Passive-trans c r (inl (maybe_purged res.0 res.2)) kept.1;
          idle = kept.0;
        }

    entered-Released :
        (ctx : Context) (w_err : Bool) (g : Globals c.Token)
        → Released c r ctx g (close_locked c cfg ctx w_err (record g { held = true }))
    entered-Released ctx w_err g =
        let rel = close_locked-Released ctx w_err (record g { held = true }) in
        record {
          before = rel.before;
          after = rel.after;
          entered = record {
            token_eq = rel.entered.token_eq;
            count_eq = rel.entered.count_eq;
            init_eq = rel.entered.init_eq;
            self_eq = rel.entered.self_eq;
            ckses_eq = rel.entered.ckses_eq;
          };
          returned = rel.returned;
          finished = rel.finished;
          idle = rel.idle;
        }

    -- A close returns at once, or it gives the session up.
    pub luna_close_context_w_err-Released :
        (ctx : Context) (flag_err : Bool) (rv : ℕ) (g : Globals c.Token)
        → let ctx1 = luna_context_set_last_error ctx rv in
          let res = luna_close_context_w_err c cfg ctx flag_err rv g in
          (res ≡ (closed ctx1, g)) ⊎ ((ctx1.flag_init ≡ true) × Released c r ctx1 g res)
    unfolding luna_close_context_w_err
    luna_close_context_w_err-Released ctx flag_err rv g =
        let ctx1 = luna_context_set_last_error ctx rv in
        let w_err = flag_err || not (rv == ckr_ok) in
        elim (Bool-cases ctx1.flag_init) [
          | inr e ↦ simp e (inl refl)
          | inl e ↦ elim (Bool-cases (leb luna_max_slot ctx1.per_slot_id)) [
            | inl f ↦ simp (e, f) (inl refl)
            | inr f ↦
                elim (Bool-cases
                  (not ctx1.flag_finalize_pending && is_zero cfg.disable_multi_thread)) [
                    | inl q ↦ simp (e, f, q) (inr (refl, entered-Released ctx1 w_err g))
                    | inr q ↦ simp (e, f, q) (inr (refl, close_locked-Released ctx1 w_err g))
                  ]
          ]
        ]

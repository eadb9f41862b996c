-- ===== src/Engine/Session/Opening.antt =====
-- Opening a context (Engine/Session/Context.antt) as an abstract move: it fails, or it takes one
-- session.
use luna_openssl_provider.Prelude.{
  ℕ, ◌+◌, ◌^◌, ◌<◌, ◌≡◌, refl, inl, inr, Bool, true, false, not, ◌&&◌, is_zero, Option, none, some,
  List, [], ◌∷◌, arith, ◌==◌, if◌then◌else◌, Bool-cases,
}
use luna_openssl_provider.Cryptoki.{Cryptoki, SessionRules}
use luna_openssl_provider.Engine.Config.{Config}
use luna_openssl_provider.Engine.Session.State.{Context, Globals, get, put}
use luna_openssl_provider.Engine.Session.Cache.{luna_open_session, luna_cache_pop}
use luna_openssl_provider.Engine.Session.Init.{luna_init_p11_conditional}
use luna_openssl_provider.Engine.Session.Context.{
  finalize_if_forked, note_process, open_failed, open_succeeded, open_login, open_on_slot,
  open_locked, new_context,
}
use luna_openssl_provider.Engine.Session.Moves.{
  count, cached, luna_open_session-Grows, luna_open_session-some, Kept, Passive, Kept-refl,
  Passive-trans, Same, Same-Kept,
}
use luna_openssl_provider.Engine.Session.Lifecycle.{
  luna_fini_p11-same, luna_fini_p11-Reset, luna_init_p11_conditional-Passive,
}
use luna_openssl_provider.Engine.Session.Taking.{
  from_cache, Opened, open_failed-Opened, open_succeeded-Taken, open_login-Opened,
}

module _ (c : Cryptoki) (r : SessionRules c) where
  module _ (cfg : Config) where
    -- A context that is about to be given a session of the library as it runs now.
    record Ready (ctx : Context) (g : Globals c.Token) : Type 0 where
      off : ctx.flag_init ≡ false
      count_now : ctx.count_c_init ≡ g.init_count
      pid_now : ctx.pid ≡ g.self

    cached-pop :
        (i k h : ℕ) (rest : List ℕ) (g : Globals c.Token)
        → get g.ckses i ≡ k ∷ rest
        → cached h g
          ≡ (if k == h then 1 else 0) + cached h (record g { ckses = put g.ckses i rest })
    unfolding count
    cached-pop i k h rest g e = ground arith

    -- `open_on_slot` on its three branches.
    pub open_on_slot_hit :
        (ctx : Context) (g : Globals c.Token) {k : ℕ} {rest : List ℕ}
        → get g.ckses ctx.per_slot_id ≡ k ∷ rest
        → open_on_slot c cfg ctx g
          ≡ open_succeeded c cfg ctx k (record g { ckses = put g.ckses ctx.per_slot_id rest })
    unfolding open_on_slot luna_cache_pop
    open_on_slot_hit ctx g e = ground arith

    pub open_on_slot_refused :
        (ctx : Context) (g : Globals c.Token)
        → get g.ckses ctx.per_slot_id ≡ []
        → (luna_open_session c ctx.slotid g.token).0 ≡ none
        → open_on_slot c cfg ctx g
          ≡ open_failed c cfg ctx (record g { token = (luna_open_session c ctx.slotid g.token).1 })
    unfolding open_on_slot luna_cache_pop
    open_on_slot_refused ctx g empty e = ground arith

    pub open_on_slot_new :
        (ctx : Context) (g : Globals c.Token) {k : ℕ}
        → get g.ckses ctx.per_slot_id ≡ []
        → (luna_open_session c ctx.slotid g.token).0 ≡ some k
        → open_on_slot c cfg ctx g
          ≡ open_login c cfg
              (record ctx { h_session = k })
              k
              (record g { token = (luna_open_session c ctx.slotid g.token).1 })
    unfolding open_on_slot luna_cache_pop
    open_on_slot_new ctx g empty e = ground arith

    open_new-Opened :
        (ctx : Context) (g : Globals c.Token) (o : Option ℕ)
        → Ready ctx g
        → get g.ckses ctx.per_slot_id ≡ []
        → (luna_open_session c ctx.slotid g.token).0 ≡ o
        → Opened c r g (open_on_slot c cfg ctx g)
    open_new-Opened ctx g none f empty e =
        let t = (luna_open_session c ctx.slotid g.token).1 in
        let kept : Kept c r g (record g { token = t }) = record {
          same_count = refl;
          same_init = refl;
          same_self = refl;
          fewer = λ h. omega arith;
          grows = luna_open_session-Grows c r ctx.slotid g.token;
        } in
        rw (open_on_slot_refused ctx g empty e)
          (open_failed-Opened c r cfg ctx (record g { token = t }) g f.off (inl kept))
    open_new-Opened ctx g (some k) f empty e =
        let t = (luna_open_session c ctx.slotid g.token).1 in
        let new = luna_open_session-some c r ctx.slotid g.token e in
        rw (open_on_slot_new ctx g empty e) (
          open_login-Opened c r cfg (record ctx { h_session = k }) k (record g { token = t }) g
            (record {
              off = f.off;
              ctx_count = f.count_now;
              ctx_pid = f.pid_now;
              count_eq = refl;
              init_eq = refl;
              self_eq = refl;
              ckses_eq = refl;
              was_free = new.1;
              now_open = new.0;
              grows = luna_open_session-Grows c r ctx.slotid g.token;
            }))

    open_on_slot-Opened :
        (ctx : Context) (g : Globals c.Token) (qu : List ℕ)
        → Ready ctx g
        → get g.ckses ctx.per_slot_id ≡ qu
        → Opened c r g (open_on_slot c cfg ctx g)
    open_on_slot-Opened ctx g [] f e = open_new-Opened ctx g _ f e refl
    open_on_slot-Opened ctx g (k ∷ rest) f e =
        let g1 : Globals c.Token = record g { ckses = put g.ckses ctx.per_slot_id rest } in
        rw (open_on_slot_hit ctx g e) (
          inr (
            g,
            inl (Kept-refl c r g),
            open_succeeded-Taken c r cfg ctx k g1 g f.count_now f.pid_now refl refl refl
                (from_cache (λ h. cached-pop ctx.per_slot_id k h rest g e) (λ h o. o)),
          ))

    finalize_if_forked-Passive : (g : Globals c.Token) → Passive c r g (finalize_if_forked c cfg g)
    unfolding finalize_if_forked
    finalize_if_forked-Passive g =
        elim (Bool-cases (is_zero cfg.disable_check_finalize && not (g.self == g.pid_c_init))) [
          | inl e ↦ simp e (inr (luna_fini_p11-Reset c r cfg g))
          | inr e ↦ simp e (inl (Kept-refl c r g))
        ]

    pub note_process-Same : (g : Globals c.Token) → Same c r g (note_process c cfg g).1
    unfolding note_process
    note_process-Same g = record {
      token_eq = ground arith;
      count_eq = ground arith;
      init_eq = ground arith;
      self_eq = ground arith;
      ckses_eq = ground arith;
    }

    finalize_if_forked-count :
        (g : Globals c.Token) → (finalize_if_forked c cfg g).init_count ≡ g.init_count
    unfolding finalize_if_forked
    finalize_if_forked-count g = ground (arith, luna_fini_p11-same c r cfg g)

    Opened-after :
        {g g1 : Globals c.Token} (res : Bool × Context × Globals c.Token)
        → Passive c r g g1
        → Opened c r g1 res
        → Opened c r g res
    Opened-after res p (inl (off, q)) = inl (off, Passive-trans c r p q)
    Opened-after res p (inr (g2, q, t)) = inr (g2, Passive-trans c r p q, t)

    -- An open that reaches the lock fails, or takes one session; between, the library may have been
    -- stopped or started.
    pub open_locked-Opened :
        (ndx : ℕ) (g : Globals c.Token)
        → g.init_count + 1 < 2 ^ 32
        → Opened c r g (open_locked c cfg ndx g)
    unfolding open_locked
    open_locked-Opened ndx g room =
        let g0 : Globals c.Token = record g { held = true } in
        let g1 = finalize_if_forked c cfg g0 in
        let res = luna_init_p11_conditional c cfg g1 in
        let entered : Same c r g g0 = record {
          token_eq = refl;
          count_eq = refl;
          init_eq = refl;
          self_eq = refl;
          ckses_eq = refl;
        } in
        let left : Same c r res.1 (record res.1 { held = false }) = record {
          token_eq = refl;
          count_eq = refl;
          init_eq = refl;
          self_eq = refl;
          ckses_eq = refl;
        } in
        let up_to_init = Passive-trans c r (inl (Same-Kept c r entered)) (
          Passive-trans c r (finalize_if_forked-Passive g0) (
            luna_init_p11_conditional-Passive c r cfg g1
              (omega (arith, finalize_if_forked-count g0)))) in
        let noted = note_process c cfg res.1 in
        let g2 = noted.1 in
        let ctx = new_context c cfg ndx noted.0 g2 in
        elim (Bool-cases res.0) [
          | inr e ↦ rw e (inl (refl, Passive-trans c r up_to_init (inl (Same-Kept c r left))))
          | inl e ↦ rw e (
              Opened-after (open_on_slot c cfg ctx g2)
                (Passive-trans c r up_to_init (inl (Same-Kept c r (note_process-Same res.1))))
                (open_on_slot-Opened ctx g2 _
                  (record { off = refl; count_now = refl; pid_now = refl }) refl))
        ]

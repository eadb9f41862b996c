-- ===== src/Engine/Session/Taking.antt =====
-- The session of a new context (Engine/Session/Context.antt) as an abstract move: it is taken out of
-- a cache or from the token.
use luna_openssl_provider.Prelude.{
  ℕ, ◌+◌, ◌≡◌, refl, sym, subst, ◌∙◌, ◌⊎◌, inl, inr, Bool, true, false, some, arith, ◌==◌,
  if◌then◌else◌, Bool-cases,
}
use luna_openssl_provider.Cryptoki.{Cryptoki, SessionRules, ckr_ok}
use luna_openssl_provider.Engine.Config.{Config, luna_ps_check_lib}
use luna_openssl_provider.Engine.Password.{luna_pw_login}
use luna_openssl_provider.Engine.Session.State.{Context, Globals, get, put}
use luna_openssl_provider.Engine.Session.Cache.{luna_close_session}
use luna_openssl_provider.Engine.Session.Context.{open_failed, open_succeeded, open_login}
use luna_openssl_provider.Engine.Session.Moves.{
  cached, Grows, luna_pw_login-Grows, luna_close_session-keeps, Kept, Passive, Kept-refl,
  Passive-trans, Same, Same-Kept,
}
use luna_openssl_provider.Engine.Session.Lifecycle.{luna_fini_p11-Reset}

module _ (c : Cryptoki) (r : SessionRules c) where
  -- Where the session of a new context comes from.
  pub data Source (g : Globals c.Token) (k : ℕ) (g' : Globals c.Token) : Type 0 where
    from_cache :
        ((h : ℕ) → cached h g ≡ (if k == h then 1 else 0) + cached h g')
        → Grows c r g.token g'.token
        → Source g k g'
    from_token :
        ((h : ℕ) → cached h g' ≡ cached h g)
        → ¬ r.IsOpen g.token k
        → r.IsOpen g'.token k
        → Grows c r g.token g'.token
        → Source g k g'

  pub record Taken (g : Globals c.Token) (ctx : Context) (g' : Globals c.Token) : Type 0 where
    pub inited : ctx.flag_init ≡ true
    pub item : ctx.pcache ≡ some ctx.h_session
    pub count_now : ctx.count_c_init ≡ g'.init_count
    pub pid_now : ctx.pid ≡ g'.self
    pub same_count : g'.init_count ≡ g.init_count
    pub same_init : g'.have_c_init ≡ g.have_c_init
    pub same_self : g'.self ≡ g.self
    pub source : Source g ctx.h_session g'

  abbrev pub Opened : Globals c.Token → Bool × Context × Globals c.Token → Type 0
  Opened g res =
      ((res.1.flag_init ≡ false) × Passive c r g res.2)
      ⊎ ((g1 : Globals c.Token) × Passive c r g g1 × Taken g1 res.1 res.2)

  Source-Same :
      {g g' g'' : Globals c.Token} {k : ℕ} → Source g k g' → Same c r g' g'' → Source g k g''
  Source-Same (from_cache counts grows) s =
      from_cache (λ h. ground (arith, counts h, s.ckses_eq)) (λ h o. rw s.token_eq (grows h o))
  Source-Same (from_token counts fresh new grows) s =
      from_token (λ h. ground (arith, counts h, s.ckses_eq)) fresh (rw s.token_eq new)
        (λ h o. rw s.token_eq (grows h o))

  module _ (cfg : Config) where
    pub open_failed-Opened :
        (ctx : Context) (g g0 : Globals c.Token)
        → ctx.flag_init ≡ false
        → Passive c r g0 g
        → Opened g0 (open_failed c cfg ctx g)
    unfolding open_failed
    open_failed-Opened ctx g g0 off p =
        let ended = inr (luna_fini_p11-Reset c r cfg g) in
        let same = λ (x : Globals c.Token).
          Same-Kept c r {g = x} {g' = record x { held = false }} (record {
            token_eq = refl;
            count_eq = refl;
            init_eq = refl;
            self_eq = refl;
            ckses_eq = refl;
          }) in
        inl (
          off,
          elim (Bool-cases ctx.flag_finalize_pending) [
            | inl e ↦ simp e (Passive-trans c r p (Passive-trans c r ended (inl (same _))))
            | inr e ↦ simp e (Passive-trans c r p (inl (same g)))
          ],
        )

    pub open_succeeded-Same :
        (ctx : Context) (k : ℕ) (g : Globals c.Token) → Same c r g (open_succeeded c cfg ctx k g).2
    unfolding open_succeeded
    open_succeeded-Same ctx k g = record {
      token_eq = ground arith;
      count_eq = ground arith;
      init_eq = ground arith;
      self_eq = ground arith;
      ckses_eq = ground arith;
    }

    pub open_succeeded-context :
        (ctx : Context) (k : ℕ) (g : Globals c.Token)
        → (open_succeeded c cfg ctx k g).1
          ≡ record ctx { h_session = k; pcache = some k; flag_init = true; flag_error = false }
    unfolding open_succeeded
    open_succeeded-context ctx k g = ground arith

    pub open_succeeded-Taken :
        (ctx : Context) (k : ℕ) (g g0 : Globals c.Token)
        → ctx.count_c_init ≡ g.init_count
        → ctx.pid ≡ g.self
        → g.init_count ≡ g0.init_count
        → g.have_c_init ≡ g0.have_c_init
        → g.self ≡ g0.self
        → Source g0 k g
        → Taken g0 (open_succeeded c cfg ctx k g).1 (open_succeeded c cfg ctx k g).2
    open_succeeded-Taken ctx k g g0 e1 e2 e3 e4 e5 from =
        let s = open_succeeded-Same ctx k g in
        rw (open_succeeded-context ctx k g) (record {
          inited = refl;
          item = refl;
          count_now = e1 ∙ sym s.count_eq;
          pid_now = e2 ∙ sym s.self_eq;
          same_count = s.count_eq ∙ e3;
          same_init = s.init_eq ∙ e4;
          same_self = s.self_eq ∙ e5;
          source = Source-Same from s;
        })

    -- A session that was just opened, before its login.
    pub record Fresh (g0 : Globals c.Token) (ctx : Context) (k : ℕ) (g : Globals c.Token)
        : Type 0 where
      pub off : ctx.flag_init ≡ false
      pub ctx_count : ctx.count_c_init ≡ g0.init_count
      pub ctx_pid : ctx.pid ≡ g0.self
      pub count_eq : g.init_count ≡ g0.init_count
      pub init_eq : g.have_c_init ≡ g0.have_c_init
      pub self_eq : g.self ≡ g0.self
      pub ckses_eq : g.ckses ≡ g0.ckses
      pub was_free : ¬ r.IsOpen g0.token k
      pub now_open : r.IsOpen g.token k
      pub grows : Grows c r g0.token g.token

    Fresh-Opened :
        (ctx : Context) (k : ℕ) (g g0 : Globals c.Token)
        → Fresh g0 ctx k g
        → Opened g0 (open_succeeded c cfg ctx k g)
    Fresh-Opened ctx k g g0 f = inr (
      g0,
      inl (Kept-refl c r g0),
      open_succeeded-Taken ctx k g g0 (f.ctx_count ∙ sym f.count_eq) (f.ctx_pid ∙ sym f.self_eq)
          f.count_eq f.init_eq f.self_eq
          (from_token (λ h. ground (arith, f.ckses_eq)) f.was_free f.now_open f.grows),
    )

    pub open_login-Opened :
        (ctx : Context) (k : ℕ) (g g0 : Globals c.Token)
        → Fresh g0 ctx k g
        → Opened g0 (open_login c cfg ctx k g)
    unfolding open_login
    open_login-Opened ctx k g g0 f =
        let i = ctx.per_slot_id in
        let res = luna_pw_login c cfg (get g.pws i) k g.token in
        let g1 : Globals c.Token = record g { token = res.2; pws = put g.pws i res.1 } in
        let grown = luna_pw_login-Grows c r cfg (get g.pws i) k g.token in
        let f1 : Fresh g0 ctx k g1 = record {
          off = f.off;
          ctx_count = f.ctx_count;
          ctx_pid = f.ctx_pid;
          count_eq = f.count_eq;
          init_eq = f.init_eq;
          self_eq = f.self_eq;
          ckses_eq = f.ckses_eq;
          was_free = f.was_free;
          now_open = grown k f.now_open;
          grows = λ h o. grown h (f.grows h o);
        } in
        let dropped : Globals c.Token = record g1 { token = (luna_close_session c k res.2).1 } in
        let kept : Kept c r g0 dropped = record {
          same_count = f.count_eq;
          same_init = f.init_eq;
          same_self = f.self_eq;
          fewer = λ h. ground (arith, f.ckses_eq);
          grows = λ h o.
              luna_close_session-keeps c r k res.2 h
                (λ e. f.was_free (subst (r.IsOpen g0.token) e o)) (grown h (f.grows h o));
        } in
        elim (Bool-cases (luna_ps_check_lib cfg)) [
          | inr no_lib ↦ simp no_lib (Fresh-Opened ctx k g g0 f)
          | inl lib ↦ elim (Bool-cases (res.0 == ckr_ok)) [
            | inl well ↦ simp (lib, well) (Fresh-Opened ctx k g1 g0 f1)
            | inr failed ↦
                simp (lib, failed)
                  (open_failed-Opened (record ctx { h_session = 0 }) dropped g0 f.off (inl kept))
          ]
        ]

-- ===== src/Engine/Session/Moves.antt =====
-- What the calls of Engine/Session/Init.antt do to the sessions that are kept for contexts, as
-- abstract moves: the library's state may grow, the caches may shrink, or all of it is reset.
use luna_openssl_provider.Prelude.{
  ℕ, ◌+◌, ◌≤◌, ◌<◌, ◌≡◌, ◌≢◌, refl, ◌∙◌, ◌⊎◌, inl, inr, false, some, List, [], ◌∷◌, Bytes, arith,
  ◌==◌, if◌then◌else◌,
}
use luna_openssl_provider.Cryptoki.{Cryptoki, SessionRules}
use luna_openssl_provider.Engine.Config.{Config, luna_get_user_type}
use luna_openssl_provider.Engine.Password.{Passphrase, pw_c_login, luna_pw_login}
use luna_openssl_provider.Engine.Session.State.{Globals}
use luna_openssl_provider.Engine.Session.Cache.{luna_open_session, luna_close_session}

unfoldable pub count : ℕ → List ℕ → ℕ
count h [] = 0
count h (x ∷ xs) = (if x == h then 1 else 0) + count h xs

-- How often a session stands in the two caches.
abbrev pub cached : {T : Type 0} → ℕ → Globals T → ℕ
cached h g = count h g.ckses.at0 + count h g.ckses.at1

module _ (c : Cryptoki) (r : SessionRules c) where
  abbrev pub Grows : c.Token → c.Token → Type 0
  Grows t t' = (h : ℕ) → r.IsOpen t h → r.IsOpen t' h

  pub luna_open_session-Grows : (slot : ℕ) (t : c.Token) → Grows t (luna_open_session c slot t).1
  unfolding luna_open_session
  luna_open_session-Grows slot t h o = ground (arith, r.open_keeps slot t h o)

  -- A new session is open, and no session that was open has its handle.
  pub luna_open_session-some :
      (slot : ℕ) (t : c.Token) {k : ℕ}
      → (luna_open_session c slot t).0 ≡ some k
      → r.IsOpen (luna_open_session c slot t).1 k × (¬ r.IsOpen t k)
  unfolding luna_open_session
  luna_open_session-some slot t e = ground (arith, r.opened slot t, r.open_fresh slot t)

  pw_c_login-Grows :
      (cfg : Config) (pw : Passphrase) (k : ℕ) (pin : Bytes) (t : c.Token)
      → Grows t (pw_c_login c cfg pw k pin t).2
  unfolding pw_c_login
  pw_c_login-Grows cfg pw k pin t h o =
      ground (arith, r.login_keeps k (luna_get_user_type cfg) pin t h o)

  pub luna_pw_login-Grows :
      (cfg : Config) (pw : Passphrase) (k : ℕ) (t : c.Token)
      → Grows t (luna_pw_login c cfg pw k t).2
  unfolding luna_pw_login
  luna_pw_login-Grows cfg pw k t h o = grind (arith, pw_c_login-Grows)

  pub luna_close_session-keeps :
      (k : ℕ) (t : c.Token) (h : ℕ) → h ≢ k → r.IsOpen t h → r.IsOpen (luna_close_session c k t).1 h
  unfolding luna_close_session
  luna_close_session-keeps k t h ne o = ground (arith, r.close_keeps k t h ne o)

  -- No session is opened for a context, none is taken back, and those that are kept stay open.
  pub record Kept (g g' : Globals c.Token) : Type 0 where
    pub same_count : g'.init_count ≡ g.init_count
    pub same_init : g'.have_c_init ≡ g.have_c_init
    pub same_self : g'.self ≡ g.self
    pub fewer : (h : ℕ) → cached h g' ≤ cached h g
    pub grows : Grows g.token g'.token

  -- The library was stopped, or started anew: no session is cached, and no context of before is
  -- of use.
  pub record Reset (g g' : Globals c.Token) : Type 0 where
    pub later_count : g.init_count ≤ g'.init_count
    pub ended : (g'.have_c_init ≡ false) ⊎ (g.init_count < g'.init_count)
    pub reset_self : g'.self ≡ g.self
    pub emptied : (h : ℕ) → cached h g' ≡ 0

  abbrev pub Passive : Globals c.Token → Globals c.Token → Type 0
  Passive g g' = Kept g g' ⊎ Reset g g'

  pub Kept-refl : (g : Globals c.Token) → Kept g g
  Kept-refl g = record {
    same_count = refl;
    same_init = refl;
    same_self = refl;
    fewer = λ h. omega arith;
    grows = λ h o. o;
  }

  pub Kept-trans : {g g' g'' : Globals c.Token} → Kept g g' → Kept g' g'' → Kept g g''
  Kept-trans a b = record {
    same_count = b.same_count ∙ a.same_count;
    same_init = b.same_init ∙ a.same_init;
    same_self = b.same_self ∙ a.same_self;
    fewer = λ h. omega (arith, a.fewer h, b.fewer h);
    grows = λ h o. b.grows h (a.grows h o);
  }

  pub Passive-trans : {g g' g'' : Globals c.Token} → Passive g g' → Passive g' g'' → Passive g g''
  Passive-trans (inl a) (inl b) = inl (Kept-trans a b)
  Passive-trans {g} {g'} {g''} (inl a) (inr b) = inr (record {
    later_count = omega (arith, a.same_count, b.later_count);
    ended = ground (arith, a.same_count, b.ended);
    reset_self = b.reset_self ∙ a.same_self;
    emptied = b.emptied;
  })
  Passive-trans {g} {g'} {g''} (inr a) (inl b) = inr (record {
    later_count = omega (arith, a.later_count, b.same_count);
    ended = ground (arith, a.ended, b.same_count, b.same_init);
    reset_self = b.same_self ∙ a.reset_self;
    emptied = λ h. omega (arith, a.emptied h, b.fewer h);
  })
  Passive-trans {g} {g'} {g''} (inr a) (inr b) = inr (record {
    later_count = omega (arith, a.later_count, b.later_count);
    ended = ground (arith, a.ended, b.ended, a.later_count, b.later_count);
    reset_self = b.reset_self ∙ a.reset_self;
    emptied = b.emptied;
  })

  -- Only counters, flags and other bookkeeping differ.
  pub record Same (g g' : Globals c.Token) : Type 0 where
    pub token_eq : g'.token ≡ g.token
    pub count_eq : g'.init_count ≡ g.init_count
    pub init_eq : g'.have_c_init ≡ g.have_c_init
    pub self_eq : g'.self ≡ g.self
    pub ckses_eq : g'.ckses ≡ g.ckses

  pub Same-Kept : {g g' : Globals c.Token} → Same g g' → Kept g g'
  Same-Kept {g} {g'} s = record {
    same_count = s.count_eq;
    same_init = s.init_eq;
    same_self = s.self_eq;
    fewer = λ h. ground (arith, s.ckses_eq);
    grows = λ h o. rw s.token_eq o;
  }

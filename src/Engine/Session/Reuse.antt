-- ===== src/Engine/Session/Reuse.antt =====
-- A session that a clean close puts into the cache is the one that the next open takes; a close with
-- an error puts none there, and a bad one empties the caches (Engine/Session/Context.antt).
use luna_openssl_provider.Prelude.{ℕ, ◌<◌, ◌≡◌, Bool, true, false, some, List, ◌∷◌, pos}
use luna_openssl_provider.Cryptoki.{Cryptoki, SessionRules, ckr_ok}
use luna_openssl_provider.Engine.Config.{Config}
use luna_openssl_provider.Engine.Session.State.{Context, Globals, get, luna_max_slot}
use luna_openssl_provider.Engine.Session.Returning.{IsCurrent}

module _ (c : Cryptoki) (r : SessionRules c) (cfg : Config) where
  -- A context whose session is fit for the cache.
  pub record Clean (ctx : Context) (g : Globals c.Token) (h : ℕ) : Type 0 where
    pub inited : ctx.flag_init ≡ true
    pub in_range : ctx.per_slot_id < luna_max_slot
    pub no_error : ctx.rv_last ≡ ckr_ok
    pub bound_late : ctx.flag_finalize_pending ≡ false
    pub item : ctx.pcache ≡ some h
    pub now : IsCurrent ctx g
    pub caching : cfg.disable_session_cache ≡ pos 0

  -- What the next open sees.
  record PutBack (i h : ℕ) (g g' : Globals c.Token) : Type 0 where
    token_eq : g'.token ≡ g.token
    init_eq : g'.have_c_init ≡ g.have_c_init
    self_eq : g'.self ≡ g.self
    pid_eq : g'.pid_c_init ≡ g.pid_c_init
    in_cache : get g'.ckses i ≡ h ∷ get g.ckses i

  -- What an open from the cache gives.
  pub record Hit (i h : ℕ) (rest : List ℕ) (g : Globals c.Token)
      (res : Bool × Context × Globals c.Token) : Type 0 where
    pub success : res.0 ≡ true
    pub opened : res.1.flag_init ≡ true
    pub session : res.1.h_session ≡ h
    pub token_same : res.2.token ≡ g.token
    pub cache_left : get res.2.ckses i ≡ rest

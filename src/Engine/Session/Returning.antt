-- ===== src/Engine/Session/Returning.antt =====
-- Giving a session back (return_session in Engine/Session/Context.antt) as an abstract move: it goes
-- back to a cache, or is closed, or is not a session of the library as it runs now.
use luna_openssl_provider.Prelude.{
  ℕ, ◌+◌, ◌≡◌, refl, ◌⊎◌, inl, inr, Bool, true, false, not, ◌&&◌, ◌||◌, none, some, ◌∷◌, arith,
  ◌==◌, is_zero, if◌then◌else◌, Bool-cases, Option-cases,
}
use luna_openssl_provider.Cryptoki.{Cryptoki, SessionRules}
use luna_openssl_provider.Engine.Config.{Config}
use luna_openssl_provider.Engine.Session.State.{Context, Globals, get, put}
use luna_openssl_provider.Engine.Session.Cache.{luna_close_session, luna_cache_push}
use luna_openssl_provider.Engine.Session.Context.{Closing, closed, waiting}
use luna_openssl_provider.Engine.Session.Close.{drop_session, return_session}
use luna_openssl_provider.Engine.Session.Moves.{count, cached, Kept, Passive, Same}

-- The context's session belongs to the library as it runs now, in this process.
pub record IsCurrent {T : Type 0} (ctx : Context) (g : Globals T) : Type 0 where
  pub running : g.have_c_init ≡ true
  pub count_now : ctx.count_c_init ≡ g.init_count
  pub pid_now : ctx.pid ≡ g.self

-- Whoever has closed a context holds no session any more.
abbrev pub Idle : Closing → Type 0
Idle (closed ctx) = ctx.flag_init ≡ false
Idle (waiting ctx) = Unit {0}

module _ (c : Cryptoki) (r : SessionRules c) where
  pub data Returned (ctx : Context) (g g' : Globals c.Token) : Type 0 where
    forgotten : Same c r g g' → Returned ctx g g'
    put_back :
        (item : ℕ)
        → IsCurrent ctx g
        → ctx.pcache ≡ some item
        → ((h : ℕ) → cached h g' ≡ (if item == h then 1 else 0) + cached h g)
        → Same c r g (record g' { ckses = g.ckses })
        → Returned ctx g g'
    dropped :
        IsCurrent ctx g
        → g'.token ≡ (luna_close_session c ctx.h_session g.token).1
        → Same c r g (record g' { token = g.token })
        → Returned ctx g g'

  -- What a close does once it has the lock.
  pub record Released (ctx : Context) (g : Globals c.Token) (res : Closing × Globals c.Token)
      : Type 0 where
    pub before : Globals c.Token
    pub after : Globals c.Token
    pub entered : Same c r g before
    pub returned : Returned ctx before after
    pub finished : Passive c r after res.1
    pub idle : Idle res.0

  module _ (cfg : Config) where
    -- Leaving the mutex with `luna_flag_recovery` clear or set.
    pub unlocked :
        (g : Globals c.Token) → Kept c r g (record g { flag_recovery = false; held = false })
    unlocked g = record {
      same_count = refl;
      same_init = refl;
      same_self = refl;
      fewer = λ h. omega arith;
      grows = λ h o. o;
    }

    abbrev pub current : Context → Globals c.Token → Bool
    current ctx g = g.have_c_init && ctx.count_c_init == g.init_count && ctx.pid == g.self

    abbrev pub stored : Context → Bool → Bool
    stored ctx w_err = w_err || not (is_zero cfg.disable_session_cache)

    pub current-IsCurrent :
        (ctx : Context) (g : Globals c.Token) → current ctx g ≡ true → IsCurrent ctx g
    current-IsCurrent ctx g e = ground arith

    -- `return_session` on its branches.
    pub return_session_stale :
        (ctx : Context) (w_err : Bool) (g : Globals c.Token)
        → current ctx g ≡ false
        → return_session c cfg ctx w_err g ≡ (true, record ctx { pcache = none }, g)
    unfolding return_session
    return_session_stale ctx w_err g e = ground arith

    pub return_session_cached :
        (ctx : Context) (w_err : Bool) (g : Globals c.Token) {item : ℕ}
        → current ctx g ≡ true
        → ctx.pcache ≡ some item
        → stored ctx w_err ≡ false
        → return_session c cfg ctx w_err g ≡ (
          false,
          record ctx { pcache = none },
          record g { ckses = put g.ckses ctx.per_slot_id (item ∷ get g.ckses ctx.per_slot_id) },
        )
    unfolding return_session luna_cache_push
    return_session_cached ctx w_err g e i s = ground arith

    pub return_session_dropped :
        (ctx : Context) (w_err : Bool) (g : Globals c.Token)
        → current ctx g ≡ true
        → (ctx.pcache ≡ none) ⊎ (stored ctx w_err ≡ true)
        → return_session c cfg ctx w_err g ≡ drop_session c cfg ctx g
    unfolding return_session
    return_session_dropped ctx w_err g e s = ground arith

    cached-push :
        (i item h : ℕ) (g : Globals c.Token)
        → cached h (record g { ckses = put g.ckses i (item ∷ get g.ckses i) })
          ≡ (if item == h then 1 else 0) + cached h g
    unfolding count
    cached-push i item h g = ground arith

    pub drop_session-Returned :
        (ctx : Context) (g : Globals c.Token)
        → IsCurrent ctx g
        → Returned ctx g (drop_session c cfg ctx g).2
    unfolding drop_session
    drop_session-Returned ctx g now = dropped now refl (record {
      token_eq = refl;
      count_eq = refl;
      init_eq = refl;
      self_eq = refl;
      ckses_eq = refl;
    })

    pub return_session-Returned :
        (ctx : Context) (w_err : Bool) (g : Globals c.Token)
        → Returned ctx g (return_session c cfg ctx w_err g).2
    return_session-Returned ctx w_err g = elim (Bool-cases (current ctx g)) [
      | inr e ↦ rw (return_session_stale ctx w_err g e) (
          forgotten (record {
            token_eq = refl;
            count_eq = refl;
            init_eq = refl;
            self_eq = refl;
            ckses_eq = refl;
          }))
      | inl e ↦
          let now = current-IsCurrent ctx g e in
          elim (Option-cases ctx.pcache) [
            | inl none_there ↦
                rw (return_session_dropped ctx w_err g e (inl none_there))
                  (drop_session-Returned ctx g now)
            | inr (item, it) ↦ elim (Bool-cases (stored ctx w_err)) [
              | inl s ↦
                  rw (return_session_dropped ctx w_err g e (inr s))
                    (drop_session-Returned ctx g now)
              | inr s ↦ rw (return_session_cached ctx w_err g e it s) (
                  put_back item now it (λ h. cached-push ctx.per_slot_id item h g)
                    (record {
                      token_eq = refl;
                      count_eq = refl;
                      init_eq = refl;
                      self_eq = refl;
                      ckses_eq = refl;
                    }))
            ]
          ]
    ]

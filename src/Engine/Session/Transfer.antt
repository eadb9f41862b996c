-- ===== src/Engine/Session/Transfer.antt =====
-- A session changes hands: taken by a new context, put back, or closed.
use luna_openssl_provider.Prelude.{
  ℕ, ◌+◌, ◌≤◌, ◌<◌, ◌≡◌, ◌≢◌, sym, subst, ◌∙◌, inl, inr, arith, ◌==◌, if◌then◌else◌, Bool-cases,
}
use luna_openssl_provider.Cryptoki.{Cryptoki, SessionRules}
use luna_openssl_provider.Engine.Session.State.{Context, Globals}
use luna_openssl_provider.Engine.Session.Cache.{luna_close_session}
use luna_openssl_provider.Engine.Session.World.{Thread, user, recovering, assign}
use luna_openssl_provider.Engine.Session.Moves.{cached, Grows, Kept, Same, luna_close_session-keeps}
use luna_openssl_provider.Engine.Session.Taking.{Source, from_cache, from_token, Taken}
use luna_openssl_provider.Engine.Session.Owners.{
  ThreadHolds, IsSound, Owned, holds-Kept, IsSound-later, Owned-Passive, Free, Owned-Others,
  Owned-join,
}

module _ (c : Cryptoki) (r : SessionRules c) where
  Source-Free :
      (g g' : Globals c.Token) (th : ℕ → Thread) (i k : ℕ)
      → Owned c r g th
      → ((j h : ℕ) → ThreadHolds g' (th j) h → ThreadHolds g (th j) h)
      → Source c r g k g'
      → Free c r g' th i k
  Source-Free g g' th i k o back (from_cache counts grows) = record {
    uncached = ground (arith, counts k, o.cached_once k);
    unheld = λ j _ held. ground (arith, counts k, o.held_apart j k (back j k held));
    is_open = grows k (o.cached_open k (ground (arith, counts k)));
  }
  Source-Free g g' th i k o back (from_token counts fresh new grows) = record {
    uncached = not_pos (cached k g') (λ p. fresh (o.cached_open k (omega (arith, p, counts k))));
    unheld = λ j _ held. fresh (o.held_open j k (back j k held));
    is_open = new;
  }
    where
      not_pos : (n : ℕ) → ¬ (0 < n) → n ≡ 0
      not_pos n h = omega arith

  Source-fewer :
      (g g' : Globals c.Token) (k : ℕ)
      → Source c r g k g'
      → ((h : ℕ) → cached h g' ≤ cached h g) × Grows c r g.token g'.token
  Source-fewer g g' k (from_cache counts grows) = ((λ h. omega (arith, counts h)), grows)
  Source-fewer g g' k (from_token counts fresh new grows) = ((λ h. omega (arith, counts h)), grows)

  pub Owned-Taken :
      (g g' : Globals c.Token) (th : ℕ → Thread) (i : ℕ) (ctx : Context)
      → Owned c r g th
      → Taken c r g ctx g'
      → Owned c r g' (assign th i (user ctx))
  Owned-Taken g g' th i ctx o t =
      let (fewer, grows) = Source-fewer g g' ctx.h_session t.source in
      let kept : Kept c r g g' = record {
        same_count = t.same_count;
        same_init = t.same_init;
        same_self = t.same_self;
        fewer = fewer;
        grows = grows;
      } in
      let back : (j h : ℕ) → ThreadHolds g' (th j) h → ThreadHolds g (th j) h =
        λ j h. holds-Kept c r (th j) h kept in
      let free = Source-Free g g' th i ctx.h_session o back t.source in
      Owned-join c r i (user ctx) (Owned-Others c r i (Owned-Passive c r o (inl kept)))
        (λ h held. subst (Free c r g' th i) held.session free)
        (λ _. (t.item, omega (arith, t.count_now)))

  -- A session that nobody owns.
  pub record Loose (g : Globals c.Token) (th : ℕ → Thread) (k : ℕ) : Type 0 where
    pub uncached : cached k g ≡ 0
    pub unheld : (j : ℕ) → ¬ ThreadHolds g (th j) k
    pub is_open : r.IsOpen g.token k

  pub holds-eq :
      (g g' : Globals c.Token) (t : Thread) (h : ℕ)
      → g'.init_count ≡ g.init_count
      → g'.have_c_init ≡ g.have_c_init
      → g'.self ≡ g.self
      → ThreadHolds g' t h
      → ThreadHolds g t h
  holds-eq g g' (user ctx) h e1 e2 e3 held = record {
    inited = held.inited;
    current = record {
      running = sym e2 ∙ held.current.running;
      count_now = held.current.count_now ∙ e1;
      pid_now = held.current.pid_now ∙ e3;
    };
    session = held.session;
  }
  holds-eq g g' (recovering ctx) h e1 e2 e3 held = held

  pub Owned-put_back :
      (g g' : Globals c.Token) (th : ℕ → Thread) (k : ℕ)
      → Owned c r g th
      → Loose g th k
      → ((h : ℕ) → cached h g' ≡ (if k == h then 1 else 0) + cached h g)
      → Same c r g (record g' { ckses = g.ckses })
      → Owned c r g' th
  Owned-put_back g g' th k o f counts s =
      let back : (j h : ℕ) → ThreadHolds g' (th j) h → ThreadHolds g (th j) h =
        λ j h. holds-eq g g' (th j) h s.count_eq s.init_eq s.self_eq in
      let forth : (h : ℕ) → r.IsOpen g.token h → r.IsOpen g'.token h = λ h o. rw s.token_eq o in
      let apart : (j h : ℕ) → ThreadHolds g (th j) h → k ≢ h =
        λ j h held e. f.unheld j (subst (ThreadHolds g (th j)) (sym e) held) in
      record {
        cached_once = λ h. ground (arith, counts h, o.cached_once h, f.uncached);
        cached_open = λ h p. elim (Bool-cases (k == h)) [
          | inl e ↦ forth h (subst (r.IsOpen g.token) (ground arith) f.is_open)
          | inr e ↦ forth h (o.cached_open h (ground (arith, counts h)))
        ];
        held_open = λ j h held. forth h (o.held_open j h (back j h held));
        held_apart = λ j h held.
            let old = back j h held in
            ground (arith, counts h, o.held_apart j h old, apart j h old);
        held_once = λ j l h a b. o.held_once j l h (back j h a) (back l h b);
        sound = λ j. IsSound-later c r g g' (th j) (omega (arith, s.count_eq)) (o.sound j);
      }

  pub Owned-dropped :
      (g g' : Globals c.Token) (th : ℕ → Thread) (k : ℕ)
      → Owned c r g th
      → Loose g th k
      → g'.token ≡ (luna_close_session c k g.token).1
      → Same c r g (record g' { token = g.token })
      → Owned c r g' th
  Owned-dropped g g' th k o f gone s =
      let back : (j h : ℕ) → ThreadHolds g' (th j) h → ThreadHolds g (th j) h =
        λ j h. holds-eq g g' (th j) h s.count_eq s.init_eq s.self_eq in
      let forth : (h : ℕ) → h ≢ k → r.IsOpen g.token h → r.IsOpen g'.token h =
        λ h ne o. rw gone (luna_close_session-keeps c r k g.token h ne o) in
      let counts : (h : ℕ) → cached h g' ≡ cached h g = λ h. ground (arith, s.ckses_eq) in
      record {
        cached_once = λ h. omega (arith, counts h, o.cached_once h);
        cached_open = λ h p.
            forth h
              (λ e.
                let e' = subst (λ x. cached x g ≡ 0) (sym e) f.uncached in
                omega (arith, e', p, counts h))
              (o.cached_open h (omega (arith, counts h, p)));
        held_open = λ j h held.
            forth h (λ e. f.unheld j (subst (ThreadHolds g (th j)) e (back j h held)))
              (o.held_open j h (back j h held));
        held_apart = λ j h held. omega (arith, counts h, o.held_apart j h (back j h held));
        held_once = λ j l h a b. o.held_once j l h (back j h a) (back l h b);
        sound = λ j. IsSound-later c r g g' (th j) (omega (arith, s.count_eq)) (o.sound j);
      }

  -- What thread `i` holds is nobody else's.
  pub held-Free :
      {g : Globals c.Token} {th : ℕ → Thread} (i h : ℕ)
      → Owned c r g th
      → ThreadHolds g (th i) h
      → Free c r g th i h
  held-Free i h o held = record {
    uncached = o.held_apart i h held;
    unheld = λ j ne other. ne (o.held_once j i h other held);
    is_open = o.held_open i h held;
  }

  -- A context that holds no more than before.
  pub Owned-renew :
      (g : Globals c.Token) (th : ℕ → Thread) (i : ℕ) (v : Thread)
      → Owned c r g th
      → ((h : ℕ) → ThreadHolds g v h → ThreadHolds g (th i) h)
      → IsSound g v
      → Owned c r g (assign th i v)
  Owned-renew g th i v o less s =
      Owned-join c r i v (Owned-Others c r i o) (λ h held. held-Free i h o (less h held)) s

-- ===== src/Engine/Session/Owners.antt =====
-- Who owns a session: one context, or one place in one cache, and never two.
use luna_openssl_provider.Prelude.{
  ℕ, ◌≤◌, ◌<◌, ◌≡◌, ◌≢◌, sym, ◌∙◌, ◌⊎◌, inl, inr, true, some, arith, ◌==◌, Bool-cases,
}
use luna_openssl_provider.Cryptoki.{Cryptoki, SessionRules}
use luna_openssl_provider.Engine.Session.State.{Context, Globals}
use luna_openssl_provider.Engine.Session.World.{Thread, user, recovering, assign}
use luna_openssl_provider.Engine.Session.Moves.{cached, Kept, Reset, Passive}
use luna_openssl_provider.Engine.Session.Returning.{IsCurrent}

-- A context holds a session that the library still knows.
pub record Holds {T : Type 0} (g : Globals T) (ctx : Context) (h : ℕ) : Type 0 where
  pub inited : ctx.flag_init ≡ true
  pub current : IsCurrent ctx g
  pub session : ctx.h_session ≡ h

abbrev pub ThreadHolds : {T : Type 0} → Globals T → Thread → ℕ → Type 0
ThreadHolds g (user ctx) h = Holds g ctx h
ThreadHolds g (recovering ctx) h = ⊥

abbrev pub IsSound : {T : Type 0} → Globals T → Thread → Type 0
IsSound g (user ctx) =
    ctx.flag_init ≡ true → (ctx.pcache ≡ some ctx.h_session) × (ctx.count_c_init ≤ g.init_count)
IsSound g (recovering ctx) = Unit

module _ (c : Cryptoki) (r : SessionRules c) where
  pub record Owned (g : Globals c.Token) (threads : ℕ → Thread) : Type 0 where
    pub cached_once : (h : ℕ) → cached h g ≤ 1
    pub cached_open : (h : ℕ) → 0 < cached h g → r.IsOpen g.token h
    pub held_open : (i h : ℕ) → ThreadHolds g (threads i) h → r.IsOpen g.token h
    pub held_apart : (i h : ℕ) → ThreadHolds g (threads i) h → cached h g ≡ 0
    pub held_once : (i j h : ℕ) → ThreadHolds g (threads i) h → ThreadHolds g (threads j) h → i ≡ j
    pub sound : (i : ℕ) → IsSound g (threads i)

  -- After a passive move, a thread holds what it held.
  pub holds-Kept :
      {g g' : Globals c.Token} (t : Thread) (h : ℕ)
      → Kept c r g g'
      → ThreadHolds g' t h
      → ThreadHolds g t h
  holds-Kept (user ctx) h k held = record {
    inited = held.inited;
    current = record {
      running = sym k.same_init ∙ held.current.running;
      count_now = held.current.count_now ∙ k.same_count;
      pid_now = held.current.pid_now ∙ k.same_self;
    };
    session = held.session;
  }
  holds-Kept (recovering ctx) h k held = held

  holds-Reset :
      {g g' : Globals c.Token} (t : Thread) (h : ℕ)
      → IsSound g t
      → Reset c r g g'
      → ¬ ThreadHolds g' t h
  holds-Reset (user ctx) h s k held =
      let old = (s held.inited).1 in
      let now = held.current.count_now in
      let on = held.current.running in ground (arith, old, now, on, k.later_count, k.ended)
  holds-Reset (recovering ctx) h s k held = held

  pub IsSound-later :
      (g g' : Globals c.Token) (t : Thread)
      → g.init_count ≤ g'.init_count
      → IsSound g t
      → IsSound g' t
  IsSound-later g g' (user ctx) le s = λ on. ((s on).0, omega (arith, (s on).1))
  IsSound-later g g' (recovering ctx) le s = tt

  pub Owned-Passive :
      {g g' : Globals c.Token} {th : ℕ → Thread} → Owned g th → Passive c r g g' → Owned g' th
  Owned-Passive {g} {g'} {th} o (inl k) = record {
    cached_once = λ h. omega (arith, o.cached_once h, k.fewer h);
    cached_open = λ h p. k.grows h (o.cached_open h (omega (arith, k.fewer h)));
    held_open = λ i h held. k.grows h (o.held_open i h (holds-Kept (th i) h k held));
    held_apart =
        λ i h held. omega (arith, o.held_apart i h (holds-Kept (th i) h k held), k.fewer h);
    held_once = λ i j h a b. o.held_once i j h (holds-Kept (th i) h k a) (holds-Kept (th j) h k b);
    sound = λ i. IsSound-later g g' (th i) (omega (arith, k.same_count)) (o.sound i);
  }
  Owned-Passive {g} {g'} {th} o (inr k) = record {
    cached_once = λ h. omega (arith, k.emptied h);
    cached_open = λ h p. absurd (omega (arith, k.emptied h));
    held_open = λ i h held. absurd (holds-Reset (th i) h (o.sound i) k held);
    held_apart = λ i h held. k.emptied h;
    held_once = λ i j h a b. absurd (holds-Reset (th i) h (o.sound i) k a);
    sound = λ i. IsSound-later g g' (th i) k.later_count (o.sound i);
  }

  assign-cases {ℓ} :
      (P : Thread → Type ℓ) (th : ℕ → Thread) (i j : ℕ) (v : Thread)
      → (j ≡ i → P v)
      → (j ≢ i → P (th j))
      → P (assign th i v j)
  assign-cases P th i j v there elsewhere = elim (Bool-cases (j == i)) [
    | inl e ↦ rw e (there (ground arith))
    | inr e ↦ rw e (elsewhere (ground arith))
  ]

  pub assign-holds :
      (g : Globals c.Token) (th : ℕ → Thread) (i j h : ℕ) (v : Thread)
      → ThreadHolds g (assign th i v j) h
      → ((j ≡ i) × ThreadHolds g v h) ⊎ ((j ≢ i) × ThreadHolds g (th j) h)
  assign-holds g th i j h v =
      assign-cases
        (λ t.
          ThreadHolds g t h → ((j ≡ i) × ThreadHolds g v h) ⊎ ((j ≢ i) × ThreadHolds g (th j) h))
        th i j v (λ e held. inl (e, held)) (λ e held. inr (e, held))

  -- A thread that gives up what it holds leaves the rest as it was.
  pub Owned-idle :
      {g : Globals c.Token} {th : ℕ → Thread} (i : ℕ) (v : Thread)
      → Owned g th
      → ((h : ℕ) → ¬ ThreadHolds g v h)
      → IsSound g v
      → Owned g (assign th i v)
  Owned-idle {g} {th} i v o none_held s =
      let before : (j h : ℕ) → ThreadHolds g (assign th i v j) h → ThreadHolds g (th j) h =
        λ j h held. elim (assign-holds g th i j h v held) [
          | inl (_, a) ↦ absurd (none_held h a)
          | inr (_, b) ↦ b
        ] in
      record {
        cached_once = o.cached_once;
        cached_open = o.cached_open;
        held_open = λ j h held. o.held_open j h (before j h held);
        held_apart = λ j h held. o.held_apart j h (before j h held);
        held_once = λ j k h a b. o.held_once j k h (before j h a) (before k h b);
        sound = λ j. assign-cases (IsSound g) th i j v (λ _. s) (λ _. o.sound j);
      }

  -- The session of a new context is nobody else's, from wherever it comes.
  pub record Free (g : Globals c.Token) (th : ℕ → Thread) (i k : ℕ) : Type 0 where
    pub uncached : cached k g ≡ 0
    pub unheld : (j : ℕ) → j ≢ i → ¬ ThreadHolds g (th j) k
    pub is_open : r.IsOpen g.token k

  -- The rest of the world behind a `Source`: the caches and the other threads.
  pub record Others (g : Globals c.Token) (th : ℕ → Thread) (i : ℕ) : Type 0 where
    pub once : (h : ℕ) → cached h g ≤ 1
    pub caches_open : (h : ℕ) → 0 < cached h g → r.IsOpen g.token h
    pub others_open : (j h : ℕ) → j ≢ i → ThreadHolds g (th j) h → r.IsOpen g.token h
    pub others_apart : (j h : ℕ) → j ≢ i → ThreadHolds g (th j) h → cached h g ≡ 0
    pub others_once :
        (j l h : ℕ) → j ≢ i → l ≢ i → ThreadHolds g (th j) h → ThreadHolds g (th l) h → j ≡ l
    pub others_sound : (j : ℕ) → j ≢ i → IsSound g (th j)

  pub Owned-Others : {g : Globals c.Token} {th : ℕ → Thread} (i : ℕ) → Owned g th → Others g th i
  Owned-Others i o = record {
    once = o.cached_once;
    caches_open = o.cached_open;
    others_open = λ j h _. o.held_open j h;
    others_apart = λ j h _. o.held_apart j h;
    others_once = λ j l h _ _. o.held_once j l h;
    others_sound = λ j _. o.sound j;
  }

  -- A thread whose session is free joins the others.
  pub Owned-join :
      {g : Globals c.Token} {th : ℕ → Thread} (i : ℕ) (v : Thread)
      → Others g th i
      → ((h : ℕ) → ThreadHolds g v h → Free g th i h)
      → IsSound g v
      → Owned g (assign th i v)
  Owned-join {g} {th} i v o free s = record {
    cached_once = o.once;
    cached_open = o.caches_open;
    held_open = λ j h held. elim (assign-holds g th i j h v held) [
      | inl (_, a) ↦ (free h a).is_open
      | inr (ne, b) ↦ o.others_open j h ne b
    ];
    held_apart = λ j h held. elim (assign-holds g th i j h v held) [
      | inl (_, a) ↦ (free h a).uncached
      | inr (ne, b) ↦ o.others_apart j h ne b
    ];
    held_once = λ j l h x y. elim (assign-holds g th i j h v x) [
      | inl (e, a) ↦ elim (assign-holds g th i l h v y) [
        | inl (f, _) ↦ e ∙ sym f
        | inr (ne, b) ↦ absurd ((free h a).unheld l ne b)
      ]
      | inr (ne, a) ↦ elim (assign-holds g th i l h v y) [
        | inl (_, b) ↦ absurd ((free h b).unheld j ne a)
        | inr (mf, b) ↦ o.others_once j l h ne mf a b
      ]
    ];
    sound = λ j. assign-cases (IsSound g) th i j v (λ _. s) (λ ne. o.others_sound j ne);
  }

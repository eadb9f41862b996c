-- ===== src/Engine/Session/Exclusive.antt =====
-- The sessions of a process that starts with none, after any steps of its threads.
use luna_openssl_provider.Prelude.{ℕ, ◌≤◌, ◌<◌, ◌≡◌, subst, [], arith}
use luna_openssl_provider.Cryptoki.{Cryptoki, SessionRules}
use luna_openssl_provider.Engine.Config.{Config}
use luna_openssl_provider.Engine.Session.State.{context_init, Globals}
use luna_openssl_provider.Engine.Session.Moves.{count, cached}
use luna_openssl_provider.Engine.Session.World.{Thread, user, World, Reach}
use luna_openssl_provider.Engine.Session.Owners.{ThreadHolds, IsSound, Owned}
use luna_openssl_provider.Engine.Session.Ownership.{Reach-Owned}

-- Before the engine is used: no session is cached and no thread has opened a context.
pub record IsStart {T : Type 0} (w : World T) : Type 0 where
  pub first_empty : w.globals.ckses.at0 ≡ []
  pub second_empty : w.globals.ckses.at1 ≡ []
  pub unused : (i : ℕ) → w.threads i ≡ user context_init

-- A session that a thread's initialized context holds, where the library still runs as it did when
-- the context was opened, and in the same process.
abbrev pub UsedBy : {T : Type 0} → World T → ℕ → ℕ → Type 0
UsedBy w i h = ThreadHolds w.globals (w.threads i) h

-- Every session is used by at most one thread, stands at most once in the two caches, and never
-- both; and it is open in the token.
pub record Exclusive (c : Cryptoki) (r : SessionRules c) (w : World c.Token) : Type 0 where
  pub one_user : (i j h : ℕ) → UsedBy w i h → UsedBy w j h → i ≡ j
  pub used_or_cached : (i h : ℕ) → UsedBy w i h → cached h w.globals ≡ 0
  pub cached_once : (h : ℕ) → cached h w.globals ≤ 1
  pub used_open : (i h : ℕ) → UsedBy w i h → r.IsOpen w.globals.token h
  pub cached_open : (h : ℕ) → 0 < cached h w.globals → r.IsOpen w.globals.token h

module _ (c : Cryptoki) (r : SessionRules c) (cfg : Config) where
  start_cached :
      (g : Globals c.Token) (h : ℕ) → g.ckses.at0 ≡ [] → g.ckses.at1 ≡ [] → cached h g ≡ 0
  unfolding count
  start_cached g h e1 e2 = ground (arith, e1, e2)

  start_holds :
      (g : Globals c.Token) (t : Thread) (h : ℕ) → t ≡ user context_init → ¬ ThreadHolds g t h
  start_holds g t h e held = let held' = subst (λ x. ThreadHolds g x h) e held in cc held'.inited

  start-IsSound : (g : Globals c.Token) (t : Thread) → t ≡ user context_init → IsSound g t
  start-IsSound g t e = rw e (λ on. cc on)

  start-Owned : (w : World c.Token) → IsStart w → Owned c r w.globals w.threads
  start-Owned w s =
      let empty : (h : ℕ) → cached h w.globals ≡ 0 =
        λ h. start_cached w.globals h s.first_empty s.second_empty in
      let idle : (i h : ℕ) → ¬ UsedBy w i h =
        λ i h. start_holds w.globals (w.threads i) h (s.unused i) in
      record {
        cached_once = λ h. omega (arith, empty h);
        cached_open = λ h p. absurd (omega (arith, empty h));
        held_open = λ i h held. absurd (idle i h held);
        held_apart = λ i h held. empty h;
        held_once = λ i j h a b. absurd (idle i h a);
        sound = λ i. start-IsSound w.globals (w.threads i) (s.unused i);
      }

  -- Whatever steps the threads of a process take, in any order, from a start with no sessions: no two
  -- contexts use one session, no session in use is in a cache, none is cached twice, and all of them
  -- are open. The steps are opening, closing with or without errors, recovery, noted errors, new
  -- contexts and fork(); the token keeps the rules of `SessionRules`.
  pub Reach-Exclusive : {w u : World c.Token} → IsStart w → Reach c cfg w u → Exclusive c r u
  Reach-Exclusive {w} s steps =
      let o = Reach-Owned c r cfg (start-Owned w s) steps in
      record {
        one_user = o.held_once;
        used_or_cached = o.held_apart;
        cached_once = o.cached_once;
        used_open = o.held_open;
        cached_open = o.cached_open;
      }

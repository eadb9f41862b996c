-- ===== src/Engine/Session/Ownership.antt =====
-- The ownership of sessions for every order of the steps of the threads (Engine/Session/World.antt).
use luna_openssl_provider.Prelude.{
  ℕ, ◌+◌, ◌^◌, ◌<◌, ◌≡◌, ◌≢◌, refl, sym, subst, inl, inr, Bool, true, arith, ltb, Bool-cases,
}
use luna_openssl_provider.Cryptoki.{Cryptoki, SessionRules}
use luna_openssl_provider.Engine.Config.{Config}
use luna_openssl_provider.Engine.Session.State.{Context, Globals, luna_rv_severity}
use luna_openssl_provider.Engine.Session.Context.{
  luna_context_set_last_error, luna_open_context_ndx,
}
use luna_openssl_provider.Engine.Session.Close.{luna_close_context_w_err, close_resume}
use luna_openssl_provider.Engine.Session.World.{
  Thread, user, recovering, thread_of, World, assign, Step, opens, closes, resumes, notes, starts,
  forks, Reach, here, next,
}
use luna_openssl_provider.Engine.Session.Moves.{Same, Same-Kept}
use luna_openssl_provider.Engine.Session.Opening.{open_locked-Opened}
use luna_openssl_provider.Engine.Session.Closing.{
  luna_close_context_w_err-Released, close_recover-Passive,
}
use luna_openssl_provider.Engine.Session.Owners.{
  Holds, ThreadHolds, IsSound, Owned, IsSound-later, Owned-Passive, Owned-idle,
}
use luna_openssl_provider.Engine.Session.Transfer.{Owned-Taken, Owned-renew}
use luna_openssl_provider.Engine.Session.Handover.{Owned-Released}

module _ (c : Cryptoki) (r : SessionRules c) where
  last_error_keeps :
      (g : Globals c.Token) (ctx : Context) (rv : ℕ)
      → ((h : ℕ) → Holds g (luna_context_set_last_error ctx rv) h → Holds g ctx h)
        × (IsSound g (user ctx) → IsSound g (user (luna_context_set_last_error ctx rv)))
  unfolding luna_context_set_last_error
  last_error_keeps g ctx rv =
      elim (Bool-cases (ltb (luna_rv_severity ctx.rv_last) (luna_rv_severity rv))) [
        | inl e ↦ simp e (
          (λ h held. record {
            inited = held.inited;
            current = record {
              running = held.current.running;
              count_now = held.current.count_now;
              pid_now = held.current.pid_now;
            };
            session = held.session;
          }),
          (λ s. s),
        )
        | inr e ↦ simp e ((λ h held. held), (λ s. s))
      ]

  module _ (cfg : Config) where
    opens-Owned :
        (g : Globals c.Token) (th : ℕ → Thread) (i ndx : ℕ) (ctx : Context)
        → Owned c r g th
        → th i ≡ user ctx
        → g.init_count + 1 < 2 ^ 32
        → let res = luna_open_context_ndx c cfg ctx ndx g in
          Owned c r res.2 (assign th i (user res.1))
    unfolding luna_open_context_ndx
    opens-Owned g th i ndx ctx o e room =
        let same =
          Owned-renew c r g th i (user ctx) o
            (λ h held. subst (λ t. ThreadHolds g t h) (sym e) held)
            (subst (IsSound g) e (o.sound i)) in
        elim (Bool-cases ctx.flag_error) [
          | inl f ↦ simp f same
          | inr f ↦ elim (Bool-cases ctx.flag_init) [
            | inl q ↦ simp (f, q) same
            | inr q ↦
                simp (f, q)
                  (elim (open_locked-Opened c r cfg ndx g room) [
                    | inl (off, p) ↦
                        Owned-idle c r i _ (Owned-Passive c r o p) (λ h held. cc (off, held.inited))
                          (λ on. cc (off, on))
                    | inr (g1, p, t) ↦ Owned-Taken c r g1 _ th i _ (Owned-Passive c r o p) t
                  ])
          ]
        ]

    closes-Owned :
        (g : Globals c.Token) (th : ℕ → Thread) (i : ℕ) (ctx : Context) (flag_err : Bool) (rv : ℕ)
        → Owned c r g th
        → th i ≡ user ctx
        → let res = luna_close_context_w_err c cfg ctx flag_err rv g in
          Owned c r res.1 (assign th i (thread_of res.0))
    closes-Owned g th i ctx flag_err rv o e =
        let ctx1 = luna_context_set_last_error ctx rv in
        let keeps = last_error_keeps g ctx rv in
        let mine : (h : ℕ) → Holds g ctx1 h → ThreadHolds g (th i) h =
          λ h held. subst (λ t. ThreadHolds g t h) (sym e) (keeps.0 h held) in
        let s = keeps.1 (subst (IsSound g) e (o.sound i)) in
        elim (luna_close_context_w_err-Released c r cfg ctx flag_err rv g) [
          | inl same ↦ rw same (Owned-renew c r g th i (user ctx1) o mine s)
          | inr (on, rel) ↦ Owned-Released c r g th i ctx1 _ o s on mine rel
        ]

    resumes-Owned :
        (g : Globals c.Token) (th : ℕ → Thread) (i : ℕ) (ctx : Context)
        → Owned c r g th
        → let res = close_resume c cfg ctx g in Owned c r res.1 (assign th i (user res.0))
    unfolding close_resume
    resumes-Owned g th i ctx o =
        let entered : Same c r g (record g { held = true }) = record {
          token_eq = refl;
          count_eq = refl;
          init_eq = refl;
          self_eq = refl;
          ckses_eq = refl;
        } in
        Owned-idle c r i _
          (Owned-Passive c r (Owned-Passive c r o (inl (Same-Kept c r entered)))
            (close_recover-Passive c r cfg ctx (record g { held = true })))
          (λ h held. cc held.inited) (λ on. cc on)

    forks-Owned :
        (g : Globals c.Token) (th : ℕ → Thread) (pid : ℕ)
        → Owned c r g th
        → ((i : ℕ) (ctx : Context) → th i ≡ user ctx → ctx.pid ≢ pid)
        → Owned c r (record g { self = pid }) th
    forks-Owned g th pid o fresh =
        let lost : (i h : ℕ) → ¬ ThreadHolds (record g { self = pid }) (th i) h =
          λ i h. lost_all (th i) i h refl in
        record {
          cached_once = o.cached_once;
          cached_open = o.cached_open;
          held_open = λ i h held. absurd (lost i h held);
          held_apart = λ i h held. absurd (lost i h held);
          held_once = λ i j h a b. absurd (lost i h a);
          sound =
              λ i. IsSound-later c r g (record g { self = pid }) (th i) (omega arith) (o.sound i);
        }
      where
        lost_all : (t : Thread) (i h : ℕ) → th i ≡ t → ¬ ThreadHolds (record g { self = pid }) t h
        lost_all (user ctx) i h e held = fresh i ctx e held.current.pid_now
        lost_all (recovering ctx) i h e held = held

    Step-Owned :
        {w u : World c.Token}
        → Step c cfg w u
        → Owned c r w.globals w.threads
        → Owned c r u.globals u.threads
    Step-Owned {w} (opens i ndx ctx e clear room eq) o =
        rw eq (opens-Owned w.globals w.threads i ndx ctx o e room)
    Step-Owned {w} (closes i ctx flag_err rv e eq) o =
        rw eq (closes-Owned w.globals w.threads i ctx flag_err rv o e)
    Step-Owned {w} (resumes i ctx e quiet eq) o = rw eq (resumes-Owned w.globals w.threads i ctx o)
    Step-Owned {w} (notes i ctx rv e eq) o =
        let keeps = last_error_keeps w.globals ctx rv in
        rw eq (
          Owned-renew c r w.globals w.threads i _ o
            (λ h held. subst (λ t. ThreadHolds w.globals t h) (sym e) (keeps.0 h held))
            (keeps.1 (subst (IsSound w.globals) e (o.sound i))))
    Step-Owned {w} (starts i ctx e off eq) o =
        rw eq (Owned-idle c r i _ o (λ h held. cc held.inited) (λ on. cc on))
    Step-Owned {w} (forks pid ne fresh eq) o = rw eq (forks-Owned w.globals w.threads pid o fresh)

    pub Reach-Owned :
        {w u : World c.Token}
        → Owned c r w.globals w.threads
        → Reach c cfg w u
        → Owned c r u.globals u.threads
    Reach-Owned o here = o
    Reach-Owned o (next before step) = Step-Owned step (Reach-Owned o before)

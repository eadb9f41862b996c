-- ===== src/Engine/Session/Handover.antt =====
-- A context that is closed gives its session up, and nobody else loses one.
use luna_openssl_provider.Prelude.{ℕ, ◌≡◌, refl, sym, inl, inr, true, arith}
use luna_openssl_provider.Cryptoki.{Cryptoki, SessionRules}
use luna_openssl_provider.Engine.Session.State.{Context, Globals}
use luna_openssl_provider.Engine.Session.Context.{Closing, closed, waiting}
use luna_openssl_provider.Engine.Session.World.{Thread, user, thread_of, assign}
use luna_openssl_provider.Engine.Session.Moves.{Same-Kept}
use luna_openssl_provider.Engine.Session.Returning.{
  Idle, Returned, forgotten, put_back, dropped, Released,
}
use luna_openssl_provider.Engine.Session.Owners.{
  Holds, ThreadHolds, IsSound, Owned, IsSound-later, Owned-Passive, assign-holds, Owned-idle,
}
use luna_openssl_provider.Engine.Session.Transfer.{
  Loose, holds-eq, Owned-put_back, Owned-dropped, held-Free,
}

module _ (c : Cryptoki) (r : SessionRules c) where
  Owned-Returned :
      (g g' : Globals c.Token) (th : ℕ → Thread) (ctx : Context)
      → Owned c r g th
      → IsSound g (user ctx)
      → ctx.flag_init ≡ true
      → ((h : ℕ) → Holds g ctx h → Loose c r g th h)
      → Returned c r ctx g g'
      → Owned c r g' th
  Owned-Returned g g' th ctx o s on loose (forgotten same) =
      Owned-Passive c r o (inl (Same-Kept c r same))
  Owned-Returned g g' th ctx o s on loose (put_back item now it counts same) =
      let e : item ≡ ctx.h_session = cc (it, (s on).0) in
      let free = loose item (record { inited = on; current = now; session = sym e }) in
      Owned-put_back c r g g' th item o free counts same
  Owned-Returned g g' th ctx o s on loose (dropped now gone same) =
      let free = loose ctx.h_session (record { inited = on; current = now; session = refl }) in
      Owned-dropped c r g g' th ctx.h_session o free gone same

  Idle-thread :
      (g : Globals c.Token) (x : Closing)
      → Idle x
      → ((h : ℕ) → ¬ ThreadHolds g (thread_of x) h) × IsSound g (thread_of x)
  Idle-thread g (closed ctx) off = ((λ h held. cc (off, held.inited)), λ on. cc (off, on))
  Idle-thread g (waiting ctx) off = ((λ h held. held), tt)

  pub Owned-Released :
      (g : Globals c.Token) (th : ℕ → Thread) (i : ℕ) (ctx : Context)
      (res : Closing × Globals c.Token)
      → Owned c r g th
      → IsSound g (user ctx)
      → ctx.flag_init ≡ true
      → ((h : ℕ) → Holds g ctx h → ThreadHolds g (th i) h)
      → Released c r ctx g res
      → Owned c r res.1 (assign th i (thread_of res.0))
  Owned-Released g th i ctx res o s on mine rel =
      let v = thread_of res.0 in
      let quiet = Idle-thread g res.0 rel.idle in
      let o1 =
        Owned-Passive c r (Owned-idle c r i v o (λ h. quiet.0 h) quiet.1)
          (inl (Same-Kept c r rel.entered)) in
      let old : (h : ℕ) → Holds rel.before ctx h → Holds g ctx h = λ h.
        holds-eq c r g rel.before (user ctx) h rel.entered.count_eq rel.entered.init_eq
          rel.entered.self_eq in
      let loose : (h : ℕ) → Holds rel.before ctx h → Loose c r rel.before (assign th i v) h =
        λ h held.
          let free = held-Free c r i h o (mine h (old h held)) in
          record {
            uncached = ground (arith, rel.entered.ckses_eq, free.uncached);
            unheld = λ j other.
                elim (assign-holds c r g th i j h v (
                  holds-eq c r g rel.before (assign th i v j) h rel.entered.count_eq
                    rel.entered.init_eq rel.entered.self_eq other)) [
                      | inl (_, a) ↦ quiet.0 h a
                      | inr (ne, b) ↦ free.unheld j ne b
                    ];
            is_open = rw rel.entered.token_eq free.is_open;
          } in
      Owned-Passive c r
        (Owned-Returned rel.before rel.after (assign th i v) ctx o1
          (IsSound-later c r g rel.before (user ctx) (omega (arith, rel.entered.count_eq)) s) on
          loose rel.returned)
        rel.finished

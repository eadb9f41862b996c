-- ===== src/Provider/Key/Once.antt =====
-- The magic value of a key: LUNA_OQS_keypair works on a key once.
use luna_openssl_provider.Prelude.{
  ℕ, ◌≡◌, refl, Bool, false, Option, some, Bytes, arith, Option-cases, inl, inr, ◌∙◌, List,
}
use luna_openssl_provider.Cryptoki.{Cryptoki}
use luna_openssl_provider.Engine.Config.{Config}
use luna_openssl_provider.Engine.Session.State.{Globals}
use luna_openssl_provider.Provider.Algorithms.{Alg}
use luna_openssl_provider.Provider.KeyLock.{gen}
use luna_openssl_provider.Provider.Key.State.{
  magic_zero, magic_error, is_zero_magic, is_ok_magic, ProvKey, Work, KeyCalls, set_last_error,
  set_magic,
}
use luna_openssl_provider.Provider.Key.Find.{luna_pqc_find}
use luna_openssl_provider.Provider.Key.Export.{cka_value, luna_pqc_export_public}
use luna_openssl_provider.Provider.Key.Gen.{luna_pqc_gen}
use luna_openssl_provider.Provider.Key.Ops.{
  begin_op, end_op, open_op, finish_op, find_or_gen, luna_oqs_keypair,
}
use luna_openssl_provider.Provider.Key.Steady.{
  luna_pqc_find-Kept, luna_export_public-Kept, luna_pqc_gen-Kept,
}

module _ (cfg : Config) (c : Cryptoki) (calls : KeyCalls c) (tab : List Alg)
    (rand_label rand_pad : ℕ → Option Bytes) where
  find_or_gen-magic :
      (is_kem : Bool) (w : Work c.Token) {r : ℕ × Work c.Token}
      → find_or_gen cfg c calls tab rand_label rand_pad is_kem w ≡ some r
      → r.1.key.magic ≡ w.key.magic
  unfolding find_or_gen
  find_or_gen-magic is_kem w {r = r} e =
      let found = luna_pqc_find c calls tab w in
      let w1 = found.1 in
      let w2 : Work c.Token = record w1 { key = record w1.key { reason = gen } } in
      let result = luna_pqc_gen cfg c calls tab rand_label rand_pad is_kem false w2 in
      elim (Option-cases result) [
        | inl failed ↦ ground (arith, e, failed, luna_pqc_find-Kept c calls tab w)
        | inr (r2, made) ↦ ground (
          arith,
          e,
          made,
          luna_pqc_find-Kept c calls tab w,
          luna_pqc_gen-Kept c calls cfg tab rand_label rand_pad is_kem false w2 made,
        )
      ]

  -- What the end of the operation makes of a key that is marked as in error.
  abbrev Settled : Bool × ProvKey × Globals c.Token → Type 0
  Settled (done, key, g) = (is_ok_magic key.magic ≡ done) × (is_zero_magic key.magic ≡ false)

  finish_op-Settled :
      (rv : ℕ) (w : Work c.Token)
      → w.key.magic ≡ magic_error
      → Settled (finish_op cfg c calls tab rv w)
  unfolding finish_op end_op
  finish_op-Settled rv w e = ground (arith, e)

  keypair-Settled :
      (is_kem : Bool) (key : ProvKey) (g : Globals c.Token) {r : Bool × ProvKey × Globals c.Token}
      → luna_oqs_keypair cfg c calls tab rand_label rand_pad is_kem key g ≡ some r
      → key.magic ≡ magic_zero
      → Settled r
  unfolding luna_oqs_keypair open_op
  keypair-Settled is_kem key g {r = r} e zero_magic =
      let opened =
        open_op cfg c calls tab (set_magic magic_error (begin_op cfg c calls tab key g)) in
      let rv = opened.0 in
      let w = opened.1 in
      let failed = finish_op-Settled rv w refl in
      elim (Option-cases (find_or_gen cfg c calls tab rand_label rand_pad is_kem w)) [
        | inl h ↦ ground (arith, e, zero_magic, h, failed)
        | inr ((rv2, w2), h) ↦
            let export = luna_pqc_export_public c calls w2 in
            let w3 = export.1 in
            let in_error = find_or_gen-magic is_kem w h in
            let plain = finish_op-Settled rv2 (set_last_error rv2 w2) in_error in
            let exported =
              finish_op-Settled export.0 (set_last_error export.0 w3)
                ((luna_export_public-Kept c calls cka_value w2).magic_eq ∙ in_error) in
            ground (arith, e, zero_magic, h, failed, plain, exported)
      ]

  -- A key that LUNA_OQS_keypair has worked on, from the magic value zero: the value is "ok" exactly if
  -- the call has returned 1, and it is never zero again; so each later call, in whatever state the
  -- engine is then, fails and leaves the key and the engine as they are.
  pub luna_oqs_keypair-once :
      (is_kem : Bool) (key : ProvKey) (g g' : Globals c.Token)
      {r : Bool × ProvKey × Globals c.Token}
      → luna_oqs_keypair cfg c calls tab rand_label rand_pad is_kem key g ≡ some r
      → key.magic ≡ magic_zero
      → Settled r
        × (luna_oqs_keypair cfg c calls tab rand_label rand_pad is_kem r.1 g'
            ≡ some (false, r.1, g'))
  unfolding luna_oqs_keypair open_op
  luna_oqs_keypair-once is_kem key g g' e zero_magic =
      let settled = keypair-Settled is_kem key g e zero_magic in (settled, ground (arith, settled))

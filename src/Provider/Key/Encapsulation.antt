-- ===== src/Provider/Key/Encapsulation.antt =====
-- LUNA_OQS_KEM_encaps behind LUNA_OQS_QUERY_KEM_encaps.
use luna_openssl_provider.Prelude.{
  ℕ, ◌≡◌, ◌≢◌, refl, Bool, true, false, Option, none, List, arith, ◌==◌,
}
use luna_openssl_provider.Cryptoki.{Cryptoki}
use luna_openssl_provider.Engine.Config.{Config}
use luna_openssl_provider.Engine.Session.State.{Globals}
use luna_openssl_provider.Provider.Algorithms.{Alg, luna_oqs_query_x}
use luna_openssl_provider.Provider.Key.State.{
  magic_zero, magic_error, is_zero_magic, ProvKey, Work, KeyCalls, set_magic,
}
use luna_openssl_provider.Provider.Key.Export.{cka_ec_point}
use luna_openssl_provider.Provider.Key.Ops.{
  begin_op, end_op, open_op, luna_oqs_findobject_internal, luna_oqs_findobject_helper_pre,
  luna_oqs_findobject_helper_post, luna_oqs_findobject, luna_oqs_query_any_public_op,
}
use luna_openssl_provider.Provider.Key.Steady.{luna_export_public-Kept, luna_pqc_find-Kept}
use luna_openssl_provider.Provider.Key.Wrap.{SecretCalls, Wrapping}
use luna_openssl_provider.Provider.Key.Encap.{
  EncapCalls, luna_oqs_kem_encaps, luna_oqs_query_kem_encaps,
}

module _ (cfg : Config) (c : Cryptoki) (calls : KeyCalls c) (tab : List Alg) where
  open_op-magic : (w : Work c.Token) → (open_op cfg c calls tab w).1.key.magic ≡ w.key.magic
  unfolding open_op
  open_op-magic w = refl

  internal-magic :
      (w : Work c.Token)
      → w.key.magic ≡ magic_zero
      → is_zero_magic (luna_oqs_findobject_internal cfg c calls tab w).key.magic ≡ false
  unfolding luna_oqs_findobject_internal
  internal-magic w zero_magic =
      let w0 = set_magic magic_error w in
      let opened = open_op cfg c calls tab w0 in
      ground
        (arith, zero_magic, open_op-magic w0, (luna_pqc_find-Kept c calls tab opened.1).magic_eq)

  helper_post-magic :
      (here : Bool) (w : Work c.Token)
      → (luna_oqs_findobject_helper_post cfg c calls tab here w).key.magic ≡ w.key.magic
  unfolding luna_oqs_findobject_helper_post
  helper_post-magic here w =
      ground (arith, (luna_export_public-Kept c calls cka_ec_point w).magic_eq)

  helper_pre-magic :
      (w : Work c.Token)
      → is_zero_magic (luna_oqs_findobject_helper_pre cfg c calls tab w).2.key.magic ≡ false
  unfolding luna_oqs_findobject_helper_pre
  helper_pre-magic w = ground (arith, internal-magic (set_magic magic_zero w) refl)

  helper_pre-here :
      (w : Work c.Token)
      → (luna_oqs_findobject_helper_pre cfg c calls tab w).1 ≡ is_zero_magic w.key.magic
  unfolding luna_oqs_findobject_helper_pre
  helper_pre-here w = ground arith

  findobject-magic :
      (key : ProvKey) (g : Globals c.Token)
      → is_zero_magic (luna_oqs_findobject cfg c calls tab key g).1.magic ≡ false
  unfolding luna_oqs_findobject end_op
  findobject-magic key g =
      let pre = luna_oqs_findobject_helper_pre cfg c calls tab (begin_op cfg c calls tab key g) in
      ground
        (arith, helper_pre-magic (begin_op cfg c calls tab key g), helper_post-magic pre.1 pre.2)

  query-magic :
      (key : ProvKey) (g : Globals c.Token)
      → let r = luna_oqs_query_any_public_op cfg c calls tab key g in
        r.0 ≡ true → is_zero_magic r.1.magic ≡ false
  unfolding luna_oqs_query_any_public_op
  query-magic key g =
      let alg1 = (luna_oqs_query_x tab key.alg).1 in
      let key1 : ProvKey = record key { alg = alg1 } in ground (arith, findobject-magic key1 g)

  query-public :
      (key : ProvKey) (g : Globals c.Token)
      → let r = luna_oqs_query_any_public_op cfg c calls tab key g in
        r.0 ≡ true → (r.1.h_public == 0) ≡ false
  unfolding luna_oqs_query_any_public_op
  query-public key g = ground arith

  module _ (secrets : SecretCalls c) (encaps : EncapCalls c) where
    kem_encaps-asserts :
        (buffers : Option (ℕ × ℕ)) (x : Wrapping secrets.Pkey) (key : ProvKey) (g : Globals c.Token)
        → is_zero_magic key.magic ≡ false
        → luna_oqs_kem_encaps cfg c secrets encaps tab calls buffers x key g ≢ none
    unfolding luna_oqs_kem_encaps
    kem_encaps-asserts buffers x key g nonzero =
        ground (arith, nonzero, helper_pre-here (begin_op cfg c calls tab key g))

    -- The query LUNA_OQS_QUERY_KEM_encaps says the same as the query of any operation with the public
    -- key: its own test of the handle never refuses. Behind a query that returns 1, the assertion of
    -- LUNA_OQS_KEM_encaps holds for this key, in whatever state the engine is then and for all buffers.
    pub luna_oqs_kem_encaps-luna_oqs_query_kem_encaps :
        (key : ProvKey) (g : Globals c.Token)
        → let query = luna_oqs_query_kem_encaps cfg c secrets encaps tab calls key g in
          (query ≡ luna_oqs_query_any_public_op cfg c calls tab key g)
          × (query.0 ≡ true
              → (buffers : Option (ℕ × ℕ)) (x : Wrapping secrets.Pkey) (g' : Globals c.Token)
              → luna_oqs_kem_encaps cfg c secrets encaps tab calls buffers x query.1 g' ≢ none)
    unfolding luna_oqs_query_kem_encaps
    luna_oqs_kem_encaps-luna_oqs_query_kem_encaps key g =
        let any = luna_oqs_query_any_public_op cfg c calls tab key g in
        (
          ground (arith, query-public key g),
          λ yes buffers x g'.
              kem_encaps-asserts buffers x any.1 g' (query-magic key g (ground (arith, yes))),
        )

-- ===== src/Provider/Key/Fresh.antt =====
-- The count of a key against the count of the engine: no operation goes on with handles of a library
-- that has ended.
use luna_openssl_provider.Prelude.{ℕ, ◌≡◌, refl, ap, true, false, List, arith}
use luna_openssl_provider.Cryptoki.{Cryptoki, ckr_ok}
use luna_openssl_provider.Engine.Config.{Config}
use luna_openssl_provider.Engine.Session.State.{context_init, Globals}
use luna_openssl_provider.Engine.Session.Opened.{luna_open_context-runs}
use luna_openssl_provider.Engine.Session.Context.{luna_context_set_last_error}
use luna_openssl_provider.Provider.Algorithms.{Alg}
use luna_openssl_provider.Provider.Blob.{
  Template, Decoded, decoded, arguments_bad, decoding_failed, luna_pqc_decode_template,
}
use luna_openssl_provider.Provider.Key.State.{
  ckr_object_decoding_failed, magic_zero, magic_error, magic_ok, is_ok_magic, ProvKey, Work,
  KeyCalls, p11_check_count, ckr_arguments_bad, set_magic,
}
use luna_openssl_provider.Provider.Key.Find.{luna_pqc_find, find_labels, blank_template}
use luna_openssl_provider.Provider.Key.Ops.{
  begin_op, open_op, luna_oqs_findobject_internal, luna_oqs_findobject_helper_pre,
}
use luna_openssl_provider.Provider.Key.Steady.{find_labels-Kept, luna_pqc_find-Kept, hardware}

module _ (c : Cryptoki) (calls : KeyCalls c) (tab : List Alg) where
  find_labels-count :
      (p q : Template) (w : Work c.Token)
      → let r = find_labels c calls tab p q w in
        r.0 ≡ ckr_ok → r.1.key.count_c_init ≡ r.1.globals.init_count
  unfolding find_labels
  find_labels-count p q w = ground arith

  luna_pqc_find-count :
      (w : Work c.Token)
      → let r = luna_pqc_find c calls tab w in
        r.0 ≡ ckr_ok → r.1.key.count_c_init ≡ w.globals.init_count
  unfolding luna_pqc_find
  luna_pqc_find-count w =
      by_decoded (luna_pqc_decode_template blank_template blank_template w.key.privkey)
    where
      by_decoded :
          (d : Decoded)
          → let r = elim d as (λ x. ℕ × Work c.Token) [
            | arguments_bad ↦ (ckr_arguments_bad, hardware true w)
            | decoding_failed ↦ (ckr_object_decoding_failed, hardware false w)
            | decoded p q ↦ find_labels c calls tab p q (hardware true w)
          ] in
            r.0 ≡ ckr_ok → r.1.key.count_c_init ≡ w.globals.init_count
      by_decoded (decoded p q) = ground (
        arith,
        find_labels-count p q (hardware true w),
        find_labels-Kept c calls tab p q (hardware true w),
      )
      by_decoded arguments_bad = ground arith
      by_decoded decoding_failed = ground arith

  module _ (cfg : Config) where
    open_op-runs :
        (w : Work c.Token)
        → w.sess ≡ context_init
        → let r = open_op cfg c calls tab w in r.0 ≡ ckr_ok → r.1.globals.have_c_init ≡ true
    unfolding open_op
    open_op-runs w new = ground (arith, new, luna_open_context-runs c cfg w.globals)

    open_op-magic : (w : Work c.Token) → (open_op cfg c calls tab w).1.key.magic ≡ w.key.magic
    unfolding open_op
    open_op-magic w = refl

    internal-fresh :
        (w : Work c.Token)
        → w.sess ≡ context_init
        → w.key.magic ≡ magic_zero
        → let r = luna_oqs_findobject_internal cfg c calls tab w in
          r.key.magic ≡ magic_ok → p11_check_count r.key.count_c_init r.globals ≡ false
    unfolding luna_oqs_findobject_internal luna_context_set_last_error
    internal-fresh w new zero_magic =
        let w0 = set_magic magic_error w in
        let opened = open_op cfg c calls tab w0 in
        let kept = luna_pqc_find-Kept c calls tab opened.1 in
        ground (
          arith,
          zero_magic,
          open_op-runs w0 new,
          luna_pqc_find-count opened.1,
          open_op-magic w0,
          kept.magic_eq,
          ap (λ g. g.have_c_init) kept.globals_eq,
          ap (λ g. g.init_count) kept.globals_eq,
        )

    -- The search of an operation ends with the return value that the magic value says, and a key that
    -- it returns 1 for has the count of the library that runs then, whether it was found now or in
    -- an earlier operation: the handles of a key are never taken to a library that did not give them.
    pub luna_oqs_findobject_helper_pre-fresh :
        (key : ProvKey) (g : Globals c.Token)
        → let r = luna_oqs_findobject_helper_pre cfg c calls tab (begin_op cfg c calls tab key g) in
          (is_ok_magic r.2.key.magic ≡ r.0)
          × (r.0 ≡ true → p11_check_count r.2.key.count_c_init r.2.globals ≡ false)
    unfolding luna_oqs_findobject_helper_pre
    luna_oqs_findobject_helper_pre-fresh key g =
        let w0 = set_magic magic_zero (begin_op cfg c calls tab key g) in
        ground (arith, internal-fresh w0 refl refl)

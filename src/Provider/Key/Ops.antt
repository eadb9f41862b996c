-- ===== src/Provider/Key/Ops.antt =====
-- The operations on a key of lunaProvider/lunaCommon.c: LUNA_OQS_keypair, LUNA_OQS_SIG_sign_ndx,
-- LUNA_OQS_SIG_verify_ndx, LUNA_OQS_findobject, what they share, and the queries that come before
-- them. true is the return value 1 (LUNA_OQS_OK). A close that waits for recovery goes on when the
-- activity is zero. The operations are those on a key whose PQC part _LUNA_OQS_READKEY_NDX finds.
use luna_openssl_provider.Prelude.{
  ℕ, Bool, false, not, ◌&&◌, ◌||◌, Option, none, some, List, [], Bytes, ◌==◌, if◌then◌else◌,
}
use luna_openssl_provider.Cryptoki.{Cryptoki, ckr_ok, ckr_general_error}
use luna_openssl_provider.Engine.Config.{Config}
use luna_openssl_provider.Engine.Session.State.{context_init, Globals}
use luna_openssl_provider.Engine.Session.Context.{Closing, closed, waiting, luna_open_context}
use luna_openssl_provider.Engine.Session.Close.{luna_close_context, close_resume}
use luna_openssl_provider.Provider.Algorithms.{Alg, luna_oqs_query_x}
use luna_openssl_provider.Provider.KeyLock.{gen}
use luna_openssl_provider.Provider.Key.State.{
  ckr_object_count_too_small, ckr_object_decoding_failed, magic_zero, magic_error, magic_ok,
  is_zero_magic, is_ok_magic, is_zero_reason, is_gen_reason, ctxtype_zero, oqs, ecxgen, eddsa,
  ecxexch, ProvKey, Work, KeyCalls, p11_check_count, set_last_error, set_magic,
}
use luna_openssl_provider.Provider.Key.Find.{luna_pqc_find}
use luna_openssl_provider.Provider.Key.Export.{luna_pqc_export_public, luna_ecx_export_public}
use luna_openssl_provider.Provider.Key.Gen.{luna_pqc_gen}
use luna_openssl_provider.Provider.Key.Sign.{luna_pqc_sig_sign, luna_pqc_sig_verify}

module _ (cfg : Config) (c : Cryptoki) (calls : KeyCalls c) (tab : List Alg) where
  -- LUNA_OQS_READKEY_LOCK: a session context that is not open.
  abbrev pub begin_op : ProvKey → Globals c.Token → Work c.Token
  begin_op key g = record { key = key; sess = context_init; globals = g }

  abbrev pub settle_op : Closing × Globals c.Token → Globals c.Token
  settle_op (closed ctx, g) = g
  settle_op (waiting ctx, g) = (close_resume c cfg ctx g).1

  -- LUNA_OQS_READKEY_UNLOCK: the key and the globals behind the close of the session context.
  unfoldable pub end_op : Work c.Token → ProvKey × Globals c.Token
  end_op w = (w.key, settle_op (luna_close_context c cfg w.sess w.globals))

  -- `luna_open_context(&keyinfo.sess) == 1`, as a CK_RV.
  unfoldable pub open_op : Work c.Token → ℕ × Work c.Token
  open_op w =
      let (opened, sess, g) = luna_open_context c cfg w.sess w.globals in
      (if opened then ckr_ok else ckr_general_error, record w { sess = sess; globals = g })

  unfoldable pub luna_oqs_findobject_internal : Work c.Token → Work c.Token
  luna_oqs_findobject_internal w =
      let (rv, w1) = open_op (set_magic magic_error w) in
      let (rv2, w2) = luna_pqc_find c calls tab w1 in
      let w3 = set_last_error rv2 w2 in
      if not (is_zero_magic w.key.magic)
      then w
      else if not (rv == ckr_ok)
      then w1
      else if rv2 == ckr_ok
      then set_magic magic_ok w3
      else w3

  -- The return value and `*bFoundItHere`.
  unfoldable pub luna_oqs_findobject_helper_pre : Work c.Token → Bool × Bool × Work c.Token
  luna_oqs_findobject_helper_pre w =
      let stale = is_ok_magic w.key.magic && p11_check_count w.key.count_c_init w.globals in
      let w1 = luna_oqs_findobject_internal (set_magic magic_zero w) in
      if is_zero_magic w.key.magic || stale
      then (is_ok_magic w1.key.magic, is_zero_magic w.key.magic, w1)
      else (is_ok_magic w.key.magic, false, w)

  unfoldable pub luna_oqs_findobject_helper_post : Bool → Work c.Token → Work c.Token
  luna_oqs_findobject_helper_post found_it_here w =
      let exported = (luna_ecx_export_public c calls w).1 in
      if not found_it_here then w else elim w.key.ctxtype [
        | ecxexch ↦ exported
        | eddsa ↦ exported
        | ctxtype_zero ↦ w
        | oqs ↦ w
        | ecxgen ↦ w
      ]

  unfoldable pub luna_oqs_findobject : ProvKey → Globals c.Token → Bool × ProvKey × Globals c.Token
  luna_oqs_findobject key g =
      let (rc, here, w) = luna_oqs_findobject_helper_pre (begin_op key g) in
      let (key1, g1) = end_op (if rc then luna_oqs_findobject_helper_post here w else w) in
      (rc, key1, g1)

  -- "finally": the magic value of a key that was found or generated, and the close.
  unfoldable pub finish_op : ℕ → Work c.Token → Bool × ProvKey × Globals c.Token
  finish_op rv w =
      let (key1, g1) = end_op (if rv == ckr_ok then set_magic magic_ok w else w) in
      (rv == ckr_ok, key1, g1)

  -- Behind the search of an operation: open the context if the search has not, and fetch the public
  -- key bytes that a search for this very operation has left out.
  unfoldable pub prepare_op : Bool → Work c.Token → ℕ × Work c.Token
  prepare_op here w =
      let (rv, w1) = open_op w in
      (rv, if rv == ckr_ok && here then luna_oqs_findobject_helper_post here w1 else w1)

  -- The return value, `*siglen` if it is written, and the signature; a buffer of `none` is a query of
  -- the length.
  unfoldable pub luna_oqs_sig_sign_ndx :
      Bytes
      → Option ℕ
      → ProvKey
      → Globals c.Token
      → Bool × Option ℕ × Bytes × ProvKey × Globals c.Token
  luna_oqs_sig_sign_ndx tbs buffer key g =
      let (rc, here, w) = luna_oqs_findobject_helper_pre (begin_op key g) in
      let (rv, w1) = prepare_op here w in
      let (rv2, len, sig, w2) = luna_pqc_sig_sign cfg c calls tab tbs buffer w1 in
      let last =
        if not rc
        then w
        else if not (rv == ckr_ok)
        then set_last_error rv w1
        else set_last_error rv2 w2 in
      let done = rc && (rv == ckr_ok && rv2 == ckr_ok) in
      let (key1, g1) = end_op last in
      (done, if done then some len else none, if done then sig else [], key1, g1)

  unfoldable pub luna_oqs_sig_verify_ndx :
      Bytes → Bytes → ProvKey → Globals c.Token → Bool × ProvKey × Globals c.Token
  luna_oqs_sig_verify_ndx tbs sig key g =
      let (rc, here, w) = luna_oqs_findobject_helper_pre (begin_op key g) in
      let (rv, w1) = prepare_op here w in
      let (rv2, w2) = luna_pqc_sig_verify cfg c calls tab tbs sig w1 in
      let last =
        if not rc
        then w
        else if not (rv == ckr_ok)
        then set_last_error rv w1
        else set_last_error rv2 w2 in
      let (key1, g1) = end_op last in (rc && (rv == ckr_ok && rv2 == ckr_ok), key1, g1)

  -- LUNA_OQS_QUERY_any_public_op and LUNA_OQS_QUERY_any_private_op.
  unfoldable pub luna_oqs_query_any_public_op :
      ProvKey → Globals c.Token → Bool × ProvKey × Globals c.Token
  luna_oqs_query_any_public_op key g =
      let (listed, alg1) = luna_oqs_query_x tab key.alg in
      let key1 = record key { alg = alg1 } in
      let (_, key2, g2) = luna_oqs_findobject key1 g in
      if not listed
      then (false, key1, g)
      else if is_zero_magic key1.magic
      then (not (key2.h_public == 0), key2, g2)
      else (not (key1.h_public == 0), key1, g)

  unfoldable pub luna_oqs_query_any_private_op :
      ProvKey → Globals c.Token → Bool × ProvKey × Globals c.Token
  luna_oqs_query_any_private_op key g =
      let (_, key2, g2) = luna_oqs_findobject key g in
      if is_zero_magic key.magic
      then (key2.is_hardware || not (key2.h_private == 0), key2, g2)
      else (key.is_hardware || not (key.h_private == 0), key, g)

  module _ (rand_label rand_pad : ℕ → Option Bytes) where
    -- The search, and the generation if nothing is found for a key without bytes.
    unfoldable pub find_or_gen : Bool → Work c.Token → Option (ℕ × Work c.Token)
    find_or_gen is_kem w =
        let (rv, w1) = luna_pqc_find c calls tab w in
        let w2 = record w1 { key = record w1.key { reason = gen } } in
        if (rv == ckr_object_count_too_small || rv == ckr_object_decoding_failed)
          && is_zero_reason w1.key.reason
        then luna_pqc_gen cfg c calls tab rand_label rand_pad is_kem false w2
        else some (rv, w1)

    -- `none` is an assertion that fails.
    unfoldable pub luna_oqs_keypair :
        Bool → ProvKey → Globals c.Token → Option (Bool × ProvKey × Globals c.Token)
    luna_oqs_keypair is_kem key g =
        let (rv, w) = open_op (set_magic magic_error (begin_op key g)) in
        if not (is_zero_magic key.magic)
        then some (false, key, g)
        else if not (rv == ckr_ok)
        then some (finish_op rv w)
        else elim (find_or_gen is_kem w) [
          | none ↦ none
          | some (rv2, w2) ↦
              let (rv3, w3) = luna_pqc_export_public c calls w2 in
              some (
                if rv2 == ckr_ok && is_gen_reason w2.key.reason
                then finish_op rv3 (set_last_error rv3 w3)
                else finish_op rv2 (set_last_error rv2 w2))
        ]

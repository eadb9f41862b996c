-- ===== src/Provider/Rng.antt =====
-- The random numbers for PQC in lunaProvider/lunaCommon.c: luna_pqc_rng, luna_pqc_rng_hw,
-- luna_pqc_rng_hw_int, luna_pqc_rng_hw_cache_locked and luna_pqc_rng_hw_pkcs11. Every function returns
-- what it writes to `out`; `OQS_randombytes_system` is the argument `liboqs`, on the state of the
-- operating system's generator. A close that waits for recovery goes on when the activity is zero.
pub mod Pool
pub mod Supply
use luna_openssl_provider.Prelude.{
  ℕ, ◌+◌, ◌*◌, Bool, true, false, not, ◌||◌, List, [], Bytes, length, take, drop, ltb, leb, ◌==◌,
  if◌then◌else◌,
}
use luna_openssl_provider.Cryptoki.{Cryptoki, ckr_ok, ckr_general_error}
use luna_openssl_provider.Engine.Config.{Config}
use luna_openssl_provider.Engine.Session.State.{Context, context_init, Globals}
use luna_openssl_provider.Engine.Session.Context.{Closing, closed, waiting, luna_open_context}
use luna_openssl_provider.Engine.Session.Close.{luna_close_context_w_err, close_resume}

abbrev pub luna_pqc_rng_small : ℕ
luna_pqc_rng_small = 32

abbrev pub luna_pqc_rng_cache : ℕ
luna_pqc_rng_cache = 2560

-- The statistics `cnt`.
pub record Counters : Type 0 where
  pub big : ℕ
  pub reset : ℕ
  pub error : ℕ
  pub copy : ℕ
  pub cache : ℕ
  pub liboqs : ℕ
  pub hwm : ℕ

-- `luna_pqc_rng_hw_error`, `rcache` and `cnt`, with the engine's globals and the state `S` of the
-- operating system's generator.
pub record Rng (T S : Type 0) : Type 0 where
  pub globals : Globals T
  pub system : S
  pub hw_error : Bool
  pub dirty : Bool
  pub offset : ℕ
  pub bytes : Bytes
  pub cnt : Counters

module _ (c : Cryptoki) (cfg : Config) {S : Type 0} (liboqs : ℕ → S → Bytes × S) where
  abbrev settle : Closing × Globals c.Token → Globals c.Token
  settle (closed ctx, g) = g
  settle (waiting ctx, g) = (close_resume c cfg ctx g).1

  unfoldable pub luna_pqc_rng_hw_pkcs11 : ℕ → Rng c.Token S → ℕ × Bytes × Rng c.Token S
  luna_pqc_rng_hw_pkcs11 outlen s =
      let (opened, sess, g1) = luna_open_context c cfg context_init s.globals in
      if not opened
      then (ckr_general_error, [], record s { globals = g1; hw_error = true })
      else let (rv, out, t) = c.c_generate_random sess.h_session outlen g1.token in
        let g2 =
          settle (
            luna_close_context_w_err c cfg sess (not (rv == ckr_ok)) rv
              (record g1 { token = t })) in
        if rv == ckr_ok
        then (rv, out, record s { globals = g2 })
        else (rv, [], record s { globals = g2; hw_error = true })

  -- "reset the cache"
  unfoldable pub refill_cache : ℕ → Rng c.Token S → ℕ × Bytes × Rng c.Token S
  refill_cache outlen s1 =
      let (rv, fresh, s2) = luna_pqc_rng_hw_pkcs11 luna_pqc_rng_cache s1 in
      let n2 = s2.cnt in
      if not (rv == ckr_ok)
      then (rv, [], record s2 { cnt = record n2 { error = n2.error + 1 } })
      else (ckr_ok, take outlen fresh, record s2 { dirty = false; offset = outlen; bytes = fresh })

  unfoldable pub luna_pqc_rng_hw_cache_locked : ℕ → Rng c.Token S → ℕ × Bytes × Rng c.Token S
  luna_pqc_rng_hw_cache_locked outlen s =
      let n = s.cnt in
      let offset1 = s.offset + outlen in
      if ltb luna_pqc_rng_cache outlen
      then luna_pqc_rng_hw_pkcs11 outlen (record s { cnt = record n { big = n.big + 1 } })
      else if s.dirty || ltb luna_pqc_rng_cache offset1
      then refill_cache outlen (record s { cnt = record n { reset = n.reset + 1 }; dirty = true })
      else (
        ckr_ok,
        take outlen (drop s.offset s.bytes),
        record s { cnt = record n { copy = n.copy + 1 }; dirty = false; offset = offset1 },
      )

  unfoldable pub luna_pqc_rng_hw_int : ℕ → Rng c.Token S → ℕ × Bytes × Rng c.Token S
  luna_pqc_rng_hw_int outlen s =
      let n = s.cnt in
      if leb outlen luna_pqc_rng_small
      then luna_pqc_rng_hw_cache_locked outlen (record s { cnt = record n { cache = n.cache + 1 } })
      else let (out, e) = liboqs outlen s.system in
        (ckr_ok, out, record s { cnt = record n { liboqs = n.liboqs + 1 }; system = e })

  unfoldable pub luna_pqc_rng_hw : ℕ → Rng c.Token S → ℕ × Bytes × Rng c.Token S
  luna_pqc_rng_hw outlen s =
      let (rv, out, s1) = luna_pqc_rng_hw_int outlen s in
      let n = s1.cnt in
      if ltb n.hwm outlen
      then (rv, out, record s1 { cnt = record n { hwm = outlen } })
      else (rv, out, s1)

  unfoldable pub luna_pqc_rng : ℕ → Rng c.Token S → Bytes × Rng c.Token S
  luna_pqc_rng outlen s =
      let (rv, out, s1) = luna_pqc_rng_hw outlen s in
      let tried = if s.hw_error then s else s1 in
      let (out2, e) = liboqs outlen tried.system in
      if s.hw_error || not (rv == ckr_ok) then (out2, record tried { system = e }) else (out, s1)

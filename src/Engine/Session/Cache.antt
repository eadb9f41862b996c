-- ===== src/Engine/Session/Cache.antt =====
-- luna_cache_t of engine/e_gem.c: a linked list behind a head item. The list of the handles in
-- `ckses` stands for it; an item belongs to one list, or to one context. LUNA_malloc succeeds.
use luna_openssl_provider.Prelude.{
  ℕ, ◌+◌, Bool, true, false, Option, none, some, List, [], ◌∷◌, ◌==◌, not, if◌then◌else◌,
}
use luna_openssl_provider.Cryptoki.{Cryptoki, ckr_ok, luna_invalid_handle}

unfoldable pub luna_cache_push : List ℕ → Option ℕ → List ℕ
luna_cache_push qu none = qu
luna_cache_push qu (some item) = item ∷ qu

unfoldable pub luna_cache_pop : List ℕ → Option (ℕ × List ℕ)
luna_cache_pop [] = none
luna_cache_pop (item ∷ next) = some (item, next)

module _ {S : Type 0} where
  -- The loop of luna_cache_delete_ALL: the callback on each item, with its index.
  unfoldable pub delete_from : (ℕ → ℕ → S → S) → ℕ → List ℕ → S → S
  delete_from cb count [] s = s
  delete_from cb count (item ∷ next) s = delete_from cb (count + 1) next (cb item count s)

  -- The list that is left, and the state behind the callbacks.
  unfoldable pub luna_cache_delete_all : Option (ℕ → ℕ → S → S) → List ℕ → S → List ℕ × S
  luna_cache_delete_all none pcache s = ([], s)
  luna_cache_delete_all (some cb) pcache s = ([], delete_from cb 0 pcache s)

module _ (c : Cryptoki) where
  -- C_OpenSession with CKF_SERIAL_SESSION | CKF_RW_SESSION; `none` is the return value 0.
  unfoldable pub luna_open_session : ℕ → c.Token → Option ℕ × c.Token
  luna_open_session slotid t =
      let (rv, shandle, t') = c.c_open_session slotid t in
      if rv == ckr_ok then (some shandle, t') else (none, t')

  -- 1 on success and 0 on failure.
  unfoldable pub luna_close_session : ℕ → c.Token → ℕ × c.Token
  luna_close_session shandle t =
      let (rv, t') = c.c_close_session shandle t in if rv == ckr_ok then (1, t') else (0, t')

  -- The state is `luna_is_cb_tainted` and the library's.
  unfoldable pub luna_callback_close_session : ℕ → ℕ → Bool × c.Token → Bool × c.Token
  luna_callback_close_session ckses index (was_tainted, t) =
      let tainted = if index == 0 then false else was_tainted in
      if ckses == luna_invalid_handle
      then (tainted, t)
      else if tainted
      then (tainted, t)
      else let (rc, t') = luna_close_session ckses t in
        (if not (rc == ckr_ok) then true else tainted, t')

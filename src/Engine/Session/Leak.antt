-- ===== src/Engine/Session/Leak.antt =====
-- luna_callback_close_session under luna_cache_delete_ALL: which of the cached sessions are closed.
-- The callback compares the result of luna_close_session, which is 1 on success, with CKR_OK = 0.
use luna_openssl_provider.Prelude.{
  ℕ, some, ◌+◌, ◌<◌, ◌≡◌, refl, Bool, true, false, List, [], ◌∷◌, arith, ◌==◌, if◌then◌else◌,
}
use luna_openssl_provider.Cryptoki.{Cryptoki}
use luna_openssl_provider.Engine.Session.Cache.{
  delete_from, luna_cache_delete_all, luna_callback_close_session, luna_close_session,
}

module _ (c : Cryptoki) where
  -- Close the sessions of a list in turn, until one close has succeeded.
  unfoldable pub close_to_first : List ℕ → c.Token → Bool × c.Token
  close_to_first [] t = (false, t)
  close_to_first (h ∷ hs) t =
      let rest = close_to_first hs (luna_close_session c h t).1 in
      if h == 0
      then close_to_first hs t
      else if (luna_close_session c h t).0 == 1
      then (true, (luna_close_session c h t).1)
      else rest

  -- One callback behind the first item.
  callback_later :
      (n h : ℕ) (tainted : Bool) (t : c.Token)
      → 0 < n
      → luna_callback_close_session c h n (tainted, t) ≡ (
          if h == 0
          then (tainted, t)
          else if tainted
          then (true, t)
          else ((luna_close_session c h t).0 == 1, (luna_close_session c h t).1))
  unfolding luna_callback_close_session luna_close_session
  callback_later n h tainted t p = ground arith

  tainted_from :
      (n : ℕ) (hs : List ℕ) (t : c.Token)
      → 0 < n
      → delete_from (luna_callback_close_session c) n hs (true, t) ≡ (true, t)
  unfolding delete_from
  tainted_from n [] t p = refl
  tainted_from n (h ∷ hs) t p =
      ground (arith, callback_later n h true t p, tainted_from (n + 1) hs t (omega arith))

  delete_from-close_to_first :
      (n : ℕ) (hs : List ℕ) (t : c.Token)
      → 0 < n
      → delete_from (luna_callback_close_session c) n hs (false, t) ≡ close_to_first hs t
  unfolding delete_from close_to_first
  delete_from-close_to_first n [] t p = refl
  delete_from-close_to_first n (h ∷ hs) t p =
      let t' = (luna_close_session c h t).1 in
      ground (
        arith,
        callback_later n h false t p,
        tainted_from (n + 1) hs t' (omega arith),
        delete_from-close_to_first (n + 1) hs t (omega arith),
        delete_from-close_to_first (n + 1) hs t' (omega arith),
      )

  callback_first :
      (h : ℕ) (tainted : Bool) (t : c.Token)
      → luna_callback_close_session c h 0 (tainted, t) ≡ (
          if h == 0
          then (false, t)
          else ((luna_close_session c h t).0 == 1, (luna_close_session c h t).1))
  unfolding luna_callback_close_session luna_close_session
  callback_first h tainted t = ground arith

  -- Deleting a cache that is not empty with the callback closes its sessions in turn until the first
  -- close that succeeds, whatever the flag was before, and leaves the rest of them open; the list
  -- itself is emptied.
  pub delete_all-close_to_first :
      (h : ℕ) (hs : List ℕ) (tainted : Bool) (t : c.Token)
      → luna_cache_delete_all (some (luna_callback_close_session c)) (h ∷ hs) (tainted, t)
        ≡ ([], close_to_first (h ∷ hs) t)
  unfolding luna_cache_delete_all delete_from close_to_first
  delete_all-close_to_first h hs tainted t =
      let t' = (luna_close_session c h t).1 in
      ground (
        arith,
        callback_first h tainted t,
        tainted_from 1 hs t' (omega arith),
        delete_from-close_to_first 1 hs t (omega arith),
        delete_from-close_to_first 1 hs t' (omega arith),
      )

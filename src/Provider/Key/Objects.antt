-- ===== src/Provider/Key/Objects.antt =====
-- What PKCS#11 says of objects, and LunaPqcFind in a token where labels name the objects.
use luna_openssl_provider.Prelude.{
  arith, ◌⊎◌, ◌==◌, Bool-cases, ap, inl, inr, ℕ, ◌≡◌, ◌≢◌, refl, List, [], ◌∷◌,
}
use luna_openssl_provider.Cryptoki.{Cryptoki, ckr_ok}
use luna_openssl_provider.Engine.Session.Context.{luna_context_set_last_error}
use luna_openssl_provider.Provider.Algorithms.{Alg, luna_lookup_alg_name}
use luna_openssl_provider.Provider.Blob.{Attribute, Template}
use luna_openssl_provider.Provider.Key.State.{Work, KeyCalls, set_token}
use luna_openssl_provider.Provider.Key.Find.{luna_find, find_pair, find_labels}

-- What PKCS#11 says of objects. `Names t a h`: of the objects in the token, the one with the handle
-- `h` has the attribute, and no other. C_GenerateKeyPair makes two objects with the attributes of
-- their templates, and a search of an open session finds the objects with the attribute, if neither
-- of its calls fails. A failure is, say, that the session has a search active, which LunaFind leaves.
pub record ObjectRules (c : Cryptoki) (calls : KeyCalls c) : Type 1 where
  pub Names : c.Token → Attribute → ℕ → Type 0
  pub Unused : c.Token → Attribute → Type 0
  pub IsSession : c.Token → ℕ → Type 0
  pub generated :
      (session mech : ℕ) (p q : Attribute) (rest rest' : List Attribute) (t : c.Token)
      → Unused t p
      → Unused t q
      → p ≢ q
      → let r = calls.c_generate_key_pair session mech (p ∷ rest) (q ∷ rest') t in
        r.0 ≡ ckr_ok → Names r.3 p r.1 × Names r.3 q r.2
  pub found :
      (session : ℕ) (a : Attribute) (h : ℕ) (t : c.Token)
      → IsSession t session
      → Names t a h
      → let r = calls.c_find_objects_init session (a ∷ []) t in
        let r2 = calls.c_find_objects session 1 r.1 in
        (r.0 ≢ ckr_ok)
        ⊎ (r2.0 ≢ ckr_ok)
        ⊎ ((r2.1 ≡ h ∷ [])
            × IsSession r2.2 session
            × ((b : Attribute) (k : ℕ) → Names t b k → Names r2.2 b k))

module _ (c : Cryptoki) (calls : KeyCalls c) (rules : ObjectRules c calls) where
  -- A code that is not CKR_OK, and that a call of a search in the session has answered.
  abbrev pub SearchFailed : ℕ → ℕ → Type 0
  SearchFailed rv session =
      (rv ≢ ckr_ok)
      × ((t : c.Token) × (((a : List Attribute) × (rv ≡ (calls.c_find_objects_init session a t).0))
            ⊎ (rv ≡ (calls.c_find_objects session 1 t).0)))

  record Found (a : Attribute) (h : ℕ) (w : Work c.Token) : Type 0 where
    after : c.Token
    result : luna_find c calls (a ∷ []) w ≡ (ckr_ok, h, set_token after w)
    open_kept : rules.IsSession after w.sess.h_session
    names_kept : (b : Attribute) (k : ℕ) → rules.Names w.globals.token b k → rules.Names after b k

  luna_find-Found :
      (a : Attribute) (h : ℕ) (w : Work c.Token)
      → rules.IsSession w.globals.token w.sess.h_session
      → rules.Names w.globals.token a h
      → Found a h w ⊎ SearchFailed (luna_find c calls (a ∷ []) w).0 w.sess.h_session
  unfolding luna_find
  luna_find-Found a h w open_ named =
      let session = w.sess.h_session in
      let r = calls.c_find_objects_init session (a ∷ []) w.globals.token in
      let r2 = calls.c_find_objects session 1 r.1 in
      elim (Bool-cases (r.0 == ckr_ok)) [
        | inr bad ↦ inr (ground (arith, bad), (w.globals.token, inl (a ∷ [], ground (arith, bad))))
        | inl init ↦ elim (Bool-cases (r2.0 == ckr_ok)) [
          | inr bad ↦ inr (ground (arith, init, bad), (r.1, inr (ground (arith, init, bad))))
          | inl done ↦
              let init_ok : r.0 ≡ ckr_ok = ground (arith, init) in
              let done_ok : r2.0 ≡ ckr_ok = ground (arith, done) in
              elim (rules.found session a h w.globals.token open_ named) [
                | inl no_ ↦ absurd (no_ init_ok)
                | inr (inl no_) ↦ absurd (no_ done_ok)
                | inr (inr (hits, open_kept, names_kept)) ↦ inl (record {
                  after = r2.2;
                  result = rw (init_ok, done_ok, hits) refl;
                  open_kept = open_kept;
                  names_kept = names_kept;
                })
              ]
        ]
      ]

  luna_find-key : (a : List Attribute) (w : Work c.Token) → (luna_find c calls a w).2.key ≡ w.key
  unfolding luna_find luna_context_set_last_error
  luna_find-key a w = ground arith

  find_pair-key : (p q : Template) (w : Work c.Token) → (find_pair c calls p q w).3.key ≡ w.key
  unfolding find_pair
  find_pair-key p q w =
      let w1 = (luna_find c calls (q.label ∷ []) w).2 in
      ground (arith, luna_find-key (q.label ∷ []) w, luna_find-key (p.label ∷ []) w1)

  find_pair-Found :
      (p q : Template) (h k : ℕ) (w : Work c.Token)
      → rules.IsSession w.globals.token w.sess.h_session
      → rules.Names w.globals.token p.label h
      → rules.Names w.globals.token q.label k
      → ((t : c.Token) × (find_pair c calls p q w ≡ (ckr_ok, k, h, set_token t w)))
        ⊎ SearchFailed (find_pair c calls p q w).0 w.sess.h_session
  unfolding find_pair
  find_pair-Found p q h k w open_ named named' = elim (luna_find-Found q.label k w open_ named') [
    | inr bad ↦
        let same : (find_pair c calls p q w).0 ≡ (luna_find c calls (q.label ∷ []) w).0 =
          ground (arith, bad.0) in
        inr (rw same bad)
    | inl first ↦
        let w1 = set_token first.after w in
        let named1 = first.names_kept p.label h named in
        elim (luna_find-Found p.label h w1 first.open_kept named1) [
          | inr bad ↦
              let same : (find_pair c calls p q w).0 ≡ (luna_find c calls (p.label ∷ []) w1).0 =
                rw first.result refl in
              inr (rw same bad)
          | inl second ↦ inl (second.after, rw (first.result, second.result) refl)
        ]
  ]

  -- The pair is found: CKR_OK, the handles, and the count of the running library.
  pub record PairFound (h k init_count : ℕ) (r : ℕ × Work c.Token) : Type 0 where
    pub done : r.0 ≡ ckr_ok
    pub public_handle : r.1.key.h_public ≡ h
    pub private_handle : r.1.key.h_private ≡ k
    pub count : r.1.key.count_c_init ≡ init_count

  -- A search has failed: its code, the handles from before, and the count 0.
  pub record PairMissed (session h k : ℕ) (r : ℕ × Work c.Token) : Type 0 where
    pub because : SearchFailed r.0 session
    pub public_handle : r.1.key.h_public ≡ h
    pub private_handle : r.1.key.h_private ≡ k
    pub count : r.1.key.count_c_init ≡ 0

  module _ (tab : List Alg) where
    -- What LunaPqcFind does with a blob that has these labels.
    pub find_labels-PairFound :
        (p q : Template) (h k : ℕ) (w : Work c.Token)
        → rules.IsSession w.globals.token w.sess.h_session
        → rules.Names w.globals.token p.label h
        → rules.Names w.globals.token q.label k
        → (luna_lookup_alg_name tab w.key.alg).0 ≡ ckr_ok
        → let r = find_labels c calls tab p q w in
          PairFound h k w.globals.init_count r
          ⊎ PairMissed w.sess.h_session w.key.h_public w.key.h_private r
    unfolding find_labels
    find_labels-PairFound p q h k w open_ named named' listed =
        let alg1 = (luna_lookup_alg_name tab w.key.alg).2 in
        let w1 : Work c.Token = record w { key = record w.key { alg = alg1 } } in
        elim (find_pair-Found p q h k w1 open_ named named') [
          | inl (t, pair) ↦ inl (
              rw (listed, pair)
                (record { done = refl; public_handle = refl; private_handle = refl; count = refl }))
          | inr bad ↦
              let kept = find_pair-key p q w1 in
              let same : (find_labels c calls tab p q w).0 ≡ (find_pair c calls p q w1).0 =
                ground (arith, listed, bad.0) in
              inr (record {
                because = rw same bad;
                public_handle = ground (arith, listed, bad.0, ap (λ x. x.h_public) kept);
                private_handle = ground (arith, listed, bad.0, ap (λ x. x.h_private) kept);
                count = ground (arith, listed, bad.0);
              })
        ]

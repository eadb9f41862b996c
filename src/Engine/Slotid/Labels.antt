-- ===== src/Engine/Slotid/Labels.antt =====
-- luna_label_to_slotid (Engine/Slotid.antt): the slot that it finds.
use luna_openssl_provider.Prelude.{
  ℕ, ◌≤◌, ◌≡◌, ap, Bool, true, false, none, some, List, [], ◌∷◌, ◌++◌, Bytes, length, arith, ◌==◌,
  Bool-cases, inl, inr, take, strcmp_eq,
}
use luna_openssl_provider.Cryptoki.{Cryptoki, ckr_ok}
use luna_openssl_provider.Engine.Slotid.{norm_label, before_zero, find_label, luna_label_to_slotid}

module _ (c : Cryptoki) where
  -- The token in a slot has this label, both padded with spaces to 32 bytes.
  abbrev pub has_label : Bytes → ℕ → c.Token → Bool
  has_label name slot t =
      strcmp_eq (norm_label name)
        (norm_label (before_zero (take 32 (c.c_get_token_label slot t).1)))

  abbrev pub readable : ℕ → c.Token → Bool
  readable slot t = (c.c_get_token_label slot t).0 == ckr_ok

  -- No slot of a list has the label.
  unfoldable pub NoneHas : Bytes → List ℕ → c.Token → Type 0
  NoneHas name [] t = Unit
  NoneHas name (slot ∷ slots) t = (has_label name slot t ≡ false) × NoneHas name slots t

  -- The first slot with the label.
  pub record FirstWith (name : Bytes) (slots : List ℕ) (t : c.Token) (slot : ℕ) : Type 0 where
    pub front : List ℕ
    pub back : List ℕ
    pub split : slots ≡ front ++ slot ∷ back
    pub labelled : has_label name slot t ≡ true
    pub earlier : NoneHas name front t

  find_label-FirstWith :
      (name : Bytes) (slots : List ℕ) (t : c.Token) {slot : ℕ}
      → find_label c (norm_label name) slots t ≡ some slot
      → FirstWith name slots t slot
  unfolding find_label NoneHas
  find_label-FirstWith name [] t e = absurd (ground (arith, e))
  find_label-FirstWith name (x ∷ xs) t {slot} e = elim (Bool-cases (has_label name x t)) [
    | inl q ↦ record {
      front = [];
      back = xs;
      split = ground (arith, q, e);
      labelled = ground (arith, q, e);
      earlier = tt;
    }
    | inr q ↦
        let later = find_label-FirstWith name xs t {slot = slot} (ground (arith, q, e)) in
        record {
          front = x ∷ later.front;
          back = later.back;
          split = ap (λ l. x ∷ l) later.split;
          labelled = later.labelled;
          earlier = (q, later.earlier);
        }
  ]

  -- A slot that is found for a label is in the library's slot list, its token has that label when
  -- both are padded to 32 bytes, and no token earlier in the list has; the label has 1 to 32 bytes.
  pub luna_label_to_slotid-FirstWith :
      (name : Bytes) (t : c.Token) {slot : ℕ}
      → luna_label_to_slotid c name t ≡ some slot
      → FirstWith name (c.c_get_slot_list t).1 t slot × (1 ≤ length name) × (length name ≤ 32)
  unfolding luna_label_to_slotid
  luna_label_to_slotid-FirstWith name t {slot} e = (
    find_label-FirstWith name (c.c_get_slot_list t).1 t {slot = slot} (ground (arith, e)),
    ground (arith, e),
    ground (arith, e),
  )

  unfoldable pub AllReadable : List ℕ → c.Token → Type 0
  AllReadable [] t = Unit
  AllReadable (slot ∷ slots) t = (readable slot t ≡ true) × AllReadable slots t

  find_label-none :
      (name : Bytes) (slots : List ℕ) (t : c.Token)
      → AllReadable slots t
      → find_label c (norm_label name) slots t ≡ none
      → NoneHas name slots t
  unfolding find_label NoneHas AllReadable
  find_label-none name [] t a e = tt
  find_label-none name (x ∷ xs) t (r, a) e =
      (ground (arith, r, e), find_label-none name xs t a (ground (arith, r, e)))

  -- If the slot list has 1 to 261 slots and all of them answer, a label of 1 to 32 bytes is not found
  -- only if no token has it.
  pub luna_label_to_slotid-none :
      (name : Bytes) (t : c.Token)
      → (c.c_get_slot_list t).0 ≡ ckr_ok
      → 1 ≤ length (c.c_get_slot_list t).1
      → length (c.c_get_slot_list t).1 ≤ 261
      → AllReadable (c.c_get_slot_list t).1 t
      → 1 ≤ length name
      → length name ≤ 32
      → luna_label_to_slotid c name t ≡ none
      → NoneHas name (c.c_get_slot_list t).1 t
  unfolding luna_label_to_slotid
  luna_label_to_slotid-none name t e1 h1 h2 a h3 h4 e =
      find_label-none name (c.c_get_slot_list t).1 t a (ground (arith, e, e1, h1, h2, h3, h4))

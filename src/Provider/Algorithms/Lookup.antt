-- ===== src/Provider/Algorithms/Lookup.antt =====
-- Looking up an algorithm (Provider/Algorithms.antt): which row is found.
use luna_openssl_provider.Prelude.{
  ℕ, zero, suc, ◌+◌, ◌-◌, ◌≤◌, ◌<◌, ◌≡◌, refl, sym, ap, subst, ◌∙◌, inl, inr, Bool, true, false,
  ◌&&◌, some, List, [], ◌∷◌, Bytes, drop, get_elem?, strcmp_eq, arith, Bool-cases,
}
use luna_openssl_provider.Cryptoki.{ckr_ok}
use luna_openssl_provider.Provider.Algorithms.{Alg, lookup_rows, luna_lookup_alg_name_range}

-- A row that a lookup stops at.
abbrev pub answers : Bytes → Alg → Bool
answers name a = a.flag_include && strcmp_eq name a.alg_name

-- The first row of a list that answers.
record FirstAt (name : Bytes) (i n : ℕ) (rows : List Alg) (j : ℕ) (a : Alg) : Type 0 where
  from : i ≤ j
  below : j < i + n
  row : get_elem? rows (j - i) ≡ some a
  answer : answers name a ≡ true
  earlier : (k : ℕ) (b : Alg) → i + k < j → get_elem? rows k ≡ some b → answers name b ≡ false

lookup_rows-FirstAt :
    (name : Bytes) (i n : ℕ) (rows : List Alg) {j : ℕ} {a : Alg}
    → lookup_rows name i n rows ≡ some (j, a)
    → FirstAt name i n rows j a
unfolding lookup_rows
lookup_rows-FirstAt name i zero rows e = absurd (ground (arith, e))
lookup_rows-FirstAt name i (suc n) [] e = absurd (ground (arith, e))
lookup_rows-FirstAt name i (suc n) (x ∷ rows) {j} {a} e = elim (Bool-cases (answers name x)) [
  | inl q ↦
      let here : i ≡ j = ground (arith, q, e) in
      let found : x ≡ a = ground (arith, q, e) in
      record {
        from = omega (arith, here);
        below = omega (arith, here);
        row = at_head x rows (omega (arith, here)) ∙ ap some found;
        answer = subst (λ y. answers name y ≡ true) found q;
        earlier = λ k b lt _. absurd (omega (arith, here, lt));
      }
  | inr q ↦
      let later = lookup_rows-FirstAt name (i + 1) n rows {j = j} {a = a} (ground (arith, q, e)) in
      record {
        from = omega (arith, later.from);
        below = omega (arith, later.below);
        row = behind x rows (omega (arith, later.from)) ∙ later.row;
        answer = later.answer;
        earlier = λ k b lt there. before name x rows q later.earlier k b lt there;
      }
]
  where
    at_head : (x : Alg) (rows : List Alg) {m : ℕ} → m ≡ 0 → get_elem? (x ∷ rows) m ≡ some x
    at_head x rows e = rw e refl

    behind :
        (x : Alg) (rows : List Alg) {m n : ℕ}
        → m ≡ suc n
        → get_elem? (x ∷ rows) m ≡ get_elem? rows n
    behind x rows e = rw e refl

    before :
        (name : Bytes) (x : Alg) (rows : List Alg)
        → answers name x ≡ false
        → ((m : ℕ) (b : Alg) → i + 1 + m < j → get_elem? rows m ≡ some b → answers name b ≡ false)
        → (k : ℕ) (b : Alg) → i + k < j
        → get_elem? (x ∷ rows) k ≡ some b
        → answers name b ≡ false
    before name x rows q go zero b lt there = ground (arith, q, there)
    before name x rows q go (suc k) b lt there = go k b (omega arith) there

get_elem?-drop : (n k : ℕ) (xs : List Alg) → get_elem? (drop n xs) k ≡ get_elem? xs (n + k)
get_elem?-drop zero k xs = same (omega arith)
  where
    same : {a b : ℕ} → a ≡ b → get_elem? xs a ≡ get_elem? xs b
    same e = ap (get_elem? xs) e
get_elem?-drop (suc n) k [] = refl
get_elem?-drop (suc n) k (x ∷ xs) = get_elem?-drop n k xs ∙ step (omega arith)
  where
    step : {a b : ℕ} → b ≡ suc a → get_elem? xs a ≡ get_elem? (x ∷ xs) b
    step e = rw e refl

pub shifted :
    (tab : List Alg) (index0 k : ℕ)
    → index0 ≤ k
    → get_elem? (drop index0 tab) (k - index0) ≡ get_elem? tab k
shifted tab index0 k le =
    get_elem?-drop index0 (k - index0) tab ∙ ap (get_elem? tab) (omega (arith, le))

-- The first row of the table with the name, between two indices, that is included.
pub record FirstIncluded (tab : List Alg) (name : Bytes) (index0 index1 i : ℕ) (a : Alg)
    : Type 0 where
  pub in_range : (index0 ≤ i) × (i ≤ index1)
  pub row_there : get_elem? tab i ≡ some a
  pub matches : answers name a ≡ true
  pub first :
      (k : ℕ) (b : Alg) → index0 ≤ k → k < i → get_elem? tab k ≡ some b → answers name b ≡ false

-- If LunaLookupAlgName_range answers CKR_OK, it has found the first row between the two indices that is
-- included and has the name.
pub luna_lookup_alg_name_range-FirstIncluded :
    (tab : List Alg) (name : Bytes) (index0 index1 : ℕ) {i : ℕ} {a : Alg}
    → luna_lookup_alg_name_range tab name index0 index1 ≡ (ckr_ok, some (i, a))
    → FirstIncluded tab name index0 index1 i a
unfolding luna_lookup_alg_name_range
luna_lookup_alg_name_range-FirstIncluded tab name index0 index1 {i} {a} e =
    let n = index1 + 1 - index0 in
    let ordered : index0 ≤ index1 = ground (arith, e) in
    let f =
      lookup_rows-FirstAt name index0 n (drop index0 tab) {j = i} {a = a} (ground (arith, e)) in
    record {
      in_range = (f.from, omega (arith, f.below, ordered));
      row_there = sym (shifted tab index0 i f.from) ∙ f.row;
      matches = f.answer;
      first = λ k b le lt there.
          f.earlier (k - index0) b (omega (arith, le, lt)) (shifted tab index0 k le ∙ there);
    }

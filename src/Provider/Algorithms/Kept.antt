-- ===== src/Provider/Algorithms/Kept.antt =====
-- The index that a lookup keeps in the key context (Provider/Algorithms.antt), and how the include and
-- exclude lists decide.
use luna_openssl_provider.Prelude.{
  ℕ, zero, suc, ◌+◌, ◌-◌, ◌≤◌, ◌<◌, ◌≡◌, ◌≢◌, refl, sym, ap, subst, ◌∙◌, ◌⊎◌, inl, inr, true, false,
  ◌||◌, none, some, List, [], ◌∷◌, Bytes, length, drop, map, get_elem?, strcmp_eq, strcmp_eq_sound,
  arith, ltb, leb, ◌==◌, if◌then◌else◌, Bool-cases, Option-cases,
}
use luna_openssl_provider.Cryptoki.{ckr_ok}
use luna_openssl_provider.Provider.Algorithms.{
  ckr_mechanism_invalid, Alg, KeyCtx, included, set_flag, luna_init_algorithm_table, lookup_rows,
  luna_lookup_alg_name_range, luna_lookup_alg_name, luna_oqs_refresh_subtype,
  luna_oqs_refresh_alg_name,
}
use luna_openssl_provider.Provider.Algorithms.Lists.{LetThrough, included-LetThrough}
use luna_openssl_provider.Provider.Algorithms.Lookup.{
  answers, luna_lookup_alg_name_range-FirstIncluded,
}

drop_at :
    (tab : List Alg) (i : ℕ) {a : Alg}
    → get_elem? tab i ≡ some a
    → drop i tab ≡ a ∷ drop (suc i) tab
drop_at [] i e = absurd (ground (arith, e))
drop_at (x ∷ tab) zero e = ground (arith, e)
drop_at (x ∷ tab) (suc i) e = drop_at tab i e

pub in_length : (tab : List Alg) (i : ℕ) {a : Alg} → get_elem? tab i ≡ some a → i < length tab
in_length [] i e = absurd (ground (arith, e))
in_length (x ∷ tab) zero e = omega arith
in_length (x ∷ tab) (suc i) e = omega (arith, in_length tab i e)

head_answers :
    (name : Bytes) (i : ℕ) (a : Alg) (rest : List Alg)
    → answers name a ≡ true
    → lookup_rows name i (suc zero) (a ∷ rest) ≡ some (i, a)
unfolding lookup_rows
head_answers name i a rest q = ground (arith, q)

head_misses :
    (name : Bytes) (i : ℕ) (a : Alg) (rest : List Alg)
    → answers name a ≡ false
    → lookup_rows name i (suc zero) (a ∷ rest) ≡ none
unfolding lookup_rows
head_misses name i a rest q = ground (arith, q)

-- One row is looked up again.
range_single :
    (tab : List Alg) (name : Bytes) (i : ℕ) (a : Alg)
    → get_elem? tab i ≡ some a
    → answers name a ≡ true
    → luna_lookup_alg_name_range tab name i i ≡ (ckr_ok, some (i, a))
unfolding luna_lookup_alg_name_range
range_single tab name i a row q =
    let one : i + 1 - i ≡ suc zero = omega arith in
    let inside = in_length tab i row in
    let found : lookup_rows name i (i + 1 - i) (drop i tab) ≡ some (i, a) =
      rw (one, drop_at tab i row) (head_answers name i a (drop (suc i) tab) q) in
    ground (arith, inside, found)

lookup_kept :
    (tab : List Alg) (k : KeyCtx) (a : Alg)
    → 1 ≤ k.index_alg
    → get_elem? tab k.index_alg ≡ some a
    → answers k.alg_name a ≡ true
    → luna_lookup_alg_name tab k ≡ (ckr_ok, some a, k)
unfolding luna_lookup_alg_name
lookup_kept tab k a le row q = ground (arith, le, range_single tab k.alg_name k.index_alg a row q)

-- What a successful lookup leaves.
record Success (tab : List Alg) (k : KeyCtx) : Type 0 where
  index : ℕ
  found : Alg
  nonzero : 1 ≤ index
  row : get_elem? tab index ≡ some found
  answered : answers k.alg_name found ≡ true
  result : luna_lookup_alg_name tab k ≡ (ckr_ok, some found, record k { index_alg = index })

range_cases :
    (tab : List Alg) (name : Bytes) (index0 index1 : ℕ)
    → let res = luna_lookup_alg_name_range tab name index0 index1 in
      (res.0 ≢ ckr_ok) ⊎ ((i : ℕ) × (a : Alg) × (res ≡ (ckr_ok, some (i, a))))
unfolding luna_lookup_alg_name_range
range_cases tab name index0 index1 =
    elim (Option-cases (lookup_rows name index0 (index1 + 1 - index0) (drop index0 tab))) [
      | inl e ↦ inl (ground (arith, e))
      | inr ((i, a), e) ↦ elim (Bool-cases (ltb index1 index0 || leb (length tab) index1)) [
        | inl f ↦ inl (ground (arith, e, f))
        | inr f ↦ inr (i, a, ground (arith, e, f))
      ]
    ]

lookup-Success :
    (tab : List Alg) (k : KeyCtx) → (luna_lookup_alg_name tab k).0 ≡ ckr_ok → Success tab k
unfolding luna_lookup_alg_name
lookup-Success tab k e =
    let index0 = if k.index_alg == 0 then 1 else k.index_alg in
    let index1 = if k.index_alg == 0 then length tab - 1 else k.index_alg in
    elim (range_cases tab k.alg_name index0 index1) [
      | inl failed ↦ absurd (ground (arith, failed, e))
      | inr (i, a, found) ↦
          let f = luna_lookup_alg_name_range-FirstIncluded tab k.alg_name index0 index1 found in
          record {
            index = i;
            found = a;
            nonzero = ground (arith, f.in_range.0);
            row = f.row_there;
            answered = f.matches;
            result = ground (arith, found);
          }
    ]

-- A lookup that gives no row fails.
pub luna_lookup_alg_name-fails :
    (tab : List Alg) (k : KeyCtx)
    → (luna_lookup_alg_name tab k).1 ≡ none
    → (luna_lookup_alg_name tab k).0 ≢ ckr_ok
luna_lookup_alg_name-fails tab k h e = let s = lookup-Success tab k e in grind (arith, h, s.result)

-- A lookup that has succeeded succeeds again on the key context that it leaves, with the same row and
-- the same index, now by looking at that one row only.
pub luna_lookup_alg_name-twice :
    (tab : List Alg) (k : KeyCtx)
    → (luna_lookup_alg_name tab k).0 ≡ ckr_ok
    → luna_lookup_alg_name tab (luna_lookup_alg_name tab k).2 ≡ luna_lookup_alg_name tab k
luna_lookup_alg_name-twice tab k e =
    let s = lookup-Success tab k e in
    let k' : KeyCtx = record k { index_alg = s.index } in
    let again = lookup_kept tab k' s.found s.nonzero s.row s.answered in rw s.result again

lookup_other :
    (tab : List Alg) (k : KeyCtx) (a : Alg)
    → 1 ≤ k.index_alg
    → get_elem? tab k.index_alg ≡ some a
    → answers k.alg_name a ≡ false
    → (luna_lookup_alg_name tab k).0 ≡ ckr_mechanism_invalid
unfolding luna_lookup_alg_name luna_lookup_alg_name_range
lookup_other tab k a le row q =
    let i = k.index_alg in
    let one : i + 1 - i ≡ suc zero = omega arith in
    let missed : lookup_rows k.alg_name i (i + 1 - i) (drop i tab) ≡ none =
      rw (one, drop_at tab i row) (head_misses k.alg_name i a (drop (suc i) tab) q) in
    ground (arith, le, in_length tab i row, missed)

refresh_keeps :
    (k : KeyCtx) (name : Bytes)
    → ((luna_oqs_refresh_alg_name k name).index_alg ≡ k.index_alg)
      × ((luna_oqs_refresh_alg_name k name).alg_name ≡ name)
unfolding luna_oqs_refresh_alg_name luna_oqs_refresh_subtype
refresh_keeps k name = ground arith

-- After a successful lookup, a change of the name by LUNA_OQS_refresh_alg_name keeps the index of the
-- old name's row: a lookup of a name other than that row's answers CKR_MECHANISM_INVALID, whether or
-- not the table has it.
pub luna_lookup_alg_name-luna_oqs_refresh_alg_name :
    (tab : List Alg) (k : KeyCtx) (name : Bytes)
    → (luna_lookup_alg_name tab k).0 ≡ ckr_ok
    → strcmp_eq name k.alg_name ≡ false
    → let renamed = luna_oqs_refresh_alg_name (luna_lookup_alg_name tab k).2 name in
      (luna_lookup_alg_name tab renamed).0 ≡ ckr_mechanism_invalid
luna_lookup_alg_name-luna_oqs_refresh_alg_name tab k name e ne =
    let s = lookup-Success tab k e in
    let renamed = luna_oqs_refresh_alg_name (record k { index_alg = s.index }) name in
    let kept = refresh_keeps (record k { index_alg = s.index }) name in
    let same = strcmp_eq_sound k.alg_name s.found.alg_name (ground (arith, s.answered)) in
    let other : answers renamed.alg_name s.found ≡ false =
      rw (kept.1, ← same) (ground (arith, ne)) in
    rw s.result (
      lookup_other tab renamed s.found (rw kept.0 s.nonzero) (ap (get_elem? tab) kept.0 ∙ s.row)
        other)

some_injective : {x y : Alg} → some x ≡ some y → x ≡ y
some_injective e = ground (arith, e)

get_elem?-map :
    (sz_include sz_exclude : Bytes) (tab : List Alg) (i : ℕ) {a : Alg}
    → get_elem? (map (set_flag sz_include sz_exclude) tab) i ≡ some a
    → a.flag_include ≡ included sz_include sz_exclude a.alg_name
get_elem?-map inc exc [] i e = absurd (ground (arith, e))
get_elem?-map inc exc (x ∷ tab) zero e =
    let same : set_flag inc exc x ≡ _ = some_injective e in
    subst (λ a. a.flag_include ≡ included inc exc a.alg_name) same refl
get_elem?-map inc exc (x ∷ tab) (suc i) e = get_elem?-map inc exc tab i e

-- After luna_init_algorithm_table, LunaLookupAlgName answers CKR_OK only for a name that stands
-- somewhere in the include list, if that is not "ALL", and nowhere in the exclude list, if that is not
-- "NONE", whatever row's index the context kept from before. To stand in a list is to be a part of its
-- text, also inside a longer name.
pub luna_lookup_alg_name-luna_init_algorithm_table :
    (sz_include sz_exclude : Bytes) (tab : List Alg) (k : KeyCtx)
    → (luna_lookup_alg_name (luna_init_algorithm_table sz_include sz_exclude tab) k).0 ≡ ckr_ok
    → LetThrough sz_include sz_exclude k.alg_name
unfolding luna_init_algorithm_table
luna_lookup_alg_name-luna_init_algorithm_table inc exc tab k e =
    let s = lookup-Success (map (set_flag inc exc) tab) k e in
    let flag = get_elem?-map inc exc tab s.index s.row in
    let same = strcmp_eq_sound k.alg_name s.found.alg_name (ground (arith, s.answered)) in
    included-LetThrough inc exc k.alg_name (rw same (sym flag ∙ ground (arith, s.answered)))

-- ===== src/Provider/Algorithms/Listed.antt =====
-- What a first lookup finds (Provider/Algorithms.antt): every algorithm of the table that the include
-- and the exclude list let through.
use luna_openssl_provider.Prelude.{
  ℕ, zero, suc, ◌+◌, ◌-◌, ◌≤◌, ◌<◌, ◌≡◌, ◌≢◌, ◌∙◌, true, none, some, List, [], ◌∷◌, Bytes, length,
  drop, map, get_elem?, strcmp_eq_refl, arith, Option-cases, inl, inr,
}
use luna_openssl_provider.Cryptoki.{ckr_ok}
use luna_openssl_provider.Provider.Algorithms.{
  Alg, KeyCtx, set_flag, luna_init_algorithm_table, lookup_rows, luna_lookup_alg_name_range,
  luna_lookup_alg_name,
}
use luna_openssl_provider.Provider.Algorithms.Lists.{LetThrough, LetThrough-included}
use luna_openssl_provider.Provider.Algorithms.Lookup.{answers, shifted}
use luna_openssl_provider.Provider.Algorithms.Kept.{in_length}

lookup_rows-finds :
    (name : Bytes) (i n : ℕ) (rows : List Alg) (j : ℕ) {a : Alg}
    → get_elem? rows j ≡ some a
    → j < n
    → answers name a ≡ true
    → lookup_rows name i n rows ≢ none
unfolding lookup_rows
lookup_rows-finds name i zero rows j there lt q e = omega (arith, lt)
lookup_rows-finds name i (suc n) [] j there lt q e = ground (arith, there)
lookup_rows-finds name i (suc n) (x ∷ rows) zero there lt q e = ground (arith, there, q, e)
lookup_rows-finds name i (suc n) (x ∷ rows) (suc j) there lt q e =
    ground (arith, lookup_rows-finds name (i + 1) n rows j there (omega (arith, lt)) q, e)

lookup_finds :
    (tab : List Alg) (k : KeyCtx) (i : ℕ) {a : Alg}
    → k.index_alg ≡ 0
    → 1 ≤ i
    → get_elem? tab i ≡ some a
    → answers k.alg_name a ≡ true
    → (luna_lookup_alg_name tab k).0 ≡ ckr_ok
unfolding luna_lookup_alg_name luna_lookup_alg_name_range
lookup_finds tab k i new le row q =
    let inside = in_length tab i row in
    elim (Option-cases (lookup_rows k.alg_name 1 (length tab - 1 + 1 - 1) (drop 1 tab))) [
      | inl missing ↦ absurd (
          lookup_rows-finds k.alg_name 1 (length tab - 1 + 1 - 1) (drop 1 tab) (i - 1)
            (shifted tab 1 i le ∙ row) (omega (arith, le, inside)) q missing)
      | inr (found, there) ↦ ground (arith, new, le, inside, there)
    ]

get_elem?-set_flag :
    (sz_include sz_exclude : Bytes) (tab : List Alg) (i : ℕ) {a : Alg}
    → get_elem? tab i ≡ some a
    → get_elem? (map (set_flag sz_include sz_exclude) tab) i
      ≡ some (set_flag sz_include sz_exclude a)
get_elem?-set_flag inc exc [] i e = absurd (ground (arith, e))
get_elem?-set_flag inc exc (x ∷ tab) zero e = ground (arith, e)
get_elem?-set_flag inc exc (x ∷ tab) (suc i) e = get_elem?-set_flag inc exc tab i e

-- After luna_init_algorithm_table, LunaLookupAlgName answers CKR_OK for every algorithm of the table,
-- but for the row at index 0, whose name stands somewhere in the include list, if that is not "ALL",
-- and nowhere in the exclude list, if that is not "NONE". The context has kept no index from before.
pub luna_lookup_alg_name-LetThrough :
    (sz_include sz_exclude : Bytes) (tab : List Alg) (k : KeyCtx) (i : ℕ) {a : Alg}
    → k.index_alg ≡ 0
    → 1 ≤ i
    → get_elem? tab i ≡ some a
    → a.alg_name ≡ k.alg_name
    → LetThrough sz_include sz_exclude k.alg_name
    → (luna_lookup_alg_name (luna_init_algorithm_table sz_include sz_exclude tab) k).0 ≡ ckr_ok
unfolding luna_init_algorithm_table
luna_lookup_alg_name-LetThrough inc exc tab k i {a} new le row same allowed =
    let flag = LetThrough-included inc exc k.alg_name allowed in
    let q : answers k.alg_name (set_flag inc exc a) ≡ true =
      rw (same, flag) (strcmp_eq_refl k.alg_name) in
    lookup_finds (map (set_flag inc exc) tab) k i new le (get_elem?-set_flag inc exc tab i row) q

-- ===== src/Provider/Algorithms/Lists.antt =====
-- The include and the exclude list of luna_init_algorithm_table (Provider/Algorithms.antt): what the
-- calls of strstr mean for the text of a list.
use luna_openssl_provider.Prelude.{
  ◌≡◌, ◌⊎◌, inl, inr, true, false, Bytes, arith, strcmp_eq, strcmp_eq_sound, strcmp_eq_refl,
  Bool-cases, Option-cases, Occurs, split_at, split_at-Occurs, split_at-none, codes,
}
use luna_openssl_provider.Provider.Algorithms.{included, occurs_in}

occurs_in-Occurs :
    (needle s : Bytes)
    → (occurs_in needle s ≡ true × Occurs needle s)
      ⊎ (occurs_in needle s ≡ false × ¬ (Occurs needle s))
occurs_in-Occurs needle s = elim (Option-cases (split_at needle s)) [
  | inl missing ↦ inr (ground (arith, missing), split_at-none needle s missing)
  | inr (_, found) ↦ inl (ground (arith, found), split_at-Occurs needle s found)
]

-- The name stands somewhere in the include list, if that is not "ALL", and nowhere in the exclude list,
-- if that is not "NONE".
abbrev pub LetThrough : Bytes → Bytes → Bytes → Type 0
LetThrough sz_include sz_exclude name =
    ((sz_include ≡ codes "ALL") ⊎ Occurs name sz_include)
    × ((sz_exclude ≡ codes "NONE") ⊎ ¬ (Occurs name sz_exclude))

pub included-LetThrough :
    (sz_include sz_exclude name : Bytes)
    → included sz_include sz_exclude name ≡ true
    → LetThrough sz_include sz_exclude name
unfolding included
included-LetThrough inc exc name e = (
  elim (Bool-cases (strcmp_eq inc (codes "ALL"))) [
    | inl all ↦ inl (strcmp_eq_sound inc (codes "ALL") all)
    | inr some_ ↦ elim (occurs_in-Occurs name inc) [
      | inl (_, there) ↦ inr there
      | inr (missing, _) ↦ absurd (ground (arith, e, some_, missing))
    ]
  ],
  elim (Bool-cases (strcmp_eq exc (codes "NONE"))) [
    | inl none_ ↦ inl (strcmp_eq_sound exc (codes "NONE") none_)
    | inr some_ ↦ elim (occurs_in-Occurs name exc) [
      | inl (there, _) ↦ absurd (ground (arith, e, some_, there))
      | inr (_, missing) ↦ inr missing
    ]
  ],
)

list_all :
    (inc name : Bytes)
    → (inc ≡ codes "ALL") ⊎ Occurs name inc
    → (strcmp_eq inc (codes "ALL") ≡ true) ⊎ (occurs_in name inc ≡ true)
list_all inc name (inl all) = inl (rw all (strcmp_eq_refl (codes "ALL")))
list_all inc name (inr there) = elim (occurs_in-Occurs name inc) [
  | inl (e, _) ↦ inr e
  | inr (_, missing) ↦ absurd (missing there)
]

list_none :
    (exc name : Bytes)
    → (exc ≡ codes "NONE") ⊎ ¬ (Occurs name exc)
    → (strcmp_eq exc (codes "NONE") ≡ true) ⊎ (occurs_in name exc ≡ false)
list_none exc name (inl all) = inl (rw all (strcmp_eq_refl (codes "NONE")))
list_none exc name (inr missing) = elim (occurs_in-Occurs name exc) [
  | inl (_, there) ↦ absurd (missing there)
  | inr (e, _) ↦ inr e
]

pub LetThrough-included :
    (sz_include sz_exclude name : Bytes)
    → LetThrough sz_include sz_exclude name
    → included sz_include sz_exclude name ≡ true
unfolding included
LetThrough-included inc exc name (listed, not_barred) =
    ground (arith, list_all inc name listed, list_none exc name not_barred)

-- ===== src/Provider/Names.antt =====
-- luna_short_name and luna_tls_name of lunaProvider/lunaCommon.c, over the table `sntab`. A NULL name
-- gives NULL, which is left out.
use luna_openssl_provider.Prelude.{
  ◌≡◌, refl, sym, ap, subst, ◌⊎◌, inl, inr, false, ◌||◌, List, [], ◌∷◌, Bytes, codes, strcmp_eq,
  strcmp_eq_sound, if◌then◌else◌, Bool-cases,
}

pub record Names : Type 0 where
  pub sn : Bytes
  pub tls_name : Bytes
  pub ln : Bytes

abbrev pub ml_dsa_87 : Names
ml_dsa_87 = record { sn = codes "id-ml-dsa-87"; tls_name = codes "mldsa87"; ln = codes "ML-DSA-87" }

abbrev pub ml_dsa_65 : Names
ml_dsa_65 = record { sn = codes "id-ml-dsa-65"; tls_name = codes "mldsa65"; ln = codes "ML-DSA-65" }

abbrev pub ml_dsa_44 : Names
ml_dsa_44 = record { sn = codes "id-ml-dsa-44"; tls_name = codes "mldsa44"; ln = codes "ML-DSA-44" }

abbrev pub sntab : List Names
sntab = ml_dsa_87 ∷ ml_dsa_65 ∷ ml_dsa_44 ∷ []

unfoldable pub short_in : List Names → Bytes → Bytes
short_in [] txt = txt
short_in (n ∷ ns) txt =
    let later = short_in ns txt in
    if strcmp_eq txt n.tls_name || strcmp_eq txt n.ln then n.sn else later

unfoldable pub luna_short_name : Bytes → Bytes
luna_short_name txt = short_in sntab txt

unfoldable pub tls_in : List Names → Bytes → Bytes
tls_in [] txt = txt
tls_in (n ∷ ns) txt =
    let later = tls_in ns txt in
    if strcmp_eq txt n.sn || strcmp_eq txt n.ln then n.tls_name else later

unfoldable pub luna_tls_name : Bytes → Bytes
luna_tls_name txt = tls_in sntab txt

-- A text is none of the three names.
record IsOther (n : Names) (txt : Bytes) : Type 0 where
  not_sn : strcmp_eq txt n.sn ≡ false
  not_tls : strcmp_eq txt n.tls_name ≡ false
  not_ln : strcmp_eq txt n.ln ≡ false

name_cases :
    (n : Names) (txt : Bytes) → (txt ≡ n.sn) ⊎ (txt ≡ n.tls_name) ⊎ (txt ≡ n.ln) ⊎ IsOther n txt
name_cases n txt = elim (Bool-cases (strcmp_eq txt n.sn)) [
  | inl e ↦ inl (strcmp_eq_sound txt n.sn e)
  | inr e ↦ elim (Bool-cases (strcmp_eq txt n.tls_name)) [
    | inl f ↦ inr (inl (strcmp_eq_sound txt n.tls_name f))
    | inr f ↦ elim (Bool-cases (strcmp_eq txt n.ln)) [
      | inl q ↦ inr (inr (inl (strcmp_eq_sound txt n.ln q)))
      | inr q ↦ inr (inr (inr (record { not_sn = e; not_tls = f; not_ln = q })))
    ]
  ]
]

-- How the two conversions go together on a text.
abbrev pub Agree : Bytes → Type 0
Agree txt =
    (luna_short_name (luna_short_name txt) ≡ luna_short_name txt)
    × (luna_tls_name (luna_tls_name txt) ≡ luna_tls_name txt)
    × (luna_short_name (luna_tls_name txt) ≡ luna_short_name txt)
    × (luna_tls_name (luna_short_name txt) ≡ luna_tls_name txt)

abbrev AgreeOn : Names → Type 0
AgreeOn n = Agree n.sn × Agree n.tls_name × Agree n.ln

agree_sntab : AgreeOn ml_dsa_87 × AgreeOn ml_dsa_65 × AgreeOn ml_dsa_44
unfolding luna_short_name luna_tls_name short_in tls_in strcmp_eq
agree_sntab = (
  ((refl, refl, refl, refl), (refl, refl, refl, refl), (refl, refl, refl, refl)),
  ((refl, refl, refl, refl), (refl, refl, refl, refl), (refl, refl, refl, refl)),
  ((refl, refl, refl, refl), (refl, refl, refl, refl), (refl, refl, refl, refl)),
)

agree_other :
    (txt : Bytes)
    → IsOther ml_dsa_87 txt
    → IsOther ml_dsa_65 txt
    → IsOther ml_dsa_44 txt
    → (luna_short_name txt ≡ txt) × (luna_tls_name txt ≡ txt)
unfolding luna_short_name luna_tls_name short_in tls_in
agree_other txt a b d = (
  simp (a.not_tls, a.not_ln, b.not_tls, b.not_ln, d.not_tls, d.not_ln) refl,
  simp (a.not_sn, a.not_ln, b.not_sn, b.not_ln, d.not_sn, d.not_ln) refl,
)

-- A name of the table agrees; otherwise the text is none of its names.
Agree-or_IsOther : (n : Names) (txt : Bytes) → AgreeOn n → Agree txt ⊎ IsOther n txt
Agree-or_IsOther n txt (a, b, d) = elim (name_cases n txt) [
  | inl e ↦ inl (subst Agree (sym e) a)
  | inr (inl e) ↦ inl (subst Agree (sym e) b)
  | inr (inr (inl e)) ↦ inl (subst Agree (sym e) d)
  | inr (inr (inr other)) ↦ inr other
]

-- For every text, converting twice to the short name or twice to the TLS name is converting once, and
-- the conversion to one form forgets an earlier conversion to the other.
pub luna_short_name-luna_tls_name : (txt : Bytes) → Agree txt
luna_short_name-luna_tls_name txt =
    let (a, b, d) = agree_sntab in
    elim (Agree-or_IsOther ml_dsa_87 txt a) [
      | inl known ↦ known
      | inr other87 ↦ elim (Agree-or_IsOther ml_dsa_65 txt b) [
        | inl known ↦ known
        | inr other65 ↦ elim (Agree-or_IsOther ml_dsa_44 txt d) [
          | inl known ↦ known
          | inr other44 ↦
              let (short, tls) = agree_other txt other87 other65 other44 in
              (
                ap luna_short_name short,
                ap luna_tls_name tls,
                ap luna_short_name tls,
                ap luna_tls_name short,
              )
        ]
      ]
    ]

-- ===== src/Provider/Algorithms.antt =====
-- The table of algorithms that lunaProvider/lunaCommon.c redirects to the HSM: `algtab`,
-- luna_init_algorithm_table, LunaLookupAlgName_range, LunaLookupAlgName, LUNA_OQS_QUERY_X,
-- LUNA_OQS_refresh_subtype, LUNA_OQS_refresh_alg_name and the queries before a key is generated. The
-- rows of `algtab` are an argument; the first is never looked up. `OPENSSL_strdup` succeeds.
pub mod Lookup
pub mod Lists
pub mod Kept
pub mod Listed
use luna_openssl_provider.Prelude.{
  ℕ, zero, suc, ◌+◌, ◌-◌, Bool, true, false, not, ◌&&◌, ◌||◌, Option, none, some, List, [], ◌∷◌,
  Bytes, codes, length, drop, map, strcmp_eq, split_at, ℤ, pos, negsuc, ltb, leb, ◌==◌,
  if◌then◌else◌,
}
use luna_openssl_provider.Cryptoki.{ckr_ok, ckr_general_error}
use luna_openssl_provider.Engine.Config.{
  Config, luna_get_enable_rsa_gen_key_pair, luna_get_enable_ec_gen_key_pair,
  luna_get_enable_em_gen_key_pair, luna_get_enable_ed_gen_key_pair,
  luna_get_enable_pqc_gen_key_pair,
}

abbrev pub ckr_mechanism_invalid : ℕ
ckr_mechanism_invalid = 0x70

pub record Alg : Type 0 where
  pub flag_include : Bool
  pub alg_name : Bytes
  pub keytype : ℕ
  pub ckp_params : ℕ
  pub type_generate : ℕ
  pub type_sign : ℕ
  pub type_encap : ℕ
  pub type_decap : ℕ

-- `strstr(s, needle) != NULL`
abbrev pub occurs_in : Bytes → Bytes → Bool
occurs_in needle s = elim (split_at needle s) [ none ↦ false | some _ ↦ true ]

-- The flag that luna_init_algorithm_table gives to a name.
unfoldable pub included : Bytes → Bytes → Bytes → Bool
included sz_include sz_exclude name =
    let listed = if strcmp_eq sz_include (codes "ALL") then true else occurs_in name sz_include in
    if strcmp_eq sz_exclude (codes "NONE")
    then listed
    else if occurs_in name sz_exclude
    then false
    else listed

abbrev pub set_flag : Bytes → Bytes → Alg → Alg
set_flag sz_include sz_exclude a = record a {
  flag_include = included sz_include sz_exclude a.alg_name;
}

unfoldable pub luna_init_algorithm_table : Bytes → Bytes → List Alg → List Alg
luna_init_algorithm_table sz_include sz_exclude tab = map (set_flag sz_include sz_exclude) tab

-- The loop of LunaLookupAlgName_range, on the rows from index `i` on, `n` of them.
unfoldable pub lookup_rows : Bytes → ℕ → ℕ → List Alg → Option (ℕ × Alg)
lookup_rows name i zero rows = none
lookup_rows name i (suc n) [] = none
lookup_rows name i (suc n) (a ∷ rows) =
    let later = lookup_rows name (i + 1) n rows in
    if not a.flag_include then later else if strcmp_eq name a.alg_name then some (i, a) else later

-- The result with `*pindexFound` and the row that the other outputs are copied from, if it is CKR_OK.
unfoldable pub luna_lookup_alg_name_range : List Alg → Bytes → ℕ → ℕ → ℕ × Option (ℕ × Alg)
luna_lookup_alg_name_range tab name index0 index1 =
    if ltb index1 index0 || leb (length tab) index1
    then (ckr_general_error, none)
    else elim (lookup_rows name index0 (index1 + 1 - index0) (drop index0 tab)) [
      | none ↦ (ckr_mechanism_invalid, none)
      | some found ↦ (ckr_ok, some found)
    ]

-- The fields of luna_prov_key_ctx that these functions use.
pub data Subtype : Type 0 where
  no_subtype : Subtype
  x25519 : Subtype
  x448 : Subtype
  ed25519 : Subtype
  ed448 : Subtype

pub record KeyCtx : Type 0 where
  pub alg_name : Bytes
  pub index_alg : ℕ
  pub is_kem : Bool
  pub subtype : Subtype
  pub sublen : ℕ

unfoldable pub luna_lookup_alg_name : List Alg → KeyCtx → ℕ × Option Alg × KeyCtx
luna_lookup_alg_name tab keyctx =
    let index0 = if keyctx.index_alg == 0 then 1 else keyctx.index_alg in
    let index1 = if keyctx.index_alg == 0 then length tab - 1 else keyctx.index_alg in
    let (rv, found) = luna_lookup_alg_name_range tab keyctx.alg_name index0 index1 in
    elim found [
      | none ↦ (rv, none, keyctx)
      | some (i, a) ↦ (rv, some a, record keyctx { index_alg = i })
    ]

-- LUNA_OQS_OK is true, LUNA_OQS_ERROR is false.
unfoldable pub luna_oqs_query_x : List Alg → KeyCtx → Bool × KeyCtx
luna_oqs_query_x tab keyctx =
    let (rvlookup, _, keyctx1) = luna_lookup_alg_name tab keyctx in (rvlookup == ckr_ok, keyctx1)

unfoldable pub luna_oqs_refresh_subtype : KeyCtx → KeyCtx
luna_oqs_refresh_subtype keyctx =
    if occurs_in (codes "x25519") keyctx.alg_name
    then record keyctx { is_kem = true; subtype = x25519; sublen = 32 }
    else if occurs_in (codes "x448") keyctx.alg_name
    then record keyctx { is_kem = true; subtype = x448; sublen = 56 }
    else if occurs_in (codes "ed25519") keyctx.alg_name
    then record keyctx { is_kem = false; subtype = ed25519; sublen = 32 }
    else if occurs_in (codes "ed448") keyctx.alg_name
    then record keyctx { is_kem = false; subtype = ed448; sublen = 57 }
    else record keyctx { is_kem = false; subtype = no_subtype; sublen = 0 }

unfoldable pub luna_oqs_refresh_alg_name : KeyCtx → Bytes → KeyCtx
luna_oqs_refresh_alg_name keyctx name = luna_oqs_refresh_subtype (record keyctx { alg_name = name })

-- The part of LUNA_OQS_malloc_from_any that sets these fields.
unfoldable pub luna_oqs_malloc_from_any : Bytes → KeyCtx
luna_oqs_malloc_from_any name =
    luna_oqs_refresh_subtype
      (record { alg_name = name; index_alg = 0; is_kem = false; subtype = no_subtype; sublen = 0 })

-- The kinds of classic key that an algorithm name may contain, in the order of `tab`.
pub data Classic : Type 0 where
  ckk_invalid : Classic
  ckk_rsa : Classic
  ckk_ec : Classic
  ckk_ec_montgomery : Classic
  ckk_ec_edwards : Classic

abbrev classic_tab : List (Bytes × Classic)
classic_tab =
    (codes "rsa3072", ckk_rsa)
    ∷ (codes "rsa2048", ckk_rsa)
    ∷ (codes "pss3072", ckk_rsa)
    ∷ (codes "pss2048", ckk_rsa)
    ∷ (codes "bp256", ckk_ec)
    ∷ (codes "p256", ckk_ec)
    ∷ (codes "p384", ckk_ec)
    ∷ (codes "p521", ckk_ec)
    ∷ (codes "x25519", ckk_ec_montgomery)
    ∷ (codes "x448", ckk_ec_montgomery)
    ∷ (codes "ed25519", ckk_ec_edwards)
    ∷ (codes "ed448", ckk_ec_edwards)
    ∷ []

unfoldable pub classic_in : List (Bytes × Classic) → Bytes → Classic
classic_in [] name = ckk_invalid
classic_in ((part, keytype) ∷ rows) name =
    let later = classic_in rows name in if occurs_in part name then keytype else later

abbrev pub is_one : ℤ → Bool
is_one (pos n) = n == 1
is_one (negsuc n) = false

unfoldable pub luna_oqs_query_classic_keypair : Config → KeyCtx → Bool
luna_oqs_query_classic_keypair cfg keyctx = elim (classic_in classic_tab keyctx.alg_name) [
  | ckk_rsa ↦ is_one (luna_get_enable_rsa_gen_key_pair cfg)
  | ckk_ec ↦ is_one (luna_get_enable_ec_gen_key_pair cfg)
  | ckk_ec_montgomery ↦ is_one (luna_get_enable_em_gen_key_pair cfg)
  | ckk_ec_edwards ↦ is_one (luna_get_enable_ed_gen_key_pair cfg)
  | ckk_invalid ↦ true
]

unfoldable pub luna_oqs_query_any_keypair : Config → List Alg → KeyCtx → Bool × KeyCtx
luna_oqs_query_any_keypair cfg tab keyctx =
    if not (is_one (luna_get_enable_pqc_gen_key_pair cfg))
    then (false, keyctx)
    else if not (luna_oqs_query_classic_keypair cfg keyctx)
    then (false, keyctx)
    else luna_oqs_query_x tab keyctx

-- ===== src/Tests/Objects.antt =====
-- A small token with objects that have a label, and examples on the keys in it (Provider/Key).
use luna_openssl_provider.Prelude.{
  ℕ, ◌+◌, ◌≡◌, ◌≢◌, refl, Bool, true, false, ◌&&◌, not, List, [], ◌∷◌, codes, length, replicate,
  ◌==◌, if◌then◌else◌, arith, strcmp_eq, Bool-cases, inl, inr, ◌⊎◌, sym, ◌≤◌, strcmp_eq_refl,
  strcmp_eq_sound,
}
use luna_openssl_provider.Cryptoki.{Cryptoki}
use luna_openssl_provider.Provider.Blob.{Attribute}
use luna_openssl_provider.Provider.Key.State.{KeyCalls}
use luna_openssl_provider.Provider.Key.Objects.{ObjectRules}
use luna_openssl_provider.Provider.Key.Active.{SearchRules}
use luna_openssl_provider.Tests.Sample.{sample}

-- An object is its number and its first attribute; a search keeps what it has found and is active
-- from then on.
pub record Objects : Type 0 where
  pub stored : List (Attribute × ℕ)
  pub hits : List ℕ
  pub searching : Bool
  pub sessions : ℕ

abbrev pub with_objects : Cryptoki
with_objects = record {
  Token = Objects;
  load_library = λ t. (true, t);
  c_initialize = λ os_locking t. (0, t);
  c_finalize = λ t. (0, t);
  c_open_session = λ slot t. (0, t.sessions + 1, record t { sessions = t.sessions + 1 });
  c_close_session = λ h t. (0, t);
  c_login = λ h kind pin t. (0, t);
  c_logout = λ h t. (0, t);
  c_generate_random = λ h n t. (0, replicate n h, t);
  ca_set_application_id = λ hi lo t. (0, t);
  c_get_slot_list = λ t. (0, 3 ∷ 8 ∷ []);
  c_get_token_label = λ slot t. (0, codes "hsm");
  sha1 = sample.sha1;
  sha1_too = sample.sha1_too;
}

abbrev same_attribute : Attribute → Attribute → Bool
same_attribute a b = a.attr_type == b.attr_type && strcmp_eq a.value b.value

same_attribute_refl : (a : Attribute) → same_attribute a a ≡ true
same_attribute_refl a = rw (strcmp_eq_refl a.value) (ground arith)

differ : (a b : Attribute) → a ≢ b → same_attribute a b ≡ false
differ a b apart = elim (Bool-cases (same_attribute a b)) [
  | inl same ↦
      let same_type : a.attr_type ≡ b.attr_type = ground (arith, same) in
      let same_value : a.value ≡ b.value = strcmp_eq_sound a.value b.value (ground (arith, same)) in
      absurd (apart (cc (same_type, same_value)))
  | inr no_ ↦ no_
]

-- The numbers of the objects with the attribute.
unfoldable pub matches : Attribute → List (Attribute × ℕ) → List ℕ
matches a [] = []
matches a ((b, h) ∷ rest) =
    let later = matches a rest in if same_attribute a b then h ∷ later else later

abbrev store : List Attribute → List Attribute → Objects → ℕ × ℕ × ℕ × Objects
store (p ∷ rest) (q ∷ rest') t =
    let n = length t.stored + 1 in
    (0, n, n + 1, record t { stored = (p, n) ∷ (q, n + 1) ∷ t.stored })
store [] q t = (7, 0, 0, t)
store (p ∷ rest) [] t = (7, 0, 0, t)

abbrev ckr_operation_active : ℕ
ckr_operation_active = 0x90

abbrev begin_search : List Attribute → Objects → ℕ × Objects
begin_search (a ∷ rest) t = (0, record t { hits = matches a t.stored; searching = true })
begin_search [] t = (7, t)

abbrev search_for : Bool → List Attribute → Objects → ℕ × Objects
search_for ends_search a t =
    if t.searching && not ends_search then (ckr_operation_active, t) else begin_search a t

-- With a library that ends an active search for a new one, or one that does as PKCS#11 has it.
abbrev pub calls_on : Bool → KeyCalls with_objects
calls_on ends_search = record {
  c_find_objects_init = λ session a t. search_for ends_search a t;
  c_find_objects = λ session n t. (0, t.hits, t);
  c_generate_key_pair = λ session mech p q t. store p q t;
  c_get_attribute_value = λ session h a len t. (0, 4, 1 ∷ 2 ∷ 3 ∷ 4 ∷ [], t);
  c_sign_init = λ session mech h t. (0, t);
  c_sign = λ session m len t. (0, length m, m, t);
  c_verify_init = λ session mech h t. (0, t);
  c_verify = λ session m sig t. (0, t);
}

pub first_named :
    (p q : Attribute) (n m : ℕ) (stored : List (Attribute × ℕ))
    → matches p stored ≡ []
    → p ≢ q
    → matches p ((p, n) ∷ (q, m) ∷ stored) ≡ n ∷ []
unfolding matches
first_named p q n m stored free apart =
    ground (arith, same_attribute_refl p, differ p q apart, free)

pub second_named :
    (p q : Attribute) (n m : ℕ) (stored : List (Attribute × ℕ))
    → matches q stored ≡ []
    → p ≢ q
    → matches q ((p, n) ∷ (q, m) ∷ stored) ≡ m ∷ []
unfolding matches
second_named p q n m stored free apart =
    ground (arith, same_attribute_refl q, differ q p (λ e. apart (sym e)), free)

pub search_refused :
    (a : List Attribute) (t : Objects) → t.searching ≡ true → (search_for false a t).0 ≢ 0
search_refused a t searching = ground (arith, searching)

pub search_begun :
    (a : List Attribute) (t : Objects)
    → (search_for false a t).0 ≡ 0
    → (search_for false a t).1.searching ≡ true
search_begun [] t e = absurd (ground (arith, e))
search_begun (a ∷ rest) t e = ground (arith, e)

-- A search fails, or finds the objects with the attribute and changes what it has found.
pub search_cases :
    (ends_search : Bool) (a : Attribute) (t : Objects)
    → ((search_for ends_search (a ∷ []) t).0 ≢ 0)
      ⊎ (search_for ends_search (a ∷ []) t
          ≡ (0, record t { hits = matches a t.stored; searching = true }))
search_cases ends_search a t = elim (Bool-cases (t.searching && not ends_search)) [
  | inl refused ↦ inl (ground (arith, refused))
  | inr passed ↦ inr (rw passed refl)
]

abbrev pub rules_on : (ends_search : Bool) → ObjectRules with_objects (calls_on ends_search)
rules_on ends_search = record {
  Names = λ t a h. matches a t.stored ≡ h ∷ [];
  Unused = λ t a. matches a t.stored ≡ [];
  IsSession = λ t session. session ≤ t.sessions;
  generated = λ session mech p q rest rest' t free free' apart ok. (
    first_named p q (length t.stored + 1) (length t.stored + 1 + 1) t.stored free apart,
    second_named p q (length t.stored + 1) (length t.stored + 1 + 1) t.stored free' apart,
  );
  found = λ session a h t open_ named. elim (search_cases ends_search a t) [
    | inl failed ↦ inl failed
    | inr done ↦ inr (inr (rw done (named, open_, λ b k e. e)))
  ];
}

abbrev pub one_search : SearchRules with_objects (calls_on false)
one_search = record {
  IsSearching = λ t session. t.searching ≡ true;
  started = λ session n a t begun _. search_begun a t begun;
  active = λ session a t searching. search_refused a t searching;
}

abbrev pub object_calls : KeyCalls with_objects
object_calls = calls_on true

abbrev pub object_rules : ObjectRules with_objects object_calls
object_rules = rules_on true

-- ===== src/Engine/Slotid.antt =====
-- The slot strings of engine/e_gem.c, "slotid:appidhi:appidlo[:password]": luna_isspace,
-- luna_parse_slotid2, luna_parse_session_desc and luna_label_to_slotid. `BUF_strdup` succeeds.
pub mod Decimal
pub mod Parsing
pub mod Labels
pub mod Secret
pub mod Secrets
use luna_openssl_provider.Prelude.{
  ℕ, ◌+◌, ◌-◌, ◌*◌, ◌^◌, Bool, true, false, ◌||◌, Option, none, some, List, [], ◌∷◌, ◌++◌, Bytes,
  codes, length, take, replicate, strcmp_eq, split_at, cut_at, atoi, ℤ, pos, negsuc, ltb, ◌==◌, not,
  if◌then◌else◌,
}
use luna_openssl_provider.Engine.Memory.{luna_max_malloc}
use luna_openssl_provider.Cryptoki.{Cryptoki, ckr_ok}

unfoldable pub luna_isspace : ℕ → Bool
luna_isspace c = c == b' ' || c == 12 || c == 10 || c == 13 || c == 9 || c == 11

-- The loop that eats whitespace.
unfoldable pub skip_space : Bytes → Bytes
skip_space [] = []
skip_space (c ∷ cs) = if luna_isspace c then skip_space cs else c ∷ cs

-- The bytes that may stand round a label.
unfoldable pub is_quote : ℕ → Bool
is_quote c = c == b'"' || c == b'@' || c == b'#' || c == b'%' || c == b'^' || c == b'~'

-- What the quote or the first ':' cuts off: a label in quotes or a number, and the rest.
pub data Slot : Type 0 where
  label : Bytes → Bytes → Slot
  number : Bytes → Bytes → Slot

-- After the quote: `strstr` for the quote and ':', which are then skipped.
unfoldable pub quoted : Bytes → Option (Bytes × Bytes)
quoted [] = none
quoted (q ∷ cs) =
    if is_quote q
    then elim (split_at (q ∷ b':' ∷ []) cs) [
      | some (name, _ ∷ _ ∷ rest) ↦ some (name, rest)
      | _ ↦ none
    ]
    else none

unfoldable pub cut_slot : Bytes → Option Slot
cut_slot arg = elim (quoted (skip_space arg)) [
  | some (name, rest) ↦ some (label name rest)
  | none ↦ elim (cut_at b':' (skip_space arg)) [
    | none ↦ none
    | some (front, rest) ↦ some (number front rest)
  ]
]

-- The slot portion, and whether `*pflaglabel` is set.
unfoldable pub luna_parse_slotid2 : Bytes → Option (Bytes × Bool)
luna_parse_slotid2 arg = elim (cut_slot arg) [
  | none ↦ none
  | some (label name _) ↦ some (name, true)
  | some (number front _) ↦ some (front, false)
]

-- session_desc; the `handle` field is always LUNA_INVALID_HANDLE here.
pub record SessionDesc : Type 0 where
  pub slot : ℕ
  pub app_id_hi : ℤ
  pub app_id_low : ℤ
  pub password : Option Bytes

-- An `int` converted to the unsigned long CK_SLOT_ID.
unfoldable pub to_ulong : ℤ → ℕ
to_ulong (pos n) = n
to_ulong (negsuc n) = 2 ^ 64 - 1 - n

abbrev luna_max_label : ℕ
luna_max_label = 32

-- Padded with spaces to 32 bytes; a token's label ends at its first 0.
unfoldable pub norm_label : Bytes → Bytes
norm_label name = take luna_max_label (name ++ replicate luna_max_label b' ')

unfoldable pub before_zero : Bytes → Bytes
before_zero [] = []
before_zero (c ∷ cs) = if c == 0 then [] else c ∷ before_zero cs

module _ (c : Cryptoki) where
  -- The loop over the slot table.
  unfoldable pub find_label : Bytes → List ℕ → c.Token → Option ℕ
  find_label norm1 [] t = none
  find_label norm1 (slot ∷ slots) t =
      let (rv, found) = c.c_get_token_label slot t in
      let later = find_label norm1 slots t in
      if not (rv == ckr_ok)
      then none
      else if strcmp_eq norm1 (norm_label (before_zero (take luna_max_label found)))
      then some slot
      else later

  -- The table of slots is 8 bytes for each slot and within the limit of LUNA_malloc.
  unfoldable pub luna_label_to_slotid : Bytes → c.Token → Option ℕ
  luna_label_to_slotid name t =
      let (rv, slots) = c.c_get_slot_list t in
      if ltb luna_max_label (length name)
      then none
      else if ltb (length name) 1
      then none
      else if not (rv == ckr_ok) || ltb (length slots) 1
      then none
      else if ltb luna_max_malloc (8 * length slots)
      then none
      else find_label (norm_label name) slots t

  -- The password portion: an empty one and "NULL" count as none.
  abbrev pub desc_password : Bytes → Option Bytes
  desc_password spwd = if length spwd == 0 || strcmp_eq spwd (codes "NULL") then none else some spwd

  -- From the minor application id on.
  abbrev pub finish_desc : ℕ → Bytes → Bytes → SessionDesc
  finish_desc slot hi lo = elim (cut_at b':' lo) [
    | none ↦ record { slot = slot; app_id_hi = atoi hi; app_id_low = atoi lo; password = none }
    | some (low, spwd) ↦ record {
      slot = slot;
      app_id_hi = atoi hi;
      app_id_low = atoi low;
      password = desc_password spwd;
    }
  ]

  abbrev pub desc_ids : ℕ → Bytes → Option SessionDesc
  desc_ids slot rest = elim (cut_at b':' rest) [
    | none ↦ none
    | some (hi, lo) ↦ some (finish_desc slot hi lo)
  ]

  unfoldable pub luna_parse_session_desc : Bytes → c.Token → Option SessionDesc
  luna_parse_session_desc arg t = elim (cut_slot arg) [
    | none ↦ none
    | some (label name rest) ↦ elim (luna_label_to_slotid name t) [
      | none ↦ none
      | some slot ↦ desc_ids slot rest
    ]
    | some (number front rest) ↦ desc_ids (to_ulong (atoi front)) rest
  ]

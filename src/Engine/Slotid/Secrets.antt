-- ===== src/Engine/Slotid/Secrets.antt =====
-- The PIN that luna_parse_password (Engine/Slotid/Secret.antt) takes from a slot string.
use luna_openssl_provider.Prelude.{
  ℕ, ◌≡◌, ◌≢◌, refl, some, strcmp_eq_refl, strcmp_eq_other, length_nonempty, false, none, [], ◌∷◌,
  ◌++◌, ◌∙◌, Bytes, codes, starts_with, arith,
}
use luna_openssl_provider.Engine.Slotid.Decimal.{decimal, decimal-Without, cut_at-Without}
use luna_openssl_provider.Engine.Slotid.Parsing.{desc_string, cut_slot-decimal}
use luna_openssl_provider.Engine.Slotid.Secret.{
  Sources, keep, read_password, after_slot, luna_parse_password,
}

-- Without the front of a prefix, the prefix is not there.
starts_with_front : (p q s : Bytes) → starts_with p s ≡ false → starts_with (p ++ q) s ≡ false
unfolding starts_with
starts_with_front [] q s e = ground (arith, e)
starts_with_front (p ∷ ps) q [] e = refl
starts_with_front (p ∷ ps) q (x ∷ xs) e = ground (arith, e, starts_with_front ps q xs)

module _ (s : Sources) where
  -- On a printed slot string, all depends on the password portion.
  parse_desc_string :
      (slot hi lo : ℕ) (spwd : Bytes)
      → luna_parse_password s (desc_string slot hi lo spwd)
        ≡ read_password s (desc_string slot hi lo spwd) spwd
  unfolding luna_parse_password after_slot
  parse_desc_string slot hi lo spwd = ground (
    arith,
    cut_slot-decimal slot (decimal hi ++ b':' ∷ (decimal lo ++ b':' ∷ spwd)),
    cut_at-Without b':' (decimal hi) (decimal lo ++ b':' ∷ spwd) (decimal-Without hi),
    cut_at-Without b':' (decimal lo) spwd (decimal-Without lo),
  )

  parse_plain :
      (slot hi lo : ℕ) (pin : Bytes)
      → luna_parse_password s (desc_string slot hi lo (codes "password=" ++ pin)) ≡ keep pin
  unfolding read_password starts_with
  parse_plain slot hi lo pin = parse_desc_string slot hi lo (codes "password=" ++ pin)

  keep_plain : (pin : Bytes) → pin ≢ [] → pin ≢ codes "NULL" → keep pin ≡ some (some pin)
  keep_plain pin nonempty not_null =
      let other = strcmp_eq_other pin (codes "NULL") not_null in
      ground (arith, other, length_nonempty pin nonempty)

  -- "slot:hi:lo:password=PIN" gives the PIN, where it is neither empty nor "NULL"; with an empty PIN,
  -- and with "NULL", the call succeeds too and sets no password.
  pub luna_parse_password-desc_string :
      (slot hi lo : ℕ) (pin : Bytes)
      → pin ≢ []
      → pin ≢ codes "NULL"
      → let parse =
          λ (p : Bytes). luna_parse_password s (desc_string slot hi lo (codes "password=" ++ p)) in
        (parse pin ≡ some (some pin)) × (parse [] ≡ some none) × (parse (codes "NULL") ≡ some none)
  luna_parse_password-desc_string slot hi lo pin nonempty not_null = (
    parse_plain slot hi lo pin ∙ keep_plain pin nonempty not_null,
    parse_plain slot hi lo [],
    parse_plain slot hi lo (codes "NULL") ∙ rw (strcmp_eq_refl (codes "NULL")) refl,
  )

  read_refused :
      (arg spwd : Bytes) → starts_with (codes "pass") spwd ≡ false → read_password s arg spwd ≡ none
  unfolding read_password
  read_refused arg spwd e = ground (
    arith,
    starts_with_front (codes "pass") (codes "file=") spwd e,
    starts_with_front (codes "pass") (codes "env=") spwd e,
    starts_with_front (codes "pass") (codes "dev=") spwd e,
    starts_with_front (codes "pass") (codes "word=") spwd e,
    starts_with_front (codes "pass") (codes "dll=") spwd e,
  )

  -- A password portion that does not begin with "pass" is refused, also where it is not
  -- empty and luna_parse_session_desc would take the whole of it as the password.
  pub luna_parse_password-refused :
      (slot hi lo : ℕ) (spwd : Bytes)
      → starts_with (codes "pass") spwd ≡ false
      → luna_parse_password s (desc_string slot hi lo spwd) ≡ none
  luna_parse_password-refused slot hi lo spwd e =
      parse_desc_string slot hi lo spwd ∙ read_refused (desc_string slot hi lo spwd) spwd e

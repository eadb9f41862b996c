-- ===== src/Engine/Slotid/Parsing.antt =====
-- luna_parse_session_desc and luna_parse_slotid2 (Engine/Slotid.antt) on the strings that they are
-- written for, and on labels in quotes.
use luna_openssl_provider.Prelude.{
  ℕ, zero, suc, get_elem?, ◌^◌, ◌<◌, ◌≡◌, ◌≢◌, refl, strcmp_eq_refl, strcmp_eq_other,
  length_nonempty, codes, true, false, Option, none, some, [], ◌∷◌, ◌++◌, Bytes, arith, pos,
  split_at, starts_with,
}
use luna_openssl_provider.Cryptoki.{Cryptoki}
use luna_openssl_provider.Engine.Slotid.{
  luna_isspace, skip_space, is_quote, quoted, label, number, cut_slot, luna_parse_slotid2,
  SessionDesc, to_ulong, desc_password, desc_ids, luna_label_to_slotid, luna_parse_session_desc,
}
use luna_openssl_provider.Engine.Slotid.Decimal.{
  decimal, atoi-decimal, decimal-Without, decimal_unquoted, Without, cut_at-Without,
}

-- "slotid:appidhi:appidlo:password" in decimal.
abbrev pub desc_string : ℕ → ℕ → ℕ → Bytes → Bytes
desc_string slot hi lo password =
    decimal slot ++ b':' ∷ (decimal hi ++ b':' ∷ (decimal lo ++ b':' ∷ password))

-- A label in quotes, then the rest of the string.
abbrev pub quoted_string : ℕ → Bytes → Bytes → Bytes
quoted_string q name rest = q ∷ (name ++ q ∷ b':' ∷ rest)

pub cut_slot-decimal :
    (n : ℕ) (rest : Bytes) → cut_slot (decimal n ++ b':' ∷ rest) ≡ some (number (decimal n) rest)
unfolding cut_slot
cut_slot-decimal n rest =
    let plain = decimal_unquoted n rest in
    ground (arith, plain.0, plain.1, cut_at-Without b':' (decimal n) rest (decimal-Without n))

split_at-Without :
    (q : ℕ) (name rest : Bytes)
    → Without q name
    → split_at (q ∷ b':' ∷ []) (name ++ q ∷ b':' ∷ rest) ≡ some (name, q ∷ b':' ∷ rest)
unfolding split_at starts_with Without
split_at-Without q [] rest w = ground arith
split_at-Without q (x ∷ xs) rest (ne, w) = ground (arith, split_at-Without q xs rest w)

-- The six quotes.
abbrev pub quotes : Bytes
quotes = b'"' ∷ codes "@#%^~"

quotes-is_quote : (i : ℕ) {q : ℕ} → get_elem? quotes i ≡ some q → is_quote q ≡ true
unfolding is_quote
quotes-is_quote zero e = ground (arith, e)
quotes-is_quote (suc zero) e = ground (arith, e)
quotes-is_quote (suc (suc zero)) e = ground (arith, e)
quotes-is_quote (suc (suc (suc zero))) e = ground (arith, e)
quotes-is_quote (suc (suc (suc (suc zero)))) e = ground (arith, e)
quotes-is_quote (suc (suc (suc (suc (suc zero))))) e = ground (arith, e)
quotes-is_quote (suc (suc (suc (suc (suc (suc i)))))) e = absurd (ground (arith, e))

quote_not_space : (q : ℕ) → is_quote q ≡ true → luna_isspace q ≡ false
unfolding is_quote luna_isspace
quote_not_space q e = ground arith

cut_slot-quoted :
    (q : ℕ) (name rest : Bytes)
    → is_quote q ≡ true
    → Without q name
    → cut_slot (quoted_string q name rest) ≡ some (label name rest)
unfolding cut_slot skip_space quoted
cut_slot-quoted q name rest e w =
    ground (arith, quote_not_space q e, e, split_at-Without q name rest w)

module _ (c : Cryptoki) where
  parse_desc_string :
      (slot hi lo : ℕ) (password : Bytes) (t : c.Token)
      → slot < 2 ^ 31
      → luna_parse_session_desc c (desc_string slot hi lo password) t
        ≡ some (record {
          slot = slot;
          app_id_hi = pos hi;
          app_id_low = pos lo;
          password = desc_password c password;
        })
  unfolding luna_parse_session_desc to_ulong
  parse_desc_string slot hi lo password t _ = ground (
    arith,
    cut_slot-decimal slot (decimal hi ++ b':' ∷ (decimal lo ++ b':' ∷ password)),
    cut_at-Without b':' (decimal hi) (decimal lo ++ b':' ∷ password) (decimal-Without hi),
    cut_at-Without b':' (decimal lo) password (decimal-Without lo),
    atoi-decimal slot,
    atoi-decimal hi,
    atoi-decimal lo,
  )

  desc_password_plain :
      (password : Bytes)
      → password ≢ []
      → password ≢ codes "NULL"
      → desc_password c password ≡ some password
  desc_password_plain password nonempty not_null =
      let other = strcmp_eq_other password (codes "NULL") not_null in
      ground (arith, other, length_nonempty password nonempty)

  -- A slot, two application ids and a password, printed in decimal with ':' between them and parsed
  -- again, come back, where the numbers fit in an `int` and the password is neither empty nor "NULL".
  -- With an empty password, and with "NULL", the numbers come back and no password is set.
  pub luna_parse_session_desc-desc_string :
      (slot hi lo : ℕ) (password : Bytes) (t : c.Token)
      → slot < 2 ^ 31
      → hi < 2 ^ 31
      → lo < 2 ^ 31
      → password ≢ []
      → password ≢ codes "NULL"
      → let parse = λ (s : Bytes). luna_parse_session_desc c (desc_string slot hi lo s) t in
        let desc : Option Bytes → SessionDesc =
          λ s. record { slot = slot; app_id_hi = pos hi; app_id_low = pos lo; password = s } in
        (parse password ≡ some (desc (some password)))
        × (parse [] ≡ some (desc none))
        × (parse (codes "NULL") ≡ some (desc none))
  luna_parse_session_desc-desc_string slot hi lo password t in_int _ _ nonempty not_null = (
    rw (parse_desc_string slot hi lo password t in_int)
        (rw (desc_password_plain password nonempty not_null) refl),
    parse_desc_string slot hi lo [] t in_int,
    rw (parse_desc_string slot hi lo (codes "NULL") t in_int)
        (rw (strcmp_eq_refl (codes "NULL")) refl),
  )

  -- A quoted label is cut out whole by luna_parse_slotid2, for each of the six quotes, if the quote
  -- does not occur in it; and luna_parse_session_desc takes the slot that has this label.
  pub luna_parse_slotid2-quoted_string :
      (i : ℕ) {q : ℕ} (name rest : Bytes) (t : c.Token)
      → get_elem? quotes i ≡ some q
      → Without q name
      → (luna_parse_slotid2 (quoted_string q name rest) ≡ some (name, true))
        × (luna_parse_session_desc c (quoted_string q name rest) t
            ≡ (elim (luna_label_to_slotid c name t) [
              | none ↦ none
              | some slot ↦ desc_ids c slot rest
            ]))
  unfolding luna_parse_slotid2 luna_parse_session_desc
  luna_parse_slotid2-quoted_string i {q} name rest t e w =
      ground (arith, cut_slot-quoted q name rest (quotes-is_quote i e) w)

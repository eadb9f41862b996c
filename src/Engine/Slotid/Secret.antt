-- ===== src/Engine/Slotid/Secret.antt =====
-- luna_parse_password of engine/e_gem.c: where the PIN of a slot string comes from. The files, the
-- environment, the console and the library of a pass phrase are arguments: what luna_gets_passfile,
-- getenv, luna_gets_passphrase and luna_gets_passdll answer, with `none` for a failure. The
-- argument is a string, never NULL.
use luna_openssl_provider.Prelude.{
  ◌||◌, Option, none, some, Bytes, codes, length, drop, strcmp_eq, starts_with, cut_at, ltb, ◌==◌,
  if◌then◌else◌,
}
use luna_openssl_provider.Engine.Slotid.{label, number, cut_slot}

pub record Sources : Type 0 where
  pub passfile : Bytes → Option Bytes
  pub getenv : Bytes → Option Bytes
  pub passphrase : Bytes → Option Bytes
  pub passdll : Bytes → Bytes → Option Bytes

-- "NULL" and an empty string set no password; the return value 1 with `*password`.
abbrev pub keep : Bytes → Option (Option Bytes)
keep buf = if length buf == 0 || strcmp_eq buf (codes "NULL") then some none else some (some buf)

-- A source that must give at least 4 bytes.
abbrev pub keep_long : Option Bytes → Option (Option Bytes)
keep_long none = none
keep_long (some buf) = if ltb (length buf) 4 then none else keep buf

abbrev pub keep_any : Option Bytes → Option (Option Bytes)
keep_any none = none
keep_any (some buf) = keep buf

module _ (s : Sources) where
  -- The chain on the prefix of the password portion.
  unfoldable pub read_password : Bytes → Bytes → Option (Option Bytes)
  read_password arg spwd =
      if starts_with (codes "passfile=") spwd
      then keep_long (s.passfile (drop 9 spwd))
      else if starts_with (codes "passenv=") spwd
      then keep_any (s.getenv (drop 8 spwd))
      else if starts_with (codes "passdev=") spwd
      then if starts_with (codes "passdev=console") spwd then keep_long (s.passphrase arg) else none
      else if starts_with (codes "password=") spwd
      then keep (drop 9 spwd)
      else if starts_with (codes "passdll=") spwd
      then keep_long (s.passdll arg (drop 8 spwd))
      else none

  -- What follows the slot: the application ids, and the password portion if there is one.
  unfoldable pub after_slot : Bytes → Bytes → Option (Option Bytes)
  after_slot arg hi = elim (cut_at b':' hi) [
    | none ↦ none
    | some (_, lo) ↦ elim (cut_at b':' lo) [
      | none ↦ some none
      | some (_, spwd) ↦ read_password arg spwd
    ]
  ]

  -- `none` is the return value 0; `some` holds what `*password` was set to, if it was.
  unfoldable pub luna_parse_password : Bytes → Option (Option Bytes)
  luna_parse_password arg = elim (cut_slot arg) [
    | none ↦ none
    | some (label _ hi) ↦ after_slot arg hi
    | some (number _ hi) ↦ after_slot arg hi
  ]

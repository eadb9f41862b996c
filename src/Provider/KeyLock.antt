-- ===== src/Provider/KeyLock.antt =====
-- The read/write lock of a key context in lunaProvider/lunaCommon.c: LUNA_OQS_WRITEKEY_LOCK,
-- LUNA_OQS_WRITEKEY_UNLOCK, LUNA_OQS_READKEY_NDX_LOCK and LUNA_OQS_READKEY_UNLOCK. What a thread does
-- while it holds the mutex `mu` is one step; a thread that finds the lock taken leaves the mutex,
-- sleeps, and tries again in a later step. The counters are `int`s: with fewer than 2^31 threads they
-- do not overflow.
pub mod Counts
pub mod Exclusion
pub mod Ranks
pub mod Progress
pub mod Fairness
use luna_openssl_provider.Prelude.{
  ℕ, ◌+◌, ◌-◌, Bool, not, ◌||◌, Option, none, some, List, [], ◌∷◌, get_elem?, set, replicate, ◌==◌,
  if◌then◌else◌,
}

-- luna_prov_key_reason
pub data Reason : Type 0 where
  reason_zero : Reason
  gen : Reason
  set_params : Reason
  from_data : Reason
  from_encoding : Reason
  create : Reason

pub record Lock : Type 0 where
  pub readers : ℕ
  pub writers : ℕ
  pub want_writers : ℕ
  pub reason : Reason

-- One look at the lock: go to sleep, or get it; or a LUNA_ASSERT ends the process.
pub data Attempt : Type 0 where
  sleeps : Attempt
  got : Lock → Attempt
  aborts : Attempt

abbrev pub luna_oqs_writekey : Lock → Reason → Lock
luna_oqs_writekey l reason = record l { reason = reason }

unfoldable pub write_attempt : Reason → Lock → Attempt
write_attempt reason l =
    let l1 = record l { writers = l.writers + 1; want_writers = l.want_writers - 1 } in
    if not (l.writers == 0) || not (l.readers == 0)
    then sleeps
    else if not (l1.writers == 1) || not (l1.readers == 0)
    then aborts
    else got (luna_oqs_writekey l1 reason)

unfoldable pub read_attempt : Lock → Attempt
read_attempt l =
    let l1 = record l { readers = l.readers + 1 } in
    if not (l.writers == 0) || not (l.want_writers == 0)
    then sleeps
    else if not (l1.writers == 0) || not (l1.want_writers == 0)
    then aborts
    else got l1

abbrev pub want_write : Lock → Lock
want_write l = record l { want_writers = l.want_writers + 1 }

abbrev pub luna_oqs_writekey_unlock : Lock → Lock
luna_oqs_writekey_unlock l = record l { writers = l.writers - 1 }

abbrev pub luna_oqs_readkey_unlock : Lock → Lock
luna_oqs_readkey_unlock l = record l { readers = l.readers - 1 }

-- Where a thread stands: outside, asleep in the loop of one of the two lock functions, or between a
-- lock and its unlock.
pub data Pc : Type 0 where
  idle : Pc
  wanting : Reason → Pc
  writing : Pc
  waiting : Pc
  reading : Pc

pub data Event : Type 0 where
  lock_write : Reason → Event
  lock_read : Event
  wake : Event
  unlock : Event

-- The thread's new place, by an attempt on the lock `l`.
unfoldable pub after_attempt : Lock → Pc → Pc → Attempt → Option (Lock × Pc)
after_attempt l asleep inside sleeps = some (l, asleep)
after_attempt l asleep inside (got l') = some (l', inside)
after_attempt l asleep inside aborts = none

-- One step of a thread; an event that does not fit its place changes nothing. `none` is the end of
-- the process by an assertion.
unfoldable pub turn : Event → Pc → Lock → Option (Lock × Pc)
turn (lock_write r) idle l =
    after_attempt (want_write l) (wanting r) writing (write_attempt r (want_write l))
turn lock_read idle l = after_attempt l waiting reading (read_attempt l)
turn wake (wanting r) l = after_attempt l (wanting r) writing (write_attempt r l)
turn wake waiting l = after_attempt l waiting reading (read_attempt l)
turn unlock writing l = some (luna_oqs_writekey_unlock l, idle)
turn unlock reading l = some (luna_oqs_readkey_unlock l, idle)
turn e p l = some (l, p)

pub record System : Type 0 where
  pub lock : Lock
  pub pcs : List Pc

unfoldable pub step : ℕ → Event → System → Option System
step i e s = elim (get_elem? s.pcs i) [
  | none ↦ some s
  | some p ↦ elim (turn e p s.lock) [
    | none ↦ none
    | some (l, p') ↦ some (record { lock = l; pcs = set s.pcs i p' })
  ]
]

-- The threads take steps in any order.
unfoldable pub run : List (ℕ × Event) → System → Option System
run [] s = some s
run ((i, e) ∷ later) s = elim (step i e s) [ none ↦ none | some s' ↦ run later s' ]

-- LUNA_OQS_malloc_from_any, and `n` threads.
abbrev pub start : ℕ → System
start n = record {
  lock = record { readers = 0; writers = 0; want_writers = 0; reason = reason_zero };
  pcs = replicate n idle;
}

-- ===== src/Provider/KeyLock/Counts.antt =====
-- The counters of the lock (Provider/KeyLock.antt) count the threads.
use luna_openssl_provider.Prelude.{
  ℕ, zero, suc, ◌+◌, ◌≤◌, ◌≡◌, ◌≢◌, ◌⊎◌, refl, none, some, List, [], ◌∷◌, get_elem?, set, replicate,
  arith,
}
use luna_openssl_provider.Provider.KeyLock.{
  Lock, write_attempt, read_attempt, Pc, idle, wanting, writing, waiting, reading, Event,
  lock_write, lock_read, wake, unlock, after_attempt, turn,
}

abbrev pub is_reading : Pc → ℕ
is_reading idle = 0
is_reading (wanting r) = 0
is_reading writing = 0
is_reading waiting = 0
is_reading reading = 1

abbrev pub is_writing : Pc → ℕ
is_writing idle = 0
is_writing (wanting r) = 0
is_writing writing = 1
is_writing waiting = 0
is_writing reading = 0

abbrev pub is_wanting : Pc → ℕ
is_wanting idle = 0
is_wanting (wanting r) = 1
is_wanting writing = 0
is_wanting waiting = 0
is_wanting reading = 0

module _ (w : Pc → ℕ) where
  unfoldable pub total : List Pc → ℕ
  total [] = 0
  total (p ∷ ps) = w p + total ps

  pub total-set :
      (ps : List Pc) (i : ℕ) (p q : Pc)
      → get_elem? ps i ≡ some p
      → total (set ps i q) + w p ≡ total ps + w q
  unfolding total
  total-set [] i p q e = absurd (ground (arith, e))
  total-set (x ∷ ps) zero p q e = ground (arith, e)
  total-set (x ∷ ps) (suc i) p q e = omega (arith, total-set ps i p q e)

  pub le-total : (ps : List Pc) (i : ℕ) (p : Pc) → get_elem? ps i ≡ some p → w p ≤ total ps
  unfolding total
  le-total [] i p e = absurd (ground (arith, e))
  le-total (x ∷ ps) zero p e = ground (arith, e)
  le-total (x ∷ ps) (suc i) p e = omega (arith, le-total ps i p e)

  pub two-le-total :
      (ps : List Pc) (i j : ℕ) (p q : Pc)
      → i ≢ j
      → get_elem? ps i ≡ some p
      → get_elem? ps j ≡ some q
      → w p + w q ≤ total ps
  unfolding total
  two-le-total [] i j p q ne e f = absurd (ground (arith, e))
  two-le-total (x ∷ ps) zero zero p q ne e f = absurd (ne refl)
  two-le-total (x ∷ ps) zero (suc j) p q ne e f = ground (arith, e, le-total ps j q f)
  two-le-total (x ∷ ps) (suc i) zero p q ne e f = ground (arith, f, le-total ps i p e)
  two-le-total (x ∷ ps) (suc i) (suc j) p q ne e f =
      omega (arith, two-le-total ps i j p q (λ h. ne (omega arith)) e f)

  pub total-replicate : (n : ℕ) → w idle ≡ 0 → total (replicate n idle) ≡ 0
  unfolding total
  total-replicate zero e = refl
  total-replicate (suc n) e = omega (arith, total-replicate n e)

-- A writer is alone.
abbrev pub Exclusive : Lock → Type 0
Exclusive l = (l.writers ≤ 1) × ((l.writers ≡ 0) ⊎ (l.readers ≡ 0))

-- What a step of a thread at `p` to `p'` makes of the lock.
pub record Counted (p : Pc) (l : Lock) (p' : Pc) (l' : Lock) : Type 0 where
  pub readers_kept : l'.readers + is_reading p ≡ l.readers + is_reading p'
  pub writers_kept : l'.writers + is_writing p ≡ l.writers + is_writing p'
  pub want_kept : l'.want_writers + is_wanting p ≡ l.want_writers + is_wanting p'
  pub one_writer : l'.writers ≤ 1
  pub apart : (l'.writers ≡ 0) ⊎ (l'.readers ≡ 0)

module _ (l : Lock) (one : l.writers ≤ 1) (apart : (l.writers ≡ 0) ⊎ (l.readers ≡ 0)) where
  pub turn-ne-none : (e : Event) (p : Pc) → turn e p l ≢ none
  unfolding turn after_attempt write_attempt read_attempt
  turn-ne-none (lock_write r) idle h = ground (arith, h)
  turn-ne-none lock_read idle h = ground (arith, h)
  turn-ne-none wake (wanting r) h = ground (arith, h)
  turn-ne-none wake waiting h = ground (arith, h)
  turn-ne-none unlock writing h = cc
  turn-ne-none unlock reading h = cc
  turn-ne-none e p h = cc

  pub turn-Counted :
      (e : Event) (p : Pc) {l' : Lock} {p' : Pc}
      → is_reading p ≤ l.readers
      → is_writing p ≤ l.writers
      → is_wanting p ≤ l.want_writers
      → turn e p l ≡ some (l', p')
      → Counted p l p' l'
  unfolding turn after_attempt write_attempt read_attempt
  turn-Counted (lock_write r) idle hr hw hv h = ground (arith, h)
  turn-Counted lock_read idle hr hw hv h = ground (arith, h)
  turn-Counted wake (wanting r) hr hw hv h = ground (arith, h)
  turn-Counted wake waiting hr hw hv h = ground (arith, h)
  turn-Counted unlock writing hr hw hv h = ground (arith, h)
  turn-Counted unlock reading hr hw hv h = ground (arith, h)
  turn-Counted e p hr hw hv h = ground (arith, h)

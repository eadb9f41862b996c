-- ===== src/Provider/KeyLock/Ranks.antt =====
-- How many steps each thread still has to take on the lock of a key context, and which thread
-- takes the next.
use luna_openssl_provider.Prelude.{
  ℕ, suc, ◌+◌, ◌*◌, ◌≤◌, ◌≡◌, inl, inr, refl, Bool-cases, some, List, [], ◌∷◌, ◌==◌, get_elem?,
  arith,
}
use luna_openssl_provider.Provider.KeyLock.{Reason, Pc, idle, wanting, writing, waiting, reading}
use luna_openssl_provider.Provider.KeyLock.Counts.{is_reading, is_writing, is_wanting, total}

-- The steps that a thread still has to take.
abbrev pub rank : Pc → ℕ
rank idle = 0
rank (wanting r) = 2
rank writing = 1
rank waiting = 2
rank reading = 1

abbrev pub is_waiting : Pc → ℕ
is_waiting idle = 0
is_waiting (wanting r) = 0
is_waiting writing = 0
is_waiting waiting = 1
is_waiting reading = 0

rank_parts : (p : Pc) → rank p ≡ 2 * is_wanting p + 2 * is_waiting p + is_writing p + is_reading p
rank_parts idle = refl
rank_parts (wanting r) = refl
rank_parts writing = refl
rank_parts waiting = refl
rank_parts reading = refl

pub total_parts :
    (ps : List Pc)
    → total rank ps
      ≡ 2 * total is_wanting ps
        + 2 * total is_waiting ps
        + total is_writing ps
        + total is_reading ps
unfolding total
total_parts [] = refl
total_parts (p ∷ ps) = omega (arith, rank_parts p, total_parts ps)

pub total_find :
    (w : Pc → ℕ) (ps : List Pc)
    → 1 ≤ total w ps
    → (i : ℕ) × (p : Pc) × (get_elem? ps i ≡ some p) × (1 ≤ w p)
unfolding total
total_find w [] h = absurd (omega arith)
total_find w (p ∷ ps) h = elim (Bool-cases (w p == 0)) [
  | inl no_ ↦
      let (i, q, here, pos_) = total_find w ps (ground (arith, no_, h)) in (suc i, q, here, pos_)
  | inr yes_ ↦ (0, p, refl, ground (arith, yes_))
]

pub must_write : (p : Pc) → 1 ≤ is_writing p → p ≡ writing
must_write writing h = refl
must_write idle h = absurd (omega arith)
must_write (wanting r) h = absurd (omega arith)
must_write waiting h = absurd (omega arith)
must_write reading h = absurd (omega arith)

pub must_read : (p : Pc) → 1 ≤ is_reading p → p ≡ reading
must_read reading h = refl
must_read idle h = absurd (omega arith)
must_read (wanting r) h = absurd (omega arith)
must_read waiting h = absurd (omega arith)
must_read writing h = absurd (omega arith)

pub must_wait : (p : Pc) → 1 ≤ is_waiting p → p ≡ waiting
must_wait waiting h = refl
must_wait idle h = absurd (omega arith)
must_wait (wanting r) h = absurd (omega arith)
must_wait reading h = absurd (omega arith)
must_wait writing h = absurd (omega arith)

pub must_want : (p : Pc) → 1 ≤ is_wanting p → (r : Reason) × (p ≡ wanting r)
must_want (wanting r) h = (r, refl)
must_want idle h = absurd (omega arith)
must_want waiting h = absurd (omega arith)
must_want reading h = absurd (omega arith)
must_want writing h = absurd (omega arith)

pub rank_idle : (p : Pc) → rank p ≡ 0 → p ≡ idle
rank_idle idle h = refl
rank_idle (wanting r) h = absurd (omega arith)
rank_idle waiting h = absurd (omega arith)
rank_idle reading h = absurd (omega arith)
rank_idle writing h = absurd (omega arith)

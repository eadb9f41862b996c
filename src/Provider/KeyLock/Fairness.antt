-- ===== src/Provider/KeyLock/Fairness.antt =====
-- Readers do not overtake a waiting writer (Provider/KeyLock.antt).
use luna_openssl_provider.Prelude.{
  ℕ, ◌≤◌, ◌≡◌, inl, inr, some, List, get_elem?, set, arith, subst, Option-cases,
}
use luna_openssl_provider.Provider.KeyLock.{
  Reason, Lock, Pc, idle, wanting, writing, waiting, reading, Event, lock_write, lock_read, wake,
  unlock, turn, System, step, run, start, after_attempt, write_attempt, read_attempt,
}
use luna_openssl_provider.Provider.KeyLock.Counts.{is_reading, is_wanting, total, le-total}
use luna_openssl_provider.Provider.KeyLock.Exclusion.{Inv, start-Inv, step_here, run-Inv}

turn_no_reader :
    (l : Lock) (e : Event) (p : Pc) {l' : Lock} {p' : Pc}
    → 1 ≤ l.want_writers
    → turn e p l ≡ some (l', p')
    → l'.readers ≤ l.readers
unfolding turn after_attempt write_attempt read_attempt
turn_no_reader l (lock_write r) idle v h = ground (arith, h)
turn_no_reader l lock_read idle v h = ground (arith, h)
turn_no_reader l wake (wanting r) v h = ground (arith, h)
turn_no_reader l wake waiting v h = ground (arith, h)
turn_no_reader l unlock writing v h = ground (arith, h)
turn_no_reader l unlock reading v h = ground (arith, h)
turn_no_reader l e p v h = ground (arith, h)

step_no_reader :
    {t : System} (j : ℕ) (e : Event)
    → Inv t
    → 1 ≤ t.lock.want_writers
    → (u : System) × (step j e t ≡ some u) × (u.lock.readers ≤ t.lock.readers) × Inv u
unfolding step
step_no_reader {t} j e inv v = elim (Option-cases (get_elem? t.pcs j)) [
  | inl gone ↦ (t, ground (arith, gone), omega arith, inv)
  | inr (p, here) ↦
      let (l', p', h, stepped, kept) = step_here inv j here e in
      (record { lock = l'; pcs = set t.pcs j p' }, stepped, turn_no_reader t.lock e p v h, kept)
]

-- In every state that `n` threads reach in which a thread waits for the lock for writing, each step of
-- each thread fails no assertion and leaves no more readers than there were.
pub run-writer_first :
    (n : ℕ) (events : List (ℕ × Event)) {t : System} (i j : ℕ) (e : Event) {r : Reason}
    → run events (start n) ≡ some t
    → get_elem? t.pcs i ≡ some (wanting r)
    → (u : System) × (step j e t ≡ some u) × (total is_reading u.pcs ≤ total is_reading t.pcs)
run-writer_first n events {t = t} i j e ran here =
    let (t', ran', inv') = run-Inv events (start-Inv n) in
    let same : t' ≡ t = ground (arith, ran, ran') in
    let inv = subst Inv same inv' in
    let wanted = le-total is_wanting t.pcs i (wanting _) here in
    let (u, stepped, fewer, kept) = step_no_reader j e inv (omega (arith, inv.want_count)) in
    (u, stepped, omega (arith, inv.readers_count, kept.readers_count))

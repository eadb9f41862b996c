-- ===== src/Provider/KeyLock/Exclusion.antt =====
-- The lock of a key context (Provider/KeyLock.antt) under every schedule.
use luna_openssl_provider.Prelude.{
  ℕ, ◌≤◌, ◌≡◌, ◌≢◌, ◌⊎◌, inl, inr, refl, some, List, [], ◌∷◌, get_elem?, set, arith, Option-cases,
}
use luna_openssl_provider.Provider.KeyLock.{
  Lock, Pc, writing, reading, Event, turn, System, step, run, start,
}
use luna_openssl_provider.Provider.KeyLock.Counts.{
  is_reading, is_writing, is_wanting, total, total-set, le-total, two-le-total, total-replicate,
  Counted, turn-ne-none, turn-Counted,
}

-- The counters count the threads, and a writer is alone.
pub record Inv (s : System) : Type 0 where
  pub readers_count : s.lock.readers ≡ total is_reading s.pcs
  pub writers_count : s.lock.writers ≡ total is_writing s.pcs
  pub want_count : s.lock.want_writers ≡ total is_wanting s.pcs
  pub one_writer : s.lock.writers ≤ 1
  pub apart : (s.lock.writers ≡ 0) ⊎ (s.lock.readers ≡ 0)

pub start-Inv : (n : ℕ) → Inv (start n)
start-Inv n = record {
  readers_count = omega (arith, total-replicate is_reading n refl);
  writers_count = omega (arith, total-replicate is_writing n refl);
  want_count = omega (arith, total-replicate is_wanting n refl);
  one_writer = omega arith;
  apart = inl refl;
}

module _ {s : System} (inv : Inv s) (i : ℕ) {p : Pc} (here : get_elem? s.pcs i ≡ some p) where
  pub turn-Counted_here :
      (e : Event) {l' : Lock} {p' : Pc} → turn e p s.lock ≡ some (l', p') → Counted p s.lock p' l'
  turn-Counted_here e h =
      turn-Counted s.lock inv.one_writer inv.apart e p
        (omega (arith, le-total is_reading s.pcs i p here, inv.readers_count))
        (omega (arith, le-total is_writing s.pcs i p here, inv.writers_count))
        (omega (arith, le-total is_wanting s.pcs i p here, inv.want_count)) h

  pub Counted-Inv :
      {l' : Lock} {p' : Pc}
      → Counted p s.lock p' l'
      → Inv (record { lock = l'; pcs = set s.pcs i p' })
  Counted-Inv {p' = p'} c = record {
    readers_count =
        omega (arith, c.readers_kept, inv.readers_count, total-set is_reading s.pcs i p p' here);
    writers_count =
        omega (arith, c.writers_kept, inv.writers_count, total-set is_writing s.pcs i p p' here);
    want_count = omega (arith, c.want_kept, inv.want_count, total-set is_wanting s.pcs i p p' here);
    one_writer = c.one_writer;
    apart = c.apart;
  }

  -- A thread's step, taken apart.
  pub step_here :
      (e : Event)
      → (l' : Lock) × (p' : Pc) × (turn e p s.lock ≡ some (l', p'))
        × (step i e s ≡ some (record { lock = l'; pcs = set s.pcs i p' }))
        × Inv (record { lock = l'; pcs = set s.pcs i p' })
  unfolding step
  step_here e = elim (Option-cases (turn e p s.lock)) [
    | inl h ↦ absurd (turn-ne-none s.lock inv.one_writer inv.apart e p h)
    | inr ((l', p'), h) ↦ (l', p', h, ground (arith, here, h), Counted-Inv (turn-Counted_here e h))
  ]

pub step-Inv :
    {s : System} → Inv s → (i : ℕ) (e : Event) → (t : System) × (step i e s ≡ some t) × Inv t
unfolding step
step-Inv {s} inv i e = elim (Option-cases (get_elem? s.pcs i)) [
  | inl gone ↦ (s, ground (arith, gone), inv)
  | inr (p, here) ↦
      let (l', p', _, stepped, kept) = step_here inv i here e in
      (record { lock = l'; pcs = set s.pcs i p' }, stepped, kept)
]

pub run-Inv :
    (events : List (ℕ × Event)) {s : System}
    → Inv s
    → (t : System) × (run events s ≡ some t) × Inv t
unfolding run
run-Inv [] {s} inv = (s, refl, inv)
run-Inv ((i, e) ∷ later) inv =
    let (s', stepped, kept) = step-Inv inv i e in
    let (t, ran, kept') = run-Inv later kept in (t, ground (arith, stepped, ran), kept')

-- Whatever steps `n` threads take, in any order: no assertion of the lock fails, and in the state that
-- they reach a thread that has the lock for writing is alone with it: no other thread has it, neither
-- for writing nor for reading.
pub run-alone :
    (n : ℕ) (events : List (ℕ × Event))
    → (t : System) × (run events (start n) ≡ some t)
      × ((i j : ℕ)
          → get_elem? t.pcs i ≡ some writing
          → i ≢ j
          → (get_elem? t.pcs j ≢ some writing) × (get_elem? t.pcs j ≢ some reading))
run-alone n events =
    let (t, ran, inv) = run-Inv events (start-Inv n) in
    (
      t,
      ran,
      λ i j here ne. (
        λ there. omega (
          arith,
          two-le-total is_writing t.pcs i j writing writing ne here there,
          inv.writers_count,
          inv.one_writer,
        ),
        λ there. ground (
          arith,
          le-total is_writing t.pcs i writing here,
          le-total is_reading t.pcs j reading there,
          inv.writers_count,
          inv.readers_count,
          inv.apart,
        ),
      ),
    )

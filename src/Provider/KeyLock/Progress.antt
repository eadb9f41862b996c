-- ===== src/Provider/KeyLock/Progress.antt =====
-- No thread waits for ever for the lock of a key context (Provider/KeyLock.antt).
use luna_openssl_provider.Prelude.{
  ℕ, zero, suc, ◌+◌, ◌-◌, ◌<◌, ◌≤◌, ◌≡◌, ◌⊎◌, inl, inr, refl, Bool-cases, some, List, [], ◌∷◌, ◌==◌,
  get_elem?, set, arith,
}
use luna_openssl_provider.Provider.KeyLock.{
  Reason, Lock, Pc, idle, wanting, writing, waiting, reading, Event, wake, unlock, turn, System,
  step, run, start, after_attempt, write_attempt, read_attempt,
}
use luna_openssl_provider.Provider.KeyLock.Counts.{
  is_reading, is_writing, is_wanting, total, total-set, le-total,
}
use luna_openssl_provider.Provider.KeyLock.Exclusion.{Inv, start-Inv, step_here, run-Inv}
use luna_openssl_provider.Provider.KeyLock.Ranks.{
  rank, is_waiting, total_parts, total_find, must_write, must_read, must_wait, must_want, rank_idle,
}

-- A step that brings the end nearer, and asks for no lock.
abbrev Nearer : System → Type 0
Nearer s =
    (i : ℕ) × (e : Event) × (t : System) × ((e ≡ wake) ⊎ (e ≡ unlock))
    × (step i e s ≡ some t)
    × Inv t
    × (total rank t.pcs < total rank s.pcs)

write_free :
    (r : Reason) (l : Lock)
    → l.writers ≡ 0
    → l.readers ≡ 0
    → (l' : Lock) × (turn wake (wanting r) l ≡ some (l', writing))
unfolding turn after_attempt write_attempt
write_free r l w h = (
  record l { writers = l.writers + 1; want_writers = l.want_writers - 1; reason = r },
  ground arith,
)

read_free :
    (l : Lock)
    → l.writers ≡ 0
    → l.want_writers ≡ 0
    → (l' : Lock) × (turn wake waiting l ≡ some (l', reading))
unfolding turn after_attempt read_attempt
read_free l w h = (record l { readers = l.readers + 1 }, ground arith)

module _ {s : System} (inv : Inv s) where
  near_by_turn :
      (i : ℕ) (e : Event) {p p' : Pc} {l' : Lock}
      → (e ≡ wake) ⊎ (e ≡ unlock)
      → get_elem? s.pcs i ≡ some p
      → turn e p s.lock ≡ some (l', p')
      → rank p' < rank p
      → Nearer s
  near_by_turn i e {p} {p'} {l'} ev here h less =
      let (l2, p2, h2, stepped, kept) = step_here inv i here e in
      let same : p2 ≡ p' = ground (arith, h, h2) in
      (
        i,
        e,
        record { lock = l2; pcs = set s.pcs i p2 },
        ev,
        stepped,
        kept,
        ground (arith, same, total-set rank s.pcs i p p2 here),
      )

  writer_done : 1 ≤ s.lock.writers → Nearer s
  unfolding turn
  writer_done h =
      let (i, p, here, one) = total_find is_writing s.pcs (omega (arith, inv.writers_count)) in
      near_by_turn i unlock {p = writing} (inr refl) (rw (← must_write p one) here) refl
        (omega arith)

  reader_done : 1 ≤ s.lock.readers → Nearer s
  unfolding turn
  reader_done h =
      let (i, p, here, one) = total_find is_reading s.pcs (omega (arith, inv.readers_count)) in
      near_by_turn i unlock {p = reading} (inr refl) (rw (← must_read p one) here) refl
        (omega arith)

  writer_in : s.lock.writers ≡ 0 → s.lock.readers ≡ 0 → 1 ≤ s.lock.want_writers → Nearer s
  writer_in w r h =
      let (i, p, here, one) = total_find is_wanting s.pcs (omega (arith, inv.want_count)) in
      let (reason, same) = must_want p one in
      let (l, e) = write_free reason s.lock w r in
      near_by_turn i wake (inl refl) (rw (← same) here) e (omega arith)

  reader_in : s.lock.writers ≡ 0 → s.lock.want_writers ≡ 0 → 1 ≤ total is_waiting s.pcs → Nearer s
  reader_in w v h =
      let (i, p, here, one) = total_find is_waiting s.pcs h in
      let (l, e) = read_free s.lock w v in
      near_by_turn i wake (inl refl) (rw (← must_wait p one) here) e (omega arith)

  nearer : 1 ≤ total rank s.pcs → Nearer s
  nearer h = elim (Bool-cases (s.lock.writers == 0)) [
    | inr busy ↦ writer_done (ground (arith, busy))
    | inl no_writer ↦ elim (Bool-cases (s.lock.readers == 0)) [
      | inr busy ↦ reader_done (ground (arith, busy))
      | inl no_reader ↦ elim (Bool-cases (s.lock.want_writers == 0)) [
        | inr wanted ↦
            writer_in (ground (arith, no_writer)) (ground (arith, no_reader))
              (ground (arith, wanted))
        | inl none_wanted ↦ reader_in (ground (arith, no_writer)) (ground (arith, none_wanted)) (
            ground (
              arith,
              h,
              no_writer,
              no_reader,
              none_wanted,
              total_parts s.pcs,
              inv.readers_count,
              inv.writers_count,
              inv.want_count,
            ))
      ]
    ]
  ]

-- Only the ends of sleeps and of critical sections.
abbrev pub AllRelease : List (ℕ × Event) → Type 0
AllRelease [] = Unit
AllRelease ((i, e) ∷ later) = ((e ≡ wake) ⊎ (e ≡ unlock)) × AllRelease later

finish :
    (k : ℕ) {s : System}
    → Inv s
    → total rank s.pcs ≤ k
    → (later : List (ℕ × Event)) × (u : System) × AllRelease later
      × (run later s ≡ some u)
      × (total rank u.pcs ≡ 0)
unfolding run
finish zero {s} inv h = ([], s, tt, refl, omega arith)
finish (suc k) {s} inv h = elim (Bool-cases (total rank s.pcs == 0)) [
  | inl done ↦ ([], s, tt, refl, ground (arith, done))
  | inr more ↦
      let (i, e, t, ev, stepped, kept, less) = nearer inv (ground (arith, more)) in
      let (later, u, all_, ran, ended) = finish k kept (omega arith) in
      ((i, e) ∷ later, u, (ev, all_), ground (arith, stepped, ran), ended)
]

-- Whatever `n` threads have done in whatever order, the lock is never stuck: there is a sequence of
-- steps, in which threads only end sleeps and critical sections and none asks for the lock anew, by
-- which every thread gets the lock that it waits for and leaves it.
pub run-finish :
    (n : ℕ) (events : List (ℕ × Event))
    → (t : System) × (later : List (ℕ × Event)) × (u : System) × (run events (start n) ≡ some t)
      × AllRelease later
      × (run later t ≡ some u)
      × ((i : ℕ) (p : Pc) → get_elem? u.pcs i ≡ some p → p ≡ idle)
run-finish n events =
    let (t, ran, inv) = run-Inv events (start-Inv n) in
    let (later, u, all_, ran', ended) = finish (total rank t.pcs) inv (omega arith) in
    (
      t,
      later,
      u,
      ran,
      all_,
      ran',
      λ i p here. rank_idle p (omega (arith, le-total rank u.pcs i p here)),
    )

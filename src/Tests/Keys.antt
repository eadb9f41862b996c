-- ===== src/Tests/Keys.antt =====
-- Examples on private key blobs (Provider/Blob) and on the lock of a key context (Provider/KeyLock).
use luna_openssl_provider.Prelude.{
  ℕ, zero, suc, ◌≤◌, ◌≡◌, ◌≢◌, refl, Option, some, List, [], ◌∷◌, Bytes, codes, length, replicate,
  length-replicate, get_elem?, arith,
}
use luna_openssl_provider.Provider.Base64.{IsBytes}
use luna_openssl_provider.Provider.Blob.{
  Attribute, Template, cka_label, cka_id, set_labels, luna_pqc_encode_template,
  luna_pqc_encode_template_v2, luna_pqc_decode_template, luna_pqc_fill_template,
  luna_pqc_encode_pad_ex, luna_encode_uint32, luna_prov_test_utf8_buffer, luna_prov_test_utf8,
  test_from, replace_zeros,
}
use luna_openssl_provider.Provider.Blob.RoundTrip.{GivesLength}
use luna_openssl_provider.Provider.Blob.Labels.{
  luna_pqc_decode_template-luna_pqc_encode_template, kept_labels,
}
use luna_openssl_provider.Provider.Blob.Encoding.{RandRules}
use luna_openssl_provider.Provider.Blob.Filling.{luna_pqc_fill_template-luna_pqc_decode_template}
use luna_openssl_provider.Provider.KeyLock.{
  Event, lock_write, lock_read, wake, unlock, reason_zero, set_params, idle, wanting, writing,
  reading, Pc, System, start, step, run, turn, after_attempt, read_attempt, write_attempt,
}
use luna_openssl_provider.Provider.KeyLock.Counts.{is_reading, total}
use luna_openssl_provider.Provider.KeyLock.Exclusion.{run-alone}
use luna_openssl_provider.Provider.KeyLock.Progress.{AllRelease, run-finish}
use luna_openssl_provider.Provider.KeyLock.Fairness.{run-writer_first}

abbrev pub sevens : ℕ → Bytes
sevens n = replicate n 7

abbrev pub give_sevens : ℕ → Option Bytes
give_sevens n = some (sevens n)

pub sevens-IsBytes : (n : ℕ) → IsBytes (sevens n)
unfolding IsBytes
sevens-IsBytes zero = tt
sevens-IsBytes (suc n) = (omega arith, sevens-IsBytes n)

abbrev pub sevens_work : RandRules give_sevens
sevens_work = record {
  answer = sevens;
  answers = λ n. refl;
  length_answer = λ n. length-replicate n 7;
  answer_IsBytes = sevens-IsBytes;
}

abbrev empty : ℕ → Attribute
empty t = record { attr_type = t; value = [] }

abbrev blank : Template
blank = record { label = empty cka_label; ident = empty cka_id }

abbrev named : Bytes → Template
named name = record { label = record { attr_type = cka_label; value = name }; ident = empty cka_id }

abbrev key_buffer : Bytes
key_buffer = replicate 40 0

luna_pqc_fill_template-luna_pqc_decode_template_example :
    (p : Template) × (q : Template) × (blob : Bytes) × (luna_pqc_fill_template give_sevens blank
        blank 40
      ≡ some (p, q))
    × (luna_pqc_encode_template give_sevens p q key_buffer ≡ some blob)
    × (luna_pqc_decode_template blank blank (some blob)
        ≡ set_labels blank blank p.label.value q.label.value)
luna_pqc_fill_template-luna_pqc_decode_template_example =
    luna_pqc_fill_template-luna_pqc_decode_template sevens_work blank blank refl blank blank
      key_buffer refl (omega arith) (omega arith)

abbrev written : Bytes
written = 0 ∷ 0 ∷ 0 ∷ 0 ∷ 0x80 ∷ 0xca ∷ 0xfe ∷ 0x82 ∷ b's' ∷ b'k' ∷ b'1' ∷ replicate 21 0

encoded :
    luna_pqc_encode_template give_sevens
      (named (codes "pk1"))
      (named (codes "sk1"))
      (replicate 32 0)
    ≡ some written
unfolding luna_pqc_encode_template luna_pqc_encode_template_v2 luna_pqc_encode_pad_ex
    luna_encode_uint32 luna_prov_test_utf8_buffer luna_prov_test_utf8 test_from replace_zeros
encoded = refl

pub sevens_give : GivesLength give_sevens
sevens_give n bytes e = let same : bytes ≡ sevens n = cc e in rw same (length-replicate {A = ℕ} n 7)

luna_pqc_decode_template-luna_pqc_encode_template_example :
    (length written ≡ 32)
    × (luna_pqc_decode_template blank blank (some written) ≡ (
        let (pub_label, priv_label) = kept_labels 32 (named (codes "pk1")) (named (codes "sk1")) in
        set_labels blank blank pub_label priv_label))
luna_pqc_decode_template-luna_pqc_encode_template_example =
    luna_pqc_decode_template-luna_pqc_encode_template give_sevens sevens_give (named (codes "pk1"))
      (named (codes "sk1")) blank blank refl (replicate 32 0) encoded

-- A reader, a writer who waits for it, and another writer.
abbrev contention : List (ℕ × Event)
contention =
    (0, lock_read)
    ∷ (1, lock_write set_params)
    ∷ (2, lock_write set_params)
    ∷ (0, unlock)
    ∷ (2, wake)
    ∷ []

run-alone_example :
    (t : System) × (run contention (start 3) ≡ some t)
    × ((i j : ℕ)
        → get_elem? t.pcs i ≡ some writing
        → i ≢ j
        → (get_elem? t.pcs j ≢ some writing) × (get_elem? t.pcs j ≢ some reading))
run-alone_example = run-alone 3 contention

run-finish_example :
    (t : System) × (later : List (ℕ × Event)) × (u : System) × (run contention (start 3) ≡ some t)
    × AllRelease later
    × (run later t ≡ some u)
    × ((i : ℕ) (p : Pc) → get_elem? u.pcs i ≡ some p → p ≡ idle)
run-finish_example = run-finish 3 contention

abbrev one_waits : System
one_waits = record {
  lock = record { readers = 1; writers = 0; want_writers = 1; reason = reason_zero };
  pcs = reading ∷ wanting set_params ∷ idle ∷ [];
}

reached : run ((0, lock_read) ∷ (1, lock_write set_params) ∷ []) (start 3) ≡ some one_waits
unfolding run step turn after_attempt read_attempt write_attempt
reached = refl

run-writer_first_example :
    (u : System) × (step 2 lock_read one_waits ≡ some u)
    × (total is_reading u.pcs ≤ total is_reading one_waits.pcs)
run-writer_first_example =
    run-writer_first 3 ((0, lock_read) ∷ (1, lock_write set_params) ∷ []) 1 2 lock_read reached refl

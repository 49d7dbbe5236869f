-- ===== src/Kernel/Streams/Checked.antt =====
-- What the loops of `append_many_in_transaction` over the streams of a batch do to the tables.
use blackcell.Prelude.{
  ℕ, suc, ◌-◌, ℤ, ◌≡◌, refl, ◌∙◌, inl, inr, String, false, none, List, [], ◌∷◌, arith, length, any,
  ok, ◌==◌, str_eq, eq_iff, Bool-cases, Outcome-cases,
}
use blackcell.Kernel.Ledger.{Database, sequence_row, current_sequence}
use blackcell.Kernel.Append.{Pair, group, expected_of, sequence_value, validate_batch_stream}
use blackcell.Kernel.Store.{open_stream, Checked, add_stream, check_stream}
use blackcell.Kernel.Streams.{range, declared}
use blackcell.Kernel.Streams.Batch.{declared-eq-range}

-- The tables of events are the same, and every stream has the sequence it had.
pub record Same (a b : Database) : Type 0 where
  pub events : b.kernel_events ≡ a.kernel_events
  pub position : b.last_position ≡ a.last_position
  pub current : (k : String) → current_sequence b k ≡ current_sequence a k

pub Same-refl : (a : Database) → Same a a
Same-refl a = record { events = refl; position = refl; current = λ k. refl }

pub Same-trans : {a b c : Database} → Same a b → Same b c → Same a c
Same-trans h k = record {
  events = k.events ∙ h.events;
  position = k.position ∙ h.position;
  current = λ j. k.current j ∙ h.current j;
}

no_row :
    (k : String) (streams : List (String × ℕ))
    → any (λ (s : String × ℕ). str_eq s.0 k) streams ≡ false
    → sequence_row k streams ≡ none
unfolding sequence_row
no_row k [] h = refl
no_row k (s ∷ streams) h = ground (arith, no_row k streams)

-- A stream that is created at 0 reads as it did before it was there.
add_stream-Same :
    (k : String) {db after : Database} → add_stream k db ≡ (ok tt, after) → Same db after
unfolding add_stream current_sequence
add_stream-Same k {db} h = record {
  events = ground arith;
  position = ground arith;
  current = λ j. ground (arith, no_row k db.event_streams, eq_iff k j);
}

-- What the first loop has found out about a stream, on the tables `db`.
pub record Fits (pairs : List Pair) (db : Database) (c : Checked) : Type 0 where
  pub current : c.current ≡ current_sequence db c.stream_id
  pub gained : declared (group c.stream_id pairs) ≡ range (suc c.current) c.new_count

pub open_stream-Same :
    (k : String) (actual : ℕ) {db after : Database}
    → open_stream k actual db ≡ (ok tt, after)
    → Same db after
unfolding open_stream
open_stream-Same k actual {db} {after} h = elim (Bool-cases (actual == 0)) [
  | inl fresh ↦ add_stream-Same k (rw fresh at h)
  | inr old ↦ let e : after ≡ db = ground arith in rw e (Same-refl db)
]

-- What `check_stream` returned for, in the words of its two steps.
check_stream_steps :
    (expected : List (String × ℤ)) (pairs : List Pair) (k : String) (db : Database) {c : Checked}
    {after : Database}
    → check_stream expected pairs k db ≡ (ok c, after)
    → (n : ℕ) × (validate_batch_stream k
          (group k pairs)
          (sequence_value (expected_of k expected))
          (current_sequence db k)
        ≡ ok n)
      × (open_stream k (current_sequence db k) db ≡ (ok tt, after))
      × (c ≡ record {
        stream_id = k;
        current = current_sequence db k;
        new_count = length (group k pairs) - n;
      })
unfolding check_stream
check_stream_steps expected pairs k db h =
    elim (Outcome-cases (
      validate_batch_stream k (group k pairs) (sequence_value (expected_of k expected))
        (current_sequence db k))) [
          | inr (e, raised) ↦ ground arith
          | inl (n, valid) ↦ (n, valid, ground arith, ground arith)
        ]

pub check_stream_lem :
    (expected : List (String × ℤ)) (pairs : List Pair) (k : String) (db : Database) {c : Checked}
    {after : Database}
    → check_stream expected pairs k db ≡ (ok c, after)
    → (c.stream_id ≡ k) × Fits pairs db c × Same db after
check_stream_lem expected pairs k db h =
    let (n, valid, opened, e) = check_stream_steps expected pairs k db h in
    let gained =
      declared-eq-range k (group k pairs) (sequence_value (expected_of k expected))
        (current_sequence db k) valid in
    rw e (
      refl,
      record { current = refl; gained = gained },
      open_stream-Same k (current_sequence db k) opened,
    )

-- ===== src/Kernel/Streams/Append.antt =====
-- The ledger's invariant through `append_many`.
use blackcell.Prelude.{
  ◌≡◌, ap, ℤ, refl, inl, inr, String, false, List, [], ◌∷◌, arith, ok, err, eq_iff, Bool-cases,
  Outcome-cases, Option-cases, map,
}
use blackcell.Host.{Host}
use blackcell.Kernel.Errors.{Result}
use blackcell.Kernel.Event.{EventEnvelope}
use blackcell.Kernel.Ledger.{Database}
use blackcell.Kernel.Append.{Connection, Pair, group, contains, stream_ids, validate_append_request}
use blackcell.Kernel.Transaction.{bind-eq-ok, pure, ◌>>=◌}
use blackcell.Kernel.Store.{
  append_pairs, idempotent_event, idempotent_events, append_many_in_transaction, append_many,
  stored_all, opened, commit_or_rollback,
}
use blackcell.Kernel.Streams.Advance.{Distinct}
use blackcell.Kernel.Streams.Gapless.{IsSound, append_new-IsSound}

stream_ids-Distinct : (events : List EventEnvelope) → Distinct (stream_ids events)
unfolding stream_ids
stream_ids-Distinct [] = tt
stream_ids-Distinct (e ∷ events) = elim (Bool-cases (contains (stream_ids events) e.stream_id)) [
  | inl seen ↦ rw seen (stream_ids-Distinct events)
  | inr new ↦ rw new (new, stream_ids-Distinct events)
]

group_absent :
    (pairs : List Pair) (k : String)
    → contains (stream_ids (map (λ (p : Pair). p.0) pairs)) k ≡ false
    → group k pairs ≡ []
unfolding stream_ids group
group_absent [] k h = refl
group_absent ((e, s) ∷ pairs) k h = ground (arith, group_absent pairs k, eq_iff e.stream_id k)

validated_ids :
    (events : List EventEnvelope) (expected : List (String × ℤ)) {ids : List String}
    → validate_append_request events expected ≡ ok ids
    → ids ≡ stream_ids events
unfolding validate_append_request
validated_ids events expected h = ground arith

commit-IsSound :
    (before : Database) (r : Result (List EventEnvelope) × Database)
    → IsSound before
    → ((stored : List EventEnvelope) → r.0 ≡ ok stored → IsSound r.1)
    → IsSound (commit_or_rollback before r).1
commit-IsSound before (ok stored, after) sound kept = kept stored refl
commit-IsSound before (err e, after) sound kept = sound

module _ (host : Host) where
  -- The lookups of stored occurrences read the tables only.
  idempotent_events_lem :
      (events : List EventEnvelope) (db : Database) {pairs : List Pair} {after : Database}
      → idempotent_events host events db ≡ (ok pairs, after)
      → (after ≡ db) × (map (λ (p : Pair). p.0) pairs ≡ events)
  unfolding idempotent_events
  idempotent_events_lem [] db h = (ground arith, ground arith)
  idempotent_events_lem (e ∷ events) db {pairs} {after} h =
      let (s, a, first, more) =
        bind-eq-ok (λ db. (idempotent_event host db e, db))
          (λ s. idempotent_events host events >>= λ ps. pure ((e, s) ∷ ps)) h in
      let (ps, b, second, done) =
        bind-eq-ok (idempotent_events host events) (λ ps. pure ((e, s) ∷ ps)) more in
      let (same, firsts) = idempotent_events_lem events a second in (ground arith, ground arith)

  append_pairs-IsSound :
      (expected : List (String × ℤ)) (pairs : List Pair) (db : Database)
      {events : List EventEnvelope} {after : Database}
      → append_pairs host expected (stream_ids (map (λ (p : Pair). p.0) pairs)) pairs db
        ≡ (ok events, after)
      → IsSound db
      → IsSound after
  unfolding append_pairs
  append_pairs-IsSound expected pairs db {events} {after} h sound =
      elim (Option-cases (stored_all pairs)) [
        | inl some_new ↦
            append_new-IsSound host expected (stream_ids (map (λ (p : Pair). p.0) pairs)) pairs db
              (stream_ids-Distinct _) (group_absent pairs) (rw (some_new, append_pairs) at h) sound
        | inr (old, all_stored) ↦ let e : after ≡ db = ground arith in rw e sound
      ]

  -- What a batch that is not empty was appended for, in the words of its steps.
  append_steps :
      (c : Connection) (e : EventEnvelope) (events : List EventEnvelope)
      (expected : List (String × ℤ)) (db : Database) {stored : List EventEnvelope}
      {after : Database}
      → append_many_in_transaction host c (e ∷ events) expected db ≡ (ok stored, after)
      → (pairs : List Pair) × (middle : Database) × (idempotent_events host (e ∷ events) db
          ≡ (ok pairs, middle))
        × (append_pairs host expected (stream_ids (e ∷ events)) pairs middle ≡ (ok stored, after))
  unfolding append_many_in_transaction
  append_steps c e events expected db h =
      elim (Outcome-cases (validate_append_request (e ∷ events) expected)) [
        | inr (x, raised) ↦ ground arith
        | inl (ids, valid) ↦ elim (Outcome-cases (idempotent_events host (e ∷ events) db).0) [
          | inr (x, raised) ↦ ground arith
          | inl (pairs, found) ↦
              let named = validated_ids (e ∷ events) expected valid in
              (
                pairs,
                (idempotent_events host (e ∷ events) db).1,
                ground arith,
                rw (← named) (ground arith),
              )
        ]
      ]

  pub append_many_in_transaction-IsSound :
      (c : Connection) (events : List EventEnvelope) (expected : List (String × ℤ)) (db : Database)
      {stored : List EventEnvelope} {after : Database}
      → append_many_in_transaction host c events expected db ≡ (ok stored, after)
      → IsSound db
      → IsSound after
  unfolding append_many_in_transaction
  append_many_in_transaction-IsSound c [] expected db {stored} {after} h sound =
      let e : after ≡ db = ground arith in rw e sound
  append_many_in_transaction-IsSound c (e ∷ events) expected db {stored} {after} h sound =
      let (pairs, middle, found, appended) = append_steps c e events expected db h in
      let (same, firsts) = idempotent_events_lem (e ∷ events) db found in
      append_pairs-IsSound expected pairs middle {events = stored} {after = after}
        (rw firsts appended) (rw same sound)

-- Whatever the batch, the expected sequences and the outcome, an append leaves a sound ledger: every
-- stream's rows still declare 1, 2, … up to its recorded sequence, and global positions rise.
pub append_many-IsSound :
    (host : Host) (events : List EventEnvelope) (expected : List (String × ℤ)) (db : Database)
    → IsSound db
    → IsSound (append_many host events expected db).1
unfolding append_many
append_many-IsSound host [] expected db sound = sound
append_many-IsSound host (e ∷ events) expected db sound =
    commit-IsSound db (append_many_in_transaction host opened (e ∷ events) expected db) sound
      λ stored returned.
        append_many_in_transaction-IsSound host opened (e ∷ events) expected db
          (ap
            (λ (r : Result (List EventEnvelope)).
              (r, (append_many_in_transaction host opened (e ∷ events) expected db).1))
            returned)
          sound

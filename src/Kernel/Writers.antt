-- ===== src/Kernel/Writers.antt =====
-- Optimistic concurrency of `append`: what one writer sees of another.
use blackcell.Prelude.{
  sym, ℕ, suc, ◌+◌, ◌≡◌, ◌≢◌, refl, ◌∙◌, pos, none, some, [], ◌∷◌, ◌++◌, arith, ok, err, eq_refl,
}
use blackcell.Host.{Host}
use blackcell.Kernel.Errors.{concurrency}
use blackcell.Kernel.Event.{EventEnvelope, post_init}
use blackcell.Kernel.Ledger.{Database, current_sequence, row_of}
use blackcell.Kernel.Append.{
  group, validate_batch_stream, committed_prefix, check_sequences, validate_append_request,
  validate_transaction_connection, stream_ids, expected_of,
}
use blackcell.Kernel.Store.{
  Checked, advance_stream, insert_or_keep, open_stream, check_stream, check_streams, advance,
  idempotent_event, idempotent_events, insert_event, insert_all, append_new, append_pairs,
  append_many_in_transaction, append_many, append,
}
use blackcell.Kernel.Streams.Checked.{open_stream-Same}
use blackcell.Kernel.Streams.Inserted.{inserted_row}
use blackcell.Kernel.Streams.Advance.{advance_stream_lem}
use blackcell.Kernel.Streams.Gapless.{current-of-streams}

-- An append of an event that is no repetition, at a sequence that is not the stream's, is refused
-- with the two sequences, and changes nothing.
pub append_stale :
    (host : Host) (event : EventEnvelope) (n : ℕ) (db : Database)
    → idempotent_event host db event ≡ ok none
    → current_sequence db event.stream_id ≢ n
    → append host event (pos n) db
      ≡ (err (concurrency event.stream_id n (current_sequence db event.stream_id)), db)
unfolding append append_many append_many_in_transaction append_pairs append_new check_streams
    check_stream validate_batch_stream committed_prefix check_sequences group
    validate_append_request validate_transaction_connection stream_ids expected_of idempotent_events
append_stale host event n db new stale = ground (arith, eq_refl event.stream_id)

module _ (host : Host) (event : EventEnvelope) (n : ℕ) (db : Database) {stored : EventEnvelope}
    {after : Database} (new : idempotent_event host db event ≡ ok none)
    (done : append host event (pos n) db ≡ (ok stored, after)) where
  -- What a successful append of a new event has passed and done, step by step.
  pub append_steps :
      (a : Database) × (b : Database) × (current_sequence db event.stream_id ≡ n)
      × (event.stream_sequence ≡ suc n)
      × (open_stream event.stream_id n db ≡ (ok tt, a))
      × (insert_event host event a ≡ (ok stored, b))
      × (advance_stream (record { stream_id = event.stream_id; current = n; new_count = 1 }) b
          ≡ (ok tt, after))
  unfolding append append_many append_many_in_transaction append_pairs append_new check_streams
      check_stream validate_batch_stream committed_prefix check_sequences group
      validate_append_request validate_transaction_connection stream_ids expected_of
      idempotent_events insert_all insert_or_keep advance
  append_steps = (
    (open_stream event.stream_id n db).1,
    (insert_event host event (open_stream event.stream_id n db).1).1,
    ground (arith, eq_refl event.stream_id),
    ground (arith, eq_refl event.stream_id),
    ground (arith, eq_refl event.stream_id),
    ground (arith, eq_refl event.stream_id),
    ground (arith, eq_refl event.stream_id),
  )

  -- The row of the event is the last, and nothing else is new.
  pub appended_row :
      after.kernel_events ≡ db.kernel_events ++ row_of host event (db.last_position + 1) ∷ []
  appended_row =
      let (a, b, now, declared, opening, inserting, moving) = append_steps in
      let c : Checked = record { stream_id = event.stream_id; current = n; new_count = 1 } in
      let s = open_stream-Same event.stream_id n opening in
      let (events, streams, position) = inserted_row host event a inserting in
      let here : n ≡ current_sequence b event.stream_id =
        (sym now)
        ∙ sym (s.current event.stream_id)
        ∙ sym (current-of-streams b a streams event.stream_id) in
      (advance_stream_lem c b {after = after} here moving).events
      ∙ events
      ∙ rw (s.events, s.position) refl

  pub appended_stored :
      post_init host (record event { global_position = some (db.last_position + 1) }) ≡ ok stored
  unfolding insert_event
  appended_stored =
      let (a, b, now, declared, opening, inserting, moving) = append_steps in
      let s = open_stream-Same event.stream_id n opening in rw (← s.position) (ground arith)

  -- The stream is one further.
  current-append : current_sequence after event.stream_id ≡ suc n
  current-append =
      let (a, b, now, declared, opening, inserting, moving) = append_steps in
      let c : Checked = record { stream_id = event.stream_id; current = n; new_count = 1 } in
      let s = open_stream-Same event.stream_id n opening in
      let (events, streams, position) = inserted_row host event a inserting in
      let here : n ≡ current_sequence b event.stream_id =
        (sym now)
        ∙ sym (s.current event.stream_id)
        ∙ sym (current-of-streams b a streams event.stream_id) in
      let m = advance_stream_lem c b {after = after} here moving in
      m.now event.stream_id ∙ rw (eq_refl event.stream_id) (omega arith)

-- Of two writers that saw a stream at the same sequence, the second is refused: it is told the
-- sequence that it expected and the one that the first has left, and changes nothing.
pub append_second_writer :
    (host : Host) (first second : EventEnvelope) (n : ℕ) (db : Database) {stored : EventEnvelope}
    {after : Database}
    → second.stream_id ≡ first.stream_id
    → idempotent_event host db first ≡ ok none
    → append host first (pos n) db ≡ (ok stored, after)
    → idempotent_event host after second ≡ ok none
    → append host second (pos n) after ≡ (err (concurrency first.stream_id n (suc n)), after)
append_second_writer host first second n db {stored} {after} same new done unseen =
    let moved : current_sequence after second.stream_id ≡ suc n =
      rw same (current-append host first n db new done) in
    append_stale host second n after unseen (rw moved (λ e. omega arith)) ∙ rw (moved, same) refl

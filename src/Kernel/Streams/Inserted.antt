-- ===== src/Kernel/Streams/Inserted.antt =====
-- The insert loop of `append_many_in_transaction`: the new rows of each stream, in the batch's order.
use mathlib.Core.List.{append_assoc, append-nil}
use blackcell.Prelude.{
  ℕ, ◌+◌, ◌<◌, ◌≤◌, ◌≡◌, refl, sym, ap, ◌∙◌, String, none, some, List, [], ◌∷◌, ◌++◌, arith, ok,
}
use blackcell.Host.{Host}
use blackcell.Kernel.Event.{EventEnvelope}
use blackcell.Kernel.Ledger.{Row, Database, row_of}
use blackcell.Kernel.Append.{Pair, group}
use blackcell.Kernel.Transaction.{bind-eq-ok, pure, ◌>>=◌}
use blackcell.Kernel.Store.{insert_event, insert_or_keep, insert_all}
use blackcell.Kernel.Streams.{declared, sequences, sequences-append}

-- Positions rise from above `low` to at most `last`.
abbrev pub IsAscending : ℕ → ℕ → List Row → Type 0
IsAscending low last [] = low ≤ last
IsAscending low last (row ∷ rows) =
    (low < row.global_position) × IsAscending row.global_position last rows

IsAscending-append :
    (low last : ℕ) (rows : List Row) (row : Row)
    → row.global_position ≡ last + 1
    → IsAscending low last rows
    → IsAscending low (last + 1) (rows ++ row ∷ [])
IsAscending-append low last [] row e h = omega arith
IsAscending-append low last (r ∷ rows) row e (p, h) =
    (p, IsAscending-append r.global_position last rows row e h)

pub record Inserted (db : Database) (pairs : List Pair) (after : Database) : Type 0 where
  pub streams : after.event_streams ≡ db.event_streams
  pub rows :
      (k : String)
      → sequences k after.kernel_events ≡ sequences k db.kernel_events ++ declared (group k pairs)
  pub ascending :
      IsAscending 0 db.last_position db.kernel_events
      → IsAscending 0 after.last_position after.kernel_events

declared-group-cons :
    (k : String) (pair : Pair) (pairs : List Pair)
    → declared (group k (pair ∷ pairs)) ≡ declared (group k (pair ∷ [])) ++ declared (group k pairs)
unfolding group
declared-group-cons k (event, some old) pairs = ground arith
declared-group-cons k (event, none) pairs = ground arith

Inserted-trans :
    (pair : Pair) {pairs : List Pair} {a b c : Database}
    → Inserted a (pair ∷ []) b
    → Inserted b pairs c
    → Inserted a (pair ∷ pairs) c
Inserted-trans pair {pairs} {a} {b} {c} h k = record {
  streams = k.streams ∙ h.streams;
  rows = λ s.
      rw (k.rows s, h.rows s, declared-group-cons s pair pairs)
        (append_assoc (sequences s a.kernel_events) (declared (group s (pair ∷ [])))
          (declared (group s pairs)));
  ascending = λ x. k.ascending (h.ascending x);
}

module _ (host : Host) where
  pub inserted_row :
      (event : EventEnvelope) (db : Database) {stored : EventEnvelope} {after : Database}
      → insert_event host event db ≡ (ok stored, after)
      → (after.kernel_events ≡ db.kernel_events ++ row_of host event (db.last_position + 1) ∷ [])
        × (after.event_streams ≡ db.event_streams)
        × (after.last_position ≡ db.last_position + 1)
  unfolding insert_event
  inserted_row event db h = ground arith

  insert_or_keep-Inserted :
      (pair : Pair) (db : Database) {stored : EventEnvelope} {after : Database}
      → insert_or_keep host pair db ≡ (ok stored, after)
      → Inserted db (pair ∷ []) after
  unfolding insert_or_keep group row_of
  insert_or_keep-Inserted (event, some old) db {stored} {after} h =
      let e : after ≡ db = ground arith in
      rw e (record {
        streams = refl;
        rows = λ k. ground (arith, append-nil (sequences k db.kernel_events));
        ascending = λ a. a;
      })
  insert_or_keep-Inserted (event, none) db {stored} {after} h =
      let (events, streams, position) = inserted_row event db h in
      let row = row_of host event (db.last_position + 1) in
      record {
        streams = streams;
        rows = λ k.
            ap (sequences k) events
            ∙ sequences-append k db.kernel_events (row ∷ [])
            ∙ (ground arith);
        ascending = λ a.
            rw (events, position)
              (IsAscending-append 0 db.last_position db.kernel_events row refl a);
      }

  pub insert_all-Inserted :
      (pairs : List Pair) (db : Database) {stored : List EventEnvelope} {after : Database}
      → insert_all host pairs db ≡ (ok stored, after)
      → Inserted db pairs after
  unfolding insert_all
  insert_all-Inserted [] db {stored} {after} h =
      let e : after ≡ db = ground arith in
      rw e (record {
        streams = refl;
        rows = λ k. unfold group in sym (append-nil _);
        ascending = λ a. a;
      })
  insert_all-Inserted (pair ∷ pairs) db {stored} {after} h =
      let (event, middle, first, more) =
        bind-eq-ok (insert_or_keep host pair) (λ e. insert_all host pairs >>= λ es. pure (e ∷ es))
          h in
      let (events, last, second, done) =
        bind-eq-ok (insert_all host pairs) (λ es. pure (event ∷ es)) more in
      let f : after ≡ last = cc in
      rw f (
        Inserted-trans pair (insert_or_keep-Inserted pair db first)
          (insert_all-Inserted pairs middle second))

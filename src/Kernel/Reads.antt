-- ===== src/Kernel/Reads.antt =====
-- kernel/store.py: the reads of the ledger. A query is a test on rows, an order and a limit; a cursor is
-- any integer, as the checks of `_validate_cursor` want it.
pub mod Order
pub mod Gapless
pub mod Tests
use blackcell.Prelude.{
  ℕ, zero, suc, ℤ, pos, negsuc, String, Bool, true, false, Option, none, some, List, [], ◌∷◌, ◌&&◌,
  ◌||◌, not, ltb, leb, str_eq, length, ok, ◌>>=◌, ◌>>◌, raise_if, if◌then◌else◌,
}
use blackcell.Host.{Host}
use blackcell.Kernel.Errors.{Result, value_error}
use blackcell.Kernel.Event.{EventEnvelope}
use blackcell.Kernel.Ledger.{Row, Database, event_from_row}

abbrev is_negative : ℤ → Bool
is_negative (pos _) = false
is_negative (negsuc _) = true

abbrev below_one : ℤ → Bool
below_one (pos n) = ltb n 1
below_one (negsuc _) = true

-- `column > cursor`
abbrev pub beyond : ℤ → ℕ → Bool
beyond (pos n) k = ltb n k
beyond (negsuc _) k = true

-- `column <= cursor`
abbrev pub within : ℤ → ℕ → Bool
within cursor k = not (beyond cursor k)

-- `_validate_cursor`
unfoldable pub validate_cursor : ℤ → Option ℤ → Result (Unit {0})
validate_cursor cursor none = raise_if (is_negative cursor) value_error
validate_cursor cursor (some limit) = do
  raise_if (is_negative cursor) value_error
  raise_if (below_one limit) value_error

-- `if through_position is not None: _validate_cursor(through_position, None)`
abbrev pub validate_option : Option ℤ → Result (Unit {0})
validate_option none = ok tt
validate_option (some position) = raise_if (is_negative position) value_error

-- `where …`
unfoldable pub select_rows : (Row → Bool) → List Row → List Row
select_rows test [] = []
select_rows test (row ∷ rows) =
    let rest = select_rows test rows in if test row then row ∷ rest else rest

unfoldable pub insert_row : (Row → ℕ) → Row → List Row → List Row
insert_row column row [] = row ∷ []
insert_row column row (next ∷ rows) =
    let rest = insert_row column row rows in
    if leb (column row) (column next) then row ∷ next ∷ rows else next ∷ rest

-- `order by column`
unfoldable pub order_by : (Row → ℕ) → List Row → List Row
unfolding insert_row
order_by column [] = []
order_by column (row ∷ rows) = insert_row column row (order_by column rows)

unfoldable pub reversed : List Row → List Row → List Row
reversed [] done = done
reversed (row ∷ rows) done = reversed rows (row ∷ done)

unfoldable pub first_rows {ℓ} : {A : Type ℓ} → ℕ → List A → List A
first_rows zero xs = []
first_rows (suc n) [] = []
first_rows (suc n) (x ∷ xs) = x ∷ first_rows n xs

-- `limit …`; a negative limit is none, for SQLite
abbrev pub limited {ℓ} : {A : Type ℓ} → Option ℤ → List A → List A
limited none xs = xs
limited (some (pos n)) xs = first_rows n xs
limited (some (negsuc _)) xs = xs

-- `and global_position <= ?`, where it is asked for
abbrev pub through : Option ℤ → Row → Bool
through none row = true
through (some position) row = within position row.global_position

-- the test of `read_stream`
abbrev pub is_wanted : String → ℤ → Option ℤ → Row → Bool
is_wanted stream_id after_sequence position row =
    str_eq row.stream_id stream_id
    && beyond after_sequence row.stream_sequence
    && through position row

abbrev pub by_sequence : Row → ℕ
by_sequence row = row.stream_sequence

abbrev pub by_position : Row → ℕ
by_position row = row.global_position

-- the first row that passes
unfoldable pub fetch_one : (Row → Bool) → List Row → Option Row
fetch_one test [] = none
fetch_one test (row ∷ rows) = elim (test row) [ true ↦ some row | false ↦ fetch_one test rows ]

module _ (host : Host) where
  -- `tuple(_event_from_row(row) for row in rows)`
  unfoldable pub events_from_rows : List Row → Result (List EventEnvelope)
  unfolding event_from_row
  events_from_rows [] = ok []
  events_from_rows (row ∷ rows) = do
    event ← event_from_row host row
    events ← events_from_rows rows
    ok (event ∷ events)

  event_of : Option Row → Result (Option EventEnvelope)
  unfolding event_from_row
  event_of none = ok none
  event_of (some row) = do event ← event_from_row host row; ok (some event)

  -- `EventStore.get`
  unfoldable pub get_event : String → Database → Result (Option EventEnvelope)
  unfolding event_of fetch_one
  get_event event_id db =
      event_of (fetch_one (λ (row : Row). str_eq row.event_id event_id) db.kernel_events)

  -- `EventStore.read_stream`
  unfoldable pub read_stream :
      String → ℤ → Option ℤ → Option ℤ → Database → Result (List EventEnvelope)
  unfolding validate_cursor select_rows order_by events_from_rows
  read_stream stream_id after_sequence through_position limit db = do
    validate_cursor after_sequence limit
    validate_option through_position
    let rows = select_rows (is_wanted stream_id after_sequence through_position) db.kernel_events
    events_from_rows (limited limit (order_by by_sequence rows))

  -- `EventStore.read_all`
  unfoldable pub read_all : ℤ → Option ℤ → Database → Result (List EventEnvelope)
  unfolding validate_cursor select_rows order_by events_from_rows
  read_all after_position limit db = do
    validate_cursor after_position limit
    let rows =
        select_rows (λ (row : Row). beyond after_position row.global_position) db.kernel_events
    events_from_rows (limited limit (order_by by_position rows))

  -- `EventStore.read_type_descending`
  unfoldable pub read_type_descending : String → ℤ → ℤ → Database → Result (List EventEnvelope)
  unfolding validate_cursor select_rows order_by reversed events_from_rows
  read_type_descending event_type through_position limit db = do
    raise_if (str_eq event_type "") value_error
    validate_cursor through_position (some limit)
    let rows =
        select_rows
          (λ (row : Row).
            str_eq row.event_type event_type && within through_position row.global_position)
          db.kernel_events
    events_from_rows (limited (some limit) (reversed (order_by by_position rows) []))

-- `select coalesce(max(global_position), 0) from kernel_events`
unfoldable pub max_position : List Row → ℕ
max_position [] = 0
max_position (row ∷ rows) =
    let rest = max_position rows in
    if ltb rest row.global_position then row.global_position else rest

-- `EventStore.current_position`
unfoldable pub current_position : Database → ℕ
unfolding max_position
current_position db = max_position db.kernel_events

-- `EventStore.__len__`
unfoldable pub event_count : Database → ℕ
event_count db = length db.kernel_events

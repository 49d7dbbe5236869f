-- ===== src/Kernel/Streams/Advance.antt =====
-- The last loop of `append_many_in_transaction`: the streams move on by what they gained.
use blackcell.Prelude.{
  ℕ, ◌+◌, ◌≡◌, refl, ◌∙◌, String, false, none, some, List, [], ◌∷◌, arith, All, ok, str_eq, eq_iff,
  if◌then◌else◌,
}
use blackcell.Kernel.Ledger.{Database, sequence_row, current_sequence, set_sequence}
use blackcell.Kernel.Append.{contains}
use blackcell.Kernel.Transaction.{bind-eq-ok}
use blackcell.Kernel.Store.{Checked, advance_stream, advance}
use blackcell.Kernel.Streams.Committed.{ids_of}

pub set_sequence_absent :
    (k : String) (previous next : ℕ) (streams : List (String × ℕ))
    → sequence_row k streams ≡ none
    → (set_sequence k previous next streams).1 ≡ 0
unfolding set_sequence sequence_row
set_sequence_absent k previous next [] h = refl
set_sequence_absent k previous next (s ∷ streams) h =
    ground (arith, set_sequence_absent k previous next streams)

pub set_sequence_self :
    (k : String) (previous next : ℕ) (streams : List (String × ℕ))
    → sequence_row k streams ≡ some previous
    → sequence_row k (set_sequence k previous next streams).0 ≡ some next
unfolding set_sequence sequence_row
set_sequence_self k previous next [] h = cc
set_sequence_self k previous next (s ∷ streams) h =
    ground (arith, set_sequence_self k previous next streams)

pub set_sequence_other :
    (k j : String) (previous next : ℕ) (streams : List (String × ℕ))
    → str_eq k j ≡ false
    → sequence_row j (set_sequence k previous next streams).0 ≡ sequence_row j streams
unfolding set_sequence sequence_row
set_sequence_other k j previous next [] h = refl
set_sequence_other k j previous next (s ∷ streams) h =
    ground (
      arith,
      set_sequence_other k j previous next streams h,
      eq_iff s.0 k,
      eq_iff s.0 j,
      eq_iff k j,
    )

-- The tables of events are the same; a stream has the sequence that `current` says.
pub record Moved (a b : Database) (current : String → ℕ) : Type 0 where
  pub events : b.kernel_events ≡ a.kernel_events
  pub position : b.last_position ≡ a.last_position
  pub now : (k : String) → current_sequence b k ≡ current k

pub advance_stream_lem :
    (c : Checked) (db : Database) {after : Database}
    → c.current ≡ current_sequence db c.stream_id
    → advance_stream c db ≡ (ok tt, after)
    → Moved db after
        (λ j. if str_eq c.stream_id j then c.current + c.new_count else current_sequence db j)
unfolding advance_stream current_sequence
advance_stream_lem c db now h = record {
  events = ground arith;
  position = ground arith;
  now = λ j. ground (
    arith,
    set_sequence_absent c.stream_id c.current (c.current + c.new_count) db.event_streams,
    set_sequence_self c.stream_id c.current (c.current + c.new_count) db.event_streams,
    set_sequence_other c.stream_id j c.current (c.current + c.new_count) db.event_streams,
    eq_iff c.stream_id j,
  );
}

abbrev pub Distinct : List String → Type 0
Distinct [] = Unit
Distinct (k ∷ ids) = (contains ids k ≡ false) × Distinct ids

-- the sequence of stream `k` after the last loop, if it was `n` before
abbrev pub target : List Checked → String → ℕ → ℕ
target [] k n = n
target (c ∷ cs) k n = if str_eq c.stream_id k then c.current + c.new_count else target cs k n

target_absent :
    (cs : List Checked) (k : String) (n : ℕ) → contains (ids_of cs) k ≡ false → target cs k n ≡ n
target_absent [] k n h = refl
target_absent (c ∷ cs) k n h = ground (arith, target_absent cs k n)

abbrev pub IsCurrent : Database → Checked → Type 0
IsCurrent db c = c.current ≡ current_sequence db c.stream_id

-- A stream that the update of `c` leaves alone is still current afterwards.
still_current :
    (c : Checked) {db after : Database} (cs : List Checked)
    → Moved db after
        (λ j. if str_eq c.stream_id j then c.current + c.new_count else current_sequence db j)
    → contains (ids_of cs) c.stream_id ≡ false
    → All (IsCurrent db) cs
    → All (IsCurrent after) cs
still_current c [] m absent h = tt
still_current c {db} {after} (d ∷ cs) m absent (p, h) = (
  ground (arith, m.now d.stream_id, eq_iff c.stream_id d.stream_id, eq_iff d.stream_id c.stream_id),
  still_current c cs m (ground arith) h,
)

pub advance_lem :
    (cs : List Checked) (db : Database) {after : Database}
    → Distinct (ids_of cs)
    → All (IsCurrent db) cs
    → advance cs db ≡ (ok tt, after)
    → Moved db after (λ k. target cs k (current_sequence db k))
unfolding advance
advance_lem [] db {after} d h e =
    let f : after ≡ db = ground arith in
    rw f (record { events = refl; position = refl; now = λ k. refl })
advance_lem (c ∷ cs) db {after} (absent, d) (p, h) e =
    let (u, middle, first, more) = bind-eq-ok (advance_stream c) (λ _. advance cs) e in
    let m = advance_stream_lem c db {after = middle} p (first) in
    let n = advance_lem cs middle d (still_current c cs m absent h) more in
    record {
      events = n.events ∙ m.events;
      position = n.position ∙ m.position;
      now = λ k. ground (
        arith,
        n.now k,
        m.now k,
        target_absent cs k (current_sequence middle k),
        eq_iff c.stream_id k,
      );
    }

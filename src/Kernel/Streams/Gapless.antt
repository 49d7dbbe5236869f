-- ===== src/Kernel/Streams/Gapless.antt =====
-- The ledger's invariant, and the loops of an append.
use native.Mathlib.Nat.{add-zero}
use blackcell.Prelude.{
  ℕ, suc, ◌+◌, ◌≡◌, ℤ, refl, sym, ap, ◌∙◌, inl, inr, String, false, List, [], ◌∷◌, ◌++◌, arith, All,
  All-map, ok, str_eq, eq_iff, Bool-cases,
}
use blackcell.Host.{Host}
use blackcell.Kernel.Event.{EventEnvelope}
use blackcell.Kernel.Ledger.{Database, current_sequence}
use blackcell.Kernel.Append.{Pair, group, contains}
use blackcell.Kernel.Transaction.{bind-eq-ok, pure, ◌>>=◌, ◌>>◌}
use blackcell.Kernel.Store.{Checked, check_streams, insert_all, advance, append_new}
use blackcell.Kernel.Streams.{range, range-append, declared, sequences}
use blackcell.Kernel.Streams.Checked.{Same, Fits}
use blackcell.Kernel.Streams.Committed.{ids_of, check_streams_lem}
use blackcell.Kernel.Streams.Inserted.{IsAscending, Inserted, insert_all-Inserted}
use blackcell.Kernel.Streams.Advance.{Moved, Distinct, target, IsCurrent, advance_lem}

-- Every stream's rows declare 1, 2, … up to its `current_sequence`, in the order of insertion, and
-- global positions rise.
pub record IsSound (db : Database) : Type 0 where
  pub gapless : (k : String) → sequences k db.kernel_events ≡ range 1 (current_sequence db k)
  pub ascending : IsAscending 0 db.last_position db.kernel_events

-- What the batch declares for a stream is what the last loop adds to it.
gains :
    (pairs : List Pair) (db : Database) (cs : List Checked) (k : String)
    → All (Fits pairs db) cs
    → (contains (ids_of cs) k ≡ false → group k pairs ≡ [])
    → (m : ℕ) × (declared (group k pairs) ≡ range (suc (current_sequence db k)) m)
      × (target cs k (current_sequence db k) ≡ current_sequence db k + m)
gains pairs db [] k fits absent = (0, ap declared (absent refl), sym (add-zero _))
gains pairs db (c ∷ cs) k (f, fits) absent = elim (Bool-cases (str_eq c.stream_id k)) [
  | inl same ↦
      let e : c.stream_id ≡ k = (eq_iff c.stream_id k).0 same in
      (
        c.new_count,
        rw e at (rw f.current at f.gained),
        rw same (rw e at (ap (λ (n : ℕ). n + c.new_count) f.current)),
      )
  | inr other ↦
      let (m, p, q) = gains pairs db cs k fits (λ h. absent (rw other h)) in (m, p, rw other q)
]

pub current-of-streams :
    (a b : Database)
    → a.event_streams ≡ b.event_streams
    → (k : String) → current_sequence a k ≡ current_sequence b k
unfolding current_sequence
current-of-streams a b e k = cc

-- The three loops together, on tables that keep their invariant.
loops-IsSound :
    (pairs : List Pair) (cs : List Checked) {db a b after : Database}
    → Distinct (ids_of cs)
    → ((k : String) → contains (ids_of cs) k ≡ false → group k pairs ≡ [])
    → All (Fits pairs db) cs
    → Same db a
    → Inserted a pairs b
    → Moved b after (λ k. target cs k (current_sequence b k))
    → IsSound db
    → IsSound after
loops-IsSound pairs cs {db} {a} {b} {after} distinct absent fits same ins moved sound = record {
  gapless = gapless;
  ascending =
      rw (moved.events, moved.position)
        (ins.ascending (rw (same.events, same.position) sound.ascending));
}
  where
    gapless : (k : String) → sequences k after.kernel_events ≡ range 1 (current_sequence after k)
    gapless k =
        let n = current_sequence db k in
        let (m, p, q) = gains pairs db cs k fits (absent k) in
        let now : current_sequence b k ≡ n =
          current-of-streams b a ins.streams k ∙ same.current k in
        let last : current_sequence after k ≡ n + m = moved.now k ∙ ap (target cs k) now ∙ q in
        let rows : sequences k after.kernel_events
            ≡ sequences k db.kernel_events ++ declared (group k pairs) =
          rw (moved.events, ins.rows k, same.events) refl in
        let next : suc n ≡ 1 + n = omega arith in
        rw (rows, last, sound.gapless k, p, next) (range-append 1 n m)

module _ (host : Host) where
  pub append_new-IsSound :
      (expected : List (String × ℤ)) (ids : List String) (pairs : List Pair) (db : Database)
      {events : List EventEnvelope} {after : Database}
      → Distinct ids
      → ((k : String) → contains ids k ≡ false → group k pairs ≡ [])
      → append_new host expected ids pairs db ≡ (ok events, after)
      → IsSound db
      → IsSound after
  unfolding append_new
  append_new-IsSound expected ids pairs db {events} {after} distinct absent h sound =
      let (cs, a, first, more) =
        bind-eq-ok (check_streams expected pairs ids)
          (λ cs. insert_all host pairs >>= λ es. advance cs >> pure es) h in
      let (es, b, second, more') =
        bind-eq-ok (insert_all host pairs) (λ es. advance cs >> pure es) more in
      let (u, c, third, done) = bind-eq-ok (advance cs) (λ _. pure es) more' in
      let (named, fits, same) = check_streams_lem expected pairs ids db first in
      let ins = insert_all-Inserted host pairs a second in
      let current : All (IsCurrent b) cs =
        All-map cs
          (λ d f.
            f.current
            ∙ sym (same.current d.stream_id)
            ∙ sym (current-of-streams b a ins.streams d.stream_id))
          fits in
      let distinct' : Distinct (ids_of cs) = rw named distinct in
      let moved = advance_lem cs b {after = c} distinct' current third in
      let e : after ≡ c = cc in
      rw e (loops-IsSound pairs cs distinct' (rw named absent) fits same ins moved sound)

-- ===== src/Kernel/Streams.antt =====
-- The sequences of a stream, as the ledger's rows and an append's batch list them.
pub mod Batch
pub mod Checked
pub mod Committed
pub mod Append
pub mod Gapless
pub mod Inserted
pub mod Advance
use native.Mathlib.Nat.{zero-add}
use blackcell.Prelude.{
  ap, ℕ, zero, suc, ◌+◌, ◌≡◌, refl, String, none, some, List, [], ◌∷◌, ◌++◌, arith, str_eq,
  if◌then◌else◌,
}
use blackcell.Kernel.Ledger.{Row}
use blackcell.Kernel.Append.{Pair}

-- `a, a + 1, …`: `n` numbers
abbrev pub range : ℕ → ℕ → List ℕ
range a zero = []
range a (suc n) = a ∷ range (suc a) n

pub range-append : (a n m : ℕ) → range a n ++ range (a + n) m ≡ range a (n + m)
range-append a zero m = let p : a + zero ≡ a = omega arith in rw (p, zero-add)
range-append a (suc n) m =
    let p : a + suc n ≡ suc a + n = omega arith in
    let q : suc n + m ≡ suc (n + m) = omega arith in
    rw (p, q) (ap (λ (l : List ℕ). a ∷ l) (range-append (suc a) n m))

-- the sequences of the rows of stream `k`, in the order of insertion
abbrev pub sequences : String → List Row → List ℕ
sequences k [] = []
sequences k (row ∷ rows) =
    let rest = sequences k rows in
    if str_eq row.stream_id k then row.stream_sequence ∷ rest else rest

pub sequences-append :
    (k : String) (rows more : List Row)
    → sequences k (rows ++ more) ≡ sequences k rows ++ sequences k more
sequences-append k [] more = refl
sequences-append k (row ∷ rows) more = ground (arith, sequences-append k rows more)

-- the sequences that the new events of a batch declare
abbrev pub declared : List Pair → List ℕ
declared [] = []
declared ((_, some _) ∷ pairs) = declared pairs
declared ((candidate, none) ∷ pairs) = candidate.stream_sequence ∷ declared pairs

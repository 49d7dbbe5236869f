-- ===== src/Kernel/Streams/Batch.antt =====
-- What the checks of `_validate_batch_stream` let through: a prefix of stored events, and new ones
-- that declare the next sequences of the stream.
use blackcell.Prelude.{
  ℕ, suc, ◌+◌, ◌-◌, ◌≡◌, refl, String, true, false, none, some, List, [], ◌∷◌, arith, length, ok,
  Option-cases, inl, inr,
}
use blackcell.Kernel.Errors.{KernelError, concurrency}
use blackcell.Kernel.Append.{Pair, committed_prefix, check_sequences, validate_batch_stream}
use blackcell.Kernel.Streams.{range, declared}

-- After a new event, an accepted batch has only new ones, and they follow on.
all_new :
    (stale : KernelError) (last n : ℕ) (pairs : List Pair)
    → committed_prefix true pairs ≡ some n
    → check_sequences stale last pairs ≡ ok tt
    → (n ≡ 0) × (declared pairs ≡ range (suc last) (length pairs))
unfolding committed_prefix check_sequences
all_new stale last n [] c h = ground arith
all_new stale last n ((e, some s) ∷ pairs) c h = cc
all_new stale last n ((e, none) ∷ pairs) c h = ground (arith, all_new stale (suc last) n pairs)

pub committed_then_new :
    (stale : KernelError) (last n : ℕ) (pairs : List Pair)
    → committed_prefix false pairs ≡ some n
    → check_sequences stale last pairs ≡ ok tt
    → (m : ℕ) × (length pairs ≡ n + m) × (declared pairs ≡ range (suc (last + n)) m)
unfolding committed_prefix check_sequences
committed_then_new stale last n [] c h = (0, ground arith, refl)
committed_then_new stale last n ((e, some s) ∷ pairs) c h =
    elim (Option-cases (committed_prefix false pairs)) [
      | inl none_found ↦ ground arith
      | inr (k, found) ↦
          let (m, len, seqs) = committed_then_new stale (suc last) k pairs found (ground arith) in
          (m, ground arith, let p : suc last + k ≡ last + n = ground arith in rw (← p) seqs)
    ]
committed_then_new stale last n ((e, none) ∷ pairs) c h =
    let (z, seqs) = all_new stale (suc last) n pairs c (ground arith) in
    (suc (length pairs), omega arith, let p : last + n ≡ last = omega arith in rw p (ground arith))

-- What `validate_batch_stream` returned for, in the words of its two loops.
validated :
    (k : String) (pairs : List Pair) (expected actual : ℕ) {n : ℕ}
    → validate_batch_stream k pairs expected actual ≡ ok n
    → (committed_prefix false pairs ≡ some n)
      × (actual ≡ expected + n)
      × (check_sequences (concurrency k expected actual) expected pairs ≡ ok tt)
unfolding validate_batch_stream
validated k pairs expected actual h = ground arith

-- An accepted stream of a batch adds the sequences that follow the ledger's.
pub declared-eq-range :
    (k : String) (pairs : List Pair) (expected actual : ℕ) {n : ℕ}
    → validate_batch_stream k pairs expected actual ≡ ok n
    → declared pairs ≡ range (suc actual) (length pairs - n)
declared-eq-range k pairs expected actual {n} h =
    let (prefix, agrees, checked) = validated k pairs expected actual h in
    let (m, len, seqs) =
      committed_then_new (concurrency k expected actual) expected n pairs prefix checked in
    let fresh : length pairs - n ≡ m = omega arith in rw (fresh, agrees) seqs

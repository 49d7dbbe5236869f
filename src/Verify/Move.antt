-- ===== src/Verify/Move.antt =====
-- What one event may do to a verification: the moves of the fold, with none of the payloads' details.
use blackcell.Prelude.{ℕ, ◌+◌, ◌≡◌, ◌≢◌, String, true, Option, none, some}
use blackcell.Verify.Lease.{VerificationLease}
use blackcell.Verify.State.{Status, Fold, Kind}
use blackcell.Verify.Fold.{is_claimed, is_open, keeps_identity, first_of}

-- the number of attempts behind a lease
abbrev pub attempts_of : Option VerificationLease → ℕ
attempts_of none = 0
attempts_of (some lease) = lease.attempt

abbrev pub fence_of : Option VerificationLease → ℕ
fence_of none = 0
fence_of (some lease) = lease.fencing_token

-- a worker takes the verification up
pub record Claims (s t : Fold) (actor : String) : Type 0 where
  pub lease : VerificationLease
  pub waiting : is_open s.status ≡ true
  pub held : t.lease ≡ some lease
  pub status : t.status ≡ some Status.claimed
  pub baseline : t.baseline ≡ some (first_of s.baseline lease)
  pub unchanged : keeps_identity s.baseline lease ≡ true
  pub attempt : lease.attempt ≡ attempts_of s.lease + 1
  pub fence : lease.fencing_token ≡ fence_of s.lease + 1
  pub worker : lease.worker_id ≡ actor

-- the lease ends with the status `ending`
pub record Ends (s t : Fold) (ending : Status) : Type 0 where
  pub lease : VerificationLease
  pub held : s.lease ≡ some lease
  pub claimed : is_claimed s.status ≡ true
  pub kept : t.lease ≡ s.lease
  pub baseline : t.baseline ≡ s.baseline
  pub status : t.status ≡ some ending

-- the moves of a verification, by the kind of event, and who makes them
pub data Move (s t : Fold) (actor : String) : Kind → Type 0 where
  claims : Claims s t actor → Move s t actor Kind.claimed
  completes :
      (e : Ends s t Status.completed) → e.lease.worker_id ≡ actor → Move s t actor Kind.completed
  fails : (e : Ends s t Status.failed) → e.lease.worker_id ≡ actor → Move s t actor Kind.failed
  requeues :
      (e : Ends s t Status.requeued) → e.lease.worker_id ≢ actor → Move s t actor Kind.requeued

-- ===== src/Review/Move.antt =====
-- What one event may do to a review: the moves of the fold, with none of the payloads' details.
use blackcell.Prelude.{ℕ, ◌+◌, ◌≡◌, Bool, true, false, Option, none, some, leb, ltb}
use blackcell.Kernel.Event.{EventEnvelope}
use blackcell.Review.Lease.{ReviewLease}
use blackcell.Review.State.{Status, Fold, Kind}
use blackcell.Review.Guards.{
  is_claimed, is_dispatched, is_held, is_open, keeps_identity, first_of, same_but_expiry,
}

-- the number of attempts behind a lease
abbrev pub attempts_of : Option ReviewLease → ℕ
attempts_of none = 0
attempts_of (some lease) = lease.attempt

abbrev pub fence_of : Option ReviewLease → ℕ
fence_of none = 0
fence_of (some lease) = lease.fencing_token

-- a worker takes the review up, under a lease that has not run out
pub record Claims (s t : Fold) (event : EventEnvelope) : Type 0 where
  pub lease : ReviewLease
  pub waiting : is_open s.status ≡ true
  pub held : t.lease ≡ some lease
  pub status : t.status ≡ some Status.claimed
  pub baseline : t.baseline ≡ some (first_of s.baseline lease)
  pub unchanged : keeps_identity s.baseline lease ≡ true
  pub attempt : lease.attempt ≡ attempts_of s.lease + 1
  pub fence : lease.fencing_token ≡ fence_of s.lease + 1
  pub worker : lease.worker_id ≡ event.actor
  pub in_time : leb lease.expires_at.instant event.recorded_at ≡ false

-- the holder of the lease puts off its expiry, and nothing else
pub record Renews (s t : Fold) (event : EventEnvelope) : Type 0 where
  pub lease : ReviewLease
  pub renewed : ReviewLease
  pub held : s.lease ≡ some lease
  pub claimed : is_claimed s.status ≡ true
  pub kept : t.lease ≡ some renewed
  pub status : t.status ≡ s.status
  pub baseline : t.baseline ≡ s.baseline
  pub same : same_but_expiry renewed lease ≡ true
  pub later : leb renewed.expires_at.instant lease.expires_at.instant ≡ false
  pub worker : lease.worker_id ≡ event.actor

-- the review gets the status `next`, under the lease that is held
pub record Goes (s t : Fold) (from : Option Status → Bool) (next : Status) : Type 0 where
  pub lease : ReviewLease
  pub held : s.lease ≡ some lease
  pub was : from s.status ≡ true
  pub kept : t.lease ≡ s.lease
  pub status : t.status ≡ some next
  pub baseline : t.baseline ≡ s.baseline

-- the event is the holder's
abbrev pub IsByHolder : ReviewLease → EventEnvelope → Type 0
IsByHolder lease event = lease.worker_id ≡ event.actor

-- the lease has not run out
abbrev pub IsInTime : ReviewLease → EventEnvelope → Type 0
IsInTime lease event = ltb lease.expires_at.instant event.recorded_at ≡ false

-- the moves of a review, by the kind of event
pub data Move (s t : Fold) (event : EventEnvelope) : Kind → Type 0 where
  claims : Claims s t event → Move s t event Kind.claimed
  renews : Renews s t event → Move s t event Kind.lease_renewed
  dispatches :
      (g : Goes s t is_claimed Status.provider_dispatched)
      → IsByHolder g.lease event
      → IsInTime g.lease event
      → Move s t event Kind.provider_dispatch_started
  succeeds :
      (g : Goes s t is_dispatched Status.succeeded)
      → IsByHolder g.lease event
      → IsInTime g.lease event
      → Move s t event Kind.succeeded
  fails :
      (g : Goes s t is_held Status.failed) → IsByHolder g.lease event → Move s t event Kind.failed
  requeues : Goes s t is_claimed Status.requeued → Move s t event Kind.requeued
  reconciles :
      Goes s t is_dispatched Status.reconciliation_required
      → Move s t event Kind.reconciliation_required

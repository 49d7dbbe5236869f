-- ===== src/Review/Guards.antt =====
-- orchestration/review_lifecycle.py: the tests and checks of `fold_review_lifecycle`.
use blackcell.Prelude.{
  ◌+◌, String, Bool, true, false, Option, none, some, ◌&&◌, ◌||◌, not, ◌==◌, ltb, leb, str_eq,
  opt_eq, ok, ◌>>=◌, ◌>>◌, if◌then◌else◌,
}
use blackcell.Json.{Json, get, is_text, is_null}
use blackcell.Prelude.Text.{texts_eq}
use blackcell.Host.{Host}
use blackcell.Kernel.Event.{EventEnvelope}
use blackcell.Verify.{Result}
use blackcell.Review.{refused, refuse, identifier, digest}
use blackcell.Review.Lease.{ReviewLease, immutable_identity, renewable_identity, lease_digest}
use blackcell.Review.State.{Status, Fold}

-- `_principal`
unfoldable pub principal_of : EventEnvelope → Result String
unfolding identifier
principal_of event = do
  principal ← identifier (get "principal_id" event.payload)
  refuse (not (str_eq principal event.actor))
  ok principal

abbrev pub is_claimed : Option Status → Bool
is_claimed (some Status.claimed) = true
is_claimed _ = false

abbrev pub is_dispatched : Option Status → Bool
is_dispatched (some Status.provider_dispatched) = true
is_dispatched _ = false

-- `status in {CLAIMED, PROVIDER_DISPATCHED}`
abbrev pub is_held : Option Status → Bool
is_held status = is_claimed status || is_dispatched status

-- `status in {None, REQUEUED}`
abbrev pub is_open : Option Status → Bool
is_open none = true
is_open (some Status.requeued) = true
is_open _ = false

-- the first attempt is 1, and a later one follows the lease's
unfoldable pub follows : Option ReviewLease → ReviewLease → EventEnvelope → Bool
follows none candidate event =
    opt_eq event.causation_id (some candidate.run_event_id)
    && candidate.attempt == 1
    && candidate.fencing_token == 1
follows (some lease) candidate event =
    candidate.attempt == lease.attempt + 1 && candidate.fencing_token == lease.fencing_token + 1

-- the first claim, or one for the same run and evidence
unfoldable pub keeps_identity : Option ReviewLease → ReviewLease → Bool
unfolding texts_eq
keeps_identity none candidate = true
keeps_identity (some baseline) candidate =
    texts_eq (immutable_identity candidate) (immutable_identity baseline)

-- `_renewable_lease_identity(renewed) == _renewable_lease_identity(lease)`
unfoldable pub same_but_expiry : ReviewLease → ReviewLease → Bool
unfolding texts_eq
same_but_expiry a b =
    texts_eq (renewable_identity a).0 (renewable_identity b).0
    && a.attempt == b.attempt
    && a.fencing_token == b.fencing_token

-- `candidate if baseline is None else baseline`
abbrev pub first_of : Option ReviewLease → ReviewLease → ReviewLease
first_of none candidate = candidate
first_of (some baseline) candidate = baseline

-- `None if result is None else _digest(result)`
unfoldable pub optional_digest : Json → Result (Option String)
unfolding digest
optional_digest value = if is_null value then ok none else digest value >>= λ d. ok (some d)

module _ (host : Host) (run_id : String) (state : Fold) (event : EventEnvelope) where
  -- the payload names the lease
  unfoldable pub names_lease : ReviewLease → Bool
  names_lease lease =
      is_text (get "run_id" event.payload) lease.run_id
      && is_text (get "review_id" event.payload) lease.review_id
      && is_text (get "lease_digest" event.payload) (lease_digest host lease)

  -- `_host_transition`, where `expected` tests the status
  unfoldable pub host_transition : (Option Status → Bool) → Result ReviewLease
  unfolding names_lease
  host_transition expected = elim state.lease [
    | none ↦ refused
    | some lease ↦ do refuse (not (expected state.status) || not (names_lease lease)); ok lease
  ]

  -- `_active_lease`
  unfoldable pub active_lease : String → (Option Status → Bool) → Bool → Result ReviewLease
  unfolding names_lease
  active_lease principal expected allow_expired = elim state.lease [
    | none ↦ refused
    | some lease ↦ do
      refuse (
          not (expected state.status)
          || not (names_lease lease)
          || not (str_eq principal lease.worker_id)
          || (not allow_expired && ltb lease.expires_at.instant event.recorded_at))
      ok lease
  ]

  -- the checks of a claimed lease
  unfoldable pub is_odd_claim : String → ReviewLease → Bool
  unfolding follows keeps_identity
  is_odd_claim principal candidate =
      not (str_eq candidate.run_id run_id)
      || not (str_eq candidate.worker_id principal)
      || not (is_text (get "lease_digest" event.payload) (lease_digest host candidate))
      || not (is_text (get "status" event.payload) "claimed")
      || leb candidate.expires_at.instant event.recorded_at
      || not (follows state.lease candidate event)
      || not (keeps_identity state.baseline candidate)

  -- the checks of a renewed lease
  unfoldable pub is_odd_renewal : String → ReviewLease → ReviewLease → Bool
  unfolding same_but_expiry
  is_odd_renewal principal lease renewed =
      not (is_claimed state.status)
      || not (str_eq principal lease.worker_id)
      || not (str_eq renewed.worker_id principal)
      || not (is_text (get "previous_lease_digest" event.payload) (lease_digest host lease))
      || not (is_text (get "lease_digest" event.payload) (lease_digest host renewed))
      || not (is_text (get "status" event.payload) "claimed")
      || leb renewed.expires_at.instant event.recorded_at
      || leb renewed.expires_at.instant lease.expires_at.instant
      || not (same_but_expiry renewed lease)

  -- the lease is held, and its renewal in order
  unfoldable pub renewable : String → ReviewLease → Result ReviewLease
  unfolding is_odd_renewal
  renewable principal renewed = elim state.lease [
    | none ↦ refused
    | some lease ↦ do refuse (is_odd_renewal principal lease renewed); ok lease
  ]

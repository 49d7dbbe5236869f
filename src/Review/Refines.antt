-- ===== src/Review/Refines.antt =====
-- Each branch of the fold of a review, as a move.
use blackcell.Prelude.{
  ◌≡◌, ◌≢◌, ◌∙◌, ap, sym, refl, String, Bool, true, false, Option, none, some, arith, ok, >>=-eq-ok,
  raise_if-passed, ok-injective, Option-cases, inl, inr,
}
use blackcell.Json.{get}
use blackcell.Host.{Host}
use blackcell.Kernel.Event.{EventEnvelope}
use blackcell.Review.{
  exact, identifier, digest, failure_code, nonnegative_integer, review_provider_request_id,
}
use blackcell.Review.Lease.{ReviewLease, lease_digest}
use blackcell.Review.State.{Status, Fold, Kind, kind_of}
use blackcell.Review.Guards.{
  principal_of, is_claimed, is_dispatched, is_held, optional_digest, host_transition, active_lease,
}
use blackcell.Review.Fold.{
  dispatch_provider, succeed, give_up, requeue, require_reconciliation, dispatch, review_event,
}
use blackcell.Review.Move.{
  Goes, Move, claims, renews, dispatches, succeeds, fails, requeues, reconciles,
}
use blackcell.Review.Begun.{
  host_transition-ok, active_lease-ok, principal_of-actor, claim-Claims, renew-Renews,
}

-- a branch of the fold that leaves the lease as it is
abbrev going :
    (s t : Fold) (from : Option Status → Bool) (next : Status) (l : ReviewLease) (made : Fold)
    → s.lease ≡ some l
    → from s.status ≡ true
    → made.lease ≡ s.lease
    → made.status ≡ some next
    → made.baseline ≡ s.baseline
    → made ≡ t
    → Goes s t from next
going s t from next l made held was kept status baseline e = record {
  lease = l;
  held = held;
  was = was;
  kept = ap (λ (f : Fold). f.lease) (sym e) ∙ kept;
  status = ap (λ (f : Fold). f.status) (sym e) ∙ status;
  baseline = ap (λ (f : Fold). f.baseline) (sym e) ∙ baseline;
}

module _ (host : Host) (run_id : String) (s : Fold) (event : EventEnvelope) where
  dispatch_provider-Move :
      (principal : String) {t : Fold}
      → principal ≡ event.actor
      → dispatch_provider host run_id s event principal ≡ ok t
      → Move s t event Kind.provider_dispatch_started
  unfolding dispatch_provider
  dispatch_provider-Move principal {t} acts h =
      let (_, _, h1) = >>=-eq-ok (exact event.payload _) _ h in
      let (l, active, h2) =
        >>=-eq-ok (active_lease host run_id s event principal is_claimed false) _ h1 in
      let (_, _, h3) = >>=-eq-ok (identifier (get "provider_request_id" event.payload)) _ h2 in
      let (_, _, h4) = >>=-eq-ok (digest (get "acceptance_digest" event.payload)) _ h3 in
      let (_, _, h5) = >>=-eq-ok (digest (get "context_digest" event.payload)) _ h4 in
      let (_, _, h6) = >>=-eq-ok (review_provider_request_id (lease_digest host l)) _ h5 in
      let (_, h7) = raise_if-passed _ _ _ h6 in
      let (held, was, worker, in_time) =
        active_lease-ok host run_id s event principal is_claimed false active acts in
      dispatches
        (going s t is_claimed Status.provider_dispatched l _ held was refl refl refl
          (ok-injective h7))
        worker in_time

  succeed-Move :
      (principal : String) {t : Fold}
      → principal ≡ event.actor
      → succeed host run_id s event principal ≡ ok t
      → Move s t event Kind.succeeded
  unfolding succeed
  succeed-Move principal {t} acts h =
      let (_, _, h1) = >>=-eq-ok (exact event.payload _) _ h in
      let (l, active, h2) =
        >>=-eq-ok (active_lease host run_id s event principal is_dispatched false) _ h1 in
      let (_, _, h3) =
        >>=-eq-ok (nonnegative_integer (get "finding_count" event.payload) 64) _ h2 in
      let (_, h4) = raise_if-passed _ _ _ h3 in
      let (_, _, h5) = >>=-eq-ok (digest (get "proposal_artifact_digest" event.payload)) _ h4 in
      let (_, _, h6) =
        >>=-eq-ok (digest (get "provider_result_artifact_digest" event.payload)) _ h5 in
      let (_, _, h7) = >>=-eq-ok (digest (get "admitted_artifact_digest" event.payload)) _ h6 in
      let (held, was, worker, in_time) =
        active_lease-ok host run_id s event principal is_dispatched false active acts in
      succeeds
        (going s t is_dispatched Status.succeeded l _ held was refl refl refl (ok-injective h7))
        worker in_time

  give_up-Move :
      (principal : String) {t : Fold}
      → principal ≡ event.actor
      → give_up host run_id s event principal ≡ ok t
      → Move s t event Kind.failed
  unfolding give_up
  give_up-Move principal {t} acts h =
      let (_, _, h1) = >>=-eq-ok (exact event.payload _) _ h in
      let (l, active, h2) =
        >>=-eq-ok (active_lease host run_id s event principal is_held true) _ h1 in
      let (_, _, h3) = >>=-eq-ok (failure_code (get "failure_code" event.payload)) _ h2 in
      let (_, _, h4) =
        >>=-eq-ok (optional_digest (get "result_artifact_digest" event.payload)) _ h3 in
      let (_, h5) = raise_if-passed _ _ _ h4 in
      let (held, was, worker, _) =
        active_lease-ok host run_id s event principal is_held true active acts in
      fails (going s t is_held Status.failed l _ held was refl refl refl (ok-injective h5)) worker

  requeue-Move : {t : Fold} → requeue host run_id s event ≡ ok t → Move s t event Kind.requeued
  unfolding requeue
  requeue-Move {t} h =
      let (_, _, h1) = >>=-eq-ok (exact event.payload _) _ h in
      let (l, active, h2) = >>=-eq-ok (host_transition host run_id s event is_claimed) _ h1 in
      let (_, h3) = raise_if-passed _ _ _ h2 in
      let (held, was) = host_transition-ok host run_id s event is_claimed active in
      requeues (going s t is_claimed Status.requeued l _ held was refl refl refl (ok-injective h3))

  require_reconciliation-Move :
      {t : Fold}
      → require_reconciliation host run_id s event ≡ ok t
      → Move s t event Kind.reconciliation_required
  unfolding require_reconciliation
  require_reconciliation-Move {t} h =
      let (_, _, h1) = >>=-eq-ok (exact event.payload _) _ h in
      let (l, active, h2) = >>=-eq-ok (host_transition host run_id s event is_dispatched) _ h1 in
      let (_, _, h3) = >>=-eq-ok (failure_code (get "failure_code" event.payload)) _ h2 in
      let (_, h4) = raise_if-passed _ _ _ h3 in
      let (held, was) = host_transition-ok host run_id s event is_dispatched active in
      reconciles (
        going s t is_dispatched Status.reconciliation_required l _ held was refl refl refl
          (ok-injective h4))

  dispatch-Move :
      (kind : Kind) (principal : String) {t : Fold}
      → principal ≡ event.actor
      → dispatch host run_id s event (some kind) principal ≡ ok t
      → Move s t event kind
  unfolding dispatch
  dispatch-Move Kind.claimed principal acts h =
      claims (claim-Claims host run_id s event principal acts h)
  dispatch-Move Kind.lease_renewed principal acts h =
      renews (renew-Renews host run_id s event principal acts h)
  dispatch-Move Kind.provider_dispatch_started principal acts h =
      dispatch_provider-Move principal acts h
  dispatch-Move Kind.succeeded principal acts h = succeed-Move principal acts h
  dispatch-Move Kind.failed principal acts h = give_up-Move principal acts h
  dispatch-Move Kind.requeued principal acts h = requeue-Move h
  dispatch-Move Kind.reconciliation_required principal acts h = require_reconciliation-Move h

  no_kind : (principal : String) (t : Fold) → dispatch host run_id s event none principal ≢ ok t
  unfolding dispatch
  no_kind principal t = λ h. ground arith

-- What the fold of a review accepts is a move of its event's kind. A claim takes up a review that is
-- open, in the name of the event's actor, as the next attempt and under the next fencing token, for what
-- the first claim was for. The holder alone renews the lease, which puts off the expiry and keeps the
-- rest, asks the provider, once the review is claimed, or succeeds, once the provider is asked: the last
-- two before the lease runs out. The holder fails it at either point. A claimed review may be queued
-- again, and one whose provider is asked be left to reconciliation.
pub review_event-Move :
    (host : Host) (run_id : String) (s t : Fold) (event : EventEnvelope)
    → review_event host run_id s event ≡ ok t
    → (kind : Kind) × (kind_of event ≡ some kind) × Move s t event kind
unfolding review_event
review_event-Move host run_id s t event h =
    let (principal, named, h1) = >>=-eq-ok (principal_of event) _ h in
    let acts : principal ≡ event.actor = principal_of-actor host run_id s event named in
    elim (Option-cases (kind_of event)) [
      | inl unknown ↦
          let f : dispatch host run_id s event none principal ≡ ok t = rw unknown at h1 in
          absurd (no_kind host run_id s event principal t f)
      | inr (kind, known) ↦
          let f : dispatch host run_id s event (some kind) principal ≡ ok t = rw known at h1 in
          (kind, known, dispatch-Move host run_id s event kind principal acts f)
    ]

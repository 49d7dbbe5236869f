-- ===== src/Verify/Attempts.antt =====
-- Each branch of the fold, as a move.
use mathlib.Core.Path.{subst}
use blackcell.Prelude.{
  ◌+◌, ◌≡◌, ◌≢◌, ◌∙◌, ap, sym, String, true, false, Option, none, some, not, str_eq, arith, ok,
  >>=-eq-ok, raise_if-passed, ok-injective, Option-cases, inl, inr, eq_iff,
}
use blackcell.Json.{obj, get, is_text}
use blackcell.Host.{Host}
use blackcell.Kernel.Event.{EventEnvelope}
use blackcell.Verify.{mapping, exact, identifier, digest, failure_code}
use blackcell.Verify.Lease.{VerificationLease, lease_from_mapping}
use blackcell.Verify.State.{Status, Fold, Kind, kind_of}
use blackcell.Verify.Fold.{
  principal_of, is_claimed, is_open, follows, verdict_of, host_transition, active_lease,
  optional_digest, is_odd_claim, claimed_by, is_odd_requeue, claim, complete, give_up, requeue,
  dispatch, fold_event,
}
use blackcell.Verify.Move.{
  attempts_of, fence_of, Claims, Ends, Move, claims, completes, fails, requeues,
}

module _ (host : Host) (run_id : String) (s : Fold) (event : EventEnvelope) where
  follows_next :
      (o : Option VerificationLease) (c : VerificationLease)
      → follows o c event ≡ true
      → (c.attempt ≡ attempts_of o + 1) × (c.fencing_token ≡ fence_of o + 1)
  unfolding follows
  follows_next none c h = (ground arith, ground arith)
  follows_next (some l) c h = (ground arith, ground arith)

  host_transition-ok :
      {l : VerificationLease}
      → host_transition host run_id s event ≡ ok l
      → (s.lease ≡ some l) × (is_claimed s.status ≡ true)
  unfolding host_transition
  host_transition-ok {l} h = elim (Option-cases s.lease) [
    | inl missing ↦ ground arith
    | inr (lease, found) ↦ (ground arith, ground arith)
  ]

  odd_claim-Claims :
      (principal : String) (c : VerificationLease) {t : Fold}
      → is_open s.status ≡ true
      → is_odd_claim host run_id s event principal c ≡ false
      → claimed_by host run_id s event c ≡ t
      → Claims s t principal
  unfolding is_odd_claim
  odd_claim-Claims principal c {t} waiting fine made =
      let (attempt, fence) = follows_next s.lease c (ground arith) in
      record {
        lease = c;
        waiting = waiting;
        held = ap (λ (f : Fold). f.lease) (sym made);
        status = ap (λ (f : Fold). f.status) (sym made);
        baseline = ap (λ (f : Fold). f.baseline) (sym made);
        unchanged = ground arith;
        attempt = attempt;
        fence = fence;
        worker = ground (arith, eq_iff c.worker_id principal);
      }

  active_lease-ok :
      (principal : String) {l : VerificationLease}
      → active_lease host run_id s event principal ≡ ok l
      → (s.lease ≡ some l) × (is_claimed s.status ≡ true) × (l.worker_id ≡ principal)
  unfolding active_lease
  active_lease-ok principal {l} h =
      let (lease, found, h1) = >>=-eq-ok (host_transition host run_id s event) _ h in
      let (same, h2) = raise_if-passed (not (str_eq principal lease.worker_id)) _ _ h1 in
      let e : lease ≡ l = ok-injective h2 in
      let (held, status) = host_transition-ok found in
      (
        held ∙ ap (λ x. some x) e,
        status,
        ground (
          arith,
          ap (λ (x : VerificationLease). x.worker_id) e,
          eq_iff principal lease.worker_id,
        ),
      )

  other_worker :
      (principal : String) (l : VerificationLease)
      → is_odd_requeue host run_id s event principal l ≡ false
      → l.worker_id ≢ principal
  unfolding is_odd_requeue
  other_worker principal l fine = λ same. ground (arith, eq_iff principal l.worker_id)

  principal_of-actor :
      {principal : String} → principal_of event ≡ ok principal → principal ≡ event.actor
  unfolding principal_of
  principal_of-actor {principal} h =
      let (p, _, h1) = >>=-eq-ok (identifier (get "principal_id" event.payload)) _ h in
      let (fine, h2) = raise_if-passed (not (str_eq p event.actor)) _ _ h1 in
      let same : p ≡ event.actor = ground (arith, eq_iff p event.actor) in
      let e : p ≡ principal = ok-injective h2 in sym e ∙ same

  claim-Claims :
      (principal : String) {t : Fold}
      → claim host run_id s event principal ≡ ok t
      → Claims s t principal
  unfolding claim
  claim-Claims principal {t} h =
      let (_, _, h1) = >>=-eq-ok (exact event.payload _) _ h in
      let (waiting, h2) = raise_if-passed (not (is_open s.status)) _ _ h1 in
      let (lease, _, h3) = >>=-eq-ok (mapping (get "lease" event.payload)) _ h2 in
      let (c, _, h4) = >>=-eq-ok (lease_from_mapping host (obj lease)) _ h3 in
      let (fine, h5) = raise_if-passed (is_odd_claim host run_id s event principal c) _ _ h4 in
      let made : claimed_by host run_id s event c ≡ t = ok-injective h5 in
      odd_claim-Claims principal c (ground (arith, waiting)) fine made

  complete-Ends :
      (principal : String) {t : Fold}
      → complete host run_id s event principal ≡ ok t
      → (e : Ends s t Status.completed) × (e.lease.worker_id ≡ principal)
  unfolding complete active_lease
  complete-Ends principal {t} h =
      let (_, _, h1) = >>=-eq-ok (exact event.payload _) _ h in
      let (l, active, h2) = >>=-eq-ok (active_lease host run_id s event principal) _ h1 in
      let (_, _, h3) = >>=-eq-ok (verdict_of (get "verdict" event.payload)) _ h2 in
      let (_, _, h4) = >>=-eq-ok (digest (get "report_artifact_digest" event.payload)) _ h3 in
      let (_, _, h5) = >>=-eq-ok (digest (get "matrix_digest" event.payload)) _ h4 in
      let (_, h6) =
        raise_if-passed (not (is_text (get "status" event.payload) "completed")) _ _ h5 in
      let made = ok-injective h6 in
      let (held, claimed, worker) = active_lease-ok principal active in
      (
        record {
          lease = l;
          held = held;
          claimed = claimed;
          kept = ap (λ (f : Fold). f.lease) (sym made) ∙ sym held;
          baseline = ap (λ (f : Fold). f.baseline) (sym made);
          status = ap (λ (f : Fold). f.status) (sym made);
        },
        worker,
      )

  give_up-Ends :
      (principal : String) {t : Fold}
      → give_up host run_id s event principal ≡ ok t
      → (e : Ends s t Status.failed) × (e.lease.worker_id ≡ principal)
  unfolding give_up
  give_up-Ends principal {t} h =
      let (_, _, h1) = >>=-eq-ok (exact event.payload _) _ h in
      let (l, active, h2) = >>=-eq-ok (active_lease host run_id s event principal) _ h1 in
      let (_, _, h3) = >>=-eq-ok (failure_code (get "failure_code" event.payload)) _ h2 in
      let (_, _, h4) =
        >>=-eq-ok (optional_digest host run_id s event (get "result_artifact_digest" event.payload))
          _ h3 in
      let (_, h5) =
        raise_if-passed (not (is_text (get "status" event.payload) "verifier-error")) _ _ h4 in
      let made = ok-injective h5 in
      let (held, claimed, worker) = active_lease-ok principal active in
      (
        record {
          lease = l;
          held = held;
          claimed = claimed;
          kept = ap (λ (f : Fold). f.lease) (sym made);
          baseline = ap (λ (f : Fold). f.baseline) (sym made);
          status = ap (λ (f : Fold). f.status) (sym made);
        },
        worker,
      )

  requeue-Ends :
      (principal : String) {t : Fold}
      → requeue host run_id s event principal ≡ ok t
      → (e : Ends s t Status.requeued) × (e.lease.worker_id ≢ principal)
  unfolding requeue
  requeue-Ends principal {t} h =
      let (_, _, h1) = >>=-eq-ok (exact event.payload _) _ h in
      let (l, active, h2) = >>=-eq-ok (host_transition host run_id s event) _ h1 in
      let (fine, h3) = raise_if-passed (is_odd_requeue host run_id s event principal l) _ _ h2 in
      let made = ok-injective h3 in
      let (held, claimed) = host_transition-ok active in
      (
        record {
          lease = l;
          held = held;
          claimed = claimed;
          kept = ap (λ (f : Fold). f.lease) (sym made);
          baseline = ap (λ (f : Fold). f.baseline) (sym made);
          status = ap (λ (f : Fold). f.status) (sym made);
        },
        other_worker principal l fine,
      )

  dispatch-Move :
      (kind : Kind) (principal : String) {t : Fold}
      → dispatch host run_id s event (some kind) principal ≡ ok t
      → Move s t principal kind
  unfolding dispatch
  dispatch-Move Kind.claimed principal h = claims (claim-Claims principal h)
  dispatch-Move Kind.completed principal h =
      let (e, worker) = complete-Ends principal h in completes e worker
  dispatch-Move Kind.failed principal h =
      let (e, worker) = give_up-Ends principal h in fails e worker
  dispatch-Move Kind.requeued principal h =
      let (e, other) = requeue-Ends principal h in requeues e other

  no_kind : (principal : String) (t : Fold) → dispatch host run_id s event none principal ≢ ok t
  unfolding dispatch
  no_kind principal t = λ h. ground arith

-- What the fold accepts is a move of its event's kind. A claim takes up a verification that is open, in
-- the name of the event's actor, as the next attempt and under the next fencing token, and is for what
-- the first claim was for; the holder of the lease alone completes or fails it; only somebody else
-- gives it back.
pub fold_event-Move :
    (host : Host) (run_id : String) (s t : Fold) (event : EventEnvelope)
    → fold_event host run_id s event ≡ ok t
    → (kind : Kind) × (kind_of event ≡ some kind) × Move s t event.actor kind
unfolding fold_event
fold_event-Move host run_id s t event h =
    let (principal, named, h1) = >>=-eq-ok (principal_of event) _ h in
    let e : principal ≡ event.actor = principal_of-actor host run_id s event named in
    elim (Option-cases (kind_of event)) [
      | inl unknown ↦
          let f : dispatch host run_id s event none principal ≡ ok t = rw unknown at h1 in
          absurd (no_kind host run_id s event principal t f)
      | inr (kind, known) ↦
          let f : dispatch host run_id s event (some kind) principal ≡ ok t = rw known at h1 in
          (
            kind,
            known,
            subst (λ a. Move s t a kind) e (dispatch-Move host run_id s event kind principal f),
          )
    ]

-- ===== src/Review/Accepted.antt =====
-- A review whose history the fold accepts: its attempts, and what the provider was asked.
use blackcell.Prelude.{
  ◌≡◌, ◌∙◌, ap, sym, refl, String, true, some, List, [], ◌∷◌, ◌||◌, not, leb, arith, ok, >>=-eq-ok,
  raise_if-passed, Option-cases, inl, inr, all, str_eq,
}
use blackcell.Json.{text}
use blackcell.Host.{Host}
use blackcell.Kernel.Event.{EventEnvelope}
use blackcell.Lifecycle.Fold.{causes_ok, last_event}
use blackcell.Review.{identifier, review_stream}
use blackcell.Review.State.{ReviewLifecycleState, Fold, start}
use blackcell.Review.Stream.{envelopes_ok, review_events, result_of, fold_review_lifecycle}
use blackcell.Review.Move.{attempts_of, fence_of}
use blackcell.Review.Requests.{claims_in, requests_in, fewest_requests, most_requests}
use blackcell.Review.History.{IsCounted, renumbered, review_events-IsCounted}

result_of-lease :
    (run_id : String) (latest : EventEnvelope) (t : Fold) {state : ReviewLifecycleState}
    → result_of run_id latest t ≡ ok state
    → (t.lease ≡ some state.lease) × (t.status ≡ some state.status)
unfolding result_of
result_of-lease run_id latest t h = elim (Option-cases t.status) [
  | inl missing ↦ ground arith
  | inr (status, e) ↦ elim (Option-cases t.lease) [
    | inl missing ↦ ground arith
    | inr (lease, f) ↦ (ground arith, ground arith)
  ]
]

-- The parts of a history that is accepted.
pub accepted_parts :
    (host : Host) (run_id : String) (events : List EventEnvelope) {state : ReviewLifecycleState}
    → fold_review_lifecycle host run_id events ≡ ok state
    → (t : Fold) × (review_events host run_id start events ≡ ok t)
      × (t.lease ≡ some state.lease)
      × (t.status ≡ some state.status)
unfolding fold_review_lifecycle
accepted_parts host run_id [] h =
    let (_, _, h1) = >>=-eq-ok (identifier (text run_id)) _ h in ground arith
accepted_parts host run_id (event ∷ events) h =
    let (_, _, h1) = >>=-eq-ok (identifier (text run_id)) _ h in
    let (stream_id, _, h2) = >>=-eq-ok (review_stream run_id) _ h1 in
    let (_, h3) = raise_if-passed (not (envelopes_ok stream_id 1 (event ∷ events))) _ _ h2 in
    let (_, h4) =
      raise_if-passed
        (not (all (λ e. str_eq e.correlation_id event.correlation_id) (event ∷ events))
          || not (causes_ok event events))
        _ _ h3 in
    let (t, found, h5) = >>=-eq-ok (review_events host run_id start (event ∷ events)) _ h4 in
    let (held, status) = result_of-lease run_id (last_event event events) t h5 in
    (t, found, held, status)

accepted-IsCounted :
    (host : Host) (run_id : String) (t : Fold) (events : List EventEnvelope)
    → review_events host run_id start events ≡ ok t
    → IsCounted t (claims_in events) (requests_in events)
unfolding fewest_requests most_requests
accepted-IsCounted host run_id t events h =
    let none_yet : IsCounted start 0 0 = record {
      attempt = refl;
      fence = refl;
      least = refl;
      most = refl;
    } in
    renumbered t (omega arith) (omega arith)
      (review_events-IsCounted host run_id start t events 0 0 h none_yet)

-- In a history of a review that the fold accepts, the attempt and the fencing token of the lease are the
-- number of times the review has been claimed.
pub fold_review_lifecycle-attempts :
    (host : Host) (run_id : String) (events : List EventEnvelope) (state : ReviewLifecycleState)
    → fold_review_lifecycle host run_id events ≡ ok state
    → (state.lease.attempt ≡ claims_in events) × (state.lease.fencing_token ≡ claims_in events)
fold_review_lifecycle-attempts host run_id events state h =
    let (t, found, held, _) = accepted_parts host run_id events h in
    let i = accepted-IsCounted host run_id t events found in
    (sym (ap attempts_of held) ∙ i.attempt, sym (ap fence_of held) ∙ i.fence)

-- However often a review is claimed and queued again, the provider is asked at most once: exactly once if
-- the review has the status of a dispatch, of a success or of a reconciliation, never if it is claimed or
-- queued again, and at most once if it has failed.
pub fold_review_lifecycle-requests :
    (host : Host) (run_id : String) (events : List EventEnvelope) (state : ReviewLifecycleState)
    → fold_review_lifecycle host run_id events ≡ ok state
    → (leb (fewest_requests (some state.status)) (requests_in events) ≡ true)
      × (leb (requests_in events) (most_requests (some state.status)) ≡ true)
fold_review_lifecycle-requests host run_id events state h =
    let (t, found, _, status) = accepted_parts host run_id events h in
    let i = accepted-IsCounted host run_id t events found in
    (
      ap (λ o. leb (fewest_requests o) (requests_in events)) (sym status) ∙ i.least,
      ap (λ o. leb (requests_in events) (most_requests o)) (sym status) ∙ i.most,
    )

-- ===== src/Review/Lease.antt =====
-- orchestration/review_lifecycle.py: `ReviewCandidate` and `ReviewLease`, the payload of a lease and
-- its reader. Counts that are never below 0 are natural numbers.
use blackcell.Prelude.{
  ℕ, pos, String, Bool, List, [], ◌∷◌, Option, none, some, ◌||◌, not, ltb, str_eq, all, ok, ◌>>=◌,
  ◌>>◌,
}
use blackcell.Prelude.Patterns.{is_digest}
use blackcell.Json.{Json, text, int, obj, dict, get, is_text}
use blackcell.Host.{Host, DateTime, json_digest}
use blackcell.Verify.{Result, is_identifier, review_id}
use blackcell.Review.{
  refused, refuse, mapping, exact, text_value, identifier, digest, positive_integer,
}

pub record ReviewCandidate : Type 0 where
  pub run_id : String
  pub review_id : String
  pub correlation_id : String
  pub run_event_id : String
  pub run_event_digest : String
  pub state_digest : String
  pub artifact_evidence_digest : String

pub record ReviewLease : Type 0 where
  pub run_id : String
  pub review_id : String
  pub attempt : ℕ
  pub fencing_token : ℕ
  pub worker_id : String
  pub run_event_id : String
  pub run_event_digest : String
  pub state_digest : String
  pub artifact_evidence_digest : String
  pub expires_at : DateTime
  pub schema_version : String

-- the fields of a lease that no retry changes: `_immutable_lease_identity`
abbrev pub immutable_identity : ReviewLease → List String
immutable_identity l =
    l.run_id ∷ l.review_id ∷ l.run_event_id ∷ l.run_event_digest ∷ l.state_digest
    ∷ l.artifact_evidence_digest ∷ []

-- the texts and the numbers of `_renewable_lease_identity`: what a renewal keeps
abbrev pub renewable_identity : ReviewLease → List String × ℕ × ℕ
renewable_identity l = (
  l.schema_version ∷ l.run_id ∷ l.review_id ∷ l.worker_id ∷ l.run_event_id ∷ l.run_event_digest
      ∷ l.state_digest ∷ l.artifact_evidence_digest ∷ [],
  l.attempt,
  l.fencing_token,
)

-- the checks of `ReviewLease.__post_init__`
unfoldable pub is_odd_lease : ReviewLease → Bool
is_odd_lease l =
    not (str_eq l.schema_version "review-lease/v1")
    || not (all is_identifier (l.run_id ∷ l.review_id ∷ l.worker_id ∷ l.run_event_id ∷ []))
    || ltb l.attempt 1
    || ltb l.fencing_token 1
    || not (all is_digest (l.run_event_digest ∷ l.state_digest ∷ l.artifact_evidence_digest ∷ []))
    || not l.expires_at.is_aware

-- `ReviewLease.__post_init__`
unfoldable pub new_lease : ReviewLease → Result ReviewLease
unfolding is_odd_lease
new_lease l = do refuse (is_odd_lease l); ok l

module _ (host : Host) where
  -- `ReviewCandidate.__post_init__`
  unfoldable pub new_candidate : ReviewCandidate → Result ReviewCandidate
  unfolding identifier
  new_candidate c = do
    refuse
        (not (all is_identifier (c.run_id ∷ c.review_id ∷ c.correlation_id ∷ c.run_event_id ∷ [])))
    refuse (
        not (all is_digest (c.run_event_digest ∷ c.state_digest ∷ c.artifact_evidence_digest ∷ [])))
    review ← review_id host c.run_id c.run_event_digest
    refuse (not (str_eq c.review_id review))
    ok c

  -- `review_lease_payload`
  unfoldable pub lease_payload : ReviewLease → Json
  lease_payload l = obj (
      dict (
        ("schema_version", text l.schema_version)
        ∷ ("run_id", text l.run_id)
        ∷ ("review_id", text l.review_id)
        ∷ ("attempt", int (pos l.attempt))
        ∷ ("fencing_token", int (pos l.fencing_token))
        ∷ ("worker_id", text l.worker_id)
        ∷ ("run_event_id", text l.run_event_id)
        ∷ ("run_event_digest", text l.run_event_digest)
        ∷ ("state_digest", text l.state_digest)
        ∷ ("artifact_evidence_digest", text l.artifact_evidence_digest)
        ∷ ("expires_at", text (host.isoformat_at l.expires_at))
        ∷ []))

  -- `ReviewLease.digest`
  unfoldable pub lease_digest : ReviewLease → String
  unfolding lease_payload
  lease_digest l = json_digest host (lease_payload l)

  abbrev pub or_refused : Option DateTime → Result DateTime
  or_refused none = refused
  or_refused (some time) = ok time

  -- `review_lease_from_mapping`
  unfoldable pub lease_from_mapping : Json → Result ReviewLease
  unfolding exact text_value identifier digest positive_integer new_lease
  lease_from_mapping value = do
    raw ← mapping value
    exact raw (
        "schema_version" ∷ "run_id" ∷ "review_id" ∷ "attempt" ∷ "fencing_token" ∷ "worker_id"
        ∷ "run_event_id" ∷ "run_event_digest" ∷ "state_digest" ∷ "artifact_evidence_digest"
        ∷ "expires_at" ∷ [])
    refuse (not (is_text (get "schema_version" raw) "review-lease/v1"))
    expires ← text_value (get "expires_at" raw)
    expires_at ← or_refused (host.fromisoformat expires)
    run_id ← identifier (get "run_id" raw)
    review ← identifier (get "review_id" raw)
    attempt ← positive_integer (get "attempt" raw)
    fencing_token ← positive_integer (get "fencing_token" raw)
    worker_id ← identifier (get "worker_id" raw)
    run_event_id ← identifier (get "run_event_id" raw)
    run_event_digest ← digest (get "run_event_digest" raw)
    state_digest ← digest (get "state_digest" raw)
    artifact_evidence_digest ← digest (get "artifact_evidence_digest" raw)
    new_lease (record {
      run_id = run_id;
      review_id = review;
      attempt = attempt;
      fencing_token = fencing_token;
      worker_id = worker_id;
      run_event_id = run_event_id;
      run_event_digest = run_event_digest;
      state_digest = state_digest;
      artifact_evidence_digest = artifact_evidence_digest;
      expires_at = expires_at;
      schema_version = "review-lease/v1";
    })

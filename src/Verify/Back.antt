-- ===== src/Verify/Back.antt =====
-- What `verification_lease_from_mapping` reads back from a stored lease.
use blackcell.Prelude.{
  ℕ, pos, ◌≡◌, ◌∙◌, ap, sym, refl, String, true, false, some, ◌||◌, not, ltb, leb, str_eq, arith,
  ok, Bool-cases, inl, inr, raise_if-passed, >>=-eq-ok, eq_iff,
}
use blackcell.Prelude.Patterns.{fullmatch, is_digest}
use blackcell.Prelude.Text.{after_prefix}
use blackcell.Json.{text, int, get, find, keys, has_exactly, is_text}
use blackcell.Host.{Host}
use blackcell.Verify.{
  exact, text_value, is_identifier, identifier, digest, positive_integer, nonnegative_integer,
}
use blackcell.Verify.Lease.{
  VerificationLease, candidate_of, is_odd_candidate, is_odd_lease, new_candidate, new_lease,
  lease_payload, lease_from_mapping,
}

identifier-not_empty : (s : String) → is_identifier s ≡ true → str_eq s "" ≡ false
unfolding is_identifier fullmatch
identifier-not_empty s h = elim (Bool-cases (str_eq s "")) [
  | inr full ↦ full
  | inl empty ↦
      let e : s ≡ "" = ground (arith, eq_iff s "") in
      let f : is_identifier "" ≡ true = rw e at h in ground arith
]

digest-not_empty : (s : String) → is_digest s ≡ true → str_eq s "" ≡ false
unfolding is_digest after_prefix
digest-not_empty s h = elim (Bool-cases (str_eq s "")) [
  | inr full ↦ full
  | inl empty ↦
      let e : s ≡ "" = ground (arith, eq_iff s "") in
      let f : is_digest "" ≡ true = rw e at h in ground arith
]

identifier-ok : (s : String) → is_identifier s ≡ true → identifier (text s) ≡ ok s
unfolding identifier text_value
identifier-ok s h = rw (identifier-not_empty s h, h) refl

digest-ok : (s : String) → is_digest s ≡ true → digest (text s) ≡ ok s
unfolding digest text_value
digest-ok s h = rw (digest-not_empty s h, h) refl

module _ (host : Host) where
  -- The fields of a constructed lease pass the checks of their own.
  new_lease-fields :
      (l : VerificationLease) {made : VerificationLease}
      → new_lease host l ≡ ok made
      → (is_odd_candidate (candidate_of l) ≡ false) × (is_odd_lease l ≡ false)
  unfolding new_lease new_candidate
  new_lease-fields l h =
      let (c, first, h1) = >>=-eq-ok (new_candidate host (candidate_of l)) _ h in
      let (plain, h2) = raise_if-passed (is_odd_candidate (candidate_of l)) _ _ first in
      let (fine, h3) = raise_if-passed (is_odd_lease l || not (str_eq c.run_id l.run_id)) _ _ h1 in
      (plain, ground (arith, fine))

parts :
    (l : VerificationLease)
    → is_odd_candidate (candidate_of l) ≡ false
    → (is_identifier l.run_id ≡ true)
      × (is_identifier l.verification_id ≡ true)
      × (is_identifier l.run_event_id ≡ true)
      × (is_identifier l.review_id ≡ true)
      × (is_identifier l.review_event_id ≡ true)
      × (is_digest l.run_event_digest ≡ true)
      × (is_digest l.state_digest ≡ true)
      × (is_digest l.artifact_evidence_digest ≡ true)
      × (is_digest l.review_event_digest ≡ true)
      × (is_digest l.acceptance_digest ≡ true)
      × (is_digest l.context_digest ≡ true)
      × (is_digest l.proposal_artifact_digest ≡ true)
      × (is_digest l.provider_result_artifact_digest ≡ true)
      × (is_digest l.admitted_review_digest ≡ true)
      × (leb l.finding_count 64 ≡ true)
unfolding is_odd_candidate
parts l h = (
  ground arith,
  ground arith,
  ground arith,
  ground arith,
  ground arith,
  ground arith,
  ground arith,
  ground arith,
  ground arith,
  ground arith,
  ground arith,
  ground arith,
  ground arith,
  ground arith,
  ground arith,
)

lease_parts :
    (l : VerificationLease)
    → is_odd_lease l ≡ false
    → (str_eq l.schema_version "verification-lease/v1" ≡ true)
      × (is_identifier l.worker_id ≡ true)
      × (ltb l.attempt 1 ≡ false)
      × (ltb l.fencing_token 1 ≡ false)
unfolding is_odd_lease
lease_parts l h = (ground arith, ground arith, ground arith, ground arith)

positive-ok : (n : ℕ) → ltb n 1 ≡ false → positive_integer (int (pos n)) ≡ ok n
unfolding positive_integer
positive-ok n h = rw h refl

-- A constructed lease is read back from its payload unchanged, if its time of expiry is read back from
-- the text it is written as.
pub lease_from_mapping-lease_payload :
    (host : Host) (lease : VerificationLease)
    → new_lease host lease ≡ ok lease
    → str_eq (host.isoformat_at lease.expires_at) "" ≡ false
    → host.fromisoformat (host.isoformat_at lease.expires_at) ≡ some lease.expires_at
    → lease_from_mapping host (lease_payload host lease) ≡ ok lease
unfolding lease_from_mapping lease_payload exact text_value nonnegative_integer get find keys
    has_exactly is_text
lease_from_mapping-lease_payload host l made written read =
    let (plain, fine) = new_lease-fields host l made in
    let (i1, i2, i3, i4, i5, d1, d2, d3, d4, d5, d6, d7, d8, d9, few) = parts l plain in
    let (known, worker, some_attempt, some_fence) = lease_parts l fine in
    let version : l.schema_version ≡ "verification-lease/v1" =
      ground (arith, known, eq_iff l.schema_version "verification-lease/v1") in
    rw
      (
        known,
        written,
        read,
        identifier-ok l.run_id i1,
        identifier-ok l.verification_id i2,
        positive-ok l.attempt some_attempt,
        positive-ok l.fencing_token some_fence,
        identifier-ok l.worker_id worker,
        identifier-ok l.run_event_id i3,
        digest-ok l.run_event_digest d1,
        digest-ok l.state_digest d2,
        digest-ok l.artifact_evidence_digest d3,
        identifier-ok l.review_id i4,
        identifier-ok l.review_event_id i5,
        digest-ok l.review_event_digest d4,
        digest-ok l.acceptance_digest d5,
        digest-ok l.context_digest d6,
        digest-ok l.proposal_artifact_digest d7,
        digest-ok l.provider_result_artifact_digest d8,
        digest-ok l.admitted_review_digest d9,
        few,
      )
      (ap (λ s. new_lease host (record l { schema_version = s })) (sym version) ∙ made)

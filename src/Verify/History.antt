-- ===== src/Verify/History.antt =====
-- What the fold of a whole history leaves: attempts, identity and ending of a verification.
use blackcell.Prelude.{
  ℕ, ◌+◌, ◌≡◌, ◌∙◌, ap, refl, String, Bool, true, false, Option, some, List, [], ◌∷◌, ◌||◌, not,
  arith, ok, >>=-eq-ok, raise_if-passed, ok-injective, Option-cases, inl, inr, if◌then◌else◌, all,
  str_eq,
}
use blackcell.Json.{text}
use blackcell.Host.{Host}
use blackcell.Kernel.Event.{EventEnvelope}
use blackcell.Lifecycle.Fold.{causes_ok, last_event}
use blackcell.Verify.{identifier, verification_stream}
use blackcell.Verify.State.{Status, VerificationLifecycleState, Fold, start, Kind, kind_of}
use blackcell.Verify.Fold.{fold_event}
use blackcell.Verify.Stream.{envelopes_ok, fold_events, result_of, fold_verification_lifecycle}
use blackcell.Verify.Move.{attempts_of, fence_of, Ends, Move, claims, completes, fails, requeues}
use blackcell.Verify.Attempts.{fold_event-Move}

abbrev is_claim : Option Kind → Bool
is_claim (some Kind.claimed) = true
is_claim _ = false

-- the number of claims among the events
unfoldable pub claims_in : List EventEnvelope → ℕ
unfolding kind_of
claims_in [] = 0
claims_in (event ∷ events) = (if is_claim (kind_of event) then 1 else 0) + claims_in events

-- the lease's attempt and fencing token are `n`
record IsCounted (s : Fold) (n : ℕ) : Type 0 where
  attempt : attempts_of s.lease ≡ n
  fence : fence_of s.lease ≡ n

one_more : Kind → ℕ → ℕ
one_more Kind.claimed n = n + 1
one_more _ n = n

Ends-IsCounted :
    (s t : Fold) (n : ℕ) {ending : Status} → Ends s t ending → IsCounted s n → IsCounted t n
Ends-IsCounted s t n e i = record {
  attempt = ap attempts_of e.kept ∙ i.attempt;
  fence = ap fence_of e.kept ∙ i.fence;
}

Move-IsCounted :
    (s t : Fold) (actor : String) (kind : Kind) (n : ℕ)
    → Move s t actor kind
    → IsCounted s n
    → IsCounted t (one_more kind n)
unfolding one_more
Move-IsCounted s t actor kind n (claims c) i = record {
  attempt = ap attempts_of c.held ∙ c.attempt ∙ ap (λ m. m + 1) i.attempt;
  fence = ap fence_of c.held ∙ c.fence ∙ ap (λ m. m + 1) i.fence;
}
Move-IsCounted s t actor kind n (completes e _) i = Ends-IsCounted s t n e i
Move-IsCounted s t actor kind n (fails e _) i = Ends-IsCounted s t n e i
Move-IsCounted s t actor kind n (requeues e _) i = Ends-IsCounted s t n e i

one_more_claim :
    (event : EventEnvelope) (kind : Kind) (n m : ℕ)
    → kind_of event ≡ some kind
    → one_more kind n + m ≡ n + ((if is_claim (kind_of event) then 1 else 0) + m)
unfolding one_more
one_more_claim event Kind.claimed n m known = rw known (omega arith)
one_more_claim event Kind.completed n m known = rw known (omega arith)
one_more_claim event Kind.failed n m known = rw known (omega arith)
one_more_claim event Kind.requeued n m known = rw known (omega arith)

result_of-lease :
    (run_id : String) (latest : EventEnvelope) (t : Fold) {state : VerificationLifecycleState}
    → result_of run_id latest t ≡ ok state
    → t.lease ≡ some state.lease
unfolding result_of
result_of-lease run_id latest t h = elim (Option-cases t.status) [
  | inl missing ↦ ground arith
  | inr (status, e) ↦ elim (Option-cases t.lease) [
    | inl missing ↦ ground arith
    | inr (lease, f) ↦ ground arith
  ]
]

fold_events-IsCounted :
    (host : Host) (run_id : String) (s t : Fold) (events : List EventEnvelope) (n : ℕ)
    → fold_events host run_id s events ≡ ok t
    → IsCounted s n
    → IsCounted t (n + claims_in events)
unfolding fold_events claims_in
fold_events-IsCounted host run_id s t [] n h i =
    let e : s ≡ t = ok-injective h in
    record {
      attempt = omega (arith, ap (λ (f : Fold). attempts_of f.lease) e, i.attempt);
      fence = omega (arith, ap (λ (f : Fold). fence_of f.lease) e, i.fence);
    }
fold_events-IsCounted host run_id s t (event ∷ events) n h i =
    let (u, moved, rest) = >>=-eq-ok (fold_event host run_id s event) _ h in
    let (kind, known, move) = fold_event-Move host run_id s u event moved in
    let next = Move-IsCounted s u event.actor kind n move i in
    let all = fold_events-IsCounted host run_id u t events (one_more kind n) rest next in
    let e = one_more_claim event kind n (claims_in events) known in
    record { attempt = all.attempt ∙ e; fence = all.fence ∙ e }

-- The parts of a history that is accepted.
pub fold-parts :
    (host : Host) (run_id : String) (events : List EventEnvelope)
    {state : VerificationLifecycleState}
    → fold_verification_lifecycle host run_id events ≡ ok state
    → (t : Fold) × (fold_events host run_id start events ≡ ok t) × (t.lease ≡ some state.lease)
unfolding fold_verification_lifecycle
fold-parts host run_id [] h =
    let (_, _, h1) = >>=-eq-ok (identifier (text run_id)) _ h in ground arith
fold-parts host run_id (event ∷ events) h =
    let (_, _, h1) = >>=-eq-ok (identifier (text run_id)) _ h in
    let (stream_id, _, h2) = >>=-eq-ok (verification_stream run_id) _ h1 in
    let (_, h3) = raise_if-passed (not (envelopes_ok stream_id 1 (event ∷ events))) _ _ h2 in
    let (_, h4) =
      raise_if-passed
        (not (all (λ e. str_eq e.correlation_id event.correlation_id) (event ∷ events))
          || not (causes_ok event events))
        _ _ h3 in
    let (t, found, h5) = >>=-eq-ok (fold_events host run_id start (event ∷ events)) _ h4 in
    (t, found, result_of-lease run_id (last_event event events) t h5)

-- In a history that the fold accepts, the attempt and the fencing token of the lease are the number of
-- times the verification has been claimed.
pub fold_verification_lifecycle-attempts :
    (host : Host) (run_id : String) (events : List EventEnvelope)
    (state : VerificationLifecycleState)
    → fold_verification_lifecycle host run_id events ≡ ok state
    → (state.lease.attempt ≡ claims_in events) × (state.lease.fencing_token ≡ claims_in events)
fold_verification_lifecycle-attempts host run_id events state h =
    let (t, found, held) = fold-parts host run_id events h in
    let i =
      fold_events-IsCounted host run_id start t events 0 found
        (record { attempt = refl; fence = refl }) in
    (omega (arith, ap attempts_of held, i.attempt), omega (arith, ap fence_of held, i.fence))

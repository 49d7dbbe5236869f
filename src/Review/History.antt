-- ===== src/Review/History.antt =====
-- What the fold of a whole history of a review leaves: the claims and what the provider is asked.
use mathlib.Core.Path.{subst}
use blackcell.Prelude.{
  ℕ, ◌+◌, ◌≡◌, ◌∙◌, ap, sym, refl, String, Bool, true, Option, some, List, [], ◌∷◌, leb, arith, ok,
  >>=-eq-ok, ok-injective, if◌then◌else◌,
}
use blackcell.Host.{Host}
use blackcell.Kernel.Event.{EventEnvelope}
use blackcell.Review.State.{Status, Fold, Kind, kind_of}
use blackcell.Review.Guards.{is_claimed, is_dispatched, is_held, same_but_expiry}
use blackcell.Review.Fold.{review_event}
use blackcell.Review.Stream.{review_events}
use blackcell.Review.Move.{
  attempts_of, fence_of, Claims, Renews, Goes, Move, claims, renews, dispatches, succeeds, fails,
  requeues, reconciles,
}
use blackcell.Review.Refines.{review_event-Move}
use blackcell.Review.Requests.{
  is_claim, is_request, claims_in, requests_in, fewest_requests, most_requests, Fits, open_none,
  claimed_none, dispatched_one, one_at_most,
}

-- `n` claims and `m` requests lead to the fold
pub record IsCounted (s : Fold) (n m : ℕ) : Type 0 where
  pub attempt : attempts_of s.lease ≡ n
  pub fence : fence_of s.lease ≡ n
  pub least : leb (fewest_requests s.status) m ≡ true
  pub most : leb m (most_requests s.status) ≡ true

more_claims : Kind → ℕ → ℕ
more_claims Kind.claimed n = n + 1
more_claims _ n = n

more_requests : Kind → ℕ → ℕ
more_requests Kind.provider_dispatch_started m = m + 1
more_requests _ m = m

requests_fit : (s : Fold) (n m : ℕ) → IsCounted s n m → Fits s.status m
requests_fit s n m i = (i.least, i.most)

counted :
    (t : Fold) (n m : ℕ)
    → (attempts_of t.lease ≡ n) × (fence_of t.lease ≡ n)
    → Fits t.status m
    → IsCounted t n m
counted t n m (attempt, fence) (least, most) = record {
  attempt = attempt;
  fence = fence;
  least = least;
  most = most;
}

kept_numbers :
    (s t : Fold) (n m : ℕ)
    → t.lease ≡ s.lease
    → IsCounted s n m
    → (attempts_of t.lease ≡ n) × (fence_of t.lease ≡ n)
kept_numbers s t n m e i = (ap attempts_of e ∙ i.attempt, ap fence_of e ∙ i.fence)

next_fit :
    (t : Fold) (status : Status) (m : ℕ)
    → t.status ≡ some status
    → Fits (some status) m
    → Fits t.status m
next_fit t status m e f = subst (λ o. Fits o m) (sym e) f

Claims-IsCounted :
    (s t : Fold) (event : EventEnvelope) (n m : ℕ)
    → Claims s t event
    → IsCounted s n m
    → IsCounted t (n + 1) m
unfolding fewest_requests most_requests
Claims-IsCounted s t event n m c i =
    let none_yet = open_none s.status m c.waiting (requests_fit s n m i) in
    counted t (n + 1) m
      (
        ap attempts_of c.held ∙ c.attempt ∙ ap (λ k. k + 1) i.attempt,
        ap fence_of c.held ∙ c.fence ∙ ap (λ k. k + 1) i.fence,
      )
      (next_fit t Status.claimed m c.status (rw none_yet refl, rw none_yet refl))

Renews-IsCounted :
    (s t : Fold) (event : EventEnvelope) (n m : ℕ)
    → Renews s t event
    → IsCounted s n m
    → IsCounted t n m
unfolding same_but_expiry
Renews-IsCounted s t event n m r i =
    let same : r.renewed.attempt ≡ r.lease.attempt = ground (arith, r.same) in
    let fence : r.renewed.fencing_token ≡ r.lease.fencing_token = ground (arith, r.same) in
    counted t n m
      (
        ap attempts_of r.kept ∙ same ∙ sym (ap attempts_of r.held) ∙ i.attempt,
        ap fence_of r.kept ∙ fence ∙ sym (ap fence_of r.held) ∙ i.fence,
      )
      (subst (λ o. Fits o m) (sym r.status) (requests_fit s n m i))

Goes-IsCounted :
    (s t : Fold) (from : Option Status → Bool) (next : Status) (n m k : ℕ)
    → Goes s t from next
    → IsCounted s n m
    → Fits (some next) k
    → IsCounted t n k
Goes-IsCounted s t from next n m k g i f =
    counted t n k (kept_numbers s t n m g.kept i) (next_fit t next k g.status f)

Move-IsCounted :
    (s t : Fold) (event : EventEnvelope) (kind : Kind) (n m : ℕ)
    → Move s t event kind
    → IsCounted s n m
    → IsCounted t (more_claims kind n) (more_requests kind m)
unfolding more_claims more_requests fewest_requests most_requests
Move-IsCounted s t event kind n m (claims c) i = Claims-IsCounted s t event n m c i
Move-IsCounted s t event kind n m (renews r) i = Renews-IsCounted s t event n m r i
Move-IsCounted s t event kind n m (dispatches g _ _) i =
    let none_yet = claimed_none s.status m g.was (requests_fit s n m i) in
    Goes-IsCounted s t is_claimed Status.provider_dispatched n m (m + 1) g i
      (rw none_yet refl, rw none_yet refl)
Move-IsCounted s t event kind n m (succeeds g _ _) i =
    let one = dispatched_one s.status m g.was (requests_fit s n m i) in
    Goes-IsCounted s t is_dispatched Status.succeeded n m m g i (rw one refl, rw one refl)
Move-IsCounted s t event kind n m (fails g _) i =
    Goes-IsCounted s t is_held Status.failed n m m g i
      (ground arith, one_at_most s.status m (requests_fit s n m i))
Move-IsCounted s t event kind n m (requeues g) i =
    let none_yet = claimed_none s.status m g.was (requests_fit s n m i) in
    Goes-IsCounted s t is_claimed Status.requeued n m m g i (rw none_yet refl, rw none_yet refl)
Move-IsCounted s t event kind n m (reconciles g) i =
    let one = dispatched_one s.status m g.was (requests_fit s n m i) in
    Goes-IsCounted s t is_dispatched Status.reconciliation_required n m m g i
      (rw one refl, rw one refl)

more_numbers :
    (event : EventEnvelope) (kind : Kind) (n m : ℕ)
    → kind_of event ≡ some kind
    → (more_claims kind n + m ≡ n + ((if is_claim (kind_of event) then 1 else 0) + m))
      × (more_requests kind n + m ≡ n + ((if is_request (kind_of event) then 1 else 0) + m))
unfolding more_claims more_requests
more_numbers event Kind.claimed n m known = rw known (omega arith, omega arith)
more_numbers event Kind.lease_renewed n m known = rw known (omega arith, omega arith)
more_numbers event Kind.provider_dispatch_started n m known = rw known (omega arith, omega arith)
more_numbers event Kind.succeeded n m known = rw known (omega arith, omega arith)
more_numbers event Kind.failed n m known = rw known (omega arith, omega arith)
more_numbers event Kind.requeued n m known = rw known (omega arith, omega arith)
more_numbers event Kind.reconciliation_required n m known = rw known (omega arith, omega arith)

pub renumbered : (t : Fold) {n m n2 m2 : ℕ} → n ≡ n2 → m ≡ m2 → IsCounted t n m → IsCounted t n2 m2
renumbered t {n} {m} {n2} {m2} e f i =
    subst (λ k. IsCounted t n2 k) f (subst (λ k. IsCounted t k m) e i)

pub review_events-IsCounted :
    (host : Host) (run_id : String) (s t : Fold) (events : List EventEnvelope) (n m : ℕ)
    → review_events host run_id s events ≡ ok t
    → IsCounted s n m
    → IsCounted t (n + claims_in events) (m + requests_in events)
unfolding review_events claims_in requests_in
review_events-IsCounted host run_id s t [] n m h i =
    let e : s ≡ t = ok-injective h in
    renumbered t (omega arith) (omega arith) (subst (λ f. IsCounted f n m) e i)
review_events-IsCounted host run_id s t (event ∷ events) n m h i =
    let (u, moved, rest) = >>=-eq-ok (review_event host run_id s event) _ h in
    let (kind, known, move) = review_event-Move host run_id s u event moved in
    let next = Move-IsCounted s u event kind n m move i in
    let all =
      review_events-IsCounted host run_id u t events (more_claims kind n) (more_requests kind m)
        rest next in
    let (e, _) = more_numbers event kind n (claims_in events) known in
    let (_, f) = more_numbers event kind m (requests_in events) known in renumbered t e f all

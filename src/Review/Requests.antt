-- ===== src/Review/Requests.antt =====
-- How often a provider is asked in the history of a review, and what its status says of that.
use blackcell.Prelude.{
  ℕ, ◌+◌, ◌≡◌, Bool, true, false, Option, none, some, List, [], ◌∷◌, leb, arith, if◌then◌else◌,
}
use blackcell.Kernel.Event.{EventEnvelope}
use blackcell.Review.State.{Status, Kind, kind_of}
use blackcell.Review.Guards.{is_claimed, is_dispatched, is_open}

abbrev pub is_claim : Option Kind → Bool
is_claim (some Kind.claimed) = true
is_claim _ = false

abbrev pub is_request : Option Kind → Bool
is_request (some Kind.provider_dispatch_started) = true
is_request _ = false

-- the number of claims among the events
unfoldable pub claims_in : List EventEnvelope → ℕ
unfolding kind_of
claims_in [] = 0
claims_in (event ∷ events) = (if is_claim (kind_of event) then 1 else 0) + claims_in events

-- the number of times that the provider is asked
unfoldable pub requests_in : List EventEnvelope → ℕ
unfolding kind_of
requests_in [] = 0
requests_in (event ∷ events) = (if is_request (kind_of event) then 1 else 0) + requests_in events

-- how often the provider has been asked, at least and at most, when a review has the status
unfoldable pub fewest_requests : Option Status → ℕ
fewest_requests (some Status.provider_dispatched) = 1
fewest_requests (some Status.succeeded) = 1
fewest_requests (some Status.reconciliation_required) = 1
fewest_requests _ = 0

unfoldable pub most_requests : Option Status → ℕ
most_requests none = 0
most_requests (some Status.claimed) = 0
most_requests (some Status.requeued) = 0
most_requests _ = 1

-- the requests fit the status
abbrev pub Fits : Option Status → ℕ → Type 0
Fits status m = (leb (fewest_requests status) m ≡ true) × (leb m (most_requests status) ≡ true)

pub open_none : (o : Option Status) (m : ℕ) → is_open o ≡ true → Fits o m → m ≡ 0
unfolding most_requests fewest_requests
open_none none m h f = ground arith
open_none (some Status.claimed) m h f = ground arith
open_none (some Status.provider_dispatched) m h f = ground arith
open_none (some Status.succeeded) m h f = ground arith
open_none (some Status.failed) m h f = ground arith
open_none (some Status.requeued) m h f = ground arith
open_none (some Status.reconciliation_required) m h f = ground arith

pub claimed_none : (o : Option Status) (m : ℕ) → is_claimed o ≡ true → Fits o m → m ≡ 0
unfolding most_requests fewest_requests
claimed_none none m h f = ground arith
claimed_none (some Status.claimed) m h f = ground arith
claimed_none (some Status.provider_dispatched) m h f = ground arith
claimed_none (some Status.succeeded) m h f = ground arith
claimed_none (some Status.failed) m h f = ground arith
claimed_none (some Status.requeued) m h f = ground arith
claimed_none (some Status.reconciliation_required) m h f = ground arith

pub dispatched_one : (o : Option Status) (m : ℕ) → is_dispatched o ≡ true → Fits o m → m ≡ 1
unfolding most_requests fewest_requests
dispatched_one none m h f = ground arith
dispatched_one (some Status.claimed) m h f = ground arith
dispatched_one (some Status.provider_dispatched) m h f = ground arith
dispatched_one (some Status.succeeded) m h f = ground arith
dispatched_one (some Status.failed) m h f = ground arith
dispatched_one (some Status.requeued) m h f = ground arith
dispatched_one (some Status.reconciliation_required) m h f = ground arith

pub one_at_most : (o : Option Status) (m : ℕ) → Fits o m → leb m 1 ≡ true
unfolding most_requests fewest_requests
one_at_most none m f = ground arith
one_at_most (some Status.claimed) m f = ground arith
one_at_most (some Status.provider_dispatched) m f = ground arith
one_at_most (some Status.succeeded) m f = ground arith
one_at_most (some Status.failed) m f = ground arith
one_at_most (some Status.requeued) m f = ground arith
one_at_most (some Status.reconciliation_required) m f = ground arith

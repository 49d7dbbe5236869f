-- ===== src/Review/Over.antt =====
-- The end of a review.
use blackcell.Prelude.{
  ◌≡◌, ◌≢◌, refl, String, Bool, true, false, Option, none, some, List, [], ◌∷◌, ◌++◌, arith, ok,
  >>=-eq-ok,
}
use blackcell.Host.{Host}
use blackcell.Kernel.Event.{EventEnvelope}
use blackcell.Review.State.{Status, ReviewLifecycleState, Fold, start, Kind, kind_of}
use blackcell.Review.Guards.{is_held, is_open}
use blackcell.Review.Fold.{review_event}
use blackcell.Review.Stream.{review_events, fold_review_lifecycle}
use blackcell.Review.Move.{Move, claims, renews, dispatches, succeeds, fails, requeues, reconciles}
use blackcell.Review.Refines.{review_event-Move}
use blackcell.Review.Accepted.{accepted_parts}

review_events-append :
    (host : Host) (run_id : String) (s : Fold) (xs ys : List EventEnvelope) {t : Fold}
    → review_events host run_id s (xs ++ ys) ≡ ok t
    → (u : Fold) × (review_events host run_id s xs ≡ ok u) × (review_events host run_id u ys ≡ ok t)
unfolding review_events
review_events-append host run_id s [] ys h = (s, refl, h)
review_events-append host run_id s (x ∷ xs) ys h =
    let (v, moved, rest) = >>=-eq-ok (review_event host run_id s x) _ h in
    let (u, before, after) = review_events-append host run_id v xs ys rest in
    (u, rw moved before, after)

unfoldable pub is_last : Option Kind → Bool
is_last (some Kind.succeeded) = true
is_last (some Kind.failed) = true
is_last (some Kind.reconciliation_required) = true
is_last _ = false

is_over : Option Status → Bool
is_over (some Status.succeeded) = true
is_over (some Status.failed) = true
is_over (some Status.reconciliation_required) = true
is_over _ = false

ended :
    (s t : Fold) (event : EventEnvelope) (kind : Kind)
    → Move s t event kind
    → is_last (some kind) ≡ true
    → is_over t.status ≡ true
unfolding is_last is_over
ended s t event kind (claims c) h = ground arith
ended s t event kind (renews r) h = ground arith
ended s t event kind (dispatches g _ _) h = ground arith
ended s t event kind (succeeds g _ _) h = rw g.status refl
ended s t event kind (fails g _) h = rw g.status refl
ended s t event kind (requeues g) h = ground arith
ended s t event kind (reconciles g) h = rw g.status refl

not_open : (o : Option Status) → is_over o ≡ true → (is_open o ≡ false) × (is_held o ≡ false)
unfolding is_over
not_open none h = ground arith
not_open (some Status.claimed) h = ground arith
not_open (some Status.provider_dispatched) h = ground arith
not_open (some Status.succeeded) h = (refl, refl)
not_open (some Status.failed) h = (refl, refl)
not_open (some Status.requeued) h = ground arith
not_open (some Status.reconciliation_required) h = (refl, refl)

no_more :
    (s t : Fold) (event : EventEnvelope) (kind : Kind)
    → Move s t event kind
    → is_over s.status ≢ true
no_more s t event kind (claims c) =
    λ h. let (shut, _) = not_open s.status h in ground (arith, shut, c.waiting)
no_more s t event kind (renews r) =
    λ h. let (_, free) = not_open s.status h in ground (arith, free, r.claimed)
no_more s t event kind (dispatches g _ _) =
    λ h. let (_, free) = not_open s.status h in ground (arith, free, g.was)
no_more s t event kind (succeeds g _ _) =
    λ h. let (_, free) = not_open s.status h in ground (arith, free, g.was)
no_more s t event kind (fails g _) =
    λ h. let (_, free) = not_open s.status h in ground (arith, free, g.was)
no_more s t event kind (requeues g) =
    λ h. let (_, free) = not_open s.status h in ground (arith, free, g.was)
no_more s t event kind (reconciles g) =
    λ h. let (_, free) = not_open s.status h in ground (arith, free, g.was)

-- Nothing follows the end of a review: in a history that the fold accepts, an event that succeeds or
-- fails the review or leaves it to reconciliation is the last one.
pub fold_review_lifecycle-ends :
    (host : Host) (run_id : String) (before more : List EventEnvelope) (event : EventEnvelope)
    (state : ReviewLifecycleState)
    → fold_review_lifecycle host run_id (before ++ event ∷ more) ≡ ok state
    → is_last (kind_of event) ≡ true
    → more ≡ []
unfolding review_events is_last
fold_review_lifecycle-ends host run_id before [] event state h ending = refl
fold_review_lifecycle-ends host run_id before (next ∷ more) event state h ending =
    let (t, all, _, _) = accepted_parts host run_id (before ++ event ∷ next ∷ more) h in
    let (u, _, rest) = review_events-append host run_id start before (event ∷ next ∷ more) all in
    let (v, moved, rest2) = >>=-eq-ok (review_event host run_id u event) _ rest in
    let (w, moved2, _) = >>=-eq-ok (review_event host run_id v next) _ rest2 in
    let (kind, known, move) = review_event-Move host run_id u v event moved in
    let (kind2, _, move2) = review_event-Move host run_id v w next moved2 in
    absurd (no_more v w next kind2 move2 (ended u v event kind move (rw known at ending)))

-- ===== src/Verify/Over.antt =====
-- The end of a verification.
use blackcell.Prelude.{
  ◌≡◌, ◌≢◌, refl, String, Bool, true, false, Option, none, some, List, [], ◌∷◌, ◌++◌, arith, ok,
  >>=-eq-ok,
}
use blackcell.Host.{Host}
use blackcell.Kernel.Event.{EventEnvelope}
use blackcell.Verify.State.{Status, VerificationLifecycleState, Fold, start, Kind, kind_of}
use blackcell.Verify.Fold.{is_claimed, is_open, fold_event}
use blackcell.Verify.Stream.{fold_events, fold_verification_lifecycle}
use blackcell.Verify.Move.{Move, claims, completes, fails, requeues}
use blackcell.Verify.Attempts.{fold_event-Move}
use blackcell.Verify.History.{fold-parts}
use blackcell.Verify.Kept.{fold_events-append}

unfoldable pub is_ending : Option Kind → Bool
is_ending (some Kind.completed) = true
is_ending (some Kind.failed) = true
is_ending _ = false

is_over : Option Status → Bool
is_over (some Status.completed) = true
is_over (some Status.failed) = true
is_over _ = false

ended :
    (s t : Fold) (actor : String) (kind : Kind)
    → Move s t actor kind
    → is_ending (some kind) ≡ true
    → is_over t.status ≡ true
unfolding is_ending is_over
ended s t actor kind (claims c) h = ground arith
ended s t actor kind (completes e _) h = rw e.status refl
ended s t actor kind (fails e _) h = rw e.status refl
ended s t actor kind (requeues e _) h = ground arith

over-shut : (o : Option Status) → is_over o ≡ true → (is_open o ≡ false) × (is_claimed o ≡ false)
unfolding is_over
over-shut none h = ground arith
over-shut (some Status.claimed) h = ground arith
over-shut (some Status.completed) h = (refl, refl)
over-shut (some Status.failed) h = (refl, refl)
over-shut (some Status.requeued) h = ground arith

no_more :
    (s t : Fold) (actor : String) (kind : Kind) → Move s t actor kind → is_over s.status ≢ true
no_more s t actor kind (claims c) =
    λ h. let (shut, _) = over-shut s.status h in ground (arith, shut, c.waiting)
no_more s t actor kind (completes e _) =
    λ h. let (_, free) = over-shut s.status h in ground (arith, free, e.claimed)
no_more s t actor kind (fails e _) =
    λ h. let (_, free) = over-shut s.status h in ground (arith, free, e.claimed)
no_more s t actor kind (requeues e _) =
    λ h. let (_, free) = over-shut s.status h in ground (arith, free, e.claimed)

-- Nothing follows a verdict or a failure: in a history that the fold accepts, an event that completes or
-- fails the verification is the last one.
pub fold_verification_lifecycle-ends :
    (host : Host) (run_id : String) (before more : List EventEnvelope) (event : EventEnvelope)
    (state : VerificationLifecycleState)
    → fold_verification_lifecycle host run_id (before ++ event ∷ more) ≡ ok state
    → is_ending (kind_of event) ≡ true
    → more ≡ []
unfolding fold_events is_ending
fold_verification_lifecycle-ends host run_id before [] event state h ending = refl
fold_verification_lifecycle-ends host run_id before (next ∷ more) event state h ending =
    let (t, all, _) = fold-parts host run_id (before ++ event ∷ next ∷ more) h in
    let (u, _, rest) = fold_events-append host run_id start before (event ∷ next ∷ more) all in
    let (v, moved, rest2) = >>=-eq-ok (fold_event host run_id u event) _ rest in
    let (w, moved2, _) = >>=-eq-ok (fold_event host run_id v next) _ rest2 in
    let (kind, known, move) = fold_event-Move host run_id u v event moved in
    let (kind2, _, move2) = fold_event-Move host run_id v w next moved2 in
    absurd
      (no_more v w next.actor kind2 move2 (ended u v event.actor kind move (rw known at ending)))

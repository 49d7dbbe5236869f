-- ===== src/Verify/Kept.antt =====
-- Histories that are continued: what a verification is for.
use mathlib.Core.Path.{subst}
use blackcell.Prelude.{
  ◌≡◌, ◌⊎◌, ◌∙◌, ap, sym, refl, String, true, Option, none, some, List, [], ◌∷◌, ◌++◌, ℕ, arith, ok,
  >>=-eq-ok, ok-injective, inl, inr,
}
use blackcell.Prelude.Text.{texts_eq-eq}
use blackcell.Host.{Host}
use blackcell.Kernel.Event.{EventEnvelope}
use blackcell.Verify.Lease.{VerificationLease, immutable_identity}
use blackcell.Verify.State.{Status, VerificationLifecycleState, Fold, start, Kind}
use blackcell.Verify.Fold.{same_identity, keeps_identity, first_of, fold_event}
use blackcell.Verify.Stream.{fold_events, fold_verification_lifecycle}
use blackcell.Verify.Move.{Claims, Ends, Move, claims, completes, fails, requeues}
use blackcell.Verify.Attempts.{fold_event-Move}
use blackcell.Verify.History.{fold-parts}

pub fold_events-append :
    (host : Host) (run_id : String) (s : Fold) (xs ys : List EventEnvelope) {t : Fold}
    → fold_events host run_id s (xs ++ ys) ≡ ok t
    → (u : Fold) × (fold_events host run_id s xs ≡ ok u) × (fold_events host run_id u ys ≡ ok t)
unfolding fold_events
fold_events-append host run_id s [] ys h = (s, refl, h)
fold_events-append host run_id s (x ∷ xs) ys h =
    let (v, moved, rest) = >>=-eq-ok (fold_event host run_id s x) _ h in
    let (u, before, after) = fold_events-append host run_id v xs ys rest in
    (u, rw moved before, after)

-- the lease is for what the first one, `base`, was for
record IsAnchored (s : Fold) (base : VerificationLease) : Type 0 where
  baseline : s.baseline ≡ some base
  lease : VerificationLease
  held : s.lease ≡ some lease
  same : immutable_identity lease ≡ immutable_identity base

-- nobody has claimed the verification yet, or its lease is anchored
IsFreshOrAnchored : Fold → Type 0
IsFreshOrAnchored s =
    ((s.baseline ≡ none) × (s.lease ≡ none)) ⊎ ((base : VerificationLease) × IsAnchored s base)

pair-eq :
    (xs ys : List String) (m n : ℕ) → xs ≡ ys → m ≡ n → ◌≡◌ {A = List String × ℕ} (xs, m) (ys, n)
pair-eq xs ys m n e f = rw (e, f) refl

some-injective :
    (a b : VerificationLease) → ◌≡◌ {A = Option VerificationLease} (some a) (some b) → a ≡ b
some-injective a b h = cc

identity-eq :
    (a b : VerificationLease)
    → same_identity a b ≡ true
    → immutable_identity a ≡ immutable_identity b
unfolding same_identity
identity-eq a b h =
    let e = texts_eq-eq (immutable_identity a).0 (immutable_identity b).0 (ground arith) in
    let f : a.finding_count ≡ b.finding_count = ground arith in
    pair-eq (immutable_identity a).0 (immutable_identity b).0 a.finding_count b.finding_count e f

Ends-IsAnchored :
    (s t : Fold) (base : VerificationLease) {ending : Status}
    → Ends s t ending
    → IsAnchored s base
    → IsAnchored t base
Ends-IsAnchored s t base e i = record {
  baseline = e.baseline ∙ i.baseline;
  lease = i.lease;
  held = e.kept ∙ i.held;
  same = i.same;
}

Claims-IsAnchored :
    (s t : Fold) (base : VerificationLease) (actor : String)
    → Claims s t actor
    → IsAnchored s base
    → IsAnchored t base
unfolding keeps_identity
Claims-IsAnchored s t base actor c i =
    let kept : keeps_identity (some base) c.lease ≡ true =
      ap (λ o. keeps_identity o c.lease) (sym i.baseline) ∙ c.unchanged in
    record {
      baseline = c.baseline ∙ ap (λ o. some (first_of o c.lease)) i.baseline;
      lease = c.lease;
      held = c.held;
      same = identity-eq c.lease base kept;
    }

Move-IsAnchored :
    (s t : Fold) (base : VerificationLease) (actor : String) (kind : Kind)
    → Move s t actor kind
    → IsAnchored s base
    → IsAnchored t base
Move-IsAnchored s t base actor kind (claims c) i = Claims-IsAnchored s t base actor c i
Move-IsAnchored s t base actor kind (completes e _) i = Ends-IsAnchored s t base e i
Move-IsAnchored s t base actor kind (fails e _) i = Ends-IsAnchored s t base e i
Move-IsAnchored s t base actor kind (requeues e _) i = Ends-IsAnchored s t base e i

fold_events-IsAnchored :
    (host : Host) (run_id : String) (s t : Fold) (base : VerificationLease)
    (events : List EventEnvelope)
    → fold_events host run_id s events ≡ ok t
    → IsAnchored s base
    → IsAnchored t base
unfolding fold_events
fold_events-IsAnchored host run_id s t base [] h i =
    let e : s ≡ t = ok-injective h in subst (λ f. IsAnchored f base) e i
fold_events-IsAnchored host run_id s t base (event ∷ events) h i =
    let (u, moved, rest) = >>=-eq-ok (fold_event host run_id s event) _ h in
    let (kind, _, move) = fold_event-Move host run_id s u event moved in
    fold_events-IsAnchored host run_id u t base events rest
      (Move-IsAnchored s u base event.actor kind move i)

lease-same :
    {s : Fold} {base lease : VerificationLease}
    → s.lease ≡ some lease
    → IsAnchored s base
    → immutable_identity lease ≡ immutable_identity base
lease-same {s} {base} {lease} held i =
    let e : lease ≡ i.lease = some-injective lease i.lease (sym held ∙ i.held) in
    ap immutable_identity e ∙ i.same

-- the first claim anchors the lease
Move-fresh :
    (s t : Fold) (actor : String) (kind : Kind)
    → Move s t actor kind
    → s.baseline ≡ none
    → s.lease ≡ none
    → IsFreshOrAnchored t
unfolding IsFreshOrAnchored
Move-fresh s t actor kind (claims c) fresh free = inr (
  c.lease,
  record {
    baseline = c.baseline ∙ ap (λ o. some (first_of o c.lease)) fresh;
    lease = c.lease;
    held = c.held;
    same = refl;
  },
)
Move-fresh s t actor kind (completes e _) fresh free = inl (e.baseline ∙ fresh, e.kept ∙ free)
Move-fresh s t actor kind (fails e _) fresh free = inl (e.baseline ∙ fresh, e.kept ∙ free)
Move-fresh s t actor kind (requeues e _) fresh free = inl (e.baseline ∙ fresh, e.kept ∙ free)

Move-IsFreshOrAnchored :
    (s t : Fold) (actor : String) (kind : Kind)
    → Move s t actor kind
    → IsFreshOrAnchored s
    → IsFreshOrAnchored t
unfolding IsFreshOrAnchored
Move-IsFreshOrAnchored s t actor kind move (inl (fresh, free)) =
    Move-fresh s t actor kind move fresh free
Move-IsFreshOrAnchored s t actor kind move (inr (base, i)) =
    inr (base, Move-IsAnchored s t base actor kind move i)

fold_events-IsFreshOrAnchored :
    (host : Host) (run_id : String) (s t : Fold) (events : List EventEnvelope)
    → fold_events host run_id s events ≡ ok t
    → IsFreshOrAnchored s
    → IsFreshOrAnchored t
unfolding fold_events
fold_events-IsFreshOrAnchored host run_id s t [] h i =
    let e : s ≡ t = ok-injective h in subst IsFreshOrAnchored e i
fold_events-IsFreshOrAnchored host run_id s t (event ∷ events) h i =
    let (u, moved, rest) = >>=-eq-ok (fold_event host run_id s event) _ h in
    let (kind, _, move) = fold_event-Move host run_id s u event moved in
    fold_events-IsFreshOrAnchored host run_id u t events rest
      (Move-IsFreshOrAnchored s u event.actor kind move i)

-- However a history is continued, its verification stays for the same run, review and evidence: the
-- lease that is held after more events has the unchangeable fields of the one that was held before.
pub fold_verification_lifecycle-identity :
    (host : Host) (run_id : String) (before more : List EventEnvelope)
    (earlier later : VerificationLifecycleState)
    → fold_verification_lifecycle host run_id before ≡ ok earlier
    → fold_verification_lifecycle host run_id (before ++ more) ≡ ok later
    → immutable_identity later.lease ≡ immutable_identity earlier.lease
unfolding IsFreshOrAnchored
fold_verification_lifecycle-identity host run_id before more earlier later h k =
    let (u, found, held) = fold-parts host run_id before h in
    let (t, all, holds) = fold-parts host run_id (before ++ more) k in
    let (v, first, rest) = fold_events-append host run_id start before more all in
    let same : v ≡ u = ok-injective (sym first ∙ found) in
    let reached : fold_events host run_id u more ≡ ok t = rw (sym same) rest in
    let anchor =
      fold_events-IsFreshOrAnchored host run_id start u before found (inl (refl, refl)) in
    elim anchor [
      | inl (_, free) ↦ ground (arith, free, held)
      | inr (base, i) ↦
          let j = fold_events-IsAnchored host run_id u t base more reached i in
          lease-same holds j ∙ sym (lease-same held i)
    ]

-- ===== src/Review/Begun.antt =====
-- What the fold of a review asks of a lease: the checks of holders, of claims and of renewals.
use blackcell.Prelude.{
  ◌+◌, ◌≡◌, ◌∙◌, ap, sym, String, Bool, true, false, Option, none, some, not, ◌&&◌, str_eq, arith,
  ok, >>=-eq-ok, raise_if-passed, ok-injective, Option-cases, inl, inr, eq_iff, ltb,
}
use blackcell.Json.{obj, get}
use blackcell.Host.{Host}
use blackcell.Kernel.Event.{EventEnvelope}
use blackcell.Review.{mapping, exact, identifier}
use blackcell.Review.Lease.{ReviewLease, lease_from_mapping}
use blackcell.Review.State.{Status, Fold}
use blackcell.Review.Guards.{
  principal_of, is_open, follows, host_transition, active_lease, is_odd_claim, is_odd_renewal,
  renewable,
}
use blackcell.Review.Fold.{claimed_by, claim, renew}
use blackcell.Review.Move.{attempts_of, fence_of, Claims, Renews}

module _ (host : Host) (run_id : String) (s : Fold) (event : EventEnvelope) where
  pub host_transition-ok :
      (expected : Option Status → Bool) {l : ReviewLease}
      → host_transition host run_id s event expected ≡ ok l
      → (s.lease ≡ some l) × (expected s.status ≡ true)
  unfolding host_transition
  host_transition-ok expected {l} h = elim (Option-cases s.lease) [
    | inl missing ↦ ground arith
    | inr (lease, found) ↦ (ground arith, ground arith)
  ]

  pub active_lease-ok :
      (principal : String) (expected : Option Status → Bool) (allow_expired : Bool)
      {l : ReviewLease}
      → active_lease host run_id s event principal expected allow_expired ≡ ok l
      → principal ≡ event.actor
      → (s.lease ≡ some l)
        × (expected s.status ≡ true)
        × (l.worker_id ≡ event.actor)
        × ((not allow_expired && ltb l.expires_at.instant event.recorded_at) ≡ false)
  unfolding active_lease
  active_lease-ok principal expected allow_expired {l} h acts = elim (Option-cases s.lease) [
    | inl missing ↦ ground arith
    | inr (lease, found) ↦
        (ground arith, ground arith, ground (arith, eq_iff principal l.worker_id), ground arith)
  ]

  pub principal_of-actor :
      {principal : String} → principal_of event ≡ ok principal → principal ≡ event.actor
  unfolding principal_of
  principal_of-actor {principal} h =
      let (p, _, h1) = >>=-eq-ok (identifier (get "principal_id" event.payload)) _ h in
      let (fine, h2) = raise_if-passed (not (str_eq p event.actor)) _ _ h1 in
      let same : p ≡ event.actor = ground (arith, eq_iff p event.actor) in
      let e : p ≡ principal = ok-injective h2 in sym e ∙ same

  follows_next :
      (o : Option ReviewLease) (c : ReviewLease)
      → follows o c event ≡ true
      → (c.attempt ≡ attempts_of o + 1) × (c.fencing_token ≡ fence_of o + 1)
  unfolding follows
  follows_next none c h = (ground arith, ground arith)
  follows_next (some l) c h = (ground arith, ground arith)

  odd_claim-Claims :
      (principal : String) (c : ReviewLease) {t : Fold}
      → principal ≡ event.actor
      → is_open s.status ≡ true
      → is_odd_claim host run_id s event principal c ≡ false
      → claimed_by host run_id s event c ≡ t
      → Claims s t event
  unfolding is_odd_claim
  odd_claim-Claims principal c {t} acts waiting fine made =
      let (attempt, fence) = follows_next s.lease c (ground arith) in
      record {
        lease = c;
        waiting = waiting;
        held = ap (λ (f : Fold). f.lease) (sym made);
        status = ap (λ (f : Fold). f.status) (sym made);
        baseline = ap (λ (f : Fold). f.baseline) (sym made);
        unchanged = ground arith;
        attempt = attempt;
        fence = fence;
        worker = ground (arith, eq_iff c.worker_id principal);
        in_time = ground arith;
      }

  pub claim-Claims :
      (principal : String) {t : Fold}
      → principal ≡ event.actor
      → claim host run_id s event principal ≡ ok t
      → Claims s t event
  unfolding claim
  claim-Claims principal {t} acts h =
      let (_, _, h1) = >>=-eq-ok (exact event.payload _) _ h in
      let (waiting, h2) = raise_if-passed (not (is_open s.status)) _ _ h1 in
      let (lease, _, h3) = >>=-eq-ok (mapping (get "lease" event.payload)) _ h2 in
      let (c, _, h4) = >>=-eq-ok (lease_from_mapping host (obj lease)) _ h3 in
      let (fine, h5) = raise_if-passed (is_odd_claim host run_id s event principal c) _ _ h4 in
      let made : claimed_by host run_id s event c ≡ t = ok-injective h5 in
      odd_claim-Claims principal c acts (ground (arith, waiting)) fine made

  renewable-ok :
      (principal : String) (r : ReviewLease) {l : ReviewLease}
      → renewable host run_id s event principal r ≡ ok l
      → (s.lease ≡ some l) × (is_odd_renewal host run_id s event principal l r ≡ false)
  unfolding renewable
  renewable-ok principal r {l} h = elim (Option-cases s.lease) [
    | inl missing ↦ ground arith
    | inr (lease, found) ↦
        let bound : is_odd_renewal host run_id s event principal lease r ≡ false = ground arith in
        let e : lease ≡ l = ground arith in
        (
          found ∙ ap (λ x. some x) e,
          ap (λ x. is_odd_renewal host run_id s event principal x r) (sym e) ∙ bound,
        )
  ]

  odd_renewal-Renews :
      (principal : String) (l r : ReviewLease) {t : Fold}
      → principal ≡ event.actor
      → s.lease ≡ some l
      → is_odd_renewal host run_id s event principal l r ≡ false
      → record s { lease = some r } ≡ t
      → Renews s t event
  unfolding is_odd_renewal
  odd_renewal-Renews principal l r {t} acts held fine made = record {
    lease = l;
    renewed = r;
    held = held;
    claimed = ground arith;
    kept = ap (λ (f : Fold). f.lease) (sym made);
    status = ap (λ (f : Fold). f.status) (sym made);
    baseline = ap (λ (f : Fold). f.baseline) (sym made);
    same = ground arith;
    later = ground arith;
    worker = ground (arith, eq_iff principal l.worker_id);
  }

  pub renew-Renews :
      (principal : String) {t : Fold}
      → principal ≡ event.actor
      → renew host run_id s event principal ≡ ok t
      → Renews s t event
  unfolding renew
  renew-Renews principal {t} acts h =
      let (_, _, h1) = >>=-eq-ok (exact event.payload _) _ h in
      let (lease, _, h2) = >>=-eq-ok (mapping (get "lease" event.payload)) _ h1 in
      let (r, _, h3) = >>=-eq-ok (lease_from_mapping host (obj lease)) _ h2 in
      let (l, may, h4) = >>=-eq-ok (renewable host run_id s event principal r) _ h3 in
      let (held, fine) = renewable-ok principal r may in
      odd_renewal-Renews principal l r acts held fine (ok-injective h4)

-- ===== src/Lifecycle/Step/Begun.antt =====
-- The handler of `node.claimed` as a move.
use blackcell.Prelude.{
  ◌+◌, ◌≡◌, refl, String, none, some, ok, arith, inl, inr, Outcome-cases, Option-cases,
}
use blackcell.Json.{get}
use blackcell.Host.{Host}
use blackcell.Kernel.Event.{EventEnvelope}
use blackcell.Lifecycle.State.{ActiveLease, Fold, NodeStatus}
use blackcell.Lifecycle.Fields.{digest, mapping}
use blackcell.Lifecycle.Guards.{node_of}
use blackcell.Lifecycle.Lease.{claimed}
use blackcell.Lifecycle.Fold.{Dependencies}
use blackcell.Lifecycle.Nodes.{node_of_lem}
use blackcell.Lifecycle.Step.{Step, claims}

module _ (host : Host) (run_id : String) (deps : Dependencies) (s : Fold) (event : EventEnvelope)
    {t : Fold} where
  -- The new lease has no dispatch yet.
  claimed-fresh :
      (lease : ActiveLease)
      → claimed host run_id s event deps ≡ ok t
      → t.active ≡ some lease
      → lease.provider_dispatch_event_id ≡ none
  unfolding claimed
  claimed-fresh lease h held = ground arith

  pub claimed-Step : claimed host run_id s event deps ≡ ok t → Step deps event s t
  unfolding claimed
  claimed-Step h = elim (Option-cases t.active) [
    | inl idle ↦ ground arith
    | inr (lease, held) ↦ elim (Outcome-cases (node_of event.payload s.nodes)) [
      | inr bad ↦ ground arith
      | inl (node, e1) ↦ elim (Outcome-cases (digest host (get "lease_digest" event.payload))) [
        | inr bad ↦ ground arith
        | inl (lease_digest, e2) ↦
            elim (Outcome-cases (digest host (get "worktree_spec_digest" event.payload))) [
              | inr bad ↦ ground arith
              | inl (spec_digest, e3) ↦
                  elim (Outcome-cases (mapping (get "worktree_spec" event.payload))) [
                    | inr bad ↦ ground arith
                    | inl (spec, e4) ↦
                        claims node
                          (record node {
                            status = NodeStatus.claimed;
                            attempts = node.attempts + 1;
                            fencing_token = s.maximum_fence + 1;
                            lease_digest = some lease_digest;
                            worktree_spec_digest = some spec_digest;
                            worktree_spec = some spec;
                            cleanup_status = none;
                            cleanup_failure_code = none;
                          })
                          lease
                          (record {
                            idle = ground arith;
                            wanted = ground arith;
                            found = node_of_lem event.payload s.nodes node e1;
                            waiting = ground arith;
                            ready = ground arith;
                            nodes = ground arith;
                            status = refl;
                            attempts = refl;
                            held = held;
                            named = ground arith;
                            fence = ground arith;
                            fresh = claimed-fresh lease h held;
                            highest = ground arith;
                          })
                  ]
            ]
      ]
    ]
  ]

-- ===== src/Lifecycle/Step/Held.antt =====
-- The handlers that go on with a lease, and those of the cleanup, as moves.
use blackcell.Prelude.{
  ◌≡◌, refl, String, true, false, none, some, ok, arith, inl, inr, Outcome-cases, Option-cases,
}
use blackcell.Json.{get}
use blackcell.Host.{Host}
use blackcell.Kernel.Event.{EventEnvelope}
use blackcell.Lifecycle.State.{Fold, Node, NodeStatus, CleanupStatus, find_node, is_succeeded}
use blackcell.Lifecycle.Fields.{identifier, digest}
use blackcell.Lifecycle.Guards.{active_of, cleanup_node}
use blackcell.Lifecycle.Lease.{worktree_prepared, provider_dispatch_started}
use blackcell.Lifecycle.Cleanup.{cleanup_requested, cleaned, cleanup_failed, bool_value}
use blackcell.Lifecycle.Nodes.{node_of_lem}
use blackcell.Lifecycle.Step.{Step, dispatches, works, tidies}
use blackcell.Lifecycle.Fold.{Dependencies}

module _ (event : EventEnvelope) (s : Fold) where
  -- The node that a cleanup handler works on.
  cleanup_node_lem :
      (expected : CleanupStatus) (node : Node)
      → cleanup_node event.payload s.nodes s.active expected ≡ ok node
      → (s.active ≡ none)
        × (find_node node.node_id s.nodes ≡ some node)
        × (is_succeeded node.status ≡ true)
  unfolding cleanup_node
  cleanup_node_lem expected node h = ground (arith, node_of_lem event.payload s.nodes node)

module _ (host : Host) (run_id : String) (deps : Dependencies) (s : Fold) (event : EventEnvelope)
    {t : Fold} where
  pub worktree_prepared-Step : worktree_prepared host run_id s event ≡ ok t → Step deps event s t
  unfolding worktree_prepared active_of
  worktree_prepared-Step h = elim (Option-cases s.active) [
    | inl idle ↦ ground arith
    | inr (a, held) ↦
        works a (record a { prepared = true }) (λ node. record node { status = NodeStatus.running })
          (record {
            held = held;
            holds = ground arith;
            named = refl;
            fence = refl;
            recorded = refl;
            nodes = ground arith;
            keeps = λ n. refl;
            working = λ n w. refl;
            highest = ground arith;
          })
  ]

  pub provider_dispatch_started-Step :
      provider_dispatch_started host run_id s event ≡ ok t → Step deps event s t
  unfolding provider_dispatch_started active_of
  provider_dispatch_started-Step h = elim (Option-cases s.active) [
    | inl idle ↦ ground arith
    | inr (a, held) ↦ elim (Outcome-cases (identifier (get "provider_request_id" event.payload))) [
      | inr bad ↦ ground arith
      | inl (request, e1) ↦
          elim (Outcome-cases (digest host (get "context_digest" event.payload))) [
            | inr bad ↦ ground arith
            | inl (context, e2) ↦
                dispatches a
                  (record a {
                    prepared = true;
                    provider_request_id = some request;
                    provider_context_digest = some context;
                    provider_dispatch_event_id = some event.event_id;
                  })
                  (record {
                    held = held;
                    holds = ground arith;
                    named = refl;
                    fence = refl;
                    first = ground arith;
                    recorded = refl;
                    nodes = ground arith;
                    highest = ground arith;
                  })
          ]
    ]
  ]

  pub cleanup_requested-Step : cleanup_requested host run_id s event ≡ ok t → Step deps event s t
  unfolding cleanup_requested
  cleanup_requested-Step h =
      elim (Outcome-cases (cleanup_node event.payload s.nodes s.active CleanupStatus.eligible)) [
        | inr bad ↦ ground arith
        | inl (node, e1) ↦
            tidies node (record node { cleanup_status = some CleanupStatus.requested })
              (cleanup_node_lem event s CleanupStatus.eligible node e1) refl
              (ground (arith, cleanup_node_lem event s CleanupStatus.eligible node e1))
      ]

  pub cleaned-Step : cleaned host run_id s event ≡ ok t → Step deps event s t
  unfolding cleaned
  cleaned-Step h =
      elim (Outcome-cases (cleanup_node event.payload s.nodes s.active CleanupStatus.requested)) [
        | inr bad ↦ ground arith
        | inl (node, e1) ↦
            tidies node
              (record node {
                retained_worktree = false;
                cleanup_status = some CleanupStatus.cleaned;
                cleanup_failure_code = none;
              })
              (cleanup_node_lem event s CleanupStatus.requested node e1) refl
              (ground (arith, cleanup_node_lem event s CleanupStatus.requested node e1))
      ]

  pub cleanup_failed-Step : cleanup_failed host run_id s event ≡ ok t → Step deps event s t
  unfolding cleanup_failed
  cleanup_failed-Step h =
      elim (Outcome-cases (cleanup_node event.payload s.nodes s.active CleanupStatus.requested)) [
        | inr bad ↦ ground arith
        | inl (node, e1) ↦ elim (Outcome-cases (identifier (get "failure_code" event.payload))) [
          | inr bad ↦ ground arith
          | inl (code, e2) ↦
              elim (Outcome-cases (bool_value (get "retained_worktree" event.payload))) [
                | inr bad ↦ ground arith
                | inl (retained, e3) ↦
                    tidies node
                      (record node {
                        retained_worktree = retained;
                        cleanup_status = some CleanupStatus.failed;
                        cleanup_failure_code = some code;
                      })
                      (cleanup_node_lem event s CleanupStatus.requested node e1) refl
                      (ground (arith, cleanup_node_lem event s CleanupStatus.requested node e1))
              ]
        ]
      ]

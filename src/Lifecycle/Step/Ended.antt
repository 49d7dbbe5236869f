-- ===== src/Lifecycle/Step/Ended.antt =====
-- The handlers that end a lease, as moves.
use blackcell.Prelude.{
  if◌then◌else◌, ◌≡◌, refl, String, true, none, some, ok, arith, inl, inr, Outcome-cases,
  Option-cases,
}
use blackcell.Json.{get}
use blackcell.Host.{Host}
use blackcell.Kernel.Event.{EventEnvelope}
use blackcell.Lifecycle.State.{Fold, NodeStatus, CleanupStatus}
use blackcell.Lifecycle.Fields.{identifier, digest, commit}
use blackcell.Lifecycle.Guards.{active_of}
use blackcell.Lifecycle.Attempt.{
  optional, retained_of, node_succeeded, node_failed, node_requeued, node_canceled,
  reconciliation_of, node_reconciliation_required,
}
use blackcell.Lifecycle.Step.{Step, rests}
use blackcell.Lifecycle.Fold.{Dependencies}

module _ (host : Host) (run_id : String) (deps : Dependencies) (s : Fold) (event : EventEnvelope)
    {t : Fold} where
  pub node_succeeded-Step : node_succeeded host run_id s event ≡ ok t → Step deps event s t
  unfolding node_succeeded active_of
  node_succeeded-Step h = elim (Option-cases s.active) [
    | inl idle ↦ ground arith
    | inr (a, held) ↦ elim (Outcome-cases (commit host (get "head_commit" event.payload))) [
      | inr bad ↦ ground arith
      | inl (head, e1) ↦ elim (Outcome-cases (digest host (get "result_digest" event.payload))) [
        | inr bad ↦ ground arith
        | inl (result, e2) ↦
            rests held
              (λ node. record node {
                status = NodeStatus.succeeded;
                result_digest = some result;
                head_commit = some head;
                retained_worktree = true;
                cleanup_status = some CleanupStatus.eligible;
                cleanup_failure_code = none;
              })
              (λ n. refl) (λ n. refl) (ground arith)
      ]
    ]
  ]

  pub node_failed-Step : node_failed host run_id s event ≡ ok t → Step deps event s t
  unfolding node_failed active_of
  node_failed-Step h = elim (Option-cases s.active) [
    | inl idle ↦ ground arith
    | inr (a, held) ↦ elim (Outcome-cases (identifier (get "failure_code" event.payload))) [
      | inr bad ↦ ground arith
      | inl (code, e1) ↦
          elim (Outcome-cases (optional (digest host) (get "result_digest" event.payload))) [
            | inr bad ↦ ground arith
            | inl (result, e2) ↦ elim (Outcome-cases (retained_of host event.payload a)) [
              | inr bad ↦ ground arith
              | inl (retained, e3) ↦
                  rests held
                    (λ node. record node {
                      status = NodeStatus.failed;
                      failure_code = some code;
                      result_digest = result;
                      retained_worktree = if retained then true else node.retained_worktree;
                    })
                    (λ n. refl) (λ n. refl) (ground arith)
            ]
          ]
    ]
  ]

  pub node_requeued-Step : node_requeued host run_id s event ≡ ok t → Step deps event s t
  unfolding node_requeued active_of
  node_requeued-Step h = elim (Option-cases s.active) [
    | inl idle ↦ ground arith
    | inr (a, held) ↦
        rests held (λ node. record node { status = NodeStatus.pending }) (λ n. refl) (λ n. refl)
          (ground arith)
  ]

  pub node_canceled-Step : node_canceled host run_id s event ≡ ok t → Step deps event s t
  unfolding node_canceled active_of
  node_canceled-Step h = elim (Option-cases s.active) [
    | inl idle ↦ ground arith
    | inr (a, held) ↦ elim (Outcome-cases (retained_of host event.payload a)) [
      | inr bad ↦ ground arith
      | inl (retained, e1) ↦
          elim (Outcome-cases (optional (digest host) (get "result_digest" event.payload))) [
            | inr bad ↦ ground arith
            | inl (result, e2) ↦
                rests held
                  (λ node. record node {
                    status = NodeStatus.canceled;
                    result_digest = result;
                    retained_worktree = retained;
                  })
                  (λ n. refl) (λ n. refl) (ground arith)
          ]
    ]
  ]

  pub node_reconciliation_required-Step :
      node_reconciliation_required host run_id s event ≡ ok t → Step deps event s t
  unfolding node_reconciliation_required active_of
  node_reconciliation_required-Step h = elim (Option-cases s.active) [
    | inl idle ↦ ground arith
    | inr (a, held) ↦ elim (Outcome-cases (reconciliation_of host run_id s event event.payload a)) [
      | inr bad ↦ ground arith
      | inl (retained, e1) ↦
          elim (Outcome-cases (optional identifier (get "failure_code" event.payload))) [
            | inr bad ↦ ground arith
            | inl (code, e2) ↦
                rests held
                  (λ node. record node {
                    status = NodeStatus.reconciliation_required;
                    failure_code = code;
                    retained_worktree = retained;
                  })
                  (λ n. refl) (λ n. refl) (ground arith)
          ]
    ]
  ]

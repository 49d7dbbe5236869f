-- ===== src/Plan/Reading/Back.antt =====
-- What `plan_from_payload` reads back from a stored plan.

use blackcell.Prelude.{
  ◌≡◌, refl, ap, ◌∙◌, ◌>>=◌, String, true, false, Option, none, some, List, [], ◌∷◌, not, str_eq,
  any, arith, ok, Outcome-cases, inl, inr, All, eq_iff, eq_refl,
}
use blackcell.Json.{list_of, text_or_null, get, find, keys, has_exactly}
use blackcell.Prelude.Text.{texts_eq_refl}
use blackcell.Host.{Host}
use blackcell.Kernel.Event.{is_blank}
use blackcell.Lifecycle.Fold.{contains, names, sorted}
use blackcell.Plan.{topological_order}
use blackcell.Plan.Ends.{topological_order-contains}
use blackcell.Plan.Texts.{is_identifier, identifier, each, path_tuple, set_of}
use blackcell.Plan.Texts.Kept.{
  identifier-not_blank, commit-not_blank, digest-not_blank, text_of-ok, are_not_blank,
  path_tuple-are_not_blank,
}
use blackcell.Plan.Specs.{TaskSpec, new_task, is_odd_objective}
use blackcell.Plan.Whole.{Plan, new_plan, dependencies, check_revision}
use blackcell.Plan.Whole.Made.{new_plan-made}
use blackcell.Plan.Payload.{task_payload, plan_payload}
use blackcell.Plan.Reading.{elements, optional_text, task_from_payload, plan_from_payload}
use blackcell.Plan.Reading.Goal.{texts_value-texts, IsReadable, read_checks-list_of}

optional_text-text_or_null : (o : Option String) → optional_text (text_or_null o) ≡ ok o
optional_text-text_or_null none = refl
optional_text-text_or_null (some s) = refl

module _ (host : Host) where
  identifiers-not_blank :
      (xs : List String)
      → any (λ item. not (is_identifier item)) xs ≡ false
      → are_not_blank host xs ≡ true
  unfolding are_not_blank
  identifiers-not_blank [] h = refl
  identifiers-not_blank (x ∷ xs) h =
      ground (arith, identifier-not_blank host x, identifiers-not_blank xs)

  -- No text of a constructed task is blank.
  new_task-not_blank :
      (t : TaskSpec) {made : TaskSpec}
      → new_task host t ≡ ok made
      → (is_blank host t.task_id ≡ false)
        × (is_blank host t.objective ≡ false)
        × (are_not_blank host made.depends_on ≡ true)
        × (are_not_blank host t.allowed_paths ≡ true)
  unfolding new_task identifier is_odd_objective
  new_task-not_blank t h = elim (Outcome-cases (path_tuple host t.allowed_paths)) [
    | inr (_, e) ↦ ground arith
    | inl (paths, e) ↦ (
      ground (arith, identifier-not_blank host t.task_id),
      ground arith,
      ground (arith, identifiers-not_blank (sorted (set_of t.depends_on))),
      path_tuple-are_not_blank host t.allowed_paths e,
    )
  ]

  -- a task that its constructor leaves as it is, and whose checks can be read back
  unfoldable pub IsKept : TaskSpec → Type 0
  IsKept t = (new_task host t ≡ ok t) × All (IsReadable host) t.checks

  pub task_from_payload-task_payload :
      (t : TaskSpec) → IsKept t → task_from_payload host (task_payload t) ≡ ok t
  unfolding task_from_payload task_payload IsKept get find keys has_exactly
  task_from_payload-task_payload t (made, checks) =
      let (i, o, d, p) = new_task-not_blank t made in
      rw
        (
          read_checks-list_of host t.checks checks,
          text_of-ok host t.task_id i,
          text_of-ok host t.objective o,
          texts_value-texts host t.depends_on d,
          texts_value-texts host t.allowed_paths p,
        )
        made

  each-task_from_payload :
      (ts : List TaskSpec)
      → All IsKept ts
      → each (task_from_payload host) (elements (list_of task_payload ts)) ≡ ok ts
  unfolding each
  each-task_from_payload [] h = refl
  each-task_from_payload (t ∷ ts) (k, ks) =
      rw (task_from_payload-task_payload t k, each-task_from_payload ts ks) refl

  not_blank-contains :
      (xs : List String) (k : String)
      → are_not_blank host xs ≡ true
      → contains xs k ≡ true
      → is_blank host k ≡ false
  unfolding are_not_blank
  not_blank-contains [] k full h = ground arith
  not_blank-contains (x ∷ xs) k full h = ground (arith, eq_iff x k, not_blank-contains xs k)

  not_blank-all :
      (ks : List String)
      → ((k : String) → contains ks k ≡ true → is_blank host k ≡ false)
      → are_not_blank host ks ≡ true
  unfolding are_not_blank
  not_blank-all [] f = refl
  not_blank-all (k ∷ ks) f =
      let here = f k (ground (arith, eq_refl k)) in
      let rest = not_blank-all ks (λ j h. f j (ground arith)) in ground arith

  names-not_blank :
      (ts : List TaskSpec) → All IsKept ts → are_not_blank host (names (dependencies ts)) ≡ true
  unfolding are_not_blank IsKept
  names-not_blank [] h = refl
  names-not_blank (t ∷ ts) ((made, _), ks) =
      let (i, o, d, p) = new_task-not_blank t made in ground (arith, i, names-not_blank ts ks)

  order-not_blank :
      (ts : List TaskSpec) (order : List String)
      → All IsKept ts
      → topological_order (dependencies ts) ≡ ok order
      → are_not_blank host order ≡ true
  order-not_blank ts order ks found = not_blank-all order (λ k h.
      not_blank-contains (names (dependencies ts)) k (names-not_blank ts ks)
        (ground (arith, topological_order-contains (dependencies ts) order k found)))

  schema-not_blank : (s : String) → str_eq s "blackcell.plan/v2" ≡ true → is_blank host s ≡ false
  unfolding is_blank
  schema-not_blank s h =
      let e : s ≡ "blackcell.plan/v2" = ground (arith, eq_iff s "blackcell.plan/v2") in rw e refl

  new_plan-not_blank :
      (p : Plan) {made : Plan}
      → new_plan p ≡ ok made
      → (is_blank host p.plan_id ≡ false)
        × (is_blank host p.goal_id ≡ false)
        × (is_blank host p.project_id ≡ false)
        × (is_blank host p.intent_id ≡ false)
        × (is_blank host p.base_commit ≡ false)
        × (is_blank host p.draft_digest ≡ false)
        × (is_blank host p.schema_version ≡ false)
  unfolding new_plan identifier
  new_plan-not_blank p h = elim (Outcome-cases (check_revision p)) [
    | inr (_, e) ↦ ground arith
    | inl (_, e) ↦ (
      ground (arith, identifier-not_blank host p.plan_id),
      ground (arith, identifier-not_blank host p.goal_id),
      ground (arith, identifier-not_blank host p.project_id),
      ground (arith, identifier-not_blank host p.intent_id),
      ground (arith, commit-not_blank host p.base_commit),
      ground (arith, digest-not_blank host p.draft_digest),
      ground (arith, schema-not_blank p.schema_version),
    )
  ]

-- A plan that its constructor leaves as it is, whose tasks are so too and have checks without a blank
-- argument, has a payload, and is read back from it unchanged.
pub plan_from_payload-plan_payload :
    (host : Host) (plan : Plan)
    → new_plan plan ≡ ok plan
    → All (IsKept host) plan.tasks
    → (plan_payload plan >>= plan_from_payload host) ≡ ok plan
unfolding plan_payload plan_from_payload get find keys has_exactly
plan_from_payload-plan_payload host plan made kept =
    let (i, g, p, t, c, d, s) = new_plan-not_blank host plan made in
    let (e, _, _, _, order, found) = new_plan-made plan made in
    let ordered : topological_order (dependencies plan.tasks) ≡ ok order =
      ap (λ (q : Plan). topological_order (dependencies q.tasks)) e ∙ found in
    let full = order-not_blank host plan.tasks order kept ordered in
    rw
      (
        ordered,
        each-task_from_payload host plan.tasks kept,
        optional_text-text_or_null plan.supersedes_plan_id,
        text_of-ok host plan.schema_version s,
        text_of-ok host plan.plan_id i,
        text_of-ok host plan.goal_id g,
        text_of-ok host plan.project_id p,
        text_of-ok host plan.intent_id t,
        text_of-ok host plan.base_commit c,
        text_of-ok host plan.draft_digest d,
        made,
        ordered,
        texts_value-texts host order full,
        texts_eq_refl order,
      )
      refl

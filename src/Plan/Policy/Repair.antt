-- ===== src/Plan/Policy/Repair.antt =====
-- Repairs: what `ExecutionPolicyKernel.route` sends back and what `authorize` says of the next attempt.
use Prim.Native.String
use mathlib.Core.List.{Memᴰ}
use mathlib.Core.Path.{subst}
use blackcell.Prelude.{
  ℕ, ◌+◌, min, ◌≡◌, refl, String, Bool, true, false, Option, ltb, leb, str_eq, all, arith, ok,
  eq_refl, eq_iff, All-member, Bool-cases, inl, inr,
}
use blackcell.Prelude.Patterns.{is_digest, fullmatch}
use blackcell.Prelude.Text.{texts_eq_refl}
use blackcell.Host.{Host, json_digest}
use blackcell.Lifecycle.Fold.{contains}
use blackcell.Json.{Fields}
use blackcell.Plan.Specs.{GoalSpec, TaskSpec, new_goal}
use blackcell.Plan.Compile.{compile_plan}
use blackcell.Plan.Compile.Scope.{compile_plan-InScope}
use blackcell.Plan.Compile.Task.{InScope}
use blackcell.Plan.{Result}
use blackcell.Plan.Texts.{is_identifier, identifier, path_tuple}
use blackcell.Plan.Compile.Named.{IsNamed, compile_plan-IsNamed}
use blackcell.Plan.Whole.{Plan}
use blackcell.Plan.Policy.{
  AttemptRoute, ToolActionRequest, AttemptEvidence, new_decision, new_request, request_digest,
  is_out_of_scope, authorize, route,
}

-- `hexdigest` returns 64 hexadecimal digits in lower case
unfoldable pub HasHexDigests : Host → Type 0
HasHexDigests host = (text : String) → is_digest (String.◌++◌ "sha256:" (host.sha256 text)) ≡ true

-- what the runtime constructs before it starts an attempt at a task
abbrev asked : String → Plan → TaskSpec → ℕ → ToolActionRequest
asked run_id plan task attempt = record {
  run_id = run_id;
  plan_id = plan.plan_id;
  task_id = task.task_id;
  attempt = attempt;
  capability = "repository-task";
  allowed_paths = task.allowed_paths;
  destructive = false;
}

abbrev pub attempt_request : Host → String → Plan → TaskSpec → ℕ → Result ToolActionRequest
attempt_request host run_id plan task attempt = new_request host (asked run_id plan task attempt)

-- an identifier is not the empty text
is_identifier-named : (name : String) → is_identifier name ≡ true → str_eq name "" ≡ false
unfolding is_identifier fullmatch
is_identifier-named name h = elim (Bool-cases (str_eq name "")) [
  | inr named ↦ named
  | inl empty ↦
      let same : name ≡ "" = ground (arith, eq_iff name "") in
      let odd : is_identifier "" ≡ true = subst (λ n. is_identifier n ≡ true) same h in ground arith
]

-- The constructor of a request leaves one as it is whose names are identifiers and whose paths are in
-- the form that it gives them.
attempt_request-made :
    (host : Host) (run_id : String) (plan : Plan) (task : TaskSpec) (attempt : ℕ)
    → is_identifier run_id ≡ true
    → is_identifier plan.plan_id ≡ true
    → is_identifier task.task_id ≡ true
    → path_tuple host task.allowed_paths ≡ ok task.allowed_paths
    → attempt_request host run_id plan task (attempt + 1)
      ≡ ok (asked run_id plan task (attempt + 1))
unfolding new_request identifier is_identifier fullmatch
attempt_request-made host run_id plan task attempt run named task_named paths =
    let first : ltb (attempt + 1) 1 ≡ false = ground arith in
    rw (run, named, task_named, first, paths) refl

route-below :
    (goal : GoalSpec) (task : TaskSpec) (evidence : AttemptEvidence) (attempt count : ℕ)
    (fresh : Bool)
    → route goal task evidence attempt count fresh ≡ AttemptRoute.repairable
    → leb (min goal.max_attempts task.max_attempts) attempt ≡ false
unfolding route
route-below goal task evidence attempt count fresh h = ground arith

granted :
    (host : Host) (digest : String)
    → is_digest digest ≡ true
    → new_decision
        (record { allowed = true; reason = "bounded-task-authorized"; action_digest = digest })
      ≡ ok (record { allowed = true; reason = "bounded-task-authorized"; action_digest = digest })
unfolding new_decision is_identifier fullmatch
granted host digest h = rw h refl

repair-authorize :
    (host : Host) (goal : GoalSpec) (plan : Plan) (task : TaskSpec) (evidence : AttemptEvidence)
    (attempt count : ℕ) (fresh : Bool) (run_id : String)
    → HasHexDigests host
    → str_eq run_id "" ≡ false
    → all (contains goal.allowed_paths) task.allowed_paths ≡ true
    → route goal task evidence attempt count fresh ≡ AttemptRoute.repairable
    → authorize host goal plan task (asked run_id plan task (attempt + 1))
      ≡ ok (record {
        allowed = true;
        reason = "bounded-task-authorized";
        action_digest = request_digest host (asked run_id plan task (attempt + 1));
      })
unfolding authorize is_out_of_scope HasHexDigests request_digest json_digest
repair-authorize host goal plan task evidence attempt count fresh run_id hex named inside repaired =
    let below = route-below goal task evidence attempt count fresh repaired in
    let bounded : leb (attempt + 1) (min goal.max_attempts task.max_attempts) ≡ true =
      ground arith in
    let first : leb 1 (attempt + 1) ≡ true = ground arith in
    rw
      (
        named,
        eq_refl plan.plan_id,
        eq_refl task.task_id,
        first,
        bounded,
        inside,
        texts_eq_refl task.allowed_paths,
      )
      (granted host _ (hex _))

-- An attempt that is to be repaired is followed by one that the policy authorizes. Let a plan be compiled
-- for a constructed goal and one of its tasks' attempts be routed to repair; then the request for the
-- next attempt at that task, with the task's own paths, can be constructed, and it is allowed. The hash
-- function returns hexadecimal digests, the run's name is an identifier, and the task's paths are in the
-- form that the constructor of a request gives them.
pub compile_plan-route-authorize :
    (host : Host) (given goal : GoalSpec) (draft : Fields) (previous : Option Plan) (plan : Plan)
    (task : TaskSpec) (evidence : AttemptEvidence) (attempt count : ℕ) (fresh : Bool)
    (run_id : String)
    → HasHexDigests host
    → new_goal host given ≡ ok goal
    → compile_plan host goal draft previous ≡ ok plan
    → Memᴰ task plan.tasks
    → is_identifier run_id ≡ true
    → path_tuple host task.allowed_paths ≡ ok task.allowed_paths
    → route goal task evidence attempt count fresh ≡ AttemptRoute.repairable
    → (request : ToolActionRequest) × (attempt_request host run_id plan task (attempt + 1)
        ≡ ok request)
      × (authorize host goal plan task request
          ≡ ok (record {
            allowed = true;
            reason = "bounded-task-authorized";
            action_digest = request_digest host request;
          }))
unfolding InScope IsNamed
compile_plan-route-authorize host given goal draft previous plan task evidence attempt count fresh
      run_id hex constructed compiled member run paths repaired =
    let (tasks, _) =
      compile_plan-InScope host given goal draft previous plan constructed compiled in
    let (inside, _, _) : InScope goal task = All-member (InScope goal) member tasks in
    let (named, all_named) = compile_plan-IsNamed host goal draft previous plan compiled in
    let task_named : IsNamed task = All-member IsNamed member all_named in
    (
      asked run_id plan task (attempt + 1),
      attempt_request-made host run_id plan task attempt run named task_named paths,
      repair-authorize host goal plan task evidence attempt count fresh run_id hex
          (is_identifier-named run_id run) inside repaired,
    )

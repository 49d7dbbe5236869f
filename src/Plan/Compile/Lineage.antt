-- ===== src/Plan/Compile/Lineage.antt =====
-- The revisions of a goal's plan.
use blackcell.Prelude.{
  ℕ, ◌+◌, ◌≡◌, ap, sym, ◌∙◌, String, Option, none, some, List, [], ◌∷◌, length, arith, ok,
  ok-injective, eq_iff,
}
use blackcell.Json.{Fields}
use blackcell.Host.{Host}
use blackcell.Plan.Specs.{GoalSpec}
use blackcell.Plan.Whole.{Plan}
use blackcell.Plan.Compile.{lineage, compile_plan}
use blackcell.Plan.Compile.Scope.{compile_plan-Compiled}

module _ (host : Host) where
  -- the plans of a run, the last one first: the first draft is compiled without a previous plan, and
  -- every later one with the plan before it
  pub data Revisions : List Plan → Type 0 where
    first :
        (goal : GoalSpec) (draft : Fields) (plan : Plan)
        → compile_plan host goal draft none ≡ ok plan
        → Revisions (plan ∷ [])
    next :
        (goal : GoalSpec) (draft : Fields) (plan previous : Plan) (plans : List Plan)
        → Revisions (previous ∷ plans)
        → compile_plan host goal draft (some previous) ≡ ok plan
        → Revisions (plan ∷ previous ∷ plans)

-- the plan's revision is its place, it names the plan before it, and is for the same goal and commit
unfoldable pub AreNumbered : List Plan → Type 0
AreNumbered [] = Unit
AreNumbered (plan ∷ []) = (plan.plan_revision ≡ 1) × (plan.supersedes_plan_id ≡ none)
AreNumbered (plan ∷ previous ∷ plans) =
    (plan.plan_revision ≡ length (plan ∷ previous ∷ plans))
    × (plan.supersedes_plan_id ≡ some previous.plan_id)
    × (plan.goal_id ≡ previous.goal_id)
    × (plan.base_commit ≡ previous.base_commit)
    × AreNumbered (previous ∷ plans)

AreNumbered-head :
    (plan : Plan) (plans : List Plan)
    → AreNumbered (plan ∷ plans)
    → plan.plan_revision ≡ length (plan ∷ plans)
unfolding AreNumbered
AreNumbered-head plan [] (n, _) = n
AreNumbered-head plan (_ ∷ _) (n, _, _, _, _) = n

lineage-next :
    (goal : GoalSpec) (previous : Plan) {line : ℕ × Option String}
    → lineage goal (some previous) ≡ ok line
    → ((previous.plan_revision + 1, some previous.plan_id) ≡ line)
      × (goal.goal_id ≡ previous.goal_id)
      × (goal.base_commit ≡ previous.base_commit)
unfolding lineage
lineage-next goal previous h = (
  ground arith,
  ground (arith, eq_iff previous.goal_id goal.goal_id),
  ground (arith, eq_iff previous.base_commit goal.base_commit),
)

-- However often a goal is planned anew, the plans are numbered from 1 without a gap, each names the one
-- it supersedes, and all are for the same goal and the same base commit.
pub Revisions-AreNumbered :
    (host : Host) (plans : List Plan) → Revisions host plans → AreNumbered plans
unfolding AreNumbered lineage
Revisions-AreNumbered host plans (first goal draft plan compiled) =
    let c = compile_plan-Compiled host goal draft none compiled in
    let e : c.line ≡ (1, none) = sym (ok-injective c.lined) in
    (
      ap (λ (p : Plan). p.plan_revision) c.made ∙ ap (λ (l : ℕ × Option String). l.0) e,
      ap (λ (p : Plan). p.supersedes_plan_id) c.made ∙ ap (λ (l : ℕ × Option String). l.1) e,
    )
Revisions-AreNumbered host plans (next goal draft plan previous older chain compiled) =
    let numbered = Revisions-AreNumbered host (previous ∷ older) chain in
    let c = compile_plan-Compiled host goal draft (some previous) compiled in
    let (e, same_goal, same_commit) = lineage-next goal previous c.lined in
    let n = AreNumbered-head previous older numbered in
    let revision : plan.plan_revision ≡ previous.plan_revision + 1 =
      ap (λ (p : Plan). p.plan_revision) c.made ∙ ap (λ (l : ℕ × Option String). l.0) (sym e) in
    (
      omega (arith, revision, n),
      ap (λ (p : Plan). p.supersedes_plan_id) c.made ∙ ap (λ (l : ℕ × Option String). l.1) (sym e),
      ap (λ (p : Plan). p.goal_id) c.made ∙ same_goal,
      ap (λ (p : Plan). p.base_commit) c.made ∙ same_commit,
      numbered,
    )

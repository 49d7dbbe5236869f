-- ===== src/Plan/Compile/Task.antt =====
-- What a compiled task has from its goal.

use mathlib.Core.Path.{subst}
use blackcell.Prelude.{
  ◌≡◌, refl, sym, String, Bool, true, false, some, List, [], ◌∷◌, not, all, arith, ok, >>=-eq-ok,
  raise_if-passed, Outcome-cases, Option-cases, Bool-cases, inl, inr, eq_iff, eq_refl, All,
}
use blackcell.Json.{Json, get}
use blackcell.Host.{Host}
use blackcell.Lifecycle.Fold.{contains}
use blackcell.Plan.Texts.{each, are_distinct, path_tuple, bounded_text_tuple}
use blackcell.Plan.Texts.Kept.{each-cons}
use blackcell.Plan.Specs.{
  VerificationCheck, GoalSpec, TaskSpec, check_le, insert_check, sorted_checks, new_task, new_goal,
}
use blackcell.Plan.Reading.{mapping, sequence, text_value}
use blackcell.Plan.Compile.{find_check, catalog, is_task_draft, has_odd_counts, compile_task}
use blackcell.Plan.Compile.Paths.{AreStripped, path_tuple-AreStripped, path_tuple_within}

module _ {κ} (P : VerificationCheck → Type κ) where
  All-insert :
      (c : VerificationCheck) (cs : List VerificationCheck)
      → P c
      → All P cs
      → All P (insert_check c cs)
  unfolding insert_check
  All-insert c [] p h = (p, tt)
  All-insert c (d ∷ ds) p (q, h) = elim (Bool-cases (check_le c d)) [
    | inl before ↦
        let e : insert_check c (d ∷ ds) ≡ c ∷ d ∷ ds = rw before refl in
        subst (All P) (sym e) (p, (q, h))
    | inr after ↦
        let e : insert_check c (d ∷ ds) ≡ d ∷ insert_check c ds = rw after refl in
        subst (All P) (sym e) (q, All-insert c ds p h)
  ]

  pub All-sorted : (cs : List VerificationCheck) → All P cs → All P (sorted_checks cs)
  unfolding sorted_checks
  All-sorted [] h = tt
  All-sorted (c ∷ cs) (p, h) = All-insert c (sorted_checks cs) p (All-sorted cs h)

module _ (host : Host) where
  pub new_task-made :
      (t : TaskSpec) {made : TaskSpec}
      → new_task host t ≡ ok made
      → (path_tuple host t.allowed_paths ≡ ok made.allowed_paths)
        × (made.checks ≡ sorted_checks t.checks)
        × (made.max_attempts ≡ t.max_attempts)
        × (made.task_id ≡ t.task_id)
  unfolding new_task
  new_task-made t h = elim (Outcome-cases (path_tuple host t.allowed_paths)) [
    | inr (_, e) ↦ ground arith
    | inl (paths, e) ↦ (ground arith, ground arith, ground arith, ground arith)
  ]

  pub new_goal-AreStripped :
      (g : GoalSpec) {made : GoalSpec} → new_goal host g ≡ ok made → AreStripped made.allowed_paths
  unfolding new_goal
  new_goal-AreStripped g {made} h =
      elim (Outcome-cases (bounded_text_tuple host g.constraints 64)) [
        | inr (_, e) ↦ ground arith
        | inl (texts, e) ↦ elim (Outcome-cases (path_tuple host g.allowed_paths)) [
          | inr (_, d) ↦ ground arith
          | inl (paths, d) ↦
              let same : paths ≡ made.allowed_paths = ground arith in
              subst AreStripped same (path_tuple-AreStripped host g.allowed_paths d)
        ]
      ]

-- a check is the goal's own, under its name
unfoldable pub IsOwn : GoalSpec → VerificationCheck → Type 0
IsOwn goal c = find_check goal.verification_checks c.check_id ≡ some c

find_check-named :
    (cs : List VerificationCheck) (k : String) {c : VerificationCheck}
    → find_check cs k ≡ some c
    → c.check_id ≡ k
unfolding find_check
find_check-named [] k h = ground arith
find_check-named (d ∷ cs) k h = elim (Option-cases (find_check cs k)) [
  | inr (c, found) ↦ ground (arith, find_check-named cs k found)
  | inl missing ↦ ground (arith, eq_iff d.check_id k)
]

each-IsOwn :
    (goal : GoalSpec) (names : List String) {cs : List VerificationCheck}
    → each (catalog goal.verification_checks) names ≡ ok cs
    → All (IsOwn goal) cs
unfolding each catalog IsOwn
each-IsOwn goal [] {cs} h = let e : [] ≡ cs = ground arith in subst (All (IsOwn goal)) e tt
each-IsOwn goal (k ∷ ks) {cs} h =
    let (c, rest, first, others, e) = each-cons (catalog goal.verification_checks) k ks h in
    let found : find_check goal.verification_checks k ≡ some c = ground arith in
    let named = find_check-named goal.verification_checks k found in
    let own : IsOwn goal c = rw named found in
    subst (All (IsOwn goal)) (sym e) (own, each-IsOwn goal ks others)

-- what a task of a plan has from its goal
unfoldable pub InScope : GoalSpec → TaskSpec → Type 0
InScope goal task =
    (all (contains goal.allowed_paths) task.allowed_paths ≡ true)
    × (task.max_attempts ≡ goal.max_attempts)
    × All (IsOwn goal) task.checks

all-contains :
    (p : String → Bool) (ks : List String)
    → ((k : String) → contains ks k ≡ true → p k ≡ true)
    → all p ks ≡ true
all-contains p [] f = refl
all-contains p (k ∷ ks) f =
    let here = f k (ground (arith, eq_refl k)) in
    let rest = all-contains p ks (λ j h. f j (ground arith)) in ground arith

pub contains-all :
    (p : String → Bool) (ks : List String) (k : String)
    → all p ks ≡ true
    → contains ks k ≡ true
    → p k ≡ true
contains-all p [] k h m = ground arith
contains-all p (j ∷ ks) k h m = ground (arith, eq_iff j k, contains-all p ks k)

pub not-false : (b : Bool) → not b ≡ false → b ≡ true
not-false b h = ground arith

pub compile_task-InScope :
    (host : Host) (goal : GoalSpec) (value : Json) {task : TaskSpec}
    → AreStripped goal.allowed_paths
    → compile_task host goal value ≡ ok task
    → InScope goal task
unfolding compile_task InScope AreStripped
compile_task-InScope host goal value {task} stripped compiled =
    let (raw, _, h1) = >>=-eq-ok (mapping value) _ compiled in
    let (_, h2) = raise_if-passed (not (is_task_draft raw)) _ _ h1 in
    let (dependencies, _, h3) = >>=-eq-ok (sequence (get "depends_on" raw)) _ h2 in
    let (paths, _, h4) = >>=-eq-ok (sequence (get "allowed_paths" raw)) _ h3 in
    let (checks, _, h5) = >>=-eq-ok (sequence (get "checks" raw)) _ h4 in
    let (_, h6) = raise_if-passed (has_odd_counts paths checks) _ _ h5 in
    let (texts, _, h7) = >>=-eq-ok (each (text_value host) paths) _ h6 in
    let (within, h8) = raise_if-passed (not (all (contains goal.allowed_paths) texts)) _ _ h7 in
    let (names, _, h9) = >>=-eq-ok (each (text_value host) checks) _ h8 in
    let (_, h10) = raise_if-passed (not (are_distinct names)) _ _ h9 in
    let (found, own, h11) = >>=-eq-ok (each (catalog goal.verification_checks) names) _ h10 in
    let (_, _, h12) = >>=-eq-ok (text_value host (get "task_id" raw)) _ h11 in
    let (_, _, h13) = >>=-eq-ok (text_value host (get "objective" raw)) _ h12 in
    let (_, _, h14) = >>=-eq-ok (each (text_value host) dependencies) _ h13 in
    let (tuple, sorted, attempts, _) = new_task-made host _ h14 in
    let inside : all (contains goal.allowed_paths) texts ≡ true =
      not-false (all (contains goal.allowed_paths) texts) within in
    let plain : AreStripped texts =
      λ k m. stripped k (contains-all (contains goal.allowed_paths) texts k inside m) in
    (
      all-contains (contains goal.allowed_paths) task.allowed_paths (λ k m.
          contains-all (contains goal.allowed_paths) texts k inside
            (path_tuple_within host texts plain tuple k m)),
      attempts,
      subst (All (IsOwn goal)) (sym sorted)
          (All-sorted (IsOwn goal) found (each-IsOwn goal names own)),
    )

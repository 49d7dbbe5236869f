-- ===== src/Plan/Whole/Keys.antt =====
-- The lookups of `_validate_writer_order`, among the tasks and in the table of ancestors that it fills.
use blackcell.Prelude.{
  ℕ, zero, suc, length, ◌≡◌, ◌≢◌, ◌∙◌, sym, refl, String, Bool, true, false, ◌||◌, ◌==◌, Bool-cases,
  eq_refl, List, [], ◌∷◌, ◌++◌, all, is_some, arith, ok, err, Outcome-cases, Option-cases, inl, inr,
}
use blackcell.Lifecycle.Lease.{dependencies_of}
use blackcell.Lifecycle.Fold.{Dependencies, contains, names}
use blackcell.Plan.{topological_order, key_error, is_ready, ready, without, resolve}
use blackcell.Plan.Order.{contains-append, List-cases, respects, topological_order-respects}
use blackcell.Plan.Specs.{TaskSpec}
use blackcell.Plan.Whole.{
  dependencies, Ancestors, ancestors_of, union_ancestors, ancestors_along, find_task, by_id,
  writers, is_below, are_chained, validate_writer_order,
}
use blackcell.Plan.Whole.Writers.{find_task-dependencies_of}
use blackcell.Plan.Ends.{topological_order-contains}

-- every one of the tasks has its entry
HasKeys : Ancestors → List String → Type 0
HasKeys table seen = (k : String) → contains seen k ≡ true → is_some (ancestors_of table k) ≡ true

union_found :
    (table : Ancestors) (seen ks : List String)
    → HasKeys table seen
    → all (contains seen) ks ≡ true
    → (above : List String) × (union_ancestors table ks ≡ ok above)
unfolding union_ancestors HasKeys
union_found table seen [] keys h = ([], refl)
union_found table seen (k ∷ ks) keys h =
    let (rest, e) = union_found table seen ks keys (ground arith) in
    elim (Option-cases (ancestors_of table k)) [
      | inl missing ↦ let there = keys k (ground arith) in ground arith
      | inr (names, found) ↦ (names ++ rest, rw (found, e) refl)
    ]

-- every one of the tasks is looked up with success
AreTasks : List TaskSpec → List String → Type 0
AreTasks tasks ks = (k : String) → contains ks k ≡ true → is_some (find_task tasks k) ≡ true

find_task-contains :
    (tasks : List TaskSpec) (k : String)
    → contains (names (dependencies tasks)) k ≡ true
    → is_some (find_task tasks k) ≡ true
unfolding find_task
find_task-contains [] k h = ground arith
find_task-contains (t ∷ tasks) k h = ground (arith, find_task-contains tasks k)

along_found :
    (tasks : List TaskSpec) (table : Ancestors) (seen order : List String)
    → HasKeys table seen
    → AreTasks tasks order
    → respects (dependencies tasks) seen order ≡ true
    → (result : Ancestors) × (ancestors_along tasks table order ≡ ok result)
      × ((j : String)
          → (contains seen j || contains order j) ≡ true
          → is_some (ancestors_of result j) ≡ true)
unfolding ancestors_along by_id HasKeys AreTasks respects is_ready ancestors_of
along_found tasks table seen [] keys are h = (table, refl, λ j m. keys j (ground arith))
along_found tasks table seen (k ∷ ks) keys are h = elim (Option-cases (find_task tasks k)) [
  | inl missing ↦ let there = are k (ground (arith, eq_refl k)) in ground arith
  | inr (task, found) ↦
      let needs = find_task-dependencies_of tasks k found in
      let ready : all (contains seen) (dependencies_of k (dependencies tasks)) ≡ true =
        ground arith in
      let known : all (contains seen) task.depends_on ≡ true = rw needs at ready in
      let (above, e) = union_found table seen task.depends_on keys known in
      let (result, f, has) =
        along_found tasks ((k, task.depends_on ++ above) ∷ table) (seen ++ k ∷ []) ks
          (λ j m. ground (arith, keys j, contains-append seen (k ∷ []) j))
          (λ j m. are j (ground arith)) (ground arith) in
      (result, rw (found, e) f, λ j m. has j (ground (arith, contains-append seen (k ∷ []) j)))
]

writers_found :
    (tasks : List TaskSpec) (ks : List String)
    → AreTasks tasks ks
    → (ws : List String) × (writers tasks ks ≡ ok ws)
      × ((j : String) → contains ws j ≡ true → contains ks j ≡ true)
unfolding writers by_id AreTasks
writers_found tasks [] are = ([], refl, λ j m. m)
writers_found tasks (k ∷ ks) are = elim (Option-cases (find_task tasks k)) [
  | inl missing ↦ let there = are k (ground (arith, eq_refl k)) in ground arith
  | inr (task, found) ↦
      let (ws, e, within) = writers_found tasks ks (λ j m. are j (ground arith)) in
      elim (Bool-cases (length task.allowed_paths == 0)) [
        | inl reads ↦ (ws, rw (found, e, reads) refl, λ j m. ground (arith, within j))
        | inr writes ↦ (k ∷ ws, rw (found, e, writes) refl, λ j m. ground (arith, within j))
      ]
]

chained_found :
    (table : Ancestors) (ws : List String)
    → HasKeys table ws
    → (b : Bool) × (are_chained table ws ≡ ok b)
unfolding are_chained is_below HasKeys
chained_found table [] keys = (true, refl)
chained_found table (w ∷ []) keys = (true, refl)
chained_found table (v ∷ w ∷ ws) keys = elim (Option-cases (ancestors_of table w)) [
  | inl missing ↦ let there = keys w (ground (arith, eq_refl w)) in ground arith
  | inr (above, found) ↦
      let (b, e) = chained_found table (w ∷ ws) (λ j m. keys j (ground arith)) in
      elim (Bool-cases (contains above v)) [
        | inl below ↦ (b, rw (found, below) e)
        | inr aside ↦ (false, rw (found, aside) refl)
      ]
]

resolve-no_key_error :
    (deps : Dependencies) (rounds : ℕ) (resolved pending : List String)
    → resolve rounds deps resolved pending ≢ err key_error
unfolding resolve
resolve-no_key_error deps rounds resolved [] = λ h. ground arith
resolve-no_key_error deps zero resolved (k ∷ ks) = λ h. ground arith
resolve-no_key_error deps (suc rounds) resolved (k ∷ ks) =
    elim (List-cases (ready deps resolved (k ∷ ks))) [
      | inl stuck ↦ λ h. ground arith
      | inr (j, js, found) ↦ λ h.
          resolve-no_key_error deps rounds (resolved ++ j ∷ js) (without (k ∷ ks) (j ∷ js))
            (ground arith)
    ]

-- The check of the writers looks up no task that is missing, neither among the tasks nor in the table of
-- ancestors: it never ends in a `KeyError`.
pub validate_writer_order-no_key_error :
    (tasks : List TaskSpec) → validate_writer_order tasks ≢ err key_error
unfolding validate_writer_order topological_order HasKeys AreTasks
validate_writer_order-no_key_error tasks = λ h.
    let deps = dependencies tasks in
    elim (Outcome-cases (topological_order deps)) [
      | inr (x, e) ↦ resolve-no_key_error deps (length (names deps)) [] (names deps) (ground arith)
      | inl (order, e) ↦
          let are : (k : String) → contains order k ≡ true → is_some (find_task tasks k) ≡ true =
            λ k m.
              find_task-contains tasks k (sym (topological_order-contains deps order k e) ∙ m) in
          let (table, a, has) =
            along_found tasks [] [] order (λ k m. ground arith) are
              (topological_order-respects deps order e) in
          let (ws, w, within) = writers_found tasks order are in
          let (b, c) = chained_found table ws (λ j m. has j (within j m)) in ground arith
    ]

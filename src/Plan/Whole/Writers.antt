-- ===== src/Plan/Whole/Writers.antt =====
-- The tasks of a plan that write, against its dependencies.
use mathlib.Core.Path.{subst}
use blackcell.Prelude.{
  ◌≡◌, ap, sym, ◌∙◌, String, true, some, List, [], ◌∷◌, ◌++◌, str_eq, all, arith, ok, Outcome-cases,
  Option-cases, Bool-cases, inl, inr, All, All-map, All-append, eq_iff, eq_refl,
}
use blackcell.Lifecycle.Lease.{dependencies_of}
use blackcell.Lifecycle.Fold.{Dependencies, contains}
use blackcell.Plan.{topological_order}
use blackcell.Plan.Specs.{TaskSpec}
use blackcell.Plan.Whole.{
  Plan, new_plan, dependencies, Ancestors, ancestors_of, union_ancestors, ancestors_along,
  are_chained, is_below, find_task, by_id, writers, validate_writer_order,
}
use blackcell.Plan.Whole.Made.{new_plan-made}

module _ (deps : Dependencies) where
  -- `j` is a dependency of `k`, or of one of its dependencies, and so on
  pub data IsAncestor (j : String) : String → Type 0 where
    direct : {k : String} → contains (dependencies_of k deps) j ≡ true → IsAncestor j k
    further :
        {k i : String}
        → contains (dependencies_of k deps) i ≡ true
        → IsAncestor j i
        → IsAncestor j k

  IsAncestor-trans : {i j k : String} → IsAncestor i j → IsAncestor j k → IsAncestor i k
  IsAncestor-trans a (direct h) = further h a
  IsAncestor-trans a (further h b) = further h (IsAncestor-trans a b)

  -- each of the tasks is an ancestor of all those behind it
  unfoldable pub AreInLine : List String → Type 0
  AreInLine [] = Unit
  AreInLine (w ∷ ws) = All (IsAncestor w) ws × AreInLine ws

  unfoldable IsSound : Ancestors → Type 0
  IsSound table =
      (k : String) (names : List String)
      → ancestors_of table k ≡ some names
      → All (λ j. IsAncestor j k) names

  nothing-IsSound : IsSound []
  unfolding IsSound ancestors_of
  nothing-IsSound k names h = ground arith

  direct-All :
      (k : String) (ks : List String)
      → ((i : String) → contains ks i ≡ true → contains (dependencies_of k deps) i ≡ true)
      → All (λ j. IsAncestor j k) ks
  direct-All k [] f = tt
  direct-All k (i ∷ ks) f =
      (direct (f i (ground (arith, eq_refl i))), direct-All k ks (λ j h. f j (ground arith)))

  union_sound :
      (table : Ancestors) (k : String) (ks : List String) {above : List String}
      → IsSound table
      → ((i : String) → contains ks i ≡ true → contains (dependencies_of k deps) i ≡ true)
      → union_ancestors table ks ≡ ok above
      → All (λ j. IsAncestor j k) above
  unfolding union_ancestors IsSound
  union_sound table k [] {above} sound f h =
      let e : [] ≡ above = ground arith in subst (All (λ j. IsAncestor j k)) e tt
  union_sound table k (i ∷ ks) sound f h = elim (Option-cases (ancestors_of table i)) [
    | inl missing ↦ ground arith
    | inr (names, found) ↦ elim (Outcome-cases (union_ancestors table ks)) [
      | inr (_, e) ↦ ground arith
      | inl (rest, e) ↦
          let needed = f i (ground (arith, eq_refl i)) in
          let first : All (λ j. IsAncestor j k) names =
            All-map names (λ j a. further needed a) (sound i names found) in
          let others : All (λ j. IsAncestor j k) rest =
            union_sound table k ks sound (λ j m. f j (ground arith)) e in
          subst (All (λ j. IsAncestor j k)) (ground arith)
            (All-append (λ j. IsAncestor j k) names rest first others)
    ]
  ]

  add-IsSound :
      (table : Ancestors) (k : String) (names : List String)
      → IsSound table
      → All (λ j. IsAncestor j k) names
      → IsSound ((k, names) ∷ table)
  unfolding IsSound ancestors_of
  add-IsSound table k names sound all j found h = elim (Bool-cases (str_eq k j)) [
    | inl same ↦
        let e : k ≡ j = ground (arith, eq_iff k j) in
        let n : names ≡ found = ground arith in rw (sym e, sym n) all
    | inr other ↦ sound j found (ground arith)
  ]

  All-contains :
      (k j : String) (names : List String)
      → All (λ i. IsAncestor i k) names
      → contains names j ≡ true
      → IsAncestor j k
  All-contains k j [] a h = ground arith
  All-contains k j (i ∷ names) (a, rest) h = elim (Bool-cases (str_eq i j)) [
    | inl same ↦
        let e : i ≡ j = ground (arith, eq_iff i j) in
        let there : IsAncestor j k = rw (sym e) a in there
    | inr other ↦ All-contains k j names rest (ground arith)
  ]

  below-IsAncestor :
      (table : Ancestors) (v w : String)
      → IsSound table
      → is_below table v w ≡ ok true
      → IsAncestor v w
  unfolding is_below IsSound
  below-IsAncestor table v w sound h = elim (Option-cases (ancestors_of table w)) [
    | inl missing ↦ ground arith
    | inr (names, found) ↦ All-contains w v names (sound w names found) (ground arith)
  ]

  chained-AreInLine :
      (table : Ancestors) (ws : List String)
      → IsSound table
      → are_chained table ws ≡ ok true
      → AreInLine ws
  unfolding are_chained AreInLine
  chained-AreInLine table [] sound h = tt
  chained-AreInLine table (w ∷ []) sound h = (tt, tt)
  chained-AreInLine table (v ∷ w ∷ ws) sound h = elim (Outcome-cases (is_below table v w)) [
    | inr (_, e) ↦ ground arith
    | inl (below, e) ↦ elim (Bool-cases below) [
      | inr other ↦ ground arith
      | inl under ↦
          let first : is_below table v w ≡ ok true = rw under at e in
          let a : IsAncestor v w = below-IsAncestor table v w sound first in
          let (after, line) : All (IsAncestor w) ws × AreInLine ws =
            chained-AreInLine table (w ∷ ws) sound (ground arith) in
          ((a, All-map ws (λ x b. IsAncestor-trans a b) after), (after, line))
    ]
  ]

-- The dependencies of a task that is looked up are those that the order was made of.
pub find_task-dependencies_of :
    (tasks : List TaskSpec) (k : String) {t : TaskSpec}
    → find_task tasks k ≡ some t
    → dependencies_of k (dependencies tasks) ≡ t.depends_on
unfolding find_task dependencies_of
find_task-dependencies_of [] k h = ground arith
find_task-dependencies_of (u ∷ tasks) k {t} h = elim (Bool-cases (str_eq u.task_id k)) [
  | inl here ↦
      let first : some u ≡ some t = rw here at h in
      let same : u ≡ t = ground arith in rw here (ap (λ (x : TaskSpec). x.depends_on) same)
  | inr other ↦
      let found : find_task tasks k ≡ some t = ground arith in
      rw other (find_task-dependencies_of tasks k found)
]

along-IsSound :
    (tasks : List TaskSpec) (table : Ancestors) (order : List String) {result : Ancestors}
    → IsSound (dependencies tasks) table
    → ancestors_along tasks table order ≡ ok result
    → IsSound (dependencies tasks) result
unfolding ancestors_along by_id
along-IsSound tasks table [] sound h = subst (IsSound (dependencies tasks)) (ground arith) sound
along-IsSound tasks table (k ∷ ks) sound h =
    let deps = dependencies tasks in
    elim (Option-cases (find_task tasks k)) [
      | inl missing ↦ ground arith
      | inr (task, found) ↦
          let needs = find_task-dependencies_of tasks k found in
          let within : (i : String)
              → contains task.depends_on i ≡ true
              → contains (dependencies_of k deps) i ≡ true =
            λ i m. ap (λ l. contains l i) needs ∙ m in
          elim (Outcome-cases (union_ancestors table task.depends_on)) [
            | inr (_, e) ↦ ground arith
            | inl (above, e) ↦
                let new : All (λ j. IsAncestor deps j k) (task.depends_on ++ above) =
                  All-append (λ j. IsAncestor deps j k) task.depends_on above
                    (direct-All deps k task.depends_on within)
                    (union_sound deps table k task.depends_on sound within e) in
                along-IsSound tasks ((k, task.depends_on ++ above) ∷ table) ks
                  (add-IsSound deps table k _ sound new) (ground arith)
          ]
    ]

-- In a plan that is constructed, the tasks that write stand one below the other: in the order of the
-- plan, each is a dependency of every later one, or a dependency of one of its dependencies, and so on.
pub new_plan-AreInLine :
    (plan : Plan) {made : Plan} (order : List String)
    → new_plan plan ≡ ok made
    → topological_order (dependencies made.tasks) ≡ ok order
    → (ws : List String) × (writers made.tasks order ≡ ok ws)
      × AreInLine (dependencies made.tasks) ws
unfolding validate_writer_order
new_plan-AreInLine plan {made} order constructed ordered =
    let deps = dependencies made.tasks in
    let (e, _, _, valid, _, _) = new_plan-made plan constructed in
    let checked : validate_writer_order made.tasks ≡ ok tt =
      ap (λ (q : Plan). validate_writer_order q.tasks) e ∙ valid in
    elim (Outcome-cases (ancestors_along made.tasks [] order)) [
      | inr (_, a) ↦ ground arith
      | inl (table, a) ↦ elim (Outcome-cases (writers made.tasks order)) [
        | inr (_, w) ↦ ground arith
        | inl (ws, w) ↦ elim (Outcome-cases (are_chained table ws)) [
          | inr (_, c) ↦ ground arith
          | inl (chained, c) ↦
              let sound = along-IsSound made.tasks [] order (nothing-IsSound deps) a in
              let line : are_chained table ws ≡ ok true = ground arith in
              (ws, w, chained-AreInLine deps table ws sound line)
        ]
      ]
    ]

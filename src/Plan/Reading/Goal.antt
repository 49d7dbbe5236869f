-- ===== src/Plan/Reading/Goal.antt =====
-- What `goal_from_payload` reads back from a stored goal.

use blackcell.Prelude.{
  ◌≡◌, refl, String, true, false, List, [], ◌∷◌, str_eq, arith, ok, Outcome-cases, inl, inr, All,
  eq_iff,
}
use blackcell.Json.{text, arr, list_of, get, find, keys, has_exactly}
use blackcell.Host.{Host}
use blackcell.Kernel.Event.{is_blank}
use blackcell.Plan.Texts.{identifier, text_of, each, path_tuple, bounded_text_tuple}
use blackcell.Plan.Texts.Kept.{
  identifier-not_blank, commit-not_blank, text_of-ok, are_not_blank, path_tuple-are_not_blank,
  bounded_text_tuple-are_not_blank,
}
use blackcell.Plan.Specs.{VerificationCheck, GoalSpec, new_check, new_goal, is_odd_objective}
use blackcell.Plan.Payload.{check_payload, texts, goal_payload}
use blackcell.Plan.Reading.{
  elements, text_value, texts_value, read_check, read_checks, goal_from_payload,
}

module _ (host : Host) where
  each-text_value :
      (xs : List String)
      → are_not_blank host xs ≡ true
      → each (text_value host) (elements (list_of text xs)) ≡ ok xs
  unfolding each text_of are_not_blank
  each-text_value [] h = refl
  each-text_value (x ∷ xs) h = ground (arith, each-text_value xs)

  pub texts_value-texts :
      (xs : List String) → are_not_blank host xs ≡ true → texts_value host (texts xs) ≡ ok xs
  unfolding texts_value
  texts_value-texts xs h = each-text_value xs h

  -- a check that its constructor admits, none of whose arguments is blank
  unfoldable pub IsReadable : VerificationCheck → Type 0
  IsReadable c = (new_check c ≡ ok c) × (are_not_blank host c.argv ≡ true)

  new_check-not_blank :
      (c : VerificationCheck) → new_check c ≡ ok c → is_blank host c.check_id ≡ false
  unfolding new_check identifier
  new_check-not_blank c h = ground (arith, identifier-not_blank host c.check_id)

  read_check-check_payload :
      (c : VerificationCheck) → IsReadable c → read_check host (check_payload c) ≡ ok c
  unfolding read_check IsReadable get find
  read_check-check_payload c (made, full) =
      rw (text_of-ok host c.check_id (new_check-not_blank c made), texts_value-texts c.argv full)
        made

  each-read_check :
      (cs : List VerificationCheck)
      → All IsReadable cs
      → each (read_check host) (elements (list_of check_payload cs)) ≡ ok cs
  unfolding each
  each-read_check [] h = refl
  each-read_check (c ∷ cs) (r, rs) = rw (read_check-check_payload c r, each-read_check cs rs) refl

  pub read_checks-list_of :
      (cs : List VerificationCheck)
      → All IsReadable cs
      → read_checks host (arr (list_of check_payload cs)) ≡ ok cs
  unfolding read_checks
  read_checks-list_of cs h = each-read_check cs h

  schema-not_blank : (s : String) → str_eq s "blackcell.goal/v2" ≡ true → is_blank host s ≡ false
  unfolding is_blank
  schema-not_blank s h =
      let e : s ≡ "blackcell.goal/v2" = ground (arith, eq_iff s "blackcell.goal/v2") in rw e refl

  -- No text of a constructed goal is blank.
  new_goal-not_blank :
      (g : GoalSpec) {made : GoalSpec}
      → new_goal host g ≡ ok made
      → (is_blank host g.schema_version ≡ false)
        × (is_blank host g.goal_id ≡ false)
        × (is_blank host g.project_id ≡ false)
        × (is_blank host g.intent_id ≡ false)
        × (is_blank host g.objective ≡ false)
        × (is_blank host g.base_commit ≡ false)
        × (are_not_blank host g.constraints ≡ true)
        × (are_not_blank host g.allowed_paths ≡ true)
  unfolding new_goal identifier is_odd_objective
  new_goal-not_blank g h = elim (Outcome-cases (bounded_text_tuple host g.constraints 64)) [
    | inr (_, e) ↦ ground arith
    | inl (xs, e) ↦ elim (Outcome-cases (path_tuple host g.allowed_paths)) [
      | inr (_, d) ↦ ground arith
      | inl (ys, d) ↦ (
        ground (arith, schema-not_blank g.schema_version),
        ground (arith, identifier-not_blank host g.goal_id),
        ground (arith, identifier-not_blank host g.project_id),
        ground (arith, identifier-not_blank host g.intent_id),
        ground arith,
        ground (arith, commit-not_blank host g.base_commit),
        bounded_text_tuple-are_not_blank host g.constraints 64 e,
        path_tuple-are_not_blank host g.allowed_paths d,
      )
    ]
  ]

-- A goal that its constructor leaves as it is, and whose checks have no blank argument, is read back
-- from its payload unchanged: `goal_from_payload(goal_payload(goal)) == goal`.
pub goal_from_payload-goal_payload :
    (host : Host) (goal : GoalSpec)
    → new_goal host goal ≡ ok goal
    → All (IsReadable host) goal.verification_checks
    → goal_from_payload host (goal_payload goal) ≡ ok goal
unfolding goal_from_payload goal_payload get find keys has_exactly
goal_from_payload-goal_payload host g made checks =
    let (s, i, p, t, o, b, c, a) = new_goal-not_blank host g made in
    rw
      (
        read_checks-list_of host g.verification_checks checks,
        text_of-ok host g.schema_version s,
        text_of-ok host g.goal_id i,
        text_of-ok host g.project_id p,
        text_of-ok host g.intent_id t,
        text_of-ok host g.objective o,
        text_of-ok host g.base_commit b,
        texts_value-texts host g.constraints c,
        texts_value-texts host g.allowed_paths a,
      )
      made

-- ===== src/Plan/Ends.antt =====
-- The rounds of the loop, and the tasks in its result.
use blackcell.Prelude.{
  ℕ, zero, suc, ◌≤◌, ◌<◌, ◌≡◌, ◌≢◌, ◌∙◌, ap, sym, length, refl, String, Bool, true, false, List, [],
  ◌∷◌, ◌++◌, ◌&&◌, ◌||◌, not, arith, ok, err, inl, inr, eq_iff, eq_refl,
}
use blackcell.Lifecycle.Fold.{Dependencies, contains, names}
use blackcell.Plan.{no_rounds_left, keep, is_ready, ready, without, resolve, topological_order}
use blackcell.Plan.Order.{contains-keep, contains-append, contains-ready, List-cases}

length-keep-le : (p : String → Bool) (ks : List String) → length (keep p ks) ≤ length ks
unfolding keep
length-keep-le p [] = omega arith
length-keep-le p (k ∷ ks) = ground (arith, length-keep-le p ks)

-- What leaves out a member is shorter.
length-keep-lt :
    (p : String → Bool) (ks : List String) (k : String)
    → contains ks k ≡ true
    → p k ≡ false
    → length (keep p ks) < length ks
unfolding keep
length-keep-lt p [] k h out = ground arith
length-keep-lt p (j ∷ ks) k h out =
    ground (arith, eq_iff j k, length-keep-le p ks, length-keep-lt p ks k)

contains-without :
    (pending done : List String) (k : String)
    → contains (without pending done) k ≡ (contains pending k && not (contains done k))
unfolding without
contains-without pending done k = contains-keep (λ j. not (contains done j)) pending k

-- a member of `pending` that is done moves over, and the others stay
moved :
    (resolved pending is_done : Bool) {joined done left order : Bool}
    → joined ≡ (resolved || done)
    → left ≡ (pending && not done)
    → done ≡ (pending && is_done)
    → order ≡ (joined || left)
    → order ≡ (resolved || pending)
moved resolved pending is_done a b c d = ground arith

module _ (deps : Dependencies) where
  -- Each round takes a task away.
  shorter :
      (resolved pending : List String) (j : String) (js : List String)
      → ready deps resolved pending ≡ j ∷ js
      → length (without pending (j ∷ js)) < length pending
  unfolding without
  shorter resolved pending j js e =
      let there : contains (j ∷ js) j ≡ true = ground (arith, eq_refl j) in
      let waiting : contains pending j ≡ true =
        ground (arith, ap (λ l. contains l j) e, contains-ready deps resolved pending j) in
      length-keep-lt (λ k. not (contains (j ∷ js) k)) pending j waiting (rw there refl)

  resolve_enough :
      (rounds : ℕ) (resolved pending : List String)
      → length pending ≤ rounds
      → resolve rounds deps resolved pending ≢ err no_rounds_left
  unfolding resolve
  resolve_enough rounds resolved [] h = λ e. ground arith
  resolve_enough zero resolved (k ∷ ks) h = λ e. ground arith
  resolve_enough (suc rounds) resolved (k ∷ ks) h =
      elim (List-cases (ready deps resolved (k ∷ ks))) [
        | inl stuck ↦ λ e. ground arith
        | inr (j, js, found) ↦ λ e.
            resolve_enough rounds (resolved ++ j ∷ js) (without (k ∷ ks) (j ∷ js))
              (omega (arith, shorter resolved (k ∷ ks) j js found)) (ground arith)
      ]

  -- No task is lost.
  resolve-contains :
      (rounds : ℕ) (resolved pending order : List String) (n : String)
      → resolve rounds deps resolved pending ≡ ok order
      → contains order n ≡ (contains resolved n || contains pending n)
  unfolding resolve
  resolve-contains rounds resolved [] order n h = ground arith
  resolve-contains zero resolved (k ∷ ks) order n h = ground arith
  resolve-contains (suc rounds) resolved (k ∷ ks) order n h =
      elim (List-cases (ready deps resolved (k ∷ ks))) [
        | inl stuck ↦ ground arith
        | inr (j, js, found) ↦
            let next =
              resolve-contains rounds (resolved ++ j ∷ js) (without (k ∷ ks) (j ∷ js)) order n
                (ground (arith, found)) in
            let out = contains-without (k ∷ ks) (j ∷ js) n in
            let joined = contains-append resolved (j ∷ js) n in
            let taken = ap (λ l. contains l n) found in
            let was = contains-ready deps resolved (k ∷ ks) n in
            moved (contains resolved n) (contains (k ∷ ks) n) (is_ready deps resolved n) joined out
              (sym taken ∙ was) next
      ]

-- The order of a plan's tasks is found in as many rounds as there are tasks, or the plan is refused as
-- cyclic: the loop ends.
pub topological_order_enough : (deps : Dependencies) → topological_order deps ≢ err no_rounds_left
unfolding topological_order
topological_order_enough deps =
    resolve_enough deps (length (names deps)) [] (names deps) (omega arith)

-- The order of a plan's tasks has the plan's tasks, all of them and no other.
pub topological_order-contains :
    (deps : Dependencies) (order : List String) (k : String)
    → topological_order deps ≡ ok order
    → contains order k ≡ contains (names deps) k
unfolding topological_order
topological_order-contains deps order k h =
    resolve-contains deps (length (names deps)) [] (names deps) order k h

-- ===== src/Plan/Order.antt =====
-- The order of a plan's tasks, against their dependencies.
use blackcell.Prelude.{
  ℕ, zero, suc, ◌≡◌, ◌∙◌, ap, sym, length, ◌⊎◌, refl, String, Bool, true, List, [], ◌∷◌, ◌++◌, ◌&&◌,
  ◌||◌, all, arith, ok, inl, inr, eq_iff, eq_refl, str_eq,
}
use blackcell.Lifecycle.Lease.{dependencies_of}
use blackcell.Lifecycle.Fold.{Dependencies, contains, names, sorted, insert_name}
use blackcell.Plan.{keep, is_ready, ready, without, resolve, topological_order}

-- each of the tasks has its dependencies among those seen before
unfoldable pub respects : Dependencies → List String → List String → Bool
unfolding is_ready
respects deps seen [] = true
respects deps seen (k ∷ ks) = is_ready deps seen k && respects deps (seen ++ k ∷ []) ks

pub contains-append :
    (xs ys : List String) (k : String) → contains (xs ++ ys) k ≡ (contains xs k || contains ys k)
contains-append [] ys k = refl
contains-append (x ∷ xs) ys k = ground (arith, contains-append xs ys k)

pub contains-insert :
    (j : String) (ks : List String) (k : String)
    → contains (insert_name j ks) k ≡ (str_eq j k || contains ks k)
unfolding insert_name
contains-insert j [] k = refl
contains-insert j (i ∷ ks) k = ground (arith, contains-insert j ks k)

pub contains-sorted : (ks : List String) (k : String) → contains (sorted ks) k ≡ contains ks k
unfolding sorted
contains-sorted [] k = refl
contains-sorted (j ∷ ks) k = ground (arith, contains-insert j (sorted ks) k, contains-sorted ks k)

pub contains-keep :
    (p : String → Bool) (ks : List String) (k : String)
    → contains (keep p ks) k ≡ (contains ks k && p k)
unfolding keep
contains-keep p [] k = refl
contains-keep p (j ∷ ks) k = ground (arith, contains-keep p ks k, eq_iff j k)

all_mono :
    (p q : String → Bool) (ks : List String)
    → ((k : String) → p k ≡ true → q k ≡ true)
    → all p ks ≡ true
    → all q ks ≡ true
all_mono p q [] f h = refl
all_mono p q (k ∷ ks) f h = ground (arith, f k, all_mono p q ks f)

append_nil : (xs : List String) → xs ++ [] ≡ xs
append_nil [] = refl
append_nil (x ∷ xs) = ap (λ l. x ∷ l) (append_nil xs)

pub List-cases :
    (ks : List String) → (ks ≡ []) ⊎ ((j : String) × (js : List String) × (ks ≡ j ∷ js))
List-cases [] = inl refl
List-cases (j ∷ js) = inr (j, js, refl)

append_step :
    (xs : List String) (k : String) (ks : List String) → (xs ++ k ∷ []) ++ ks ≡ xs ++ k ∷ ks
append_step [] k ks = refl
append_step (x ∷ xs) k ks = ap (λ l. x ∷ l) (append_step xs k ks)

module _ (deps : Dependencies) where
  -- A task of the ready ones is pending, and its dependencies are resolved.
  pub contains-ready :
      (resolved pending : List String) (k : String)
      → contains (ready deps resolved pending) k ≡ (contains pending k && is_ready deps resolved k)
  unfolding ready
  contains-ready resolved pending k =
      contains-sorted (keep (is_ready deps resolved) pending) k
      ∙ contains-keep (is_ready deps resolved) pending k

  is_ready_mono :
      (base seen : List String) (k : String)
      → ((j : String) → contains base j ≡ true → contains seen j ≡ true)
      → is_ready deps base k ≡ true
      → is_ready deps seen k ≡ true
  unfolding is_ready
  is_ready_mono base seen k f h =
      all_mono (contains base) (contains seen) (dependencies_of k deps) f h

  respects-base :
      (base seen ks : List String)
      → ((k : String) → contains ks k ≡ true → is_ready deps base k ≡ true)
      → ((k : String) → contains base k ≡ true → contains seen k ≡ true)
      → respects deps seen ks ≡ true
  unfolding respects
  respects-base base seen [] f g = refl
  respects-base base seen (k ∷ ks) f g =
      let here : is_ready deps seen k ≡ true =
        is_ready_mono base seen k g (f k (ground (arith, eq_refl k))) in
      let rest : respects deps (seen ++ k ∷ []) ks ≡ true =
        respects-base base (seen ++ k ∷ []) ks (λ j h. f j (ground arith))
          (λ j h. ground (arith, contains-append seen (k ∷ []) j, g j)) in
      ground arith

  respects-append :
      (seen xs ys : List String)
      → respects deps seen (xs ++ ys) ≡ (respects deps seen xs && respects deps (seen ++ xs) ys)
  unfolding respects
  respects-append seen [] ys = ap (λ l. respects deps l ys) (sym (append_nil seen))
  respects-append seen (x ∷ xs) ys =
      ground (arith, respects-append (seen ++ x ∷ []) xs ys, append_step seen x xs)

  -- One round puts tasks behind their dependencies.
  round-respects :
      (resolved pending js : List String)
      → ready deps resolved pending ≡ js
      → respects deps [] resolved ≡ true
      → respects deps [] (resolved ++ js) ≡ true
  round-respects resolved pending js e r =
      let new : respects deps resolved js ≡ true =
        respects-base resolved resolved js
          (λ k h. ground (arith, ap (λ l. contains l k) e, contains-ready resolved pending k))
          (λ k h. h) in
      ground (arith, respects-append [] resolved js)

  pub resolve-respects :
      (rounds : ℕ) (resolved pending order : List String)
      → resolve rounds deps resolved pending ≡ ok order
      → respects deps [] resolved ≡ true
      → respects deps [] order ≡ true
  unfolding resolve
  resolve-respects rounds resolved [] order h r = ground arith
  resolve-respects zero resolved (k ∷ ks) order h r = ground arith
  resolve-respects (suc rounds) resolved (k ∷ ks) order h r =
      elim (List-cases (ready deps resolved (k ∷ ks))) [
        | inl stuck ↦ ground arith
        | inr (j, js, e) ↦
            resolve-respects rounds (resolved ++ j ∷ js) (without (k ∷ ks) (j ∷ js)) order
              (ground (arith, e)) (round-respects resolved (k ∷ ks) (j ∷ js) e r)
      ]

-- In the order that a plan's tasks get, every task comes after all its dependencies.
pub topological_order-respects :
    (deps : Dependencies) (order : List String)
    → topological_order deps ≡ ok order
    → respects deps [] order ≡ true
unfolding topological_order respects
topological_order-respects deps order h =
    resolve-respects deps (length (names deps)) [] (names deps) order h refl

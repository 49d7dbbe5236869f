-- ===== src/Plan/Compile/Paths.antt =====
-- The paths of a task, against those of the goal it is compiled for.

use blackcell.Prelude.{
  ◌≡◌, refl, String, true, false, List, [], ◌∷◌, arith, ok, str_eq, false, Outcome-cases,
  Bool-cases, inl, inr, eq_iff, eq_refl,
}
use blackcell.Host.{Host}
use blackcell.Lifecycle.Fold.{contains}
use blackcell.Plan.Order.{contains-sorted}
use blackcell.Plan.Texts.Kept.{each-cons}
use blackcell.Plan.Texts.{each, is_slashes, without_slashes, repository_path, path_tuple}

is_slashes-without_slashes : (s : String) → is_slashes (without_slashes s) ≡ is_slashes s
unfolding is_slashes without_slashes
is_slashes-without_slashes String.[] = refl
is_slashes-without_slashes (String.◌∷◌ c s) = elim (Bool-cases (is_slashes (String.◌∷◌ c s))) [
  | inl whole ↦ rw whole refl
  | inr other ↦
      let e : is_slashes (String.◌∷◌ c (without_slashes s)) ≡ false =
        rw (is_slashes-without_slashes s) other in
      rw other e
]

without_slashes_twice : (s : String) → without_slashes (without_slashes s) ≡ without_slashes s
unfolding is_slashes without_slashes
without_slashes_twice String.[] = refl
without_slashes_twice (String.◌∷◌ c s) = elim (Bool-cases (is_slashes (String.◌∷◌ c s))) [
  | inl whole ↦ rw whole refl
  | inr other ↦
      let e : is_slashes (String.◌∷◌ c (without_slashes s)) ≡ false =
        rw (is_slashes-without_slashes s) other in
      rw (other, e, without_slashes_twice s) refl
]

-- no slash at the end
unfoldable pub AreStripped : List String → Type 0
AreStripped paths = (k : String) → contains paths k ≡ true → without_slashes k ≡ k

module _ (host : Host) where
  repository_path-stripped :
      (x : String) {p : String} → repository_path host x ≡ ok p → p ≡ without_slashes x
  unfolding repository_path
  repository_path-stripped x h = ground arith

  each-AreStripped :
      (xs : List String) {paths : List String}
      → each (repository_path host) xs ≡ ok paths
      → AreStripped paths
  unfolding each AreStripped
  each-AreStripped [] h k m = ground arith
  each-AreStripped (x ∷ xs) h k m =
      let (y, rest, first, others, e) = each-cons (repository_path host) x xs h in
      let stripped = repository_path-stripped x first in
      elim (Bool-cases (str_eq y k)) [
        | inl same ↦
            let z : k ≡ without_slashes x = ground (arith, eq_iff y k) in
            rw z (without_slashes_twice x)
        | inr other ↦ each-AreStripped xs others k (ground arith)
      ]

  each_within :
      (xs : List String) {paths : List String}
      → AreStripped xs
      → each (repository_path host) xs ≡ ok paths
      → (k : String) → contains paths k ≡ true
      → contains xs k ≡ true
  unfolding each AreStripped
  each_within [] stripped h k m = ground arith
  each_within (x ∷ xs) stripped h k m =
      let (y, rest, first, others, e) = each-cons (repository_path host) x xs h in
      let y_is = repository_path-stripped x first in
      let kept = stripped x (ground (arith, eq_refl x)) in
      let later = each_within xs (λ j n. stripped j (ground arith)) others k in
      ground (arith, eq_iff y k)

  pub path_tuple-AreStripped :
      (xs : List String) {paths : List String} → path_tuple host xs ≡ ok paths → AreStripped paths
  unfolding path_tuple AreStripped
  path_tuple-AreStripped xs h k m = elim (Outcome-cases (each (repository_path host) xs)) [
    | inr (_, e) ↦ ground arith
    | inl (rest, e) ↦ each-AreStripped xs e k (ground (arith, contains-sorted rest k))
  ]

  pub path_tuple_within :
      (xs : List String) {paths : List String}
      → AreStripped xs
      → path_tuple host xs ≡ ok paths
      → (k : String) → contains paths k ≡ true
      → contains xs k ≡ true
  unfolding path_tuple
  path_tuple_within xs stripped h k m = elim (Outcome-cases (each (repository_path host) xs)) [
    | inr (_, e) ↦ ground arith
    | inl (rest, e) ↦ each_within xs stripped e k (ground (arith, contains-sorted rest k))
  ]

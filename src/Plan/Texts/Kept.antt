-- ===== src/Plan/Texts/Kept.antt =====
-- Values that the checks return as they are.

use blackcell.Prelude.{
  ℕ, ◌≡◌, refl, String, Bool, true, false, List, [], ◌∷◌, not, all, arith, ok, >>=-eq-ok,
  Outcome-cases, inl, inr,
}
use blackcell.Prelude.Text.{after_prefix}
use blackcell.Prelude.Patterns.{fullmatch, is_commit, is_digest}
use blackcell.Host.{Host}
use blackcell.Kernel.Event.{is_blank}
use blackcell.Plan.{Result}
use blackcell.Plan.Texts.{
  is_identifier, text_of, repository_path, path_tuple, bounded_text_tuple, each,
}

module _ (host : Host) where
  pub identifier-not_blank : (s : String) → is_identifier s ≡ true → is_blank host s ≡ false
  unfolding is_identifier fullmatch is_blank
  identifier-not_blank String.[] h = ground arith
  identifier-not_blank (String.◌∷◌ c s) h = ground arith

  pub commit-not_blank : (s : String) → is_commit s ≡ true → is_blank host s ≡ false
  unfolding is_commit is_blank
  commit-not_blank String.[] h = ground arith
  commit-not_blank (String.◌∷◌ c s) h = ground arith

  pub digest-not_blank : (s : String) → is_digest s ≡ true → is_blank host s ≡ false
  unfolding is_digest is_blank after_prefix
  digest-not_blank String.[] h = ground arith
  digest-not_blank (String.◌∷◌ c s) h = ground arith

  pub text_of-ok : (s : String) → is_blank host s ≡ false → text_of host s ≡ ok s
  unfolding text_of
  text_of-ok s h = rw h refl

  unfoldable pub are_not_blank : List String → Bool
  are_not_blank = all (λ s. not (is_blank host s))

  pub texts-are_not_blank :
      (xs : List String) {ys : List String}
      → each (text_of host) xs ≡ ok ys
      → are_not_blank xs ≡ true
  unfolding each text_of are_not_blank
  texts-are_not_blank [] h = refl
  texts-are_not_blank (x ∷ xs) h = elim (Outcome-cases (each (text_of host) xs)) [
    | inl (ys, e) ↦ ground (arith, texts-are_not_blank xs e)
    | inr (_, e) ↦ ground arith
  ]

  pub paths-are_not_blank :
      (xs : List String) {ys : List String}
      → each (repository_path host) xs ≡ ok ys
      → are_not_blank xs ≡ true
  unfolding each repository_path text_of are_not_blank
  paths-are_not_blank [] h = refl
  paths-are_not_blank (x ∷ xs) h = elim (Outcome-cases (each (repository_path host) xs)) [
    | inl (ys, e) ↦ ground (arith, paths-are_not_blank xs e)
    | inr (_, e) ↦ ground arith
  ]

  pub path_tuple-are_not_blank :
      (xs : List String) {ys : List String} → path_tuple host xs ≡ ok ys → are_not_blank xs ≡ true
  unfolding path_tuple
  path_tuple-are_not_blank xs h = elim (Outcome-cases (each (repository_path host) xs)) [
    | inl (ys, e) ↦ paths-are_not_blank xs e
    | inr (_, e) ↦ ground arith
  ]

  pub bounded_text_tuple-are_not_blank :
      (xs : List String) (n : ℕ) {ys : List String}
      → bounded_text_tuple host xs n ≡ ok ys
      → are_not_blank xs ≡ true
  unfolding bounded_text_tuple
  bounded_text_tuple-are_not_blank xs n h = elim (Outcome-cases (each (text_of host) xs)) [
    | inl (ys, e) ↦ texts-are_not_blank xs e
    | inr (_, e) ↦ ground arith
  ]

-- The parts of a loop over a tuple that returned.
pub each-cons {α β} :
    {A : Type α} {B : Type β} (check : A → Result B) (x : A) (xs : List A) {ys : List B}
    → each check (x ∷ xs) ≡ ok ys
    → (y : B) × (rest : List B) × (check x ≡ ok y) × (each check xs ≡ ok rest) × (ys ≡ y ∷ rest)
unfolding each
each-cons check x xs h =
    let (y, first, next) = >>=-eq-ok (check x) _ h in
    let (rest, others, back) = >>=-eq-ok (each check xs) _ next in
    (y, rest, first, others, ground arith)

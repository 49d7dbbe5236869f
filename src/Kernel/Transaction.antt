-- ===== src/Kernel/Transaction.antt =====
-- A statement or method that runs inside a SQLite transaction: its result or exception, beside the
-- tables that it leaves.
use blackcell.Prelude.{ok, err, ◌≡◌, refl}
use blackcell.Kernel.Errors.{Result, KernelError}
use blackcell.Kernel.Ledger.{Database}

abbrev pub Action : Type 0 → Type 0
Action A = Database → Result A × Database

module _ {A : Type 0} where
  abbrev pub pure : A → Action A
  pure a db = (ok a, db)

  abbrev pub raise : KernelError → Action A
  raise e db = (err e, db)

  abbrev pub lift : Result A → Action A
  lift r db = (r, db)

abbrev pub gets : {A : Type 0} → (Database → A) → Action A
gets f db = (ok (f db), db)

module _ {A B : Type 0} where
  abbrev continue : Result A → (A → Action B) → Action B
  continue (ok a) f db = f a db
  continue (err e) f db = (err e, db)

  infixl 5 ◌>>=◌ ◌>>◌
  abbrev pub ◌>>=◌ : Action A → (A → Action B) → Action B
  ◌>>=◌ m f db = let (r, after) = m db in continue r f after

  abbrev pub ◌>>◌ : Action A → Action B → Action B
  m >> n = m >>= λ _. n

-- A bind that returned ran both of its parts.
pub bind-eq-ok :
    {A B : Type 0} (m : Action A) (f : A → Action B) {b : B} {before after : Database}
    → (m >>= f) before ≡ (ok b, after)
    → (a : A) × (middle : Database) × (m before ≡ (ok a, middle)) × (f a middle ≡ (ok b, after))
bind-eq-ok {A} {B} m f {b} {before} {after} h = go (m before) refl h
  where
    go :
        (r : Result A × Database)
        → m before ≡ r
        → continue r.0 f r.1 ≡ (ok b, after)
        → (a : A) × (middle : Database) × (m before ≡ (ok a, middle)) × (f a middle ≡ (ok b, after))
    go (ok a, middle) e k = (a, middle, e, k)
    go (err x, middle) e k = cc

-- ===== src/Prelude/Exceptions.antt =====
-- A computation that may raise: its value, or the exception. `E` is the type of exceptions.
use mathlib.Core.Path.{◌≡◌, refl}
use mathlib.Core.Bool.{Bool, true, false}
use mathlib.Core.Logic.{◌⊎◌, inl, inr}

pub data Outcome {α ε} (E : Type ε) (A : Type α) : Type (α ⊔ ε) where
  err : E → Outcome E A
  ok : A → Outcome E A

-- `if test: raise exception`
abbrev pub raise_if {ε} : {E : Type ε} (test : Bool) (exception : E) → Outcome E (Unit {0})
raise_if false exception = ok tt
raise_if true exception = err exception

infixl 5 ◌>>=◌ ◌>>◌
abbrev pub ◌>>=◌ {α β ε} :
    {E : Type ε} {A : Type α} {B : Type β} (first : Outcome E A) (next : A → Outcome E B)
    → Outcome E B
err exception >>= next = err exception
ok value >>= next = next value

abbrev pub ◌>>◌ {β ε} : {E : Type ε} {B : Type β} → Outcome E (Unit {0}) → Outcome E B → Outcome E B
first >> next = first >>= λ _. next

-- Inversion of a bind that returned.
pub >>=-eq-ok {α β ε} :
    {E : Type ε} {A : Type α} {B : Type β} (first : Outcome E A) (next : A → Outcome E B) {b : B}
    (returned : (first >>= next) ≡ ok b)
    → (a : A) × (first ≡ ok a) × (next a ≡ ok b)
>>=-eq-ok (err exception) next returned = cc
>>=-eq-ok (ok value) next returned = (value, refl, returned)

pub Outcome-cases {α ε} :
    {E : Type ε} {A : Type α} (r : Outcome E A) → ((a : A) × (r ≡ ok a)) ⊎ ((e : E) × (r ≡ err e))
Outcome-cases (err exception) = inr (exception, refl)
Outcome-cases (ok value) = inl (value, refl)

-- A guard in front of what returned let it pass.
pub raise_if-passed {α ε} :
    {E : Type ε} {A : Type α} (test : Bool) (e : E) (rest : Outcome E A) {a : A}
    (returned : (raise_if test e >> rest) ≡ ok a)
    → (test ≡ false) × (rest ≡ ok a)
raise_if-passed false e rest returned = (refl, returned)
raise_if-passed true e rest returned = cc

pub ok-injective {α ε} :
    {E : Type ε} {A : Type α} {a b : A} → ◌≡◌ {A = Outcome E A} (ok a) (ok b) → a ≡ b
ok-injective same = cc

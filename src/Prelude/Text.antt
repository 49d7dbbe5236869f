-- ===== src/Prelude/Text.antt =====
-- Python's `str` tests over the code points of a native text.
use Prim.Native.Char.{code}
use Prim.Native.String.{String}
use Prim.Native.Nat.{ℕ, suc, zero}
use mathlib.Core.Path.{◌≡◌, refl}
use mathlib.Core.Bool.{Bool, true, false, ◌&&◌, ◌||◌}
use mathlib.Core.List.{List, [], ◌∷◌}
use mathlib.Core.Option.{Option, none, some}
use native.Mathlib.Omega.{arith}
use text.Mathlib.Text.{◌==◌ as str_eq}
use text.Mathlib.TextEquality.{eq_iff}
use text.Mathlib.TextPositions.{eq_refl}
use blackcell.Prelude.Tests.{ltb, leb, ◌==◌, if◌then◌else◌}

abbrev pub codes : String → List ℕ
codes String.[] = []
codes (String.◌∷◌ c s) = code c ∷ codes s

-- ASCII `str.isalnum`
abbrev pub is_alnum : ℕ → Bool
is_alnum c = (leb b'0' c && leb c b'9') || (leb b'A' c && leb c b'Z') || (leb b'a' c && leb c b'z')

-- the code points below 128 that `str.strip` removes
abbrev pub is_ascii_space : ℕ → Bool
is_ascii_space c = (leb 9 c && leb c 13) || (leb 28 c && leb c 32)

-- `text[len(prefix):]` if `text.startswith(prefix)`
unfoldable pub after_prefix : String → String → Option String
after_prefix String.[] text = some text
after_prefix (String.◌∷◌ p ps) String.[] = none
after_prefix (String.◌∷◌ p ps) (String.◌∷◌ c text) =
    if code c == code p then after_prefix ps text else none

-- `text[:n]`
unfoldable pub take : ℕ → String → String
take zero s = ""
take (suc n) String.[] = ""
take (suc n) (String.◌∷◌ c s) = String.◌∷◌ c (take n s)

-- `==` on tuples of strings
unfoldable pub texts_eq : List String → List String → Bool
texts_eq [] [] = true
texts_eq (a ∷ xs) (b ∷ ys) = str_eq a b && texts_eq xs ys
texts_eq _ _ = false

pub texts_eq_refl : (xs : List String) → texts_eq xs xs ≡ true
unfolding texts_eq
texts_eq_refl [] = refl
texts_eq_refl (x ∷ xs) = ground (arith, eq_refl x, texts_eq_refl xs)

pub texts_eq-eq : (xs ys : List String) → texts_eq xs ys ≡ true → xs ≡ ys
unfolding texts_eq
texts_eq-eq [] [] h = refl
texts_eq-eq [] (y ∷ ys) h = ground arith
texts_eq-eq (x ∷ xs) [] h = ground arith
texts_eq-eq (x ∷ xs) (y ∷ ys) h =
    let e : x ≡ y = ground (arith, eq_iff x y) in
    let f : xs ≡ ys = texts_eq-eq xs ys (ground arith) in rw (e, f) refl

-- the digits and blanks of `int(text, 16)` in C
abbrev is_hex_digit : ℕ → Bool
is_hex_digit c =
    (leb b'0' c && leb c b'9') || (leb b'A' c && leb c b'F') || (leb b'a' c && leb c b'f')

abbrev is_c_space : ℕ → Bool
is_c_space c = (leb 9 c && leb c 13) || c == 32

only_spaces : List ℕ → Bool
only_spaces [] = true
only_spaces (c ∷ cs) = is_c_space c && only_spaces cs

-- Digits, with single underscores between them, and blanks behind. `gap` is true before the first
-- digit and behind an underscore.
hex_body : Bool → List ℕ → Bool
unfolding only_spaces
hex_body gap [] = if gap then false else true
hex_body gap (c ∷ cs) =
    let next = hex_body (c == b'_') cs in
    if is_hex_digit c
    then next
    else if c == b'_'
    then (if gap then false else next)
    else (if gap then false else only_spaces (c ∷ cs))

hex_underscore : List ℕ → Bool
unfolding hex_body
hex_underscore (c ∷ cs) = if c == b'_' then hex_body true cs else hex_body true (c ∷ cs)
hex_underscore [] = false

-- an optional `0x`, and one underscore behind it
hex_prefix : List ℕ → Bool
unfolding hex_underscore
hex_prefix (z ∷ x ∷ cs) =
    if z == b'0' && (x == b'x' || x == b'X') then hex_underscore cs else hex_body true (z ∷ x ∷ cs)
hex_prefix cs = hex_body true cs

hex_sign : List ℕ → Bool
unfolding hex_prefix
hex_sign (c ∷ cs) = if c == b'+' || c == b'-' then hex_prefix cs else hex_prefix (c ∷ cs)
hex_sign [] = false

hex_spaces : List ℕ → Bool
unfolding hex_sign
hex_spaces (c ∷ cs) = let rest = hex_spaces cs in if is_c_space c then rest else hex_sign (c ∷ cs)
hex_spaces [] = false

-- what a code point stands for, by the table for those above 127
as_ascii : (ℕ → Option ℕ) → ℕ → ℕ
as_ascii table c = if ltb c 128 then c else elim (table c) [ none ↦ b'?' | some d ↦ d ]

as_ascii_all : (ℕ → Option ℕ) → List ℕ → List ℕ
unfolding as_ascii
as_ascii_all table [] = []
as_ascii_all table (c ∷ cs) = as_ascii table c ∷ as_ascii_all table cs

-- whether `int(text, 16)` returns
unfoldable pub parses_hex : (ℕ → Option ℕ) → String → Bool
unfolding hex_spaces as_ascii_all
parses_hex table text = hex_spaces (as_ascii_all table (codes text))

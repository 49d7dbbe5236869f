-- ===== src/Kernel/Reads/Order.antt =====
-- Queries whose rows come in order already.
use blackcell.Prelude.{
  ℕ, zero, suc, ◌+◌, ◌-◌, ℤ, pos, negsuc, ◌≡◌, ◌∙◌, ap, refl, String, true, Option, none, some,
  List, [], ◌∷◌, ltb, leb, map, arith, inl, inr, Bool-cases, if◌then◌else◌,
}
use blackcell.Kernel.Ledger.{Row}
use blackcell.Kernel.Streams.{range, sequences}
use blackcell.Kernel.Reads.{
  select_rows, insert_row, order_by, is_wanted, by_sequence, first_rows, limited,
}

-- the numbers above `a`
unfoldable pub above : ℕ → List ℕ → List ℕ
above a [] = []
above a (n ∷ ns) = let rest = above a ns in if ltb a n then n ∷ rest else rest

above-range_all : (a b m : ℕ) → ltb a b ≡ true → above a (range b m) ≡ range b m
unfolding above
above-range_all a b zero h = refl
above-range_all a b (suc m) h =
    rw h (ap (λ (ns : List ℕ). b ∷ ns) (above-range_all a (suc b) m (ground arith)))

-- Of the numbers from `b` on, those above `a` are the numbers from `a + 1` on.
pub above-range :
    (a b m : ℕ) → leb b (suc a) ≡ true → above a (range b m) ≡ range (suc a) ((b + m) - suc a)
unfolding above
above-range a b zero h = let e : (b + zero) - suc a ≡ zero = ground arith in rw e refl
above-range a b (suc m) h = elim (Bool-cases (ltb a b)) [
  | inl over ↦
      let e : b ≡ suc a = ground arith in
      let f : (b + suc m) - suc a ≡ suc m = ground arith in
      above-range_all a b (suc m) over ∙ rw (f, e) refl
  | inr under ↦
      let e : suc b + m ≡ b + suc m = omega arith in
      rw under
        (above-range a (suc b) m (ground arith) ∙ ap (λ (n : ℕ). range (suc a) (n - suc a)) e)
]

-- The sequences of a stream's rows behind a cursor.
pub select-sequences :
    (k : String) (a : ℕ) (rows : List Row)
    → map by_sequence (select_rows (is_wanted k (pos a) none) rows) ≡ above a (sequences k rows)
unfolding select_rows above
select-sequences k a [] = refl
select-sequences k a (row ∷ rows) = ground (arith, select-sequences k a rows)

insert_row-first :
    (row : Row) (rows : List Row) (c m : ℕ)
    → row.stream_sequence ≡ c
    → map by_sequence rows ≡ range (suc c) m
    → insert_row by_sequence row rows ≡ row ∷ rows
unfolding insert_row
insert_row-first row [] c m h k = refl
insert_row-first row (next ∷ rows) c zero h k = ground arith
insert_row-first row (next ∷ rows) c (suc m) h k = ground arith

-- Rows in the order of the query stay as they are.
pub order_by-sequences :
    (rows : List Row) (c m : ℕ)
    → map by_sequence rows ≡ range c m
    → order_by by_sequence rows ≡ rows
unfolding order_by
order_by-sequences [] c m h = refl
order_by-sequences (row ∷ rows) c zero h = ground arith
order_by-sequences (row ∷ rows) c (suc m) h =
    let head : row.stream_sequence ≡ c = ground arith in
    let rest : map by_sequence rows ≡ range (suc c) m = ground arith in
    rw (order_by-sequences rows (suc c) m rest) (insert_row-first row rows c m head rest)

map-first_rows :
    (n : ℕ) (rows : List Row)
    → map by_sequence (first_rows n rows) ≡ first_rows n (map by_sequence rows)
unfolding first_rows
map-first_rows zero rows = refl
map-first_rows (suc n) [] = refl
map-first_rows (suc n) (row ∷ rows) =
    ap (λ (ns : List ℕ). row.stream_sequence ∷ ns) (map-first_rows n rows)

pub map-limited :
    (limit : Option ℤ) (rows : List Row)
    → map by_sequence (limited limit rows) ≡ limited limit (map by_sequence rows)
map-limited none rows = refl
map-limited (some (pos n)) rows = map-first_rows n rows
map-limited (some (negsuc _)) rows = refl

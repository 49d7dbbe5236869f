-- ===== src/Kernel/Streams/Committed.antt =====
-- The whole first loop, the inserts and the last loop of `append_many_in_transaction`.
use blackcell.Prelude.{ℤ, ◌≡◌, refl, ◌∙◌, String, List, [], ◌∷◌, map, arith, All, All-map, ok}
use blackcell.Kernel.Ledger.{Database}
use blackcell.Kernel.Append.{Pair}
use blackcell.Kernel.Transaction.{bind-eq-ok, pure, ◌>>=◌}
use blackcell.Kernel.Store.{Checked, check_stream, check_streams}
use blackcell.Kernel.Streams.Checked.{Same, Same-refl, Same-trans, Fits, check_stream_lem}

abbrev pub ids_of : List Checked → List String
ids_of cs = map (λ c. c.stream_id) cs

Fits-Same :
    {pairs : List Pair} {a b : Database}
    → Same a b
    → (c : Checked) → Fits pairs b c
    → Fits pairs a c
Fits-Same s c f = record { current = f.current ∙ s.current c.stream_id; gained = f.gained }

module _ (expected : List (String × ℤ)) (pairs : List Pair) where
  -- The first loop checks each stream on the tables as they were, and changes no sequence.
  pub check_streams_lem :
      (ids : List String) (db : Database) {cs : List Checked} {after : Database}
      → check_streams expected pairs ids db ≡ (ok cs, after)
      → (ids_of cs ≡ ids) × All (Fits pairs db) cs × Same db after
  unfolding check_streams
  check_streams_lem [] db {cs} {after} h =
      let e : cs ≡ [] = ground arith in
      let f : after ≡ db = ground arith in rw (e, f) (refl, tt, Same-refl db)
  check_streams_lem (k ∷ ids) db {cs} {after} h =
      let (c, middle, first, more) =
        bind-eq-ok (check_stream expected pairs k)
          (λ c. check_streams expected pairs ids >>= λ cs. pure (c ∷ cs)) h in
      let (rest, last, second, done) =
        bind-eq-ok (check_streams expected pairs ids) (λ cs. pure (c ∷ cs)) more in
      let (named, fits, same) = check_stream_lem expected pairs k db first in
      let (ids_named, all_fit, same') = check_streams_lem ids middle second in
      let e : cs ≡ c ∷ rest = cc in
      let f : after ≡ last = cc in
      rw (e, f) (cc, (fits, All-map rest (Fits-Same same) all_fit), Same-trans same same')

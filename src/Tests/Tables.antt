-- ===== src/Tests/Tables.antt =====
-- hashtable.c: small tables.
use rsync_wrapper.Prelude.{
  ℕ, zero, suc, ◌*◌, ◌+◌, ◌^◌, ◌≤◌, ◌≡◌, refl, arith, true, none, some, ok, Option, List, [], ◌∷◌,
}
use rsync_wrapper.Hash.{held, hashtable_create, hashtable_find, HashTable, table_size}
use rsync_wrapper.Hash.Mask.{IsPower}
use rsync_wrapper.Hash.Valid.{IsKey, Finds}
use rsync_wrapper.Hash.Grow.{IsLoaded}
use rsync_wrapper.Hash.Find.{table_size_lem, hashtable_create-IsNew, hashtable_find-Finds}
use rsync_wrapper.Hash.Client.{Call, find, write, replay, AreLegal}

create_run : table_size 17 ≡ 32
unfolding table_size
create_run = refl

table_size_lem_example :
    IsPower (table_size 17)
    × (16 ≤ table_size 17)
    × (17 ≤ table_size 17)
    × (table_size 17 ≤ 17 * 2 + 16)
    × (table_size 17 ≤ 2 ^ 30)
table_size_lem_example = table_size_lem 17 (omega arith)

-- The calls with the keys from `n` down to 1.
many : ℕ → List Call
many zero = []
many (suc n) = find (suc n) (suc n) ∷ many n

suc-IsKey : (n : ℕ) → IsKey true (suc n)
unfolding held
suc-IsKey n = record { some_key = λ e. omega (arith, e); fits = refl }

abbrev some_calls : List Call
some_calls = write 7 9 0 ∷ write 5 1 8 ∷ write 5 1 4 ∷ find 7 0 ∷ find 6 0 ∷ []

some_calls-AreLegal : AreLegal true some_calls
unfolding AreLegal
some_calls-AreLegal =
    let rest : AreLegal true (write 5 1 8 ∷ write 5 1 4 ∷ find 7 0 ∷ find 6 0 ∷ []) = (
      (suc-IsKey 4, λ e. omega (arith, e)),
      ((suc-IsKey 4, λ e. omega (arith, e)), (suc-IsKey 6, (suc-IsKey 5, tt))),
    ) in
    ((suc-IsKey 6, λ e. omega (arith, e)), rest)

some_calls_run : (replay some_calls (λ k. none)).0 ≡ some 9 ∷ some 1 ∷ some 8 ∷ some 0 ∷ none ∷ []
unfolding replay
some_calls_run = refl

hashtable_find-Finds_example :
    (o : Option ℕ) × (tbl' : HashTable) × (hashtable_find (hashtable_create 0 true) 5 9
      ≡ ok (o, tbl'))
    × Finds (hashtable_create 0 true) 5 9 o tbl'
    × IsLoaded tbl'
unfolding hashtable_create
hashtable_find-Finds_example =
    hashtable_find-Finds (hashtable_create 0 true) (hashtable_create-IsNew 0 true).valid
      (hashtable_create-IsNew 0 true).loaded 5 (suc-IsKey 4) 9

-- ===== src/Fuzzy.antt =====
-- util.c: `fuzzy_distance`, the distance of two file names. Values are uint32 and wrap at 2 ^ 32.
pub mod Laws
use rsync_wrapper.Prelude.{ℕ, zero, suc, ◌+◌, ◌-◌, ◌*◌, ◌%◌, ◌^◌, ltb, ◌==◌, if◌then◌else◌, ◌||◌}
use rsync_wrapper.Prelude.{Bytes, List, [], ◌∷◌, length}
use rsync_wrapper.Checksum.{schar}

-- UNIT
abbrev pub cost_unit : ℕ
cost_unit = 65536

abbrev pub uint32 : ℕ → ℕ
uint32 n = n % 2 ^ 32

-- `cost += s1[i1]`, of `char`, which has a sign.
unfoldable pub char_sum : Bytes → ℕ
unfolding schar
char_sum [] = 0
char_sum (c ∷ s) = (schar c + char_sum s) % 2 ^ 32

-- The cost of the diagonal step.
unfoldable pub change_cost : ℕ → ℕ → ℕ
change_cost c1 c2 =
    if c1 == c2 then 0 else if ltb c1 c2 then cost_unit + (c2 - c1) else cost_unit + (c1 - c2)

-- `a[i2]` from its three neighbours.
unfoldable pub cell : (c1 c2 diag above left : ℕ) → ℕ
unfolding change_cost
cell c1 c2 diag above left =
    let diag_inc = uint32 (diag + change_cost c1 c2) in
    let left_inc = uint32 (left + cost_unit + c1) in
    let above_inc = uint32 (above + cost_unit + c2) in
    if ltb left above
    then (if ltb left_inc diag_inc then left_inc else diag_inc)
    else if ltb above_inc diag_inc
    then above_inc
    else diag_inc

-- `for (i2 = 0; i2 < len2; i2++) a[i2] = (i2+1) * UNIT`
unfoldable pub first_row : ℕ → Bytes → List ℕ
first_row i2 [] = []
first_row i2 (c2 ∷ s2) = uint32 ((i2 + 1) * cost_unit) ∷ first_row (i2 + 1) s2

-- The inner loop, over the array of the row before.
unfoldable pub row_loop : ℕ → Bytes → List ℕ → (diag above : ℕ) → List ℕ
unfolding cell
row_loop c1 [] a diag above = a
row_loop c1 (c2 ∷ s2) [] diag above = []
row_loop c1 (c2 ∷ s2) (left ∷ a) diag above =
    cell c1 c2 diag above left ∷ row_loop c1 s2 a left (cell c1 c2 diag above left)

-- The outer loop.
unfoldable pub rows_loop : ℕ → Bytes → Bytes → List ℕ → List ℕ
unfolding row_loop
rows_loop i1 [] s2 a = a
rows_loop i1 (c1 ∷ s1) s2 a =
    rows_loop (i1 + 1) s1 s2
      (row_loop c1 s2 a (uint32 (i1 * cost_unit)) (uint32 ((i1 + 1) * cost_unit)))

-- `a[len2-1]`
unfoldable pub last_or : ℕ → List ℕ → ℕ
last_or d [] = d
last_or d (x ∷ a) = last_or x a

unfoldable pub fuzzy_distance : Bytes → Bytes → ℕ
unfolding char_sum first_row rows_loop last_or
fuzzy_distance s1 s2 =
    if length s1 == 0
    then uint32 (length s2 * cost_unit + char_sum s2)
    else if length s2 == 0
    then uint32 (length s1 * cost_unit + char_sum s1)
    else last_or 0 (rows_loop 0 s1 s2 (first_row 0 s2))

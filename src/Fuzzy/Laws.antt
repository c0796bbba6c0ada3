-- ===== src/Fuzzy/Laws.antt =====
-- util.c: one array of distances, row by row, comes to the distance defined on all pairs of prefixes.
use rsync_wrapper.Prelude.{ℕ, suc, ◌+◌, ◌*◌, ◌<◌, ◌≡◌, refl, sym, ap, ◌∙◌, arith, ◌==◌, false}
use rsync_wrapper.Prelude.{Bytes, List, [], ◌∷◌, length}
use rsync_wrapper.Fuzzy.{
  cost_unit, uint32, cell, first_row, row_loop, rows_loop, last_or, fuzzy_distance,
}

-- The distance of two prefixes, each with its last character first.
unfoldable pub distance : Bytes → Bytes → ℕ
unfolding cell
distance [] r2 = uint32 (length r2 * cost_unit)
distance (c1 ∷ r1) [] = uint32 (suc (length r1) * cost_unit)
distance (c1 ∷ r1) (c2 ∷ r2) =
    cell c1 c2 (distance r1 r2) (distance (c1 ∷ r1) r2) (distance r1 (c2 ∷ r2))

unfoldable pub backwards : Bytes → Bytes → Bytes
backwards [] r = r
backwards (c ∷ s) r = backwards s (c ∷ r)

-- A row: the distances from `r1` to `r2` with more and more of `s2` behind it.
row : Bytes → Bytes → Bytes → List ℕ
unfolding distance
row r1 r2 [] = []
row r1 r2 (c2 ∷ s2) = distance r1 (c2 ∷ r2) ∷ row r1 (c2 ∷ r2) s2

first_row_lem : (r2 s2 : Bytes) → first_row (length r2) s2 ≡ row [] r2 s2
unfolding first_row row
first_row_lem r2 [] = refl
first_row_lem r2 (c2 ∷ s2) =
    let e : length r2 + 1 ≡ suc (length r2) = omega arith in
    rw e (ap (uint32 (suc (length r2) * cost_unit) ∷◌) (first_row_lem (c2 ∷ r2) s2))

row_loop_lem :
    (c1 : ℕ) (r1 r2 s2 : Bytes)
    → row_loop c1 s2 (row r1 r2 s2) (distance r1 r2) (distance (c1 ∷ r1) r2) ≡ row (c1 ∷ r1) r2 s2
unfolding row_loop row distance
row_loop_lem c1 r1 r2 [] = refl
row_loop_lem c1 r1 r2 (c2 ∷ s2) =
    ap (distance (c1 ∷ r1) (c2 ∷ r2) ∷◌) (row_loop_lem c1 r1 (c2 ∷ r2) s2)

left_column : (r1 : Bytes) → distance r1 [] ≡ uint32 (length r1 * cost_unit)
unfolding distance
left_column [] = refl
left_column (c1 ∷ r1) = refl

rows_loop_lem :
    (r1 s1 s2 : Bytes) → rows_loop (length r1) s1 s2 (row r1 [] s2) ≡ row (backwards s1 r1) [] s2
unfolding rows_loop backwards
rows_loop_lem r1 [] s2 = refl
rows_loop_lem r1 (c1 ∷ s1) s2 =
    let e : length r1 + 1 ≡ suc (length r1) = omega arith in
    ap
      (λ (n : ℕ).
        rows_loop n s1 s2
          (row_loop c1 s2 (row r1 [] s2) (uint32 (length r1 * cost_unit)) (uint32 (n * cost_unit))))
      e
    ∙ ap
        (λ (d : ℕ).
          rows_loop (suc (length r1)) s1 s2
            (row_loop c1 s2 (row r1 [] s2) d (uint32 (suc (length r1) * cost_unit))))
        (sym (left_column r1))
    ∙ ap
        (λ (d : ℕ).
          rows_loop (suc (length r1)) s1 s2 (row_loop c1 s2 (row r1 [] s2) (distance r1 []) d))
        (sym (left_column (c1 ∷ r1)))
    ∙ ap (λ (a : List ℕ). rows_loop (suc (length r1)) s1 s2 a) (row_loop_lem c1 r1 [] s2)
    ∙ rows_loop_lem (c1 ∷ r1) s1 s2

last-row :
    (r1 r2 s2 : Bytes) (d : ℕ)
    → 0 < length s2
    → last_or d (row r1 r2 s2) ≡ distance r1 (backwards s2 r2)
unfolding last_or row backwards
last-row r1 r2 [] d h = absurd (omega arith)
last-row r1 r2 (c2 ∷ []) d h = refl
last-row r1 r2 (c2 ∷ c3 ∷ s2) d h =
    last-row r1 (c2 ∷ r2) (c3 ∷ s2) (distance r1 (c2 ∷ r2)) (omega arith)

-- For two names that are not empty, `fuzzy_distance` returns the distance that is defined by recursion on all
-- pairs of prefixes, although it keeps one row of them.
pub fuzzy_distance_lem :
    (s1 s2 : Bytes)
    → 0 < length s1
    → 0 < length s2
    → fuzzy_distance s1 s2 ≡ distance (backwards s1 []) (backwards s2 [])
unfolding fuzzy_distance
fuzzy_distance_lem s1 s2 h1 h2 =
    let full1 : (length s1 == 0) ≡ false = ground arith in
    let full2 : (length s2 == 0) ≡ false = ground arith in
    rw (full1, full2)
      (ap (λ (a : List ℕ). last_or 0 (rows_loop 0 s1 s2 a)) (first_row_lem [] s2)
        ∙ ap (last_or 0) (rows_loop_lem [] s1 s2)
        ∙ last-row (backwards s1 []) [] s2 0 h2)

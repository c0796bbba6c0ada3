-- ===== src/Tests/PathRuns.antt =====
-- util.c: paths and names at concrete strings.
use rsync_wrapper.Prelude.{
  ◌≡◌, refl, arith, true, false, Bytes, [], ◌∷◌, ◌++◌, some, ok, not, ◌||◌, ◌==◌, get_or,
}
use rsync_wrapper.Fuzzy.{fuzzy_distance}
use rsync_wrapper.Fuzzy.Laws.{distance, backwards, fuzzy_distance_lem}
use rsync_wrapper.Paths.{unsafe_symlink, count_dir_elements}
use rsync_wrapper.Paths.Elements.{elements, stays_inside, dir_depth}
use rsync_wrapper.Paths.Symlink.{unsafe_symlink_lem}
use rsync_wrapper.Paths.Sanitize.{
  allocated, sanitize_path, sanitize_round, root_prefix, too_long, is_absolute,
}
use rsync_wrapper.Paths.Sanitize.Safety.{IsBelow, sanitize_path-IsBelow}

-- "a/../../b" and "x/y"
abbrev climbing : Bytes
climbing = 97 ∷ 47 ∷ 46 ∷ 46 ∷ 47 ∷ 46 ∷ 46 ∷ 47 ∷ 98 ∷ []

abbrev link : Bytes
link = 120 ∷ 47 ∷ 121 ∷ []

unsafe_symlink_lem_example :
    unsafe_symlink climbing link
    ≡ ok (
        get_or climbing 0 0 == 0
        || (get_or climbing 0 0 == 47
            || not (stays_inside (dir_depth 0 (elements link)) (elements climbing))))
unsafe_symlink_lem_example =
    unsafe_symlink_lem climbing link (omega arith) (omega arith) (omega arith)

-- From one level down it comes back to the top; from the top it leads above it.
climbing_run : unsafe_symlink climbing link ≡ ok false
unfolding unsafe_symlink
climbing_run = refl

climbing_run_top : unsafe_symlink climbing (121 ∷ []) ≡ ok true
unfolding unsafe_symlink
climbing_run_top = refl

-- "/a/../../b" below the root "/m" is "/m/b".
abbrev root : Bytes
root = 47 ∷ 109 ∷ []

sanitize_path-IsBelow_example :
    (body : Bytes) × (sanitize_path allocated false false root (47 ∷ climbing) 0
      ≡ ok (some (root_prefix root ++ body)))
    × IsBelow 0 body
    × (stays_inside 0 (elements body) ≡ true)
unfolding too_long is_absolute
sanitize_path-IsBelow_example =
    sanitize_path-IsBelow allocated false false root (47 ∷ climbing) 0 (omega arith) refl

sanitize_run :
    sanitize_path allocated false false root (47 ∷ climbing) 0 ≡ ok (some (47 ∷ 109 ∷ 47 ∷ 98 ∷ []))
unfolding sanitize_path sanitize_round
sanitize_run = refl

-- "a/./b/.." has three elements.
count_run : count_dir_elements (97 ∷ 47 ∷ 46 ∷ 47 ∷ 98 ∷ 47 ∷ 46 ∷ 46 ∷ []) ≡ 3
unfolding count_dir_elements
count_run = refl

fuzzy_distance_lem_example :
    fuzzy_distance climbing link ≡ distance (backwards climbing []) (backwards link [])
fuzzy_distance_lem_example = fuzzy_distance_lem climbing link (omega arith) (omega arith)

-- "ab" and "ac" differ in one character by one.
distance_run : fuzzy_distance (97 ∷ 98 ∷ []) (97 ∷ 99 ∷ []) ≡ 65537
unfolding fuzzy_distance
distance_run = refl

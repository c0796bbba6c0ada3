-- ===== src/Tests/Modes.antt =====
-- chmod.c and lib/wildmatch.c at concrete strings.
use rsync_wrapper.Prelude.{◌≡◌, refl, false, Bytes, [], ◌∷◌, ◌++◌, none, some}
use rsync_wrapper.Chmod.{ChmodMode, parse_chmod, tweak_mode}
use rsync_wrapper.Chmod.Clauses.{parse_chmod-append}
use rsync_wrapper.Prelude.{suc, arith, List}
use rsync_wrapper.Match.Search.{bytes_eq}
use rsync_wrapper.Literal.{doliteral, trailing_elements}
use rsync_wrapper.Literal.Laws.{joined, slashes, doliteral_lem, trailing_elements_lem}

-- "u+w" and "Dg=rx"
abbrev user_write : Bytes
user_write = 117 ∷ 43 ∷ 119 ∷ []

abbrev group_read : Bytes
group_read = 68 ∷ 103 ∷ 61 ∷ 114 ∷ 120 ∷ []

parse_chmod-append_example :
    parse_chmod 18 (user_write ++ (44 ∷ group_read)) [] ≡ elim (parse_chmod 18 user_write []) [
      | none ↦ none
      | some modes ↦ parse_chmod 18 group_read modes
    ]
parse_chmod-append_example = parse_chmod-append 18 user_write group_read []

abbrev wanted : ChmodMode
wanted = record {
  mode_and = 4095;
  mode_or = 128;
  x_keep = false;
  dirs_only = false;
  files_only = false;
}

user_write_run : parse_chmod 18 user_write [] ≡ some (wanted ∷ [])
unfolding parse_chmod
user_write_run = refl

-- 0100444 becomes 0100644.
tweak_run : tweak_mode 33060 (wanted ∷ []) ≡ 33188
unfolding tweak_mode
tweak_run = refl

-- "a/" "" "b" as a path in pieces, and its last element.
abbrev pieces : List Bytes
pieces = (97 ∷ 47 ∷ []) ∷ [] ∷ (98 ∷ []) ∷ []

doliteral_lem_example :
    doliteral (97 ∷ 47 ∷ 98 ∷ []) (97 ∷ []) ((47 ∷ []) ∷ [] ∷ (98 ∷ []) ∷ [])
    ≡ bytes_eq (97 ∷ 47 ∷ 98 ∷ []) ((97 ∷ []) ++ joined ((47 ∷ []) ∷ [] ∷ (98 ∷ []) ∷ []))
doliteral_lem_example =
    doliteral_lem (97 ∷ 47 ∷ 98 ∷ []) (97 ∷ []) ((47 ∷ []) ∷ [] ∷ (98 ∷ []) ∷ [])

last_element_run : trailing_elements pieces 1 ≡ some ([], ([] ∷ (98 ∷ []) ∷ []))
unfolding trailing_elements
last_element_run = refl

trailing_elements_lem_example :
    (front : Bytes) × (joined pieces ≡ front ++ ([] ++ joined ([] ∷ (98 ∷ []) ∷ [])))
    × (suc (slashes ([] ++ joined ([] ∷ (98 ∷ []) ∷ []))) ≡ 1)
trailing_elements_lem_example =
    trailing_elements_lem pieces 1 [] ([] ∷ (98 ∷ []) ∷ []) (omega arith) last_element_run

-- ===== src/Tests/Wildcards.antt =====
-- lib/wildmatch.c: patterns at concrete strings.
use rsync_wrapper.Prelude.{◌≡◌, refl, true, false, Bytes, [], ◌∷◌, ok}
use rsync_wrapper.Prelude.Int.{negsuc}
use rsync_wrapper.Wild.Glob.{matches}
use rsync_wrapper.Wild.Array.{wildmatch_lem, array_matches, wildmatch_array_lem}
use rsync_wrapper.Wild.{wildmatch, iwildmatch, wildmatch_array, start_text, is_negative}

-- "**/b*[!x-z]"
abbrev pattern : Bytes
pattern = 42 ∷ 42 ∷ 47 ∷ 98 ∷ 42 ∷ 91 ∷ 33 ∷ 120 ∷ 45 ∷ 122 ∷ 93 ∷ []

-- "a/c/bcd"
abbrev path : Bytes
path = 97 ∷ 47 ∷ 99 ∷ 47 ∷ 98 ∷ 99 ∷ 100 ∷ []

matches_run : wildmatch pattern path ≡ ok true
unfolding wildmatch
matches_run = refl

-- "b[[:alpha:]]d" matches behind a slash, "*" does not match over one.
array_run :
    wildmatch_array
      (98 ∷ 91 ∷ 91 ∷ 58 ∷ 97 ∷ 108 ∷ 112 ∷ 104 ∷ 97 ∷ 58 ∷ 93 ∷ 93 ∷ 100 ∷ [])
      ((97 ∷ 47 ∷ []) ∷ (99 ∷ 47 ∷ 98 ∷ []) ∷ (67 ∷ 100 ∷ []) ∷ [])
      (negsuc 0)
    ≡ ok true
unfolding wildmatch_array
array_run = refl

star_run : wildmatch (42 ∷ 100 ∷ []) path ≡ ok false
unfolding wildmatch
star_run = refl

wildmatch_lem_example :
    (wildmatch pattern path ≡ ok (matches false pattern path))
    × (iwildmatch pattern path ≡ ok (matches true pattern path))
wildmatch_lem_example = wildmatch_lem pattern path

wildmatch_array_lem_example :
    wildmatch_array pattern ((97 ∷ 47 ∷ []) ∷ path ∷ []) (negsuc 0)
    ≡ ok (
        array_matches pattern
          (is_negative (negsuc 0))
          (start_text ((97 ∷ 47 ∷ []) ∷ path ∷ []) (negsuc 0)))
wildmatch_array_lem_example = wildmatch_array_lem pattern ((97 ∷ 47 ∷ []) ∷ path ∷ []) (negsuc 0)

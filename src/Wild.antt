-- ===== src/Wild.antt =====
-- lib/wildmatch.c: matching with wildcards, `dowild` and what calls it. A string is the list of its characters
-- without the final NUL; the text is a string and the strings behind it, `a`.
pub mod Class
pub mod Glob
pub mod Verdicts
pub mod Lexed
pub mod Steps
pub mod Search
pub mod Array
use rsync_wrapper.Prelude.{
  ℕ, zero, suc, ◌+◌, ◌-◌, ltb, leb, ◌==◌, if◌then◌else◌, Bool, true, false, not, ◌&&◌, ◌||◌,
}
use rsync_wrapper.Prelude.{
  Bytes, List, [], ◌∷◌, length, drop, Option, none, some, Result, ok, exit, stuck,
}
use rsync_wrapper.Prelude.Int.{ℤ, pos, negsuc}
use rsync_wrapper.Literal.{all_empty, trailing_elements, first_text}
use rsync_wrapper.Wild.Class.{between, class_loop, negated}

-- FALSE, TRUE, ABORT_ALL and ABORT_TO_STARSTAR.
pub data Verdict : Type 0 where
  no yes abort_all abort_to_starstar : Verdict

-- `if (force_lower_case && ISUPPER(t_ch)) t_ch = tolower(t_ch)`
unfoldable pub folded : Bool → ℕ → ℕ
unfolding between
folded force_lower_case t_ch = if force_lower_case && between 65 90 t_ch then t_ch + 32 else t_ch

-- `while ((t_ch = *text) == '\0')`, to the end of the joined strings if nothing is left.
unfoldable pub fetch : Bytes → List Bytes → Bytes × List Bytes
fetch [] [] = ([], [])
fetch [] (s ∷ a) = fetch s a
fetch (t ∷ text) a = (t ∷ text, a)

-- What becomes of one character: a verdict, or on with the pattern.
pub data Step : Type 0 where
  stop : Verdict → Step
  next : Bytes → Step

-- `if (matched == special || t_ch == '/')`, with `matched` and the pattern behind the bracket.
unfoldable pub bracket_step : Bool → Option (Bool × Bytes) → ℕ → Step
bracket_step special none t_ch = stop abort_all
bracket_step special (some (matched, rest)) t_ch =
    if (if special then matched else not matched) || t_ch == 47 then stop no else next rest

-- `case '['`. `p` stands behind the bracket.
unfoldable pub bracket : Bytes → ℕ → Result Step
unfolding class_loop negated bracket_step
bracket p t_ch =
    let q = (if negated p then drop 1 p else p) in
    elim (class_loop (length q + 1) t_ch 0 false q) [
      | exit e ↦ exit e
      | ok o ↦ ok (bracket_step (negated p) o t_ch)
    ]

-- `default:`, with the character compared with and the pattern behind it.
unfoldable pub literal : ℕ → Bytes → ℕ → Step
literal p_ch p t_ch = if t_ch == p_ch then next p else stop no

-- `case '\\'`. At the end of the pattern the NUL is compared with.
unfoldable pub escape : Bytes → ℕ → Step
unfolding literal
escape [] t_ch = stop no
escape (p_ch ∷ p) t_ch = literal p_ch p t_ch

-- The switch, but for '*'.
unfoldable pub one_char : ℕ → Bytes → ℕ → Result Step
unfolding bracket literal escape
one_char p_ch p t_ch =
    if p_ch == 92
    then ok (escape p t_ch)
    else if p_ch == 63
    then ok (if t_ch == 47 then stop no else next p)
    else if p_ch == 91
    then bracket p t_ch
    else ok (literal p_ch p t_ch)

-- `while (*++p == '*') {}`
unfoldable pub skip_stars : Bytes → Bytes
skip_stars [] = []
skip_stars (c ∷ p) = if c == 42 then skip_stars p else c ∷ p

-- `strchr(text, '/')` on the text and the strings behind it.
unfoldable pub has_slash : Bytes → Bool
has_slash [] = false
has_slash (c ∷ s) = c == 47 || has_slash s

unfoldable pub any_slash : Bytes → List Bytes → Bool
unfolding has_slash
any_slash text [] = has_slash text
any_slash text (s ∷ a) = has_slash text || any_slash s a

-- `matched` in the loop of a star: FALSE, a verdict to return, or ABORT_TO_STARSTAR for "**".
unfoldable pub settles : Bool → Verdict → Bool
settles special no = false
settles special yes = true
settles special abort_all = true
settles special abort_to_starstar = not special

unfoldable pub passes_no_slash : Bool → ℕ → Verdict → Bool
passes_no_slash special t_ch no = not special && t_ch == 47
passes_no_slash special t_ch _ = false

-- `while (1)`: the pattern behind the star, `rest_matches`, is tried at each place of the text.
unfoldable pub star_loop :
    (Bytes → List Bytes → Result Verdict) → Bool → Bytes → List Bytes → Result Verdict
unfolding settles passes_no_slash
star_loop rest_matches special [] [] = ok abort_all
star_loop rest_matches special [] (s ∷ a) = star_loop rest_matches special s a
star_loop rest_matches special (t_ch ∷ text) a = elim (rest_matches (t_ch ∷ text) a) [
  | exit e ↦ exit e
  | ok matched ↦ elim (settles special matched) [
    | true ↦ ok matched
    | false ↦ elim (passes_no_slash special t_ch matched) [
      | true ↦ ok abort_to_starstar
      | false ↦ star_loop rest_matches special text a
    ]
  ]
]

-- `case '*'`: a second star makes it special.
unfoldable pub is_special : Bytes → Bool
is_special [] = false
is_special (c ∷ p) = c == 42

unfoldable pub star_case :
    (Bytes → Bytes → List Bytes → Result Verdict) → Bytes → Bytes → List Bytes → Result Verdict
unfolding star_loop is_special skip_stars any_slash
star_case matches p text a =
    let special = is_special p in
    let q = skip_stars p in
    elim (length q == 0) [
      | true ↦ ok (if special then yes else if any_slash text a then no else yes)
      | false ↦ star_loop (matches q) special text a
    ]

-- `dowild`. Each round takes a character of the pattern.
unfoldable pub dowild : ℕ → Bool → Bytes → Bytes → List Bytes → Result Verdict
unfolding fetch star_case one_char folded all_empty
dowild zero force_lower_case p text a = exit stuck
dowild (suc fuel) force_lower_case [] text a = ok (if all_empty text a then yes else no)
dowild (suc fuel) force_lower_case (p_ch ∷ p) text a = elim (p_ch == 42) [
  | true ↦ star_case (λ q. dowild fuel force_lower_case q) p (fetch text a).0 (fetch text a).1
  | false ↦ elim (fetch text a).0 [
    | [] ↦ ok abort_all
    | t ∷ text' ↦ elim (one_char p_ch p (folded force_lower_case t)) [
      | exit e ↦ exit e
      | ok (stop verdict) ↦ ok verdict
      | ok (next p') ↦ dowild fuel force_lower_case p' text' (fetch text a).1
    ]
  ]
]

unfoldable pub is_true : Verdict → Bool
is_true yes = true
is_true _ = false

unfoldable pub run_wild : Bool → Bytes → Bytes → List Bytes → Result Verdict
unfolding dowild
run_wild force_lower_case p text a = dowild (length p + 1) force_lower_case p text a

unfoldable pub as_bool : Result Verdict → Result Bool
unfolding is_true
as_bool (exit e) = exit e
as_bool (ok v) = ok (is_true v)

unfoldable pub wildmatch : Bytes → Bytes → Result Bool
unfolding run_wild as_bool
wildmatch pattern text = as_bool (run_wild false pattern text [])

unfoldable pub iwildmatch : Bytes → Bytes → Result Bool
unfolding run_wild as_bool
iwildmatch pattern text = as_bool (run_wild true pattern text [])

-- `matched != FALSE && matched != ABORT_TO_STARSTAR`
unfoldable pub ends_search : Verdict → Bool
ends_search yes = true
ends_search abort_all = true
ends_search _ = false

-- `while (1)`: behind each slash of the text.
unfoldable pub slash_loop : Bytes → Bytes → List Bytes → Result Bool
unfolding run_wild ends_search is_true
slash_loop p [] [] = ok false
slash_loop p [] (s ∷ a) = slash_loop p s a
slash_loop p (c ∷ text) a = elim (c == 47) [
  | false ↦ slash_loop p text a
  | true ↦ elim (run_wild false p text a) [
    | exit e ↦ exit e
    | ok matched ↦ elim (ends_search matched) [
      | true ↦ ok (is_true matched)
      | false ↦ slash_loop p text a
    ]
  ]
]

-- `matched != TRUE && where < 0 && matched != ABORT_ALL`
unfoldable pub array_loop : Bytes → Bytes → List Bytes → Bool → Result Bool
unfolding run_wild slash_loop ends_search is_true
array_loop p text a anywhere = elim (run_wild false p text a) [
  | exit e ↦ exit e
  | ok matched ↦
      if anywhere && not (ends_search matched) then slash_loop p text a else ok (is_true matched)
]

-- The text to start with, by `where`.
unfoldable pub start_text : List Bytes → ℤ → Option (Bytes × List Bytes)
unfolding trailing_elements first_text
start_text texts (negsuc n) = first_text texts
start_text texts (pos n) = if ltb 0 n then trailing_elements texts n else first_text texts

unfoldable pub is_negative : ℤ → Bool
is_negative (pos n) = false
is_negative (negsuc n) = true

unfoldable pub wildmatch_array : Bytes → List Bytes → ℤ → Result Bool
unfolding array_loop start_text is_negative
wildmatch_array pattern texts place = elim (start_text texts place) [
  | none ↦ ok false
  | some (text, a) ↦ array_loop pattern text a (is_negative place)
]

-- ===== src/Literal.antt =====
-- lib/wildmatch.c: matching a string without wildcards, `doliteral`, `trailing_N_elements` and
-- `litmatch_array`. A string is the list of its characters without the final NUL, the array of strings a list.
pub mod Laws
use rsync_wrapper.Prelude.{ℕ, zero, suc, ◌+◌, ◌-◌, ltb, ◌==◌, if◌then◌else◌, Bool, true, false}
use rsync_wrapper.Prelude.{Bytes, List, [], ◌∷◌, ◌++◌, Option, none, some}

-- `while (*text == '\0')`: the next character of the joined strings, and what is behind it.
unfoldable pub next_char : Bytes → List Bytes → Option (ℕ × (Bytes × List Bytes))
next_char [] [] = none
next_char [] (t ∷ a) = next_char t a
next_char (c ∷ text) a = some (c, (text, a))

-- The loop at the end: nothing may be left.
unfoldable pub all_empty : Bytes → List Bytes → Bool
all_empty [] [] = true
all_empty [] (t ∷ a) = all_empty t a
all_empty (c ∷ text) a = false

unfoldable pub doliteral : Bytes → Bytes → List Bytes → Bool
unfolding next_char all_empty
doliteral [] text a = all_empty text a
doliteral (c ∷ s) text a = elim (next_char text a) [
  | none ↦ false
  | some (d, (text', a')) ↦ let rest = doliteral s text' a' in if d == c then rest else false
]

-- What the search from the end has come to: the place behind the last slash to count, or the number of
-- slashes that are still to be counted.
pub data Elements {ℓ} (A : Type ℓ) : Type ℓ where
  here : A → Elements A
  missing : ℕ → Elements A

-- `if (*s == '/' && !--count)`
unfoldable pub at_slash : ℕ → Bytes → ℕ → Elements Bytes
at_slash c s count =
    if c == 47 then (if count == 1 then here s else missing (count - 1)) else missing count

-- The inner loop, from the end of one string.
unfoldable pub trailing_in : Bytes → ℕ → Elements Bytes
unfolding at_slash
trailing_in [] count = missing count
trailing_in (c ∷ s) count = elim (trailing_in s count) [
  | here found ↦ here found
  | missing left ↦ at_slash c s left
]

-- The outer loop, from the last string.
unfoldable pub trailing_among : List Bytes → ℕ → Elements (Bytes × List Bytes)
unfolding trailing_in
trailing_among [] count = missing count
trailing_among (t ∷ a) count = elim (trailing_among a count) [
  | here found ↦ here found
  | missing left ↦ elim (trailing_in t left) [
    | here s ↦ here (s, a)
    | missing left' ↦ missing left'
  ]
]

unfoldable pub whole : List Bytes → ℕ → Option (Bytes × List Bytes)
whole [] count = none
whole (t ∷ a) count = if count == 1 then some (t, a) else none

-- `trailing_N_elements`
unfoldable pub trailing_elements : List Bytes → ℕ → Option (Bytes × List Bytes)
unfolding trailing_among whole
trailing_elements texts count = elim (trailing_among texts count) [
  | here found ↦ some found
  | missing left ↦ whole texts left
]

unfoldable pub first_text : List Bytes → Option (Bytes × List Bytes)
first_text [] = none
first_text (t ∷ a) = some (t, a)

-- `litmatch_array`. A negative `where` does what 0 does.
unfoldable pub litmatch_array : Bytes → List Bytes → ℕ → Bool
unfolding doliteral trailing_elements first_text
litmatch_array string texts place =
    elim (if ltb 0 place then trailing_elements texts place else first_text texts) [
      | none ↦ false
      | some (text, a) ↦ doliteral string text a
    ]

-- ===== src/Wild/Class.antt =====
-- lib/wildmatch.c: the character class between brackets, in `dowild` (`case '['`). The predicates are those of
-- <ctype.h> in the C locale.
use rsync_wrapper.Prelude.{
  ℕ, zero, suc, ltb, leb, ◌==◌, if◌then◌else◌, Bool, true, false, not, ◌&&◌, ◌||◌,
}
use rsync_wrapper.Prelude.{
  Bytes, [], ◌∷◌, length, drop, get_or, Option, none, some, Result, ok, exit, stuck,
}
use rsync_wrapper.Match.Search.{bytes_eq}

pub data Kind : Type 0 where
  alnum alpha blank cntrl digit graph lower print punct space upper xdigit : Kind

unfoldable pub between : ℕ → ℕ → ℕ → Bool
between a b c = leb a c && leb c b

unfoldable pub is_alpha : ℕ → Bool
unfolding between
is_alpha c = between 65 90 c || between 97 122 c

unfoldable pub in_kind : Kind → ℕ → Bool
unfolding between is_alpha
in_kind alnum c = is_alpha c || between 48 57 c
in_kind alpha c = is_alpha c
in_kind blank c = c == 32 || c == 9
in_kind cntrl c = ltb c 32 || c == 127
in_kind digit c = between 48 57 c
in_kind graph c = between 33 126 c
in_kind lower c = between 97 122 c
in_kind print c = between 32 126 c
in_kind punct c = between 33 126 c && not (is_alpha c || between 48 57 c)
in_kind space c = c == 32 || between 9 13 c
in_kind upper c = between 65 90 c
in_kind xdigit c = between 48 57 c || (between 65 70 c || between 97 102 c)

-- The chain of CC_EQ.
unfoldable pub class_of : Bytes → Option Kind
unfolding bytes_eq
class_of s =
    if bytes_eq s (97 ∷ 108 ∷ 110 ∷ 117 ∷ 109 ∷ [])
    then some alnum
    else if bytes_eq s (97 ∷ 108 ∷ 112 ∷ 104 ∷ 97 ∷ [])
    then some alpha
    else if bytes_eq s (98 ∷ 108 ∷ 97 ∷ 110 ∷ 107 ∷ [])
    then some blank
    else if bytes_eq s (99 ∷ 110 ∷ 116 ∷ 114 ∷ 108 ∷ [])
    then some cntrl
    else if bytes_eq s (100 ∷ 105 ∷ 103 ∷ 105 ∷ 116 ∷ [])
    then some digit
    else if bytes_eq s (103 ∷ 114 ∷ 97 ∷ 112 ∷ 104 ∷ [])
    then some graph
    else if bytes_eq s (108 ∷ 111 ∷ 119 ∷ 101 ∷ 114 ∷ [])
    then some lower
    else if bytes_eq s (112 ∷ 114 ∷ 105 ∷ 110 ∷ 116 ∷ [])
    then some print
    else if bytes_eq s (112 ∷ 117 ∷ 110 ∷ 99 ∷ 116 ∷ [])
    then some punct
    else if bytes_eq s (115 ∷ 112 ∷ 97 ∷ 99 ∷ 101 ∷ [])
    then some space
    else if bytes_eq s (117 ∷ 112 ∷ 112 ∷ 101 ∷ 114 ∷ [])
    then some upper
    else if bytes_eq s (120 ∷ 100 ∷ 105 ∷ 103 ∷ 105 ∷ 116 ∷ [])
    then some xdigit
    else none

-- What one round of the do loop compares the character with.
pub data Item : Type 0 where
  one : ℕ → Item
  range : (prev_ch p_ch : ℕ) → Item
  named : Kind → Item

unfoldable pub hit : Item → ℕ → Bool
unfolding in_kind
hit (one c) t_ch = t_ch == c
hit (range prev_ch p_ch) t_ch = leb t_ch p_ch && leb prev_ch t_ch
hit (named k) t_ch = in_kind k t_ch

-- What a round leaves: its item, the value of `p_ch`, and the string behind it.
pub record Round : Type 0 where
  pub item : Item
  pub p_ch : ℕ
  pub rest : Bytes

-- `for (s = p += 2; (p_ch = *p) && p_ch != ']'; p++) {}`
unfoldable pub to_bracket : Bytes → Bytes × Bytes
to_bracket [] = ([], [])
to_bracket (c ∷ p) =
    let more = to_bracket p in if c == 93 then ([], c ∷ p) else (c ∷ more.0, more.1)

-- A name without the ':' at its end.
unfoldable pub colon_off : Bytes → Option Bytes
colon_off [] = none
colon_off (c ∷ []) = if c == 58 then some [] else none
colon_off (c ∷ d ∷ s) = elim (colon_off (d ∷ s)) [ none ↦ none | some s' ↦ some (c ∷ s') ]

-- The name and the string from its ']' on, or from the end of the pattern. `p` is the string from the first
-- colon on. None is ABORT_ALL.
unfoldable pub named_at : Bytes → Bytes → Bytes → Option Round
unfolding colon_off class_of
named_at p name [] = none
named_at p name (bracket ∷ rest) = elim (colon_off name) [
  | none ↦ some (record { item = one 91; p_ch = 91; rest = p })
  | some s ↦ elim (class_of s) [
    | none ↦ none
    | some k ↦ some (record { item = named k; p_ch = 0; rest = rest })
  ]
]

unfoldable pub named_class : Bytes → Option Round
unfolding to_bracket named_at
named_class p = named_at p (to_bracket (drop 1 p)).0 (to_bracket (drop 1 p)).1

-- `p_ch = *++p`, which may be the end of the pattern: ABORT_ALL.
unfoldable pub escaped : (ℕ → Item) → Bool → Bytes → Option Round
escaped f keep [] = none
escaped f keep (c ∷ p) = some (record { item = f c; p_ch = (if keep then c else 0); rest = p })

unfoldable pub range_end : ℕ → Bytes → Option Round
unfolding escaped
range_end prev_ch [] = none
range_end prev_ch (c ∷ p) =
    if c == 92
    then escaped (range prev_ch) false p
    else some (record { item = range prev_ch c; p_ch = 0; rest = p })

-- The body of the do loop, at the string that starts with `p_ch`.
unfoldable pub class_round : ℕ → Bytes → Option Round
unfolding named_class escaped range_end
class_round prev_ch [] = none
class_round prev_ch (c ∷ p) =
    if c == 92
    then escaped one true p
    else if c == 45 && (not (prev_ch == 0) && (not (length p == 0) && not (get_or p 0 0 == 93)))
    then range_end prev_ch p
    else if c == 91 && get_or p 0 0 == 58
    then named_class p
    else some (record { item = one c; p_ch = c; rest = p })

-- `do ... while (prev_ch = p_ch, (p_ch = *++p) != ']')`: whether an item was hit, and the string behind the
-- bracket. Each round takes a character.
unfoldable pub class_loop : ℕ → ℕ → ℕ → Bool → Bytes → Result (Option (Bool × Bytes))
unfolding class_round hit
class_loop zero t_ch prev_ch matched p = exit stuck
class_loop (suc fuel) t_ch prev_ch matched p = elim (class_round prev_ch p) [
  | none ↦ ok none
  | some r ↦ elim (get_or r.rest 0 0 == 93) [
    | true ↦ ok (some (matched || hit r.item t_ch, drop 1 r.rest))
    | false ↦ class_loop fuel t_ch r.p_ch (matched || hit r.item t_ch) r.rest
  ]
]

-- '!' or '^' in front.
unfoldable pub negated : Bytes → Bool
negated p = get_or p 0 0 == 33 || get_or p 0 0 == 94

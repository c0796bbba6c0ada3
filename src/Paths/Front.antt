-- ===== src/Paths/Front.antt =====
-- util.c: the tests on the characters at the front of a path, and the names of the path.
use rsync_wrapper.Prelude.{◌<◌, ◌≡◌, ◌≢◌, refl, arith, Bool, true, false}
use rsync_wrapper.Prelude.{Bytes, [], ◌∷◌, length, get_or, none, some, Option-cases, inl, inr}
use rsync_wrapper.Paths.{find_slash, at_dot_dir, at_dot_dot_dir, at_final_dot_dot, at_dot_dot}
use rsync_wrapper.Paths.Elements.{longer, elements, same, up, down, way}

-- A C string holds no NUL.
abbrev pub HasNoNul : Bytes → Type 0
HasNoNul [] = Unit {0}
HasNoNul (c ∷ s) = (c ≢ 0) × HasNoNul s

-- A string without a slash is one name; with one, the name in front of it and the rest.
pub elements-none : (s : Bytes) → find_slash s ≡ none → elements s ≡ s ∷ []
unfolding find_slash elements longer
elements-none [] h = refl
elements-none (c ∷ s) h = ground (arith, elements-none s)

pub elements-some :
    (s segment rest : Bytes)
    → find_slash s ≡ some (segment, rest)
    → elements s ≡ segment ∷ elements rest
unfolding find_slash elements longer
elements-some [] segment rest h = cc
elements-some (c ∷ s) segment rest h = elim (Option-cases (find_slash s)) [
  | inl last ↦ ground arith
  | inr ((seg, r), there) ↦ ground (arith, elements-some s seg r)
]

pub way-none :
    (s : Bytes)
    → HasNoNul s
    → find_slash s ≡ none
    → (elim (way s) [ same ↦ false | up ↦ true | down ↦ false ]) ≡ at_final_dot_dot s
unfolding find_slash at_final_dot_dot way
way-none [] n h = ground arith
way-none (a ∷ []) n h = ground arith
way-none (a ∷ b ∷ []) n h = ground arith
way-none (a ∷ b ∷ c ∷ s) n h = ground arith

-- In front of a slash the tests on the characters tell the name.
unfoldable pub Tells : Bytes → Bytes → Type 0
Tells segment s =
    (elim (way segment) [ same ↦ false | up ↦ true | down ↦ false ] ≡ at_dot_dot_dir s)
    × (elim (way segment) [ same ↦ true | up ↦ false | down ↦ false ] ≡ at_dot_dir s)

pub way-some :
    (s segment rest : Bytes)
    → get_or s 0 0 ≢ 47
    → find_slash s ≡ some (segment, rest)
    → Tells segment s
unfolding Tells find_slash at_dot_dot_dir at_dot_dir way
way-some [] segment rest n h = cc
way-some (a ∷ []) segment rest n h = ground arith
way-some (a ∷ b ∷ []) segment rest n h = ground arith
way-some (a ∷ b ∷ c ∷ s) segment rest n h = elim (Option-cases (find_slash s)) [
  | inl last ↦ ground arith
  | inr ((seg, r), there) ↦ ground arith
]

-- What is left behind a slash: a shorter string, still without a NUL.
pub record Shorter (s rest : Bytes) : Type 0 where
  pub less : length rest < length s
  pub clean : HasNoNul rest

pub find_slash-Shorter :
    (s segment rest : Bytes) → HasNoNul s → find_slash s ≡ some (segment, rest) → Shorter s rest
unfolding find_slash
find_slash-Shorter [] segment rest n h = cc
find_slash-Shorter (c ∷ s) segment rest n h = elim (Option-cases (find_slash s)) [
  | inl last ↦ ground arith
  | inr ((seg, r), there) ↦ ground (arith, find_slash-Shorter s seg r)
]

-- Whether a name is "..".
unfoldable pub is_up : Bytes → Bool
unfolding way
is_up segment = elim (way segment) [ same ↦ false | up ↦ true | down ↦ false ]

some-not_final :
    (s segment rest : Bytes)
    → HasNoNul s
    → find_slash s ≡ some (segment, rest)
    → at_final_dot_dot s ≡ false
unfolding find_slash at_final_dot_dot
some-not_final [] segment rest n h = refl
some-not_final (a ∷ []) segment rest n h = ground arith
some-not_final (a ∷ b ∷ []) segment rest n h = ground arith
some-not_final (a ∷ b ∷ c ∷ s) segment rest n h = ground arith

none-not_dir : (s : Bytes) → find_slash s ≡ none → at_dot_dot_dir s ≡ false
unfolding find_slash at_dot_dot_dir
none-not_dir [] h = refl
none-not_dir (a ∷ []) h = ground arith
none-not_dir (a ∷ b ∷ []) h = ground arith
none-not_dir (a ∷ b ∷ c ∷ s) h = ground arith

pub at_dot_dot-some :
    (s segment rest : Bytes)
    → HasNoNul s
    → get_or s 0 0 ≢ 47
    → find_slash s ≡ some (segment, rest)
    → at_dot_dot s ≡ is_up segment
unfolding at_dot_dot is_up Tells
at_dot_dot-some s segment rest n h there =
    ground (arith, way-some s segment rest h there, some-not_final s segment rest n there)

pub at_dot_dot-none : (s : Bytes) → HasNoNul s → find_slash s ≡ none → at_dot_dot s ≡ is_up s
unfolding at_dot_dot is_up
at_dot_dot-none s n last = ground (arith, way-none s n last, none-not_dir s last)

pub is_up-eq : (s : Bytes) → is_up s ≡ true → s ≡ 46 ∷ 46 ∷ []
unfolding is_up way
is_up-eq [] h = cc
is_up-eq (a ∷ []) h = ground arith
is_up-eq (a ∷ b ∷ []) h = ground arith
is_up-eq (a ∷ b ∷ c ∷ s) h = cc

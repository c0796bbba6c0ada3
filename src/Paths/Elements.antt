-- ===== src/Paths/Elements.antt =====
-- A path as the list of the names between its slashes: the view of a path that the code is compared with.
use rsync_wrapper.Prelude.{ℕ, ◌+◌, ◌-◌, ◌==◌, if◌then◌else◌, Bool, true, false, ◌&&◌}
use rsync_wrapper.Prelude.{Bytes, List, [], ◌∷◌}

-- The name at the front goes on by one character.
unfoldable pub longer : ℕ → List Bytes → List Bytes
longer c [] = (c ∷ []) ∷ []
longer c (e ∷ es) = (c ∷ e) ∷ es

unfoldable pub elements : Bytes → List Bytes
unfolding longer
elements [] = [] ∷ []
elements (c ∷ s) = if c == 47 then [] ∷ elements s else longer c (elements s)

-- Where a name leads: nowhere for an empty name and for ".", up for "..", and down otherwise.
pub data Way : Type 0 where
  same up down : Way

unfoldable pub way : Bytes → Way
way [] = same
way (a ∷ []) = if a == 46 then same else down
way (a ∷ b ∷ []) = if a == 46 && b == 46 then up else down
way (a ∷ b ∷ c ∷ e) = down

-- Whether the path, from a place `depth` levels down, never leads above the top.
unfoldable pub stays_inside : ℕ → List Bytes → Bool
unfolding way
stays_inside depth [] = true
stays_inside depth (e ∷ es) = elim (way e) [
  | same ↦ stays_inside depth es
  | up ↦ elim (depth == 0) [ true ↦ false | false ↦ stays_inside (depth - 1) es ]
  | down ↦ stays_inside (depth + 1) es
]

-- How deep the directory of a name is: ".." starts the count over.
unfoldable pub dir_depth : ℕ → List Bytes → ℕ
unfolding way
dir_depth depth [] = depth
dir_depth depth (e ∷ []) = elim (way e) [ same ↦ depth | up ↦ 0 | down ↦ depth ]
dir_depth depth (e ∷ e' ∷ es) =
    dir_depth (elim (way e) [ same ↦ depth | up ↦ 0 | down ↦ depth + 1 ]) (e' ∷ es)

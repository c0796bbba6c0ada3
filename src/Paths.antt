-- ===== src/Paths.antt =====
-- util.c: paths. A string is the list of its characters without the final NUL; reading at its end gives
-- the NUL, 0.
pub mod Elements
pub mod Front
pub mod Symlink
pub mod Sanitize
use rsync_wrapper.Prelude.{
  ℕ, zero, suc, ◌+◌, ◌-◌, ◌==◌, if◌then◌else◌, Bool, true, false, not, ◌&&◌, ◌||◌,
}
use rsync_wrapper.Prelude.{
  Bytes, [], ◌∷◌, length, get_or, Option, none, some, Result, ok, exit, stuck,
}

abbrev pub slash : ℕ
slash = 47

abbrev pub dot : ℕ
dot = 46

-- `strchr(name, '/')`: what stands before the first slash, and what behind it.
unfoldable pub find_slash : Bytes → Option (Bytes × Bytes)
find_slash [] = none
find_slash (c ∷ s) =
    if c == slash
    then some ([], s)
    else elim (find_slash s) [ none ↦ none | some (segment, rest) ↦ some (c ∷ segment, rest) ]

-- `while (slash[1] == '/') slash++`
unfoldable pub skip_slashes : Bytes → Bytes
skip_slashes [] = []
skip_slashes (c ∷ s) = if c == slash then skip_slashes s else c ∷ s

-- `*name == '.' && name[1] == '/'`
unfoldable pub at_dot_dir : Bytes → Bool
at_dot_dir name = get_or name 0 0 == dot && get_or name 1 0 == slash

-- `*name == '.' && name[1] == '.' && name[2] == '/'`, and the same at the end of the string.
unfoldable pub at_dot_dot_dir : Bytes → Bool
at_dot_dot_dir name = get_or name 0 0 == dot && (get_or name 1 0 == dot && get_or name 2 0 == slash)

unfoldable pub at_final_dot_dot : Bytes → Bool
at_final_dot_dot name = get_or name 0 0 == dot && (get_or name 1 0 == dot && get_or name 2 0 == 0)

-- The component at hand is "..", by a slash behind it or the end of the string.
unfoldable pub at_dot_dot : Bytes → Bool
unfolding at_dot_dot_dir at_final_dot_dot
at_dot_dot p = at_dot_dot_dir p || at_final_dot_dot p

-- The first loop of `unsafe_symlink`: the safety margin that the place of the link gives. Each round takes a
-- slash.
unfoldable pub margin_loop : ℕ → Bytes → ℕ → Result ℕ
unfolding find_slash skip_slashes at_dot_dir at_dot_dot_dir at_final_dot_dot
margin_loop zero name depth = exit stuck
margin_loop (suc fuel) name depth = elim (find_slash name) [
  | none ↦ ok (if at_final_dot_dot name then 0 else depth)
  | some (segment, rest) ↦
      margin_loop fuel (skip_slashes rest)
        (if at_dot_dot_dir name then 0 else if at_dot_dir name then depth else depth + 1)
]

-- The second loop, over the target of the link: whether it is unsafe.
unfoldable pub target_loop : ℕ → Bytes → ℕ → Result Bool
unfolding find_slash skip_slashes at_dot_dir at_dot_dot_dir at_final_dot_dot
target_loop zero name depth = exit stuck
target_loop (suc fuel) name depth = elim (find_slash name) [
  | none ↦ ok (at_final_dot_dot name && depth == 0)
  | some (segment, rest) ↦ elim (at_dot_dot_dir name && depth == 0) [
    | true ↦ ok true
    | false ↦
        target_loop fuel (skip_slashes rest)
          (if at_dot_dot_dir name then depth - 1 else if at_dot_dir name then depth else depth + 1)
  ]
]

-- `unsafe_symlink(dest, src)`
unfoldable pub unsafe_symlink : Bytes → Bytes → Result Bool
unfolding margin_loop target_loop
unsafe_symlink dest src =
    if get_or dest 0 0 == 0 || get_or dest 0 0 == slash
    then ok true
    else elim (margin_loop (length src + 1) src 0) [
      | exit e ↦ exit e
      | ok depth ↦ target_loop (length dest + 1) dest depth
    ]

-- `count_dir_elements`
unfoldable pub count_elements : Bytes → Bool → ℕ
count_elements [] new_component = 0
count_elements (c ∷ p) new_component =
    let next = get_or p 0 0 in
    let after_slash = not (next == dot) || not (get_or p 1 0 == slash) && not (get_or p 1 0 == 0) in
    let fresh = not (c == slash) && new_component in
    (if fresh then 1 else 0)
    + count_elements p (if c == slash then after_slash else not fresh && new_component)

unfoldable pub count_dir_elements : Bytes → ℕ
unfolding count_elements
count_dir_elements p = count_elements p true

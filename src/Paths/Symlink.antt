-- ===== src/Paths/Symlink.antt =====
-- util.c: `unsafe_symlink` finds exactly the targets that lead above the top.
use rsync_wrapper.Prelude.{
  ℕ, zero, suc, ◌+◌, ◌-◌, ◌<◌, ◌≤◌, ◌≡◌, ◌≢◌, refl, arith, ◌==◌, if◌then◌else◌, Bool, true, false,
  not, ◌&&◌, ◌||◌,
}
use rsync_wrapper.Prelude.{
  Bytes, List, [], ◌∷◌, length, get_or, ok, Result, Option-cases, Bool-cases, inl, inr,
}
use rsync_wrapper.Paths.{
  find_slash, skip_slashes, at_dot_dir, at_dot_dot_dir, margin_loop, target_loop, unsafe_symlink,
}
use rsync_wrapper.Paths.Front.{
  HasNoNul, elements-none, elements-some, way-none, Tells, way-some, find_slash-Shorter,
}
use rsync_wrapper.Paths.Elements.{longer, elements, same, up, down, way, stays_inside, dir_depth}

skip_slashes-le : (s : Bytes) → length (skip_slashes s) ≤ length s
unfolding skip_slashes
skip_slashes-le [] = omega arith
skip_slashes-le (c ∷ s) = ground (arith, skip_slashes-le s)

skip_slashes-HasNoNul : (s : Bytes) → HasNoNul s → HasNoNul (skip_slashes s)
unfolding skip_slashes
skip_slashes-HasNoNul [] n = n
skip_slashes-HasNoNul (c ∷ s) n = ground (arith, skip_slashes-HasNoNul s)

skip_slashes_head : (s : Bytes) → get_or (skip_slashes s) 0 0 ≢ 47
unfolding skip_slashes
skip_slashes_head [] = λ e. omega arith
skip_slashes_head (c ∷ s) = ground (arith, skip_slashes_head s)

stays_inside-skip_slashes :
    (depth : ℕ) (s : Bytes)
    → stays_inside depth (elements (skip_slashes s)) ≡ stays_inside depth (elements s)
unfolding skip_slashes elements stays_inside
stays_inside-skip_slashes depth [] = refl
stays_inside-skip_slashes depth (c ∷ s) = ground (arith, stays_inside-skip_slashes depth s)

elements-cons : (s : Bytes) → (e : Bytes) × (es : List Bytes) × (elements s ≡ e ∷ es)
unfolding elements longer
elements-cons [] = ([], [], refl)
elements-cons (c ∷ s) = elim (Bool-cases (c == 47)) [
  | inl cut ↦ ([], elements s, rw cut refl)
  | inr other ↦ let (e, es, cons) = elements-cons s in (c ∷ e, es, rw (other, cons) refl)
]

dir_depth-elements :
    (depth : ℕ) (e s : Bytes)
    → dir_depth depth (e ∷ elements s)
      ≡ dir_depth (elim (way e) [ same ↦ depth | up ↦ 0 | down ↦ depth + 1 ]) (elements s)
unfolding dir_depth
dir_depth-elements depth e s = let (e', es, cons) = elements-cons s in rw cons refl

way_nil : way [] ≡ same
unfolding way
way_nil = refl

dir_depth-skip_slashes :
    (depth : ℕ) (s : Bytes)
    → dir_depth depth (elements (skip_slashes s)) ≡ dir_depth depth (elements s)
unfolding skip_slashes elements
dir_depth-skip_slashes depth [] = refl
dir_depth-skip_slashes depth (c ∷ s) = elim (Bool-cases (c == 47)) [
  | inl cut ↦ rw (cut, dir_depth-elements depth [] s, way_nil) (dir_depth-skip_slashes depth s)
  | inr other ↦ rw (other, elements, other) refl
]

-- The new depths of the loops, by the way that the name leads.
depth_same :
    (depth : ℕ) (segment s : Bytes)
    → Tells segment s
    → (if at_dot_dot_dir s then 0 else if at_dot_dir s then depth else depth + 1)
      ≡ elim (way segment) [ same ↦ depth | up ↦ 0 | down ↦ depth + 1 ]
unfolding Tells
depth_same depth segment s t = ground arith

-- The rounds of the loops are the steps along the names.
margin_loop-dir_depth :
    (fuel : ℕ) (s : Bytes) (depth : ℕ)
    → length s < fuel
    → HasNoNul s
    → get_or s 0 0 ≢ 47
    → margin_loop fuel s depth ≡ ok (dir_depth depth (elements s))
unfolding margin_loop
margin_loop-dir_depth zero s depth l n h = absurd (omega arith)
margin_loop-dir_depth (suc fuel) s depth l n h = elim (Option-cases (find_slash s)) [
  | inl last ↦
      rw (margin_loop, last, elements-none s last)
        (unfold dir_depth in ground (arith, way-none s n last))
  | inr ((segment, rest), there) ↦
      let shorter = find_slash-Shorter s segment rest n there in
      let next =
        margin_loop-dir_depth fuel (skip_slashes rest)
          (if at_dot_dot_dir s then 0 else if at_dot_dir s then depth else depth + 1)
          (omega (arith, skip_slashes-le rest, shorter.less))
          (skip_slashes-HasNoNul rest shorter.clean) (skip_slashes_head rest) in
      rw
        (
          margin_loop,
          there,
          next,
          elements-some s segment rest there,
          dir_depth-elements depth segment rest,
          dir_depth-skip_slashes _ rest,
          depth_same depth segment s (way-some s segment rest h there),
        )
        refl
]

target_round :
    (depth : ℕ) (segment rest s : Bytes) (run : ℕ → Result Bool)
    → Tells segment s
    → ((d : ℕ) → run d ≡ ok (not (stays_inside d (elements (skip_slashes rest)))))
    → ◌≡◌ {A = Result Bool}
        (elim (at_dot_dot_dir s && depth == 0) [
          | true ↦ ok true
          | false ↦
              run
                (if at_dot_dot_dir s then depth - 1 else if at_dot_dir s then depth else depth + 1)
        ])
        (ok (not (stays_inside depth (segment ∷ elements rest))))
unfolding stays_inside Tells
target_round depth segment rest s run t next = ground (
  arith,
  next (depth - 1),
  next depth,
  next (depth + 1),
  stays_inside-skip_slashes (depth - 1) rest,
  stays_inside-skip_slashes depth rest,
  stays_inside-skip_slashes (depth + 1) rest,
)

target_loop-stays_inside :
    (fuel : ℕ) (s : Bytes) (depth : ℕ)
    → length s < fuel
    → HasNoNul s
    → get_or s 0 0 ≢ 47
    → target_loop fuel s depth ≡ ok (not (stays_inside depth (elements s)))
unfolding target_loop
target_loop-stays_inside zero s depth l n h = absurd (omega arith)
target_loop-stays_inside (suc fuel) s depth l n h = elim (Option-cases (find_slash s)) [
  | inl last ↦
      rw (target_loop, last, elements-none s last)
        (unfold stays_inside in ground (arith, way-none s n last))
  | inr ((segment, rest), there) ↦
      let shorter = find_slash-Shorter s segment rest n there in
      let next = λ (d : ℕ).
        target_loop-stays_inside fuel (skip_slashes rest) d
          (omega (arith, skip_slashes-le rest, shorter.less))
          (skip_slashes-HasNoNul rest shorter.clean) (skip_slashes_head rest) in
      rw (target_loop, there, elements-some s segment rest there)
        (target_round depth segment rest s (λ d. target_loop fuel (skip_slashes rest) d)
          (way-some s segment rest h there) next)
]

-- A symlink is judged safe exactly if its target is not empty, does not start with a slash, and never leads
-- above the top on its way from the directory of the link: for every target and every place of the link that
-- does not start with a slash.
pub unsafe_symlink_lem :
    (dest src : Bytes)
    → HasNoNul dest
    → HasNoNul src
    → get_or src 0 0 ≢ 47
    → unsafe_symlink dest src
      ≡ ok (
          get_or dest 0 0 == 0
          || (get_or dest 0 0 == 47
              || not (stays_inside (dir_depth 0 (elements src)) (elements dest))))
unfolding unsafe_symlink
unsafe_symlink_lem dest src nd ns h = elim (Bool-cases (get_or dest 0 0 == 0)) [
  | inl empty ↦ ground arith
  | inr full ↦ elim (Bool-cases (get_or dest 0 0 == 47)) [
    | inl absolute ↦ ground arith
    | inr relative ↦ ground (
      arith,
      margin_loop-dir_depth (length src + 1) src 0,
      target_loop-stays_inside (length dest + 1) dest (dir_depth 0 (elements src)),
    )
  ]
]

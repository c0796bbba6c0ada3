-- ===== src/Paths/Sanitize.antt =====
-- util.c: `sanitize_path`, which keeps a path that a client sends below the top.
-- What has been written to `dest` is held from its end back, so that `sanp` is the front of the list. With
-- `in_place` (`dest == p`) the writes stay behind the reads.
pub mod Stack
pub mod Rounds
pub mod Safety
use rsync_wrapper.Prelude.{
  ℕ, zero, suc, ◌+◌, ◌-◌, ltb, leb, ◌==◌, if◌then◌else◌, Bool, true, false, not, ◌&&◌, ◌||◌,
}
use rsync_wrapper.Prelude.{
  Bytes, [], ◌∷◌, ◌++◌, length, drop, get_or, Option, none, some, Result, ok, exit, stuck, ◌>>=◌,
}
use rsync_wrapper.Paths.{slash, dot, at_dot_dir, at_dot_dot}

-- `dest`: NULL, a buffer of MAXPATHLEN bytes, a number that the system gives, or the buffer of `p`.
pub data Target : Type 0 where
  allocated in_place : Target
  buffer : (max_path_len : ℕ) → Target

pub record San : Type 0 where
  pub out : Bytes
  pub start : ℕ
  pub depth : ℕ
  pub path : Bytes

unfoldable pub reversed_onto : Bytes → Bytes → Bytes
reversed_onto [] out = out
reversed_onto (c ∷ s) out = reversed_onto s (c ∷ out)

-- `while (*p == '.' && p[1] == '/') p += 2`
unfoldable pub skip_dot_dirs : Bytes → Bytes
skip_dot_dirs (a ∷ b ∷ p) = if a == dot && b == slash then skip_dot_dirs p else a ∷ b ∷ p
skip_dot_dirs p = p

-- `while (sanp > start && sanp[-1] != '/') sanp--`
unfoldable pub back_to : ℕ → Bytes → Bytes
back_to start [] = []
back_to start (c ∷ out) =
    if ltb start (length (c ∷ out)) && not (c == slash) then back_to start out else c ∷ out

-- `while (*p && (*sanp++ = *p++) != '/') {}`
unfoldable pub copy_component : Bytes → Bytes → Bytes × Bytes
copy_component [] out = ([], out)
copy_component (c ∷ p) out = if c == slash then (p, c ∷ out) else copy_component p (c ∷ out)

-- The component at hand is ".", by a slash behind it or the end of the string.
unfoldable pub at_dot : Bytes → Bool
unfolding at_dot_dir
at_dot p = at_dot_dir p || get_or p 0 0 == dot && get_or p 1 0 == 0

unfoldable pub copied : San → San
unfolding copy_component
copied st = let moved = copy_component st.path st.out in record st { path = moved.0; out = moved.1 }

-- ".." where no more of them are allowed, or behind another name: one level back.
unfoldable pub backed_up : San → San
unfolding back_to
backed_up st = record st {
  path = drop 2 st.path;
  out = (if length st.out == st.start then st.out else back_to st.start (drop 1 st.out));
}

-- The body of the loop.
unfoldable pub sanitize_round : Bool → San → San
unfolding copied backed_up at_dot at_dot_dot
sanitize_round drop_dot_dirs st =
    if get_or st.path 0 0 == slash
    then record st { path = drop 1 st.path }
    else if drop_dot_dirs && at_dot st.path
    then record st { path = drop 1 st.path }
    else if at_dot_dot st.path && (st.depth == 0 || not (length st.out == st.start))
    then backed_up st
    else if at_dot_dot st.path
    then copied (record st { depth = st.depth - 1; start = length st.out + 3 })
    else copied st

-- `while (*p)`. Each round takes a character.
unfoldable pub sanitize_loop : ℕ → Bool → San → Result San
sanitize_loop zero drop_dot_dirs st = exit stuck
sanitize_loop (suc fuel) drop_dot_dirs st = elim (length st.path == 0) [
  | true ↦ ok st
  | false ↦ sanitize_loop fuel drop_dot_dirs (sanitize_round drop_dot_dirs st)
]

-- What stands in front: the root directory for an absolute path, with one slash behind it.
unfoldable pub root_prefix : Bytes → Bytes
root_prefix root = if ltb 1 (length root) then root ++ (slash ∷ []) else root

unfoldable pub is_absolute : Target → Bytes → Bool
is_absolute in_place p = false
is_absolute allocated p = get_or p 0 0 == slash
is_absolute (buffer size) p = get_or p 0 0 == slash

unfoldable pub too_long : Target → Bytes → Bytes → Bool
too_long allocated root p = false
too_long in_place root p = false
too_long (buffer size) root p = leb size (length root + length p + 1)

-- From the first component on: the path in `dest` behind `prefix`.
unfoldable pub sanitize_from : Bool → Bytes → ℕ → Bytes → Result Bytes
unfolding sanitize_loop skip_dot_dirs reversed_onto
sanitize_from drop_dot_dirs prefix depth p = do
  let path = (if drop_dot_dirs then skip_dot_dirs p else p)
  st ←
      sanitize_loop (length path + 1) drop_dot_dirs (record {
        out = reversed_onto prefix [];
        start = length prefix;
        depth = depth;
        path = path;
      })
  ok (if length st.out == 0 then dot ∷ [] else reversed_onto st.out [])

-- `sanitize_path`: none for NULL. `root` is `rootdir`, or `module_dir` where that is NULL.
unfoldable pub sanitize_path : Target → Bool → Bool → Bytes → Bytes → ℕ → Result (Option Bytes)
unfolding sanitize_from root_prefix is_absolute too_long
sanitize_path target relative_paths keep_dot_dirs root p depth =
    let drop_dot_dirs = not relative_paths || not keep_dot_dirs in
    let absolute = is_absolute target p in
    let used = (if absolute then root else []) in
    let path = (if absolute then drop 1 p else p) in
    let allowed = (if absolute then 0 else depth) in
    if too_long target used p
    then ok none
    else (do s ← sanitize_from drop_dot_dirs (root_prefix used) allowed path; ok (some s))

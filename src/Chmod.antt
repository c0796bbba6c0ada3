-- ===== src/Chmod.antt =====
-- chmod.c: mode changes as `--chmod` gives them. A string is the list of its characters, without the
-- final NUL. `umask` is `orig_umask`. Freeing the list is not modelled.
pub mod Clauses
use Prim.Native.Nat.{bit_and, bit_or}
use rsync_wrapper.Prelude.{ℕ, zero, suc, ◌+◌, ◌-◌, ◌*◌, ltb, leb, ◌==◌, if◌then◌else◌}
use rsync_wrapper.Prelude.{
  Bool, true, false, not, ◌&&◌, Bytes, List, [], ◌∷◌, ◌++◌, Option, none, some,
}

-- struct chmod_mode_struct, with its flags FLAG_X_KEEP, FLAG_DIRS_ONLY and FLAG_FILES_ONLY.
pub record ChmodMode : Type 0 where
  pub mode_and : ℕ
  pub mode_or : ℕ
  pub x_keep : Bool
  pub dirs_only : Bool
  pub files_only : Bool

-- 07777, 0111, 04000, 02000 and 01000.
abbrev pub chmod_bits : ℕ
chmod_bits = 4095

abbrev pub x_bits : ℕ
x_bits = 73

abbrev pub set_uid : ℕ
set_uid = 2048

abbrev pub set_gid : ℕ
set_gid = 1024

abbrev pub sticky : ℕ
sticky = 512

-- CHMOD_ADD, CHMOD_SUB, CHMOD_EQ, CHMOD_SET
pub data Op : Type 0 where
  chmod_add chmod_sub chmod_eq chmod_set : Op

-- STATE_ERROR is a result of none.
pub data State : Type 0 where
  first_half second_half octal_num : State

-- The variables for the change at hand. `op` is none where the source has 0.
pub record Parser : Type 0 where
  pub state : State
  pub where_bits : ℕ
  pub what : ℕ
  pub op : Option Op
  pub topbits : ℕ
  pub topoct : ℕ
  pub x_keep : Bool
  pub dirs_only : Bool
  pub files_only : Bool

abbrev pub fresh_parser : Parser
fresh_parser = record {
  state = first_half;
  where_bits = 0;
  what = 0;
  op = none;
  topbits = 0;
  topoct = 0;
  x_keep = false;
  dirs_only = false;
  files_only = false;
}

-- `switch (op)`: ModeAND and ModeOR.
unfoldable pub mode_pair : Op → ℕ → ℕ → ℕ → ℕ → ℕ × ℕ
mode_pair chmod_add bits where_bits topbits topoct = (chmod_bits, bits + topoct)
mode_pair chmod_sub bits where_bits topbits topoct = (chmod_bits - bits - topoct, 0)
mode_pair chmod_eq bits where_bits topbits topoct =
    (chmod_bits - where_bits * 7 - (if topoct == 0 then 0 else topbits), bits + topoct)
mode_pair chmod_set bits where_bits topbits topoct = (0, bits)

-- The end of a change, at a comma or at the end of the string.
unfoldable pub close : ℕ → Parser → Option ChmodMode
unfolding mode_pair
close umask c = elim c.op [
  | none ↦ none
  | some op ↦
      let everywhere = x_bits * c.what in
      let unmasked = everywhere - bit_and everywhere umask in
      let where_bits = (if c.where_bits == 0 then x_bits else c.where_bits) in
      let bits = (if c.where_bits == 0 then unmasked else c.where_bits * c.what) in
      let pair = mode_pair op bits where_bits c.topbits c.topoct in
      some (record {
        mode_and = pair.0;
        mode_or = pair.1;
        x_keep = c.x_keep;
        dirs_only = c.dirs_only;
        files_only = c.files_only;
      })
]

-- `isDigit(modestr) && *modestr < '8'`
unfoldable pub is_octal : ℕ → Bool
is_octal ch = leb 48 ch && ltb ch 56

-- The characters D F u g o a + - = and octal digits.
unfoldable pub step_first : ℕ → Parser → Option Parser
unfolding is_octal
step_first ch c =
    if ch == 68
    then (if c.files_only then none else some (record c { dirs_only = true }))
    else if ch == 70
    then (if c.dirs_only then none else some (record c { files_only = true }))
    else if ch == 117
    then some (record c { where_bits = bit_or c.where_bits 64; topbits = bit_or c.topbits set_uid })
    else if ch == 103
    then some (record c { where_bits = bit_or c.where_bits 8; topbits = bit_or c.topbits set_gid })
    else if ch == 111
    then some (record c { where_bits = bit_or c.where_bits 1 })
    else if ch == 97
    then some (record c { where_bits = bit_or c.where_bits x_bits })
    else if ch == 43
    then some (record c { op = some chmod_add; state = second_half })
    else if ch == 45
    then some (record c { op = some chmod_sub; state = second_half })
    else if ch == 61
    then some (record c { op = some chmod_eq; state = second_half })
    else if is_octal ch && c.where_bits == 0
    then some (record c { op = some chmod_set; state = octal_num; where_bits = 1; what = ch - 48 })
    else none

-- The characters r w X x s t.
unfoldable pub step_second : ℕ → Parser → Option Parser
step_second ch c =
    if ch == 114
    then some (record c { what = bit_or c.what 4 })
    else if ch == 119
    then some (record c { what = bit_or c.what 2 })
    else if ch == 88
    then some (record c { x_keep = true; what = bit_or c.what 1 })
    else if ch == 120
    then some (record c { what = bit_or c.what 1 })
    else if ch == 115
    then some
        (record c { topoct = (if c.topbits == 0 then set_uid else bit_or c.topoct c.topbits) })
    else if ch == 116
    then some (record c { topoct = bit_or c.topoct sticky })
    else none

unfoldable pub step_octal : ℕ → Parser → Option Parser
unfolding is_octal
step_octal ch c =
    let what = c.what * 8 + (ch - 48) in
    if is_octal ch && leb what chmod_bits then some (record c { what = what }) else none

-- `switch (state)`
unfoldable pub step : ℕ → Parser → Option Parser
unfolding step_first step_second step_octal
step ch c = elim c.state [
  | first_half ↦ step_first ch c
  | second_half ↦ step_second ch c
  | octal_num ↦ step_octal ch c
]

unfoldable pub prepend : Option ChmodMode → Option (List ChmodMode) → Option (List ChmodMode)
prepend none more = none
prepend (some mode) none = none
prepend (some mode) (some more) = some (mode ∷ more)

-- The loop. Behind a comma (`opened`) the next character goes to the switch without a test for the end
-- of the change; a second comma or the end of the string is an error there.
unfoldable pub parse_changes : ℕ → Bool → Bytes → Parser → Option (List ChmodMode)
unfolding close step prepend
parse_changes umask true [] c = none
parse_changes umask false [] c = prepend (close umask c) (some [])
parse_changes umask opened (ch ∷ rest) c = elim (not opened && ch == 44) [
  | true ↦ prepend (close umask c) (parse_changes umask true rest fresh_parser)
  | false ↦ elim (step ch c) [ none ↦ none | some c' ↦ parse_changes umask false rest c' ]
]

-- The new items go behind the list at `root_mode_ptr`.
unfoldable pub added : List ChmodMode → Option (List ChmodMode) → Option (List ChmodMode)
added root none = none
added root (some modes) = some (root ++ modes)

-- `parse_chmod`: the list at `root_mode_ptr` afterwards, or none for NULL, which leaves it as it was.
unfoldable pub parse_chmod : ℕ → Bytes → List ChmodMode → Option (List ChmodMode)
unfolding parse_changes added
parse_chmod umask modestr root = added root (parse_changes umask false modestr fresh_parser)

-- S_ISDIR
unfoldable pub is_dir : ℕ → Bool
is_dir mode = bit_and mode 61440 == 16384

-- The loop of `tweak_mode`.
unfoldable pub tweak_loop : Bool → Bool → ℕ → List ChmodMode → ℕ
tweak_loop is_x dir mode [] = mode
tweak_loop is_x dir mode (m ∷ modes) =
    let kept = bit_and mode m.mode_and in
    let added =
      (if m.x_keep && (not is_x && not dir)
        then m.mode_or - bit_and m.mode_or x_bits
        else m.mode_or) in
    let changed = bit_or kept added in
    let skipped = m.dirs_only && not dir in
    let skipped_dir = m.files_only && dir in
    let mode' = (if skipped then mode else if skipped_dir then mode else changed) in
    tweak_loop is_x dir mode' modes

unfoldable pub tweak_mode : ℕ → List ChmodMode → ℕ
unfolding tweak_loop is_dir
tweak_mode mode modes =
    let non_perm = mode - bit_and mode chmod_bits in
    let is_x = not (bit_and mode x_bits == 0) in
    bit_or (tweak_loop is_x (is_dir non_perm) mode modes) non_perm

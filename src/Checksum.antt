-- ===== src/Checksum.antt =====
-- checksum.c: the weak block checksum `get_checksum1`; and match.c: the steps by which `hash_search`
-- moves it along the file. Values of type uint32 are numbers that wrap at 2 ^ 32.
pub mod Laws
pub mod Rolling
use rsync_wrapper.Prelude.{ℕ, ◌+◌, ◌-◌, ◌*◌, ◌/◌, ◌%◌, ◌^◌, ltb, if◌then◌else◌, Bytes, [], ◌∷◌}

-- A char of the file, sign-extended (`schar`), as a uint32. CHAR_OFFSET is 0.
unfoldable pub schar : ℕ → ℕ
schar b = if ltb b 128 then b else b + 2 ^ 32 - 256

-- `(s1 & 0xffff) + (s2 << 16)`; match.c writes `|` for the same sum of disjoint bits.
unfoldable pub join_sums : ℕ → ℕ → ℕ
join_sums s1 s2 = s1 % 2 ^ 16 + s2 * 2 ^ 16 % 2 ^ 32

-- The second loop of `get_checksum1`: byte by byte.
unfoldable pub single_loop : Bytes → ℕ → ℕ → ℕ × ℕ
single_loop [] s1 s2 = (s1, s2)
single_loop (b ∷ buf) s1 s2 =
    let s1' = (s1 + schar b) % 2 ^ 32 in single_loop buf s1' ((s2 + s1') % 2 ^ 32)

-- The first loop: four bytes at a time, while more than four are left.
unfoldable pub quad_loop : Bytes → ℕ → ℕ → ℕ × ℕ
quad_loop (a ∷ b ∷ c ∷ d ∷ e ∷ buf) s1 s2 =
    let s2' = (s2 + (4 * (s1 + schar a) + 3 * schar b + 2 * schar c + schar d)) % 2 ^ 32 in
    quad_loop (e ∷ buf) ((s1 + (schar a + schar b + schar c + schar d)) % 2 ^ 32) s2'
quad_loop buf s1 s2 = single_loop buf s1 s2

unfoldable pub get_checksum1 : Bytes → ℕ
unfolding quad_loop single_loop join_sums schar
get_checksum1 buf = let (s1, s2) = quad_loop buf 0 0 in join_sums s1 s2

-- `sum & 0xFFFF` and `sum >> 16`
unfoldable pub low_sum : ℕ → ℕ
low_sum sum = sum % 2 ^ 16

unfoldable pub high_sum : ℕ → ℕ
high_sum sum = sum / 2 ^ 16

-- `s1 -= map[0]; s2 -= k * map[0]`
unfoldable pub trim_first : ℕ → ℕ → ℕ × ℕ → ℕ × ℕ
unfolding schar
trim_first k c (s1, s2) =
    ((s1 + 2 ^ 32 - schar c) % 2 ^ 32, (s2 + 2 ^ 32 - k * schar c % 2 ^ 32) % 2 ^ 32)

-- `s1 += map[k]; s2 += s1`
unfoldable pub add_next : ℕ → ℕ × ℕ → ℕ × ℕ
unfolding schar
add_next c (s1, s2) = let s1' = (s1 + schar c) % 2 ^ 32 in (s1', (s2 + s1') % 2 ^ 32)

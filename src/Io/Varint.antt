-- ===== src/Io/Varint.antt =====
-- io.c: variable-length integers.
-- `write_varint` and `write_varlong` run the same steps on the 4 or 8 bytes of the number, with 1 or
-- `min_bytes` bytes at least; `put_var` and `get_var` are these steps.
pub mod Heads
pub mod Laws
use Prim.Native.Nat.{bit_and, bit_or}
use rsync_wrapper.Prelude.{ℕ, zero, suc, ◌+◌, ◌-◌, ◌*◌, ◌/◌, ◌^◌, ltb, leb, ◌==◌, if◌then◌else◌}
use rsync_wrapper.Prelude.{Bytes, [], ◌∷◌, ◌++◌, take, get_or, replicate, ◌&&◌}
use rsync_wrapper.Prelude.{Result, ok, exit, rerr_streamio, ◌>>=◌}
use rsync_wrapper.Prelude.Int.{ℤ}
use rsync_wrapper.Io.Word.{
  Read, read_buf, sival, sival64, ival, ival64, u32_of, i32_of, u64_of, i64_of,
}

-- The table of the number of extra bytes, by the top six bits of the first byte.
abbrev pub int_byte_extra : Bytes
int_byte_extra =
    replicate 32 0 ++ (replicate 16 1 ++ (replicate 8 2 ++ (3 ∷ 3 ∷ 3 ∷ 3 ∷ 4 ∷ 4 ∷ 5 ∷ 6 ∷ [])))

unfoldable pub extra_bytes : ℕ → ℕ
extra_bytes ch = get_or int_byte_extra (ch / 4) 0

-- `while (cnt > min_bytes && b[cnt] == 0) cnt--`, where the list holds b[1], b[2], ...
unfoldable pub used_bytes : Bytes → ℕ → ℕ → ℕ
used_bytes b min_bytes zero = zero
used_bytes b min_bytes (suc c) =
    let fewer = used_bytes b min_bytes c in
    if ltb min_bytes (suc c) && get_or b c 0 == 0 then fewer else suc c

-- The bytes sent: b[0] and the rest up to the final `cnt`. `~x` on a uchar is `255 - x`.
unfoldable pub put_var : Bytes → ℕ → ℕ → Bytes
unfolding used_bytes
put_var b size min_bytes =
    let cnt = used_bytes b min_bytes size in
    let bit = 2 ^ (7 + min_bytes - cnt) in
    let top = get_or b (cnt - 1) 0 in
    if leb bit top
    then (255 - (bit - 1)) ∷ take cnt b
    else if ltb min_bytes cnt
    then bit_or top (255 - (bit * 2 - 1)) ∷ take (cnt - 1) b
    else top ∷ take (cnt - 1) b

-- The bytes of the union `u` of `bytes` bytes, lowest first, as far as they are set.
unfoldable pub get_extra : ℕ → ℕ → ℕ → Bytes → Read Bytes
get_extra bytes min_bytes ch lo rest =
    let extra = extra_bytes ch in
    let last = bit_and ch (2 ^ (8 - extra) - 1) in
    if extra == 0
    then ok (lo ++ (ch ∷ []), rest)
    else if ltb bytes (min_bytes + extra)
    then exit rerr_streamio
    else do (more, rest') ← read_buf extra rest; ok (lo ++ (more ++ (last ∷ [])), rest')

unfoldable pub first_bytes : ℕ → ℕ → Bytes → Read Bytes
first_bytes bytes min_bytes [] rest = exit rerr_streamio
first_bytes bytes min_bytes (ch ∷ lo) rest = get_extra bytes min_bytes ch lo rest

unfoldable pub get_var : ℕ → ℕ → Read Bytes
unfolding first_bytes get_extra extra_bytes
get_var bytes min_bytes bs = do
  (b2, rest) ← read_buf min_bytes bs
  first_bytes bytes min_bytes b2 rest

unfoldable pub write_varint : ℤ → Bytes
unfolding put_var
write_varint x = put_var (sival (u32_of x)) 4 1

unfoldable pub read_varint : Read ℤ
unfolding get_var
read_varint bs = do (b, rest) ← get_var 5 1 bs; ok (i32_of (ival b), rest)

unfoldable pub write_varlong : ℤ → ℕ → Bytes
unfolding put_var
write_varlong x min_bytes = put_var (sival64 (u64_of x)) 8 min_bytes

unfoldable pub read_varlong : ℕ → Read ℤ
unfolding get_var
read_varlong min_bytes bs = do (b, rest) ← get_var 9 min_bytes bs; ok (i64_of (ival64 b), rest)

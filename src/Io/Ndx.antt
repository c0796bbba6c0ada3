-- ===== src/Io/Ndx.antt =====
-- io.c: file-list indices in a byte-reduced form, as differences from the last index of their sign.
-- The static variables `prev_positive` and `prev_negative` of each side are a record that is passed on.
pub mod Laws
use Prim.Native.Nat.{bit_and, bit_or}
use rsync_wrapper.Prelude.{ℕ, ◌+◌, ◌-◌, ◌*◌, ◌/◌, ◌%◌, ◌^◌, ltb, leb, ◌==◌, if◌then◌else◌}
use rsync_wrapper.Prelude.{Bytes, [], ◌∷◌, ◌++◌, Bool, true, false, ◌&&◌, ◌||◌}
use rsync_wrapper.Prelude.{Result, ok, ◌>>=◌}
use rsync_wrapper.Prelude.Int.{ℤ, pos, negsuc, ◌-ℤ◌, ◌+ℤ◌, neg_ℤ, ltb_ℤ}
use rsync_wrapper.Io.Word.{Read, read_byte, read_buf, write_int, read_int, u32_of, i32_of, ival}

pub record NdxState : Type 0 where
  pub prev_positive : ℤ
  pub prev_negative : ℤ

-- static int32 prev_positive = -1, prev_negative = 1
abbrev pub ndx_start : NdxState
ndx_start = record { prev_positive = negsuc 0; prev_negative = pos 1 }

abbrev pub ndx_done : ℤ
ndx_done = negsuc 0

-- The bytes for a number `ndx` that is not negative and its difference from the last one.
unfoldable pub ndx_bytes : ℤ → ℤ → Bytes
ndx_bytes ndx diff =
    let v = u32_of ndx in
    let d = u32_of diff in
    if ltb_ℤ diff (pos 254) && ltb_ℤ (pos 0) diff
    then d % 256 ∷ []
    else if ltb_ℤ diff (pos 0) || ltb_ℤ (pos 0x7FFF) diff
    then 254 ∷ bit_or (v / 2 ^ 24 % 256) 128 ∷ v % 256 ∷ v / 2 ^ 8 % 256 ∷ v / 2 ^ 16 % 256 ∷ []
    else 254 ∷ d / 2 ^ 8 % 256 ∷ d % 256 ∷ []

-- The branch of `write_ndx` for protocol 30 and above.
unfoldable pub write_ndx30 : ℤ → NdxState → Bytes × NdxState
unfolding ndx_bytes ◌-ℤ◌
write_ndx30 (pos n) s =
    (ndx_bytes (pos n) (pos n -ℤ s.prev_positive), record s { prev_positive = pos n })
write_ndx30 (negsuc ℕ.zero) s = (0 ∷ [], s)
write_ndx30 (negsuc (ℕ.suc n)) s =
    let num = pos (ℕ.suc (ℕ.suc n)) in
    (255 ∷ ndx_bytes num (num -ℤ s.prev_negative), record s { prev_negative = num })

-- `legacy` is `protocol_version < 30 || read_batch`.
unfoldable pub write_ndx : Bool → ℤ → NdxState → Bytes × NdxState
unfolding write_ndx30
write_ndx true ndx s = (write_int ndx, s)
write_ndx false ndx s = write_ndx30 ndx s

-- The sum of a uint32 and an int32, assigned to an int32.
unfoldable pub add_wrap : ℕ → ℤ → ℤ
unfolding ◌+ℤ◌
add_wrap n prev = i32_of (u32_of (pos n +ℤ prev))

-- The number behind the first byte `c`, with `prev` for `*prev_ptr`. The two reads of two bytes are
-- made byte by byte: both ways end the process on a short input.
unfoldable pub read_wide : ℤ → ℕ → ℕ → Read ℤ
read_wide prev hi lo rest =
    if bit_and hi 128 == 0 then ok (add_wrap (hi * 256 + lo) prev, rest) else (do
      (b, rest') ← read_buf 2 rest
      ok (i32_of (ival (lo ∷ (b ++ (bit_and hi 127 ∷ [])))), rest'))

unfoldable pub read_num : ℕ → ℤ → Read ℤ
unfolding read_wide add_wrap
read_num c prev bs =
    if c == 254
    then (do (hi, rest) ← read_byte bs; (lo, rest') ← read_byte rest; read_wide prev hi lo rest')
    else ok (add_wrap c prev, bs)

-- The branch of `read_ndx` for protocol 30 and above, on its first byte.
unfoldable pub read_ndx30 : ℕ → NdxState → Read (ℤ × NdxState)
unfolding read_num
read_ndx30 c s bs =
    if c == 255
    then (do
      (c', rest) ← read_byte bs
      (num, rest') ← read_num c' s.prev_negative rest
      ok ((neg_ℤ num, record s { prev_negative = num }), rest'))
    else if c == 0
    then ok ((ndx_done, s), bs)
    else do
      (num, rest) ← read_num c s.prev_positive bs
      ok ((num, record s { prev_positive = num }), rest)

-- `legacy` is `protocol_version < 30`.
unfoldable pub read_ndx : Bool → NdxState → Read (ℤ × NdxState)
unfolding read_ndx30
read_ndx true s bs = do (num, rest) ← read_int bs; ok ((num, s), rest)
read_ndx false s bs = do (c, rest) ← read_byte bs; read_ndx30 c s rest

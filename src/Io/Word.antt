-- ===== src/Io/Word.antt =====
-- io.c and byteorder.h: fixed-width integers on the wire.
-- A reader takes the bytes that are still to come, and returns its value and the bytes behind it.
-- An end of input is `whine_about_eof`, which exits with RERR_STREAMIO. Signed integers are ℤ, and the
-- cast to a bit pattern and back is written out.
pub mod Laws
use rsync_wrapper.Prelude.{ℕ, zero, suc, ◌+◌, ◌-◌, ◌*◌, ◌/◌, ◌%◌, ◌^◌, ◌<◌, ltb, if◌then◌else◌}
use rsync_wrapper.Prelude.{Bytes, List, [], ◌∷◌, ◌++◌, take, Bool, ◌&&◌, ◌==◌}
use rsync_wrapper.Prelude.{Result, ok, exit, rerr_streamio, ◌>>=◌}
use rsync_wrapper.Prelude.Int.{ℤ, pos, negsuc}

abbrev pub Read : Type 0 → Type 0
Read A = Bytes → Result (A × Bytes)

-- read_buf: exactly `len` bytes.
unfoldable pub read_buf : ℕ → Read Bytes
read_buf zero bs = ok ([], bs)
read_buf (suc len) [] = exit rerr_streamio
read_buf (suc len) (b ∷ bs) = do (x, rest) ← read_buf len bs; ok (b ∷ x, rest)

unfoldable pub read_byte : Read ℕ
read_byte [] = exit rerr_streamio
read_byte (b ∷ bs) = ok (b, bs)

-- SIVALu: the four bytes of a uint32, lowest first.
unfoldable pub sival : ℕ → Bytes
sival v = v % 256 ∷ v / 256 % 256 ∷ v / 65536 % 256 ∷ v / 16777216 % 256 ∷ []

-- SIVAL64
unfoldable pub sival64 : ℕ → Bytes
unfolding sival
sival64 v = sival v ++ sival (v / 2 ^ 32)

-- The number that bytes stand for, lowest first. Bytes that are missing count as 0.
abbrev pub le_value : Bytes → ℕ
le_value [] = 0
le_value (b ∷ bs) = b + 256 * le_value bs

-- IVALu
unfoldable pub ival : Bytes → ℕ
ival bs = le_value (take 4 bs)

-- IVAL64
unfoldable pub ival64 : Bytes → ℕ
ival64 bs = le_value (take 8 bs)

-- The casts between int32 and uint32, int64 and uint64.
unfoldable pub u32_of : ℤ → ℕ
u32_of (pos n) = n % 2 ^ 32
u32_of (negsuc n) = 2 ^ 32 - 1 - n % 2 ^ 32

unfoldable pub i32_of : ℕ → ℤ
i32_of w = if ltb (w % 2 ^ 32) (2 ^ 31) then pos (w % 2 ^ 32) else negsuc (2 ^ 32 - 1 - w % 2 ^ 32)

unfoldable pub u64_of : ℤ → ℕ
u64_of (pos n) = n % 2 ^ 64
u64_of (negsuc n) = 2 ^ 64 - 1 - n % 2 ^ 64

unfoldable pub i64_of : ℕ → ℤ
i64_of w = if ltb (w % 2 ^ 64) (2 ^ 63) then pos (w % 2 ^ 64) else negsuc (2 ^ 64 - 1 - w % 2 ^ 64)

abbrev pub IsI32 : ℤ → Type 0
IsI32 (pos n) = n < 2 ^ 31
IsI32 (negsuc n) = n < 2 ^ 31

abbrev pub IsI64 : ℤ → Type 0
IsI64 (pos n) = n < 2 ^ 63
IsI64 (negsuc n) = n < 2 ^ 63

-- write_int and read_int
unfoldable pub write_int : ℤ → Bytes
write_int x = sival (u32_of x)

unfoldable pub read_int : Read ℤ
read_int bs = do (b, rest) ← read_buf 4 bs; ok (i32_of (ival b), rest)

-- write_shortint; read_shortint
unfoldable pub write_shortint : ℕ → Bytes
write_shortint x = x % 256 ∷ x / 256 % 256 ∷ []

unfoldable pub read_shortint : Read ℕ
read_shortint bs = do (b, rest) ← read_buf 2 bs; ok (le_value b, rest)

-- `x <= 0x7FFFFFFF && x >= 0`
unfoldable pub fits_int : ℤ → Bool
fits_int (pos n) = ltb n (2 ^ 31)
fits_int (negsuc n) = Bool.false

-- write_longint: four bytes, or four bytes of 0xFF and the eight bytes.
unfoldable pub write_longint : ℤ → Bytes
unfolding fits_int
write_longint x =
    if fits_int x
    then sival (u64_of x % 2 ^ 32)
    else 255 ∷ 255 ∷ 255 ∷ 255 ∷ (sival (u64_of x % 2 ^ 32) ++ sival (u64_of x / 2 ^ 32))

is_minus_one : ℤ → Bool
is_minus_one (pos n) = Bool.false
is_minus_one (negsuc n) = n == 0

-- read_longint
unfoldable pub read_longint : Read ℤ
unfolding is_minus_one
read_longint bs = do
  (num, rest) ← read_int bs
  elim (is_minus_one num) [
    | Bool.false ↦ ok (num, rest)
    | Bool.true ↦ do (b, rest') ← read_buf 8 rest; ok (i64_of (ival64 b), rest')
  ]

-- ===== src/Io/Word/Laws.antt =====
-- io.c: what is written as a fixed-width integer is read back.
use rsync_wrapper.Prelude.{ℕ, ◌/◌, ◌%◌, ◌^◌, ◌<◌, ◌≡◌, refl, arith}
use rsync_wrapper.Prelude.{
  Bytes, AreBytes, [], ◌∷◌, ◌++◌, length, ok, Bool-cases, ltb, ltb→lt, inl, inr,
}
use rsync_wrapper.Prelude.Int.{ℤ, pos, negsuc}
use rsync_wrapper.Io.Word.{read_buf, sival, sival64, ival, ival64, le_value, u32_of, i32_of, u64_of}
use rsync_wrapper.Io.Word.{i64_of, IsI32, IsI64, write_int, read_int, write_shortint, read_shortint}
use rsync_wrapper.Io.Word.{write_longint, read_longint}

pub read_buf-append : (x rest : Bytes) → read_buf (length x) (x ++ rest) ≡ ok (x, rest)
unfolding read_buf
read_buf-append [] rest = refl
read_buf-append (b ∷ x) rest = rw (read_buf-append x rest)

pub length-sival : (v : ℕ) → length (sival v) ≡ 4
unfolding sival
length-sival v = refl

pub sival-AreBytes : (v : ℕ) → AreBytes (sival v)
unfolding sival
sival-AreBytes v = omega arith

pub length-sival64 : (v : ℕ) → length (sival64 v) ≡ 8
unfolding sival64 sival
length-sival64 v = refl

pub sival64-AreBytes : (v : ℕ) → AreBytes (sival64 v)
unfolding sival64 sival
sival64-AreBytes v = omega arith

pub le_value-sival : (v : ℕ) → v < 2 ^ 32 → le_value (sival v) ≡ v
unfolding sival
le_value-sival v h = omega arith

pub le_value-sival64 : (v : ℕ) → v < 2 ^ 64 → le_value (sival64 v) ≡ v
unfolding sival64
le_value-sival64 v h = omega arith

pub ival-sival : (v : ℕ) → v < 2 ^ 32 → ival (sival v) ≡ v
unfolding ival sival
ival-sival v h = omega arith

pub u32_of-lt : (x : ℤ) → u32_of x < 2 ^ 32
unfolding u32_of
u32_of-lt (pos n) = omega arith
u32_of-lt (negsuc n) = omega arith

pub u64_of-lt : (x : ℤ) → u64_of x < 2 ^ 64
unfolding u64_of
u64_of-lt (pos n) = omega arith
u64_of-lt (negsuc n) = omega arith

pub i32_of-u32_of : (x : ℤ) → IsI32 x → i32_of (u32_of x) ≡ x
unfolding i32_of u32_of
i32_of-u32_of (pos n) h = ground arith
i32_of-u32_of (negsuc n) h = ground arith

pub i64_of-u64_of : (x : ℤ) → IsI64 x → i64_of (u64_of x) ≡ x
unfolding i64_of u64_of
i64_of-u64_of (pos n) h = ground arith
i64_of-u64_of (negsuc n) h = ground arith

-- Every uint32 comes back through int32.
pub u32_of-i32_of : (w : ℕ) → w < 2 ^ 32 → u32_of (i32_of w) ≡ w
unfolding i32_of u32_of
u32_of-i32_of w h = ground arith

read_buf-sival : (v : ℕ) (rest : Bytes) → read_buf 4 (sival v ++ rest) ≡ ok (sival v, rest)
read_buf-sival v rest = rw (length-sival v) at (read_buf-append (sival v) rest)

-- Every int32 that `write_int` sends is what `read_int` returns, and the bytes behind it stay.
pub read_int-write_int :
    (x : ℤ) (rest : Bytes) → IsI32 x → read_int (write_int x ++ rest) ≡ ok (x, rest)
unfolding read_int write_int
read_int-write_int x rest h =
    rw (read_buf-sival (u32_of x) rest, ival-sival (u32_of x) (u32_of-lt x), i32_of-u32_of x h)

pub read_shortint-write_shortint :
    (x : ℕ) (rest : Bytes) → x < 2 ^ 16 → read_shortint (write_shortint x ++ rest) ≡ ok (x, rest)
unfolding read_shortint write_shortint read_buf
read_shortint-write_shortint x rest h = ground arith

pub read_int-sival :
    (w : ℕ) (rest : Bytes) → w < 2 ^ 32 → read_int (sival w ++ rest) ≡ ok (i32_of w, rest)
unfolding read_int
read_int-sival w rest h = rw (read_buf-sival w rest, ival-sival w h)

read_int_marker : (rest : Bytes) → read_int (255 ∷ 255 ∷ 255 ∷ 255 ∷ rest) ≡ ok (negsuc 0, rest)
unfolding read_int read_buf ival i32_of
read_int_marker rest = refl

read_buf-sival64 : (v : ℕ) (rest : Bytes) → read_buf 8 (sival64 v ++ rest) ≡ ok (sival64 v, rest)
unfolding sival64 sival
read_buf-sival64 v rest = read_buf-append (sival64 v) rest

ival64-sival64 : (v : ℕ) → v < 2 ^ 64 → ival64 (sival64 v) ≡ v
unfolding ival64 sival64
ival64-sival64 v h = le_value-sival64 v h

small_i64 : (n : ℕ) → n < 2 ^ 31 → i32_of (u64_of (pos n) % 2 ^ 32) ≡ pos n
unfolding u64_of i32_of
small_i64 n h = ground arith

read_longint_short :
    (n : ℕ) (rest : Bytes)
    → n < 2 ^ 31
    → read_longint (sival (u64_of (pos n) % 2 ^ 32) ++ rest) ≡ ok (pos n, rest)
unfolding read_longint
read_longint_short n rest h =
    rw (read_int-sival (u64_of (pos n) % 2 ^ 32) rest (omega arith), small_i64 n h) refl

low_word : (v : ℕ) → sival (v % 2 ^ 32) ++ sival (v / 2 ^ 32) ≡ sival64 v
unfolding sival64 sival
low_word v = ground arith

read_longint_wide :
    (x : ℤ) (rest : Bytes)
    → IsI64 x
    → read_longint
        (255 ∷ 255 ∷ 255 ∷ 255 ∷ (sival (u64_of x % 2 ^ 32) ++ sival (u64_of x / 2 ^ 32)) ++ rest)
      ≡ ok (x, rest)
unfolding read_longint
read_longint_wide x rest h =
    rw
      (
        low_word (u64_of x),
        read_int_marker (sival64 (u64_of x) ++ rest),
        read_buf-sival64 (u64_of x) rest,
        ival64-sival64 (u64_of x) (u64_of-lt x),
        i64_of-u64_of x h,
      )
      refl

-- `read_longint` returns every int64 that `write_longint` sends, in either of its two forms.
pub read_longint-write_longint :
    (x : ℤ) (rest : Bytes) → IsI64 x → read_longint (write_longint x ++ rest) ≡ ok (x, rest)
unfolding write_longint
read_longint-write_longint (pos n) rest h = elim (Bool-cases (ltb n (2 ^ 31))) [
  | inl small ↦ rw small (read_longint_short n rest (ltb→lt _ _ small))
  | inr wide ↦ rw wide (read_longint_wide (pos n) rest h)
]
read_longint-write_longint (negsuc n) rest h = read_longint_wide (negsuc n) rest h

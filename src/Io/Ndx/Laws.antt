-- ===== src/Io/Ndx/Laws.antt =====
-- io.c: file-list indices that are written are read back, the two sides' states kept alike.
use Prim.Native.Nat.{bit_and, bit_or}
use rsync_wrapper.Prelude.{
  ℕ, zero, suc, ◌-◌, ◌/◌, ◌%◌, ◌^◌, ◌<◌, ◌≡◌, refl, arith, ◌==◌, inl, inr, Bool, true, false, ◌&&◌,
  holds_below, holds_below-lt,
}
use rsync_wrapper.Prelude.{Bytes, List, [], ◌∷◌, ◌++◌, append_assoc, ok, Result, ◌>>=◌, All, length}
use rsync_wrapper.Prelude.Int.{ℤ, pos, negsuc, ◌-ℤ◌}
use rsync_wrapper.Io.Word.{IsI32, read_buf, read_byte, u32_of, i32_of, ival}
use rsync_wrapper.Io.Ndx.{NdxState, ndx_bytes, write_ndx, read_num, read_ndx}
use rsync_wrapper.Io.Ndx.{add_wrap}
use rsync_wrapper.Io.Word.Laws.{read_int-write_int}
use rsync_wrapper.Prelude.{◌⊎◌, ◌∙◌}
use native.Mathlib.Decide.{dec_lt}

high_bit_ok : ℕ → Bool
high_bit_ok b =
    bit_and (bit_or b 128) 128 == 128 && bit_and (bit_or b 128) 127 == b && bit_and b 128 == 0

high_bit_table : holds_below high_bit_ok 128 ≡ true
unfolding holds_below high_bit_ok
high_bit_table = refl

high_bit :
    (b : ℕ)
    → b < 128
    → (bit_and (bit_or b 128) 128 ≡ 128) × (bit_and (bit_or b 128) 127 ≡ b) × (bit_and b 128 ≡ 0)
unfolding high_bit_ok
high_bit b h = ground (arith, holds_below-lt _ 128 b h high_bit_table)

wide_read :
    (n : ℕ) (prev : ℤ) (rest : Bytes)
    → n < 2 ^ 31
    → read_num 254 prev
        (bit_or (n / 2 ^ 24 % 256) 128 ∷ n % 256 ∷ n / 2 ^ 8 % 256 ∷ n / 2 ^ 16 % 256 ∷ rest)
      ≡ ok (pos n, rest)
unfolding read_num read_byte read_buf ival i32_of
wide_read n prev rest h = ground (arith, high_bit (n / 2 ^ 24 % 256))

short_read :
    (d : ℕ) (prev : ℤ) (rest : Bytes)
    → d < 0x8000
    → read_num 254 prev (d / 2 ^ 8 % 256 ∷ d % 256 ∷ rest) ≡ ok (add_wrap d prev, rest)
unfolding read_num read_byte add_wrap
short_read d prev rest h = ground (arith, high_bit (d / 2 ^ 8 % 256))

byte_read :
    (d : ℕ) (prev : ℤ) (rest : Bytes) → d < 254 → read_num d prev rest ≡ ok (add_wrap d prev, rest)
unfolding read_num add_wrap
byte_read d prev rest h = ground arith

add_wrap_difference :
    (n d : ℕ) (prev : ℤ) → n < 2 ^ 31 → pos n -ℤ prev ≡ pos d → add_wrap d prev ≡ pos n
unfolding add_wrap ◌-ℤ◌ u32_of i32_of
add_wrap_difference n d (pos p) hn e = ground arith
add_wrap_difference n d (negsuc p) hn e = ground arith

-- The first byte is neither of the two marks, and the rest is read back.
abbrev ReadsNum : ℕ → ℤ → Bytes → Bytes → Type 0
ReadsNum n prev rest bytes =
    (c : ℕ) × (tail : Bytes) × (bytes ≡ c ∷ tail)
    × (0 < c)
    × (c < 255)
    × (read_num c prev (tail ++ rest) ≡ ok (pos n, rest))

u32_of-pos : (n : ℕ) → n < 2 ^ 32 → u32_of (pos n) ≡ n
unfolding u32_of
u32_of-pos n h = omega arith

-- The three forms, in numbers.
wide_tail : ℕ → Bytes
wide_tail n = bit_or (n / 2 ^ 24 % 256) 128 ∷ n % 256 ∷ n / 2 ^ 8 % 256 ∷ n / 2 ^ 16 % 256 ∷ []

ndx_bytes_back : (n k : ℕ) → n < 2 ^ 32 → ndx_bytes (pos n) (negsuc k) ≡ 254 ∷ wide_tail n
unfolding ndx_bytes wide_tail
ndx_bytes_back n k h = ground (arith, u32_of-pos n)

ndx_bytes_wide : (n d : ℕ) → n < 2 ^ 32 → 0x7FFF < d → ndx_bytes (pos n) (pos d) ≡ 254 ∷ wide_tail n
unfolding ndx_bytes wide_tail
ndx_bytes_wide n d h hd = ground (arith, u32_of-pos n)

ndx_bytes_byte : (n d : ℕ) → 0 < d → d < 254 → ndx_bytes (pos n) (pos d) ≡ d ∷ []
unfolding ndx_bytes
ndx_bytes_byte n d h hd = ground (arith, u32_of-pos d)

ndx_bytes_short :
    (n d : ℕ)
    → (d ≡ 0) ⊎ (253 < d)
    → d < 0x8000
    → ndx_bytes (pos n) (pos d) ≡ 254 ∷ d / 2 ^ 8 % 256 ∷ d % 256 ∷ []
unfolding ndx_bytes
ndx_bytes_short n d h hd = ground (arith, u32_of-pos d)

ReadsNum-wide :
    (n : ℕ) (prev : ℤ) (rest : Bytes) {bytes : Bytes}
    → n < 2 ^ 31
    → bytes ≡ 254 ∷ wide_tail n
    → ReadsNum n prev rest bytes
ReadsNum-wide n prev rest h e =
    (254, wide_tail n, e, omega arith, omega arith, unfold wide_tail in wide_read n prev rest h)

module _ (n d : ℕ) (prev : ℤ) (rest : Bytes) (hn : n < 2 ^ 31) (e : pos n -ℤ prev ≡ pos d) where
  ReadsNum-short :
      (d ≡ 0) ⊎ (253 < d) → d < 0x8000 → ReadsNum n prev rest (ndx_bytes (pos n) (pos d))
  ReadsNum-short h hd = (
    254,
    d / 2 ^ 8 % 256 ∷ d % 256 ∷ [],
    ndx_bytes_short n d h hd,
    omega arith,
    omega arith,
    short_read d prev rest hd ∙ rw (add_wrap_difference n d prev hn e),
  )

  ReadsNum-forward : ReadsNum n prev rest (ndx_bytes (pos n) (pos d))
  ReadsNum-forward = elim (dec_lt d 254) [
    | yes small ↦ elim (dec_lt 0 d) [
      | yes positive ↦ (
        d,
        [],
        ndx_bytes_byte n d positive small,
        positive,
        omega arith,
        byte_read d prev rest small ∙ rw (add_wrap_difference n d prev hn e),
      )
      | no zero' ↦ ReadsNum-short (inl (omega arith)) (omega arith)
    ]
    | no large ↦ elim (dec_lt d 0x8000) [
      | yes mid ↦ ReadsNum-short (inr (omega arith)) mid
      | no wide ↦ ReadsNum-wide n prev rest hn (ndx_bytes_wide n d (omega arith) (omega arith))
    ]
  ]

ReadsNum-difference :
    (n : ℕ) (prev diff : ℤ) (rest : Bytes)
    → n < 2 ^ 31
    → pos n -ℤ prev ≡ diff
    → ReadsNum n prev rest (ndx_bytes (pos n) diff)
ReadsNum-difference n prev (pos d) rest h e = ReadsNum-forward n d prev rest h e
ReadsNum-difference n prev (negsuc k) rest h e =
    ReadsNum-wide n prev rest h (ndx_bytes_back n k (omega arith))

-- The range in which no difference of an index and the last one overflows an int32.
abbrev pub IsNdx : ℤ → Type 0
IsNdx (pos n) = n < 2 ^ 31 - 1
IsNdx (negsuc n) = n < 2 ^ 31 - 1

read_ndx-write_ndx30 :
    (ndx : ℤ) (s : NdxState) (rest : Bytes)
    → IsNdx ndx
    → read_ndx false s ((write_ndx false ndx s).0 ++ rest)
      ≡ ok ((ndx, (write_ndx false ndx s).1), rest)
unfolding read_ndx write_ndx read_byte
read_ndx-write_ndx30 (pos n) s rest h =
    let (c, tail, e, lo, hi, read) =
      ReadsNum-difference n s.prev_positive _ rest (omega arith) refl in
    rw e (ground (arith, read))
read_ndx-write_ndx30 (negsuc zero) s rest h = refl
read_ndx-write_ndx30 (negsuc (suc n)) s rest h =
    let (c, tail, e, lo, hi, read) =
      ReadsNum-difference (suc (suc n)) s.prev_negative _ rest (omega arith) refl in
    rw e (ground (arith, read))

IsNdx-IsI32 : (ndx : ℤ) → IsNdx ndx → IsI32 ndx
IsNdx-IsI32 (pos n) h = omega arith
IsNdx-IsI32 (negsuc n) h = omega arith

-- One index that one side writes is what the other side reads, whatever follows it, if both use the same
-- form and remember the same indices; and then they do so again.
pub read_ndx-write_ndx :
    (legacy : Bool) (ndx : ℤ) (s : NdxState) (rest : Bytes)
    → IsNdx ndx
    → read_ndx legacy s ((write_ndx legacy ndx s).0 ++ rest)
      ≡ ok ((ndx, (write_ndx legacy ndx s).1), rest)
unfolding read_ndx write_ndx
read_ndx-write_ndx true ndx s rest h = rw (read_int-write_int ndx rest (IsNdx-IsI32 ndx h)) refl
read_ndx-write_ndx false ndx s rest h = read_ndx-write_ndx30 ndx s rest h

-- A run of indices on one connection, in one of the two forms: each side passes its state on.
pub write_indices : Bool → List ℤ → NdxState → Bytes × NdxState
write_indices legacy [] s = ([], s)
write_indices legacy (ndx ∷ more) s =
    let (b, s') = write_ndx legacy ndx s in
    let (bs, s'') = write_indices legacy more s' in (b ++ bs, s'')

pub read_indices : Bool → ℕ → NdxState → Bytes → Result ((List ℤ × NdxState) × Bytes)
read_indices legacy zero s bs = ok (([], s), bs)
read_indices legacy (suc n) s bs = do
  ((ndx, s'), rest) ← read_ndx legacy s bs
  ((more, s''), rest') ← read_indices legacy n s' rest
  ok ((ndx ∷ more, s''), rest')

-- Where both sides use the same form, the four bytes of old protocols or the differences of protocol 30 and
-- above without `read_batch`, and remember the same indices: every run of indices, of both signs and with
-- NDX_DONE among them, is read back as it was written, whatever follows it, and the reader ends with the
-- writer's state. The indices are from -(2 ^ 31 - 1) to 2 ^ 31 - 2.
pub read_indices-write_indices :
    (legacy : Bool) (l : List ℤ) (s : NdxState) (rest : Bytes)
    → All IsNdx l
    → read_indices legacy (length l) s ((write_indices legacy l s).0 ++ rest)
      ≡ ok ((l, (write_indices legacy l s).1), rest)
unfolding read_indices write_indices
read_indices-write_indices legacy [] s rest h = refl
read_indices-write_indices legacy (ndx ∷ more) s rest h = simp (
  append_assoc,
  read_ndx-write_ndx legacy ndx s _ h.0,
  read_indices-write_indices legacy more (write_ndx legacy ndx s).1 rest h.1,
)

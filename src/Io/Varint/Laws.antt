-- ===== src/Io/Varint/Laws.antt =====
-- io.c: what is written as a variable-length integer is read back.
use Prim.Native.Nat.{bit_and, bit_or}
use rsync_wrapper.Prelude.{
  ℕ, zero, suc, ◌+◌, ◌-◌, ◌*◌, ◌^◌, ◌≤◌, ◌<◌, ◌≡◌, refl, sym, arith, ap, ◌∙◌,
}
use rsync_wrapper.Prelude.{
  Bytes, AreBytes, [], ◌∷◌, ◌++◌, length, take, get_or, get_or-lt, ok, Bool-cases, ltb, leb,
}
use rsync_wrapper.Prelude.{ltb→lt, inl, inr, true, false, append_assoc}
use rsync_wrapper.Prelude.{length-take, length-drop, drop, take-append-drop}
use rsync_wrapper.Prelude.Int.{ℤ}
use rsync_wrapper.Io.Word.{
  read_buf, sival, sival64, ival, ival64, le_value, u32_of, u64_of, IsI32, IsI64,
}
use rsync_wrapper.Io.Word.Laws.{
  read_buf-append, le_value-sival, le_value-sival64, length-sival, length-sival64, sival-AreBytes,
  sival64-AreBytes, u32_of-lt, u64_of-lt, i32_of-u32_of, i64_of-u64_of,
}
use rsync_wrapper.Io.Varint.{extra_bytes, used_bytes, put_var, get_extra, first_bytes, get_var}
use rsync_wrapper.Io.Varint.Heads.{inner_head, full_head, plain_head, pow_le}
use rsync_wrapper.Io.Varint.{write_varint, read_varint, write_varlong, read_varlong}

leb-false : (a b : ℕ) → leb a b ≡ false → b < a
leb-false a b h = ground arith

-- Lists of bytes and their values.
take-suc : (b : Bytes) (n : ℕ) → n < length b → take (suc n) b ≡ take n b ++ (get_or b n 0 ∷ [])
take-suc [] n h = absurd (omega arith)
take-suc (x ∷ b) zero h = refl
take-suc (x ∷ b) (suc n) h = ap (x ∷◌) (take-suc b n (omega arith))

take-le : (b : Bytes) (n : ℕ) → length b ≤ n → take n b ≡ b
take-le [] zero h = refl
take-le [] (suc n) h = refl
take-le (x ∷ b) zero h = absurd (omega arith)
take-le (x ∷ b) (suc n) h = ap (x ∷◌) (take-le b n (omega arith))

le_value-append_zero : (b : Bytes) → le_value (b ++ (0 ∷ [])) ≡ le_value b
le_value-append_zero [] = refl
le_value-append_zero (x ∷ b) = rw (le_value-append_zero b)

le_value-take_zero :
    (b : Bytes) (n : ℕ) → length b ≤ n → le_value (take n (b ++ (0 ∷ []))) ≡ le_value b
le_value-take_zero [] zero h = refl
le_value-take_zero [] (suc zero) h = refl
le_value-take_zero [] (suc (suc n)) h = refl
le_value-take_zero (x ∷ b) zero h = absurd (omega arith)
le_value-take_zero (x ∷ b) (suc n) h = rw (le_value-take_zero b n (omega arith))

-- Leaving out a top byte that is 0 does not change the number.
le_value-used_bytes :
    (b : Bytes) (m c : ℕ)
    → c ≤ length b
    → le_value (take (used_bytes b m c) b) ≡ le_value (take c b)
unfolding used_bytes
le_value-used_bytes b m zero h = refl
le_value-used_bytes b m (suc c) h = ground (
  arith,
  le_value-used_bytes b m c (omega arith),
  take-suc b c (omega arith),
  le_value-append_zero (take c b),
)

used_bytes_bounds : (b : Bytes) (m c : ℕ) → m ≤ c → (m ≤ used_bytes b m c) × (used_bytes b m c ≤ c)
unfolding used_bytes
used_bytes_bounds b m zero h = omega arith
used_bytes_bounds b m (suc c) h = ground (arith, used_bytes_bounds b m c)

-- The reader on a first byte `ch` that announces `length more` extra bytes.
get_var_plain :
    (bytes ch : ℕ) (lo rest : Bytes)
    → extra_bytes ch ≡ 0
    → get_var bytes (suc (length lo)) (ch ∷ (lo ++ rest)) ≡ ok (lo ++ (ch ∷ []), rest)
unfolding get_var first_bytes get_extra read_buf
get_var_plain bytes ch lo rest e = rw (read_buf-append lo rest, e) refl

get_var_extra :
    (bytes ch : ℕ) (lo more rest : Bytes)
    → extra_bytes ch ≡ length more
    → 0 < length more
    → suc (length lo) + length more ≤ bytes
    → get_var bytes (suc (length lo)) (ch ∷ (lo ++ (more ++ rest)))
      ≡ ok (lo ++ (more ++ (bit_and ch (2 ^ (8 - length more) - 1) ∷ [])), rest)
unfolding get_var first_bytes get_extra read_buf
get_var_extra bytes ch lo more rest e h0 h =
    rw (read_buf-append lo (more ++ rest), e, read_buf-append more rest) (ground arith)

get_var_joined :
    (bytes m e ch : ℕ) (x rest : Bytes)
    → length x ≡ m + e
    → extra_bytes ch ≡ e
    → 0 < e
    → suc m + e ≤ bytes
    → get_var bytes (suc m) (ch ∷ (x ++ rest)) ≡ ok (x ++ (bit_and ch (2 ^ (8 - e) - 1) ∷ []), rest)
get_var_joined bytes m e ch x rest hx he h0 hb =
    simp (length_lo, length_more, ← append_assoc, take-append-drop m x) at
      (get_var_extra bytes ch (take m x) (drop m x) rest (he ∙ sym length_more)
        (omega (arith, length_more)) (omega (arith, length_lo, length_more)))
  where
    length_lo : length (take m x) ≡ m
    length_lo = omega (arith, length-take m x)

    length_more : length (drop m x) ≡ e
    length_more = omega (arith, length-drop m x)

-- What `get_var` reads from `put_var`: bytes of the same value.
abbrev ReadsBack : Bytes → ℕ → ℕ → Bytes → Type 0
ReadsBack b size m rest =
    (r : Bytes) × (get_var (size + 1) (suc m) (put_var b size (suc m) ++ rest) ≡ ok (r, rest))
    × (le_value (take size r) ≡ le_value b)

module _ (b rest : Bytes) (size m n : ℕ) (sizes : length b ≡ size) (bytes : AreBytes b)
    (few : size ≤ m + 6) (used : used_bytes b (suc m) size ≡ suc n) (lo : m ≤ n)
    (hi : n < size) where
  value : le_value (take (suc n) b) ≡ le_value b
  value =
      rw (used, take-le b size (omega arith)) at (le_value-used_bytes b (suc m) size (omega arith))

  top_lt : get_or b n 0 < 256
  top_lt = get_or-lt b n bytes

  -- The top byte leaves no room for the length: one more byte is announced than is used.
  put_full :
      leb (2 ^ (8 - (suc n - m))) (get_or b n 0) ≡ true
      → put_var b size (suc m) ≡ (255 - (2 ^ (8 - (suc n - m)) - 1)) ∷ take (suc n) b
  unfolding put_var
  put_full full =
      let exponent : 7 + suc m - suc n ≡ 8 - (suc n - m) = omega arith in
      let top : suc n - 1 ≡ n = omega arith in rw (used, exponent, top, full) refl

  full_case : leb (2 ^ (8 - (suc n - m))) (get_or b n 0) ≡ true → ReadsBack b size m rest
  full_case full =
      let (announced, zero_bits) = full_head (suc n - m) (omega arith) (omega arith) in
      let long : length (take (suc n) b) ≡ suc n = omega (arith, length-take (suc n) b) in
      (
        take (suc n) b ++ (0 ∷ []),
        rw
            (
              put_full full,
              get_var_joined (size + 1) m (suc n - m) _ (take (suc n) b) rest (omega (arith, long))
                  announced (omega arith) (omega arith),
              zero_bits,
            )
            refl,
        le_value-take_zero (take (suc n) b) size (omega (arith, long)) ∙ value,
      )

  -- The top byte shares the first byte with the length.
  put_shared :
      leb (2 ^ (8 - (suc n - m))) (get_or b n 0) ≡ false
      → m < n
      → put_var b size (suc m)
        ≡ bit_or (get_or b n 0) (255 - (2 ^ (7 - (n - m)) * 2 - 1)) ∷ take n b
  unfolding put_var
  put_shared full more =
      let exponent : 7 + suc m - suc n ≡ 8 - (suc n - m) = omega arith in
      let exponent' : 8 - (suc n - m) ≡ 7 - (n - m) = omega arith in
      let top : suc n - 1 ≡ n = omega arith in
      let test : ltb (suc m) (suc n) ≡ true = ground arith in
      rw (used, exponent, top, full, test, exponent') refl

  put_plain :
      leb (2 ^ (8 - (suc n - m))) (get_or b n 0) ≡ false
      → n ≡ m
      → put_var b size (suc m) ≡ get_or b n 0 ∷ take n b
  unfolding put_var
  put_plain full same =
      let exponent : 7 + suc m - suc n ≡ 8 - (suc n - m) = omega arith in
      let top : suc n - 1 ≡ n = omega arith in
      let test : ltb (suc m) (suc n) ≡ false = ground arith in
      rw (used, exponent, top, full, test) refl

  long_lo : length (take n b) ≡ n
  long_lo = omega (arith, length-take n b)

  shared_value : le_value (take size (take n b ++ (get_or b n 0 ∷ []))) ≡ le_value b
  shared_value =
      rw
        (
          ← take-suc b n (omega arith),
          take-le (take (suc n) b) size (omega (arith, length-take (suc n) b)),
        )
        value

  top_small : leb (2 ^ (8 - (suc n - m))) (get_or b n 0) ≡ false → get_or b n 0 < 2 ^ (7 - (n - m))
  top_small full =
      let exponent : 8 - (suc n - m) ≡ 7 - (n - m) = omega arith in
      leb-false _ _ (rw exponent at full)

  shared_read :
      leb (2 ^ (8 - (suc n - m))) (get_or b n 0) ≡ false
      → m < n
      → get_var (size + 1) (suc m) (put_var b size (suc m) ++ rest)
        ≡ ok (take n b ++ (get_or b n 0 ∷ []), rest)
  shared_read full more =
      let (announced, top) =
        inner_head (n - m) (get_or b n 0) (omega arith) (omega arith) (top_small full)
          (omega (arith, top_small full, pow_le (7 - (n - m)) (omega arith))) in
      rw
        (
          put_shared full more,
          get_var_joined (size + 1) m (n - m) _ (take n b) rest (omega (arith, long_lo)) announced
              (omega arith) (omega arith),
          top,
        )
        refl

  plain_read :
      leb (2 ^ (8 - (suc n - m))) (get_or b n 0) ≡ false
      → n ≡ m
      → get_var (size + 1) (suc m) (put_var b size (suc m) ++ rest)
        ≡ ok (take n b ++ (get_or b n 0 ∷ []), rest)
  plain_read full same =
      let low : get_or b n 0 < 128 =
        omega (arith, top_small full, pow_le (7 - (n - m)) (omega arith)) in
      rw (put_plain full same) (
        rw (long_lo ∙ same) at
          (get_var_plain (size + 1) (get_or b n 0) (take n b) rest (plain_head _ low)))

  small_case : leb (2 ^ (8 - (suc n - m))) (get_or b n 0) ≡ false → ReadsBack b size m rest
  small_case full = elim (Bool-cases (ltb m n)) [
    | inl more ↦ (take n b ++ (get_or b n 0 ∷ []), shared_read full (ltb→lt _ _ more), shared_value)
    | inr same ↦ (take n b ++ (get_or b n 0 ∷ []), plain_read full (ground arith), shared_value)
  ]

  reads_back : ReadsBack b size m rest
  reads_back = elim (Bool-cases (leb (2 ^ (8 - (suc n - m))) (get_or b n 0))) [
    | inl full ↦ full_case full
    | inr full ↦ small_case full
  ]

get_var-put_var :
    (b rest : Bytes) (size m : ℕ)
    → length b ≡ size
    → AreBytes b
    → m < size
    → size ≤ m + 6
    → ReadsBack b size m rest
get_var-put_var b rest size m sizes bytes h few =
    let (lo, hi) = used_bytes_bounds b (suc m) size h in
    reads_back b rest size m (used_bytes b (suc m) size - 1) sizes bytes few (omega arith)
      (omega arith) (omega arith)

-- `read_varint` returns every int32 that `write_varint` sends, and leaves the bytes behind it.
pub read_varint-write_varint :
    (x : ℤ) (rest : Bytes) → IsI32 x → read_varint (write_varint x ++ rest) ≡ ok (x, rest)
unfolding read_varint write_varint ival
read_varint-write_varint x rest h =
    let (r, read, value) =
      get_var-put_var (sival (u32_of x)) rest 4 0 (length-sival (u32_of x))
        (sival-AreBytes (u32_of x)) (omega arith) (omega arith) in
    rw (read, value, le_value-sival (u32_of x) (u32_of-lt x), i32_of-u32_of x h) refl

-- `read_varlong` returns every int64 that `write_varlong` sends with the same `min_bytes`, for each
-- `min_bytes` from 3 to 8, and leaves the bytes behind it.
pub read_varlong-write_varlong :
    (x : ℤ) (min_bytes : ℕ) (rest : Bytes)
    → IsI64 x
    → 3 ≤ min_bytes
    → min_bytes ≤ 8
    → read_varlong min_bytes (write_varlong x min_bytes ++ rest) ≡ ok (x, rest)
unfolding read_varlong write_varlong ival64
read_varlong-write_varlong x zero rest h lo hi = absurd (omega arith)
read_varlong-write_varlong x (suc m) rest h lo hi =
    let (r, read, value) =
      get_var-put_var (sival64 (u64_of x)) rest 8 m (length-sival64 (u64_of x))
        (sival64-AreBytes (u64_of x)) (omega arith) (omega arith) in
    rw (read, value, le_value-sival64 (u64_of x) (u64_of-lt x), i64_of-u64_of x h) refl

-- ===== src/Blocks.antt =====
-- generator.c and sender.c: the block list of the receiver's file, made, sent and read back.
-- `get_checksum2` is the strong checksum in use. Not modelled: the copy of the file that
-- `generate_and_send_sums` writes with `f_copy`.
pub mod Laws
use rsync_wrapper.Prelude.{
  ℕ, zero, suc, ◌+◌, ◌-◌, ◌*◌, ◌/◌, ◌%◌, ◌^◌, ltb, ◌==◌, if◌then◌else◌, not, ◌&&◌, ◌||◌,
}
use rsync_wrapper.Prelude.{
  Bool, true, false, Bytes, List, [], ◌∷◌, ◌++◌, take, length, min, max, none, Option, some,
}
use rsync_wrapper.Prelude.{Result, ok, ◌>>=◌}
use rsync_wrapper.Io.Word.{Read, read_buf, read_int, write_int, u32_of, i32_of}
use rsync_wrapper.Io.SumHead.{SumHead, Protocol, read_sum_head, write_sum_head, max_blength}
use rsync_wrapper.FileMap.{mapped_bytes}
use rsync_wrapper.Checksum.{get_checksum1}
use rsync_wrapper.Match.{SumBuf, SumStruct}

-- The options that choose the block size: `--block-size` or 0, and SHORT_SUM_LENGTH or SUM_LENGTH.
abbrev pub block_size_default : ℕ
block_size_default = 700

abbrev pub sum_length : ℕ
sum_length = 16

-- `for (c = 1, l = len; l >>= 2; c <<= 1) {}`: each round divides `l` by 4. More rounds than `l` are enough.
unfoldable pub power_loop : ℕ → ℕ → ℕ → ℕ
power_loop zero l c = c
power_loop (suc fuel) l c = elim (l / 4 == 0) [ true ↦ c | false ↦ power_loop fuel (l / 4) (c * 2) ]

-- `do { blength |= c; ...; c >>= 1; } while (c >= 8)`: bit by bit, kept where the square fits in `len`.
unfoldable pub root_loop : ℕ → ℕ → ℕ → ℕ → ℕ
root_loop zero len c blength = blength
root_loop (suc fuel) len c blength =
    let tried = blength + c in
    let kept = (if ltb len (tried * tried) then blength else tried) in
    elim (ltb (c / 2) 8) [ true ↦ kept | false ↦ root_loop fuel len (c / 2) kept ]

unfoldable pub block_length : ℕ → Protocol → ℕ → ℕ
unfolding power_loop root_loop max_blength
block_length block_size p len =
    let c = power_loop len len 1 in
    if not (block_size == 0)
    then block_size
    else if ltb (block_size_default * block_size_default) len
    then (if ltb c (max_blength p)
        then max (root_loop c len c 0) block_size_default
        else max_blength p)
    else block_size_default

-- `for (l = len; l >>= 1; b += 2) {}`
unfoldable pub bits_up : ℕ → ℕ → ℕ → ℕ
bits_up zero l b = b
bits_up (suc fuel) l b = elim (l / 2 == 0) [ true ↦ b | false ↦ bits_up fuel (l / 2) (b + 2) ]

-- `for (c = blength; (c >>= 1) && b; b--) {}`
unfoldable pub bits_down : ℕ → ℕ → ℕ → ℕ
bits_down zero c b = b
bits_down (suc fuel) c b = elim (c / 2 == 0 || b == 0) [
  | true ↦ b
  | false ↦ bits_down fuel (c / 2) (b - 1)
]

-- The length of the strong checksums that are sent: at least `csum_length`, at most SUM_LENGTH. Where the
-- source's quotient is not positive, `csum_length` is larger.
unfoldable pub digest_length : Protocol → ℕ → ℕ → ℕ
unfolding bits_up bits_down
digest_length p len blength =
    let b = bits_down blength blength (bits_up len len 10) in
    if ltb p.version 27
    then p.csum_length
    else if p.csum_length == sum_length
    then sum_length
    else min (max ((b + 1 + 7 - 32) / 8) p.csum_length) sum_length

-- `sum_sizes_sqroot`; none where the count does not fit an int32, and the file is sent without a list.
unfoldable pub sum_sizes_sqroot : ℕ → Protocol → ℕ → Option SumHead
unfolding block_length digest_length
sum_sizes_sqroot block_size p len =
    let blength = block_length block_size p len in
    let remainder = len % blength in
    let count = len / blength + (if remainder == 0 then 0 else 1) in
    if ltb count (2 ^ 31)
    then some (record {
      count = count;
      blength = blength;
      s2length = digest_length p len blength;
      remainder = remainder;
    })
    else none

module _ (get_checksum2 : Bytes → Bytes) where
  -- The loop of `generate_and_send_sums`: `len` is what is left of the file from `offset` on.
  unfoldable pub send_sums : ℕ → SumHead → Bytes → ℕ → ℕ → Bytes
  send_sums zero sum file offset len = []
  send_sums (suc n) sum file offset len =
      let n1 = min len sum.blength in
      let map = mapped_bytes file offset n1 in
      write_int (i32_of (get_checksum1 map))
      ++ (take sum.s2length (get_checksum2 map) ++ send_sums n sum file (offset + n1) (len - n1))

  -- `generate_and_send_sums`: the bytes sent, or none for its error.
  unfoldable pub generate_and_send_sums : ℕ → Protocol → ℕ → Bytes → Option Bytes
  unfolding send_sums
  generate_and_send_sums block_size p append_mode file =
      elim (sum_sizes_sqroot block_size p (length file)) [
        | none ↦ none
        | some sum ↦ some (
            write_sum_head p sum
            ++ (if append_mode == 0 then send_sums sum.count sum file 0 (length file) else []))
      ]

-- The loop of `receive_sums` from block i on, with `n` blocks to come.
unfoldable pub read_sums : ℕ → SumHead → ℕ → ℕ → Read (List SumBuf × ℕ)
read_sums zero sum i offset bs = ok (([], offset), bs)
read_sums (suc n) sum i offset bs = do
  (sum1, bs1) ← read_int bs
  (sum2, bs2) ← read_buf sum.s2length bs1
  let len = (if suc i == sum.count && not (sum.remainder == 0) then sum.remainder else sum.blength)
  ((more, flength), bs3) ← read_sums n sum (suc i) (offset + len) bs2
  ok (
    (
      record {
        offset = offset;
        len = len;
        sum1 = u32_of sum1;
        chain = none;
        same_offset = false;
        sum2 = sum2;
      }
          ∷ more,
      flength,
    ),
    bs3,
  )

unfoldable pub list_length : SumHead → ℕ
list_length sum =
    if sum.remainder == 0
    then sum.count * sum.blength
    else sum.count * sum.blength - (sum.blength - sum.remainder)

-- The block list with the fields of the header.
unfoldable pub made_struct : SumHead → List SumBuf → ℕ → SumStruct
made_struct sum sums flength = record {
  flength = flength;
  sums = sums;
  count = sum.count;
  blength = sum.blength;
  remainder = sum.remainder;
  s2length = sum.s2length;
}

-- `receive_sums`. With no blocks the source leaves `flength` unset; here it is 0.
unfoldable pub receive_sums : ℕ → Protocol → ℕ → Read SumStruct
unfolding read_sums list_length made_struct
receive_sums max_digest_len p append_mode bs = do
  (sum, bs1) ← read_sum_head max_digest_len p bs
  if append_mode == 0
      then (do
        ((sums, flength), bs2) ← read_sums sum.count sum 0 0 bs1
        ok (made_struct sum sums flength, bs2))
      else ok (made_struct sum [] (list_length sum), bs1)

-- ===== src/Blocks/Laws.antt =====
-- generator.c and sender.c: the block list that the generator sends is the one that the sender gets.
use rsync_wrapper.Prelude.{
  ℕ, zero, suc, ◌+◌, ◌-◌, ◌*◌, ◌/◌, ◌%◌, ◌^◌, ◌≤◌, ◌<◌, ◌≡◌, refl, arith, ◌==◌, if◌then◌else◌, ◌≢◌,
}
use rsync_wrapper.Prelude.{
  false, List, Bytes, [], ◌∷◌, ◌++◌, length, append_assoc, some, none, ok, ◌>>=◌, min, ap, ◌∙◌, sym,
}
use rsync_wrapper.Prelude.{take, length-take, Bool-cases, inl, inr}
use rsync_wrapper.Io.Word.{read_buf, read_int, write_int, i32_of, IsI32}
use rsync_wrapper.Io.Word.Laws.{read_buf-append, read_int-write_int, u32_of-i32_of}
use rsync_wrapper.Io.SumHead.{SumHead, Protocol, max_blength, write_sum_head}
use rsync_wrapper.Io.SumHead.Laws.{IsSendable, read_sum_head-write_sum_head}
use rsync_wrapper.FileMap.{mapped_bytes}
use rsync_wrapper.Checksum.{get_checksum1}
use rsync_wrapper.Checksum.Laws.{get_checksum1-lt}
use rsync_wrapper.Match.{SumBuf}
use rsync_wrapper.Receive.{block_len}
use rsync_wrapper.Blocks.{
  block_length, sum_sizes_sqroot, send_sums, generate_and_send_sums, read_sums, receive_sums,
  made_struct,
}

-- The length of the last `n` blocks.
unfoldable pub left : SumHead → ℕ → ℕ
left sum zero = 0
left sum (suc zero) = if sum.remainder == 0 then sum.blength else sum.remainder
left sum (suc (suc n)) = sum.blength + left sum (suc n)

module _ (get_checksum2 : Bytes → Bytes) (sum : SumHead) (file : Bytes) where
  -- Block i of the file.
  unfoldable pub block : ℕ → Bytes
  block i = mapped_bytes file (i * sum.blength) (block_len sum i)

  -- What the list says of block i: where it stands, how long it is, and its two checksums.
  unfoldable pub entry : ℕ → SumBuf
  entry i = record {
    offset = i * sum.blength;
    len = block_len sum i;
    sum1 = get_checksum1 (block i);
    chain = none;
    same_offset = false;
    sum2 = take sum.s2length (get_checksum2 (block i));
  }

  -- The list of the blocks from block i on.
  unfoldable pub described : ℕ → ℕ → List SumBuf
  unfolding entry
  described zero i = []
  described (suc n) i = entry i ∷ described n (suc i)

i32_of-IsI32 : (w : ℕ) → w < 2 ^ 32 → IsI32 (i32_of w)
unfolding i32_of
i32_of-IsI32 w h = ground arith

length-take_full : (n : ℕ) (b : Bytes) → n ≤ length b → length (take n b) ≡ n
length-take_full n b h = omega (arith, length-take n b)

read_buf-take :
    (n : ℕ) (b rest : Bytes) → n ≤ length b → read_buf n (take n b ++ rest) ≡ ok (take n b, rest)
read_buf-take n b rest h = rw (length-take_full n b h) at (read_buf-append (take n b) rest)

read_int-get_checksum1 :
    (b rest : Bytes)
    → read_int (write_int (i32_of (get_checksum1 b)) ++ rest) ≡ ok (i32_of (get_checksum1 b), rest)
read_int-get_checksum1 b rest =
    read_int-write_int (i32_of (get_checksum1 b)) rest
      (i32_of-IsI32 (get_checksum1 b) (get_checksum1-lt b))

-- The length that the two sides take a block for.
block_len-left :
    (sum : SumHead) (n i len : ℕ)
    → i + suc n ≡ sum.count
    → len ≡ left sum (suc n)
    → sum.remainder ≤ sum.blength
    → (min len sum.blength ≡ block_len sum i) × (len ≡ block_len sum i + left sum n)
unfolding left block_len
block_len-left sum zero i len hc hl hr = (ground arith, ground arith)
block_len-left sum (suc n) i len hc hl hr = (ground arith, ground arith)

block_len-inner :
    (sum : SumHead) (n i : ℕ) → i + suc n ≡ sum.count → n ≢ 0 → block_len sum i ≡ sum.blength
unfolding block_len
block_len-inner sum n i hc hn = ground arith

module _ (get_checksum2 : Bytes → Bytes) (sum : SumHead) (file : Bytes)
    (long : (b : Bytes) → sum.s2length ≤ length (get_checksum2 b))
    (small : sum.remainder ≤ sum.blength) where
  -- One round of the reading loop.
  read_sums_step :
      (n i offset : ℕ) (b more : Bytes)
      → read_sums
          (suc n)
          sum
          i
          offset
          (write_int (i32_of (get_checksum1 b)) ++ (take sum.s2length (get_checksum2 b) ++ more))
        ≡ (read_sums n sum (suc i) (offset + block_len sum i) more >>= λ x. ok (
          (
            record {
              offset = offset;
              len = block_len sum i;
              sum1 = get_checksum1 b;
              chain = none;
              same_offset = false;
              sum2 = take sum.s2length (get_checksum2 b);
            }
                ∷ x.0.0,
            x.0.1,
          ),
          x.1,
        ))
  unfolding read_sums block_len
  read_sums_step n i offset b more =
      rw
        (
          read_int-get_checksum1 b (take sum.s2length (get_checksum2 b) ++ more),
          read_buf-take sum.s2length (get_checksum2 b) more (long b),
          u32_of-i32_of (get_checksum1 b) (get_checksum1-lt b),
        )
        refl

  -- One round of the sending loop.
  send_sums_step :
      (n offset len : ℕ) (rest : Bytes)
      → send_sums get_checksum2 (suc n) sum file offset len ++ rest
        ≡ write_int (i32_of (get_checksum1 (mapped_bytes file offset (min len sum.blength))))
          ++ (take sum.s2length (get_checksum2 (mapped_bytes file offset (min len sum.blength)))
              ++ (send_sums get_checksum2 n sum file
                    (offset + min len sum.blength)
                    (len - min len sum.blength)
                  ++ rest))
  unfolding send_sums
  send_sums_step n offset len rest = rw (append_assoc, append_assoc) refl

  pub read_sums-send_sums :
      (n i offset len : ℕ) (rest : Bytes)
      → i + n ≡ sum.count
      → (n ≢ 0 → offset ≡ i * sum.blength)
      → len ≡ left sum n
      → read_sums n sum i offset (send_sums get_checksum2 n sum file offset len ++ rest)
        ≡ ok ((described get_checksum2 sum file n i, offset + len), rest)
  read_sums-send_sums zero i offset len rest hc ho hl =
      let e : offset ≡ offset + len = unfold left in omega arith in
      unfold read_sums send_sums described in ap (λ (o : ℕ). ok (([], o), rest)) e
  read_sums-send_sums (suc n) i offset len rest hc ho hl =
      let (e, e') = block_len-left sum n i len hc hl small in
      let there : offset ≡ i * sum.blength = ho (λ z. cc z) in
      let after : len - min len sum.blength ≡ left sum n = omega arith in
      let next : n ≢ 0 → offset + min len sum.blength ≡ suc i * sum.blength =
        λ hn. omega (arith, block_len-inner sum n i hc hn) in
      let total : offset + min len sum.blength + (len - min len sum.blength) ≡ offset + len =
        omega arith in
      let more =
        read_sums-send_sums n (suc i) (offset + min len sum.blength) (len - min len sum.blength)
          rest (omega arith) next after in
      rw
        (
          send_sums_step n offset len rest,
          read_sums_step n i offset (mapped_bytes file offset (min len sum.blength)) (
              send_sums get_checksum2 n sum file (offset + min len sum.blength)
                (len - min len sum.blength)
              ++ rest),
          ← e,
          more,
        )
        (unfold described entry block in rw (total, e, there) refl)

-- The lengths of the blocks add up to the length of the file.
left_whole : (sum : SumHead) (n : ℕ) → sum.remainder ≡ 0 → left sum n ≡ n * sum.blength
unfolding left
left_whole sum zero h = omega arith
left_whole sum (suc zero) h = ground arith
left_whole sum (suc (suc n)) h = omega (arith, left_whole sum (suc n) h)

left_part :
    (sum : SumHead) (n : ℕ) → sum.remainder ≢ 0 → left sum (suc n) ≡ n * sum.blength + sum.remainder
unfolding left
left_part sum zero h = ground arith
left_part sum (suc n) h = omega (arith, left_part sum n h)

-- The head describes a file of length `len`.
pub record Covers (sum : SumHead) (len : ℕ) : Type 0 where
  pub small : sum.remainder ≤ sum.blength
  pub covered : left sum sum.count ≡ len

block_length-pos : (block_size : ℕ) (p : Protocol) (len : ℕ) → 0 < block_length block_size p len
unfolding block_length max_blength
block_length-pos block_size p len = ground arith

-- The sizes chosen for a file cover it.
Covers-len :
    (sum : SumHead) (len : ℕ)
    → 0 < sum.blength
    → sum.remainder ≡ len % sum.blength
    → sum.count ≡ len / sum.blength + (if sum.remainder == 0 then 0 else 1)
    → Covers sum len
Covers-len sum len pos hr hc = elim (Bool-cases (sum.remainder == 0)) [
  | inl whole ↦
      let none_left : sum.remainder ≡ 0 = ground arith in
      let q : sum.count ≡ len / sum.blength = ground arith in
      record {
        small = omega arith;
        covered =
            left_whole sum sum.count none_left ∙ ap (λ (n : ℕ). n * sum.blength) q ∙ omega arith;
      }
  | inr part ↦
      let some_left : sum.remainder ≢ 0 = ground arith in
      let q : sum.count ≡ suc (len / sum.blength) = ground arith in
      record {
        small = omega arith;
        covered = ap (left sum) q ∙ left_part sum (len / sum.blength) some_left ∙ omega arith;
      }
]

pub sum_sizes_sqroot-Covers :
    (block_size : ℕ) (p : Protocol) (len : ℕ) {sum : SumHead}
    → sum_sizes_sqroot block_size p len ≡ some sum
    → (0 < sum.blength) × Covers sum len
unfolding sum_sizes_sqroot
sum_sizes_sqroot-Covers block_size p len {sum = sum} h =
    let pos : 0 < sum.blength = ground (arith, block_length-pos block_size p len) in
    (pos, Covers-len sum len pos (ground arith) (ground arith))

-- The block list that the generator sends for a file of any length, with any block size, is the list
-- that the sender gets: one entry for each block, with its place, its length, and the two checksums of
-- its bytes; and what follows it is left in the stream. The head that was chosen must be one that may be
-- sent, and the digest at least as long as the part of it that is sent.
pub receive_sums-generate_and_send_sums :
    (get_checksum2 : Bytes → Bytes) (block_size max_digest_len : ℕ) (p : Protocol)
    (file rest : Bytes) (sum : SumHead)
    → sum_sizes_sqroot block_size p (length file) ≡ some sum
    → IsSendable max_digest_len p sum
    → ((b : Bytes) → sum.s2length ≤ length (get_checksum2 b))
    → (sent : Bytes) × (generate_and_send_sums get_checksum2 block_size p 0 file ≡ some sent)
      × (receive_sums max_digest_len p 0 (sent ++ rest)
          ≡ ok (made_struct sum (described get_checksum2 sum file sum.count 0) (length file), rest))
unfolding generate_and_send_sums receive_sums
receive_sums-generate_and_send_sums get_checksum2 block_size max_digest_len p file rest sum h
      sendable long =
    let (pos, covers) = sum_sizes_sqroot-Covers block_size p (length file) h in
    let sums = send_sums get_checksum2 sum.count sum file 0 (length file) in
    let list =
      read_sums-send_sums get_checksum2 sum file long covers.small sum.count 0 0 (length file) rest
        (omega arith) (λ _. omega arith) (sym covers.covered) in
    let nothing_before : 0 + length file ≡ length file = omega arith in
    (
      write_sum_head p sum ++ sums,
      rw (generate_and_send_sums, h) refl,
      rw
          (
            append_assoc (write_sum_head p sum) sums rest,
            read_sum_head-write_sum_head max_digest_len p sum (sums ++ rest) sendable,
            list,
            ap (λ (l : ℕ). made_struct sum (described get_checksum2 sum file sum.count 0) l)
                nothing_before,
          )
          refl,
    )

-- ===== src/Transfer/Sent.antt =====
-- match.c and receiver.c: what the sender has sent so far is what the receiver has written so far.
use rsync_wrapper.Prelude.{
  ℕ, zero, suc, ◌+◌, ◌-◌, ◌*◌, ◌^◌, ◌≤◌, ◌<◌, ◌≡◌, refl, arith, min, sym, ◌∙◌,
}
use rsync_wrapper.Prelude.{List, Bytes, [], ◌++◌, append_assoc}
use rsync_wrapper.Prelude.Int.{ℤ, pos, negsuc}
use rsync_wrapper.Io.Word.{write_int}
use rsync_wrapper.Io.SumHead.{SumHead}
use rsync_wrapper.FileMap.{mapped_bytes, mapped_bytes_join}
use rsync_wrapper.Token.{chunk_size}
use rsync_wrapper.Match.{SumBuf, Sender, sums_len, token_len, sum_chunks, matched}
use rsync_wrapper.Receive.{Job, block_len}
use rsync_wrapper.Receive.Steps.{IsPlain, Gets, Gets-trans}
use rsync_wrapper.Receive.Stream.{Gets-token, Gets-data, Gets-end}
use native.Mathlib.Decide.{dec_lt}

-- In chunks or not, `sum_update` gets the same bytes.
sum_chunks_more :
    (fuel : ℕ) (buf : Bytes) (from n j : ℕ)
    → j < n
    → sum_chunks (suc fuel) buf from n j
      ≡ mapped_bytes buf (from + j) (min chunk_size (n - j))
        ++ sum_chunks fuel buf from n (j + chunk_size)
unfolding sum_chunks
sum_chunks_more fuel buf from n j h = ground arith

sum_chunks_done :
    (fuel : ℕ) (buf : Bytes) (from n j : ℕ) → n ≤ j → sum_chunks fuel buf from n j ≡ []
unfolding sum_chunks
sum_chunks_done zero buf from n j h = refl
sum_chunks_done (suc fuel) buf from n j h = ground arith

mapped_bytes_none : (buf : Bytes) (o n : ℕ) → n ≡ 0 → mapped_bytes buf o n ≡ []
unfolding mapped_bytes
mapped_bytes_none buf o n e = rw e refl

sum_chunks_join :
    (fuel : ℕ) (buf : Bytes) (from n j : ℕ)
    → n - j ≤ fuel
    → sum_chunks fuel buf from n j ≡ mapped_bytes buf (from + j) (n - j)
sum_chunks_join zero buf from n j h =
    sum_chunks_done zero buf from n j (omega arith)
    ∙ sym (mapped_bytes_none buf (from + j) (n - j) (omega arith))
sum_chunks_join (suc fuel) buf from n j h = elim (dec_lt j n) [
  | yes more ↦
      sum_chunks_more fuel buf from n j more
      ∙ rw (sum_chunks_join fuel buf from n (j + chunk_size) (omega arith)) (
          mapped_bytes_join buf (from + j) (min chunk_size (n - j)) (from + (j + chunk_size))
            (n - (j + chunk_size)) (n - j) (omega arith) (λ z. omega arith))
  | no done ↦
      sum_chunks_done (suc fuel) buf from n j (omega arith)
      ∙ sym (mapped_bytes_none buf (from + j) (n - j) (omega arith))
]

-- The bytes that one call of `matched` adds.
matched_heard :
    (buf : Bytes) (sums : List SumBuf) (offset : ℕ) (i : ℤ) (g : Sender)
    → g.last_match ≤ offset
    → g.summed ≡ mapped_bytes buf 0 g.last_match
    → (matched buf sums offset i g).summed ≡ mapped_bytes buf 0 (offset + token_len sums i)
unfolding matched
matched_heard buf sums offset i g h e =
    let n = offset - g.last_match + token_len sums i in
    let at : g.last_match + 0 ≡ g.last_match = omega arith in
    let left : n - 0 ≡ n = omega arith in
    rw (sum_chunks_join n buf g.last_match n 0 (omega arith), at, left, e)
      (mapped_bytes_join buf 0 g.last_match g.last_match n (offset + token_len sums i) (omega arith)
        (λ z. omega arith))

pub last_match-matched :
    (buf : Bytes) (sums : List SumBuf) (offset i : ℕ) (g : Sender)
    → (matched buf sums offset (pos i) g).last_match ≡ offset + sums_len sums i
unfolding matched
last_match-matched buf sums offset i g = refl

pub last_match-matched_data :
    (buf : Bytes) (sums : List SumBuf) (offset i : ℕ) (g : Sender)
    → (matched buf sums offset (negsuc i) g).last_match ≡ offset
unfolding matched
last_match-matched_data buf sums offset i g = omega arith

module _ (job : Job) (sum : SumHead) (basis buf : Bytes) (plain : IsPlain job sum basis) where
  -- The receiver, given what was sent, has the file up to `last_match`, and both have summed that much.
  pub record IsSent (g : Sender) : Type 0 where
    pub delivered :
        (rest : Bytes)
        → Gets job sum basis [] (g.out ++ rest) (mapped_bytes buf 0 g.last_match) rest
    pub heard : g.summed ≡ mapped_bytes buf 0 g.last_match

  up_to :
      (lm offset : ℕ)
      → lm ≤ offset
      → mapped_bytes buf 0 lm ++ mapped_bytes buf lm (offset - lm) ≡ mapped_bytes buf 0 offset
  up_to lm offset h =
      mapped_bytes_join buf 0 lm lm (offset - lm) offset (omega arith) (λ z. omega arith)

  -- Literal data up to `offset`.
  pub matched_data-IsSent :
      (sums : List SumBuf) (offset : ℕ) (g : Sender)
      → g.last_match ≤ offset
      → IsSent g
      → IsSent (matched buf sums offset (negsuc 1) g)
  unfolding matched
  matched_data-IsSent sums offset g h s =
      let all : offset + 0 ≡ offset = omega arith in
      record {
        delivered = λ rest.
            rw (append_assoc, all, ← up_to g.last_match offset h)
              (Gets-trans job sum basis (s.delivered _) (
                Gets-data job sum basis plain (mapped_bytes buf 0 g.last_match) buf rest
                  g.last_match (offset - g.last_match)));
        heard = matched_heard buf sums offset (negsuc 1) g h s.heard;
      }

  -- Literal data up to `offset`, and a block that is the data that follows.
  pub matched_block-IsSent :
      (sums : List SumBuf) (offset i : ℕ) (g : Sender)
      → g.last_match ≤ offset
      → i < 2 ^ 31
      → mapped_bytes buf offset (sums_len sums i)
        ≡ mapped_bytes basis (i * sum.blength) (block_len sum i)
      → IsSent g
      → IsSent (matched buf sums offset (pos i) g)
  unfolding matched
  matched_block-IsSent sums offset i g h hi same s = record {
    delivered = λ rest.
        rw
          (
            append_assoc,
            ← mapped_bytes_join buf 0 offset offset (sums_len sums i) (offset + sums_len sums i)
                (omega arith) (λ z. omega arith),
            ← up_to g.last_match offset h,
            same,
          )
          (Gets-trans job sum basis (s.delivered _) (
            Gets-token job sum basis plain (mapped_bytes buf 0 g.last_match) buf rest i g.last_match
              (offset - g.last_match) hi));
    heard = matched_heard buf sums offset (pos i) g h s.heard;
  }

  -- Literal data up to the end of the file, and the end token.
  pub matched_end :
      (sums : List SumBuf) (offset : ℕ) (g : Sender) (rest : Bytes)
      → g.last_match ≤ offset
      → IsSent g
      → Gets job sum basis []
          ((matched buf sums offset (negsuc 0) g).out ++ rest)
          (mapped_bytes buf 0 offset)
          (write_int (pos 0) ++ rest)
  unfolding matched
  matched_end sums offset g rest h s =
      rw (append_assoc, ← up_to g.last_match offset h)
        (Gets-trans job sum basis (s.delivered _) (
          Gets-end job sum basis plain (mapped_bytes buf 0 g.last_match) buf rest g.last_match
            (offset - g.last_match)))

  pub matched_end_heard :
      (sums : List SumBuf) (offset : ℕ) (g : Sender)
      → g.last_match ≤ offset
      → IsSent g
      → (matched buf sums offset (negsuc 0) g).summed ≡ mapped_bytes buf 0 offset
  unfolding token_len
  matched_end_heard sums offset g h s =
      let all : offset + 0 ≡ offset = omega arith in
      rw (matched_heard buf sums offset (negsuc 0) g h s.heard) (rw all refl)

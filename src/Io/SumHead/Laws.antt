-- ===== src/Io/SumHead/Laws.antt =====
-- io.c: the header that is written is read back, and what is read is in range.
use rsync_wrapper.Prelude.{ℕ, ◌^◌, ◌≤◌, ◌<◌, ◌≡◌, arith, ltb, Bool-cases, inl, inr, true}
use rsync_wrapper.Prelude.{Bytes, ◌++◌, append_assoc, ok}
use rsync_wrapper.Prelude.Int.{ℤ, pos, negsuc}
use rsync_wrapper.Io.Word.{write_int}
use rsync_wrapper.Io.Word.Laws.{read_int-write_int}
use rsync_wrapper.Io.SumHead.{SumHead, Protocol, max_blength, checked, checked_count}
use rsync_wrapper.Io.SumHead.{read_sum_head, write_sum_head}

-- The ranges that `read_sum_head` enforces.
pub record InRange (max_digest_len : ℕ) (p : Protocol) (h : SumHead) : Type 0 where
  pub block : h.blength ≤ max_blength p
  pub digest : h.s2length ≤ max_digest_len
  pub rest : h.remainder ≤ h.blength

-- What a writer must keep to: the ranges, counts that an int32 holds, and before protocol 27 the
-- agreed digest length, which does not travel.
pub record IsSendable (max_digest_len : ℕ) (p : Protocol) (h : SumHead) : Type 0 where
  pub ranges : InRange max_digest_len p h
  pub count_fits : h.count < 2 ^ 31
  pub digest_fits : h.s2length < 2 ^ 31
  pub agreed : ltb p.version 27 ≡ true → p.csum_length ≡ h.s2length

checked-eq-ok : (limit : ℕ) (x : ℤ) {n : ℕ} → checked limit x ≡ ok n → n ≤ limit
unfolding checked
checked-eq-ok limit (pos m) h = ground arith
checked-eq-ok limit (negsuc m) h = cc

checked-pos : (limit n : ℕ) → n ≤ limit → checked limit (pos n) ≡ ok n
unfolding checked
checked-pos limit n h = ground arith

max_blength_fits : (p : Protocol) → max_blength p < 2 ^ 31
unfolding max_blength
max_blength_fits p = ground arith

-- Whatever the other side sends, a header that `read_sum_head` accepts is in range.
pub read_sum_head-InRange :
    (max_digest_len : ℕ) (p : Protocol) (bs : Bytes) {h : SumHead} {rest : Bytes}
    → read_sum_head max_digest_len p bs ≡ ok (h, rest)
    → InRange max_digest_len p h
unfolding read_sum_head
read_sum_head-InRange max_digest_len p bs e = record {
  block = ground (arith);
  digest = ground arith;
  rest = ground arith;
}

-- A sendable header is read back as it was written, and the bytes behind it stay.
pub read_sum_head-write_sum_head :
    (max_digest_len : ℕ) (p : Protocol) (h : SumHead) (rest : Bytes)
    → IsSendable max_digest_len p h
    → read_sum_head max_digest_len p (write_sum_head p h ++ rest) ≡ ok (h, rest)
unfolding read_sum_head write_sum_head checked_count
read_sum_head-write_sum_head max_digest_len p h rest s = elim (Bool-cases (ltb p.version 27)) [
  | inl old ↦
      simp (append_assoc, old)
        (ground (
          arith,
          s.agreed old,
          max_blength_fits p,
          read_int-write_int (pos h.count)
              (write_int (pos h.blength) ++ (write_int (pos h.remainder) ++ rest)),
          read_int-write_int (pos h.blength) (write_int (pos h.remainder) ++ rest),
          read_int-write_int (pos h.remainder) rest,
          checked-pos (max_blength p) h.blength,
          checked-pos max_digest_len h.s2length,
          checked-pos h.blength h.remainder,
        ))
  | inr new ↦
      simp (append_assoc, new)
        (ground (
          arith,
          max_blength_fits p,
          read_int-write_int (pos h.count) (
              write_int (pos h.blength)
              ++ (write_int (pos h.s2length) ++ (write_int (pos h.remainder) ++ rest))),
          read_int-write_int (pos h.blength)
              (write_int (pos h.s2length) ++ (write_int (pos h.remainder) ++ rest)),
          read_int-write_int (pos h.s2length) (write_int (pos h.remainder) ++ rest),
          read_int-write_int (pos h.remainder) rest,
          checked-pos (max_blength p) h.blength,
          checked-pos max_digest_len h.s2length,
          checked-pos h.blength h.remainder,
        ))
]

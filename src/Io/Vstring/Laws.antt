-- ===== src/Io/Vstring/Laws.antt =====
-- io.c: a string that is sent is read back, or refused by the size of the buffer.
use rsync_wrapper.Prelude.{ℕ, ◌≤◌, ◌≡◌, arith, leb, ltb, Bytes, ◌++◌, length, append_assoc}
use rsync_wrapper.Prelude.{none, some, ok, Bool-cases, inl, inr, if◌then◌else◌}
use rsync_wrapper.Io.Word.{read_byte, read_buf}
use rsync_wrapper.Io.Word.Laws.{read_buf-append}
use rsync_wrapper.Io.Vstring.{length_bytes, write_vstring, read_length, read_vstring}

read_length-length_bytes :
    (len : ℕ) (rest : Bytes) → len ≤ 32767 → read_length (length_bytes len ++ rest) ≡ ok (len, rest)
unfolding read_length length_bytes read_byte read_buf
read_length-length_bytes len rest h = elim (Bool-cases (ltb 127 len)) [
  | inl long ↦ ground arith
  | inr short ↦ ground arith
]

-- What is read behind a length, by the size of the buffer.
read_vstring-length :
    (str : Bytes) (bufsize : ℕ) (bs rest : Bytes)
    → read_length bs ≡ ok (length str, str ++ rest)
    → read_vstring bufsize bs
      ≡ (if leb bufsize (length str) then ok (none, str ++ rest) else ok (some str, rest))
unfolding read_vstring
read_vstring-length str bufsize bs rest e = elim (Bool-cases (leb bufsize (length str))) [
  | inl over ↦ ground (arith, e)
  | inr fits ↦ ground (arith, e, read_buf-append str rest)
]

-- Every string of at most 0x7FFF bytes is sent, and `read_vstring` returns it whole if it is shorter than
-- the buffer; otherwise it returns -1 and leaves the string in the stream. What follows is left in the
-- stream in both cases.
pub read_vstring-write_vstring :
    (str : Bytes) (bufsize : ℕ) (rest : Bytes)
    → length str ≤ 32767
    → (sent : Bytes) × (write_vstring str ≡ ok sent)
      × (read_vstring bufsize (sent ++ rest)
          ≡ (if leb bufsize (length str) then ok (none, str ++ rest) else ok (some str, rest)))
unfolding write_vstring
read_vstring-write_vstring str bufsize rest h = (
  length_bytes (length str) ++ str,
  ground arith,
  read_vstring-length str bufsize ((length_bytes (length str) ++ str) ++ rest) rest (
      rw (append_assoc (length_bytes (length str)) str rest)
        (read_length-length_bytes (length str) (str ++ rest) h)),
)

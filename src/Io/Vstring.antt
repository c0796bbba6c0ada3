-- ===== src/Io/Vstring.antt =====
-- io.c: strings with their length in one or two bytes.
pub mod Laws
use rsync_wrapper.Prelude.{
  ℕ, ◌+◌, ◌-◌, ◌*◌, ◌/◌, ◌%◌, ltb, leb, if◌then◌else◌, Bytes, [], ◌∷◌, ◌++◌, length,
}
use rsync_wrapper.Prelude.{
  Bool, true, false, Option, none, some, Result, ok, exit, rerr_protocol, ◌>>=◌,
}
use rsync_wrapper.Io.Word.{Read, read_byte, read_buf}

-- The bytes of the length. `*lb = len` keeps the low byte.
unfoldable pub length_bytes : ℕ → Bytes
length_bytes len = if ltb 127 len then (len / 256 + 128) ∷ len % 256 ∷ [] else len ∷ []

-- `write_vstring`. A string above 0x7FFF ends the process.
unfoldable pub write_vstring : Bytes → Result Bytes
unfolding length_bytes
write_vstring str =
    if ltb 32767 (length str) then exit rerr_protocol else ok (length_bytes (length str) ++ str)

-- The length, in its second byte too if the first has its high bit set.
unfoldable pub read_length : Read ℕ
read_length bs = do
  (first, bs1) ← read_byte bs
  elim (leb 128 first) [
    | false ↦ ok (first, bs1)
    | true ↦ do (second, bs2) ← read_byte bs1; ok ((first - 128) * 256 + second, bs2)
  ]

-- `read_vstring`: none for its result -1, where the string is left in the stream.
unfoldable pub read_vstring : ℕ → Read (Option Bytes)
unfolding read_length
read_vstring bufsize bs = do
  (len, bs1) ← read_length bs
  elim (leb bufsize len) [
    | true ↦ ok (none, bs1)
    | false ↦ do (str, bs2) ← read_buf len bs1; ok (some str, bs2)
  ]

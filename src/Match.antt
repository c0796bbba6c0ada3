-- ===== src/Match.antt =====
-- match.c: the sender's search for blocks of the receiver's file.
-- The static counters and `last_match` are a record that the functions pass on, with the bytes written
-- to the connection (`out`) and the bytes given to `sum_update` (`summed`). `chain` and the hash table
-- hold `none` where the source holds -1. The file `buf` of length `len` is a list of bytes.
pub mod Table
pub mod Search
pub mod Chains
pub mod Scan
pub mod Send
use rsync_wrapper.Prelude.{ℕ, zero, suc, ◌+◌, ◌-◌, ltb, if◌then◌else◌, Bool, true, false, min}
use rsync_wrapper.Prelude.{Bytes, List, [], ◌∷◌, ◌++◌, Option, none, some, get_elem?}
use rsync_wrapper.Prelude.Int.{ℤ, pos, negsuc}
use rsync_wrapper.FileMap.{mapped_bytes}
use rsync_wrapper.Token.{chunk_size, simple_send_token}

-- struct sum_buf
pub record SumBuf : Type 0 where
  pub offset : ℕ
  pub len : ℕ
  pub sum1 : ℕ
  pub chain : Option ℕ
  pub same_offset : Bool
  pub sum2 : Bytes

-- struct sum_struct
pub record SumStruct : Type 0 where
  pub flength : ℕ
  pub sums : List SumBuf
  pub count : ℕ
  pub blength : ℕ
  pub remainder : ℕ
  pub s2length : ℕ

pub record Sender : Type 0 where
  pub last_match : ℕ
  pub false_alarms : ℕ
  pub hash_hits : ℕ
  pub matches : ℕ
  pub data_transfer : ℕ
  pub matched_data : ℕ
  pub out : Bytes
  pub summed : Bytes

-- `s->sums[i].len`; the source reads it only for i below `count`.
unfoldable pub sums_len : List SumBuf → ℕ → ℕ
sums_len [] i = 0
sums_len (e ∷ sums) zero = e.len
sums_len (e ∷ sums) (suc i) = sums_len sums i

-- `i < 0 ? 0 : s->sums[i].len`
unfoldable pub token_len : List SumBuf → ℤ → ℕ
unfolding sums_len
token_len sums (pos i) = sums_len sums i
token_len sums (negsuc i) = 0

-- The loop of `matched` that gives `n` bytes from `from` on to `sum_update`, from `j` on, in chunks. Each
-- round takes a byte at least, so `n` rounds are enough.
unfoldable pub sum_chunks : ℕ → Bytes → ℕ → ℕ → ℕ → Bytes
sum_chunks zero buf from n j = []
sum_chunks (suc fuel) buf from n j = elim (ltb j n) [
  | false ↦ []
  | true ↦
      let n1 = min chunk_size (n - j) in
      mapped_bytes buf (from + j) n1 ++ sum_chunks fuel buf from n (j + chunk_size)
]

-- `matched`: the literal data from `last_match` up to `offset`, and the token i.
unfoldable pub matched : Bytes → List SumBuf → ℕ → ℤ → Sender → Sender
unfolding token_len sum_chunks
matched buf sums offset i g =
    let n = offset - g.last_match in
    let toklen = token_len sums i in
    record g {
      out = g.out ++ simple_send_token i buf g.last_match n;
      data_transfer = g.data_transfer + n;
      matched_data = g.matched_data + toklen;
      summed = g.summed ++ sum_chunks (n + toklen) buf g.last_match (n + toklen) 0;
      last_match = offset + toklen;
    }

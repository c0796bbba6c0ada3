-- ===== src/Match/Send.antt =====
-- match.c: `match_sums`, one file from start to checksum. `sum_end` is the digest of the bytes given to
-- `sum_update`, in the checksum in use and with its seed. `read_error` is `buf && buf->status != 0`.
use rsync_wrapper.Prelude.{
  ℕ, zero, suc, ◌+◌, ◌-◌, ltb, ◌==◌, if◌then◌else◌, Bool, true, false, ◌&&◌,
}
use rsync_wrapper.Prelude.{Bytes, [], ◌∷◌, ◌++◌, length, replicate, Result, ok, ◌>>=◌}
use rsync_wrapper.Prelude.Int.{negsuc}
use rsync_wrapper.FileMap.{mapped_bytes}
use rsync_wrapper.Token.{chunk_size}
use rsync_wrapper.Match.{SumStruct, Sender, matched}
use rsync_wrapper.Match.Table.{build_hash_table}
use rsync_wrapper.Match.Scan.{hash_search}

-- The counters at the start of a file. `out` holds what this file adds to the connection.
abbrev pub fresh_sender : Sender
fresh_sender = record {
  last_match = 0;
  false_alarms = 0;
  hash_hits = 0;
  matches = 0;
  data_transfer = 0;
  matched_data = 0;
  out = [];
  summed = [];
}

-- The loop over the part of the file that is there already (`append_mode == 2`): the bytes for
-- `sum_update` from `last_match` on. Each round takes a byte at least.
unfoldable pub sum_prefix : ℕ → Bytes → ℕ → ℕ → ℕ → Bytes
sum_prefix zero buf flength j last_match = mapped_bytes buf last_match (flength - last_match)
sum_prefix (suc fuel) buf flength j last_match = elim (ltb j flength) [
  | true ↦ mapped_bytes buf last_match chunk_size ++ sum_prefix fuel buf flength (j + chunk_size) j
  | false ↦ mapped_bytes buf last_match (flength - last_match)
]

-- The part under `if (append_mode > 0)`.
unfoldable pub skip_prefix : ℕ → SumStruct → Bytes → Sender → SumStruct × Sender
unfolding sum_prefix
skip_prefix zero s buf g = (s, g)
skip_prefix (suc mode) s buf g =
    let seen =
      (if mode == 1 then sum_prefix s.flength buf s.flength chunk_size g.last_match else []) in
    (record s { count = 0 }, record g { summed = g.summed ++ seen; last_match = s.flength })

-- `for (j = last_match + CHUNK_SIZE; j < len; j += CHUNK_SIZE)`: each round sends a chunk.
unfoldable pub send_chunks : ℕ → SumStruct → Bytes → ℕ → Sender → Sender
send_chunks zero s buf j g = g
send_chunks (suc fuel) s buf j g = elim (ltb j (length buf)) [
  | true ↦ send_chunks fuel s buf (j + chunk_size) (matched buf s.sums j (negsuc 1) g)
  | false ↦ g
]

unfoldable pub all_zero : Bytes → Bool
all_zero [] = true
all_zero (b ∷ sum) = b == 0 && all_zero sum

-- A checksum that is not the file's: zeros, or a final 1 if the file's is all zeros. A digest has a byte at
-- least: for none the source would write before the buffer, here a byte is added.
unfoldable pub spoil : Bytes → Bytes
unfolding all_zero
spoil sum =
    if all_zero sum then replicate (length sum - 1) 0 ++ (1 ∷ []) else replicate (length sum) 0

module _ (get_checksum2 sum_end : Bytes → Bytes) (updating : Bool) where
  -- The tokens of the file.
  unfoldable pub send_file : SumStruct → Bytes → Sender → Result Sender
  unfolding send_chunks
  send_file s buf g =
      if ltb 0 (length buf) && ltb 0 s.count
      then hash_search get_checksum2 updating buf s (build_hash_table s) g
      else ok (
          matched buf s.sums (length buf) (negsuc 0)
            (send_chunks (length buf) s buf (g.last_match + chunk_size) g))

  unfoldable pub match_sums : ℕ → Bool → SumStruct → Bytes → Result Sender
  unfolding send_file skip_prefix spoil
  match_sums append_mode read_error s buf =
      let (s', g) = skip_prefix append_mode s buf fresh_sender in
      do
        g' ← send_file s' buf g
        let sum = sum_end g'.summed
        ok (record g' { out = g'.out ++ (if read_error then spoil sum else sum) })

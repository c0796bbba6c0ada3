-- ===== src/Match/Scan.antt =====
-- match.c: `hash_search` and `match_sums`.
use rsync_wrapper.Prelude.{
  ℕ, zero, suc, ◌+◌, ◌-◌, ◌%◌, ltb, leb, ◌==◌, if◌then◌else◌, Bool, true, false, min,
}
use rsync_wrapper.Prelude.{Bytes, List, none, some, get_or, length, ◌&&◌}
use rsync_wrapper.Prelude.{Result, ok, exit, stuck, ◌>>=◌}
use rsync_wrapper.Prelude.Int.{pos, negsuc}
use rsync_wrapper.FileMap.{mapped_bytes}
use rsync_wrapper.Token.{chunk_size}
use rsync_wrapper.Checksum.{get_checksum1, join_sums, low_sum, high_sum, trim_first, add_next}
use rsync_wrapper.Match.{SumBuf, SumStruct, Sender, sums_len, matched}
use rsync_wrapper.Match.Table.{HashTable, sum2hash2, tablesize, traditional_tablesize}
use rsync_wrapper.Match.Search.{slot, Window, Choice, walk, settle_offset, check_want}

-- The variables of the main loop.
pub record Scan : Type 0 where
  pub offset : ℕ
  pub k : ℕ
  pub s1 : ℕ
  pub s2 : ℕ
  pub want_i : ℕ
  pub aligned_offset : ℕ
  pub aligned_i : ℕ
  pub sums : List SumBuf
  pub table : HashTable
  pub sender : Sender

-- `hash_entry`, from the two sums or from their join.
unfoldable pub hash_entry : ℕ → ℕ → ℕ → ℕ
unfolding sum2hash2
hash_entry size s1 s2 =
    if size == traditional_tablesize then sum2hash2 s1 s2 else join_sums s1 s2 % size

-- A window of at most `blength` bytes at `offset`, with its sums.
unfoldable pub restart : Bytes → ℕ → ℕ → ℕ → Scan → Scan
restart buf len blength offset st =
    let k = min blength (len - offset) in
    let sum = get_checksum1 (mapped_bytes buf offset k) in
    record st { offset = offset; k = k; s1 = low_sum sum; s2 = high_sum sum }

module _ (get_checksum2 : Bytes → Bytes) (updating : Bool) (buf : Bytes) (s : SumStruct) where
  -- The block is sent, and the window goes to its last byte. Blocks have a positive length.
  unfoldable pub send_match : Choice → Scan → Scan
  unfolding restart
  send_match c st =
      let g = matched buf c.sums c.offset (pos c.i) st.sender in
      let after_match : Scan = record st {
        want_i = c.i + 1;
        aligned_offset = c.aligned_offset;
        aligned_i = c.aligned_i;
        sums = c.sums;
        sender = record g { matches = g.matches + 1 };
      } in
      restart buf (length buf) s.blength (c.offset + sums_len c.sums c.i - 1) after_match

  unfoldable pub take_found : Window → ℕ → Scan → Result Scan
  unfolding send_match
  take_found w i st = do
    c ← settle_offset get_checksum2 buf s updating (length buf) w (record {
      i = i;
      offset = w.offset;
      sum = w.sum;
      sum2 = w.sum2;
      want_i = st.want_i;
      aligned_offset = st.aligned_offset;
      aligned_i = st.aligned_i;
      sums = st.sums;
    })
    ok (send_match (check_want get_checksum2 buf s updating c) st)

  -- The body of the main loop up to `null_hash`.
  unfoldable pub try_match : Scan → Result Scan
  try_match st =
      let entry = hash_entry (tablesize s.count) st.s1 st.s2 in
      let l = min s.blength (length buf - st.offset) in
      let w : Window = record {
        offset = st.offset;
        l = l;
        sum = join_sums st.s1 st.s2;
        sum2 = get_checksum2 (mapped_bytes buf st.offset l);
      } in
      let g = st.sender in
      elim (st.table entry) [
        | none ↦ ok st
        | some i ↦ do
          (hit, c) ←
              walk updating s.s2length w (suc i) (some i) (slot entry)
                (record { sums = st.sums; table = st.table; false_alarms = g.false_alarms })
          let st' : Scan = record st {
            sums = c.sums;
            table = c.table;
            sender = record g { hash_hits = g.hash_hits + 1; false_alarms = c.false_alarms };
          }
          elim hit [ none ↦ ok st' | some j ↦ take_found w j st' ]
      ]

  -- From `null_hash` to the end of the body: the window moves by one byte, and a long run of literal
  -- data is sent. `last` is the source's `end`.
  unfoldable pub advance : ℕ → Scan → Scan
  advance last st =
      let backup = st.offset - st.sender.last_match in
      let more = ltb (st.offset + st.k) (length buf) in
      let trimmed = trim_first st.k (get_or buf st.offset 0) (st.s1, st.s2) in
      let next = add_next (get_or buf (st.offset + st.k) 0) trimmed in
      let sums : ℕ × ℕ = (if more then next else trimmed) in
      let flushed = matched buf st.sums (st.offset - s.blength) (negsuc 1) st.sender in
      record st {
        offset = st.offset + 1;
        k = (if more then st.k else st.k - 1);
        s1 = sums.0;
        s2 = sums.1;
        sender =
            (if leb (s.blength + chunk_size) backup && ltb (st.offset + chunk_size) last
              then flushed
              else st.sender);
      }

  -- `do ... while (++offset < end)`. Each round moves on by a byte at least, so more rounds than bytes
  -- are enough.
  unfoldable pub scan_loop : ℕ → ℕ → Scan → Result Scan
  scan_loop zero last st = exit stuck
  scan_loop (suc fuel) last st = do
    st' ← try_match st
    let st'' = advance last st'
    elim (ltb st''.offset last) [ true ↦ scan_loop fuel last st'' | false ↦ ok st'' ]

  unfoldable pub hash_search : List SumBuf × HashTable → Sender → Result Sender
  hash_search (sums, table) g =
      let start : Scan = record {
        offset = 0;
        k = 0;
        s1 = 0;
        s2 = 0;
        want_i = 0;
        aligned_offset = 0;
        aligned_i = 0;
        sums = sums;
        table = table;
        sender = g;
      } in
      let len = length buf in
      do
        st ←
            scan_loop (len + 1) (len + 1 - sums_len sums (s.count - 1))
              (restart buf len s.blength 0 start)
        ok (matched buf st.sums len (negsuc 0) st.sender)

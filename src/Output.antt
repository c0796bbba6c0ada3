-- ===== src/Output.antt =====
-- fileio.c: writing a file, through the write buffer or, for sparse files, around its zeros. The file is a list of
-- bytes with a position. What `write` returns is a parameter; a call that returns -1 is `exit rerr_fileio`,
-- with which `receive_data` leaves then.
pub mod Zeros
pub mod Laws
pub mod Sparse
pub mod Whole
use rsync_wrapper.Prelude.{
  ℕ, zero, suc, ◌+◌, ◌-◌, ◌*◌, min, ltb, leb, ◌==◌, if◌then◌else◌, Bool, true, false, not, ◌&&◌,
}
use rsync_wrapper.Prelude.{
  Bytes, List, [], ◌∷◌, ◌++◌, length, take, drop, replicate, Result, ok, exit, stuck, rerr_fileio,
  ◌>>=◌,
}
use rsync_wrapper.Receive.{write_at}

pub record Setup : Type 0 where
  pub sparse_files : Bool
  pub preallocated_len : ℕ
  pub write_count : ℕ → ℕ → ℕ

-- The file and its position, and the static variables. `buffer` is the used part of `wf_writeBuf`.
pub record Out : Type 0 where
  pub dest : Bytes
  pub position : ℕ
  pub buffer : Bytes
  pub sparse_seek : ℕ
  pub sparse_past_write : ℕ

-- WRITE_SIZE * 8 and SPARSE_WRITE_SIZE.
abbrev pub write_buf_size : ℕ
write_buf_size = 262144

abbrev pub sparse_write_size : ℕ
sparse_write_size = 1024

-- A `write` of these bytes.
unfoldable pub written : Bytes → Out → Out
unfolding write_at
written d o = record o { dest = write_at o.dest o.position d; position = o.position + length d }

-- `flush_write_file`. Each round writes a byte.
unfoldable pub flush_loop : ℕ → Setup → Out → Result Out
unfolding written
flush_loop zero setup o = exit stuck
flush_loop (suc fuel) setup o = elim (length o.buffer == 0) [
  | true ↦ ok o
  | false ↦
      let n = setup.write_count o.position (length o.buffer) in
      flush_loop fuel setup (record (written (take n o.buffer) o) { buffer = drop n o.buffer })
]

unfoldable pub flush_write_file : Setup → Out → Result Out
unfolding flush_loop
flush_write_file setup o = flush_loop (length o.buffer + 1) setup o

-- `l1`, and `l2` on what is behind the first `l1` bytes.
unfoldable pub leading_zeros : Bytes → ℕ
leading_zeros [] = 0
leading_zeros (c ∷ d) = let more = leading_zeros d in if c == 0 then suc more else 0

unfoldable pub trailing_zeros : Bytes → ℕ
trailing_zeros [] = 0
trailing_zeros (c ∷ d) =
    let l2 = trailing_zeros d in if l2 == length d && c == 0 then suc l2 else l2

-- `do_punch_hole` on a file system that can: zeros there, the size kept, and the position moved, which must
-- come out behind the hole.
unfoldable pub do_punch_hole : ℕ → ℕ → Out → Result Out
do_punch_hole start len o =
    if o.position + len == start + len
    then ok (record o {
      dest =
          take start o.dest
          ++ (replicate (min len (length o.dest - start)) 0 ++ drop (start + len) o.dest);
      position = o.position + len;
    })
    else exit rerr_fileio

-- `if (sparse_seek)`
unfoldable pub pass_zeros : Setup → Out → Result Out
unfolding do_punch_hole
pass_zeros setup o =
    if o.sparse_seek == 0
    then ok o
    else if leb setup.preallocated_len o.sparse_past_write
    then ok (record o { position = o.position + o.sparse_seek })
    else do_punch_hole o.sparse_past_write o.sparse_seek o

-- `while ((ret = write(f, buf + l1, len - (l1+l2))) <= 0)`, with the number of bytes of `buf` that are done.
unfoldable pub write_data : Setup → ℕ → ℕ → Bytes → Out → Result (ℕ × Out)
unfolding written
write_data setup len l1 d o =
    let n = setup.write_count o.position (length d) in
    if n == 0
    then exit rerr_fileio
    else if n == length d
    then ok (len, written d o)
    else ok (l1 + n, record (written (take n d) o) { sparse_seek = 0 })

unfoldable pub write_sparse : Setup → Bool → ℕ → Bytes → Out → Result (ℕ × Out)
unfolding leading_zeros trailing_zeros pass_zeros write_data
write_sparse setup use_seek offset buf o =
    let len = length buf in
    let l1 = leading_zeros buf in
    let l2 = trailing_zeros (drop l1 buf) in
    let d = take (len - (l1 + l2)) (drop l1 buf) in
    if l1 == len then ok (len, record o { sparse_seek = o.sparse_seek + l1 }) else (do
      o1 ← pass_zeros setup (record o { sparse_seek = o.sparse_seek + l1 })
      let o2 = record o1 { sparse_seek = l2; sparse_past_write = offset + len - l2 }
      (if use_seek
          then ok (len, record o2 { position = o2.position + length d })
          else write_data setup len l1 d o2))

-- A round of `write_file` without sparse files: what fits in the buffer, which is written when it is full.
unfoldable pub buffered : Setup → Bytes → Out → Result (ℕ × Out)
unfolding flush_write_file
buffered setup buf o = do
  let r1 = min (length buf) (write_buf_size - length o.buffer)
  let o1 = record o { buffer = o.buffer ++ take r1 buf }
  o2 ← (if length o1.buffer == write_buf_size then flush_write_file setup o1 else ok o1)
  ok (r1, o2)

unfoldable pub write_some : Setup → Bool → ℕ → Bytes → Out → Result (ℕ × Out)
unfolding write_sparse buffered
write_some setup use_seek offset buf o =
    if setup.sparse_files
    then write_sparse setup use_seek offset (take sparse_write_size buf) o
    else buffered setup buf o

-- `while (len > 0)`. Each round takes a byte, or empties a full buffer.
unfoldable pub write_loop : ℕ → Setup → Bool → ℕ → Bytes → Out → Result Out
unfolding write_some
write_loop zero setup use_seek offset buf o = exit stuck
write_loop (suc fuel) setup use_seek offset buf o = elim (length buf == 0) [
  | true ↦ ok o
  | false ↦ elim (write_some setup use_seek offset buf o) [
    | exit e ↦ exit e
    | ok (r1, o') ↦ write_loop fuel setup use_seek (offset + r1) (drop r1 buf) o'
  ]
]

unfoldable pub write_file : Setup → Bool → ℕ → Bytes → Out → Result Out
unfolding write_loop
write_file setup use_seek offset buf o = write_loop (2 * length buf + 1) setup use_seek offset buf o

-- `sparse_end`, with `ftruncate`.
unfoldable pub sparse_end : ℕ → Out → Out
sparse_end size o = if o.sparse_seek == 0 then record o { sparse_past_write = 0 } else record o {
  dest = take size o.dest ++ replicate (size - length o.dest) 0;
  sparse_seek = 0;
  sparse_past_write = 0;
}

-- How `receive_data` ends the writing of `offset` bytes.
unfoldable pub finish : Setup → ℕ → Out → Result Out
unfolding sparse_end flush_write_file
finish setup offset o =
    if offset == 0
    then ok o
    else if setup.sparse_files
    then ok (sparse_end offset o)
    else flush_write_file setup o

-- ===== src/Receive.antt =====
-- receiver.c: `receive_data`, which rebuilds one file from its tokens.
-- The file written is a list of bytes with a file position. Writes and seeks succeed, and go to the file at once:
-- Output has the buffer and the sparse writing of `write_file`. No preallocation is in use. The file is no
-- device, and a mapped file that is written in place is read as it stands.
pub mod Steps
pub mod Stream
use rsync_wrapper.Prelude.{
  ℕ, zero, suc, ◌+◌, ◌-◌, ◌*◌, ltb, ◌==◌, if◌then◌else◌, Bool, true, false, not, ◌&&◌, ◌||◌,
}
use rsync_wrapper.Prelude.{Bytes, [], ◌∷◌, ◌++◌, length, take, drop, replicate, Option, none, some}
use rsync_wrapper.Prelude.{Result, ok, exit, stuck, rerr_fileio, ◌>>=◌}
use rsync_wrapper.Prelude.Int.{ℤ, pos, negsuc}
use rsync_wrapper.Io.Word.{read_buf}
use rsync_wrapper.Io.SumHead.{SumHead, Protocol, read_sum_head}
use rsync_wrapper.FileMap.{mapped_bytes}
use rsync_wrapper.Token.{chunk_size, simple_recv_token}
use rsync_wrapper.Match.Search.{bytes_eq}
use rsync_wrapper.Match.Send.{sum_prefix}

-- What `receive_data` is called with. `basis` is the mapped file, if it has any length; it is the file
-- written if `updating` (`updating_basis_or_equiv`) holds. `writing` is `fd != -1`.
pub record Job : Type 0 where
  pub basis : Option Bytes
  pub updating : Bool
  pub writing : Bool
  pub inplace_sizing : Bool
  pub append_mode : ℕ

pub record Receiver : Type 0 where
  pub residue : ℕ
  pub offset : ℕ
  pub position : ℕ
  pub dest : Bytes
  pub literal_data : ℕ
  pub matched_data : ℕ
  pub summed : Bytes

-- A write at the file position. A gap behind the end of the file reads as zeros.
unfoldable pub write_at : Bytes → ℕ → Bytes → Bytes
write_at dest position d =
    take position dest
    ++ (replicate (position - length dest) 0 ++ (d ++ drop (position + length d) dest))

-- A call of `write_file`, as the file is once its buffer is written.
unfoldable pub put_data : Job → Bytes → Receiver → Receiver
unfolding write_at
put_data job d r =
    if job.writing
    then record r { dest = write_at r.dest r.position d; position = r.position + length d }
    else r

-- `fd` is the file of `mapbuf` if the file is updated in place.
unfoldable pub mapped_file : Job → Receiver → Option Bytes
mapped_file job r = elim job.basis [
  | none ↦ none
  | some b ↦ some (if job.updating then r.dest else b)
]

-- `skip_matched`: the data is in place, and the file position moves over it.
unfoldable pub skip_matched : ℕ → Receiver → Result Receiver
skip_matched len r =
    if r.position + len == r.offset + len
    then ok (record r { position = r.position + len })
    else exit rerr_fileio

-- A block of the basis file, of length `len`. Without a basis only the offset moves.
unfoldable pub place_block : Job → ℕ → ℕ → Option Bytes → Receiver → Result Receiver
unfolding put_data skip_matched
place_block job offset2 len map r =
    if job.updating && (r.offset == offset2 && job.writing)
    then skip_matched len r
    else ok (elim map [ none ↦ r | some file ↦ put_data job (mapped_bytes file offset2 len) r ])

unfoldable pub sum_block : ℕ → ℕ → Option Bytes → Receiver → Receiver
sum_block offset2 len none r = record r { matched_data = r.matched_data + len }
sum_block offset2 len (some file) r = record r {
  matched_data = r.matched_data + len;
  summed = r.summed ++ mapped_bytes file offset2 len;
}

unfoldable pub copy_block : Job → ℕ → ℕ → Receiver → Result Receiver
unfolding place_block sum_block mapped_file
copy_block job offset2 len r = do
  let map = mapped_file job r
  r' ← place_block job offset2 len map (sum_block offset2 len map r)
  ok (record r' { offset = r'.offset + len })

unfoldable pub block_len : SumHead → ℕ → ℕ
block_len sum i =
    if suc i == sum.count && not (sum.remainder == 0) then sum.remainder else sum.blength

-- Literal data of the length that the token gives.
unfoldable pub take_literal : Job → ℕ → Bytes → Receiver → Receiver
unfolding put_data
take_literal job n d r =
    let r' =
      put_data job d (record r { literal_data = r.literal_data + n; summed = r.summed ++ d }) in
    record r' { offset = r'.offset + n }

-- The body of the loop, for a token that is not 0.
unfoldable pub receive_token : Job → SumHead → ℤ → Bytes → Receiver → Result Receiver
unfolding take_literal copy_block block_len
receive_token job sum (pos n) d r = ok (take_literal job n d r)
receive_token job sum (negsuc i) d r = copy_block job (i * sum.blength) (block_len sum i) r

unfoldable pub is_end : ℤ → Bool
is_end (pos zero) = true
is_end (pos (suc n)) = false
is_end (negsuc n) = false

-- `while ((i = recv_token(f_in, &data)) != 0)`. Each token takes a byte at least.
unfoldable pub receive_loop : ℕ → Job → SumHead → Receiver → Bytes → Result (Receiver × Bytes)
unfolding receive_token is_end
receive_loop zero job sum r bs = exit stuck
receive_loop (suc fuel) job sum r bs = do
  (t, rest) ← simple_recv_token r.residue bs
  elim (is_end t.value) [
    | true ↦ ok (r, rest)
    | false ↦ do
      r' ← receive_token job sum t.value t.content (record r { residue = t.residue })
      receive_loop fuel job sum r' rest
  ]

-- `do_ftruncate(fd, offset)`
unfoldable pub truncate_to : Job → Receiver → Receiver
truncate_to job r =
    if job.inplace_sizing && job.writing
    then record r { dest = take r.offset r.dest ++ replicate (r.offset - length r.dest) 0 }
    else r

-- The length that the block list stands for.
unfoldable pub head_length : SumHead → ℕ
head_length sum =
    if sum.remainder == 0
    then sum.count * sum.blength
    else sum.count * sum.blength - (sum.blength - sum.remainder)

abbrev pub fresh_receiver : Job → Receiver
fresh_receiver job = record {
  residue = 0;
  offset = 0;
  position = 0;
  dest = elim job.basis [ none ↦ [] | some b ↦ if job.updating then b else [] ];
  literal_data = 0;
  matched_data = 0;
  summed = [];
}

-- The part under `if (append_mode > 0)`.
unfoldable pub seen_prefix : ℕ → ℕ → Option Bytes → Bytes
unfolding sum_prefix
seen_prefix flength mode none = []
seen_prefix flength mode (some file) =
    if mode == 1 then sum_prefix flength file flength chunk_size 0 else []

unfoldable pub seek_end : ℕ → SumHead → Option Bytes → Receiver → Receiver
unfolding seen_prefix head_length
seek_end zero sum map r = r
seek_end (suc mode) sum map r =
    let flength = head_length sum in
    record r {
      summed = r.summed ++ seen_prefix flength mode map;
      offset = flength;
      position = flength;
    }

-- `receive_data`: the file as it is written, and whether its checksum is the sender's. `sum_end` is the
-- digest of the bytes given to `sum_update`, `sum_len` its length.
unfoldable pub receive_data :
    (Bytes → Bytes) → ℕ → ℕ → Protocol → Job → Bytes → Result ((Receiver × Bool) × Bytes)
receive_data sum_end sum_len max_digest_len p job bs = do
  (sum, rest) ← read_sum_head max_digest_len p bs
  let r = fresh_receiver job
  (r', rest') ←
      receive_loop (length rest + 1) job sum (seek_end job.append_mode sum (mapped_file job r) r)
        rest
  (file_sum, rest'') ← read_buf sum_len rest'
  ok ((truncate_to job r', not job.writing || bytes_eq (sum_end r'.summed) file_sum), rest'')

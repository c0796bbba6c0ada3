-- ===== src/FileMap/Window.antt =====
-- fileio.c: `map_file` and `map_ptr`, the window that slides over a file. `p` holds the bytes of the buffer that
-- are filled. What `read` returns is a parameter, as is the position of the descriptor, `fd`, which the system keeps.
use rsync_wrapper.Prelude.{
  ℕ, zero, suc, ◌+◌, ◌-◌, ◌*◌, ◌/◌, ◌%◌, ltb, leb, ◌==◌, if◌then◌else◌, Bool, true, false, not,
  ◌&&◌,
}
use rsync_wrapper.Prelude.{
  Bytes, [], ◌++◌, take, drop, replicate, Option, none, some, Result, ok, exit, stuck, rerr_fileio,
  ◌>>=◌,
}
use rsync_wrapper.FileMap.{mapped_bytes}

pub record MapStruct : Type 0 where
  pub file_size : ℕ
  pub p_offset : ℕ
  pub p_fd_offset : ℕ
  pub p : Bytes
  pub p_len : ℕ
  pub p_size : ℕ
  pub def_window_size : ℕ
  pub status : Bool
  pub fd : ℕ

-- ALIGNED_OVERSHOOT and ALIGNED_LENGTH, with the masks of 10 bits written as division by 1024.
unfoldable pub aligned_overshoot : ℕ → ℕ
aligned_overshoot offset = offset % 1024

unfoldable pub aligned_length : ℕ → ℕ
aligned_length len = if len == 0 then 0 else ((len - 1) / 1024 + 1) * 1024

-- `map_file`, for a descriptor at its start.
unfoldable pub map_file : ℕ → ℕ → ℕ → MapStruct
unfolding aligned_length
map_file len read_size blk_size =
    let over = read_size % blk_size in
    let whole =
      (if not (blk_size == 0) && not (over == 0)
        then read_size + (blk_size - over)
        else read_size) in
    record {
      file_size = len;
      p_offset = 0;
      p_fd_offset = 0;
      p = [];
      p_len = 0;
      p_size = 0;
      def_window_size = aligned_length whole;
      status = false;
      fd = 0;
    }

-- `offset >= map->p_offset && offset+len <= map->p_offset+map->p_len`
unfoldable pub available : MapStruct → ℕ → ℕ → Bool
available map offset len = leb map.p_offset offset && leb (offset + len) (map.p_offset + map.p_len)

-- The desired window.
unfoldable pub window_size : MapStruct → ℕ → ℕ → ℕ
unfolding aligned_overshoot aligned_length
window_size map offset len =
    let align_fudge = aligned_overshoot offset in
    let window_start = offset - align_fudge in
    let size =
      (if ltb map.file_size (window_start + map.def_window_size)
        then map.file_size - window_start
        else map.def_window_size) in
    if ltb size (len + align_fudge) then aligned_length (len + align_fudge) else size

-- Whether the end of the old window is the start of the new one.
unfoldable pub reuses : MapStruct → ℕ → ℕ → Bool
reuses map window_start size =
    leb map.p_offset window_start
    && (ltb window_start (map.p_offset + map.p_len)
        && leb (map.p_offset + map.p_len) (window_start + size))

-- What the loop over `read` leaves: the buffer, the number of bytes read and the status.
pub record Filled : Type 0 where
  pub bytes : Bytes
  pub count : ℕ
  pub failed : Bool

-- `while (read_size > 0)`. `read_count at size` is what `read` returns there, 0 for an error as for the end of
-- the file. Each round takes a byte.
unfoldable pub read_loop : ℕ → Bytes → (ℕ → ℕ → ℕ) → Filled → ℕ → ℕ → Result Filled
unfolding mapped_bytes
read_loop zero file read_count st size fd = exit stuck
read_loop (suc fuel) file read_count st size fd = elim (size == 0) [
  | true ↦ ok st
  | false ↦ elim (read_count fd size == 0) [
    | true ↦ ok (record { bytes = st.bytes ++ replicate size 0; count = st.count; failed = true })
    | false ↦
        let nread = read_count fd size in
        read_loop fuel file read_count
          (record {
            bytes = st.bytes ++ mapped_bytes file fd nread;
            count = st.count + nread;
            failed = st.failed;
          })
          (size - nread) (fd + nread)
  ]
]

-- From `read_start` on: the bytes before it are kept, the others are read.
unfoldable pub refill : Bytes → (ℕ → ℕ → ℕ) → MapStruct → ℕ → ℕ → ℕ → Result MapStruct
unfolding read_loop
refill file read_count map window_start size read_start =
    let read_offset = read_start - window_start in
    let read_size = size - read_offset in
    let fd = (if map.p_fd_offset == read_start then map.fd else read_start) in
    if read_size == 0 then exit rerr_fileio else (do
      filled ←
          read_loop (read_size + 1) file read_count
            (record {
              bytes = take read_offset (drop (map.p_len - read_offset) map.p);
              count = 0;
              failed = map.status;
            })
            read_size fd
      ok (record {
        file_size = map.file_size;
        p_offset = window_start;
        p_fd_offset = read_start + filled.count;
        p = filled.bytes;
        p_len = size;
        p_size = (if ltb map.p_size size then size else map.p_size);
        def_window_size = map.def_window_size;
        status = filled.failed;
        fd = fd + filled.count;
      }))

-- From the choice of the window on.
unfoldable pub slide : Bytes → (ℕ → ℕ → ℕ) → MapStruct → ℕ → ℕ → Result MapStruct
unfolding reuses refill
slide file read_count map window_start size =
    refill file read_count map window_start size
      (if reuses map window_start size then map.p_offset + map.p_len else window_start)

-- `map_ptr`: none for NULL, otherwise the `len` bytes at the pointer.
unfoldable pub map_ptr : Bytes → (ℕ → ℕ → ℕ) → MapStruct → ℕ → ℕ → Result (Option Bytes × MapStruct)
unfolding available window_size slide aligned_overshoot
map_ptr file read_count map offset len =
    if len == 0
    then ok (none, map)
    else if available map offset len
    then ok (some (take len (drop (offset - map.p_offset) map.p)), map)
    else (do
      map' ←
          slide file read_count map (offset - aligned_overshoot offset) (window_size map offset len)
      ok (some (take len (drop (aligned_overshoot offset) map'.p)), map'))

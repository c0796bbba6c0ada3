-- ===== src/FileMap/Contents.antt =====
-- fileio.c: the pointer that `map_ptr` returns is at the file's bytes, whatever windows were read before.
use rsync_wrapper.Prelude.{
  ℕ, zero, suc, ◌+◌, ◌-◌, ◌<◌, ◌≤◌, ◌≡◌, refl, ap, ◌∙◌, arith, ltb, ◌==◌, if◌then◌else◌, true,
  false, Bool-cases, inl, inr, if_cases,
}
use rsync_wrapper.Prelude.{Bytes, ◌++◌, take, drop, length, replicate, some, ok}
use rsync_wrapper.FileMap.{mapped_bytes, mapped_bytes-append}
use rsync_wrapper.FileMap.Cuts.{cut-mapped_bytes, mapped_bytes_past}
use rsync_wrapper.FileMap.Window.{
  MapStruct, aligned_overshoot, aligned_length, available, window_size, reuses, Filled, read_loop,
  refill, slide, map_ptr,
}

-- What `read` returns inside the file is at least 1, at most what was asked for and what is left of the file,
-- and 0 at its end.
pub record Reads (file : Bytes) (read_count : ℕ → ℕ → ℕ) : Type 0 where
  pub some_byte : (at size : ℕ) → 0 < size → at < length file → 0 < read_count at size
  pub no_more : (at size : ℕ) → read_count at size ≤ size
  pub inside : (at size : ℕ) → at ≤ length file → at + read_count at size ≤ length file

-- The buffer holds the file's bytes at its offset and fits in what is allocated, and the descriptor stands where
-- the record says.
pub record Mirrors (file : Bytes) (map : MapStruct) : Type 0 where
  pub held : map.p ≡ mapped_bytes file map.p_offset map.p_len
  pub fits : map.p_len ≤ map.p_size
  pub stands : map.fd ≡ map.p_fd_offset

-- What a call leaves as it is.
unfoldable pub SameFile : MapStruct → MapStruct → Type 0
SameFile map map' = (map'.file_size ≡ map.file_size) × (map'.def_window_size ≡ map.def_window_size)

-- The request is inside the file and smaller than the usual window, wherever that starts.
unfoldable pub IsUsual : Bytes → MapStruct → ℕ → ℕ → Type 0
IsUsual file map offset len =
    (map.file_size ≡ length file)
    × (offset + len ≤ length file)
    × (len + 1023 ≤ map.def_window_size)

window_size_usual :
    (file : Bytes) (map : MapStruct) (offset len : ℕ)
    → IsUsual file map offset len
    → offset - aligned_overshoot offset + window_size map offset len ≤ length file
unfolding window_size aligned_overshoot IsUsual
window_size_usual file map offset len (same, inside, small) = ground arith

reuses_lem :
    (map : MapStruct) (start size : ℕ)
    → reuses map start size ≡ true
    → (map.p_offset ≤ start) × (start < map.p_offset + map.p_len)
unfolding reuses
reuses_lem map start size e = (ground arith, ground arith)

module _ (file : Bytes) (map : MapStruct) (start : ℕ) where
  kept :
      Mirrors file map
      → map.p_offset ≤ start
      → start ≤ map.p_offset + map.p_len
      → take
          (map.p_offset + map.p_len - start)
          (drop (map.p_len - (map.p_offset + map.p_len - start)) map.p)
        ≡ mapped_bytes file start (map.p_offset + map.p_len - start)
  kept m le lt =
      let ro = map.p_offset + map.p_len - start in
      let e : map.p_offset + (map.p_len - ro) ≡ start = omega arith in
      ap (λ (x : Bytes). take ro (drop (map.p_len - ro) x)) m.held
      ∙ cut-mapped_bytes file map.p_offset (map.p_len - ro) ro map.p_len (omega arith)
      ∙ ap (λ (x : ℕ). mapped_bytes file x ro) e

  nothing_kept :
      take (start - start) (drop (map.p_len - (start - start)) map.p)
      ≡ mapped_bytes file start (start - start)
  unfolding mapped_bytes
  nothing_kept = let e : start - start ≡ 0 = omega arith in rw e refl

available_lem :
    (map : MapStruct) (offset len : ℕ)
    → available map offset len ≡ true
    → (map.p_offset ≤ offset) × (offset + len ≤ map.p_offset + map.p_len)
unfolding available
available_lem map offset len e = (ground arith, ground arith)

away_lem :
    (map : MapStruct) (offset len : ℕ)
    → available map offset len ≡ false
    → map.p_offset ≤ offset
    → map.p_offset + map.p_len < offset + len
unfolding available
away_lem map offset len e h = ground arith

overshoot_back :
    (offset : ℕ) → offset - aligned_overshoot offset + aligned_overshoot offset ≡ offset
unfolding aligned_overshoot
overshoot_back offset = omega arith

le-aligned_length : (len : ℕ) → len ≤ aligned_length len
unfolding aligned_length
le-aligned_length len = ground arith

le-window_size :
    (map : MapStruct) (offset len : ℕ) → len + aligned_overshoot offset ≤ window_size map offset len
unfolding window_size
le-window_size map offset len = ground (arith, le-aligned_length (len + aligned_overshoot offset))

module _ (file : Bytes) (read_count : ℕ → ℕ → ℕ) (reads : Reads file read_count) where
  -- `read` returns nothing only behind the end of the file.
  ended : (at size : ℕ) → 0 < size → read_count at size == 0 ≡ true → length file ≤ at
  ended at size h e = elim (Bool-cases (ltb at (length file))) [
    | inl more ↦ absurd (ground (arith, reads.some_byte at size h))
    | inr past ↦ ground arith
  ]

  -- The loop fills the window.
  read_loop_lem :
      (fuel start k size : ℕ) (st : Filled)
      → size < fuel
      → st.bytes ≡ mapped_bytes file start k
      → (st' : Filled) × (read_loop fuel file read_count st size (start + k) ≡ ok st')
        × (st'.bytes ≡ mapped_bytes file start (k + size))
        × (start + k + size ≤ length file → st'.failed ≡ st.failed)
  unfolding read_loop
  read_loop_lem zero start k size st l h = absurd (omega arith)
  read_loop_lem (suc fuel) start k size st l h = elim (Bool-cases (size == 0)) [
    | inl done ↦
        let e : k + size ≡ k = ground arith in (st, rw (read_loop, done) refl, rw e h, λ i. refl)
    | inr more ↦ elim (Bool-cases (read_count (start + k) size == 0)) [
      | inl nothing ↦ (
        record { bytes = st.bytes ++ replicate size 0; count = st.count; failed = true },
        rw (read_loop, more, nothing) refl,
        rw
            (
              h,
              mapped_bytes_past file (start + k) size
                  (ended (start + k) size (ground arith) nothing),
            )
            (mapped_bytes-append file start k size),
        λ i. absurd (ground (arith, ended (start + k) size (ground arith) nothing)),
      )
      | inr got ↦
          let n = read_count (start + k) size in
          let few = reads.no_more (start + k) size in
          let (st', run, filled, sound) =
            read_loop_lem fuel start (k + n) (size - n)
              (record {
                bytes = st.bytes ++ mapped_bytes file (start + k) n;
                count = st.count + n;
                failed = st.failed;
              })
              (ground arith) (rw h (mapped_bytes-append file start k n)) in
          let e : start + (k + n) ≡ start + k + n = omega arith in
          let e' : k + n + (size - n) ≡ k + size = omega (arith, few) in
          (
            st',
            rw (read_loop, more, got) (rw e at run),
            rw e' at filled,
            λ i. sound (omega (arith, few)),
          )
    ]
  ]

  -- A new window.
  Slid : MapStruct → ℕ → ℕ → ℕ → Type 0
  unfolding refill
  Slid map start size read_start =
      (map' : MapStruct) × (refill file read_count map start size read_start ≡ ok map')
      × Mirrors file map'
      × (map'.p_offset ≡ start)
      × (map'.p_len ≡ size)
      × (start + size ≤ length file → map'.status ≡ map.status)
      × SameFile map map'

  refill_lem :
      (map : MapStruct) (start size read_start : ℕ)
      → Mirrors file map
      → start ≤ read_start
      → read_start < start + size
      → take (read_start - start) (drop (map.p_len - (read_start - start)) map.p)
        ≡ mapped_bytes file start (read_start - start)
      → Slid map start size read_start
  unfolding Slid SameFile
  refill_lem map start size read_start m le lt front =
      let ro = read_start - start in
      let fd_at : (if map.p_fd_offset == read_start then map.fd else read_start) ≡ start + ro =
        if_cases (λ x. x ≡ start + ro) (map.p_fd_offset == read_start) map.fd read_start
          (λ e. ground (arith, m.stands)) (λ e. omega arith) in
      let (filled, run, bytes, sound) =
        read_loop_lem (size - ro + 1) start ro (size - ro)
          (record { bytes = take ro (drop (map.p_len - ro) map.p); count = 0; failed = map.status })
          (omega arith) front in
      let some_size : (size - ro == 0) ≡ false = ground arith in
      let whole : ro + (size - ro) ≡ size = omega arith in
      (
        record {
          file_size = map.file_size;
          p_offset = start;
          p_fd_offset = read_start + filled.count;
          p = filled.bytes;
          p_len = size;
          p_size = (if ltb map.p_size size then size else map.p_size);
          def_window_size = map.def_window_size;
          status = filled.failed;
          fd = (if map.p_fd_offset == read_start then map.fd else read_start) + filled.count;
        },
        rw (refill, some_size) (rw (rw (← fd_at) at run) refl),
        record {
          held = rw whole at bytes;
          fits = ground arith;
          stands =
              let at_start : (if map.p_fd_offset == read_start then map.fd else read_start)
                  ≡ read_start =
                fd_at ∙ omega arith in
              ap (λ (x : ℕ). x + filled.count) at_start;
        },
        refl,
        refl,
        λ i. sound (omega arith),
        (refl, refl),
      )

  slide_lem :
      (map : MapStruct) (start size : ℕ)
      → Mirrors file map
      → 0 < size
      → (map.p_offset ≤ start → map.p_offset + map.p_len < start + size)
      → (map' : MapStruct) × (slide file read_count map start size ≡ ok map')
        × Mirrors file map'
        × (map'.p_offset ≡ start)
        × (map'.p_len ≡ size)
        × (start + size ≤ length file → map'.status ≡ map.status)
        × SameFile map map'
  unfolding slide Slid
  slide_lem map start size m pos new =
      if_cases (Slid map start size) (reuses map start size) (map.p_offset + map.p_len) start
        (λ e.
          refill_lem map start size (map.p_offset + map.p_len) m
            (omega (arith, (reuses_lem map start size e).1)) (new (reuses_lem map start size e).0)
            (kept file map start m (reuses_lem map start size e).0
              (omega (arith, (reuses_lem map start size e).1))))
        (λ e.
          refill_lem map start size start m (omega arith) (omega arith)
            (nothing_kept file map start))

  served :
      (offset len o l : ℕ) (p : Bytes) (k : ℕ)
      → p ≡ mapped_bytes file o l
      → o + k ≡ offset
      → k + len ≤ l
      → take len (drop k p) ≡ mapped_bytes file offset len
  served offset len o l p k held at fit =
      ap (λ (x : Bytes). take len (drop k x)) held
      ∙ cut-mapped_bytes file o k len l fit
      ∙ ap (λ (x : ℕ). mapped_bytes file x len) at

  -- One call, whatever windows were read before: the file's bytes, with zeros behind its end, and a buffer as good
  -- as it was. No error is noted on a usual request.
  pub map_ptr_lem :
      (map : MapStruct) (offset len : ℕ)
      → Mirrors file map
      → 0 < len
      → (map' : MapStruct) × (map_ptr file read_count map offset len
          ≡ ok (some (mapped_bytes file offset len), map'))
        × Mirrors file map'
        × (IsUsual file map offset len → map'.status ≡ map.status)
        × SameFile map map'
  unfolding map_ptr SameFile
  map_ptr_lem map offset len m pos =
      let some_len : (len == 0) ≡ false = ground arith in
      let fudge = aligned_overshoot offset in
      let start = offset - fudge in
      let size = window_size map offset len in
      let enough = le-window_size map offset len in
      let back = overshoot_back offset in
      elim (Bool-cases (available map offset len)) [
        | inl there ↦
            let (le, ends) = available_lem map offset len there in
            (
              map,
              rw
                  (
                    map_ptr,
                    some_len,
                    there,
                    served offset len map.p_offset map.p_len map.p (offset - map.p_offset) m.held
                        (omega (arith, le)) (omega (arith, le, ends)),
                  )
                  refl,
              m,
              λ i. refl,
              (refl, refl),
            )
        | inr away ↦
            let (map', run, m', at, long, sound, same) =
              slide_lem map start size m (omega (arith, enough)) (λ le.
                omega
                  (arith, enough, back, away_lem map offset len away (omega (arith, le, back)))) in
            (
              map',
              rw
                  (
                    map_ptr,
                    some_len,
                    away,
                    run,
                    served offset len map'.p_offset map'.p_len map'.p fudge m'.held
                        (omega (arith, back, at)) (omega (arith, enough, long)),
                  )
                  refl,
              m',
              λ i. sound (window_size_usual file map offset len i),
              same,
            )
      ]

-- ===== src/Output/Laws.antt =====
-- fileio.c: what is written, through the buffer or around the zeros, is in the file in the end.
use rsync_wrapper.Prelude.{
  ℕ, zero, suc, ◌+◌, ◌-◌, ◌<◌, ◌≤◌, ◌≡◌, refl, sym, ap, ◌∙◌, arith, min, ◌==◌, true, false,
  Bool-cases, inl, inr,
}
use rsync_wrapper.Prelude.{
  Bytes, [], ◌∷◌, ◌++◌, length, take, drop, replicate, ok, append_assoc, append-nil, length-append,
  length-drop, length-take, take-append-drop,
}
use rsync_wrapper.Output.Zeros.{written_gap, written_end}
use rsync_wrapper.Output.{
  Setup, Out, write_buf_size, written, flush_loop, flush_write_file, buffered,
}

pub length_nil : (b : Bytes) → length b ≡ 0 → b ≡ []
length_nil [] e = refl
length_nil (x ∷ b) e = absurd (omega arith)

-- `write` does some of what is asked for.
pub record Writes (write_count : ℕ → ℕ → ℕ) : Type 0 where
  pub some_byte : (at size : ℕ) → 0 < size → 0 < write_count at size
  pub no_more : (at size : ℕ) → write_count at size ≤ size

-- `w` has been given to `write_file` so far: it is in the file, in the buffer, or it is the zeros that are passed
-- over.
pub record Holds (setup : Setup) (w : Bytes) (o : Out) : Type 0 where
  pub at_end : o.position ≡ length o.dest
  pub all : w ≡ o.dest ++ (o.buffer ++ replicate o.sparse_seek 0)
  pub no_buffer : setup.sparse_files ≡ true → o.buffer ≡ []
  pub no_zeros : setup.sparse_files ≡ false → o.sparse_seek ≡ 0
  pub room : length o.buffer < write_buf_size

plain_all :
    (w dest buffer : Bytes) (gap : ℕ)
    → gap ≡ 0
    → w ≡ dest ++ buffer
    → w ≡ dest ++ (buffer ++ replicate gap 0)
plain_all w dest buffer gap e h = rw e (h ∙ ap (λ (x : Bytes). dest ++ x) (sym (append-nil buffer)))

pub plain_back :
    (w dest buffer : Bytes) (gap : ℕ)
    → gap ≡ 0
    → w ≡ dest ++ (buffer ++ replicate gap 0)
    → w ≡ dest ++ buffer
plain_back w dest buffer gap e h = h ∙ rw e (ap (λ (x : Bytes). dest ++ x) (append-nil buffer))

module _ (setup : Setup) (writes : Writes setup.write_count) where
  -- The buffer goes to the end of the file.
  pub record Flushed (o o' : Out) : Type 0 where
    pub all_out : o'.dest ≡ o.dest ++ o.buffer
    pub empty : o'.buffer ≡ []
    pub at_end : o'.position ≡ length o'.dest
    pub same_zeros : o'.sparse_seek ≡ o.sparse_seek

  pub flush_loop_lem :
      (fuel : ℕ) (o : Out)
      → length o.buffer < fuel
      → o.position ≡ length o.dest
      → (o' : Out) × (flush_loop fuel setup o ≡ ok o') × Flushed o o'
  unfolding flush_loop
  flush_loop_lem zero o l e = absurd (omega arith)
  flush_loop_lem (suc fuel) o l e = elim (Bool-cases (length o.buffer == 0)) [
    | inl done ↦
        let nothing : o.buffer ≡ [] = length_nil o.buffer (ground arith) in
        (
          o,
          rw (flush_loop, done) refl,
          record {
            all_out = sym (append-nil o.dest) ∙ ap (λ (x : Bytes). o.dest ++ x) (sym nothing);
            empty = nothing;
            at_end = e;
            same_zeros = refl;
          },
        )
    | inr more ↦
        let n = setup.write_count o.position (length o.buffer) in
        let some_byte = writes.some_byte o.position (length o.buffer) (ground arith) in
        let d = take n o.buffer in
        let at : o.position ≡ length o.dest + 0 = omega (arith, e) in
        let (o', run, f) =
          flush_loop_lem fuel (record (written d o) { buffer = drop n o.buffer })
            (omega (arith, length-drop n o.buffer)) (written_end d o 0 at) in
        (
          o',
          rw (flush_loop, more) run,
          record {
            all_out =
                f.all_out
                ∙ ap (λ (x : Bytes). x ++ drop n o.buffer) (written_gap d o 0 at)
                ∙ append_assoc o.dest d (drop n o.buffer)
                ∙ ap (λ (x : Bytes). o.dest ++ x) (take-append-drop n o.buffer);
            empty = f.empty;
            at_end = f.at_end;
            same_zeros = f.same_zeros ∙ unfold written in refl;
          },
        )
  ]

  -- One round of `write_file` takes the front of the data.
  unfoldable pub Takes : Bytes → Bytes → ℕ × Out → Type 0
  Takes w buf (r1, o') = (0 < r1) × (r1 ≤ length buf) × Holds setup (w ++ take r1 buf) o'

  pub buffered_lem :
      (w buf : Bytes) (o : Out)
      → Holds setup w o
      → setup.sparse_files ≡ false
      → 0 < length buf
      → (r : ℕ × Out) × (buffered setup buf o ≡ ok r) × Takes w buf r
  unfolding buffered flush_write_file Takes
  buffered_lem w buf o h plain pos =
      let r1 = min (length buf) (write_buf_size - length o.buffer) in
      let o1 : Out = record o { buffer = o.buffer ++ take r1 buf } in
      let room = h.room in
      let zeros = h.no_zeros plain in
      let given : w ++ take r1 buf ≡ o.dest ++ o1.buffer =
        ap (λ (x : Bytes). x ++ take r1 buf)
          (plain_back w o.dest o.buffer o.sparse_seek zeros h.all)
        ∙ append_assoc o.dest o.buffer (take r1 buf) in
      let long : length o1.buffer ≡ length o.buffer + r1 =
        omega (arith, length-append o.buffer (take r1 buf), length-take r1 buf) in
      elim (Bool-cases (length o1.buffer == write_buf_size)) [
        | inl full ↦
            let (o', run, f) = flush_loop_lem (length o1.buffer + 1) o1 (omega arith) h.at_end in
            (
              (r1, o'),
              rw (buffered, full, run) refl,
              (
                omega (arith, room),
                omega arith,
                record {
                  at_end = f.at_end;
                  all =
                      plain_all (w ++ take r1 buf) o'.dest o'.buffer o'.sparse_seek
                        (f.same_zeros ∙ zeros)
                        (given
                          ∙ sym f.all_out
                          ∙ sym (append-nil o'.dest)
                          ∙ ap (λ (x : Bytes). o'.dest ++ x) (sym f.empty));
                  no_buffer = λ s. absurd (ground arith);
                  no_zeros = λ s. f.same_zeros ∙ zeros;
                  room = rw f.empty (omega arith);
                },
              ),
            )
        | inr free ↦ (
          (r1, o1),
          rw (buffered, free) refl,
          (
            omega (arith, room),
            omega arith,
            record {
              at_end = h.at_end;
              all = plain_all (w ++ take r1 buf) o.dest o1.buffer o.sparse_seek zeros given;
              no_buffer = λ s. absurd (ground arith);
              no_zeros = λ s. zeros;
              room = ground (arith, long, room);
            },
          ),
        )
      ]

-- ===== src/Output/Whole.antt =====
-- fileio.c: a file that is written by any calls of `write_file`.
use rsync_wrapper.Prelude.{
  ℕ, zero, suc, ◌+◌, ◌-◌, ◌*◌, ◌<◌, ◌≤◌, ◌≡◌, refl, sym, ap, ◌∙◌, arith, ◌==◌, if◌then◌else◌, Bool,
  false, Bool-cases, inl, inr,
}
use rsync_wrapper.Prelude.{
  Bytes, List, [], ◌∷◌, ◌++◌, length, take, drop, replicate, Result, ok, ◌>>=◌, append_assoc,
  append-nil, length-append, length-drop, length-take, take-append-drop, length-replicate,
}
use rsync_wrapper.Literal.Laws.{joined}
use rsync_wrapper.Output.{
  Setup, Out, sparse_write_size, write_sparse, buffered, write_some, write_loop, write_file,
  flush_write_file, sparse_end, finish,
}
use rsync_wrapper.Output.Zeros.{take_past}
use rsync_wrapper.Output.Laws.{
  Writes, Holds, Takes, length_nil, plain_back, flush_loop_lem, buffered_lem,
}
use rsync_wrapper.Output.Sparse.{write_sparse_lem}

-- The calls for data that comes in pieces, and the end.
unfoldable pub write_pieces : Setup → ℕ → List Bytes → Out → Result Out
unfolding write_file finish
write_pieces setup offset [] o = finish setup offset o
write_pieces setup offset (d ∷ pieces) o = do
  o1 ← write_file setup false offset d o
  write_pieces setup (offset + length d) pieces o1

-- A file that is written on from its end.
unfoldable pub opened : Bytes → Out
opened dest = record {
  dest = dest;
  position = length dest;
  buffer = [];
  sparse_seek = 0;
  sparse_past_write = 0;
}

take-take : (n m : ℕ) (b : Bytes) → n ≤ m → take n (take m b) ≡ take n b
take-take zero m b h = refl
take-take (suc n) zero b h = absurd (omega arith)
take-take (suc n) (suc m) [] h = refl
take-take (suc n) (suc m) (x ∷ b) h = ap (x ∷◌) (take-take n m b (omega arith))

if_false {ℓ} : {A : Type ℓ} (b : Bool) (x y : A) → b ≡ false → (if b then x else y) ≡ y
if_false b x y e = rw e refl

module _ (setup : Setup) (writes : Writes setup.write_count)
    (none_before : setup.preallocated_len ≡ 0) where
  write_some_lem :
      (w buf : Bytes) (offset : ℕ) (o : Out)
      → Holds setup w o
      → 0 < length buf
      → (r : ℕ × Out) × (write_some setup false offset buf o ≡ ok r) × Takes setup writes w buf r
  unfolding write_some Takes
  write_some_lem w buf offset o h pos = elim (Bool-cases setup.sparse_files) [
    | inl sparse ↦
        let long = length-take sparse_write_size buf in
        let (r, run, (some_byte, few, holds)) =
          write_sparse_lem setup writes none_before sparse w (take sparse_write_size buf) offset o h
            (omega (arith, long)) in
        (
          r,
          rw (write_some, sparse) run,
          (
            some_byte,
            omega (arith, few, long),
            rw (take-take r.0 sparse_write_size buf (omega (arith, few, long))) at holds,
          ),
        )
    | inr plain ↦
        let (r, run, takes) = buffered_lem setup writes w buf o h plain pos in
        (
          r,
          if_false setup.sparse_files
                (write_sparse setup false offset (take sparse_write_size buf) o)
                (buffered setup buf o) plain
              ∙ run,
          takes,
        )
  ]

  write_loop_lem :
      (fuel : ℕ) (w buf : Bytes) (offset : ℕ) (o : Out)
      → length buf < fuel
      → Holds setup w o
      → (o' : Out) × (write_loop fuel setup false offset buf o ≡ ok o') × Holds setup (w ++ buf) o'
  unfolding write_loop Takes
  write_loop_lem zero w buf offset o l h = absurd (omega arith)
  write_loop_lem (suc fuel) w buf offset o l h = elim (Bool-cases (length buf == 0)) [
    | inl done ↦
        let same : w ≡ w ++ buf =
          sym (append-nil w) ∙ ap (λ (x : Bytes). w ++ x) (sym (length_nil buf (ground arith))) in
        (o, rw (write_loop, done) refl, rw same at h)
    | inr more ↦
        let ((r1, o1), run, (some_byte, few, holds)) =
          write_some_lem w buf offset o h (ground arith) in
        let (o', run', holds') =
          write_loop_lem fuel (w ++ take r1 buf) (drop r1 buf) (offset + r1) o1
            (omega (arith, length-drop r1 buf, few, some_byte)) holds in
        let whole : (w ++ take r1 buf) ++ drop r1 buf ≡ w ++ buf =
          append_assoc w (take r1 buf) (drop r1 buf)
          ∙ ap (λ (x : Bytes). w ++ x) (take-append-drop r1 buf) in
        (o', rw (write_loop, more, run) run', rw whole at holds')
  ]

  -- The end of a sparse file.
  sparse_end_lem :
      (w : Bytes) (o : Out)
      → w ≡ o.dest ++ replicate o.sparse_seek 0
      → (sparse_end (length w) o).dest ≡ w
  unfolding sparse_end
  sparse_end_lem w o e =
      let long : length w ≡ length o.dest + o.sparse_seek = omega (
        arith,
        ap length e,
        length-append o.dest (replicate o.sparse_seek 0),
        length-replicate {A = ℕ} o.sparse_seek 0,
      ) in
      elim (Bool-cases (o.sparse_seek == 0)) [
        | inl no_gap ↦
            let none : o.sparse_seek ≡ 0 = ground arith in
            rw (sparse_end, no_gap)
              (sym (append-nil o.dest) ∙ ap (λ (k : ℕ). o.dest ++ replicate k 0) (sym none) ∙ sym e)
        | inr gap ↦
            let left : length w - length o.dest ≡ o.sparse_seek = omega (arith, long) in
            rw (sparse_end, gap, take_past o.dest (length w) (omega (arith, long)), left) (sym e)
      ]

  empty_lem : (w : Bytes) (o : Out) → Holds setup w o → length w ≡ 0 → o.dest ≡ w
  empty_lem w o h e =
      length_nil o.dest (
        omega
          (arith, ap length h.all, length-append o.dest (o.buffer ++ replicate o.sparse_seek 0)))
      ∙ sym (length_nil w e)

  finish_lem :
      (w : Bytes) (o : Out)
      → Holds setup w o
      → (o' : Out) × (finish setup (length w) o ≡ ok o') × (o'.dest ≡ w)
  unfolding finish flush_write_file
  finish_lem w o h = elim (Bool-cases (length w == 0)) [
    | inl nothing ↦ (o, rw (finish, nothing) refl, empty_lem w o h (ground arith))
    | inr some_bytes ↦ elim (Bool-cases setup.sparse_files) [
      | inl sparse ↦ (
        sparse_end (length w) o,
        rw (finish, some_bytes, sparse) refl,
        sparse_end_lem w o (
            h.all
            ∙ ap (λ (x : Bytes). o.dest ++ (x ++ replicate o.sparse_seek 0)) (h.no_buffer sparse)),
      )
      | inr plain ↦
          let (o', run, f) =
            flush_loop_lem setup writes (length o.buffer + 1) o (omega arith) h.at_end in
          (
            o',
            rw (finish, some_bytes)
                (if_false setup.sparse_files (ok (sparse_end (length w) o))
                    (flush_write_file setup o) plain
                  ∙ run),
            f.all_out ∙ sym (plain_back w o.dest o.buffer o.sparse_seek (h.no_zeros plain) h.all),
          )
    ]
  ]

  all_pieces :
      (w : Bytes) (pieces : List Bytes) (o : Out)
      → Holds setup w o
      → (o' : Out) × (write_pieces setup (length w) pieces o ≡ ok o')
        × (o'.dest ≡ w ++ joined pieces)
  unfolding write_pieces joined write_file
  all_pieces w [] o h = rw (append-nil w) (finish_lem w o h)
  all_pieces w (d ∷ pieces) o h =
      let (o1, run, h1) = write_loop_lem (2 * length d + 1) w d (length w) o (omega arith) h in
      let (o', run', file) = all_pieces (w ++ d) pieces o1 h1 in
      (
        o',
        rw (write_pieces, run) (rw (length-append w d) at run'),
        file ∙ append_assoc w d (joined pieces),
      )

  opened-Holds : (start : Bytes) → Holds setup start (opened start)
  unfolding opened
  opened-Holds start = record {
    at_end = refl;
    all = sym (append-nil start);
    no_buffer = λ s. refl;
    no_zeros = λ s. refl;
    room = omega arith;
  }

  -- A file is written on from its end in pieces of any lengths, sparse or through the buffer, where `write` does any
  -- part of what is asked and nothing is preallocated: every call ends, and in the end the file is what it
  -- was with all the pieces behind it.
  pub write_pieces_lem :
      (start : Bytes) (pieces : List Bytes)
      → (o' : Out) × (write_pieces setup (length start) pieces (opened start) ≡ ok o')
        × (o'.dest ≡ start ++ joined pieces)
  write_pieces_lem start pieces = all_pieces start pieces (opened start) (opened-Holds start)

-- ===== src/Output/Sparse.antt =====
-- fileio.c: a round of `write_file` for a sparse file.
use rsync_wrapper.Prelude.{
  ℕ, ◌+◌, ◌-◌, ◌<◌, ◌≡◌, ◌≢◌, refl, sym, ap, ◌∙◌, arith, leb, ◌==◌, true, false, Bool-cases, inl,
  inr,
}
use rsync_wrapper.Prelude.{
  Bytes, [], ◌++◌, length, take, drop, replicate, ok, append_assoc, append-nil, length-drop,
  length-take,
}
use rsync_wrapper.Output.{
  Setup, Out, written, leading_zeros, trailing_zeros, pass_zeros, write_data, write_sparse,
}
use rsync_wrapper.Output.Zeros.{
  leading_split, trailing_split, leading_zeros-le, trailing_zeros-lt, zeros-append, take_past,
  drop_past, take-append_le, take-zeros, written_gap, written_end,
}
use rsync_wrapper.Output.Laws.{Writes, Holds, Takes}

module _ (setup : Setup) (none_before : setup.preallocated_len ≡ 0) where
  -- The position moves over the zeros.
  pass_zeros_lem :
      (o : Out)
      → (o1 : Out) × (pass_zeros setup o ≡ ok o1)
        × (o1.position ≡ o.position + o.sparse_seek)
        × (o1.dest ≡ o.dest)
        × (o1.buffer ≡ o.buffer)
  unfolding pass_zeros
  pass_zeros_lem o = elim (Bool-cases (o.sparse_seek == 0)) [
    | inl no_gap ↦ (o, rw (pass_zeros, no_gap) refl, ground arith, refl, refl)
    | inr gap ↦
        let past : leb setup.preallocated_len o.sparse_past_write ≡ true =
          rw none_before (ground arith) in
        (
          record o { position = o.position + o.sparse_seek },
          rw (pass_zeros, gap, past) refl,
          refl,
          refl,
          refl,
        )
  ]

-- The buffer is zeros, data and zeros.
module _ (buf : Bytes) where
  abbrev middle : Bytes
  middle =
      take (length buf - (leading_zeros buf + trailing_zeros (drop (leading_zeros buf) buf)))
        (drop (leading_zeros buf) buf)

  buf_split :
      buf
      ≡ replicate (leading_zeros buf) 0
        ++ (middle ++ replicate (trailing_zeros (drop (leading_zeros buf) buf)) 0)
  buf_split =
      let l1 = leading_zeros buf in
      let l2 = trailing_zeros (drop l1 buf) in
      let e : length (drop l1 buf) - l2 ≡ length buf - (l1 + l2) =
        omega (arith, length-drop l1 buf) in
      leading_split buf
      ∙ ap (λ (x : Bytes). replicate l1 0 ++ x)
          (trailing_split (drop l1 buf) ∙ ap (λ (k : ℕ). take k (drop l1 buf) ++ replicate l2 0) e)

  length-middle :
      length middle
      ≡ length buf - (leading_zeros buf + trailing_zeros (drop (leading_zeros buf) buf))
  length-middle =
      let l1 = leading_zeros buf in
      let l2 = trailing_zeros (drop l1 buf) in
      omega (arith, length-take (length buf - (l1 + l2)) (drop l1 buf), length-drop l1 buf)

-- The zeros to pass and the zeros in front of the data are one gap.
one_gap :
    (w dest x : Bytes) (a b : ℕ)
    → w ≡ dest ++ replicate a 0
    → w ++ (replicate b 0 ++ x) ≡ dest ++ (replicate (a + b) 0 ++ x)
one_gap w dest x a b e =
    ap (λ (y : Bytes). y ++ (replicate b 0 ++ x)) e
    ∙ append_assoc dest (replicate a 0) (replicate b 0 ++ x)
    ∙ ap (λ (y : Bytes). dest ++ y)
        (sym (append_assoc (replicate a 0) (replicate b 0) x)
          ∙ ap (λ (y : Bytes). y ++ x) (sym (zeros-append a b)))

module _ (setup : Setup) (writes : Writes setup.write_count)
    (none_before : setup.preallocated_len ≡ 0) (sparse : setup.sparse_files ≡ true) where
  before : (w : Bytes) (o : Out) → Holds setup w o → w ≡ o.dest ++ replicate o.sparse_seek 0
  before w o h =
      h.all ∙ ap (λ (x : Bytes). o.dest ++ (x ++ replicate o.sparse_seek 0)) (h.no_buffer sparse)

  -- What stands after a round.
  stands :
      (w : Bytes) (o : Out)
      → o.buffer ≡ []
      → o.position ≡ length o.dest
      → w ≡ o.dest ++ replicate o.sparse_seek 0
      → Holds setup w o
  stands w o none e all = record {
    at_end = e;
    all = all ∙ ap (λ (x : Bytes). o.dest ++ (x ++ replicate o.sparse_seek 0)) (sym none);
    no_buffer = λ s. none;
    no_zeros = λ s. absurd (ground (arith, sparse));
    room = rw none (omega arith);
  }

  -- Zeros only.
  all_zeros :
      (w buf : Bytes) (o : Out)
      → Holds setup w o
      → leading_zeros buf ≡ length buf
      → 0 < length buf
      → Takes setup writes w buf
          (length buf, record o { sparse_seek = o.sparse_seek + leading_zeros buf })
  unfolding Takes
  all_zeros w buf o h l pos =
      let l1 = leading_zeros buf in
      (
        pos,
        omega arith,
        stands (w ++ take (length buf) buf) (record o { sparse_seek = o.sparse_seek + l1 })
            (h.no_buffer sparse) h.at_end
            (ap (λ (x : Bytes). w ++ x)
                (take_past buf (length buf) (omega arith)
                  ∙ leading_split buf
                  ∙ ap (λ (x : Bytes). replicate l1 0 ++ x) (drop_past buf l1 (omega (arith, l))))
              ∙ one_gap w o.dest [] o.sparse_seek l1 (before w o h)
              ∙ ap (λ (x : Bytes). o.dest ++ x) (append-nil (replicate (o.sparse_seek + l1) 0))),
      )

  -- The data is written behind the gap, all of it or the front.
  write_data_lem :
      (w buf : Bytes) (dest : Bytes) (k : ℕ) (o : Out)
      → w ≡ dest ++ replicate k 0
      → o.dest ≡ dest
      → o.buffer ≡ []
      → o.position ≡ length o.dest + (k + leading_zeros buf)
      → o.sparse_seek ≡ trailing_zeros (drop (leading_zeros buf) buf)
      → leading_zeros buf ≢ length buf
      → (r : ℕ × Out) × (write_data setup (length buf) (leading_zeros buf) (middle buf) o ≡ ok r)
        × Takes setup writes w buf r
  unfolding write_data Takes
  write_data_lem w buf dest k o e same nb pos seek some_data =
      let l1 = leading_zeros buf in
      let d = middle buf in
      let n = setup.write_count o.position (length d) in
      let tail = replicate {A = ℕ} (trailing_zeros (drop l1 buf)) 0 in
      let size = length-middle buf in
      let le = leading_zeros-le buf in
      let lt = trailing_zeros-lt buf some_data in
      let behind = length-drop l1 buf in
      let some_byte = writes.some_byte o.position (length d) (omega arith) in
      let few = writes.no_more o.position (length d) in
      let wrote : (n == 0) ≡ false = ground arith in
      elim (Bool-cases (n == length d)) [
        | inl all ↦ (
          (length buf, written d o),
          rw (write_data, wrote, all) refl,
          (
            omega arith,
            omega arith,
            stands (w ++ take (length buf) buf) (written d o) (unfold written in nb)
                (written_end d o (k + l1) pos)
                (ap (λ (x : Bytes). w ++ x)
                    (take_past buf (length buf) (omega arith) ∙ buf_split buf)
                  ∙ one_gap w dest (d ++ tail) k l1 e
                  ∙ ap (λ (x : Bytes). dest ++ x) (sym (append_assoc (replicate (k + l1) 0) d tail))
                  ∙ sym (append_assoc dest (replicate (k + l1) 0 ++ d) tail)
                  ∙ ap (λ (x : Bytes). (x ++ (replicate (k + l1) 0 ++ d)) ++ tail) (sym same)
                  ∙ ap (λ (x : Bytes). x ++ tail) (sym (written_gap d o (k + l1) pos))
                  ∙ ap (λ (z : ℕ). (written d o).dest ++ replicate z 0)
                      (unfold written in sym seek)),
          ),
        )
        | inr part ↦
            let o' : Out = record (written (take n d) o) { sparse_seek = 0 } in
            (
              (l1 + n, o'),
              rw (write_data, wrote, part) refl,
              (
                omega arith,
                omega arith,
                stands (w ++ take (l1 + n) buf) o' (unfold written in nb)
                    (written_end (take n d) o (k + l1) pos)
                    (ap (λ (x : Bytes). w ++ take (l1 + n) x) (buf_split buf)
                      ∙ ap (λ (x : Bytes). w ++ x)
                          (take-zeros l1 n (d ++ tail)
                            ∙ ap (λ (x : Bytes). replicate l1 0 ++ x) (take-append_le d tail n few))
                      ∙ one_gap w dest (take n d) k l1 e
                      ∙ ap (λ (x : Bytes). x ++ (replicate (k + l1) 0 ++ take n d)) (sym same)
                      ∙ sym (written_gap (take n d) o (k + l1) pos)
                      ∙ sym (append-nil (written (take n d) o).dest)),
              ),
            )
      ]

  pub write_sparse_lem :
      (w buf : Bytes) (offset : ℕ) (o : Out)
      → Holds setup w o
      → 0 < length buf
      → (r : ℕ × Out) × (write_sparse setup false offset buf o ≡ ok r) × Takes setup writes w buf r
  unfolding write_sparse
  write_sparse_lem w buf offset o h pos =
      let l1 = leading_zeros buf in
      let l2 = trailing_zeros (drop l1 buf) in
      elim (Bool-cases (l1 == length buf)) [
        | inl nothing ↦ (
          (length buf, record o { sparse_seek = o.sparse_seek + l1 }),
          rw (write_sparse, nothing) refl,
          all_zeros w buf o h (ground arith) pos,
        )
        | inr some_data ↦
            let (o1, run, at, same, nb) =
              pass_zeros_lem setup none_before (record o { sparse_seek = o.sparse_seek + l1 }) in
            let o2 : Out = record o1 {
              sparse_seek = l2;
              sparse_past_write = offset + length buf - l2;
            } in
            let (r, run', takes) =
              write_data_lem w buf o.dest o.sparse_seek o2 (before w o h) same
                (nb ∙ h.no_buffer sparse)
                (at ∙ ap (λ (x : ℕ). x + (o.sparse_seek + l1)) (h.at_end ∙ ap length (sym same)))
                refl (λ e. ground arith) in
            (r, rw (write_sparse, some_data, run) run', takes)
      ]

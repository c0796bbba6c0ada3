-- ===== src/Messages/Stream.antt =====
-- io.c: what is written from the ring is what was put into it.
use rsync_wrapper.Prelude.{
  ℕ, ◌+◌, ◌-◌, ◌%◌, ◌≤◌, ◌<◌, ◌≡◌, refl, sym, ap, ◌∙◌, arith, inl, inr, leb, ◌==◌, true, Bool-cases,
}
use rsync_wrapper.Prelude.{Bytes, ◌++◌, append-nil, append_assoc}
use rsync_wrapper.Messages.{XBuf, slice, restored, writable, advance_pos, wrote}
use rsync_wrapper.Messages.Slices.{slice-add}
use rsync_wrapper.Messages.Frames.{contents, IsRing, contents_straight, contents_wrapped}

restored_lem :
    (full size : ℕ) → full % 256 ≡ 0 → size ≤ full → full ≤ size + 3 → restored size ≡ full
unfolding restored
restored_lem full size pages le near = ground (arith, pages, le, near)

module _ (full : ℕ) (msg : XBuf) (w : IsRing full msg) where
  pub near_ring : full ≤ msg.size + 3
  near_ring = elim (Bool-cases (msg.size == full)) [
    | inl same ↦ ground arith
    | inr other ↦ (w.reduced (λ e. ground arith)).0
  ]

  restored-full : restored msg.size ≡ full
  restored-full = restored_lem full msg.size w.pages w.size_le near_ring

  full_twice : restored full ≡ full
  full_twice = restored_lem full full w.pages (omega arith) (omega arith)

  full_pos : 0 < full
  full_pos = omega (arith, w.inside, w.size_le)

  module _ (n : ℕ) (some_bytes : 0 < n) (fits : n ≤ writable msg) where
    n_le : n ≤ msg.len
    unfolding writable
    n_le = ground (arith, fits)

    n_in : msg.pos + n ≤ msg.size
    unfolding writable
    n_in = ground (arith, fits, w.inside)

    unfoldable pub Wrote : XBuf → Type 0
    Wrote msg' =
        IsRing full msg'
        × (contents msg ≡ slice msg.buf msg.pos n ++ contents msg')
        × (msg'.len + n ≡ msg.len)

    -- The last byte.
    all_written :
        msg.len - n == 0 ≡ true → Wrote (record { buf = msg.buf; pos = 0; len = 0; size = full })
    unfolding Wrote slice
    all_written e =
        let same : n ≡ msg.len = ground (arith, n_le) in
        (
          record {
            whole = w.whole;
            pages = w.pages;
            inside = full_pos;
            room = omega arith;
            empty = λ z. refl;
            size_le = omega arith;
            reduced = λ z. absurd (z refl);
          },
          contents_straight msg (omega (arith, same, n_in))
              ∙ ap (slice msg.buf msg.pos) (sym same)
              ∙ sym (append-nil (slice msg.buf msg.pos n))
              ∙ ap (λ (s : Bytes). slice msg.buf msg.pos n ++ s)
                  (sym (
                    contents_straight (record { buf = msg.buf; pos = 0; len = 0; size = full })
                      (omega arith))),
          omega (arith, same),
        )

    -- To the end of the ring.
    to_end :
        n < msg.len
        → msg.pos + n ≡ msg.size
        → Wrote (record { buf = msg.buf; pos = 0; len = msg.len - n; size = full })
    unfolding Wrote
    to_end less last =
        let rest : msg.pos + msg.len - msg.size ≡ msg.len - n = omega (arith, last) in
        let first : msg.size - msg.pos ≡ n = omega (arith, last) in
        (
          record {
            whole = w.whole;
            pages = w.pages;
            inside = full_pos;
            room = omega (arith, w.room, w.size_le);
            empty = λ z. refl;
            size_le = omega arith;
            reduced = λ z. absurd (z refl);
          },
          contents_wrapped msg w.inside (omega (arith, less, last))
              ∙ ap
                  (λ (x : ℕ).
                    slice msg.buf msg.pos x ++ slice msg.buf 0 (msg.pos + msg.len - msg.size))
                  first
              ∙ ap (λ (x : ℕ). slice msg.buf msg.pos n ++ slice msg.buf 0 x) rest
              ∙ ap (λ (s : Bytes). slice msg.buf msg.pos n ++ s)
                  (sym (
                    contents_straight
                      (record { buf = msg.buf; pos = 0; len = msg.len - n; size = full })
                      (omega (arith, w.room, w.size_le)))),
          omega (arith, less),
        )

    -- Somewhere before.
    abbrev later : XBuf
    later = record { buf = msg.buf; pos = msg.pos + n; len = msg.len - n; size = msg.size }

    inside_ring : n < msg.len → msg.pos + n < msg.size → Wrote later
    unfolding Wrote
    inside_ring less before = (
      record {
        whole = w.whole;
        pages = w.pages;
        inside = before;
        room = omega (arith, w.room);
        empty = λ z. absurd (omega (arith, z, less));
        size_le = w.size_le;
        reduced = λ z. ((w.reduced z).0, omega (arith, (w.reduced z).1, less));
      },
      same_bytes,
      omega (arith, less),
    )
      where
        same_bytes : contents msg ≡ slice msg.buf msg.pos n ++ contents later
        same_bytes = elim (Bool-cases (leb (msg.pos + msg.len) msg.size)) [
          | inl straight ↦
              let ends : msg.pos + msg.len ≤ msg.size = ground arith in
              let total : msg.len ≡ n + (msg.len - n) = omega (arith, less) in
              contents_straight msg ends
              ∙ ap (slice msg.buf msg.pos) total
              ∙ slice-add msg.buf msg.pos n (msg.len - n)
              ∙ ap (λ (s : Bytes). slice msg.buf msg.pos n ++ s)
                  (sym (contents_straight later (omega (arith, ends, less))))
          | inr wraps ↦
              let over : msg.size ≤ msg.pos + msg.len = ground arith in
              let high : msg.size - msg.pos ≡ n + (msg.size - (msg.pos + n)) =
                omega (arith, before) in
              let low : msg.pos + msg.len - msg.size ≡ msg.pos + n + (msg.len - n) - msg.size =
                omega (arith, less) in
              let tail = slice msg.buf 0 (msg.pos + n + (msg.len - n) - msg.size) in
              contents_wrapped msg w.inside over
              ∙ ap (λ (x : ℕ). slice msg.buf msg.pos (msg.size - msg.pos) ++ slice msg.buf 0 x) low
              ∙ ap (λ (x : ℕ). slice msg.buf msg.pos x ++ tail) high
              ∙ ap (λ (s : Bytes). s ++ tail)
                  (slice-add msg.buf msg.pos n (msg.size - (msg.pos + n)))
              ∙ append_assoc (slice msg.buf msg.pos n)
                  (slice msg.buf (msg.pos + n) (msg.size - (msg.pos + n))) tail
              ∙ ap (λ (s : Bytes). slice msg.buf msg.pos n ++ s)
                  (sym (contents_wrapped later before (omega (arith, over, less))))
        ]

    pub wrote-Wrote : Wrote (wrote msg n)
    unfolding wrote advance_pos
    wrote-Wrote = elim (Bool-cases (msg.pos + n == msg.size)) [
      | inl last ↦ elim (Bool-cases (msg.len - n == 0)) [
        | inl gone ↦
            rw (wrote, advance_pos, last, gone, restored-full, full_twice) (all_written gone)
        | inr more ↦
            rw (wrote, advance_pos, last, more, restored-full)
              (to_end (ground (arith, n_le)) (ground arith))
      ]
      | inr before ↦ elim (Bool-cases (msg.len - n == 0)) [
        | inl gone ↦ rw (wrote, advance_pos, before, gone, restored-full) (all_written gone)
        | inr more ↦
            rw (wrote, advance_pos, before, more)
              (inside_ring (ground (arith, n_le)) (ground (arith, n_in)))
      ]
    ]

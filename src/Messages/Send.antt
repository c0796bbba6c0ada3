-- ===== src/Messages/Send.antt =====
-- io.c: all ways in which `send_msg` puts a message into the ring.
use rsync_wrapper.Prelude.{
  ℕ, ◌+◌, ◌-◌, ◌≤◌, ◌<◌, ◌≡◌, ◌≢◌, refl, sym, ap, ◌∙◌, arith, inl, inr, ltb, leb, ◌==◌, true, false,
  ◌&&◌, Bool-cases,
}
use rsync_wrapper.Prelude.{Bytes, ◌++◌, length, take, drop, append-nil}
use rsync_wrapper.Messages.{
  XBuf, slice, memcpy, mplex_header, header_pos, header_size, data_pos, put_data, put_msg,
}
use rsync_wrapper.Messages.Frames.{contents, IsRing, contents_straight, contents_wrapped}
use rsync_wrapper.Messages.Put.{
  put_data_one, put_data_nothing, Put, near_full, in_front-Put, behind-Put, around-Put,
}

module _ (full : ℕ) (msg : XBuf) (w : IsRing full msg) (code : ℕ) (bs : Bytes)
    (room : msg.len + (length bs + 7) ≤ msg.size) where
  -- With the place of the header, the size and the copy of the data known.
  put_msg-run :
      (q size : ℕ) (b : Bytes)
      → header_pos msg ≡ q
      → header_size msg ≡ size
      → put_data msg.buf msg.pos size (data_pos q size) bs ≡ b
      → put_msg msg code bs ≡ record {
        buf = memcpy b q (mplex_header code (length bs));
        pos = msg.pos;
        len = msg.len + 4 + length bs;
        size = size;
      }
  unfolding put_msg
  put_msg-run q size b e f g = rw (put_msg, e, f, g) refl

  -- The ring is wrapped around, or full to its end.
  at_start : msg.size ≤ msg.pos + msg.len → Put full msg w code bs room (put_msg msg code bs)
  unfolding header_pos header_size data_pos slice
  at_start h =
      let q = msg.pos + msg.len - msg.size in
      let e : leb msg.size (msg.pos + msg.len) ≡ true = ground (arith, h) in
      let d : data_pos q msg.size ≡ q + 4 = ground (arith, h, room, w.inside) in
      let run =
        put_msg-run q msg.size (memcpy msg.buf (q + 4) bs) (rw (header_pos, e) refl)
          (rw (header_size, e) refl)
          (ap (λ (x : ℕ). put_data msg.buf msg.pos msg.size x bs) d
            ∙ put_data_one msg.buf msg.pos msg.size (q + 4) bs
                (inr (inl (omega (arith, h, room, w.inside))))) in
      rw run (
        in_front-Put full msg w code bs room q msg.size w.inside (omega arith)
          (near_full full msg w code bs room) (omega (arith, h)) (omega (arith, h, room))
          (contents_wrapped msg w.inside h))

  -- The header does not fit behind the ring's end.
  at_reduced :
      msg.pos + msg.len < msg.size
      → msg.size < msg.pos + msg.len + 4
      → Put full msg w code bs room (put_msg msg code bs)
  unfolding header_pos header_size data_pos slice
  at_reduced h k =
      let size = msg.pos + msg.len in
      let some_len : msg.len ≢ 0 = λ z. omega (arith, z, w.empty z, room, k) in
      let inside : msg.pos < size = ground (arith, some_len) in
      let e : leb msg.size (msg.pos + msg.len) ≡ false = ground (arith, h) in
      let f : ltb msg.size (msg.pos + msg.len + 4) ≡ true = ground (arith, k) in
      let d : data_pos 0 size ≡ 4 = ground (arith, room, k, inside) in
      let is_full : msg.size ≡ full = elim (Bool-cases (msg.size == full)) [
        | inl same ↦ ground arith
        | inr other ↦ absurd (omega (arith, (w.reduced (λ z. ground arith)).1, h))
      ] in
      let run =
        put_msg-run 0 size (memcpy msg.buf 4 bs) (rw (header_pos, e, f) refl)
          (rw (header_size, e, f) refl)
          (ap (λ (x : ℕ). put_data msg.buf msg.pos size x bs) d
            ∙ put_data_one msg.buf msg.pos size 4 bs
                (inr (inl (omega (arith, room, k, inside))))) in
      let old : contents msg ≡ slice msg.buf msg.pos (size - msg.pos) ++ slice msg.buf 0 0 =
        contents_straight msg (omega (arith, h))
        ∙ ap (slice msg.buf msg.pos) (omega arith)
        ∙ sym (append-nil (slice msg.buf msg.pos (size - msg.pos))) in
      rw run (
        in_front-Put full msg w code bs room 0 size inside (omega (arith, h))
          (omega (arith, is_full, k)) (omega arith) (omega (arith, room, k)) old)

  data_behind :
      msg.pos + msg.len + (4 + length bs) ≤ msg.size
      → put_data msg.buf msg.pos msg.size (data_pos (msg.pos + msg.len) msg.size) bs
        ≡ memcpy msg.buf (msg.pos + msg.len + 4) bs
  unfolding data_pos
  data_behind h = elim (Bool-cases (msg.pos + msg.len + 4 == msg.size)) [
    | inl last ↦
        put_data_nothing msg.buf msg.pos msg.size (data_pos (msg.pos + msg.len) msg.size)
          (msg.pos + msg.len + 4) bs (ground (arith, h))
    | inr inside ↦
        rw (data_pos, inside)
          (put_data_one msg.buf msg.pos msg.size (msg.pos + msg.len + 4) bs
            (inr (inl (omega (arith, h)))))
  ]

  data_around :
      msg.pos + msg.len + 4 ≤ msg.size
      → msg.size < msg.pos + msg.len + (4 + length bs)
      → put_data msg.buf msg.pos msg.size (data_pos (msg.pos + msg.len) msg.size) bs
        ≡ memcpy
            (memcpy msg.buf (msg.pos + msg.len + 4) (take (msg.size - (msg.pos + msg.len + 4)) bs))
            0
            (drop (msg.size - (msg.pos + msg.len + 4)) bs)
  unfolding data_pos memcpy put_data
  data_around h over = elim (Bool-cases (msg.pos + msg.len + 4 == msg.size)) [
    | inl last ↦
        let nothing : msg.size - (msg.pos + msg.len + 4) ≡ 0 = ground arith in
        rw (data_pos, last, nothing)
          (put_data_one msg.buf msg.pos msg.size 0 bs (inl (ground (arith, room))))
    | inr inside ↦
        let splits : leb msg.pos (msg.pos + msg.len + 4)
              && ltb (msg.size - (msg.pos + msg.len + 4)) (length bs)
            ≡ true =
          ground (arith, over, h) in
        rw (data_pos, inside, put_data, splits) refl
  ]

  -- The header fits.
  at_end : msg.pos + msg.len + 4 ≤ msg.size → Put full msg w code bs room (put_msg msg code bs)
  unfolding header_pos header_size data_pos memcpy
  at_end h =
      let q = msg.pos + msg.len in
      let e : leb msg.size (msg.pos + msg.len) ≡ false = ground (arith, h) in
      let f : ltb msg.size (msg.pos + msg.len + 4) ≡ false = ground (arith, h) in
      let place : header_pos msg ≡ q = rw (header_pos, e, f) refl in
      let size : header_size msg ≡ msg.size = rw (header_size, e, f) refl in
      elim (Bool-cases (leb (q + (4 + length bs)) msg.size)) [
        | inl straight ↦
            let near : q + (4 + length bs) ≤ msg.size = ground arith in
            rw (put_msg-run q msg.size (memcpy msg.buf (q + 4) bs) place size (data_behind near))
              (behind-Put full msg w code bs room near)
        | inr over ↦
            let far : msg.size < q + (4 + length bs) = ground arith in
            rw (put_msg-run q msg.size _ place size (data_around h far))
              (around-Put full msg w code bs room h far)
      ]

  pub put_msg-Put : Put full msg w code bs room (put_msg msg code bs)
  put_msg-Put = elim (Bool-cases (leb msg.size (msg.pos + msg.len))) [
    | inl wraps ↦ at_start (ground arith)
    | inr straight ↦ elim (Bool-cases (leb (msg.pos + msg.len + 4) msg.size)) [
      | inl fits ↦ at_end (ground arith)
      | inr reduced ↦ at_reduced (ground arith) (ground arith)
    ]
  ]

-- ===== src/Messages/Put.antt =====
-- io.c: `send_msg` on the ring.
use rsync_wrapper.Prelude.{
  ℕ, ◌+◌, ◌-◌, ◌≤◌, ◌<◌, ◌≡◌, refl, sym, ap, ◌∙◌, arith, ◌⊎◌, inl, inr, ltb, leb, ◌==◌, false, ◌&&◌,
  Bool-cases,
}
use rsync_wrapper.Prelude.{Bytes, [], ◌∷◌, ◌++◌, length, take, drop, take-append-drop, append_assoc}
use rsync_wrapper.Messages.{XBuf, slice, memcpy, mplex_header, put_data}
use rsync_wrapper.Messages.Slices.{slice-add, length-memcpy}
use rsync_wrapper.Messages.Frames.{
  contents, IsRing, contents_straight, contents_wrapped, length-mplex_header, framed_self,
  framed_else, split_first, split_second, split_else,
}

-- Data that does not wrap around.
pub put_data_one :
    (b : Bytes) (start size at : ℕ) (bs : Bytes)
    → (at < start) ⊎ (at + length bs ≤ size) ⊎ (length bs ≡ 0)
    → put_data b start size at bs ≡ memcpy b at bs
unfolding put_data
put_data_one b start size at bs h =
    let one : leb start at && ltb (size - at) (length bs) ≡ false = ground (arith, h) in
    rw (put_data, one) refl

pub put_data_nothing :
    (b : Bytes) (start size at q : ℕ) (bs : Bytes)
    → length bs ≡ 0
    → put_data b start size at bs ≡ memcpy b q bs
unfolding memcpy
put_data_nothing b start size at q [] h = put_data_one b start size at [] (inr (inr refl))
put_data_nothing b start size at q (x ∷ bs) h = absurd (omega (arith, h))

module _ (full : ℕ) (msg : XBuf) (w : IsRing full msg) (code : ℕ) (bs : Bytes)
    (room : msg.len + (length bs + 7) ≤ msg.size) where
  abbrev pub hdr : Bytes
  hdr = mplex_header code (length bs)

  four : length hdr ≡ 4
  four = length-mplex_header code (length bs)

  unfoldable pub Put : XBuf → Type 0
  Put msg' =
      IsRing full msg'
      × (contents msg' ≡ contents msg ++ (hdr ++ bs))
      × (msg'.len ≡ msg.len + (4 + length bs))

  pub near_full : full ≤ msg.size + 3
  near_full = elim (Bool-cases (msg.size == full)) [
    | inl same ↦ ground arith
    | inr other ↦ (w.reduced (λ e. ground arith)).0
  ]

  -- In front of the ring's start.
  module _ (q size : ℕ) (inside : msg.pos < size) (size_le : size ≤ msg.size)
      (near : full ≤ size + 3) (at : size + q ≡ msg.pos + msg.len)
      (below : q + (4 + length bs) ≤ msg.pos)
      (old : contents msg ≡ slice msg.buf msg.pos (size - msg.pos) ++ slice msg.buf 0 q) where
    abbrev pub in_front : XBuf
    in_front = record {
      buf = memcpy (memcpy msg.buf (q + 4) bs) q hdr;
      pos = msg.pos;
      len = msg.len + 4 + length bs;
      size = size;
    }

    fits : q + (4 + length bs) ≤ length msg.buf
    fits = omega (arith, below, inside, size_le, w.size_le, w.whole)

    in_front-contents : contents in_front ≡ contents msg ++ (hdr ++ bs)
    in_front-contents =
        let b = in_front.buf in
        let more : msg.pos + (msg.len + 4 + length bs) - size ≡ q + (4 + length bs) =
          omega (arith, at) in
        let high = framed_else msg.buf hdr bs four q fits msg.pos (size - msg.pos) (inr below) in
        let low = framed_else msg.buf hdr bs four q fits 0 q (inl (omega arith)) in
        let zero_q : 0 + q ≡ q = omega arith in
        let tail : slice b 0 (q + (4 + length bs)) ≡ slice msg.buf 0 q ++ (hdr ++ bs) =
          slice-add b 0 q (4 + length bs)
          ∙ ap (λ (s : Bytes). s ++ slice b (0 + q) (4 + length bs)) low
          ∙ ap (λ (x : ℕ). slice msg.buf 0 q ++ slice b x (4 + length bs)) zero_q
          ∙ ap (λ (s : Bytes). slice msg.buf 0 q ++ s) (framed_self msg.buf hdr bs four q fits) in
        contents_wrapped in_front inside (omega (arith, at))
        ∙ ap (λ (x : ℕ). slice b msg.pos (size - msg.pos) ++ slice b 0 x) more
        ∙ ap (λ (s : Bytes). s ++ slice b 0 (q + (4 + length bs))) high
        ∙ ap (λ (s : Bytes). slice msg.buf msg.pos (size - msg.pos) ++ s) tail
        ∙ sym
            (append_assoc (slice msg.buf msg.pos (size - msg.pos)) (slice msg.buf 0 q) (hdr ++ bs))
        ∙ ap (λ (s : Bytes). s ++ (hdr ++ bs)) (sym old)

    pub in_front-Put : Put in_front
    unfolding Put
    in_front-Put = (
      record {
        whole =
            length-memcpy (memcpy msg.buf (q + 4) bs) q hdr
            ∙ length-memcpy msg.buf (q + 4) bs
            ∙ w.whole;
        pages = w.pages;
        inside = inside;
        room = omega (arith, at, below, inside);
        empty = λ e. absurd (omega (arith, e));
        size_le = omega (arith, size_le, w.size_le);
        reduced = λ e. (near, omega (arith, at));
      },
      in_front-contents,
      omega arith,
    )

  -- Behind the ring's end, in one piece.
  module _ (straight : msg.pos + msg.len + (4 + length bs) ≤ msg.size) where
    abbrev pub behind : XBuf
    behind = record {
      buf = memcpy (memcpy msg.buf (msg.pos + msg.len + 4) bs) (msg.pos + msg.len) hdr;
      pos = msg.pos;
      len = msg.len + 4 + length bs;
      size = msg.size;
    }

    behind_fits : msg.pos + msg.len + (4 + length bs) ≤ length msg.buf
    behind_fits = omega (arith, straight, w.size_le, w.whole)

    behind-contents : contents behind ≡ contents msg ++ (hdr ++ bs)
    behind-contents =
        let b = behind.buf in
        let q = msg.pos + msg.len in
        let total : msg.len + 4 + length bs ≡ msg.len + (4 + length bs) = omega arith in
        contents_straight behind (omega (arith, straight))
        ∙ ap (slice b msg.pos) total
        ∙ slice-add b msg.pos msg.len (4 + length bs)
        ∙ ap (λ (s : Bytes). s ++ slice b q (4 + length bs))
            (framed_else msg.buf hdr bs four q behind_fits msg.pos msg.len (inl (omega arith)))
        ∙ ap (λ (s : Bytes). slice msg.buf msg.pos msg.len ++ s)
            (framed_self msg.buf hdr bs four q behind_fits)
        ∙ ap (λ (s : Bytes). s ++ (hdr ++ bs))
            (sym (contents_straight msg (omega (arith, straight))))

    pub behind-Put : Put behind
    unfolding Put
    behind-Put = (
      record {
        whole =
            length-memcpy (memcpy msg.buf (msg.pos + msg.len + 4) bs) (msg.pos + msg.len) hdr
            ∙ length-memcpy msg.buf (msg.pos + msg.len + 4) bs
            ∙ w.whole;
        pages = w.pages;
        inside = w.inside;
        room = omega (arith, room);
        empty = λ e. absurd (omega (arith, e));
        size_le = w.size_le;
        reduced = λ e. ((w.reduced e).0, omega (arith, (w.reduced e).1));
      },
      behind-contents,
      omega arith,
    )

  -- Around the ring's end.
  module _ (header_fits : msg.pos + msg.len + 4 ≤ msg.size)
      (over : msg.size < msg.pos + msg.len + (4 + length bs)) where
    abbrev pub left : ℕ
    left = msg.size - (msg.pos + msg.len + 4)

    abbrev pub around : XBuf
    around = record {
      buf =
          memcpy (memcpy (memcpy msg.buf (msg.pos + msg.len + 4) (take left bs)) 0 (drop left bs))
            (msg.pos + msg.len) hdr;
      pos = msg.pos;
      len = msg.len + 4 + length bs;
      size = msg.size;
    }

    around-contents : contents around ≡ contents msg ++ (hdr ++ bs)
    around-contents =
        let b = around.buf in
        let q = msg.pos + msg.len in
        let k_le : left ≤ length bs = omega (arith, over, header_fits) in
        let in_buffer : q + 4 + left ≤ length msg.buf =
          omega (arith, header_fits, w.size_le, w.whole) in
        let below : length bs - left ≤ msg.pos = omega (arith, room, header_fits) in
        let low_le : msg.pos ≤ q = omega arith in
        let high : msg.size - msg.pos ≡ msg.len + (4 + left) = omega (arith, header_fits) in
        let more : msg.pos + (msg.len + 4 + length bs) - msg.size ≡ length bs - left =
          omega (arith, header_fits, over) in
        let first = split_first msg.buf hdr bs four q left msg.pos k_le in_buffer below low_le in
        let second = split_second msg.buf hdr bs four q left msg.pos k_le in_buffer below low_le in
        let same =
          split_else msg.buf hdr bs four q left msg.pos k_le in_buffer below low_le msg.len
            (omega arith) in
        let start : slice b msg.pos (msg.size - msg.pos)
            ≡ slice msg.buf msg.pos msg.len ++ (hdr ++ take left bs) =
          ap (slice b msg.pos) high
          ∙ slice-add b msg.pos msg.len (4 + left)
          ∙ ap (λ (s : Bytes). s ++ slice b q (4 + left)) same
          ∙ ap (λ (s : Bytes). slice msg.buf msg.pos msg.len ++ s) first in
        let joined : (slice msg.buf msg.pos msg.len ++ (hdr ++ take left bs)) ++ drop left bs
            ≡ slice msg.buf msg.pos msg.len ++ (hdr ++ bs) =
          append_assoc (slice msg.buf msg.pos msg.len) (hdr ++ take left bs) (drop left bs)
          ∙ ap (λ (s : Bytes). slice msg.buf msg.pos msg.len ++ s)
              (append_assoc hdr (take left bs) (drop left bs)
                ∙ ap (λ (s : Bytes). hdr ++ s) (take-append-drop left bs)) in
        contents_wrapped around w.inside (omega (arith, over))
        ∙ ap (λ (x : ℕ). slice b msg.pos (msg.size - msg.pos) ++ slice b 0 x) more
        ∙ ap (λ (s : Bytes). s ++ slice b 0 (length bs - left)) start
        ∙ ap (λ (s : Bytes). (slice msg.buf msg.pos msg.len ++ (hdr ++ take left bs)) ++ s) second
        ∙ joined
        ∙ ap (λ (s : Bytes). s ++ (hdr ++ bs))
            (sym (contents_straight msg (omega (arith, header_fits))))

    pub around-Put : Put around
    unfolding Put
    around-Put = (
      record {
        whole =
            length-memcpy
              (memcpy (memcpy msg.buf (msg.pos + msg.len + 4) (take left bs)) 0 (drop left bs))
              (msg.pos + msg.len) hdr
            ∙ length-memcpy (memcpy msg.buf (msg.pos + msg.len + 4) (take left bs)) 0 (drop left bs)
            ∙ length-memcpy msg.buf (msg.pos + msg.len + 4) (take left bs)
            ∙ w.whole;
        pages = w.pages;
        inside = w.inside;
        room = omega (arith, room);
        empty = λ e. absurd (omega (arith, e));
        size_le = w.size_le;
        reduced = λ e. ((w.reduced e).0, omega (arith, (w.reduced e).1));
      },
      around-contents,
      omega arith,
    )

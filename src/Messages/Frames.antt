-- ===== src/Messages/Frames.antt =====
-- io.c: a message that is put into the ring stands behind those that are there.
use rsync_wrapper.Prelude.{
  ℕ, ◌+◌, ◌-◌, ◌%◌, ◌≤◌, ◌<◌, ◌≡◌, ◌≢◌, refl, sym, ap, ◌∙◌, arith, ◌⊎◌, inl, inr, leb,
  if◌then◌else◌, true, Bool-cases,
}
use rsync_wrapper.Prelude.{Bytes, ◌++◌, length, take, drop, length-take, length-drop, append-nil}
use rsync_wrapper.Io.Word.{sival}
use rsync_wrapper.Messages.{XBuf, slice, memcpy, mplex_header}
use rsync_wrapper.Messages.Slices.{slice-add, length-memcpy, slice-memcpy, slice-memcpy_self}

-- The bytes of the ring, in their order.
unfoldable pub contents : XBuf → Bytes
unfolding slice
contents msg =
    if leb (msg.pos + msg.len) msg.size
    then slice msg.buf msg.pos msg.len
    else slice msg.buf msg.pos (msg.size - msg.pos)
      ++ slice msg.buf 0 (msg.pos + msg.len - msg.size)

-- The ring has `full` bytes, or up to three less while it is wrapped around its end.
pub record IsRing (full : ℕ) (msg : XBuf) : Type 0 where
  pub whole : length msg.buf ≡ full
  pub pages : full % 256 ≡ 0
  pub inside : msg.pos < msg.size
  pub room : msg.len ≤ msg.size
  pub empty : msg.len ≡ 0 → msg.pos ≡ 0
  pub size_le : msg.size ≤ full
  pub reduced : msg.size ≢ full → (full ≤ msg.size + 3) × (msg.size ≤ msg.pos + msg.len)

pub contents_straight :
    (msg : XBuf) → msg.pos + msg.len ≤ msg.size → contents msg ≡ slice msg.buf msg.pos msg.len
unfolding contents
contents_straight msg h =
    let e : leb (msg.pos + msg.len) msg.size ≡ true = ground (arith, h) in rw (contents, e) refl

pub contents_wrapped :
    (msg : XBuf)
    → msg.pos < msg.size
    → msg.size ≤ msg.pos + msg.len
    → contents msg
      ≡ slice msg.buf msg.pos (msg.size - msg.pos) ++ slice msg.buf 0 (msg.pos + msg.len - msg.size)
unfolding contents slice
contents_wrapped msg inside h = elim (Bool-cases (leb (msg.pos + msg.len) msg.size)) [
  | inl full ↦
      let e : msg.pos + msg.len - msg.size ≡ 0 = ground arith in
      let f : msg.size - msg.pos ≡ msg.len = ground (arith, inside) in
      rw (contents, full, e, f) (sym (append-nil (slice msg.buf msg.pos msg.len)))
  | inr wraps ↦ rw (contents, wraps) refl
]

pub length-mplex_header : (code n : ℕ) → length (mplex_header code n) ≡ 4
unfolding mplex_header sival
length-mplex_header code n = refl

-- A header at `q`, and the data behind it or elsewhere.
module _ (b hdr bs : Bytes) (four : length hdr ≡ 4) where
  -- In one piece.
  module _ (q : ℕ) (fits : q + (4 + length bs) ≤ length b) where
    abbrev pub framed : Bytes
    framed = memcpy (memcpy b (q + 4) bs) q hdr

    pub framed_self : slice framed q (4 + length bs) ≡ hdr ++ bs
    framed_self =
        let header : slice framed q 4 ≡ hdr =
          ap (slice framed q) (sym four)
          ∙ slice-memcpy_self (memcpy b (q + 4) bs) q hdr
              (omega (arith, four, fits, length-memcpy b (q + 4) bs)) in
        let text : slice framed (q + 4) (length bs) ≡ bs =
          slice-memcpy (memcpy b (q + 4) bs) q hdr (q + 4) (length bs) (inr (omega (arith, four)))
          ∙ slice-memcpy_self b (q + 4) bs (omega (arith, fits)) in
        slice-add framed q 4 (length bs)
        ∙ ap (λ (s : Bytes). s ++ slice framed (q + 4) (length bs)) header
        ∙ ap (λ (s : Bytes). hdr ++ s) text

    pub framed_else :
        (p n : ℕ) → (p + n ≤ q) ⊎ (q + (4 + length bs) ≤ p) → slice framed p n ≡ slice b p n
    framed_else p n (inl h) =
        slice-memcpy (memcpy b (q + 4) bs) q hdr p n (inl h)
        ∙ slice-memcpy b (q + 4) bs p n (inl (omega (arith, h)))
    framed_else p n (inr h) =
        slice-memcpy (memcpy b (q + 4) bs) q hdr p n (inr (omega (arith, h, four)))
        ∙ slice-memcpy b (q + 4) bs p n (inr (omega (arith, h)))

  -- Split at the end of the ring, `k` bytes before it.
  module _ (q k low : ℕ) (k_le : k ≤ length bs) (fits : q + 4 + k ≤ length b)
      (below : length bs - k ≤ low) (low_le : low ≤ q) where
    abbrev pub split : Bytes
    split = memcpy (memcpy (memcpy b (q + 4) (take k bs)) 0 (drop k bs)) q hdr

    first_length : length (take k bs) ≡ k
    first_length = ground (arith, length-take k bs, k_le)

    second_length : length (drop k bs) ≡ length bs - k
    second_length = length-drop k bs

    pub split_first : slice split q (4 + k) ≡ hdr ++ take k bs
    split_first =
        let header : slice split q 4 ≡ hdr =
          ap (slice split q) (sym four)
          ∙ slice-memcpy_self (memcpy (memcpy b (q + 4) (take k bs)) 0 (drop k bs)) q hdr (
              omega (
                arith,
                four,
                fits,
                length-memcpy b (q + 4) (take k bs),
                length-memcpy (memcpy b (q + 4) (take k bs)) 0 (drop k bs),
              )) in
        let text : slice split (q + 4) k ≡ take k bs =
          slice-memcpy (memcpy (memcpy b (q + 4) (take k bs)) 0 (drop k bs)) q hdr (q + 4) k
            (inr (omega (arith, four)))
          ∙ slice-memcpy (memcpy b (q + 4) (take k bs)) 0 (drop k bs) (q + 4) k
              (inr (omega (arith, second_length, below, low_le)))
          ∙ ap (slice (memcpy b (q + 4) (take k bs)) (q + 4)) (sym first_length)
          ∙ slice-memcpy_self b (q + 4) (take k bs) (omega (arith, fits, first_length)) in
        slice-add split q 4 k
        ∙ ap (λ (s : Bytes). s ++ slice split (q + 4) k) header
        ∙ ap (λ (s : Bytes). hdr ++ s) text

    pub split_second : slice split 0 (length bs - k) ≡ drop k bs
    split_second =
        slice-memcpy (memcpy (memcpy b (q + 4) (take k bs)) 0 (drop k bs)) q hdr 0 (length bs - k)
          (inl (omega (arith, below, low_le)))
        ∙ ap (slice (memcpy (memcpy b (q + 4) (take k bs)) 0 (drop k bs)) 0) (sym second_length)
        ∙ slice-memcpy_self (memcpy b (q + 4) (take k bs)) 0 (drop k bs)
            (omega (arith, second_length, below, low_le, fits, length-memcpy b (q + 4) (take k bs)))

    pub split_else : (n : ℕ) → low + n ≤ q → slice split low n ≡ slice b low n
    split_else n h =
        slice-memcpy (memcpy (memcpy b (q + 4) (take k bs)) 0 (drop k bs)) q hdr low n (inl h)
        ∙ slice-memcpy (memcpy b (q + 4) (take k bs)) 0 (drop k bs) low n
            (inr (omega (arith, second_length, below)))
        ∙ slice-memcpy b (q + 4) (take k bs) low n (inl (omega (arith, h)))

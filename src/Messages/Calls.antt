-- ===== src/Messages/Calls.antt =====
-- io.c: any messages, one after another.
use rsync_wrapper.Prelude.{
  ℕ, zero, suc, ◌+◌, ◌≤◌, ◌<◌, ◌≡◌, refl, sym, ap, ◌∙◌, arith, ltb, leb, ◌==◌, if◌then◌else◌, false,
  Bool-cases, inl, inr,
}
use rsync_wrapper.Prelude.{Bytes, List, [], ◌∷◌, ◌++◌, length, append_assoc, append-nil, ok}
use rsync_wrapper.Messages.{
  XBuf, slice, mplex_header, writable, wrote, put_msg, make_room, flush_for, send_msg, send_all,
}
use rsync_wrapper.Messages.Frames.{contents, IsRing}
use rsync_wrapper.Messages.Put.{Put}
use rsync_wrapper.Messages.Send.{put_msg-Put}
use rsync_wrapper.Messages.Stream.{near_ring, Wrote, wrote-Wrote}

-- Where there are bytes to write, a write takes at least one, and not more than there are in one piece.
unfoldable pub IsWrites : (XBuf → ℕ) → Type 0
IsWrites writes = (msg : XBuf) → 0 < writable msg → (0 < writes msg) × (writes msg ≤ writable msg)

-- The bytes of messages: to each its header.
unfoldable pub frames : List (ℕ × Bytes) → Bytes
unfolding mplex_header
frames [] = []
frames ((code, bs) ∷ messages) = (mplex_header code (length bs) ++ bs) ++ frames messages

-- Messages that go into a ring of `full` bytes.
unfoldable pub AllFit : ℕ → List (ℕ × Bytes) → Type 0
AllFit full [] = Unit
AllFit full ((code, bs) ∷ messages) = (length bs + 10 ≤ full) × AllFit full messages

-- Some bytes are written, and some are put behind the others.
record Passed (full : ℕ) (before : XBuf) (more out : Bytes) (after : XBuf) : Type 0 where
  ring : IsRing full after
  order : contents before ++ more ≡ out ++ contents after

module _ (full : ℕ) (writes : XBuf → ℕ) (h : IsWrites writes) where
  empty_room :
      (msg : XBuf)
      → IsRing full msg
      → (needed : ℕ) → needed ≤ full
      → msg.size < msg.len + needed
      → 0 < msg.len
  empty_room msg w needed fits less = elim (Bool-cases (msg.len == 0)) [
    | inl none_there ↦
        let z : msg.len ≡ 0 = ground arith in
        elim (Bool-cases (msg.size == full)) [
          | inl same ↦ absurd (ground (arith, fits))
          | inr other ↦
              absurd (omega (arith, (w.reduced (λ e. ground arith)).1, w.empty z, w.inside, z))
        ]
    | inr some_there ↦ ground arith
  ]

  some_writable : (msg : XBuf) → IsRing full msg → 0 < msg.len → 0 < writable msg
  unfolding writable
  some_writable msg w some_there = ground (arith, w.inside)

  make_room_lem :
      (fuel needed : ℕ) (msg : XBuf)
      → IsRing full msg
      → msg.len < fuel
      → needed ≤ full
      → (out : Bytes) × (msg' : XBuf) × (make_room writes fuel needed msg ≡ ok (out, msg'))
        × Passed full msg [] out msg'
        × (msg'.len + needed ≤ msg'.size)
  unfolding make_room Wrote IsWrites
  make_room_lem zero needed msg w less fits = absurd (omega (arith, less))
  make_room_lem (suc fuel) needed msg w less fits =
      elim (Bool-cases (leb (msg.len + needed) msg.size)) [
        | inl roomy ↦ (
          [],
          msg,
          rw (make_room, roomy) refl,
          record { ring = w; order = append-nil (contents msg) },
          ground arith,
        )
        | inr tight ↦
            let some_there = some_writable msg w (empty_room msg w needed fits (ground arith)) in
            let n = writes msg in
            let (ring, order, shorter) =
              wrote-Wrote full msg w n (h msg some_there).0 (h msg some_there).1 in
            let (out, msg', run, p, room) =
              make_room_lem fuel needed (wrote msg n) ring
                (omega (arith, shorter, less, (h msg some_there).0)) fits in
            (
              slice msg.buf msg.pos n ++ out,
              msg',
              rw (make_room, tight, run) refl,
              record {
                ring = p.ring;
                order =
                    append-nil (contents msg)
                    ∙ order
                    ∙ ap (λ (s : Bytes). slice msg.buf msg.pos n ++ s)
                        (sym (append-nil (contents (wrote msg n))) ∙ p.order)
                    ∙ sym (append_assoc (slice msg.buf msg.pos n) out (contents msg'));
              },
              room,
            )
      ]

  -- Room for a message is there, or is made.
  before_put :
      (msg : XBuf) (bs : Bytes)
      → IsRing full msg
      → length bs + 10 ≤ full
      → (out : Bytes) × (msg' : XBuf) × ((if ltb msg.size (msg.len + (length bs + 7))
            then flush_for writes (length bs + 7) msg
            else ok ([], msg))
          ≡ ok (out, msg'))
        × Passed full msg [] out msg'
        × (msg'.len + (length bs + 7) ≤ msg'.size)
  unfolding flush_for
  before_put msg bs w fits = elim (Bool-cases (ltb msg.size (msg.len + (length bs + 7)))) [
    | inl tight ↦
        let (out, msg', run, p, room) =
          make_room_lem (msg.len + 1) (length bs + 7) msg w (omega arith) (omega (arith, fits)) in
        let large : ltb msg.size (length bs + 7) ≡ false =
          ground (arith, fits, near_ring full msg w) in
        (out, msg', rw (tight, flush_for, large) run, p, room)
    | inr roomy ↦ (
      [],
      msg,
      rw roomy refl,
      record { ring = w; order = append-nil (contents msg) },
      ground arith,
    )
  ]

  send_msg_lem :
      (msg : XBuf) (code : ℕ) (bs : Bytes)
      → IsRing full msg
      → length bs + 10 ≤ full
      → (out : Bytes) × (msg' : XBuf) × (send_msg writes msg code bs ≡ ok (out, msg'))
        × Passed full msg (mplex_header code (length bs) ++ bs) out msg'
  unfolding send_msg Put
  send_msg_lem msg code bs w fits =
      let (out, mid, run, p, room) = before_put msg bs w fits in
      let frame = mplex_header code (length bs) ++ bs in
      let (ring, order, longer) = put_msg-Put full mid p.ring code bs room in
      (
        out,
        put_msg mid code bs,
        rw (send_msg, run) refl,
        record {
          ring = ring;
          order =
              ap (λ (s : Bytes). s ++ frame) (sym (append-nil (contents msg)) ∙ p.order)
              ∙ append_assoc out (contents mid) frame
              ∙ ap (λ (s : Bytes). out ++ s) (sym order);
        },
      )

  -- Whatever is sent with `send_msg` through a ring of messages, one message after another, each with ten bytes less than
  -- the ring at the most: every call ends, and the bytes that were written on the way, with those that stand in the
  -- ring at the end behind them, are the bytes that stood in it before and then every message with its header. No
  -- matter how many bytes a write takes, as long as it takes one, and where the ring wraps around.
  pub send_all_lem :
      (messages : List (ℕ × Bytes)) (msg : XBuf)
      → IsRing full msg
      → AllFit full messages
      → (out : Bytes) × (msg' : XBuf) × (send_all writes messages msg ≡ ok (out, msg'))
        × IsRing full msg'
        × (contents msg ++ frames messages ≡ out ++ contents msg')
  unfolding send_all frames AllFit
  send_all_lem [] msg w fits = ([], msg, refl, w, append-nil (contents msg))
  send_all_lem ((code, bs) ∷ messages) msg w fits =
      let (out, mid, step, p) = send_msg_lem msg code bs w fits.0 in
      let (outs, last, run, ring, order) = send_all_lem messages mid p.ring fits.1 in
      let frame = mplex_header code (length bs) ++ bs in
      (
        out ++ outs,
        last,
        rw (send_all, step, run) refl,
        ring,
        sym (append_assoc (contents msg) frame (frames messages))
            ∙ ap (λ (s : Bytes). s ++ frames messages) p.order
            ∙ append_assoc out (contents mid) (frames messages)
            ∙ ap (λ (s : Bytes). out ++ s) order
            ∙ sym (append_assoc out outs (contents last)),
      )

-- ===== src/Messages.antt =====
-- io.c: the buffer of messages for the multiplexed output, a ring of bytes: `send_msg` without conversion, and what
-- `perform_io` does to make room. Nothing else is written meanwhile, and the receiver, which makes its ring larger, is
-- left out.
pub mod Slices
pub mod Frames
pub mod Put
pub mod Send
pub mod Stream
pub mod Calls
use rsync_wrapper.Prelude.{
  ℕ, zero, suc, ◌+◌, ◌-◌, ◌*◌, ◌/◌, ◌%◌, ◌^◌, ltb, leb, ◌==◌, if◌then◌else◌, Bool, true, false, not,
  ◌&&◌, ◌||◌,
}
use rsync_wrapper.Prelude.{
  Bytes, List, [], ◌∷◌, ◌++◌, length, set, get_or, take, drop, Result, ok, exit, stuck,
  rerr_protocol, ◌>>=◌,
}
use rsync_wrapper.Io.Word.{sival}

pub record XBuf : Type 0 where
  pub buf : Bytes
  pub pos : ℕ
  pub len : ℕ
  pub size : ℕ

-- `memcpy(buf + at, data, len)`
unfoldable pub memcpy : Bytes → ℕ → Bytes → Bytes
memcpy buf at [] = buf
memcpy buf at (b ∷ bs) = memcpy (set buf at b) (suc at) bs

-- `SIVAL(hdr, 0, ((MPLEX_BASE + (int)code)<<24) + len)`
unfoldable pub mplex_header : ℕ → ℕ → Bytes
unfolding sival
mplex_header code len = sival ((7 + code) * 2 ^ 24 + len)

-- The place of the header, and the size with which it fits.
unfoldable pub header_pos : XBuf → ℕ
header_pos msg =
    let pos = msg.pos + msg.len in
    if leb msg.size pos then pos - msg.size else if ltb msg.size (pos + 4) then 0 else pos

unfoldable pub header_size : XBuf → ℕ
header_size msg =
    let pos = msg.pos + msg.len in
    if leb msg.size pos then msg.size else if ltb msg.size (pos + 4) then pos else msg.size

-- `if ((pos += 4) == iobuf.msg.size) pos = 0`
unfoldable pub data_pos : ℕ → ℕ → ℕ
data_pos q size = if q + 4 == size then 0 else q + 4

-- The copy of the data, split where it wraps around the end.
unfoldable pub put_data : Bytes → ℕ → ℕ → ℕ → Bytes → Bytes
unfolding memcpy
put_data buf start size at bs =
    if leb start at && ltb (size - at) (length bs)
    then memcpy (memcpy buf at (take (size - at) bs)) 0 (drop (size - at) bs)
    else memcpy buf at bs

-- From `pos = iobuf.msg.pos + iobuf.msg.len` on.
unfoldable pub put_msg : XBuf → ℕ → Bytes → XBuf
unfolding header_pos header_size data_pos put_data mplex_header memcpy
put_msg msg code bs =
    let q = header_pos msg in
    let size = header_size msg in
    record {
      buf =
          memcpy (put_data msg.buf msg.pos size (data_pos q size) bs) q
            (mplex_header code (length bs));
      pos = msg.pos;
      len = msg.len + 4 + length bs;
      size = size;
    }

-- `restore_iobuf_size`
unfoldable pub restored : ℕ → ℕ
restored size = if size % 256 == 0 then size else (size / 256 + 1) * 256

-- The bytes that one `write` can take.
unfoldable pub writable : XBuf → ℕ
writable msg = if ltb msg.size (msg.pos + msg.len) then msg.size - msg.pos else msg.len

-- `n` bytes were written.
unfoldable pub advance_pos : XBuf → ℕ → XBuf
unfolding restored
advance_pos msg n =
    if msg.pos + n == msg.size
    then record msg { pos = 0; size = restored msg.size }
    else record msg { pos = msg.pos + n }

unfoldable pub wrote : XBuf → ℕ → XBuf
unfolding advance_pos restored
wrote msg n =
    let out = advance_pos msg n in
    if msg.len - n == 0
    then record out { len = 0; pos = 0; size = restored out.size }
    else record out { len = msg.len - n }

-- The `n` bytes from `p` on.
unfoldable pub slice : Bytes → ℕ → ℕ → Bytes
slice b p zero = []
slice b p (suc n) = get_or b p 0 ∷ slice b (suc p) n

-- The loop of `perform_io` for PIO_NEED_MSGROOM, with the number of bytes that each `write` takes, and what was
-- written. A write takes a byte, so that the fuel is one more than the bytes that are there.
unfoldable pub make_room : (XBuf → ℕ) → ℕ → ℕ → XBuf → Result (Bytes × XBuf)
unfolding wrote slice
make_room writes zero needed msg = exit stuck
make_room writes (suc fuel) needed msg = elim (leb (msg.len + needed) msg.size) [
  | true ↦ ok ([], msg)
  | false ↦ (do
    (out, msg') ← make_room writes fuel needed (wrote msg (writes msg))
    ok (slice msg.buf msg.pos (writes msg) ++ out, msg'))
]

-- `perform_io(needed, PIO_NEED_MSGROOM)`, where the ring has data.
unfoldable pub flush_for : (XBuf → ℕ) → ℕ → XBuf → Result (Bytes × XBuf)
unfolding make_room
flush_for writes needed msg =
    if ltb msg.size needed then exit rerr_protocol else make_room writes (msg.len + 1) needed msg

-- `send_msg` of the sender or the generator, without conversion: what was written on the way, and the ring.
unfoldable pub send_msg : (XBuf → ℕ) → XBuf → ℕ → Bytes → Result (Bytes × XBuf)
unfolding flush_for put_msg
send_msg writes msg code bs = do
  (out, msg') ←
      (if ltb msg.size (msg.len + (length bs + 7))
        then flush_for writes (length bs + 7) msg
        else ok ([], msg))
  ok (out, put_msg msg' code bs)

-- One message after another.
unfoldable pub send_all : (XBuf → ℕ) → List (ℕ × Bytes) → XBuf → Result (Bytes × XBuf)
unfolding send_msg
send_all writes [] msg = ok ([], msg)
send_all writes ((code, bs) ∷ messages) msg = do
  (out, msg') ← send_msg writes msg code bs
  (outs, msg'') ← send_all writes messages msg'
  ok (out ++ outs, msg'')

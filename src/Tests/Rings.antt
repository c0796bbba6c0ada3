-- ===== src/Tests/Rings.antt =====
-- io.c: a small ring of messages.
use rsync_wrapper.Prelude.{ℕ, ◌≡◌, refl, arith, List, [], ◌∷◌, ◌++◌, Bytes, replicate, ok}
use rsync_wrapper.Messages.{XBuf, writable, send_all}
use rsync_wrapper.Messages.Frames.{contents, IsRing}
use rsync_wrapper.Messages.Calls.{IsWrites, frames, AllFit, send_all_lem}

abbrev ring : XBuf
ring = record { buf = replicate 256 0; pos = 0; len = 0; size = 256 }

-- One byte at a time.
one_byte : XBuf → ℕ
one_byte msg = 1

one_byte-IsWrites : IsWrites one_byte
unfolding IsWrites one_byte writable
one_byte-IsWrites msg h = (omega arith, omega (arith, h))

-- Three messages of 100 bytes do not fit at once.
abbrev messages : List (ℕ × Bytes)
messages = (2, replicate 100 7) ∷ (1, replicate 100 8) ∷ (2, replicate 100 9) ∷ []

ring-IsRing : IsRing 256 ring
ring-IsRing = record {
  whole = refl;
  pages = refl;
  inside = omega arith;
  room = omega arith;
  empty = λ e. refl;
  size_le = omega arith;
  reduced = λ e. absurd (e refl);
}

messages-AllFit : AllFit 256 messages
unfolding AllFit
messages-AllFit = (omega arith, (omega arith, (omega arith, tt)))

send_all_lem_example :
    (out : Bytes) × (msg : XBuf) × (send_all one_byte messages ring ≡ ok (out, msg))
    × IsRing 256 msg
    × (contents ring ++ frames messages ≡ out ++ contents msg)
send_all_lem_example =
    send_all_lem 256 one_byte one_byte-IsWrites messages ring ring-IsRing messages-AllFit

-- ===== src/Token.antt =====
-- token.c: tokens without compression. A token number i stands for block i, -1 for the end of the
-- file, and -2 for literal data with no token behind it.
use rsync_wrapper.Prelude.{ℕ, zero, suc, ◌+◌, ◌-◌, ◌*◌, min, ltb}
use rsync_wrapper.Prelude.{Bytes, [], ◌++◌, true, false, ok, ◌>>=◌}
use rsync_wrapper.Prelude.Int.{ℤ, pos, negsuc}
use rsync_wrapper.Io.Word.{Read, read_buf, write_int, read_int}
use rsync_wrapper.FileMap.{mapped_bytes}

abbrev pub chunk_size : ℕ
chunk_size = 32 * 1024

-- The loop of `simple_send_token` over the literal data, from `len` on. Each round sends a byte at
-- least, so `n` rounds are enough.
unfoldable pub send_literals : ℕ → Bytes → ℕ → ℕ → ℕ → Bytes
send_literals zero buf offset n len = []
send_literals (suc fuel) buf offset n len = elim (ltb len n) [
  | false ↦ []
  | true ↦
      let n1 = min chunk_size (n - len) in
      write_int (pos n1)
      ++ (mapped_bytes buf (offset + len) n1 ++ send_literals fuel buf offset n (len + n1))
]

-- `-(token + 1)`, unless the token is -2.
unfoldable pub token_bytes : ℤ → Bytes
token_bytes (pos i) = write_int (negsuc i)
token_bytes (negsuc zero) = write_int (pos 0)
token_bytes (negsuc (suc zero)) = []
token_bytes (negsuc (suc (suc n))) = write_int (pos (suc (suc n)))

unfoldable pub simple_send_token : ℤ → Bytes → ℕ → ℕ → Bytes
unfolding send_literals token_bytes
simple_send_token token buf offset n = send_literals n buf offset n 0 ++ token_bytes token

-- What `simple_recv_token` returns: its value, the data behind a positive value, and `residue`.
pub record Token : Type 0 where
  pub value : ℤ
  pub content : Bytes
  pub residue : ℕ

-- A part of the literal data of which `residue` bytes are still to come.
unfoldable pub recv_literal : ℕ → Read Token
recv_literal residue bs =
    let n = min chunk_size residue in
    do
      (d, rest) ← read_buf n bs
      ok (record { value = pos n; content = d; residue = residue - n }, rest)

unfoldable pub recv_first : ℤ → Read Token
unfolding recv_literal
recv_first (pos zero) bs = ok (record { value = pos 0; content = []; residue = 0 }, bs)
recv_first (pos (suc i)) bs = recv_literal (suc i) bs
recv_first (negsuc i) bs = ok (record { value = negsuc i; content = []; residue = 0 }, bs)

unfoldable pub simple_recv_token : ℕ → Read Token
unfolding recv_first
simple_recv_token zero bs = do (i, rest) ← read_int bs; recv_first i rest
simple_recv_token (suc residue) bs = recv_literal (suc residue) bs

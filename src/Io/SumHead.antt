-- ===== src/Io/SumHead.antt =====
-- io.c: the header of a block list.
pub mod Laws
use rsync_wrapper.Prelude.{
  ℕ, zero, suc, ◌+◌, ◌*◌, ◌/◌, ◌%◌, ◌^◌, ltb, leb, ◌==◌, if◌then◌else◌, Bool, true, false,
}
use rsync_wrapper.Prelude.{Bytes, [], ◌∷◌, ◌++◌, length, ◌||◌, ◌-◌}
use rsync_wrapper.Prelude.{Result, ok, exit, rerr_protocol, ◌>>=◌}
use rsync_wrapper.Prelude.Int.{ℤ, pos, negsuc}
use rsync_wrapper.Io.Word.{Read, read_buf, read_byte, write_int, read_int}

-- The fields of `struct sum_struct` that travel.
pub record SumHead : Type 0 where
  pub count : ℕ
  pub blength : ℕ
  pub s2length : ℕ
  pub remainder : ℕ

-- `protocol_version` and `csum_length`, which the two sides have agreed on.
pub record Protocol : Type 0 where
  pub version : ℕ
  pub csum_length : ℕ

-- OLD_MAX_BLOCK_SIZE, MAX_BLOCK_SIZE, and the choice between them.
unfoldable pub max_blength : Protocol → ℕ
max_blength p = if ltb p.version 30 then 2 ^ 29 else 2 ^ 17

-- A value that is negative or above `limit` ends the process.
unfoldable pub checked : ℕ → ℤ → Result ℕ
checked limit (pos n) = if ltb limit n then exit rerr_protocol else ok n
checked limit (negsuc n) = exit rerr_protocol

-- `sum->count` is an int32: only its sign is tested.
unfoldable pub checked_count : ℤ → Result ℕ
checked_count (pos n) = ok n
checked_count (negsuc n) = exit rerr_protocol

unfoldable pub read_s2length : Protocol → Read ℤ
read_s2length p bs = if ltb p.version 27 then ok (pos p.csum_length, bs) else read_int bs

-- `max_digest_len` is MAX_DIGEST_LEN, which depends on the digest libraries in the build.
unfoldable pub read_sum_head : ℕ → Protocol → Read SumHead
unfolding checked checked_count read_s2length max_blength
read_sum_head max_digest_len p bs = do
  (c, bs1) ← read_int bs
  count ← checked_count c
  (b, bs2) ← read_int bs1
  blength ← checked (max_blength p) b
  (l, bs3) ← read_s2length p bs2
  s2length ← checked max_digest_len l
  (r, bs4) ← read_int bs3
  remainder ← checked blength r
  ok (record { count = count; blength = blength; s2length = s2length; remainder = remainder }, bs4)

unfoldable pub write_sum_head : Protocol → SumHead → Bytes
write_sum_head p sum =
    write_int (pos sum.count)
    ++ (write_int (pos sum.blength)
        ++ ((if ltb p.version 27 then [] else write_int (pos sum.s2length))
            ++ write_int (pos sum.remainder)))

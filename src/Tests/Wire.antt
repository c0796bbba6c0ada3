-- ===== src/Tests/Wire.antt =====
-- io.c: the encodings at concrete values.
use rsync_wrapper.Prelude.{◌^◌, ◌≡◌, refl, arith, Bytes, [], ◌∷◌, ◌++◌, List, ok, false}
use rsync_wrapper.Prelude.Int.{ℤ, pos, negsuc}
use rsync_wrapper.Io.Word.{write_int, read_int, write_longint, read_longint, sival, u32_of}
use rsync_wrapper.Io.Word.Laws.{read_int-write_int, read_longint-write_longint}
use rsync_wrapper.Io.Varint.{write_varint, read_varint, write_varlong, read_varlong}
use rsync_wrapper.Io.Varint.Laws.{read_varint-write_varint, read_varlong-write_varlong}
use rsync_wrapper.Io.Ndx.{ndx_start, write_ndx}
use rsync_wrapper.Io.Ndx.Laws.{write_indices, read_indices, read_indices-write_indices}
use rsync_wrapper.Io.Vstring.{write_vstring, read_vstring}
use rsync_wrapper.Io.Vstring.Laws.{read_vstring-write_vstring}
use rsync_wrapper.Prelude.{some, replicate}
use rsync_wrapper.Io.SumHead.{SumHead, Protocol, read_sum_head, write_sum_head}
use rsync_wrapper.Io.SumHead.Laws.{
  InRange, IsSendable, read_sum_head-InRange, read_sum_head-write_sum_head,
}

abbrev after : Bytes
after = 7 ∷ 8 ∷ []

read_int-write_int_example : read_int (write_int (negsuc 4) ++ after) ≡ ok (negsuc 4, after)
read_int-write_int_example = read_int-write_int (negsuc 4) after (omega arith)

read_longint-write_longint_example :
    read_longint (write_longint (pos (2 ^ 40)) ++ after) ≡ ok (pos (2 ^ 40), after)
read_longint-write_longint_example = read_longint-write_longint (pos (2 ^ 40)) after (omega arith)

read_varint-write_varint_example :
    read_varint (write_varint (pos 300) ++ after) ≡ ok (pos 300, after)
read_varint-write_varint_example = read_varint-write_varint (pos 300) after (omega arith)

read_varlong-write_varlong_example :
    read_varlong 3 (write_varlong (negsuc 70000) 3 ++ after) ≡ ok (negsuc 70000, after)
read_varlong-write_varlong_example =
    read_varlong-write_varlong (negsuc 70000) 3 after (omega arith) (omega arith) (omega arith)

abbrev indices : List ℤ
indices = pos 0 ∷ pos 1 ∷ pos 70000 ∷ negsuc 0 ∷ negsuc 100 ∷ pos 2 ∷ []

read_indices-write_indices_example :
    read_indices false 6 ndx_start ((write_indices false indices ndx_start).0 ++ after)
    ≡ ok ((indices, (write_indices false indices ndx_start).1), after)
read_indices-write_indices_example =
    read_indices-write_indices false indices ndx_start after
      (omega arith, (omega arith, (omega arith, (omega arith, (omega arith, (omega arith, tt))))))

abbrev modern : Protocol
modern = record { version = 31; csum_length = 16 }

abbrev head : SumHead
head = record { count = 3; blength = 700; s2length = 16; remainder = 40 }

head-IsSendable : IsSendable 16 modern head
head-IsSendable =
    unfold rsync_wrapper.Io.SumHead.max_blength in
    record {
      ranges = record { block = omega arith; digest = omega arith; rest = omega arith };
      count_fits = omega arith;
      digest_fits = omega arith;
      agreed = λ h. cc;
    }

read_sum_head-write_sum_head_example :
    read_sum_head 16 modern (write_sum_head modern head ++ after) ≡ ok (head, after)
read_sum_head-write_sum_head_example =
    read_sum_head-write_sum_head 16 modern head after head-IsSendable

read_sum_head-InRange_example : InRange 16 modern head
read_sum_head-InRange_example =
    read_sum_head-InRange 16 modern (write_sum_head modern head ++ after)
      read_sum_head-write_sum_head_example

-- Runs.
varint_run : write_varint (pos 300) ≡ 129 ∷ 44 ∷ []
unfolding write_varint sival u32_of
varint_run = refl

-- A small step forward takes one byte, a far one a marker and four bytes, NDX_DONE a zero byte.
ndx_run_near : (write_ndx false (pos 5) ndx_start).0 ≡ 6 ∷ []
unfolding write_ndx u32_of
ndx_run_near = refl

ndx_run_done : (write_ndx false (negsuc 0) ndx_start).0 ≡ 0 ∷ []
unfolding write_ndx
ndx_run_done = refl

read_vstring-write_vstring_example :
    (sent : Bytes) × (write_vstring (replicate 200 65) ≡ ok sent)
    × (read_vstring 256 (sent ++ after) ≡ ok (some (replicate 200 65), after))
read_vstring-write_vstring_example =
    read_vstring-write_vstring (replicate 200 65) 256 after (omega arith)

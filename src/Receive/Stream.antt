-- ===== src/Receive/Stream.antt =====
-- token.c and receiver.c: what the receiver makes of the bytes that `simple_send_token` sends.
use rsync_wrapper.Prelude.{
  ℕ, zero, suc, ◌+◌, ◌-◌, ◌*◌, ◌^◌, ◌≤◌, ◌<◌, ◌≡◌, refl, arith, min, ap, ◌∙◌,
}
use rsync_wrapper.Prelude.{Bytes, [], ◌++◌, length}
use native.Mathlib.Decide.{dec_lt}
use rsync_wrapper.Prelude.{ok, append-nil, append_assoc, length-append}
use rsync_wrapper.Prelude.Int.{pos, negsuc}
use rsync_wrapper.Io.Word.{write_int}
use rsync_wrapper.Io.Word.Laws.{read_int-write_int}
use rsync_wrapper.Io.SumHead.{SumHead}
use rsync_wrapper.FileMap.{mapped_bytes, length-mapped_bytes, mapped_bytes-append}
use rsync_wrapper.Token.{chunk_size, send_literals, simple_send_token, simple_recv_token}
use rsync_wrapper.Receive.{
  Job, Receiver, receive_token, receive_loop, block_len, copy_block, mapped_file,
}
use rsync_wrapper.Receive.{place_block, sum_block, put_data}
use rsync_wrapper.Receive.Steps.{
  IsPlain, HasWritten, Gets, Gets-trans, Gets-refl, Gets-literal, one_round,
}
use rsync_wrapper.Receive.Steps.{round_of, length_int, block_goes_on, write_at_end}

send_literals-zero : (buf : Bytes) (offset n len : ℕ) → send_literals zero buf offset n len ≡ []
unfolding send_literals
send_literals-zero buf offset n len = refl

send_literals_more :
    (fuel : ℕ) (buf : Bytes) (offset n len : ℕ)
    → len < n
    → send_literals (suc fuel) buf offset n len
      ≡ write_int (pos (min chunk_size (n - len)))
        ++ (mapped_bytes buf (offset + len) (min chunk_size (n - len))
            ++ send_literals fuel buf offset n (len + min chunk_size (n - len)))
unfolding send_literals
send_literals_more fuel buf offset n len h = ground arith

send_literals_done :
    (fuel : ℕ) (buf : Bytes) (offset n len : ℕ)
    → n ≤ len
    → send_literals (suc fuel) buf offset n len ≡ []
unfolding send_literals
send_literals_done fuel buf offset n len h = ground arith

pub pieces_join :
    (w buf : Bytes) (o a o' b n : ℕ)
    → o + a ≡ o'
    → a + b ≡ n
    → (w ++ mapped_bytes buf o a) ++ mapped_bytes buf o' b ≡ w ++ mapped_bytes buf o n
pieces_join w buf o a o' b n e e' =
    append_assoc w (mapped_bytes buf o a) (mapped_bytes buf o' b)
    ∙ rw (← e, ← e') (ap (w ++◌) (mapped_bytes-append buf o a b))

module _ (job : Job) (sum : SumHead) (basis : Bytes) (plain : IsPlain job sum basis) where
  abbrev block : ℕ → Bytes
  block i = mapped_bytes basis (i * sum.blength) (block_len sum i)

  -- The receiver after a block.
  with_block : Bytes → Receiver → Receiver
  with_block d r =
      let r' = put_data job d (record r {
        residue = 0;
        matched_data = r.matched_data + length d;
        summed = r.summed ++ d;
      }) in
      record r' { offset = r'.offset + length d }

  recv_block :
      (i : ℕ) (rest : Bytes)
      → i < 2 ^ 31
      → simple_recv_token 0 (write_int (negsuc i) ++ rest)
        ≡ ok (record { value = negsuc i; content = []; residue = 0 }, rest)
  unfolding simple_recv_token
  recv_block i rest h = rw (read_int-write_int (negsuc i) rest h) refl

  block_received :
      (i : ℕ) (r : Receiver)
      → receive_token job sum (negsuc i) [] (record r { residue = 0 }) ≡ ok (with_block (block i) r)
  unfolding receive_token copy_block mapped_file place_block sum_block with_block
  block_received i r = ground (
    arith,
    plain.fresh,
    plain.mapped,
    length-mapped_bytes basis (i * sum.blength) (block_len sum i),
  )

  block_written :
      (w d : Bytes) (r : Receiver)
      → HasWritten job sum basis w r
      → HasWritten job sum basis (w ++ d) (with_block d r)
  unfolding with_block put_data
  block_written w d r p = record {
    between = ground (arith, plain.writes);
    at = ground (arith, plain.writes, length-append w d);
    cursor = ground (arith, plain.writes, length-append w d);
    file = ground (arith, plain.writes, write_at_end r.dest w d r.position);
    heard = ground (arith, plain.writes);
  }

  -- A block token adds the block of the basis file.
  pub Gets-block :
      (w rest : Bytes) (i : ℕ)
      → i < 2 ^ 31
      → Gets job sum basis w (write_int (negsuc i) ++ rest) (w ++ block i) rest
  Gets-block w rest i h = record {
    get = λ r p. (
      with_block (block i) r,
      block_written w (block i) r p,
      one_round job sum basis
          (omega
            (arith, length-append (write_int (negsuc i)) rest, length_int job sum basis (negsuc i)))
          (round_of job sum basis r _ rest [] (negsuc i) p.between (recv_block i rest h)
            (block_goes_on job sum basis i) (block_received i r)),
    );
  }

  Gets-chunk :
      (w d rest : Bytes) (n : ℕ)
      → length d ≡ n
      → 0 < n
      → n ≤ chunk_size
      → Gets job sum basis w (write_int (pos n) ++ (d ++ rest)) (w ++ d) rest
  Gets-chunk w d rest zero e h h' = absurd (omega arith)
  Gets-chunk w d rest (suc n) e h h' = Gets-literal job sum basis w d rest n plain e h'

  Gets-nothing :
      (w buf rest : Bytes) (o n : ℕ)
      → n ≡ 0
      → Gets job sum basis w rest (w ++ mapped_bytes buf o n) rest
  unfolding mapped_bytes
  Gets-nothing w buf rest o n e = rw e (rw append-nil (Gets-refl job sum basis w rest))

  -- Literal data arrives as it was sent, whatever the number of chunks.
  pub Gets-send_literals :
      (fuel : ℕ) (w buf rest : Bytes) (offset n len : ℕ)
      → n - len ≤ fuel
      → Gets job sum basis w
          (send_literals fuel buf offset n len ++ rest)
          (w ++ mapped_bytes buf (offset + len) (n - len))
          rest
  Gets-send_literals zero w buf rest offset n len h =
      rw (send_literals-zero buf offset n len)
        (Gets-nothing w buf rest (offset + len) (n - len) (omega arith))
  Gets-send_literals (suc fuel) w buf rest offset n len h = elim (dec_lt len n) [
    | yes more ↦
        let n1 = min chunk_size (n - len) in
        let first : Gets job sum basis w _ (w ++ mapped_bytes buf (offset + len) n1) _ =
          Gets-chunk w (mapped_bytes buf (offset + len) n1)
            (send_literals fuel buf offset n (len + n1) ++ rest) n1
            (length-mapped_bytes buf (offset + len) n1) (omega arith) (omega arith) in
        let tail =
          Gets-send_literals fuel (w ++ mapped_bytes buf (offset + len) n1) buf rest offset n
            (len + n1) (omega arith) in
        rw
          (
            send_literals_more fuel buf offset n len more,
            append_assoc (write_int (pos n1))
                (mapped_bytes buf (offset + len) n1 ++ send_literals fuel buf offset n (len + n1))
                rest,
            append_assoc (mapped_bytes buf (offset + len) n1)
                (send_literals fuel buf offset n (len + n1)) rest,
            ← pieces_join w buf (offset + len) n1 (offset + (len + n1)) (n - (len + n1)) (n - len)
                (omega arith) (omega arith),
          )
          (Gets-trans job sum basis first tail)
    | no done ↦
        rw (send_literals_done fuel buf offset n len (omega arith))
          (Gets-nothing w buf rest (offset + len) (n - len) (omega arith))
  ]

  Gets-all_literals :
      (w buf rest : Bytes) (offset n : ℕ)
      → Gets job sum basis w
          (send_literals n buf offset n 0 ++ rest)
          (w ++ mapped_bytes buf offset n)
          rest
  Gets-all_literals w buf rest offset n =
      let e : offset + 0 ≡ offset = omega arith in
      let e' : n - 0 ≡ n = omega arith in
      rw (e, e') at (Gets-send_literals n w buf rest offset n 0 (omega arith))

  -- Literal data and a block token, with any bytes behind them.
  pub Gets-token :
      (w buf rest : Bytes) (i offset n : ℕ)
      → i < 2 ^ 31
      → Gets job sum basis w
          (simple_send_token (pos i) buf offset n ++ rest)
          ((w ++ mapped_bytes buf offset n) ++ block i)
          rest
  unfolding simple_send_token
  Gets-token w buf rest i offset n h =
      rw (append_assoc (send_literals n buf offset n 0) (write_int (negsuc i)) rest) (
        Gets-trans job sum basis (Gets-all_literals w buf (write_int (negsuc i) ++ rest) offset n)
          (Gets-block (w ++ mapped_bytes buf offset n) rest i h))

  -- Literal data alone.
  pub Gets-data :
      (w buf rest : Bytes) (offset n : ℕ)
      → Gets job sum basis w
          (simple_send_token (negsuc 1) buf offset n ++ rest)
          (w ++ mapped_bytes buf offset n)
          rest
  unfolding simple_send_token
  Gets-data w buf rest offset n =
      rw (append-nil (send_literals n buf offset n 0)) (Gets-all_literals w buf rest offset n)

  -- Literal data and the end token: the loop ends with the bytes behind the token.
  pub Gets-end :
      (w buf rest : Bytes) (offset n : ℕ)
      → Gets job sum basis w
          (simple_send_token (negsuc 0) buf offset n ++ rest)
          (w ++ mapped_bytes buf offset n)
          (write_int (pos 0) ++ rest)
  unfolding simple_send_token
  Gets-end w buf rest offset n =
      rw (append_assoc (send_literals n buf offset n 0) (write_int (pos 0)) rest)
        (Gets-all_literals w buf (write_int (pos 0) ++ rest) offset n)

  pub receive_loop_end :
      (f : ℕ) (r : Receiver) (rest : Bytes)
      → r.residue ≡ 0
      → receive_loop (suc f) job sum r (write_int (pos 0) ++ rest) ≡ ok (r, rest)
  unfolding receive_loop simple_recv_token
  receive_loop_end f r rest e = ground (arith, read_int-write_int (pos 0) rest)

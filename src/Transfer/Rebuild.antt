-- ===== src/Transfer/Rebuild.antt =====
-- match.c and receiver.c: from `match_sums` to the end of `receive_data`.
use rsync_wrapper.Prelude.{ℕ, suc, ◌+◌, ◌-◌, ◌<◌, ◌≡◌, refl, arith, ltb, ap, ◌∙◌}
use rsync_wrapper.Prelude.{Bool, true, false, Bytes, [], ◌∷◌, ◌++◌, length, append_assoc, ok}
use rsync_wrapper.Prelude.{Bool-cases, inl, inr, ◌&&◌, length-append, if◌then◌else◌}
use rsync_wrapper.Prelude.Int.{pos}
use rsync_wrapper.Io.Word.{write_int}
use rsync_wrapper.Io.Word.Laws.{read_buf-append}
use rsync_wrapper.Io.SumHead.{SumHead, Protocol, write_sum_head}
use rsync_wrapper.Io.SumHead.Laws.{IsSendable, read_sum_head-write_sum_head}
use rsync_wrapper.Token.{chunk_size}
use rsync_wrapper.Match.{SumStruct, Sender}
use rsync_wrapper.Match.Search.{bytes_eq}
use rsync_wrapper.Match.Send.{fresh_sender, send_file, match_sums, spoil}
use rsync_wrapper.Receive.{
  Job, Receiver, fresh_receiver, receive_loop, receive_data, truncate_to, seek_end, mapped_file,
}
use rsync_wrapper.Receive.Steps.{IsPlain, HasWritten, Gets}
use rsync_wrapper.Receive.Stream.{receive_loop_end}
use rsync_wrapper.Transfer.Search.{Truthful}
use rsync_wrapper.Transfer.File.{
  Delivers, Delivers-end, fresh-IsSent, send_chunks-IsSent, hash_search-Delivers,
}

pub bytes_eq_refl : (b : Bytes) → bytes_eq b b ≡ true
unfolding bytes_eq
bytes_eq_refl [] = refl
bytes_eq_refl (x ∷ b) = ground (arith, bytes_eq_refl b)

-- A block list that has all its blocks and describes the basis file, for a sender's file that is made of
-- bytes: blocks are less than 2 ^ 31 and have a positive length, and no window of the search has the two checksums of a block that
-- it is not.
pub record IsUsable (get_checksum2 : Bytes → Bytes) (buf : Bytes) (s : SumStruct) (sum : SumHead)
    (basis : Bytes) : Type 0 where
  pub block_length : 0 < s.blength
  pub complete : length s.sums ≡ s.count
  pub truthful : Truthful get_checksum2 buf s sum basis s.sums

-- The job writes a new file in full, next to the basis file.
pub record IsFresh (job : Job) (sum : SumHead) (basis : Bytes) : Type 0 where
  pub plain : IsPlain job sum basis
  pub no_resize : job.inplace_sizing ≡ false
  pub no_append : job.append_mode ≡ 0

module _ (get_checksum2 sum_end : Bytes → Bytes) (buf : Bytes) (s : SumStruct) (job : Job)
    (sum : SumHead) (basis : Bytes) (fresh : IsFresh job sum basis)
    (usable : IsUsable get_checksum2 buf s sum basis) where
  abbrev Sends : Sender → Type 0
  Sends = Delivers get_checksum2 sum_end buf s job sum basis fresh.plain

  send_file-search :
      (ltb 0 (length buf) && ltb 0 s.count) ≡ true
      → (g : Sender) × (send_file get_checksum2 sum_end false s buf fresh_sender ≡ ok g) × Sends g
  unfolding send_file
  send_file-search test =
      let (g, e, d) =
        hash_search-Delivers get_checksum2 sum_end buf s job sum basis fresh.plain (ground arith)
          (ground arith) usable.block_length usable.complete usable.truthful in
      (g, rw test e, d)

  send_file-chunks :
      (ltb 0 (length buf) && ltb 0 s.count) ≡ false
      → (g : Sender) × (send_file get_checksum2 sum_end false s buf fresh_sender ≡ ok g) × Sends g
  unfolding send_file
  send_file-chunks test =
      let (sent, lm) =
        send_chunks-IsSent get_checksum2 sum_end buf s job sum basis fresh.plain (length buf)
          (0 + chunk_size) fresh_sender (omega arith) (omega arith)
          (fresh-IsSent get_checksum2 sum_end buf s job sum basis fresh.plain fresh_sender refl refl
            refl) in
      (
        _,
        rw test refl,
        Delivers-end get_checksum2 sum_end buf s job sum basis fresh.plain s.sums _ lm sent,
      )

  send_file-Sends :
      (g : Sender) × (send_file get_checksum2 sum_end false s buf fresh_sender ≡ ok g) × Sends g
  send_file-Sends = elim (Bool-cases (ltb 0 (length buf) && ltb 0 s.count)) [
    | inl test ↦ send_file-search test
    | inr test ↦ send_file-chunks test
  ]

  -- What the sender puts on the connection for the file, with or without a read error.
  pub match_sums-Sends :
      (read_error : Bool)
      → (g g' : Sender) × (match_sums get_checksum2 sum_end false 0 read_error s buf ≡ ok g')
        × (g'.out ≡ g.out ++ (if read_error then spoil (sum_end buf) else sum_end buf))
        × Sends g
  unfolding match_sums
  match_sums-Sends read_error =
      let (g, e, d) = send_file-Sends in
      let sum_of = λ (x : Bytes). if read_error then spoil (sum_end x) else sum_end x in
      (
        g,
        record g { out = g.out ++ sum_of g.summed },
        rw e refl,
        ap (λ x. g.out ++ sum_of x) d.heard,
        d,
      )

  fresh_start : HasWritten job sum basis [] (fresh_receiver job)
  fresh_start = record {
    between = refl;
    at = refl;
    cursor = refl;
    file = rw (fresh.plain.mapped, fresh.plain.fresh) refl;
    heard = refl;
  }

  no_seek :
      (head : SumHead) (r : Receiver) → seek_end job.append_mode head (mapped_file job r) r ≡ r
  unfolding seek_end
  no_seek head r = rw fresh.no_append refl

  not_truncated : (r : Receiver) → truncate_to job r ≡ r
  unfolding truncate_to
  not_truncated r = rw fresh.no_resize refl

  loop_runs :
      (bs rest : Bytes)
      → Gets job sum basis [] bs buf (write_int (pos 0) ++ rest)
      → (r : Receiver) × (receive_loop (length bs + 1) job sum (fresh_receiver job) bs
          ≡ ok (r, rest))
        × HasWritten job sum basis buf r
  loop_runs bs rest gets =
      let (r, w, a) = gets.get (fresh_receiver job) fresh_start in
      let left = length bs - a.rounds in
      let fuel : length bs + 1 ≡ a.rounds + suc left =
        omega (arith, a.few, length-append (write_int (pos 0)) rest) in
      (
        r,
        rw fuel
            (a.runs (suc left) ∙ receive_loop_end job sum basis fresh.plain left r rest w.between),
        w,
      )

  -- The receiver's run over a file's tokens and the checksum behind them.
  pub receive_data-runs :
      (sum_len max_digest_len : ℕ) (p : Protocol) (g : Sender) (file_sum rest : Bytes)
      → IsSendable max_digest_len p sum
      → length file_sum ≡ sum_len
      → Sends g
      → (r : Receiver) × (receive_data sum_end sum_len max_digest_len p job
            (write_sum_head p sum ++ (g.out ++ (file_sum ++ rest)))
          ≡ ok ((r, bytes_eq (sum_end buf) file_sum), rest))
        × (r.dest ≡ buf)
  unfolding receive_data
  receive_data-runs sum_len max_digest_len p g file_sum rest sendable len d =
      let (r, runs, w) =
        loop_runs (g.out ++ (file_sum ++ rest)) (file_sum ++ rest) (d.whole (file_sum ++ rest)) in
      (
        r,
        rw
            (
              read_sum_head-write_sum_head max_digest_len p sum (g.out ++ (file_sum ++ rest))
                  sendable,
              no_seek sum (fresh_receiver job),
            )
            (rw runs (
              rw (rw len at (read_buf-append file_sum rest))
                (rw (not_truncated r, fresh.plain.writes, w.heard) refl))),
        w.file,
      )

-- `match_sums` and `receive_data` rebuild the file, where the job writes a new file in full next to the basis
-- file (not in place, no append), the header may be sent, `sum_len` is the length of the file's digest, and
-- the list is usable: it has all its blocks, less than 2 ^ 31, they describe the basis file and have a positive
-- length, the file is made of bytes, and a window of the search that has the weak checksum of a block and the part of its
-- strong checksum that is sent is that block's data. Then `match_sums` ends; its bytes behind the header make
-- `receive_data` end with exactly the sender's file written, the whole-file checksum verified, and the bytes
-- that follow left on the connection.
pub receive_data-match_sums :
    (get_checksum2 sum_end : Bytes → Bytes) (buf : Bytes) (s : SumStruct) (job : Job)
    (sum : SumHead) (basis : Bytes) (sum_len max_digest_len : ℕ) (p : Protocol) (rest : Bytes)
    → IsFresh job sum basis
    → IsUsable get_checksum2 buf s sum basis
    → IsSendable max_digest_len p sum
    → length (sum_end buf) ≡ sum_len
    → (g : Sender) × (r : Receiver) × (match_sums get_checksum2 sum_end false 0 false s buf ≡ ok g)
      × (receive_data sum_end sum_len max_digest_len p job (write_sum_head p sum ++ (g.out ++ rest))
          ≡ ok ((r, true), rest))
      × (r.dest ≡ buf)
receive_data-match_sums get_checksum2 sum_end buf s job sum basis sum_len max_digest_len p rest
      fresh usable sendable len =
    let (g, g', sent, out, d) =
      match_sums-Sends get_checksum2 sum_end buf s job sum basis fresh usable false in
    let (r, received, same) =
      receive_data-runs get_checksum2 sum_end buf s job sum basis fresh usable sum_len
        max_digest_len p g (sum_end buf) rest sendable len d in
    (
      g',
      r,
      sent,
      rw (out, append_assoc g.out (sum_end buf) rest) (rw bytes_eq_refl at received),
      same,
    )

-- ===== src/Session.antt =====
-- generator.c, sender.c, match.c and receiver.c: one file from the generator's block list to the file
-- that the receiver has written.
use rsync_wrapper.Prelude.{ℕ, zero, suc, ◌+◌, ◌^◌, ◌<◌, ◌≡◌, refl, arith, ap, sym}
use rsync_wrapper.Prelude.{
  true, false, Bytes, AreBytes, ◌++◌, ◌∙◌, length, some, ok, take, get_elem?, ◌≤◌,
}
use rsync_wrapper.Prelude.{some_inj}
use rsync_wrapper.Io.SumHead.{SumHead, Protocol, write_sum_head}
use rsync_wrapper.Io.SumHead.Laws.{IsSendable}
use rsync_wrapper.Checksum.{get_checksum1}
use rsync_wrapper.Transfer.Rolls.{window_bytes}
use rsync_wrapper.Match.{SumBuf, SumStruct, Sender}
use rsync_wrapper.Match.Search.{digest_eq}
use rsync_wrapper.Match.Send.{match_sums}
use rsync_wrapper.Receive.{Job, Receiver, block_len, receive_data}
use rsync_wrapper.Blocks.{sum_sizes_sqroot, generate_and_send_sums, receive_sums, made_struct}
use rsync_wrapper.Blocks.Laws.{
  block, entry, described, sum_sizes_sqroot-Covers, receive_sums-generate_and_send_sums,
}
use rsync_wrapper.Transfer.Search.{Truthful}
use rsync_wrapper.Transfer.Rebuild.{IsUsable, IsFresh, receive_data-match_sums}

-- The two checksums, the strong one as far as it is sent, tell the blocks of the basis file from the other
-- windows that the search comes to: those that start inside the file, of a block's length, or less where
-- the file ends.
pub record Identifies (get_checksum2 : Bytes → Bytes) (buf : Bytes) (sum : SumHead) (basis : Bytes)
    : Type 0 where
  pub same :
      (i offset : ℕ)
      → i < sum.count
      → offset < length buf
      → get_checksum1 (window_bytes buf sum.blength offset)
        ≡ get_checksum1 (block get_checksum2 sum basis i)
      → digest_eq sum.s2length
          (get_checksum2 (window_bytes buf sum.blength offset))
          (take sum.s2length (get_checksum2 (block get_checksum2 sum basis i)))
        ≡ true
      → window_bytes buf sum.blength offset ≡ block get_checksum2 sum basis i

module _ (get_checksum2 : Bytes → Bytes) (sum : SumHead) (basis : Bytes) where
  pub length-described : (n i : ℕ) → length (described get_checksum2 sum basis n i) ≡ n
  unfolding described
  length-described zero i = refl
  length-described (suc n) i = ap suc (length-described n (suc i))

  get_elem?-described :
      (n i k : ℕ) (e : SumBuf)
      → get_elem? (described get_checksum2 sum basis n i) k ≡ some e
      → (k < n) × (e ≡ entry get_checksum2 sum basis (i + k))
  unfolding described
  get_elem?-described zero i k e h = cc
  get_elem?-described (suc n) i zero e h =
      let z : i + 0 ≡ i = omega arith in (omega arith, rw z (sym (some_inj h)))
  get_elem?-described (suc n) i (suc k) e h =
      let (lt, same) = get_elem?-described n (suc i) k e h in
      let z : i + suc k ≡ suc i + k = omega arith in (omega arith, rw z same)

  described-entry :
      (n i : ℕ) (e : SumBuf)
      → get_elem? (described get_checksum2 sum basis n 0) i ≡ some e
      → e ≡ entry get_checksum2 sum basis i
  described-entry n i e h =
      let z : 0 + i ≡ i = omega arith in rw z at ((get_elem?-described n 0 i e h).1)

  block_len-pos : (i : ℕ) → 0 < sum.blength → 0 < block_len sum i
  unfolding block_len
  block_len-pos i h = ground arith

  pub described-Truthful :
      (buf : Bytes) (flength : ℕ)
      → 0 < sum.blength
      → sum.count < 2 ^ 31
      → AreBytes buf
      → Identifies get_checksum2 buf sum basis
      → Truthful get_checksum2 buf
          (made_struct sum (described get_checksum2 sum basis sum.count 0) flength)
          sum
          basis
          (described get_checksum2 sum basis sum.count 0)
  unfolding made_struct entry block
  described-Truthful buf flength pos fits bytes known = record {
    bytes = bytes;
    numbered = λ i e there. omega (arith, (get_elem?-described sum.count 0 i e there).0);
    len = λ i e there. ap (λ (x : SumBuf). x.len) (described-entry sum.count i e there);
    positive = λ i e there.
        rw (ap (λ (x : SumBuf). x.len) (described-entry sum.count i e there)) (block_len-pos i pos);
    identifies = λ i e offset there inside weak same.
        let e' = described-entry sum.count i e there in
        known.same i offset (get_elem?-described sum.count 0 i e there).0 inside
          (weak ∙ ap (λ (x : SumBuf). x.sum1) e') (rw (ap (λ (x : SumBuf). x.sum2) e') at same);
  }

-- A whole file, for any two files and any block size. The generator sends the block list of the old file,
-- the sender reads it and sends the new file against it, and the receiver, from those bytes and the old
-- file, ends with exactly the new file written, its checksum verified, and all that follows on either
-- connection left there. The conditions: the generator chooses a head, which may be sent; the job writes a
-- new file in full next to the old one (not in place, no append); the digests have their lengths; the new
-- file is made of bytes; and a window of it that the search comes to, with the weak checksum of a block of the
-- old file and the part of its strong checksum that is sent, is that block's data.
pub session_rebuilds :
    (get_checksum2 sum_end : Bytes → Bytes) (block_size max_digest_len sum_len : ℕ) (p : Protocol)
    (job : Job) (basis buf after_list after_file : Bytes) (sum : SumHead)
    → sum_sizes_sqroot block_size p (length basis) ≡ some sum
    → IsSendable max_digest_len p sum
    → IsFresh job sum basis
    → ((b : Bytes) → sum.s2length ≤ length (get_checksum2 b))
    → AreBytes buf
    → Identifies get_checksum2 buf sum basis
    → length (sum_end buf) ≡ sum_len
    → (list : Bytes) × (s : SumStruct) × (g : Sender) × (r : Receiver) × (generate_and_send_sums
          get_checksum2 block_size p 0 basis
        ≡ some list)
      × (receive_sums max_digest_len p 0 (list ++ after_list) ≡ ok (s, after_list))
      × (match_sums get_checksum2 sum_end false 0 false s buf ≡ ok g)
      × (receive_data sum_end sum_len max_digest_len p job
            (write_sum_head p sum ++ (g.out ++ after_file))
          ≡ ok ((r, true), after_file))
      × (r.dest ≡ buf)
session_rebuilds get_checksum2 sum_end block_size max_digest_len sum_len p job basis buf after_list
      after_file sum sizes sendable fresh long bytes known len =
    let (pos, covers) = sum_sizes_sqroot-Covers block_size p (length basis) sizes in
    let (list, generated, listed) =
      receive_sums-generate_and_send_sums get_checksum2 block_size max_digest_len p basis after_list
        sum sizes sendable long in
    let s : SumStruct =
      made_struct sum (described get_checksum2 sum basis sum.count 0) (length basis) in
    let usable : IsUsable get_checksum2 buf s sum basis =
      unfold made_struct in
      record {
        block_length = pos;
        complete = length-described get_checksum2 sum basis sum.count 0;
        truthful =
            described-Truthful get_checksum2 sum basis buf (length basis) pos sendable.count_fits
              bytes known;
      } in
    let (g, r, matched, received, same) =
      receive_data-match_sums get_checksum2 sum_end buf s job sum basis sum_len max_digest_len p
        after_file fresh usable sendable len in
    (list, s, g, r, generated, listed, matched, received, same)

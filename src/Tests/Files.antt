-- ===== src/Tests/Files.antt =====
-- The block list, the search and the rebuilt file at two small files.
use rsync_wrapper.Prelude.{ℕ, ◌*◌, ◌≤◌, ◌≡◌, refl, arith}
use rsync_wrapper.Prelude.{true, false, Bytes, [], ◌∷◌, ◌++◌, length, some, ok, take, replicate}
use rsync_wrapper.Io.Word.{sival}
use rsync_wrapper.Io.SumHead.{SumHead, Protocol, max_blength, write_sum_head}
use rsync_wrapper.Io.SumHead.Laws.{IsSendable}
use rsync_wrapper.FileMap.{mapped_bytes}
use rsync_wrapper.Transfer.Rolls.{window_bytes}
use rsync_wrapper.Prelude.{
  ◌+◌, ◌%◌, ◌^◌, ◌==◌, Bool, not, ◌&&◌, ◌||◌, AreBytes, holds_below, holds_below-lt,
}
use rsync_wrapper.Checksum.{get_checksum1}
use rsync_wrapper.Match.{SumStruct, Sender}
use rsync_wrapper.Match.Search.{bytes_eq, digest_eq}
use rsync_wrapper.Match.Send.{match_sums}
use rsync_wrapper.Receive.{Job, Receiver, block_len, receive_data}
use rsync_wrapper.Blocks.{sum_sizes_sqroot, generate_and_send_sums, receive_sums, made_struct}
use rsync_wrapper.Blocks.Laws.{block, described, receive_sums-generate_and_send_sums}
use rsync_wrapper.Transfer.Rebuild.{IsUsable, IsFresh, receive_data-match_sums}
use rsync_wrapper.Transfer.ReadError.{receive_data-read_error}
use rsync_wrapper.Session.{Identifies, length-described, described-Truthful, session_rebuilds}

-- A polynomial in the bytes, as a number of 32 bits.
abbrev poly : ℕ → Bytes → ℕ
poly h [] = h
poly h (b ∷ bs) = poly ((h * 31 + b) % 2 ^ 32) bs

-- Digests of 16 bytes and of four.
abbrev digest : Bytes → Bytes
digest b = sival (poly 7 b) ++ replicate 12 0

abbrev file_digest : Bytes → Bytes
file_digest b = sival (get_checksum1 b)

abbrev old_file : Bytes
old_file =
    1 ∷ 2 ∷ 3 ∷ 4 ∷ 5 ∷ 6 ∷ 7 ∷ 8 ∷ 11 ∷ 12 ∷ 13 ∷ 14 ∷ 15 ∷ 16 ∷ 17 ∷ 18 ∷ 21 ∷ 22 ∷ 23 ∷ 24 ∷ []

-- Its second block, a byte that is new, its first block, and its short last block.
abbrev new_file : Bytes
new_file =
    11 ∷ 12 ∷ 13 ∷ 14 ∷ 15 ∷ 16 ∷ 17 ∷ 18 ∷ 99 ∷ 1 ∷ 2 ∷ 3 ∷ 4 ∷ 5 ∷ 6 ∷ 7 ∷ 8 ∷ 21 ∷ 22 ∷ 23 ∷ 24
    ∷ []

abbrev agreed : Protocol
agreed = record { version = 31; csum_length = 16 }

abbrev head : SumHead
head = record { count = 3; blength = 8; s2length = 16; remainder = 4 }

abbrev job : Job
job = record {
  basis = some old_file;
  updating = false;
  writing = true;
  inplace_sizing = false;
  append_mode = 0;
}

head-chosen : sum_sizes_sqroot 8 agreed 20 ≡ some head
unfolding sum_sizes_sqroot
head-chosen = refl

head-IsSendable : IsSendable 16 agreed head
head-IsSendable =
    unfold max_blength in
    record {
      ranges = record { block = omega arith; digest = omega arith; rest = omega arith };
      count_fits = omega arith;
      digest_fits = omega arith;
      agreed = λ h. cc;
    }

job-IsFresh : IsFresh job head old_file
job-IsFresh = record {
  plain = record { fresh = refl; writes = refl; mapped = refl };
  no_resize = refl;
  no_append = refl;
}

digest_long : (b : Bytes) → 16 ≤ length (digest b)
digest_long b = unfold sival in omega arith

length-file_digest : length (file_digest new_file) ≡ 4
length-file_digest = unfold sival in refl

bytes_eq→≡ : (a b : Bytes) → bytes_eq a b ≡ true → a ≡ b
unfolding bytes_eq
bytes_eq→≡ [] [] h = refl
bytes_eq→≡ [] (y ∷ b) h = cc
bytes_eq→≡ (x ∷ a) [] h = cc
bytes_eq→≡ (x ∷ a) (y ∷ b) h = ground (arith, bytes_eq→≡ a b)

-- No window of the new file has both checksums of a block that it is not.
tells : ℕ → ℕ → Bool
tells i offset =
    let w = window_bytes new_file 8 offset in
    let b = block digest head old_file i in
    not (get_checksum1 w == get_checksum1 b && digest_eq 16 (digest w) (take 16 (digest b)))
    || bytes_eq w b

all_told : holds_below (λ i. holds_below (tells i) 21) 3 ≡ true
unfolding holds_below tells get_checksum1 mapped_bytes block block_len digest_eq sival
all_told = refl

known : Identifies digest new_file head old_file
unfolding tells
known = record {
  same = λ i offset less inside weak strong.
      let checked = holds_below-lt _ 21 offset inside (holds_below-lt _ 3 i less all_told) in
      bytes_eq→≡ (window_bytes new_file 8 offset) (block digest head old_file i) (ground arith);
}

new_file-AreBytes : AreBytes new_file
new_file-AreBytes = omega arith

abbrev list : SumStruct
list = made_struct head (described digest head old_file 3 0) 20

list-IsUsable : IsUsable digest new_file list head old_file
list-IsUsable =
    unfold made_struct in
    record {
      block_length = omega arith;
      complete = length-described digest head old_file 3 0;
      truthful =
          described-Truthful digest head old_file new_file 20 (omega arith) (omega arith)
            new_file-AreBytes known;
    }

abbrev after : Bytes
after = 5 ∷ 6 ∷ []

receive_sums-generate_and_send_sums_example :
    (sent : Bytes) × (generate_and_send_sums digest 8 agreed 0 old_file ≡ some sent)
    × (receive_sums 16 agreed 0 (sent ++ after) ≡ ok (list, after))
receive_sums-generate_and_send_sums_example =
    receive_sums-generate_and_send_sums digest 8 16 agreed old_file after head head-chosen
      head-IsSendable digest_long

receive_data-match_sums_example :
    (g : Sender) × (r : Receiver) × (match_sums digest file_digest false 0 false list new_file
      ≡ ok g)
    × (receive_data file_digest 4 16 agreed job (write_sum_head agreed head ++ (g.out ++ after))
        ≡ ok ((r, true), after))
    × (r.dest ≡ new_file)
receive_data-match_sums_example =
    receive_data-match_sums digest file_digest new_file list job head old_file 4 16 agreed after
      job-IsFresh list-IsUsable head-IsSendable length-file_digest

receive_data-read_error_example :
    (g : Sender) × (r : Receiver) × (match_sums digest file_digest false 0 true list new_file
      ≡ ok g)
    × (receive_data file_digest 4 16 agreed job (write_sum_head agreed head ++ (g.out ++ after))
        ≡ ok ((r, false), after))
    × (r.dest ≡ new_file)
receive_data-read_error_example =
    receive_data-read_error digest file_digest new_file list job head old_file 4 16 agreed after
      job-IsFresh list-IsUsable head-IsSendable length-file_digest (omega arith)

session_rebuilds_example :
    (sent : Bytes) × (s : SumStruct) × (g : Sender) × (r : Receiver) × (generate_and_send_sums
        digest 8 agreed 0 old_file
      ≡ some sent)
    × (receive_sums 16 agreed 0 (sent ++ after) ≡ ok (s, after))
    × (match_sums digest file_digest false 0 false s new_file ≡ ok g)
    × (receive_data file_digest 4 16 agreed job (write_sum_head agreed head ++ (g.out ++ after))
        ≡ ok ((r, true), after))
    × (r.dest ≡ new_file)
session_rebuilds_example =
    session_rebuilds digest file_digest 8 16 4 agreed job old_file new_file after after head
      head-chosen head-IsSendable job-IsFresh digest_long new_file-AreBytes known length-file_digest

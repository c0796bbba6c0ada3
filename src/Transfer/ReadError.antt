-- ===== src/Transfer/ReadError.antt =====
-- match.c: a read error of the sender reaches the receiver as a checksum that cannot be right.
use rsync_wrapper.Prelude.{ℕ, zero, suc, ◌-◌, ◌<◌, ◌≡◌, refl, arith, ap, ◌∙◌}
use rsync_wrapper.Prelude.{true, false, Bytes, [], ◌∷◌, ◌++◌, length, append_assoc, ok}
use rsync_wrapper.Prelude.{if_cases, length-append, replicate}
use rsync_wrapper.Io.SumHead.{SumHead, Protocol, write_sum_head}
use rsync_wrapper.Io.SumHead.Laws.{IsSendable}
use rsync_wrapper.Match.{SumStruct, Sender}
use rsync_wrapper.Match.Search.{bytes_eq}
use rsync_wrapper.Match.Send.{match_sums, spoil, all_zero}
use rsync_wrapper.Receive.{Job, Receiver, receive_data}
use rsync_wrapper.Transfer.Rebuild.{IsUsable, IsFresh, match_sums-Sends, receive_data-runs}

length-replicate : (n : ℕ) → length (replicate {A = ℕ} n 0) ≡ n
length-replicate zero = refl
length-replicate (suc n) = ap suc (length-replicate n)

zeros_one :
    (b : Bytes) → 0 < length b → length (replicate {A = ℕ} (length b - 1) 0 ++ (1 ∷ [])) ≡ length b
zeros_one b h = omega (
  arith,
  length-append (replicate {A = ℕ} (length b - 1) 0) (1 ∷ []),
  length-replicate (length b - 1),
)

length-spoil : (b : Bytes) → 0 < length b → length (spoil b) ≡ length b
unfolding spoil
length-spoil b h =
    if_cases (λ (x : Bytes). length x ≡ length b) (all_zero b) _ _ (λ e. zeros_one b h)
      (λ e. length-replicate (length b))

zeros_differ :
    (n : ℕ) (b : Bytes)
    → all_zero b ≡ true
    → length b ≡ suc n
    → bytes_eq b (replicate n 0 ++ (1 ∷ [])) ≡ false
unfolding all_zero bytes_eq
zeros_differ n [] e h = absurd (omega arith)
zeros_differ zero (x ∷ b) e h = ground arith
zeros_differ (suc n) (x ∷ b) e h = ground (arith, zeros_differ n b)

others_differ : (b : Bytes) → all_zero b ≡ false → bytes_eq b (replicate (length b) 0) ≡ false
unfolding all_zero bytes_eq
others_differ [] e = cc
others_differ (x ∷ b) e = ground (arith, others_differ b)

spoil_differs : (b : Bytes) → 0 < length b → bytes_eq b (spoil b) ≡ false
unfolding spoil
spoil_differs b h =
    if_cases (λ (x : Bytes). bytes_eq b x ≡ false) (all_zero b) _ _
      (λ e. zeros_differ (length b - 1) b e (omega arith)) (others_differ b)

-- With a read error on the sender's side (`buf->status != 0`), where the job writes a new file in full next to
-- the basis file, the list is usable as without one (complete, true of the basis file, and no window of the search
-- with the weak checksum of a block and the part of its strong checksum that is sent is other data), the header may be
-- sent, and the file's digest has `sum_len` bytes, one at least: `match_sums` and `receive_data` still end, the receiver has written the
-- data that the sender read and leaves the bytes that follow, but it finds the file unverified, whatever the
-- digest of the data is.
pub receive_data-read_error :
    (get_checksum2 sum_end : Bytes → Bytes) (buf : Bytes) (s : SumStruct) (job : Job)
    (sum : SumHead) (basis : Bytes) (sum_len max_digest_len : ℕ) (p : Protocol) (rest : Bytes)
    → IsFresh job sum basis
    → IsUsable get_checksum2 buf s sum basis
    → IsSendable max_digest_len p sum
    → length (sum_end buf) ≡ sum_len
    → 0 < sum_len
    → (g : Sender) × (r : Receiver) × (match_sums get_checksum2 sum_end false 0 true s buf ≡ ok g)
      × (receive_data sum_end sum_len max_digest_len p job (write_sum_head p sum ++ (g.out ++ rest))
          ≡ ok ((r, false), rest))
      × (r.dest ≡ buf)
receive_data-read_error get_checksum2 sum_end buf s job sum basis sum_len max_digest_len p rest
      fresh usable sendable len positive =
    let (g, g', sent, out, d) =
      match_sums-Sends get_checksum2 sum_end buf s job sum basis fresh usable true in
    let (r, received, same) =
      receive_data-runs get_checksum2 sum_end buf s job sum basis fresh usable sum_len
        max_digest_len p g (spoil (sum_end buf)) rest sendable
        (length-spoil (sum_end buf) (omega arith) ∙ len) d in
    (
      g',
      r,
      sent,
      rw (out, append_assoc g.out (spoil (sum_end buf)) rest)
          (rw (spoil_differs (sum_end buf) (omega arith)) at received),
      same,
    )

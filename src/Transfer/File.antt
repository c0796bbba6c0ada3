-- ===== src/Transfer/File.antt =====
-- match.c and receiver.c: one whole file, into a new file at the receiver's side.
use rsync_wrapper.Prelude.{ℕ, zero, suc, ◌+◌, ◌-◌, ◌≤◌, ◌<◌, ◌≡◌, refl, arith, ◌∙◌}
use rsync_wrapper.Prelude.{false, List, Bytes, [], ◌∷◌, ◌++◌, length, some}
use rsync_wrapper.Prelude.{get_elem?, ok}
use rsync_wrapper.Prelude.Int.{pos, negsuc}
use rsync_wrapper.Io.Word.{write_int}
use rsync_wrapper.Io.SumHead.{SumHead}
use rsync_wrapper.FileMap.{mapped_bytes, mapped_bytes_whole}
use rsync_wrapper.Token.{chunk_size}
use rsync_wrapper.Match.{SumBuf, SumStruct, Sender, sums_len, matched}
use rsync_wrapper.Match.Table.{build_hash_table}
use rsync_wrapper.Match.Chains.{
  build_hash_table-IsChained, build_hash_table-same, sums_len-build_hash_table, sums_len-get,
}
use rsync_wrapper.Match.Scan.{Scan, restart, hash_search}
use rsync_wrapper.Match.Send.{fresh_sender, send_chunks}
use rsync_wrapper.Receive.{Job}
use rsync_wrapper.Receive.Steps.{IsPlain, Gets, Gets-refl}
use rsync_wrapper.Transfer.Sent.{
  IsSent, matched_data-IsSent, matched_end, matched_end_heard, last_match-matched_data,
}
use rsync_wrapper.Transfer.Rolls.{restart-Rolls}
use rsync_wrapper.Transfer.Search.{Truthful, Before}
use native.Mathlib.Decide.{dec_lt}
use rsync_wrapper.Transfer.Loop.{Ended, scan_loop-Ended}

-- The table's lists say of the basis file what the list says from which they are built.
Truthful-build :
    (get_checksum2 : Bytes → Bytes) (buf : Bytes) (s : SumStruct) (sum : SumHead) (basis : Bytes)
    → Truthful get_checksum2 buf s sum basis s.sums
    → Truthful get_checksum2 buf s sum basis (build_hash_table s).0
Truthful-build get_checksum2 buf s sum basis t = record {
  numbered = λ i e h. let (e', h', same) = build_hash_table-same s i e h in t.numbered i e' h';
  len = λ i e h. let (e', h', same) = build_hash_table-same s i e h in same.len ∙ t.len i e' h';
  positive = λ i e h.
      let (e', h', same) = build_hash_table-same s i e h in rw (same.len) (t.positive i e' h');
  bytes = t.bytes;
  identifies = λ i e offset h inside w d.
      let (e', h', same) = build_hash_table-same s i e h in
      t.identifies i e' offset h' inside (w ∙ same.sum1) (rw same.sum2 at d);
}

get_elem?-below {ℓ} :
    {A : Type ℓ} (xs : List A) (i : ℕ) → i < length xs → (a : A) × (get_elem? xs i ≡ some a)
get_elem?-below [] i h = absurd (omega arith)
get_elem?-below (x ∷ xs) zero h = (x, refl)
get_elem?-below (x ∷ xs) (suc i) h = get_elem?-below xs i (omega arith)

module _ (get_checksum2 sum_end : Bytes → Bytes) (buf : Bytes) (s : SumStruct) (job : Job)
    (sum : SumHead) (basis : Bytes) (plain : IsPlain job sum basis) where
  -- All of the file is sent: the receiver gets to the end token with the file written.
  pub record Delivers (g : Sender) : Type 0 where
    pub whole :
        (rest : Bytes) → Gets job sum basis [] (g.out ++ rest) buf (write_int (pos 0) ++ rest)
    pub heard : g.summed ≡ buf

  pub Delivers-end :
      (sums : List SumBuf) (g : Sender)
      → g.last_match ≤ length buf
      → IsSent job sum basis buf plain g
      → Delivers (matched buf sums (length buf) (negsuc 0) g)
  Delivers-end sums g h sent = record {
    whole = λ rest.
        rw (mapped_bytes_whole buf) at
          (matched_end job sum basis buf plain sums (length buf) g rest h sent);
    heard =
        matched_end_heard job sum basis buf plain sums (length buf) g h sent
        ∙ mapped_bytes_whole buf;
  }

  pub fresh-IsSent :
      (g : Sender)
      → g.out ≡ []
      → g.summed ≡ []
      → g.last_match ≡ 0
      → IsSent job sum basis buf plain g
  fresh-IsSent g e e' e'' = record {
    delivered = λ rest. rw (e, e'') (unfold mapped_bytes in Gets-refl job sum basis [] rest);
    heard = rw (e', e'') (unfold mapped_bytes in refl);
  }

  send_chunks_more :
      (fuel j : ℕ) (g : Sender)
      → j < length buf
      → send_chunks (suc fuel) s buf j g
        ≡ send_chunks fuel s buf (j + chunk_size) (matched buf s.sums j (negsuc 1) g)
  unfolding send_chunks
  send_chunks_more fuel j g h = ground arith

  send_chunks_done :
      (fuel j : ℕ) (g : Sender) → length buf ≤ j → send_chunks (suc fuel) s buf j g ≡ g
  unfolding send_chunks
  send_chunks_done fuel j g h = ground arith

  -- Without a block list the file is sent in chunks.
  pub send_chunks-IsSent :
      (fuel j : ℕ) (g : Sender)
      → g.last_match ≤ j
      → g.last_match ≤ length buf
      → IsSent job sum basis buf plain g
      → IsSent job sum basis buf plain (send_chunks fuel s buf j g)
        × ((send_chunks fuel s buf j g).last_match ≤ length buf)
  send_chunks-IsSent zero j g h h' sent = unfold send_chunks in (sent, h')
  send_chunks-IsSent (suc fuel) j g h h' sent = elim (dec_lt j (length buf)) [
    | yes more ↦
        let lm = last_match-matched_data buf s.sums j 1 g in
        rw (send_chunks_more fuel j g more) (
          send_chunks-IsSent fuel (j + chunk_size) (matched buf s.sums j (negsuc 1) g)
            (omega (arith, lm)) (omega (arith, lm))
            (matched_data-IsSent job sum basis buf plain s.sums j g h sent))
    | no done ↦ rw (send_chunks_done fuel j g (omega arith)) (sent, h')
  ]

  abbrev unscanned : Sender → Scan
  unscanned g = record {
    offset = 0;
    k = 0;
    s1 = 0;
    s2 = 0;
    want_i = 0;
    aligned_offset = 0;
    aligned_i = 0;
    sums = (build_hash_table s).0;
    table = (build_hash_table s).1;
    sender = g;
  }

  -- The state in which the main loop starts.
  abbrev start : Sender → Scan
  start g = restart buf (length buf) s.blength 0 (unscanned g)

  last_block :
      0 < s.count
      → length s.sums ≡ s.count
      → Truthful get_checksum2 buf s sum basis s.sums
      → 0 < sums_len (build_hash_table s).0 (s.count - 1)
  last_block hc he t =
      let (e, there) = get_elem?-below s.sums (s.count - 1) (omega arith) in
      rw (sums_len-build_hash_table s (s.count - 1), sums_len-get s.sums (s.count - 1) e there)
        (t.positive (s.count - 1) e there)

  module _ (hb : 0 < length buf) (hc : 0 < s.count) (hl : 0 < s.blength)
      (he : length s.sums ≡ s.count) (t : Truthful get_checksum2 buf s sum basis s.sums) where
    start-Before :
        (g : Sender)
        → g.last_match ≡ 0
        → IsSent job sum basis buf plain g
        → Before get_checksum2 buf s job sum basis plain
            (build_hash_table s).0
            (build_hash_table s).1
            (build_hash_table-IsChained s).linked
            (Truthful-build get_checksum2 buf s sum basis t)
            hl
            (start g)
    unfolding restart
    start-Before g h sent = record {
      holds = record { same_sums = refl; sent = sent };
      rolls = restart-Rolls buf s.blength 0 (unscanned g);
      behind = omega arith;
      inside = hb;
    }

    searched :
        (g : Sender)
        → g.last_match ≡ 0
        → IsSent job sum basis buf plain g
        → Ended get_checksum2 buf s job sum basis plain
            (build_hash_table s).0
            (build_hash_table s).1
            (build_hash_table-IsChained s).linked
            (Truthful-build get_checksum2 buf s sum basis t)
            hl
            (length buf + 1)
            (length buf + 1 - sums_len (build_hash_table s).0 (s.count - 1))
            (start g)
    searched g h sent =
        scan_loop-Ended get_checksum2 buf s job sum basis plain (build_hash_table s).0
          (build_hash_table s).1 (build_hash_table-IsChained s).linked
          (Truthful-build get_checksum2 buf s sum basis t) hl (length buf + 1)
          (length buf + 1 - sums_len (build_hash_table s).0 (s.count - 1)) (start g)
          (omega (arith, last_block hc he t)) (omega arith) (start-Before g h sent)

    pub hash_search-Delivers :
        (g' : Sender) × (hash_search get_checksum2 false buf s (build_hash_table s) fresh_sender
          ≡ ok g')
        × Delivers g'
    hash_search-Delivers =
        let r = searched fresh_sender refl (fresh-IsSent fresh_sender refl refl refl) in
        (
          matched buf r.final.sums (length buf) (negsuc 0) r.final.sender,
          unfold hash_search in (rw r.ends refl),
          Delivers-end r.final.sums r.final.sender r.final_behind r.final_sent,
        )

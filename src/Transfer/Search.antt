-- ===== src/Transfer/Search.antt =====
-- match.c: `hash_search` where the basis file is not being updated: it ends, and what it has sent is the
-- file.
use rsync_wrapper.Prelude.{ℕ, ◌+◌, ◌-◌, ◌*◌, ◌^◌, ◌≤◌, ◌<◌, ◌≡◌, refl, arith, min, sym, ap, ◌∙◌}
use rsync_wrapper.Prelude.{true, false, List, Bytes, AreBytes, length, some}
use rsync_wrapper.Prelude.{get_elem?, ok}
use mathlib.Core.Path.{subst}
use rsync_wrapper.Io.SumHead.{SumHead}
use rsync_wrapper.FileMap.{mapped_bytes, length-mapped_bytes}
use rsync_wrapper.Checksum.{join_sums, get_checksum1}
use rsync_wrapper.Match.{SumBuf, SumStruct, sums_len}
use rsync_wrapper.Match.Table.{HashTable}
use rsync_wrapper.Match.Search.{Window, Choice, digest_eq, settle_offset, check_want}
use rsync_wrapper.Match.Chains.{Linked, Fits, sums_len-get}
use rsync_wrapper.Match.Scan.{Scan, restart, send_match, take_found}
use rsync_wrapper.Transfer.Wanted.{Strong, check_want_keeps, check_want-Strong}
use rsync_wrapper.Receive.{Job, block_len}
use rsync_wrapper.Receive.Steps.{IsPlain}
use rsync_wrapper.Transfer.Rolls.{Rolls, window_bytes, restart-Rolls, join_sums-Rolls}
use rsync_wrapper.Transfer.Sent.{IsSent, matched_block-IsSent, last_match-matched}

-- What the block list says of the basis file: every block has a positive length, and a window of the search
-- with the two checksums of a block is the block's data. The windows of the search are those that start
-- inside the sender's file, of a block's length, or less where the file ends. The file is made of bytes.
pub record Truthful (get_checksum2 : Bytes → Bytes) (buf : Bytes) (s : SumStruct) (sum : SumHead)
    (basis : Bytes) (sums : List SumBuf) : Type 0 where
  pub bytes : AreBytes buf
  pub numbered : (i : ℕ) (e : SumBuf) → get_elem? sums i ≡ some e → i < 2 ^ 31
  pub len : (i : ℕ) (e : SumBuf) → get_elem? sums i ≡ some e → e.len ≡ block_len sum i
  pub positive : (i : ℕ) (e : SumBuf) → get_elem? sums i ≡ some e → 0 < e.len
  pub identifies :
      (i : ℕ) (e : SumBuf) (offset : ℕ)
      → get_elem? sums i ≡ some e
      → offset < length buf
      → get_checksum1 (window_bytes buf s.blength offset) ≡ e.sum1
      → digest_eq s.s2length (get_checksum2 (window_bytes buf s.blength offset)) e.sum2 ≡ true
      → window_bytes buf s.blength offset ≡ mapped_bytes basis (i * sum.blength) (block_len sum i)

module _ (get_checksum2 : Bytes → Bytes) (buf : Bytes) (s : SumStruct) (job : Job) (sum : SumHead)
    (basis : Bytes) (plain : IsPlain job sum basis) (sums : List SumBuf) (table : HashTable)
    (linked : Linked 0 sums) (truth : Truthful get_checksum2 buf s sum basis sums)
    (block_length : 0 < s.blength) where
  -- The lists are the ones built, and what has been sent is the file up to `last_match`.
  pub record Holds (st : Scan) : Type 0 where
    pub same_sums : st.sums ≡ sums
    pub sent : IsSent job sum basis buf plain st.sender

  -- Between two rounds.
  pub record Before (st : Scan) : Type 0 where
    pub holds : Holds st
    pub rolls : Rolls buf s.blength st
    pub behind : st.sender.last_match ≤ st.offset
    pub inside : st.offset < length buf

  -- After a match `last_match` is one byte past the offset.
  pub record Within (from : ℕ) (st : Scan) : Type 0 where
    pub holds : Holds st
    pub rolls : Rolls buf s.blength st
    pub behind : st.sender.last_match ≤ st.offset + 1
    pub inside : st.offset < length buf
    pub onward : from ≤ st.offset

  -- A block with the checksums of the window.
  abbrev IsHit : ℕ → ℕ → Type 0
  IsHit offset i =
      Strong get_checksum2 buf s (get_checksum1 (window_bytes buf s.blength offset))
        (get_checksum2 (window_bytes buf s.blength offset)) sums i

  -- It is the window.
  IsHit-same :
      (offset i : ℕ)
      → offset < length buf
      → IsHit offset i
      → (i < 2 ^ 31)
        × (sums_len sums i ≡ min s.blength (length buf - offset))
        × (window_bytes buf s.blength offset
            ≡ mapped_bytes basis (i * sum.blength) (block_len sum i))
  IsHit-same offset i inside h =
      let same = truth.identifies i h.entry offset h.there inside h.weak h.strong in
      (
        truth.numbered i h.entry h.there,
        sums_len-get sums i h.entry h.there
            ∙ truth.len i h.entry h.there
            ∙ sym (length-mapped_bytes basis (i * sum.blength) (block_len sum i))
            ∙ ap length (sym same)
            ∙ length-mapped_bytes buf offset (min s.blength (length buf - offset)),
        same,
      )

  send_match-Rolls :
      (c : Choice) (st : Scan) → Rolls buf s.blength (send_match get_checksum2 false buf s c st)
  unfolding send_match restart
  send_match-Rolls c st =
      let r = restart-Rolls buf s.blength (c.offset + sums_len c.sums c.i - 1) st in
      record { k_fits = r.k_fits; stands = r.stands }

  -- Sending a block that is the window.
  send_match-Within :
      (offset : ℕ) (c : Choice) (st : Scan)
      → c.offset ≡ offset
      → c.sums ≡ sums
      → IsHit offset c.i
      → Before st
      → st.offset ≡ offset
      → Within offset (send_match get_checksum2 false buf s c st)
  unfolding send_match
  send_match-Within offset c st eo es hit b e =
      let l = min s.blength (length buf - offset) in
      let inside : offset < length buf = omega (arith, b.inside) in
      let (small, len, same) = IsHit-same offset c.i inside hit in
      let len' : sums_len c.sums c.i ≡ l = ap (λ x. sums_len x c.i) es ∙ len in
      let same' =
        ap (λ o. mapped_bytes buf o (sums_len c.sums c.i)) eo
        ∙ ap (mapped_bytes buf offset) len'
        ∙ same in
      let sent =
        matched_block-IsSent job sum basis buf plain c.sums c.offset c.i st.sender
          (omega (arith, b.behind)) small same' b.holds.sent in
      let last = last_match-matched buf c.sums c.offset c.i st.sender in
      record {
        holds = record {
          same_sums = es;
          sent = record { delivered = sent.delivered; heard = sent.heard };
        };
        rolls = send_match-Rolls c st;
        behind = omega (arith, last, len', inside);
        inside = omega (arith, len', inside);
        onward = omega (arith, len', inside);
      }

  -- The window of a round, as the source sets it up.
  abbrev pub window : Scan → Window
  window st = record {
    offset = st.offset;
    l = min s.blength (length buf - st.offset);
    sum = join_sums st.s1 st.s2;
    sum2 = get_checksum2 (mapped_bytes buf st.offset (min s.blength (length buf - st.offset)));
  }

  -- The choice before `want_i` is looked at.
  abbrev choice : Window → ℕ → Scan → Choice
  choice w i st = record {
    i = i;
    offset = w.offset;
    sum = w.sum;
    sum2 = w.sum2;
    want_i = st.want_i;
    aligned_offset = st.aligned_offset;
    aligned_i = st.aligned_i;
    sums = st.sums;
  }

  pub take_found-Round :
      (st : Scan) (i : ℕ)
      → Before st
      → Fits s.s2length (window st) sums i
      → (st' : Scan) × (take_found get_checksum2 false buf s (window st) i st ≡ ok st')
        × Within st.offset st'
  unfolding take_found settle_offset
  take_found-Round st i b fits =
      let c = choice (window st) i st in
      let (eo, es) = check_want_keeps get_checksum2 buf s c in
      let wanted = check_want get_checksum2 buf s false c in
      let sum_of = join_sums-Rolls buf s.blength st b.rolls in
      let strong : Strong get_checksum2 buf s (window st).sum (window st).sum2 st.sums i =
        subst (λ x. Strong get_checksum2 buf s (window st).sum (window st).sum2 x i)
          (sym b.holds.same_sums)
          (record {
            entry = fits.entry;
            there = fits.there;
            weak = fits.weak;
            strong = fits.strong;
          }) in
      let strong' = check_want-Strong get_checksum2 buf s c strong in
      let hit : IsHit st.offset wanted.i =
        subst (λ x. Strong get_checksum2 buf s x (window st).sum2 sums wanted.i) sum_of
          (subst (λ x. Strong get_checksum2 buf s (window st).sum (window st).sum2 x wanted.i)
            b.holds.same_sums strong') in
      (
        send_match get_checksum2 false buf s wanted st,
        refl,
        send_match-Within st.offset wanted st eo (es ∙ b.holds.same_sums) hit b refl,
      )

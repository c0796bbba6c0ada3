-- ===== src/Transfer/Loop.antt =====
-- match.c: the main loop of `hash_search` where the basis file is not being updated: it ends, and what it
-- has sent then is the file.
use rsync_wrapper.Prelude.{ℕ, zero, suc, ◌+◌, ◌-◌, ◌≤◌, ◌<◌, ◌≡◌, refl, arith, ltb, leb, sym, ◌∙◌}
use rsync_wrapper.Prelude.{true, false, List, Bytes, length, Option, none, some}
use rsync_wrapper.Prelude.{ok, Option-cases, Bool-cases, inl, inr, if_cases, ◌&&◌, ltb→lt}
use mathlib.Core.Path.{subst}
use rsync_wrapper.Io.SumHead.{SumHead}
use rsync_wrapper.Token.{chunk_size}
use rsync_wrapper.Match.{SumBuf, SumStruct}
use rsync_wrapper.Match.Table.{HashTable, tablesize}
use rsync_wrapper.Match.Search.{slot, Chains, Window, walk}
use rsync_wrapper.Match.Chains.{Linked, HitFits, walk-ends}
use rsync_wrapper.Match.Scan.{Scan, hash_entry, take_found, try_match, advance, scan_loop}
use rsync_wrapper.Receive.{Job}
use rsync_wrapper.Receive.Steps.{IsPlain}
use rsync_wrapper.Transfer.Sent.{IsSent, matched_data-IsSent, last_match-matched_data}
use rsync_wrapper.Transfer.Rolls.{advance-Rolls}
use rsync_wrapper.Transfer.Search.{Truthful, Before, Within, window, take_found-Round}

module _ (get_checksum2 : Bytes → Bytes) (buf : Bytes) (s : SumStruct) (job : Job) (sum : SumHead)
    (basis : Bytes) (plain : IsPlain job sum basis) (sums : List SumBuf) (table : HashTable)
    (linked : Linked 0 sums) (truth : Truthful get_checksum2 buf s sum basis sums)
    (block_length : 0 < s.blength) where
  abbrev Before' : Scan → Type 0
  Before' = Before get_checksum2 buf s job sum basis plain sums table linked truth block_length

  abbrev Within' : ℕ → Scan → Type 0
  Within' = Within get_checksum2 buf s job sum basis plain sums table linked truth block_length

  abbrev win : Scan → Window
  win = window get_checksum2 buf s job sum basis plain sums table linked truth block_length

  abbrev entry_of : Scan → ℕ
  entry_of st = hash_entry (tablesize s.count) st.s1 st.s2

  -- The lists as the walk is given them, and the state after a walk.
  abbrev chains : Scan → Chains
  chains st = record { sums = st.sums; table = st.table; false_alarms = st.sender.false_alarms }

  abbrev walked : ℕ → Scan → Scan
  walked alarms st = record st {
    sender = record (st.sender) { hash_hits = st.sender.hash_hits + 1; false_alarms = alarms };
  }

  try_match_empty :
      (st : Scan) → st.table (entry_of st) ≡ none → try_match get_checksum2 false buf s st ≡ ok st
  unfolding try_match
  try_match_empty st h = rw (h, try_match) refl

  try_match_miss :
      (st : Scan) (i alarms : ℕ)
      → st.table (entry_of st) ≡ some i
      → walk false s.s2length (win st) (suc i) (some i) (slot (entry_of st)) (chains st)
        ≡ ok (none, record (chains st) { false_alarms = alarms })
      → try_match get_checksum2 false buf s st ≡ ok (walked alarms st)
  unfolding try_match
  try_match_miss st i alarms h w = rw (h, try_match) (rw w refl)

  try_match_hit :
      (st : Scan) (i j alarms : ℕ)
      → st.table (entry_of st) ≡ some i
      → walk false s.s2length (win st) (suc i) (some i) (slot (entry_of st)) (chains st)
        ≡ ok (some j, record (chains st) { false_alarms = alarms })
      → try_match get_checksum2 false buf s st
        ≡ take_found get_checksum2 false buf s (win st) j (walked alarms st)
  unfolding try_match
  try_match_hit st i j alarms h w = rw (h, try_match) (rw w refl)

  pub record Round (st : Scan) : Type 0 where
    pub next : Scan
    pub taken : try_match get_checksum2 false buf s st ≡ ok next
    pub within : Within' st.offset next

  stays : (alarms : ℕ) (st : Scan) → Before' st → Within' st.offset (walked alarms st)
  stays alarms st b = record {
    holds = record {
      same_sums = b.holds.same_sums;
      sent = record { delivered = b.holds.sent.delivered; heard = b.holds.sent.heard };
    };
    rolls = record { k_fits = b.rolls.k_fits; stands = b.rolls.stands };
    behind = omega (arith, b.behind);
    inside = b.inside;
    onward = omega arith;
  }

  walked-Before : (alarms : ℕ) (st : Scan) → Before' st → Before' (walked alarms st)
  walked-Before alarms st b = record {
    holds = (stays alarms st b).holds;
    rolls = (stays alarms st b).rolls;
    behind = b.behind;
    inside = b.inside;
  }

  by_hit :
      (st : Scan) (i : ℕ)
      → Before' st
      → st.table (entry_of st) ≡ some i
      → (hit : Option ℕ) (alarms : ℕ)
      → walk false s.s2length (win st) (suc i) (some i) (slot (entry_of st)) (chains st)
        ≡ ok (hit, record (chains st) { false_alarms = alarms })
      → HitFits s.s2length (win st) sums hit
      → Round st
  by_hit st i b h none alarms w fits = record {
    next = walked alarms st;
    taken = try_match_miss st i alarms h w;
    within = stays alarms st b;
  }
  by_hit st i b h (some j) alarms w fits =
      let (next, taken, within) =
        take_found-Round get_checksum2 buf s job sum basis plain sums table linked truth
          block_length (walked alarms st) j (walked-Before alarms st b) fits in
      record { next = next; taken = try_match_hit st i j alarms h w ∙ taken; within = within }

  -- The search of one round ends, and keeps what holds.
  pub try_match-Round : (st : Scan) → Before' st → Round st
  try_match-Round st b = elim (Option-cases (st.table (entry_of st))) [
    | inl empty ↦ record {
      next = st;
      taken = try_match_empty st empty;
      within = record {
        holds = b.holds;
        rolls = b.rolls;
        behind = omega (arith, b.behind);
        inside = b.inside;
        onward = omega arith;
      };
    }
    | inr (i, h) ↦
        let r =
          walk-ends (suc i) s.s2length (win st) (some i) (slot (entry_of st)) (chains st)
            (subst (Linked 0) (sym b.holds.same_sums) linked) (omega arith) in
        by_hit st i b h r.hit r.alarms r.ends
          (subst (λ x. HitFits s.s2length (win st) x r.hit) b.holds.same_sums r.fits)
  ]

  long_backup :
      (last : ℕ) (st : Scan)
      → (leb (s.blength + chunk_size) (st.offset - st.sender.last_match)
          && ltb (st.offset + chunk_size) last)
        ≡ true
      → s.blength + chunk_size ≤ st.offset - st.sender.last_match
  long_backup last st h = ground arith

  -- The end of a round: sending early keeps what holds.
  advance-IsSent :
      (from last : ℕ) (st : Scan)
      → Within' from st
      → IsSent job sum basis buf plain (advance get_checksum2 false buf s last st).sender
        × ((advance get_checksum2 false buf s last st).sender.last_match ≤ st.offset + 1)
  unfolding advance
  advance-IsSent from last st w =
      if_cases (λ g. IsSent job sum basis buf plain g × (g.last_match ≤ st.offset + 1)) _ _
        st.sender
        (λ test.
          let far = long_backup last st test in
          let lm = last_match-matched_data buf st.sums (st.offset - s.blength) 1 st.sender in
          (
            matched_data-IsSent job sum basis buf plain st.sums (st.offset - s.blength) st.sender
                (omega (arith, far)) w.holds.sent,
            omega (arith, lm, far),
          ))
        (λ test. (w.holds.sent, w.behind))

  advance_moves :
      (last : ℕ) (st : Scan)
      → ((advance get_checksum2 false buf s last st).offset ≡ st.offset + 1)
        × ((advance get_checksum2 false buf s last st).sums ≡ st.sums)
  unfolding advance
  advance_moves last st = (refl, refl)

  abbrev moved_on : ℕ → Scan → Scan
  moved_on last st = advance get_checksum2 false buf s last st

  loop_goes_on :
      (fuel last : ℕ) (st next : Scan)
      → try_match get_checksum2 false buf s st ≡ ok next
      → ltb (moved_on last next).offset last ≡ true
      → scan_loop get_checksum2 false buf s (suc fuel) last st
        ≡ scan_loop get_checksum2 false buf s fuel last (moved_on last next)
  unfolding scan_loop
  loop_goes_on fuel last st next t more = ground arith

  loop_stops :
      (fuel last : ℕ) (st next : Scan)
      → try_match get_checksum2 false buf s st ≡ ok next
      → ltb (moved_on last next).offset last ≡ false
      → scan_loop get_checksum2 false buf s (suc fuel) last st ≡ ok (moved_on last next)
  unfolding scan_loop
  loop_stops fuel last st next t over = ground arith

  -- What is left when the loop has ended.
  pub record Ended (fuel last : ℕ) (st : Scan) : Type 0 where
    pub final : Scan
    pub ends : scan_loop get_checksum2 false buf s fuel last st ≡ ok final
    pub final_sent : IsSent job sum basis buf plain final.sender
    pub final_behind : final.sender.last_match ≤ length buf

  -- The loop ends within `len - offset` rounds.
  pub scan_loop-Ended :
      (fuel last : ℕ) (st : Scan)
      → last ≤ length buf
      → length buf < fuel + st.offset
      → Before' st
      → Ended fuel last st
  scan_loop-Ended zero last st hl hf b = absurd (omega (arith, b.inside))
  scan_loop-Ended (suc fuel) last st hl hf b =
      let r = try_match-Round st b in
      let st'' = advance get_checksum2 false buf s last r.next in
      let (sent, behind) = advance-IsSent st.offset last r.next r.within in
      let (moved, same) = advance_moves last r.next in
      let rolls =
        advance-Rolls get_checksum2 buf s last r.next truth.bytes r.within.inside block_length
          r.within.rolls in
      elim (Bool-cases (ltb st''.offset last)) [
        | inl more ↦
            let e =
              scan_loop-Ended fuel last st'' hl (omega (arith, moved, r.within.onward)) (record {
                holds = record { same_sums = same ∙ r.within.holds.same_sums; sent = sent };
                rolls = rolls;
                behind = omega (arith, moved, behind);
                inside = omega (arith, ltb→lt _ _ more);
              }) in
            record {
              final = e.final;
              ends = loop_goes_on fuel last st r.next r.taken more ∙ e.ends;
              final_sent = e.final_sent;
              final_behind = e.final_behind;
            }
        | inr over ↦ record {
          final = st'';
          ends = loop_stops fuel last st r.next r.taken over;
          final_sent = sent;
          final_behind = omega (arith, behind, r.within.inside);
        }
      ]

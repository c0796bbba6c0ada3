-- ===== src/Transfer/Rolls.antt =====
-- match.c: the sums that `hash_search` rolls along the file stand for the window in every round.
use rsync_wrapper.Prelude.{ℕ, zero, suc, ◌+◌, ◌-◌, ◌<◌, ◌≤◌, ◌≡◌, refl, arith, ltb, ltb→lt, min}
use rsync_wrapper.Prelude.{true, false, Bytes, AreBytes, IsByte, length, get_or, get_or-lt}
use rsync_wrapper.Prelude.{Bool-cases, inl, inr}
use rsync_wrapper.FileMap.{mapped_bytes, length-mapped_bytes, mapped_bytes_last}
use rsync_wrapper.Checksum.{join_sums, get_checksum1, trim_first, add_next}
use rsync_wrapper.Checksum.Laws.{SumsOf}
use rsync_wrapper.Checksum.Rolling.{
  SumsOf-split, SumsOf-trim_first, SumsOf-add_next, SumsOf→get_checksum1,
}
use rsync_wrapper.Match.{SumStruct}
use rsync_wrapper.Match.Scan.{Scan, restart, advance}

-- The window that a round looks at: a block's length, or less at the end of the file.
abbrev pub window_bytes : Bytes → ℕ → ℕ → Bytes
window_bytes buf blength offset = mapped_bytes buf offset (min blength (length buf - offset))

-- The scan's `k` is the length of the window, and its sums are those of the window.
pub record Rolls (buf : Bytes) (blength : ℕ) (st : Scan) : Type 0 where
  pub k_fits : st.k ≡ min blength (length buf - st.offset)
  pub stands : SumsOf (mapped_bytes buf st.offset st.k) st.s1 st.s2

pub restart-Rolls :
    (buf : Bytes) (blength offset : ℕ) (st : Scan)
    → Rolls buf blength (restart buf (length buf) blength offset st)
unfolding restart
restart-Rolls buf blength offset st = record {
  k_fits = refl;
  stands = SumsOf-split (mapped_bytes buf offset (min blength (length buf - offset)));
}

-- The sum that the search compares is the weak checksum of the window.
pub join_sums-Rolls :
    (buf : Bytes) (blength : ℕ) (st : Scan)
    → Rolls buf blength st
    → join_sums st.s1 st.s2 ≡ get_checksum1 (window_bytes buf blength st.offset)
join_sums-Rolls buf blength st r =
    rw r.k_fits at (SumsOf→get_checksum1 (mapped_bytes buf st.offset st.k) st.s1 st.s2 r.stands)

module _ (buf : Bytes) (o : ℕ) where
  trimmed :
      (k s1 s2 : ℕ)
      → 0 < k
      → IsByte (get_or buf o 0)
      → SumsOf (mapped_bytes buf o k) s1 s2
      → SumsOf
          (mapped_bytes buf (o + 1) (k - 1))
          (trim_first k (get_or buf o 0) (s1, s2)).0
          (trim_first k (get_or buf o 0) (s1, s2)).1
  unfolding mapped_bytes
  trimmed zero s1 s2 h b sums = absurd (omega arith)
  trimmed (suc m) s1 s2 h b sums =
      let e : suc m - 1 ≡ m = omega arith in
      rw e (
        SumsOf-trim_first (get_or buf o 0) (mapped_bytes buf (o + 1) m) (suc m) s1 s2 b
          (omega (arith, length-mapped_bytes buf (o + 1) m)) sums)

  moved :
      (k s1 s2 : ℕ)
      → 0 < k
      → SumsOf (mapped_bytes buf (o + 1) (k - 1)) s1 s2
      → SumsOf
          (mapped_bytes buf (o + 1) k)
          (add_next (get_or buf (o + k) 0) (s1, s2)).0
          (add_next (get_or buf (o + k) 0) (s1, s2)).1
  moved zero s1 s2 h sums = absurd (omega arith)
  moved (suc m) s1 s2 h sums =
      let e : o + suc m ≡ o + 1 + m = omega arith in
      let e' : suc m - 1 ≡ m = omega arith in
      rw (e, ← mapped_bytes_last buf (o + 1) m)
        (SumsOf-add_next (mapped_bytes buf (o + 1) m) (get_or buf (o + 1 + m) 0) s1 s2
          (rw e' at sums))

module _ (get_checksum2 : Bytes → Bytes) (buf : Bytes) (s : SumStruct) (last : ℕ) (st : Scan) where
  abbrev next : Scan
  next = advance get_checksum2 false buf s last st

  abbrev trim : ℕ × ℕ
  trim = trim_first st.k (get_or buf st.offset 0) (st.s1, st.s2)

  advance_more :
      ltb (st.offset + st.k) (length buf) ≡ true
      → (next.k ≡ st.k)
        × (next.s1 ≡ (add_next (get_or buf (st.offset + st.k) 0) trim).0)
        × (next.s2 ≡ (add_next (get_or buf (st.offset + st.k) 0) trim).1)
        × (next.offset ≡ st.offset + 1)
  unfolding advance
  advance_more h = rw h (refl, refl, refl, refl)

  advance_at_end :
      ltb (st.offset + st.k) (length buf) ≡ false
      → (next.k ≡ st.k - 1)
        × (next.s1 ≡ trim.0)
        × (next.s2 ≡ trim.1)
        × (next.offset ≡ st.offset + 1)
  unfolding advance
  advance_at_end h = rw h (refl, refl, refl, refl)

  -- Moving on by a byte keeps that.
  pub advance-Rolls :
      AreBytes buf
      → st.offset < length buf
      → 0 < s.blength
      → Rolls buf s.blength st
      → Rolls buf s.blength next
  advance-Rolls bytes inside positive r =
      let some_k : 0 < st.k = omega (arith, r.k_fits) in
      let t =
        trimmed buf st.offset st.k st.s1 st.s2 some_k (get_or-lt buf st.offset bytes) r.stands in
      elim (Bool-cases (ltb (st.offset + st.k) (length buf))) [
        | inl more ↦
            let (k, s1, s2, o) = advance_more more in
            record {
              k_fits = omega (arith, k, o, r.k_fits, ltb→lt _ _ more);
              stands = rw (k, s1, s2, o) (moved buf st.offset st.k trim.0 trim.1 some_k t);
            }
        | inr over ↦
            let (k, s1, s2, o) = advance_at_end over in
            let beyond : length buf ≤ st.offset + st.k = ground arith in
            record { k_fits = omega (arith, k, o, r.k_fits, beyond); stands = rw (k, s1, s2, o) t }
      ]

-- ===== src/Transfer/Wanted.antt =====
-- match.c: the end of the search of one round, `check_want_i`, where the basis file is not being updated.
use rsync_wrapper.Prelude.{ℕ, ◌≡◌, arith, ◌⊎◌, inl, inr, Option-cases}
use rsync_wrapper.Prelude.{true, false, List, Bytes, none, some, get_elem?}
use rsync_wrapper.Match.{SumBuf, SumStruct}
use rsync_wrapper.Match.Search.{Choice, digest_eq, check_want}

module _ (get_checksum2 : Bytes → Bytes) (buf : Bytes) (s : SumStruct) where
  pub check_want_keeps :
      (c : Choice)
      → ((check_want get_checksum2 buf s false c).offset ≡ c.offset)
        × ((check_want get_checksum2 buf s false c).sums ≡ c.sums)
  unfolding check_want
  check_want_keeps c = elim (Option-cases (get_elem? c.sums c.want_i)) [
    | inl missing ↦ (ground arith, ground arith)
    | inr (e, there) ↦ (ground arith, ground arith)
  ]

  -- A block with the two checksums of the window.
  pub record Strong (sum : ℕ) (sum2 : Bytes) (sums : List SumBuf) (i : ℕ) : Type 0 where
    pub entry : SumBuf
    pub there : get_elem? sums i ≡ some entry
    pub weak : sum ≡ entry.sum1
    pub strong : digest_eq s.s2length sum2 entry.sum2 ≡ true

  check_want_missing :
      (c : Choice)
      → get_elem? c.sums c.want_i ≡ none
      → (check_want get_checksum2 buf s false c).i ≡ c.i
  unfolding check_want
  check_want_missing c h = ground arith

  check_want_cases :
      (c : Choice) (e : SumBuf)
      → get_elem? c.sums c.want_i ≡ some e
      → ((check_want get_checksum2 buf s false c).i ≡ c.i)
        ⊎ (((check_want get_checksum2 buf s false c).i ≡ c.want_i)
            × (c.sum ≡ e.sum1)
            × (digest_eq s.s2length c.sum2 e.sum2 ≡ true))
  unfolding check_want
  check_want_cases c e h = ground arith

  pub check_want-Strong :
      (c : Choice)
      → Strong c.sum c.sum2 c.sums c.i
      → Strong c.sum c.sum2 c.sums (check_want get_checksum2 buf s false c).i
  check_want-Strong c h = elim (Option-cases (get_elem? c.sums c.want_i)) [
    | inl missing ↦ rw (check_want_missing c missing) h
    | inr (e, there) ↦ elim (check_want_cases c e there) [
      | inl same ↦ rw same h
      | inr (wanted, weak, strong) ↦
          rw wanted (record { entry = e; there = there; weak = weak; strong = strong })
    ]
  ]

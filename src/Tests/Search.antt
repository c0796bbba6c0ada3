-- ===== src/Tests/Search.antt =====
-- checksum.c and match.c: the rolling checksum and the chains at concrete blocks.
use rsync_wrapper.Prelude.{ℕ, ◌+◌, ◌*◌, ◌%◌, ◌^◌, ◌≡◌, refl, arith, [], ◌∷◌, some, none, false}
use rsync_wrapper.Checksum.{join_sums, get_checksum1, low_sum, high_sum, trim_first, add_next}
use rsync_wrapper.Checksum.Laws.{sum_a, sum_b, get_checksum1_lem}
use rsync_wrapper.Checksum.Rolling.{rolling_checksum}
use rsync_wrapper.Match.{SumBuf, SumStruct}
use rsync_wrapper.Match.Table.{build_hash_table}
use rsync_wrapper.Match.Search.{Window, Chains, slot}
use rsync_wrapper.Match.Chains.{WalkEnds, walk-ends, build_hash_table-IsChained}

abbrev start : ℕ
start = get_checksum1 (200 ∷ 1 ∷ 2 ∷ 250 ∷ [])

start_joins : join_sums (low_sum start) (high_sum start) ≡ get_checksum1 (200 ∷ 1 ∷ 2 ∷ 250 ∷ [])
unfolding join_sums low_sum high_sum get_checksum1
start_joins = refl

rolling_checksum_example :
    (let (t1, t2) = add_next 9 (trim_first 4 200 (low_sum start, high_sum start)) in
      join_sums t1 t2)
    ≡ get_checksum1 (1 ∷ 2 ∷ 250 ∷ 9 ∷ [])
rolling_checksum_example =
    rolling_checksum 200 9 (1 ∷ 2 ∷ 250 ∷ []) (low_sum start) (high_sum start) (omega arith)
      start_joins

-- Three blocks with the same weak checksum, so that all are in one chain.
abbrev alike : ℕ → SumBuf
alike b = record {
  offset = 0;
  len = 4;
  sum1 = 77;
  chain = none;
  same_offset = false;
  sum2 = b ∷ [];
}

abbrev three : SumStruct
three = record {
  flength = 12;
  sums = alike 1 ∷ alike 2 ∷ alike 3 ∷ [];
  count = 3;
  blength = 4;
  remainder = 0;
  s2length = 1;
}

abbrev looking : Window
looking = record { offset = 5; l = 4; sum = 77; sum2 = 1 ∷ [] }

abbrev chains : Chains
chains = record {
  sums = (build_hash_table three).0;
  table = (build_hash_table three).1;
  false_alarms = 0;
}

walk-ends_example : WalkEnds 1 looking 3 (some 2) (slot 77) chains
walk-ends_example =
    walk-ends 3 1 looking (some 2) (slot 77) chains (build_hash_table-IsChained three).linked
      (omega arith)

-- Five bytes: one round of four and one byte behind it.
get_checksum1_lem_example :
    get_checksum1 (200 ∷ 1 ∷ 2 ∷ 250 ∷ 9 ∷ [])
    ≡ sum_a (200 ∷ 1 ∷ 2 ∷ 250 ∷ 9 ∷ []) % 2 ^ 16
      + sum_b (200 ∷ 1 ∷ 2 ∷ 250 ∷ 9 ∷ []) % 2 ^ 16 * 2 ^ 16
get_checksum1_lem_example = get_checksum1_lem (200 ∷ 1 ∷ 2 ∷ 250 ∷ 9 ∷ [])

-- ===== src/Match/Table.antt =====
-- match.c: the hash table of the block list. The table is a function from its slots.
use rsync_wrapper.Prelude.{ℕ, ◌+◌, ◌*◌, ◌/◌, ◌%◌, ◌^◌, ltb, ◌==◌, if◌then◌else◌, List, [], ◌∷◌}
use rsync_wrapper.Prelude.{Option, none, some}
use rsync_wrapper.Match.{SumBuf, SumStruct}

abbrev pub HashTable : Type 0
HashTable = ℕ → Option ℕ

abbrev pub traditional_tablesize : ℕ
traditional_tablesize = 2 ^ 16

unfoldable pub store : HashTable → ℕ → Option ℕ → HashTable
store table slot v j = if j == slot then v else table j

-- SUM2HASH2, SUM2HASH
unfoldable pub sum2hash2 : ℕ → ℕ → ℕ
sum2hash2 s1 s2 = (s1 + s2) % 2 ^ 32 % 2 ^ 16

unfoldable pub sum2hash : ℕ → ℕ
unfolding sum2hash2
sum2hash sum = sum2hash2 (sum % 2 ^ 16) (sum / 2 ^ 16)

-- `tablesize` for `count` blocks.
unfoldable pub tablesize : ℕ → ℕ
tablesize count =
    let size = (count / 8 * 10 + 11) % 2 ^ 32 in
    if ltb size traditional_tablesize then traditional_tablesize else size

-- The slot of a block: SUM2HASH or BIG_SUM2HASH.
unfoldable pub slot_of : ℕ → ℕ → ℕ
unfolding sum2hash
slot_of size sum = if size == traditional_tablesize then sum2hash sum else sum % size

-- The loop of `build_hash_table` from block i on: a block goes to the front of its slot's chain.
unfoldable pub build_from : ℕ → ℕ → List SumBuf → HashTable → List SumBuf × HashTable
unfolding slot_of store
build_from size i [] table = ([], table)
build_from size i (e ∷ sums) table =
    let t = slot_of size e.sum1 in
    let (sums', table') = build_from size (i + 1) sums (store table t (some i)) in
    (record e { chain = table t } ∷ sums', table')

-- `build_hash_table`: all slots are -1 at first.
unfoldable pub build_hash_table : SumStruct → List SumBuf × HashTable
unfolding build_from tablesize
build_hash_table s = build_from (tablesize s.count) 0 s.sums (λ t. none)

-- ===== src/Match/Search.antt =====
-- match.c: the inner loop of `hash_search`, along the chain of one hash slot, and what is done with the
-- block it finds. `get_checksum2` is the strong checksum in use, `updating` is `updating_basis_file`.
-- `sum2` is computed once for each offset in the source (`done_csum2`), and is a value here.
use rsync_wrapper.Prelude.{ℕ, zero, suc, ◌+◌, ltb, leb, ◌==◌, if◌then◌else◌, Bool, true, false}
use rsync_wrapper.Prelude.{
  Bytes, List, [], ◌∷◌, Option, none, some, get_elem?, take, not, ◌&&◌, ◌||◌,
}
use rsync_wrapper.Prelude.{Result, ok, exit, stuck, ◌>>=◌}
use rsync_wrapper.FileMap.{mapped_bytes}
use rsync_wrapper.Checksum.{get_checksum1}
use rsync_wrapper.Match.{SumBuf, SumStruct}
use rsync_wrapper.Match.Table.{HashTable, store}

-- `prev`: the place that holds the index at hand, a slot of the table or a block's `chain`.
pub data Link : Type 0 where
  slot : ℕ → Link
  after : ℕ → Link

-- The block list and its table, which the search may thin out, and the counter of false alarms.
pub record Chains : Type 0 where
  pub sums : List SumBuf
  pub table : HashTable
  pub false_alarms : ℕ

unfoldable pub set_chain : List SumBuf → ℕ → Option ℕ → List SumBuf
set_chain [] i v = []
set_chain (e ∷ sums) zero v = record e { chain = v } ∷ sums
set_chain (e ∷ sums) (suc i) v = e ∷ set_chain sums i v

unfoldable pub set_same_offset : List SumBuf → ℕ → List SumBuf
set_same_offset [] i = []
set_same_offset (e ∷ sums) zero = record e { same_offset = true } ∷ sums
set_same_offset (e ∷ sums) (suc i) = e ∷ set_same_offset sums i

-- `*prev = s->sums[i].chain`
unfoldable pub unlink : Link → Option ℕ → Chains → Chains
unfolding set_chain store
unlink (slot h) v c = record c { table = store c.table h v }
unlink (after i) v c = record c { sums = set_chain c.sums i v }

-- memcmp(a, b, n) == 0
unfoldable pub bytes_eq : Bytes → Bytes → Bool
bytes_eq [] [] = true
bytes_eq [] (y ∷ b) = false
bytes_eq (x ∷ a) [] = false
bytes_eq (x ∷ a) (y ∷ b) = x == y && bytes_eq a b

unfoldable pub digest_eq : ℕ → Bytes → Bytes → Bool
unfolding bytes_eq
digest_eq n a b = bytes_eq (take n a) (take n b)

-- What the loop compares with: the window at `offset` of length `l`, its two checksums.
pub record Window : Type 0 where
  pub offset : ℕ
  pub l : ℕ
  pub sum : ℕ
  pub sum2 : Bytes

-- The verdict on one block of the chain.
pub data Verdict : Type 0 where
  bypassed differs false_alarm found : Verdict

unfoldable pub judge : Bool → ℕ → Window → SumBuf → Verdict
unfolding digest_eq
judge updating s2length w e =
    if updating && ltb e.offset w.offset && not e.same_offset
    then bypassed
    else if not (w.sum == e.sum1)
    then differs
    else if not (w.l == e.len)
    then differs
    else if not (digest_eq s2length w.sum2 e.sum2)
    then false_alarm
    else found

-- The loop `do ... while ((i = s->sums[i].chain) >= 0)`. Chains lead to smaller indices, so more rounds
-- than the first index are enough.
unfoldable pub walk : Bool → ℕ → Window → ℕ → Option ℕ → Link → Chains → Result (Option ℕ × Chains)
unfolding unlink
walk updating s2length w fuel none prev c = ok (none, c)
walk updating s2length w zero (some i) prev c = exit stuck
walk updating s2length w (suc fuel) (some i) prev c = elim (get_elem? c.sums i) [
  | none ↦ ok (none, c)
  | some e ↦ elim (judge updating s2length w e) [
    | bypassed ↦ walk updating s2length w fuel e.chain prev (unlink prev e.chain c)
    | differs ↦ walk updating s2length w fuel e.chain (after i) c
    | false_alarm ↦
        walk updating s2length w fuel e.chain (after i)
          (record c { false_alarms = c.false_alarms + 1 })
    | found ↦ ok (some i, c)
  ]
]

-- What is settled when a block is found: the block, the offset to send it at, the two checksums as they
-- stand, `want_i`, the aligned position, and the block list.
pub record Choice : Type 0 where
  pub i : ℕ
  pub offset : ℕ
  pub sum : ℕ
  pub sum2 : Bytes
  pub want_i : ℕ
  pub aligned_offset : ℕ
  pub aligned_i : ℕ
  pub sums : List SumBuf

-- `while (aligned_offset < offset) { aligned_offset += s->blength; aligned_i++; }`. Each round adds 1 at
-- least, so `offset` rounds are enough.
unfoldable pub align : ℕ → ℕ → ℕ → ℕ → ℕ → Result (ℕ × ℕ)
align zero blength offset aligned_offset aligned_i =
    if ltb aligned_offset offset then exit stuck else ok (aligned_offset, aligned_i)
align (suc fuel) blength offset aligned_offset aligned_i = elim (ltb aligned_offset offset) [
  | false ↦ ok (aligned_offset, aligned_i)
  | true ↦ align fuel blength offset (aligned_offset + blength) (aligned_i + 1)
]

-- The test whether the chunk lies, or could lie, at its own place in the receiver's file.
unfoldable pub may_align : SumStruct → ℕ → Window → ℕ → ℕ → Bool
may_align s len w aligned_offset aligned_i =
    (w.offset == aligned_offset || w.sum == 0 && w.l == s.blength && leb (aligned_offset + w.l) len)
    && ltb aligned_i s.count

-- `sums[i].flags |= SUMFLG_SAME_OFFSET; want_i = i`
unfoldable pub commit : Choice → Choice
unfolding set_same_offset
commit c = record c { sums = set_same_offset c.sums c.i; want_i = c.i }

module _ (get_checksum2 : Bytes → Bytes) (buf : Bytes) (s : SumStruct) where
  -- A chunk that was found before its place is looked for at its place. The source keeps the checksums
  -- of the last comparison, also where it fails.
  unfoldable pub realign : ℕ → SumBuf → Choice → Choice
  unfolding commit digest_eq
  realign l e c =
      let m = mapped_bytes buf c.aligned_offset l in
      let sum' = get_checksum1 m in
      let sum2' = get_checksum2 m in
      let moved : Choice = record c { sum = sum'; sum2 = sum2'; offset = c.aligned_offset } in
      let kept : Choice = record c { sum = sum'; sum2 = sum2' } in
      if c.offset == c.aligned_offset
      then commit c
      else if not (sum' == e.sum1)
      then record c { sum = sum' }
      else if not (digest_eq s.s2length sum2' e.sum2)
      then kept
      else commit moved

  -- The block `aligned_i` takes the place of the block found, if it is the same.
  unfoldable pub prefer_aligned : ℕ → Choice → Choice
  unfolding realign digest_eq
  prefer_aligned l c = elim (get_elem? c.sums c.aligned_i) [
    | none ↦ c
    | some e ↦
        if not (c.i == c.aligned_i)
          && (not (c.sum == e.sum1) || not (l == e.len) || not (digest_eq s.s2length c.sum2 e.sum2))
        then c
        else realign l e (record c { i = c.aligned_i })
  ]

  -- The part under `if (updating_basis_file)`.
  unfoldable pub settle_offset : Bool → ℕ → Window → Choice → Result Choice
  unfolding align may_align prefer_aligned
  settle_offset false len w c = ok c
  settle_offset true len w c = do
    (ao, ai) ← align w.offset s.blength w.offset c.aligned_offset c.aligned_i
    let c' : Choice = record c { aligned_offset = ao; aligned_i = ai }
    ok (if may_align s len w ao ai then prefer_aligned w.l c' else c')

  -- `check_want_i`: the block after the last one sent is taken if it is as good.
  unfoldable pub check_want : Bool → Choice → Choice
  check_want updating c = elim (get_elem? c.sums c.want_i) [
    | none ↦ c
    | some e ↦
        if not (c.i == c.want_i)
          && (ltb c.want_i s.count
              && ((not updating || leb c.offset e.offset || e.same_offset)
                  && (c.sum == e.sum1 && digest_eq s.s2length c.sum2 e.sum2)))
        then record c { i = c.want_i }
        else c
  ]

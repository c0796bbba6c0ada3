-- ===== src/Hash/Find.antt =====
-- hashtable.c: `hashtable_find` on any table, and `hashtable_create`.
use rsync_wrapper.Prelude.{
  ℕ, zero, suc, ◌+◌, ◌-◌, ◌*◌, ◌<◌, ◌≤◌, ◌≡◌, ◌≢◌, refl, ◌∙◌, arith, ltb, ◌==◌, Bool, true, false,
  not, ◌||◌, Bool-cases, inl, inr, if_cases, ltb→lt, ◌^◌,
}
use rsync_wrapper.Prelude.{Option, none, ok, exit, rerr_messageio}
use Prim.Native.Nat.{bit_and}
use rsync_wrapper.Hash.{
  HashTable, illegal_key, must_grow, find_with, find_nested, hashtable_find, size_loop, table_size,
  hashtable_create,
}
use rsync_wrapper.Hash.Mask.{double_pow, pow_mono, pow-lt, IsPower, IsPower-double, mask-IsPower}
use rsync_wrapper.Hash.Nodes.{listed, listed-replicate}
use rsync_wrapper.Hash.Valid.{IsKey, IsKey-illegal_key, IsValid, put_new, Finds, seek-Finds}
use rsync_wrapper.Hash.Grow.{IsLoaded, IsLight-Serves, grow_lem, bare-IsValid}

pub put_new-same :
    (f g : ℕ → Option ℕ) (key d k : ℕ)
    → f key ≡ g key
    → f k ≡ g k
    → put_new f key d k ≡ put_new g key d k
unfolding put_new
put_new-same f g key d k e e' = ground arith

module _ (tbl : HashTable) (w : IsValid tbl) (l : IsLoaded tbl) (key : ℕ)
    (h : IsKey tbl.key64 key) where
  -- The table that is searched, once it has grown where it has to.
  after_grow :
      (d : ℕ)
      → must_grow tbl d ≡ true
      → (o : Option ℕ) × (tbl' : HashTable) × (hashtable_find tbl key d ≡ ok (o, tbl'))
        × Finds tbl key d o tbl'
        × IsLoaded tbl'
  unfolding hashtable_find find_nested find_with
  after_grow d e =
      let (big, run, v, width, view, load, size_up) =
        grow_lem (λ t k d. find_nested 1 t k d) (IsLight-Serves 0) tbl w l in
      let key' : IsKey big.key64 key = rw width h in
      let (o, tbl', run', f) =
        seek-Finds big v key key' d (λ z. omega (arith, load, l.load, l.wide, size_up)) in
      let legal = IsKey-illegal_key tbl.key64 key h in
      (
        o,
        tbl',
        rw (hashtable_find, find_nested, find_with, legal, e, run) run',
        record {
          valid = f.valid;
          width = f.width ∙ width;
          view = λ k z.
              f.view k z
              ∙ put_new-same (listed big.nodes) (listed tbl.nodes) key d k (view key h.some_key)
                  (view k z);
          points = f.points;
          load = omega (arith, f.load, load);
          size_up = omega (arith, f.size_up, size_up);
        },
        record {
          wide = omega (arith, f.size_up, size_up, l.wide);
          load = ground (arith, f.load, load, l.load, l.wide, f.size_up, size_up);
        },
      )

  as_it_is :
      (d : ℕ)
      → must_grow tbl d ≡ false
      → (o : Option ℕ) × (tbl' : HashTable) × (hashtable_find tbl key d ≡ ok (o, tbl'))
        × Finds tbl key d o tbl'
        × IsLoaded tbl'
  unfolding hashtable_find find_nested find_with must_grow
  as_it_is d e =
      let room : d ≢ 0 → tbl.entries + 1 < tbl.size = λ z. ground (arith, l.wide) in
      let (o, tbl', run, f) = seek-Finds tbl w key h d room in
      let legal = IsKey-illegal_key tbl.key64 key h in
      (
        o,
        tbl',
        rw (hashtable_find, find_nested, find_with, legal, e) run,
        f,
        record {
          wide = omega (arith, f.size_up, l.wide);
          load = ground (arith, f.load, l.load, l.wide, f.size_up);
        },
      )

  -- `hashtable_find` ends on every table that is valid and loaded within its limit, for every legal key, growing or
  -- not, and leaves a table that is valid and loaded within its limit. Each other key has the data that it had, the key
  -- has the data that it had, or else the new data when this is not NULL, and the pointer is to the node of the key,
  -- or NULL when there is none.
  pub hashtable_find-Finds :
      (d : ℕ)
      → (o : Option ℕ) × (tbl' : HashTable) × (hashtable_find tbl key d ≡ ok (o, tbl'))
        × Finds tbl key d o tbl'
        × IsLoaded tbl'
  hashtable_find-Finds d = elim (Bool-cases (must_grow tbl d)) [
    | inl grows ↦ after_grow d grows
    | inr stays ↦ as_it_is d stays
  ]

-- An illegal key is refused.
pub hashtable_find-illegal :
    (tbl : HashTable) (key d : ℕ)
    → illegal_key tbl.key64 key ≡ true
    → hashtable_find tbl key d ≡ exit rerr_messageio
unfolding hashtable_find find_nested find_with
hashtable_find-illegal tbl key d e = rw (hashtable_find, find_nested, find_with, e) refl

-- The loop of the sizes ends at a power of two that is large enough, for a number without a bound.
size_loop_lem :
    (fuel req size : ℕ)
    → IsPower size
    → 16 ≤ size
    → req ≤ size + fuel
    → size ≤ req * 2 + 16
    → IsPower (size_loop fuel req size)
      × (16 ≤ size_loop fuel req size)
      × (req ≤ size_loop fuel req size)
      × (size_loop fuel req size ≤ req * 2 + 16)
unfolding size_loop
size_loop_lem zero req size p wide enough bound = (p, wide, omega (arith, enough), bound)
size_loop_lem (suc fuel) req size p wide enough bound = elim (Bool-cases (ltb size req)) [
  | inl less ↦
      rw (size_loop, less)
        (size_loop_lem fuel req (size * 2) (IsPower-double size p) (omega (arith, wide))
          (omega (arith, wide, enough)) (ground arith))
  | inr done ↦ rw (size_loop, done) (p, wide, ground arith, bound)
]

-- The same of the size of a new table.
table_size-IsPower :
    (size : ℕ)
    → IsPower (table_size size)
      × (16 ≤ table_size size)
      × (size ≤ table_size size)
      × (table_size size ≤ size * 2 + 16)
unfolding table_size
table_size-IsPower size = elim (Bool-cases (not (bit_and size (size - 1) == 0) || ltb size 16)) [
  | inl loops ↦
      rw (table_size, loops)
        (size_loop_lem size size 16 (record { log = 4; same = refl }) (omega arith) (omega arith)
          (omega arith))
  | inr as_asked ↦
      let wide : 16 ≤ size = ground arith in
      rw (table_size, as_asked)
        (mask-IsPower size (omega (arith, wide)) (ground arith), wide, omega arith, omega arith)
]

-- Up to a power of two no size that the loop comes to is above it.
size_loop-le :
    (fuel req size n log : ℕ)
    → size ≡ 2 ^ n
    → n ≤ log
    → req ≤ 2 ^ log
    → size_loop fuel req size ≤ 2 ^ log
unfolding size_loop
size_loop-le zero req size n log e h bound = rw (size_loop, e) (pow_mono n log h)
size_loop-le (suc fuel) req size n log e h bound = elim (Bool-cases (ltb size req)) [
  | inl less ↦
      rw (size_loop, less)
        (size_loop-le fuel req (size * 2) (suc n) log (omega (arith, e, double_pow n))
          (pow-lt n log (omega (arith, ltb→lt _ _ less, e, bound))) bound)
  | inr done ↦ rw (size_loop, done, e) (pow_mono n log h)
]

table_size-le : (size : ℕ) → size ≤ 2 ^ 30 → table_size size ≤ 2 ^ 30
unfolding table_size
table_size-le size bound =
    if_cases (λ (x : ℕ). x ≤ 2 ^ 30) (not (bit_and size (size - 1) == 0) || ltb size 16) _ _
      (λ e. size_loop-le size size 16 4 30 refl (omega arith) bound) (λ e. bound)

-- For every size up to 2 ^ 30, the size of a new table is a power of two, at least 16 and at least the size that is asked
-- for, at most 16 more than twice that size, and at most 2 ^ 30, so that it is an int.
pub table_size_lem :
    (size : ℕ)
    → size ≤ 2 ^ 30
    → IsPower (table_size size)
      × (16 ≤ table_size size)
      × (size ≤ table_size size)
      × (table_size size ≤ size * 2 + 16)
      × (table_size size ≤ 2 ^ 30)
table_size_lem size h =
    let (p, wide, enough, twice) = table_size-IsPower size in
    (p, wide, enough, twice, table_size-le size h)

-- A new table is valid, holds nothing and has at least the size that is asked for.
pub record IsNew (size : ℕ) (tbl : HashTable) : Type 0 where
  pub valid : IsValid tbl
  pub loaded : IsLoaded tbl
  pub blank : (k : ℕ) → k ≢ 0 → listed tbl.nodes k ≡ none
  pub enough : size ≤ tbl.size

pub hashtable_create-IsNew : (size : ℕ) (key64 : Bool) → IsNew size (hashtable_create size key64)
unfolding hashtable_create
hashtable_create-IsNew size key64 =
    let (p, wide, enough, _) = table_size-IsPower size in
    record {
      valid = bare-IsValid (table_size size) key64 p;
      loaded = record { wide = wide; load = omega arith };
      blank = listed-replicate (table_size size);
      enough = enough;
    }

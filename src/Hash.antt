-- ===== src/Hash.antt =====
-- hashtable.c: the hash table with open addressing. A node is its key and its data, a key of 0 is a free node,
-- and a pointer to a node is its index. A key is the 64 bits of an int64; data is an address, 0 for NULL. Sizes
-- and counts do not reach 2 ^ 31.
pub mod Mask
pub mod Probe
pub mod Nodes
pub mod Valid
pub mod Written
pub mod Grow
pub mod Find
pub mod Client
use rsync_wrapper.Prelude.{
  ℕ, zero, suc, ◌+◌, ◌-◌, ◌*◌, ◌/◌, ◌%◌, ◌^◌, ltb, ◌==◌, if◌then◌else◌, Bool, true, false, not,
  ◌&&◌, ◌||◌,
}
use rsync_wrapper.Prelude.{
  List, [], ◌∷◌, length, set, get_or, replicate, Option, none, some, Result, ok, exit, stuck,
  rerr_messageio, ◌>>=◌,
}
use Prim.Native.Nat.{bit_and, bit_xor}

pub record Node : Type 0 where
  pub key : ℕ
  pub value : ℕ

abbrev pub free_node : Node
free_node = record { key = 0; value = 0 }

pub record HashTable : Type 0 where
  pub nodes : List Node
  pub size : ℕ
  pub entries : ℕ
  pub key64 : Bool

abbrev pub word : ℕ → ℕ
word n = n % 2 ^ 32

-- `a - b` on uint32.
unfoldable pub word_sub : ℕ → ℕ → ℕ
word_sub a b = word (a + 2 ^ 32 - word b)

-- Jenkins' one-at-a-time hash, of the four bytes of an int32.
unfoldable pub mix_byte : ℕ → ℕ → ℕ
mix_byte ndx byte =
    let a = word (ndx + byte) in let b = word (a + word (a * 2 ^ 10)) in bit_xor b (b / 2 ^ 6)

unfoldable pub hash32 : ℕ → ℕ
unfolding mix_byte
hash32 key =
    let a = mix_byte 0 (key % 256) in
    let b = mix_byte a (key / 2 ^ 8 % 256) in
    let c = mix_byte b (key / 2 ^ 16 % 256) in
    let d = mix_byte c (key / 2 ^ 24 % 256) in
    let e = word (d + word (d * 2 ^ 3)) in
    let f = bit_xor e (e / 2 ^ 11) in word (f + word (f * 2 ^ 15))

-- `rot(x,k)`
unfoldable pub rot : ℕ → ℕ → ℕ
rot x k = bit_xor (word (x * 2 ^ k)) (x / 2 ^ (32 - k))

-- `c ^= b; c -= rot(b, k)`
unfoldable pub mix_in : ℕ → ℕ → ℕ → ℕ
unfolding word_sub rot
mix_in c b k = word_sub (bit_xor c b) (rot b k)

-- Jenkins' hashword(), of two words. 0xdeadbeef + (8 << 2) to begin with.
unfoldable pub hash64 : ℕ → ℕ
unfolding mix_in
hash64 key =
    let start = word (3735928559 + 32) in
    let b0 = word (start + word (key / 2 ^ 32)) in
    let a0 = word (start + word key) in
    let c1 = mix_in start b0 14 in
    let a1 = mix_in a0 c1 11 in
    let b1 = mix_in b0 a1 25 in
    let c2 = mix_in c1 b1 16 in
    let a2 = mix_in a1 c2 4 in let b2 = mix_in b1 a2 14 in mix_in c2 b2 24

unfoldable pub hash_of : Bool → ℕ → ℕ
unfolding hash32 hash64
hash_of key64 key = if key64 then hash64 key else hash32 key

-- The key as a node holds it and HT_KEY reads it: 64 bits, or 32 with the sign.
unfoldable pub held : Bool → ℕ → ℕ
held key64 key =
    let low = word key in
    if key64 then key else if ltb low (2 ^ 31) then low else low + (2 ^ 64 - 2 ^ 32)

unfoldable pub illegal_key : Bool → ℕ → Bool
illegal_key key64 key = if key64 then key == 0 else word key == 0

abbrev pub node_at : List Node → ℕ → Node
node_at nodes i = get_or nodes i free_node

-- Where the search ends.
pub data Slot : Type 0 where
  found empty : ℕ → Slot

-- `while (1)`. There is a free node, so that the fuel is the size.
unfoldable pub probe : ℕ → List Node → ℕ → ℕ → ℕ → Result Slot
probe zero nodes size key ndx = exit stuck
probe (suc fuel) nodes size key ndx =
    let i = bit_and ndx (size - 1) in
    elim ((node_at nodes i).key == key) [
      | true ↦ ok (found i)
      | false ↦ elim ((node_at nodes i).key == 0) [
        | true ↦ ok (empty i)
        | false ↦ probe fuel nodes size key (i + 1)
      ]
    ]

-- From the hash on: the node of the key, or NULL, or a new one.
unfoldable pub take_over : HashTable → ℕ → ℕ → ℕ → HashTable
unfolding held
take_over tbl key data_when_new i = record tbl {
  nodes = set tbl.nodes i (record { key = held tbl.key64 key; value = data_when_new });
  entries = tbl.entries + 1;
}

unfoldable pub seek : HashTable → ℕ → ℕ → Result (Option ℕ × HashTable)
unfolding probe take_over hash_of
seek tbl key data_when_new = elim (probe tbl.size tbl.nodes tbl.size key (hash_of tbl.key64 key)) [
  | exit e ↦ exit e
  | ok (found i) ↦ ok (some i, tbl)
  | ok (empty i) ↦
      if data_when_new == 0 then ok (none, tbl) else ok (some i, take_over tbl key data_when_new i)
]

-- `node->data = value` through the pointer.
unfoldable pub set_value : ℕ → HashTable → Option ℕ → HashTable
set_value value tbl none = tbl
set_value value tbl (some i) = record tbl {
  nodes = set tbl.nodes i (record { key = (node_at tbl.nodes i).key; value = value });
}

abbrev pub Finder : Type 0
Finder = HashTable → ℕ → ℕ → Result (Option ℕ × HashTable)

-- One node of the old table. The string "" is an address that is not NULL.
unfoldable pub move_node : Finder → Node → HashTable → Result HashTable
unfolding set_value
move_node find node tbl =
    if node.key == 0
    then ok tbl
    else if not (node.value == 0)
    then (do (i, tbl') ← find tbl node.key node.value; ok tbl')
    else (do (i, tbl') ← find tbl node.key 1; ok (set_value 0 tbl' i))

-- `for (i = size / 2; i-- > 0; )`: from the last one on.
unfoldable pub move_nodes : Finder → List Node → HashTable → Result HashTable
unfolding move_node
move_nodes find [] tbl = ok tbl
move_nodes find (node ∷ nodes) tbl = do tbl' ← move_nodes find nodes tbl; move_node find node tbl'

unfoldable pub grow : Finder → HashTable → Result HashTable
unfolding move_nodes
grow find tbl = move_nodes find tbl.nodes (record {
  nodes = replicate (tbl.size * 2) free_node;
  size = tbl.size * 2;
  entries = 0;
  key64 = tbl.key64;
})

-- `data_when_new && tbl->entries > HASH_LOAD_LIMIT(tbl->size)`
unfoldable pub must_grow : HashTable → ℕ → Bool
must_grow tbl data_when_new = not (data_when_new == 0) && ltb (tbl.size * 3 / 4) tbl.entries

-- The body of `hashtable_find`, with the function that it calls for the nodes it moves.
unfoldable pub find_with : Finder → Finder
unfolding grow seek must_grow illegal_key
find_with find tbl key data_when_new =
    if illegal_key tbl.key64 key then exit rerr_messageio else elim (must_grow tbl data_when_new) [
      | true ↦ (do grown ← grow find tbl; seek grown key data_when_new)
      | false ↦ seek tbl key data_when_new
    ]

-- `depth` calls one in another at the most. A moved node never makes the new table grow, so that one is enough.
unfoldable pub find_nested : ℕ → Finder
unfolding find_with
find_nested zero tbl key data_when_new = exit stuck
find_nested (suc depth) tbl key data_when_new =
    find_with (λ t k d. find_nested depth t k d) tbl key data_when_new

unfoldable pub hashtable_find : Finder
unfolding find_nested
hashtable_find tbl key data_when_new = find_nested 2 tbl key data_when_new

-- `while (size < req) size *= 2`. `size` is an int in the source: above 2 ^ 30 its doubling overflows, here it is a
-- number without a bound.
unfoldable pub size_loop : ℕ → ℕ → ℕ → ℕ
size_loop zero req size = size
size_loop (suc fuel) req size = if ltb size req then size_loop fuel req (size * 2) else size

unfoldable pub table_size : ℕ → ℕ
unfolding size_loop
table_size size =
    if not (bit_and size (size - 1) == 0) || ltb size 16 then size_loop size size 16 else size

unfoldable pub hashtable_create : ℕ → Bool → HashTable
unfolding table_size
hashtable_create size key64 = record {
  nodes = replicate (table_size size) free_node;
  size = table_size size;
  entries = 0;
  key64 = key64;
}

-- ===== src/Hash/Grow.antt =====
-- hashtable.c: a table that grows holds what it held.
use rsync_wrapper.Prelude.{
  ℕ, suc, ◌+◌, ◌*◌, ◌/◌, ◌≤◌, ◌≡◌, ◌≢◌, refl, ◌∙◌, arith, ltb, ◌==◌, if◌then◌else◌, Bool, true,
  false, Bool-cases, inl, inr,
}
use rsync_wrapper.Prelude.{
  List, [], ◌∷◌, replicate, Option, none, some, Result, ok, length-replicate,
}
use rsync_wrapper.Hash.{
  Node, HashTable, free_node, set_value, Finder, move_node, move_nodes, grow, must_grow, find_with,
  find_nested,
}
use rsync_wrapper.Hash.Mask.{IsPower, IsPower-lt, IsPower-double}
use rsync_wrapper.Hash.Probe.{key_at}
use rsync_wrapper.Hash.Nodes.{
  listed, used, Distinct, listed-replicate, used-replicate, key_at-replicate,
}
use rsync_wrapper.Hash.Valid.{
  IsKey, IsKey-illegal_key, IsValid, put_new, Points, Finds, valid-Distinct, seek-Finds,
}
use rsync_wrapper.Hash.Written.{set_value-view, SetSame, set_value-SetSame}

-- The load: at least 16 nodes, and three quarters of them taken, or one more.
pub record IsLoaded (tbl : HashTable) : Type 0 where
  pub wide : 16 ≤ tbl.size
  pub load : tbl.entries ≤ tbl.size * 3 / 4 + 1

-- Nothing to grow for.
pub record IsLight (tbl : HashTable) : Type 0 where
  pub wide : 16 ≤ tbl.size
  pub load : tbl.entries ≤ tbl.size * 3 / 4

unfoldable pub Found : HashTable → ℕ → ℕ → Result (Option ℕ × HashTable) → Type 0
Found tbl key d r =
    (o : Option ℕ) × (tbl' : HashTable) × (r ≡ ok (o, tbl')) × Finds tbl key d o tbl'

-- What the moving of nodes asks of the function that it calls.
unfoldable pub Serves : Finder → Type 0
unfolding Found
Serves find =
    (tbl : HashTable) (key d : ℕ)
    → IsValid tbl
    → IsLight tbl
    → IsKey tbl.key64 key
    → Found tbl key d (find tbl key d)

-- One node more.
record Moved (tbl : HashTable) (n : Node) (tbl' : HashTable) : Type 0 where
  valid : IsValid tbl'
  width : tbl'.key64 ≡ tbl.key64
  view :
      (k : ℕ)
      → k ≢ 0
      → listed tbl'.nodes k ≡ (if n.key == k then some n.value else listed tbl.nodes k)
  load : tbl'.entries ≤ tbl.entries + 1
  size_up : tbl.size ≤ tbl'.size

-- A table with no keys.
abbrev pub bare : ℕ → Bool → HashTable
bare size key64 = record {
  nodes = replicate size free_node;
  size = size;
  entries = 0;
  key64 = key64;
}

pub bare-IsValid : (size : ℕ) (key64 : Bool) → IsPower size → IsValid (bare size key64)
bare-IsValid size key64 p = record {
  long = length-replicate size free_node;
  power = p;
  count = used-replicate size;
  room = IsPower-lt size p;
  keys = λ i z. absurd (z (key_at-replicate size i));
  reach = λ i l z. absurd (z (key_at-replicate size i));
}

-- The nodes `ns` are in a table that was empty.
pub record Holds (start : HashTable) (ns : List Node) (tbl : HashTable) : Type 0 where
  valid : IsValid tbl
  width : tbl.key64 ≡ start.key64
  view : (k : ℕ) → k ≢ 0 → listed tbl.nodes k ≡ listed ns k
  load : tbl.entries ≤ used ns
  size_up : start.size ≤ tbl.size

module _ (find : Finder) (serves : Serves find) where
  new_key :
      (f : ℕ → Option ℕ) (key d k : ℕ)
      → f key ≡ none
      → d == 0 ≡ false
      → put_new f key d k ≡ (if key == k then some d else f k)
  unfolding put_new
  new_key f key d k e nd = rw (put_new, e, nd) refl

  null_view :
      (f g : ℕ → Option ℕ) (key v at k : ℕ)
      → at ≡ key
      → g k ≡ (if key == k then some 1 else f k)
      → v == 0 ≡ true
      → (if at == k then some 0 else g k) ≡ (if key == k then some v else f k)
  null_view f g key v at k same e null = ground arith

  -- A node with data.
  move_data :
      (n : Node) (tbl : HashTable)
      → IsValid tbl
      → IsLight tbl
      → IsKey tbl.key64 n.key
      → listed tbl.nodes n.key ≡ none
      → n.value == 0 ≡ false
      → (o : Option ℕ) × (tbl' : HashTable) × (find tbl n.key n.value ≡ ok (o, tbl'))
        × Moved tbl n tbl'
  unfolding Serves Found
  move_data n tbl w l h e nd =
      let (o, tbl', run, f) = serves tbl n.key n.value w l h in
      (
        o,
        tbl',
        run,
        record {
          valid = f.valid;
          width = f.width;
          view = λ k z. f.view k z ∙ new_key (listed tbl.nodes) n.key n.value k e nd;
          load = ground (arith, f.load);
          size_up = f.size_up;
        },
      )

  -- A node with NULL for its data.
  move_null :
      (n : Node) (tbl : HashTable)
      → IsValid tbl
      → IsLight tbl
      → IsKey tbl.key64 n.key
      → listed tbl.nodes n.key ≡ none
      → n.value == 0 ≡ true
      → (o : Option ℕ) × (tbl' : HashTable) × (find tbl n.key 1 ≡ ok (o, tbl'))
        × Moved tbl n (set_value 0 tbl' o)
  unfolding Serves Found Points SetSame
  move_null n tbl w l h e null =
      let (o, tbl', run, f) = serves tbl n.key 1 w l h in
      let made : listed tbl'.nodes n.key ≡ some 1 =
        f.view n.key h.some_key ∙ new_key (listed tbl.nodes) n.key 1 n.key e refl ∙ ground arith in
      (o, tbl', run, go o tbl' f made f.points)
    where
      go :
          (o : Option ℕ) (tbl' : HashTable)
          → Finds tbl n.key 1 o tbl'
          → listed tbl'.nodes n.key ≡ some 1
          → Points tbl'.nodes n.key o (listed tbl'.nodes n.key)
          → Moved tbl n (set_value 0 tbl' o)
      go none tbl' f made points = absurd (ground (arith, rw made at points))
      go (some i) tbl' f made points =
          let (lt, at, val) : Points tbl'.nodes n.key (some i) (some 1) = rw made at points in
          let (valid, width, load, size_up) = set_value-SetSame tbl' f.valid 0 i lt in
          record {
            valid = valid;
            width = width ∙ f.width;
            view = λ k z.
                set_value-view tbl' f.valid 0 i lt k z
                ∙ null_view (listed tbl.nodes) (listed tbl'.nodes) n.key n.value
                    (key_at tbl'.nodes i) k at
                    (f.view k z ∙ new_key (listed tbl.nodes) n.key 1 k e refl) null;
            load = ground (arith, f.load, load);
            size_up = omega (arith, f.size_up, size_up);
          }

  move_node_lem :
      (n : Node) (tbl : HashTable)
      → IsValid tbl
      → IsLight tbl
      → IsKey tbl.key64 n.key
      → listed tbl.nodes n.key ≡ none
      → (tbl' : HashTable) × (move_node find n tbl ≡ ok tbl') × Moved tbl n tbl'
  unfolding move_node
  move_node_lem n tbl w l h e =
      let some_key : (n.key == 0) ≡ false = ground (arith, h.some_key) in
      elim (Bool-cases (n.value == 0)) [
        | inl null ↦
            let (o, tbl', run, moved) = move_null n tbl w l h e null in
            (set_value 0 tbl' o, rw (move_node, some_key, null, run) refl, moved)
        | inr data_there ↦
            let (o, tbl', run, moved) = move_data n tbl w l h e data_there in
            (tbl', rw (move_node, some_key, data_there, run) refl, moved)
      ]

  -- All the nodes, from the last one on, to a table that is empty.
  module _ (start : HashTable) (w : IsValid start) (wide : 16 ≤ start.size)
      (none_yet : start.entries ≡ 0) (blank : (k : ℕ) → k ≢ 0 → listed start.nodes k ≡ none) where
    Keys : List Node → Type 0
    Keys ns = (i : ℕ) → key_at ns i ≢ 0 → IsKey start.key64 (key_at ns i)

    move_nodes_lem :
        (ns : List Node)
        → Distinct ns
        → Keys ns
        → used ns ≤ start.size * 3 / 4
        → (tbl : HashTable) × (move_nodes find ns start ≡ ok tbl) × Holds start ns tbl
    unfolding move_nodes listed used Distinct Keys
    move_nodes_lem [] d keys room = (
      start,
      refl,
      record {
        valid = w;
        width = refl;
        view = blank;
        load = omega (arith, none_yet);
        size_up = omega arith;
      },
    )
    move_nodes_lem (n ∷ ns) d keys room =
        let (mid, run, h) = move_nodes_lem ns d.1 (λ i z. keys (suc i) z) (ground arith) in
        elim (Bool-cases (n.key == 0)) [
          | inl free ↦ (
            mid,
            rw (move_nodes, run, move_node, free) refl,
            record {
              valid = h.valid;
              width = h.width;
              view = λ k z. h.view k z ∙ ground arith;
              load = ground (arith, h.load);
              size_up = h.size_up;
            },
          )
          | inr taken ↦
              let some_key : n.key ≢ 0 = ground arith in
              let key : IsKey mid.key64 n.key = rw h.width (keys 0 some_key) in
              let light : IsLight mid = record {
                wide = omega (arith, wide, h.size_up);
                load = ground (arith, h.load, h.size_up);
              } in
              let (last, step, m) =
                move_node_lem n mid h.valid light key (h.view n.key some_key ∙ d.0 some_key) in
              (
                last,
                rw (move_nodes, run) step,
                record {
                  valid = m.valid;
                  width = m.width ∙ h.width;
                  view = λ k z. m.view k z ∙ ground (arith, h.view k z);
                  load = ground (arith, m.load, h.load);
                  size_up = omega (arith, m.size_up, h.size_up);
                },
              )
        ]

  -- The whole of a table, to one of twice the size.
  pub grow_lem :
      (tbl : HashTable)
      → IsValid tbl
      → IsLoaded tbl
      → (tbl' : HashTable) × (grow find tbl ≡ ok tbl')
        × IsValid tbl'
        × (tbl'.key64 ≡ tbl.key64)
        × ((k : ℕ) → k ≢ 0 → listed tbl'.nodes k ≡ listed tbl.nodes k)
        × (tbl'.entries ≤ tbl.entries)
        × (tbl.size * 2 ≤ tbl'.size)
  unfolding grow Keys
  grow_lem tbl w l =
      let start : HashTable = bare (tbl.size * 2) tbl.key64 in
      let (tbl', run, h) =
        move_nodes_lem start
          (bare-IsValid (tbl.size * 2) tbl.key64 (IsPower-double tbl.size w.power))
          (omega (arith, l.wide)) refl (listed-replicate (tbl.size * 2)) tbl.nodes
          (valid-Distinct tbl w) w.keys (omega (arith, w.count, l.load, l.wide)) in
      (tbl', run, h.valid, h.width, h.view, omega (arith, h.load, w.count), h.size_up)

-- Where no growing is called for.
pub IsLight-Serves : (depth : ℕ) → Serves (λ t k d. find_nested (suc depth) t k d)
unfolding Serves Found find_nested find_with must_grow
IsLight-Serves depth tbl key d w l h =
    let (o, tbl', run, f) = seek-Finds tbl w key h d (λ z. omega (arith, l.load, l.wide)) in
    let legal = IsKey-illegal_key tbl.key64 key h in
    let light : ltb (tbl.size * 3 / 4) tbl.entries ≡ false = ground (arith, l.load) in
    elim (Bool-cases (d == 0)) [
      | inl null ↦ (o, tbl', rw (find_nested, find_with, legal, must_grow, null) run, f)
      | inr new ↦ (o, tbl', rw (find_nested, find_with, legal, must_grow, new, light) run, f)
    ]

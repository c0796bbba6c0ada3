-- ===== src/Hash/Valid.antt =====
-- hashtable.c: the invariant of a table, and the search from the hash of a key on.
use rsync_wrapper.Prelude.{
  ℕ, ◌+◌, ◌<◌, ◌≤◌, ◌≡◌, ◌≢◌, refl, sym, ap, ◌∙◌, arith, ◌==◌, if◌then◌else◌, Bool, true, false,
  not, ◌&&◌, Bool-cases, Option-cases, inl, inr, ==_iff,
}
use rsync_wrapper.Prelude.{List, length, set, Option, none, some, Result, ok, length-set}
use rsync_wrapper.Hash.{
  Node, HashTable, node_at, Slot, found, empty, hash_of, held, illegal_key, probe, take_over, seek,
}
use rsync_wrapper.Hash.Mask.{IsPower}
use rsync_wrapper.Hash.Probe.{
  key_at, node_at-set_self, node_at-set_ne, Ends, probe-Ends, ahead-lt, probe-set_found,
  probe-set_empty,
}
use rsync_wrapper.Hash.Nodes.{
  listed, used, Distinct, listed-some, listed-node_at, Apart-Distinct, free-exists, used-set,
  listed-set,
}

-- A key that a table can hold: not 0, and an int32 in a table of 32 bits.
pub record IsKey (key64 : Bool) (key : ℕ) : Type 0 where
  pub some_key : key ≢ 0
  pub fits : held key64 key ≡ key

pub IsKey-illegal_key : (key64 : Bool) (key : ℕ) → IsKey key64 key → illegal_key key64 key ≡ false
unfolding illegal_key held
IsKey-illegal_key true key h = ground (arith, h.some_key)
IsKey-illegal_key false key h = ground (arith, h.some_key, h.fits)

abbrev pub look : HashTable → ℕ → Result Slot
look tbl key = probe tbl.size tbl.nodes tbl.size key (hash_of tbl.key64 key)

found_inj : {i j : ℕ} → Result.ok (found i) ≡ ok (found j) → i ≡ j
found_inj e = cc

-- The invariant: a free node is left, and the search for each key that stands in the table finds its node.
pub record IsValid (tbl : HashTable) : Type 0 where
  pub long : length tbl.nodes ≡ tbl.size
  pub power : IsPower tbl.size
  pub count : used tbl.nodes ≡ tbl.entries
  pub room : tbl.entries < tbl.size
  pub keys : (i : ℕ) → key_at tbl.nodes i ≢ 0 → IsKey tbl.key64 (key_at tbl.nodes i)
  pub reach :
      (i : ℕ) → i < tbl.size → key_at tbl.nodes i ≢ 0 → look tbl (key_at tbl.nodes i) ≡ ok (found i)

-- Any insertion leaves what is there, as it is with a map.
unfoldable pub put_new : (ℕ → Option ℕ) → ℕ → ℕ → ℕ → Option ℕ
put_new f key d k = elim (f key) [
  | some v ↦ f k
  | none ↦ if not (d == 0) && key == k then some d else f k
]

put_new_made :
    (f : ℕ → Option ℕ) (key d k : ℕ)
    → f key ≡ none
    → d == 0 ≡ false
    → put_new f key d k ≡ (if key == k then some d else f k)
unfolding put_new
put_new_made f key d k e nd = rw (put_new, e, nd) refl

put_new_null :
    (f : ℕ → Option ℕ) (key d k : ℕ) → f key ≡ none → d == 0 ≡ true → put_new f key d k ≡ f k
unfolding put_new
put_new_null f key d k e nd = rw (put_new, e, nd) refl

put_new_there : (f : ℕ → Option ℕ) (key d k v : ℕ) → f key ≡ some v → put_new f key d k ≡ f k
unfolding put_new
put_new_there f key d k v e = rw (put_new, e) refl

-- A pointer to the node of the key, or NULL.
unfoldable pub Points : List Node → ℕ → Option ℕ → Option ℕ → Type 0
Points ns key none none = Unit
Points ns key none (some v) = true ≡ false
Points ns key (some i) none = true ≡ false
Points ns key (some i) (some v) = (i < length ns) × (key_at ns i ≡ key) × ((node_at ns i).value ≡ v)

Points-some :
    (ns : List Node) (key i v : ℕ)
    → i < length ns
    → key_at ns i ≡ key
    → (node_at ns i).value ≡ v
    → listed ns key ≡ some v
    → Points ns key (some i) (listed ns key)
unfolding Points
Points-some ns key i v lt at val e = rw e (lt, at, val)

-- What a search for `key` with `d` as the data of a new node comes to.
pub record Finds (tbl : HashTable) (key d : ℕ) (o : Option ℕ) (tbl' : HashTable) : Type 0 where
  pub valid : IsValid tbl'
  pub width : tbl'.key64 ≡ tbl.key64
  pub view : (k : ℕ) → k ≢ 0 → listed tbl'.nodes k ≡ put_new (listed tbl.nodes) key d k
  pub points : Points tbl'.nodes key o (listed tbl'.nodes key)
  pub load : tbl'.entries ≤ tbl.entries + (if d == 0 then 0 else 1)
  pub size_up : tbl.size ≤ tbl'.size

module _ (tbl : HashTable) (w : IsValid tbl) where
  pub valid-Distinct : Distinct tbl.nodes
  valid-Distinct = Apart-Distinct tbl.nodes λ i j l m z e. found_inj (
      sym (w.reach i (omega (arith, w.long)) z)
      ∙ ap (look tbl) e
      ∙ w.reach j (omega (arith, w.long)) (λ y. z (e ∙ y)))

  -- The search for a key ends, at its node or at a free one.
  ends : (key : ℕ) → (s : Slot) × (look tbl key ≡ ok s) × Ends tbl.nodes tbl.size key s
  ends key =
      let (z, lt, free) = free-exists tbl.nodes (omega (arith, w.long, w.count, w.room)) in
      probe-Ends tbl.nodes tbl.size w.power tbl.size key (hash_of tbl.key64 key) z
        (omega (arith, lt, w.long)) free
        (ahead-lt tbl.nodes tbl.size w.power (hash_of tbl.key64 key) z (omega (arith, lt, w.long)))

  module _ (key : ℕ) (h : IsKey tbl.key64 key) where
    -- A free node at the end of the search: the key is nowhere.
    missing : (j : ℕ) → look tbl key ≡ ok (empty j) → listed tbl.nodes key ≡ none
    missing j run = elim (Option-cases (listed tbl.nodes key)) [
      | inl gone ↦ gone
      | inr (v, e) ↦
          let (i, lt, at) = listed-some tbl.nodes key v e in
          let there = w.reach i (omega (arith, lt, w.long)) (λ z. h.some_key (sym at ∙ z)) in
          let clash : Result.ok (empty j) ≡ ok (found i) =
            sym run ∙ ap (look tbl) (sym at) ∙ there in
          absurd (ground arith)
    ]

    -- A free node is taken over.
    module _ (d j : ℕ) (lt : j < tbl.size) (free : key_at tbl.nodes j ≡ 0)
        (run : look tbl key ≡ ok (empty j)) (room : tbl.entries + 1 < tbl.size) where
      abbrev taken : Node
      taken = record { key = held tbl.key64 key; value = d }

      abbrev after : List Node
      after = set tbl.nodes j taken

      key_there : key_at after j ≡ key
      key_there =
          ap (λ (n : Node). n.key) (node_at-set_self tbl.nodes j taken (omega (arith, w.long)))
          ∙ h.fits

      key_else : (i : ℕ) → i == j ≡ false → key_at after i ≡ key_at tbl.nodes i
      key_else i o =
          ap (λ (n : Node). n.key) (node_at-set_ne tbl.nodes i j taken (λ e. ground arith))

      after-reach :
          (i : ℕ)
          → i < tbl.size
          → key_at after i ≢ 0
          → probe tbl.size after tbl.size (key_at after i) (hash_of tbl.key64 (key_at after i))
            ≡ ok (found i)
      after-reach i l z = elim (Bool-cases (i == j)) [
        | inl here ↦
            let e : i ≡ j = (==_iff i j).0 here in
            let at : key_at after i ≡ key = ap (key_at after) e ∙ key_there in
            rw at (
              probe-set_empty tbl.size key tbl.size tbl.nodes j taken (hash_of tbl.key64 key)
                (omega (arith, w.long)) h.fits run
              ∙ ap (λ (x : ℕ). ok (found x)) (sym e))
        | inr else_where ↦
            let same = key_else i else_where in
            let z' : key_at tbl.nodes i ≢ 0 = (λ y. z (same ∙ y)) in
            rw same (
              probe-set_found tbl.size (key_at tbl.nodes i) tbl.size tbl.nodes j taken
                (hash_of tbl.key64 (key_at tbl.nodes i)) i z' free (w.reach i l z'))
      ]

      after-keys : (i : ℕ) → key_at after i ≢ 0 → IsKey tbl.key64 (key_at after i)
      after-keys i z = elim (Bool-cases (i == j)) [
        | inl here ↦
            let at : key_at after i ≡ key = ap (key_at after) ((==_iff i j).0 here) ∙ key_there in
            rw at h
        | inr else_where ↦
            let same = key_else i else_where in rw same (w.keys i (λ y. z (same ∙ y)))
      ]

      take_over-IsValid : IsValid (take_over tbl key d j)
      unfolding take_over
      take_over-IsValid = record {
        long = length-set tbl.nodes j _ ∙ w.long;
        power = w.power;
        count =
            used-set (record { key = held tbl.key64 key; value = d })
              (λ z. h.some_key (sym h.fits ∙ z)) tbl.nodes j (omega (arith, w.long)) free
            ∙ ap (λ (x : ℕ). x + 1) w.count;
        room = room;
        keys = after-keys;
        reach = after-reach;
      }

      take_over-view :
          (k : ℕ)
          → k ≢ 0
          → listed (take_over tbl key d j).nodes k
            ≡ (if key == k then some d else listed tbl.nodes k)
      unfolding take_over
      take_over-view k z =
          let gone = missing j run in
          listed-set taken (λ y. h.some_key (sym h.fits ∙ y)) tbl.nodes j k (omega (arith, w.long))
            free (ap (listed tbl.nodes) h.fits ∙ gone) z
          ∙ ap (λ (x : ℕ). if x == k then some d else listed tbl.nodes k) h.fits

      same_key : (if key == key then some d else listed tbl.nodes key) ≡ some d
      same_key = ground arith

      take_over-Finds : d == 0 ≡ false → Finds tbl key d (some j) (take_over tbl key d j)
      take_over-Finds nd = record {
        valid = take_over-IsValid;
        width = unfold take_over in refl;
        view = λ k z.
            take_over-view k z ∙ sym (put_new_made (listed tbl.nodes) key d k (missing j run) nd);
        points =
            Points-some (take_over tbl key d j).nodes key j d
              (unfold take_over in omega (arith, length-set tbl.nodes j taken, w.long))
              (unfold take_over in key_there)
              (unfold take_over in
                ap (λ (n : Node). n.value)
                  (node_at-set_self tbl.nodes j taken (omega (arith, w.long))))
              (take_over-view key h.some_key ∙ same_key);
        load = unfold take_over in ground arith;
        size_up = unfold take_over in omega arith;
      }

    -- Without a new node, and where one may be made.
    pub seek-Finds :
        (d : ℕ)
        → (d ≢ 0 → tbl.entries + 1 < tbl.size)
        → (o : Option ℕ) × (tbl' : HashTable) × (seek tbl key d ≡ ok (o, tbl'))
          × Finds tbl key d o tbl'
    unfolding seek Ends
    seek-Finds d room = let (s, run, at) = ends key in go s run at
      where
        here : (i : ℕ) → Ends tbl.nodes tbl.size key (found i) → Finds tbl key d (some i) tbl
        here i at =
            let lt : i < length tbl.nodes = omega (arith, w.long, at.1) in
            let e = listed-node_at tbl.nodes i key valid-Distinct lt at.0 h.some_key in
            record {
              valid = w;
              width = refl;
              view = λ k z.
                  sym (put_new_there (listed tbl.nodes) key d k (node_at tbl.nodes i).value e);
              points = Points-some tbl.nodes key i (node_at tbl.nodes i).value lt at.0 refl e;
              load = omega arith;
              size_up = omega arith;
            }

        nowhere : (j : ℕ) → look tbl key ≡ ok (empty j) → d == 0 ≡ true → Finds tbl key d none tbl
        nowhere j run null = record {
          valid = w;
          width = refl;
          view = λ k z. sym (put_new_null (listed tbl.nodes) key d k (missing j run) null);
          points = unfold Points in rw (missing j run) tt;
          load = omega arith;
          size_up = omega arith;
        }

        go :
            (s : Slot)
            → look tbl key ≡ ok s
            → Ends tbl.nodes tbl.size key s
            → (o : Option ℕ) × (tbl' : HashTable) × (seek tbl key d ≡ ok (o, tbl'))
              × Finds tbl key d o tbl'
        go (found i) run at = (some i, tbl, rw (seek, run) refl, here i at)
        go (empty j) run at = elim (Bool-cases (d == 0)) [
          | inl null ↦ (none, tbl, rw (seek, run, null) refl, nowhere j run null)
          | inr new ↦ (
            some j,
            take_over tbl key d j,
            rw (seek, run, new) refl,
            take_over-Finds d j at.1 at.0 run (room (λ e. ground arith)) new,
          )
        ]

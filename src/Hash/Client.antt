-- ===== src/Hash/Client.antt =====
-- hashtable.c: a client's calls one after another. A client looks a key up, or has a node made for it with some first
-- data, and may then write the data of the node that it was given.
use rsync_wrapper.Prelude.{ℕ, ◌≡◌, ◌≢◌, ◌∙◌, arith, ◌==◌, if◌then◌else◌, Bool}
use rsync_wrapper.Prelude.{List, [], ◌∷◌, Option, none, some, Result, ok, ◌>>=◌}
use rsync_wrapper.Hash.{HashTable, node_at, set_value, hashtable_find}
use rsync_wrapper.Hash.Probe.{key_at}
use rsync_wrapper.Hash.Nodes.{listed}
use rsync_wrapper.Hash.Valid.{IsKey, IsValid, put_new, Points}
use rsync_wrapper.Hash.Written.{set_value-view, SetSame, set_value-SetSame}
use rsync_wrapper.Hash.Grow.{IsLoaded}

-- `find key data_when_new`, and `write key data_when_new value` with `node->data = value` after it.
pub data Call : Type 0 where
  find : ℕ → ℕ → Call
  write : ℕ → ℕ → ℕ → Call

-- What is read through the pointer that is returned.
unfoldable pub read_node : HashTable → Option ℕ → Option ℕ
read_node tbl none = none
read_node tbl (some i) = some (node_at tbl.nodes i).value

unfoldable pub call : Call → HashTable → Result (Option ℕ × HashTable)
unfolding read_node
call (find key d) tbl = do (o, tbl') ← hashtable_find tbl key d; ok (read_node tbl' o, tbl')
call (write key d v) tbl = do
  (o, tbl') ← hashtable_find tbl key d
  ok (read_node tbl' o, set_value v tbl' o)

unfoldable pub calls : List Call → HashTable → Result (List (Option ℕ) × HashTable)
unfolding call
calls [] tbl = ok ([], tbl)
calls (c ∷ cs) tbl = do (r, tbl') ← call c tbl; (rs, tbl'') ← calls cs tbl'; ok (r ∷ rs, tbl'')

-- The same calls on a map.
unfoldable pub on_map : Call → (ℕ → Option ℕ) → Option ℕ × (ℕ → Option ℕ)
unfolding put_new
on_map (find key d) f = (put_new f key d key, λ k. put_new f key d k)
on_map (write key d v) f =
    (put_new f key d key, λ k. if key == k then some v else put_new f key d k)

unfoldable pub replay : List Call → (ℕ → Option ℕ) → List (Option ℕ) × (ℕ → Option ℕ)
unfolding on_map
replay [] f = ([], f)
replay (c ∷ cs) f = let (r, f') = on_map c f in let (rs, f'') = replay cs f' in (r ∷ rs, f'')

-- A key that is legal, and a node to write to.
unfoldable pub IsLegal : Bool → Call → Type 0
IsLegal key64 (find key d) = IsKey key64 key
IsLegal key64 (write key d v) = IsKey key64 key × (d ≢ 0)

unfoldable pub AreLegal : Bool → List Call → Type 0
unfolding IsLegal
AreLegal key64 [] = Unit
AreLegal key64 (c ∷ cs) = IsLegal key64 c × AreLegal key64 cs

pub record Models (key64 : Bool) (tbl : HashTable) (f : ℕ → Option ℕ) : Type 0 where
  pub valid : IsValid tbl
  pub loaded : IsLoaded tbl
  pub width : tbl.key64 ≡ key64
  pub view : (k : ℕ) → k ≢ 0 → listed tbl.nodes k ≡ f k

-- The write of a client to the node of its key.
written :
    (key64 : Bool) (v key : ℕ) (o : Option ℕ) (old : ℕ) (tbl : HashTable) (f : ℕ → Option ℕ)
    → Models key64 tbl f
    → Points tbl.nodes key o (some old)
    → Models key64 (set_value v tbl o) (λ k. if key == k then some v else f k)
unfolding Points SetSame
written key64 v key none old tbl f m p = absurd (ground arith)
written key64 v key (some i) old tbl f m p =
    let (valid, width, load, size) = set_value-SetSame tbl m.valid v i p.0 in
    let at : key_at tbl.nodes i ≡ key = p.1 in
    record {
      valid = valid;
      loaded = record {
        wide = omega (arith, m.loaded.wide, size);
        load = omega (arith, m.loaded.load, size, load);
      };
      width = width ∙ m.width;
      view = λ k z. set_value-view tbl m.valid v i p.0 k z ∙ ground (arith, m.view k z);
    }

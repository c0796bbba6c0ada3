-- ===== src/Hash/Written.antt =====
-- hashtable.c: a table when the data of a node is set through its pointer.
use rsync_wrapper.Prelude.{ℕ, ◌<◌, ◌≡◌, ◌≢◌, refl, ◌∙◌, ◌==◌, if◌then◌else◌}
use rsync_wrapper.Prelude.{length, set, some, length-set}
use rsync_wrapper.Hash.{HashTable, node_at, hash_of, set_value}
use rsync_wrapper.Hash.Probe.{key_at, probe-keys}
use rsync_wrapper.Hash.Nodes.{listed, with_value, used-value, key_at-value, listed-value}
use rsync_wrapper.Hash.Valid.{IsValid, valid-Distinct}

-- The data of a node of the table is set through its pointer.
module _ (tbl : HashTable) (w : IsValid tbl) (v i : ℕ) (lt : i < length tbl.nodes) where
  set_value-IsValid : IsValid (set_value v tbl (some i))
  unfolding set_value
  set_value-IsValid =
      let same = key_at-value v tbl.nodes i in
      record {
        long = length-set tbl.nodes i _ ∙ w.long;
        power = w.power;
        count = used-value v tbl.nodes i ∙ w.count;
        room = w.room;
        keys = λ x z. rw (same x) (w.keys x (λ y. z (same x ∙ y)));
        reach = λ x l z. rw (same x) (
            probe-keys tbl.size (key_at tbl.nodes x) tbl.size
              (set tbl.nodes i (with_value v (node_at tbl.nodes i))) tbl.nodes
              (hash_of tbl.key64 (key_at tbl.nodes x)) same
            ∙ w.reach x l (λ y. z (same x ∙ y)));
      }

  pub set_value-view :
      (k : ℕ)
      → k ≢ 0
      → listed (set_value v tbl (some i)).nodes k
        ≡ (if key_at tbl.nodes i == k then some v else listed tbl.nodes k)
  unfolding set_value
  set_value-view k z = listed-value v tbl.nodes i k (valid-Distinct tbl w) lt z

  -- What is the same after it.
  unfoldable pub SetSame : HashTable → Type 0
  SetSame tbl' =
      IsValid tbl'
      × (tbl'.key64 ≡ tbl.key64)
      × (tbl'.entries ≡ tbl.entries)
      × (tbl'.size ≡ tbl.size)

  pub set_value-SetSame : SetSame (set_value v tbl (some i))
  unfolding SetSame set_value
  set_value-SetSame = (set_value-IsValid, refl, refl, refl)

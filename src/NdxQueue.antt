-- ===== src/NdxQueue.antt =====
-- util.c: the queue of file indices. The memory is the list of the items that were made, none for one that is freed,
-- and a pointer is a place in it. A function returns none if it reads or writes what is not there.
pub mod Fifo
use rsync_wrapper.Prelude.{ℕ, zero, suc, List, [], ◌∷◌, ◌++◌, length, set, Option, none, some}
use rsync_wrapper.Prelude.Int.{ℤ, pos, negsuc}

pub record NdxItem : Type 0 where
  pub next : Option ℕ
  pub ndx : ℤ

abbrev pub Memory : Type 0
Memory = List (Option NdxItem)

pub record NdxList : Type 0 where
  pub head : Option ℕ
  pub tail : Option ℕ

-- What a pointer leads to.
unfoldable pub load : Memory → ℕ → Option NdxItem
load [] p = none
load (item ∷ memory) zero = item
load (item ∷ memory) (suc p) = load memory p

-- `lp->tail->next = item`
unfoldable pub set_next : Memory → ℕ → ℕ → Option Memory
unfolding load
set_next memory p item = elim (load memory p) [
  | none ↦ none
  | some old ↦ some (set memory p (some (record old { next = some item })))
]

unfoldable pub flist_ndx_push : NdxList → ℤ → Memory → Option (NdxList × Memory)
unfolding set_next
flist_ndx_push lp ndx memory =
    let item = length memory in
    let made = memory ++ (some (record { next = none; ndx = ndx }) ∷ []) in
    elim lp.tail [
      | none ↦ some (record { head = some item; tail = some item }, made)
      | some t ↦ elim (set_next made t item) [
        | none ↦ none
        | some linked ↦ some (record { head = lp.head; tail = some item }, linked)
      ]
    ]

-- `if (!next) lp->tail = NULL`
unfoldable pub tail_of : Option ℕ → Option ℕ → Option ℕ
tail_of none tail = none
tail_of (some next) tail = tail

unfoldable pub flist_ndx_pop : NdxList → Memory → Option (ℤ × (NdxList × Memory))
unfolding load tail_of
flist_ndx_pop lp memory = elim lp.head [
  | none ↦ some (negsuc 0, (lp, memory))
  | some h ↦ elim (load memory h) [
    | none ↦ none
    | some item ↦ some (
      item.ndx,
      (record { head = item.next; tail = tail_of item.next lp.tail }, set memory h none),
    )
  ]
]

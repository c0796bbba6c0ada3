-- ===== src/NdxQueue/Fifo.antt =====
-- util.c: the queue of file indices gives the indices back in their order.
use rsync_wrapper.Prelude.{
  ℕ, zero, suc, ◌<◌, ◌≤◌, ◌≡◌, ◌≢◌, refl, sym, ap, ◌∙◌, arith, List, [], ◌∷◌, ◌++◌, length, set,
  length-append, Option, none, some,
}
use rsync_wrapper.Prelude.Int.{ℤ, negsuc}
use rsync_wrapper.NdxQueue.{NdxItem, Memory, NdxList, load, set_next, flist_ndx_push, flist_ndx_pop}

load-lt : (m : Memory) (p : ℕ) (item : NdxItem) → load m p ≡ some item → p < length m
unfolding load
load-lt [] p item e = absurd (ground arith)
load-lt (x ∷ m) zero item e = omega arith
load-lt (x ∷ m) (suc p) item e = omega (arith, load-lt m p item e)

load-append : (m more : Memory) (p : ℕ) → p < length m → load (m ++ more) p ≡ load m p
unfolding load
load-append [] more p h = absurd (omega arith)
load-append (x ∷ m) more zero h = refl
load-append (x ∷ m) more (suc p) h = load-append m more p (omega arith)

load_last : (m : Memory) (item : Option NdxItem) → load (m ++ (item ∷ [])) (length m) ≡ item
unfolding load
load_last [] item = refl
load_last (x ∷ m) item = load_last m item

load-set_self :
    (m : Memory) (p : ℕ) (item : Option NdxItem) → p < length m → load (set m p item) p ≡ item
unfolding load
load-set_self [] p item h = absurd (omega arith)
load-set_self (x ∷ m) zero item h = refl
load-set_self (x ∷ m) (suc p) item h = load-set_self m p item (omega arith)

load-set_ne :
    (m : Memory) (p q : ℕ) (item : Option NdxItem) → q ≢ p → load (set m p item) q ≡ load m q
unfolding load
load-set_ne [] p q item h = refl
load-set_ne (x ∷ m) zero zero item h = absurd (h refl)
load-set_ne (x ∷ m) zero (suc q) item h = refl
load-set_ne (x ∷ m) (suc p) zero item h = refl
load-set_ne (x ∷ m) (suc p) (suc q) item h = load-set_ne m p q item (λ e. h (ap suc e))

abbrev linked_item : ℤ → Option ℕ → Option NdxItem
linked_item x next = some (record { next = next; ndx = x })

ndx_or : ℤ → Option NdxItem → ℤ
ndx_or x none = x
ndx_or x (some item) = item.ndx

linked_item_inj : (x y : ℤ) → linked_item x none ≡ linked_item y none → x ≡ y
unfolding ndx_or
linked_item_inj x y e = ap (ndx_or x) e

-- The items from `h` to `t` hold `x` and `xs`, later ones at higher places.
Linked : Memory → ℕ → ℤ → List ℤ → ℕ → Type 0
Linked m h x [] t = (load m h ≡ linked_item x none) × (h ≡ t)
Linked m h x (y ∷ ys) t =
    (next : ℕ) × (h < next) × (load m h ≡ linked_item x (some next)) × Linked m next y ys t

Linked-le : (m : Memory) (h : ℕ) (x : ℤ) (xs : List ℤ) (t : ℕ) → Linked m h x xs t → h ≤ t
unfolding Linked
Linked-le m h x [] t l = omega (arith, l.1)
Linked-le m h x (y ∷ ys) t (next, lt, e, l) = omega (arith, Linked-le m next y ys t l, lt)

Linked-last :
    (m : Memory) (h : ℕ) (x : ℤ) (xs : List ℤ) (t : ℕ)
    → Linked m h x xs t
    → (last : ℤ) × (load m t ≡ linked_item last none)
unfolding Linked
Linked-last m h x [] t l = (x, ap (load m) (sym l.1) ∙ l.0)
Linked-last m h x (y ∷ ys) t (next, lt, e, l) = Linked-last m next y ys t l

-- A lower item is freed.
Linked-set :
    (m : Memory) (p h : ℕ) (x : ℤ) (xs : List ℤ) (t : ℕ)
    → p < h
    → Linked m h x xs t
    → Linked (set m p none) h x xs t
unfolding Linked
Linked-set m p h x [] t lt l = (load-set_ne m p h none (λ e. omega (arith, e)) ∙ l.0, l.1)
Linked-set m p h x (y ∷ ys) t lt (next, above, e, l) = (
  next,
  above,
  load-set_ne m p h none (λ e. omega (arith, e)) ∙ e,
  Linked-set m p next y ys t (omega (arith, above)) l,
)

-- A new item behind the last one.
module _ (m : Memory) (last y : ℤ) (t : ℕ) (at_tail : load m t ≡ linked_item last none) where
  abbrev grown : Memory
  grown = m ++ (linked_item y none ∷ [])

  abbrev extended : Memory
  extended = set grown t (linked_item last (some (length m)))

  tail_lt : t < length m
  tail_lt = load-lt m t _ at_tail

  new_item : load extended (length m) ≡ linked_item y none
  new_item =
      load-set_ne grown t (length m) (linked_item last (some (length m)))
        (λ e. omega (arith, e, tail_lt))
      ∙ load_last m (linked_item y none)

  tail_item : load extended t ≡ linked_item last (some (length m))
  tail_item =
      load-set_self grown t _ (omega (arith, tail_lt, length-append m (linked_item y none ∷ [])))

  set_next-extended : set_next grown t (length m) ≡ some extended
  unfolding set_next
  set_next-extended = rw (set_next, load-append m (linked_item y none ∷ []) t tail_lt, at_tail) refl

  Linked-extended :
      (h : ℕ) (x : ℤ) (xs : List ℤ)
      → Linked m h x xs t
      → Linked extended h x (xs ++ (y ∷ [])) (length m)
  unfolding Linked
  Linked-extended h x [] l =
      let same : last ≡ x = linked_item_inj last x (sym at_tail ∙ ap (load m) (sym l.1) ∙ l.0) in
      (
        length m,
        omega (arith, tail_lt, l.1),
        ap (load extended) l.1 ∙ tail_item ∙ ap (λ z. linked_item z (some (length m))) same,
        (new_item, refl),
      )
  Linked-extended h x (z ∷ zs) (next, above, at, l) =
      let le = Linked-le m next z zs t l in
      let lt = load-lt m h _ at in
      (
        next,
        above,
        load-set_ne grown t h (linked_item last (some (length m)))
              (λ q. omega (arith, le, above, q))
            ∙ load-append m _ h lt
            ∙ at,
        Linked-extended next z zs l,
      )

-- The queue holds the indices `xs`.
unfoldable pub Queued : NdxList → Memory → List ℤ → Type 0
unfolding Linked
Queued q m [] = (q.head ≡ none) × (q.tail ≡ none)
Queued q m (x ∷ xs) = (h : ℕ) × (t : ℕ) × (q.head ≡ some h) × (q.tail ≡ some t) × Linked m h x xs t

flist_ndx_push_lem :
    (q : NdxList) (m : Memory) (xs : List ℤ) (y : ℤ)
    → Queued q m xs
    → (q' : NdxList) × (m' : Memory) × (flist_ndx_push q y m ≡ some (q', m'))
      × Queued q' m' (xs ++ (y ∷ []))
unfolding Queued flist_ndx_push Linked
flist_ndx_push_lem q m [] y h = (
  record { head = some (length m); tail = some (length m) },
  m ++ (linked_item y none ∷ []),
  rw (flist_ndx_push, h.1) refl,
  (length m, length m, refl, refl, (load_last m (linked_item y none), refl)),
)
flist_ndx_push_lem q m (x ∷ xs) y (h, t, head, tail, l) =
    let (last, at_tail) = Linked-last m h x xs t l in
    (
      record { head = q.head; tail = some (length m) },
      extended m last y t at_tail,
      rw (flist_ndx_push, tail, set_next-extended m last y t at_tail) refl,
      (h, length m, head, refl, Linked-extended m last y t at_tail h x xs l),
    )

-- What is taken from a queue, and what is left.
unfoldable pub first_or : List ℤ → ℤ
first_or [] = negsuc 0
first_or (x ∷ xs) = x

unfoldable pub rest_of : List ℤ → List ℤ
rest_of [] = []
rest_of (x ∷ xs) = xs

pop_empty :
    (h t : Option ℕ) (m : Memory)
    → h ≡ none
    → flist_ndx_pop (record { head = h; tail = t }) m
      ≡ some (negsuc 0, (record { head = h; tail = t }, m))
unfolding flist_ndx_pop
pop_empty none t m e = refl
pop_empty (some p) t m e = absurd (ground arith)

flist_ndx_pop_lem :
    (q : NdxList) (m : Memory) (xs : List ℤ)
    → Queued q m xs
    → (q' : NdxList) × (m' : Memory) × (flist_ndx_pop q m ≡ some (first_or xs, (q', m')))
      × Queued q' m' (rest_of xs)
unfolding Queued flist_ndx_pop Linked first_or rest_of
flist_ndx_pop_lem q m [] h = (q, m, pop_empty q.head q.tail m h.0, h)
flist_ndx_pop_lem q m (x ∷ []) (h, t, head, tail, l) = (
  record { head = none; tail = none },
  set m h none,
  rw (flist_ndx_pop, head, l.0) refl,
  (refl, refl),
)
flist_ndx_pop_lem q m (x ∷ y ∷ ys) (h, t, head, tail, (next, lt, at, l)) = (
  record { head = some next; tail = q.tail },
  set m h none,
  rw (flist_ndx_pop, head, at) refl,
  (next, t, refl, tail, Linked-set m h next y ys t lt l),
)

-- A client's calls: an index pushed, or one taken.
pub data QueueCall : Type 0 where
  push : ℤ → QueueCall
  pop : QueueCall

-- The indices that are taken, and the queue behind the calls.
unfoldable pub queue_calls :
    List QueueCall → NdxList → Memory → Option (List ℤ × (NdxList × Memory))
queue_calls [] q m = some ([], (q, m))
queue_calls (push y ∷ cs) q m = elim (flist_ndx_push q y m) [
  | none ↦ none
  | some (q', m') ↦ queue_calls cs q' m'
]
queue_calls (pop ∷ cs) q m = elim (flist_ndx_pop q m) [
  | none ↦ none
  | some (x, (q', m')) ↦ elim (queue_calls cs q' m') [
    | none ↦ none
    | some (taken, left) ↦ some (x ∷ taken, left)
  ]
]

-- The same on a list: in at its end, out at its start, -1 where there is nothing.
unfoldable pub on_list : List QueueCall → List ℤ → List ℤ × List ℤ
unfolding first_or rest_of
on_list [] xs = ([], xs)
on_list (push y ∷ cs) xs = on_list cs (xs ++ (y ∷ []))
on_list (pop ∷ cs) xs = (first_or xs ∷ (on_list cs (rest_of xs)).0, (on_list cs (rest_of xs)).1)

-- Any calls on a queue that holds a list of indices read and write only items that are there, return what the same
-- calls return on the list, -1 where it is empty, and leave a queue that holds what is left of the list.
pub queue_calls_lem :
    (cs : List QueueCall) (q : NdxList) (m : Memory) (xs : List ℤ)
    → Queued q m xs
    → (q' : NdxList) × (m' : Memory) × (queue_calls cs q m ≡ some ((on_list cs xs).0, (q', m')))
      × Queued q' m' (on_list cs xs).1
unfolding queue_calls on_list
queue_calls_lem [] q m xs h = (q, m, refl, h)
queue_calls_lem (push y ∷ cs) q m xs h =
    let (q1, m1, step, h1) = flist_ndx_push_lem q m xs y h in
    let (q2, m2, run, h2) = queue_calls_lem cs q1 m1 (xs ++ (y ∷ [])) h1 in
    (q2, m2, rw (queue_calls, step) run, h2)
queue_calls_lem (pop ∷ cs) q m xs h =
    let (q1, m1, step, h1) = flist_ndx_pop_lem q m xs h in
    let (q2, m2, run, h2) = queue_calls_lem cs q1 m1 (rest_of xs) h1 in
    (q2, m2, rw (queue_calls, step, run) refl, h2)

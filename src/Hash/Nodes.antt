-- ===== src/Hash/Nodes.antt =====
-- hashtable.c: what an array of nodes holds, wherever the nodes stand in it.
use rsync_wrapper.Prelude.{
  ℕ, zero, suc, ◌+◌, ◌<◌, ◌≡◌, ◌≢◌, refl, sym, arith, ◌==◌, if◌then◌else◌, Bool-cases, Option-cases,
  inl, inr,
}
use rsync_wrapper.Prelude.{List, [], ◌∷◌, length, set, replicate, Option, none, some}
use rsync_wrapper.Hash.{Node, free_node, node_at}
use rsync_wrapper.Hash.Probe.{key_at}

-- The data under a key.
unfoldable pub listed : List Node → ℕ → Option ℕ
listed [] k = none
listed (n ∷ ns) k = if n.key == k then some n.value else listed ns k

-- The number of nodes that are taken.
unfoldable pub used : List Node → ℕ
used [] = 0
used (n ∷ ns) = (if n.key == 0 then 0 else 1) + used ns

-- No key stands in two nodes.
unfoldable pub Distinct : List Node → Type 0
unfolding listed
Distinct [] = Unit
Distinct (n ∷ ns) = (n.key ≢ 0 → listed ns n.key ≡ none) × Distinct ns

pub listed-some :
    (ns : List Node) (k v : ℕ)
    → listed ns k ≡ some v
    → (i : ℕ) × (i < length ns) × (key_at ns i ≡ k)
unfolding listed
listed-some [] k v e = absurd (ground arith)
listed-some (n ∷ ns) k v e = elim (Bool-cases (n.key == k)) [
  | inl same ↦ (0, omega arith, ground arith)
  | inr other ↦
      let (i, lt, at) = listed-some ns k v (rw other at e) in (suc i, omega (arith, lt), at)
]

pub listed-node_at :
    (ns : List Node) (i k : ℕ)
    → Distinct ns
    → i < length ns
    → key_at ns i ≡ k
    → k ≢ 0
    → listed ns k ≡ some (node_at ns i).value
unfolding listed Distinct
listed-node_at [] i k d l e z = absurd (omega arith)
listed-node_at (n ∷ ns) zero k d l e z = ground arith
listed-node_at (n ∷ ns) (suc i) k d l e z =
    ground (arith, listed-node_at ns i k d.1 (omega arith) e z)

pub Apart-Distinct :
    (ns : List Node)
    → ((i j : ℕ)
        → i < length ns
        → j < length ns
        → key_at ns i ≢ 0
        → key_at ns i ≡ key_at ns j
        → i ≡ j)
    → Distinct ns
unfolding Distinct
Apart-Distinct [] h = tt
Apart-Distinct (n ∷ ns) h = (
  λ z. elim (Option-cases (listed ns n.key)) [
    | inl missing ↦ missing
    | inr (v, e) ↦
        let (i, lt, at) = listed-some ns n.key v e in
        absurd (omega (arith, h 0 (suc i) (omega arith) (omega (arith, lt)) z (sym at)))
  ],
  Apart-Distinct ns
      (λ i j l m z e. omega (arith, h (suc i) (suc j) (omega arith) (omega arith) z e)),
)

pub free-exists :
    (ns : List Node) → used ns < length ns → (z : ℕ) × (z < length ns) × (key_at ns z ≡ 0)
unfolding used
free-exists [] h = absurd (omega arith)
free-exists (n ∷ ns) h = elim (Bool-cases (n.key == 0)) [
  | inl free ↦ (0, omega arith, ground arith)
  | inr taken ↦ let (z, lt, e) = free-exists ns (ground arith) in (suc z, omega (arith, lt), e)
]

-- A free node is taken.
module _ (n : Node) (some_key : n.key ≢ 0) where
  pub used-set :
      (ns : List Node) (j : ℕ) → j < length ns → key_at ns j ≡ 0 → used (set ns j n) ≡ used ns + 1
  unfolding used
  used-set [] j l e = absurd (omega arith)
  used-set (m ∷ ns) zero l e = ground arith
  used-set (m ∷ ns) (suc j) l e = omega (arith, used-set ns j (omega arith) e)

  pub listed-set :
      (ns : List Node) (j k : ℕ)
      → j < length ns
      → key_at ns j ≡ 0
      → listed ns n.key ≡ none
      → k ≢ 0
      → listed (set ns j n) k ≡ (if n.key == k then some n.value else listed ns k)
  unfolding listed
  listed-set [] j k l e new z = absurd (omega arith)
  listed-set (m ∷ ns) zero k l e new z = ground arith
  listed-set (m ∷ ns) (suc j) k l e new z = ground (arith, listed-set ns j k (omega arith) e)

-- The data of a node is set.
module _ (v : ℕ) where
  abbrev pub with_value : Node → Node
  with_value n = record { key = n.key; value = v }

  pub used-value : (ns : List Node) (j : ℕ) → used (set ns j (with_value (node_at ns j))) ≡ used ns
  unfolding used
  used-value [] j = refl
  used-value (m ∷ ns) zero = refl
  used-value (m ∷ ns) (suc j) = omega (arith, used-value ns j)

  pub key_at-value :
      (ns : List Node) (j i : ℕ) → key_at (set ns j (with_value (node_at ns j))) i ≡ key_at ns i
  key_at-value [] j i = refl
  key_at-value (m ∷ ns) zero zero = refl
  key_at-value (m ∷ ns) zero (suc i) = refl
  key_at-value (m ∷ ns) (suc j) zero = refl
  key_at-value (m ∷ ns) (suc j) (suc i) = key_at-value ns j i

  pub listed-value :
      (ns : List Node) (j k : ℕ)
      → Distinct ns
      → j < length ns
      → k ≢ 0
      → listed (set ns j (with_value (node_at ns j))) k
        ≡ (if key_at ns j == k then some v else listed ns k)
  unfolding listed Distinct
  listed-value [] j k d l z = absurd (omega arith)
  listed-value (m ∷ ns) zero k d l z = ground arith
  listed-value (m ∷ ns) (suc j) k d l z =
      ground (arith, listed-value ns j k d.1 (omega arith) z, listed-node_at ns j k d.1)

pub listed-replicate : (n k : ℕ) → k ≢ 0 → listed (replicate n free_node) k ≡ none
unfolding listed
listed-replicate zero k z = refl
listed-replicate (suc n) k z = ground (arith, listed-replicate n k z)

pub used-replicate : (n : ℕ) → used (replicate n free_node) ≡ 0
unfolding used
used-replicate zero = refl
used-replicate (suc n) = omega (arith, used-replicate n)

pub key_at-replicate : (n i : ℕ) → key_at (replicate n free_node) i ≡ 0
key_at-replicate zero i = refl
key_at-replicate (suc n) zero = refl
key_at-replicate (suc n) (suc i) = key_at-replicate n i

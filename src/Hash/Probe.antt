-- ===== src/Hash/Probe.antt =====
-- hashtable.c: the search for a key from its hash on.
use rsync_wrapper.Prelude.{
  ℕ, zero, suc, ◌+◌, ◌-◌, ◌<◌, ◌≡◌, ◌≢◌, refl, sym, ap, ◌∙◌, arith, leb, ◌==◌, if◌then◌else◌, false,
  Bool-cases, inl, inr, ◌⊎◌, ==_iff,
}
use rsync_wrapper.Prelude.{List, [], ◌∷◌, length, set, ok}
use Prim.Native.Nat.{bit_and}
use rsync_wrapper.Hash.{Node, node_at, Slot, found, empty, probe}
use rsync_wrapper.Hash.Mask.{IsPower, mask_lt, mask_small, mask_wrap}

abbrev pub key_at : List Node → ℕ → ℕ
key_at ns i = (node_at ns i).key

pub node_at-set_self :
    (ns : List Node) (j : ℕ) (n : Node) → j < length ns → node_at (set ns j n) j ≡ n
node_at-set_self [] j n h = absurd (omega arith)
node_at-set_self (m ∷ ns) zero n h = refl
node_at-set_self (m ∷ ns) (suc j) n h = node_at-set_self ns j n (omega arith)

pub node_at-set_ne :
    (ns : List Node) (i j : ℕ) (n : Node) → j ≢ i → node_at (set ns j n) i ≡ node_at ns i
node_at-set_ne [] i j n h = refl
node_at-set_ne (m ∷ ns) zero zero n h = absurd (h refl)
node_at-set_ne (m ∷ ns) (suc i) zero n h = refl
node_at-set_ne (m ∷ ns) zero (suc j) n h = refl
node_at-set_ne (m ∷ ns) (suc i) (suc j) n h = node_at-set_ne ns i j n (λ e. h (ap suc e))

-- What the search comes to.
unfoldable pub Ends : List Node → ℕ → ℕ → Slot → Type 0
Ends ns size key (found i) = (key_at ns i ≡ key) × (i < size)
Ends ns size key (empty i) = (key_at ns i ≡ 0) × (i < size)

-- The steps from one place to another.
unfoldable pub ahead : ℕ → ℕ → ℕ → ℕ
ahead size i z = if leb i z then z - i else size - i + z

ahead_step :
    (size i next z fuel : ℕ)
    → i < size
    → z < size
    → i ≢ z
    → ((i + 1 ≡ size) × (next ≡ 0)) ⊎ (next ≡ i + 1)
    → ahead size i z < suc fuel
    → ahead size next z < fuel
unfolding ahead
ahead_step size i next z fuel lt h away on l = ground arith

module _ (ns : List Node) (size : ℕ) (p : IsPower size) where
  -- A step comes nearer to a free node.
  nearer :
      (x z fuel : ℕ)
      → z < size
      → key_at ns (bit_and x (size - 1)) == 0 ≡ false
      → key_at ns z ≡ 0
      → ahead size (bit_and x (size - 1)) z < suc fuel
      → ahead size (bit_and (bit_and x (size - 1) + 1) (size - 1)) z < fuel
  unfolding ahead
  nearer x z fuel h used free l =
      let i = bit_and x (size - 1) in
      let lt = mask_lt size p x in
      let away : i ≢ z = λ q. ground (arith, ap (key_at ns) q) in
      elim (Bool-cases (i + 1 == size)) [
        | inl last ↦
            let back : bit_and (i + 1) (size - 1) ≡ 0 =
              ap (λ (y : ℕ). bit_and y (size - 1)) ((==_iff (i + 1) size).0 last)
              ∙ mask_wrap size p in
            rw back (ahead_step size i 0 z fuel lt h away (inl (ground arith, refl)) l)
        | inr inside ↦
            let on : bit_and (i + 1) (size - 1) ≡ i + 1 =
              mask_small size p (i + 1) (ground arith) in
            rw on (ahead_step size i (i + 1) z fuel lt h away (inr refl) l)
      ]

  -- With a free node ahead the search ends.
  pub probe-Ends :
      (fuel key x z : ℕ)
      → z < size
      → key_at ns z ≡ 0
      → ahead size (bit_and x (size - 1)) z < fuel
      → (s : Slot) × (probe fuel ns size key x ≡ ok s) × Ends ns size key s
  unfolding probe Ends ahead
  probe-Ends zero key x z h e l = absurd (omega arith)
  probe-Ends (suc fuel) key x z h e l =
      let i = bit_and x (size - 1) in
      let lt = mask_lt size p x in
      elim (Bool-cases (key_at ns i == key)) [
        | inl same ↦ (found i, rw (probe, same) refl, (ground arith, lt))
        | inr other ↦ elim (Bool-cases (key_at ns i == 0)) [
          | inl free ↦ (empty i, rw (probe, other, free) refl, (ground arith, lt))
          | inr used ↦
              let (s, run, ends) = probe-Ends fuel key (i + 1) z h e (nearer x z fuel h used e l) in
              (s, rw (probe, other, used) run, ends)
        ]
      ]

  pub ahead-lt : (x z : ℕ) → z < size → ahead size (bit_and x (size - 1)) z < size
  unfolding ahead
  ahead-lt x z h = ground (arith, mask_lt size p x)

module _ (size key : ℕ) where
  -- A node that is taken is not on the way to another key.
  pub probe-set_found :
      (fuel : ℕ) (ns : List Node) (j : ℕ) (n : Node) (x i : ℕ)
      → key ≢ 0
      → key_at ns j ≡ 0
      → probe fuel ns size key x ≡ ok (found i)
      → probe fuel (set ns j n) size key x ≡ ok (found i)
  unfolding probe
  probe-set_found zero ns j n x i k e run = absurd (ground arith)
  probe-set_found (suc fuel) ns j n x i k e run =
      let y = bit_and x (size - 1) in
      elim (Bool-cases (key_at ns y == key)) [
        | inl same ↦
            let keep : node_at (set ns j n) y ≡ node_at ns y =
              node_at-set_ne ns y j n (λ q. ground (arith, ap (key_at ns) q)) in
            rw (probe, keep, same) (rw (probe, same) at run)
        | inr other ↦ elim (Bool-cases (key_at ns y == 0)) [
          | inl free ↦ absurd (ground arith)
          | inr used ↦
              let keep : node_at (set ns j n) y ≡ node_at ns y =
                node_at-set_ne ns y j n (λ q. ground (arith, ap (key_at ns) q)) in
              rw (probe, keep, other, keep, used)
                (probe-set_found fuel ns j n (y + 1) i k e (rw (probe, other, used) at run))
        ]
      ]

  probe_empty :
      (fuel : ℕ) (ns : List Node) (x j : ℕ)
      → probe fuel ns size key x ≡ ok (empty j)
      → key_at ns j ≡ 0
  unfolding probe
  probe_empty zero ns x j run = absurd (ground arith)
  probe_empty (suc fuel) ns x j run =
      let y = bit_and x (size - 1) in
      elim (Bool-cases (key_at ns y == key)) [
        | inl same ↦ absurd (ground arith)
        | inr other ↦ elim (Bool-cases (key_at ns y == 0)) [
          | inl free ↦ ground arith
          | inr used ↦ probe_empty fuel ns (y + 1) j (rw (probe, other, used) at run)
        ]
      ]

  -- The node that is taken for a new key is found.
  pub probe-set_empty :
      (fuel : ℕ) (ns : List Node) (j : ℕ) (n : Node) (x : ℕ)
      → j < length ns
      → n.key ≡ key
      → probe fuel ns size key x ≡ ok (empty j)
      → probe fuel (set ns j n) size key x ≡ ok (found j)
  unfolding probe
  probe-set_empty zero ns j n x l e run = absurd (ground arith)
  probe-set_empty (suc fuel) ns j n x l e run =
      let y = bit_and x (size - 1) in
      elim (Bool-cases (key_at ns y == key)) [
        | inl same ↦ absurd (ground arith)
        | inr other ↦ elim (Bool-cases (key_at ns y == 0)) [
          | inl free ↦
              let at : j ≡ y = ground arith in
              let here : key_at (set ns j n) y ≡ key =
                ap (key_at (set ns j n)) (sym at)
                ∙ ap (λ (m : Node). m.key) (node_at-set_self ns j n l)
                ∙ e in
              ground (arith, here, at)
          | inr used ↦
              let keep : node_at (set ns j n) y ≡ node_at ns y = node_at-set_ne ns y j n (λ q.
                ground (
                  arith,
                  ap (key_at ns) q,
                  probe_empty fuel ns (y + 1) j (rw (probe, other, used) at run),
                )) in
              rw (probe, keep, other, keep, used)
                (probe-set_empty fuel ns j n (y + 1) l e (rw (probe, other, used) at run))
        ]
      ]

  -- The search reads the keys only.
  pub probe-keys :
      (fuel : ℕ) (ns ms : List Node) (x : ℕ)
      → ((i : ℕ) → key_at ns i ≡ key_at ms i)
      → probe fuel ns size key x ≡ probe fuel ms size key x
  unfolding probe
  probe-keys zero ns ms x h = refl
  probe-keys (suc fuel) ns ms x h =
      ground (arith, h (bit_and x (size - 1)), probe-keys fuel ns ms (bit_and x (size - 1) + 1) h)

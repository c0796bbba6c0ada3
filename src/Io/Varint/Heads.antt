-- ===== src/Io/Varint/Heads.antt =====
-- io.c: the first byte of a variable-length integer, checked for every length and every value.
use Prim.Native.Nat.{bit_and, bit_or}
use rsync_wrapper.Prelude.{
  ℕ, ◌-◌, ◌*◌, ◌^◌, ◌≤◌, ◌<◌, ◌≡◌, refl, arith, ltb, leb, ◌==◌, ◌&&◌, leb→le, Bool, true,
  holds_below, holds_below-lt, if◌then◌else◌,
}
use rsync_wrapper.Io.Varint.{extra_bytes}

-- The first byte for `e` extra bytes: e ones, a zero, and the top bits of the number.
inner_head_ok : ℕ → ℕ → Bool
inner_head_ok e t =
    let h = bit_or t (255 - (2 ^ (7 - e) * 2 - 1)) in
    if ltb t (2 ^ (7 - e)) && ltb 0 e
    then extra_bytes h == e && bit_and h (2 ^ (8 - e) - 1) == t
    else true

inner_head_table : holds_below (λ e. holds_below (inner_head_ok e) 128) 7 ≡ true
unfolding holds_below inner_head_ok extra_bytes
inner_head_table = refl

pub inner_head :
    (e t : ℕ)
    → e < 7
    → 0 < e
    → t < 2 ^ (7 - e)
    → t < 128
    → (extra_bytes (bit_or t (255 - (2 ^ (7 - e) * 2 - 1))) ≡ e)
      × (bit_and (bit_or t (255 - (2 ^ (7 - e) * 2 - 1))) (2 ^ (8 - e) - 1) ≡ t)
inner_head e t he h0 ht h128 = unfold inner_head_ok in ground (arith, checked)
  where
    checked : inner_head_ok e t ≡ true
    checked = holds_below-lt _ 128 t h128 (holds_below-lt _ 7 e he inner_head_table)

full_head_ok : ℕ → Bool
full_head_ok e =
    let h = 255 - (2 ^ (8 - e) - 1) in
    if ltb 0 e then extra_bytes h == e && bit_and h (2 ^ (8 - e) - 1) == 0 else true

full_head_table : holds_below full_head_ok 7 ≡ true
unfolding holds_below full_head_ok extra_bytes
full_head_table = refl

pub full_head :
    (e : ℕ)
    → e < 7
    → 0 < e
    → (extra_bytes (255 - (2 ^ (8 - e) - 1)) ≡ e)
      × (bit_and (255 - (2 ^ (8 - e) - 1)) (2 ^ (8 - e) - 1) ≡ 0)
full_head e he h0 = unfold full_head_ok in ground (arith, checked)
  where
    checked : full_head_ok e ≡ true
    checked = holds_below-lt _ 7 e he full_head_table

plain_head_table : holds_below (λ t. extra_bytes t == 0) 128 ≡ true
unfolding holds_below extra_bytes
plain_head_table = refl

pub plain_head : (t : ℕ) → t < 128 → extra_bytes t ≡ 0
plain_head t h = ground (arith, holds_below-lt _ 128 t h plain_head_table)

pow_table : holds_below (λ k. leb (2 ^ k) 128) 8 ≡ true
unfolding holds_below
pow_table = refl

pub pow_le : (k : ℕ) → k < 8 → 2 ^ k ≤ 128
pow_le k h = leb→le _ _ (holds_below-lt _ 8 k h pow_table)

-- ===== src/Hash/Mask.antt =====
-- hashtable.c: `ndx & (size - 1)`, for a size that is a power of two.
use rsync_wrapper.Prelude.{
  ℕ, zero, suc, ◌+◌, ◌-◌, ◌*◌, ◌/◌, ◌%◌, ◌^◌, ◌<◌, ◌≤◌, ◌≡◌, refl, sym, ap, ◌∙◌, arith, min, ◌==◌,
  Bool-cases, inl, inr,
}
use native.Mathlib.Nat.{two-pow-succ}
use native.Mathlib.Decide.{dec_lt}
use Prim.Native.Nat.{bit_and, bit_and-bitwise, digits}

-- The lowest digits of a number.
lowest : ℕ → ℕ → ℕ
lowest zero a = 0
lowest (suc k) a = lowest k (a / 2) * 2 + a % 2

pub double_pow : (k : ℕ) → 2 ^ suc k ≡ 2 * 2 ^ k
double_pow k = omega (arith, two-pow-succ k)

pow_pos : (k : ℕ) → 0 < 2 ^ k
pow_pos zero = omega arith
pow_pos (suc k) = omega (arith, double_pow k, pow_pos k)

pub pow_mono : (n m : ℕ) → n ≤ m → 2 ^ n ≤ 2 ^ m
pow_mono n zero h = let e : n ≡ 0 = omega arith in rw e (omega arith)
pow_mono zero (suc m) h = omega (arith, pow_pos (suc m))
pow_mono (suc n) (suc m) h = omega (arith, double_pow n, double_pow m, pow_mono n m (omega arith))

-- Of two powers of two the smaller one has the smaller exponent.
pub pow-lt : (n m : ℕ) → 2 ^ n < 2 ^ m → n < m
pow-lt n m h = elim (dec_lt n m) [
  | yes lt ↦ lt
  | no not_lt ↦ absurd (omega (arith, pow_mono m n (omega arith)))
]

lowest_zero : (k : ℕ) → lowest k 0 ≡ 0
unfolding lowest
lowest_zero zero = refl
lowest_zero (suc k) = omega (arith, lowest_zero k)

digits_mask : (n a k : ℕ) → a ≤ n → digits (λ b. zero) min n a (2 ^ k - 1) ≡ lowest k a
unfolding lowest
digits_mask zero zero k h = sym (lowest_zero k)
digits_mask zero (suc a) k h = absurd (omega arith)
digits_mask (suc n) zero k h = sym (lowest_zero k)
digits_mask (suc n) (suc a) zero h = omega (arith, digits_mask n (suc a / 2) 0 (omega arith))
digits_mask (suc n) (suc a) (suc k) h =
    let half : (2 ^ suc k - 1) / 2 ≡ 2 ^ k - 1 = omega (arith, double_pow k, pow_pos k) in
    let odd : (2 ^ suc k - 1) % 2 ≡ 1 = omega (arith, double_pow k, pow_pos k) in
    rw half (omega (arith, odd, digits_mask n (suc a / 2) k (omega arith)))

bit_and-lowest : (a k : ℕ) → bit_and a (2 ^ k - 1) ≡ lowest k a
bit_and-lowest a k = bit_and-bitwise a (2 ^ k - 1) ∙ digits_mask a a k (omega arith)

lowest_lt : (k a : ℕ) → lowest k a < 2 ^ k
unfolding lowest
lowest_lt zero a = omega arith
lowest_lt (suc k) a = omega (arith, double_pow k, lowest_lt k (a / 2))

lowest_small : (k a : ℕ) → a < 2 ^ k → lowest k a ≡ a
unfolding lowest
lowest_small zero a h = omega arith
lowest_small (suc k) a h =
    omega (arith, double_pow k, lowest_small k (a / 2) (omega (arith, double_pow k)))

lowest_pow : (k : ℕ) → lowest k (2 ^ k) ≡ 0
unfolding lowest
lowest_pow zero = refl
lowest_pow (suc k) =
    let half : 2 ^ suc k / 2 ≡ 2 ^ k = omega (arith, double_pow k) in
    omega (arith, double_pow k, ap (lowest k) half, lowest_pow k)

pub record IsPower (size : ℕ) : Type 0 where
  pub log : ℕ
  pub same : size ≡ 2 ^ log

module _ (size : ℕ) (p : IsPower size) where
  pub IsPower-lt : 0 < size
  IsPower-lt = omega (arith, p.same, pow_pos p.log)

  as_lowest : (a : ℕ) → bit_and a (size - 1) ≡ lowest p.log a
  as_lowest a = ap (λ (x : ℕ). bit_and a (x - 1)) p.same ∙ bit_and-lowest a p.log

  pub mask_lt : (a : ℕ) → bit_and a (size - 1) < size
  mask_lt a = omega (arith, as_lowest a, lowest_lt p.log a, p.same)

  pub mask_small : (a : ℕ) → a < size → bit_and a (size - 1) ≡ a
  mask_small a h = as_lowest a ∙ lowest_small p.log a (omega (arith, p.same))

  pub mask_wrap : bit_and size (size - 1) ≡ 0
  mask_wrap = as_lowest size ∙ ap (lowest p.log) p.same ∙ lowest_pow p.log

  pub IsPower-double : IsPower (size * 2)
  IsPower-double = record { log = suc p.log; same = omega (arith, double_pow p.log, p.same) }

-- `size & (size-1)` is 0 for powers of two only.
bit_and_self : (n a : ℕ) → a ≤ n → digits (λ b. 0) min n a a ≡ a
bit_and_self zero zero h = refl
bit_and_self zero (suc a) h = absurd (omega arith)
bit_and_self (suc n) zero h = refl
bit_and_self (suc n) (suc a) h = omega (arith, bit_and_self n (suc a / 2) (omega arith))

pred_mask : (n a : ℕ) → 0 < a → a ≤ n → digits (λ b. 0) min n a (a - 1) ≡ 0 → IsPower a
pred_mask zero a pos h e = absurd (omega arith)
pred_mask (suc n) zero pos h e = absurd (omega arith)
pred_mask (suc n) (suc a) pos h e = elim (Bool-cases (suc a % 2 == 0)) [
  | inl even ↦
      let half : (suc a - 1) / 2 ≡ suc a / 2 - 1 = ground arith in
      let p = pred_mask n (suc a / 2) (ground arith) (omega arith) (omega (arith, rw half at e)) in
      record { log = suc p.log; same = ground (arith, double_pow p.log, p.same) }
  | inr odd ↦
      let half : (suc a - 1) / 2 ≡ suc a / 2 = ground arith in
      let self = bit_and_self n (suc a / 2) (omega arith) in
      record { log = 0; same = ground (arith, rw half at e, self) }
]

pub mask-IsPower : (size : ℕ) → 0 < size → bit_and size (size - 1) ≡ 0 → IsPower size
mask-IsPower size pos e =
    pred_mask size size pos (omega arith) (sym (bit_and-bitwise size (size - 1)) ∙ e)

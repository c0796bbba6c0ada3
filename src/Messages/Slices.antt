-- ===== src/Messages/Slices.antt =====
-- io.c: what is copied into a buffer, and what stays.
use rsync_wrapper.Prelude.{
  ℕ, zero, suc, ◌+◌, ◌≤◌, ◌<◌, ◌≡◌, ◌≢◌, refl, ap, ◌∙◌, arith, ◌⊎◌, inl, inr,
}
use rsync_wrapper.Prelude.{Bytes, [], ◌∷◌, ◌++◌, length, set, get_or, length-set}
use rsync_wrapper.Messages.{memcpy, slice}

pub slice-add : (b : Bytes) (p m n : ℕ) → slice b p (m + n) ≡ slice b p m ++ slice b (p + m) n
unfolding slice
slice-add b p zero n =
    let e : 0 + n ≡ n = omega arith in
    let f : p ≡ p + 0 = omega arith in ap (slice b p) e ∙ ap (λ (q : ℕ). slice b q n) f
slice-add b p (suc m) n =
    let e : suc m + n ≡ suc (m + n) = omega arith in
    let f : suc p + m ≡ p + suc m = omega arith in
    ap (slice b p) e
    ∙ ap (λ (s : Bytes). get_or b p 0 ∷ s)
        (slice-add b (suc p) m n ∙ ap (λ (q : ℕ). slice b (suc p) m ++ slice b q n) f)

get_or-set_self : (b : Bytes) (i v : ℕ) → i < length b → get_or (set b i v) i 0 ≡ v
get_or-set_self [] i v h = absurd (omega arith)
get_or-set_self (c ∷ b) zero v h = refl
get_or-set_self (c ∷ b) (suc i) v h = get_or-set_self b i v (omega arith)

get_or-set_ne : (b : Bytes) (i j v : ℕ) → i ≢ j → get_or (set b i v) j 0 ≡ get_or b j 0
get_or-set_ne [] i j v h = refl
get_or-set_ne (c ∷ b) zero zero v h = absurd (h refl)
get_or-set_ne (c ∷ b) zero (suc j) v h = refl
get_or-set_ne (c ∷ b) (suc i) zero v h = refl
get_or-set_ne (c ∷ b) (suc i) (suc j) v h = get_or-set_ne b i j v (λ e. h (ap suc e))

pub length-memcpy : (b : Bytes) (at : ℕ) (d : Bytes) → length (memcpy b at d) ≡ length b
unfolding memcpy
length-memcpy b at [] = refl
length-memcpy b at (x ∷ d) = length-memcpy (set b at x) (suc at) d ∙ length-set b at x

get_or-memcpy :
    (b : Bytes) (at : ℕ) (d : Bytes) (i : ℕ)
    → (i < at) ⊎ (at + length d ≤ i)
    → get_or (memcpy b at d) i 0 ≡ get_or b i 0
unfolding memcpy
get_or-memcpy b at [] i h = refl
get_or-memcpy b at (x ∷ d) i (inl h) =
    get_or-memcpy (set b at x) (suc at) d i (inl (omega (arith, h)))
    ∙ get_or-set_ne b at i x (λ e. omega (arith, e, h))
get_or-memcpy b at (x ∷ d) i (inr h) =
    get_or-memcpy (set b at x) (suc at) d i (inr (omega (arith, h)))
    ∙ get_or-set_ne b at i x (λ e. omega (arith, e, h))

-- Outside of what is copied nothing changes.
pub slice-memcpy :
    (b : Bytes) (at : ℕ) (d : Bytes) (p n : ℕ)
    → (p + n ≤ at) ⊎ (at + length d ≤ p)
    → slice (memcpy b at d) p n ≡ slice b p n
unfolding slice
slice-memcpy b at d p zero h = refl
slice-memcpy b at d p (suc n) (inl h) =
    ap (λ (c : ℕ). c ∷ slice (memcpy b at d) (suc p) n)
      (get_or-memcpy b at d p (inl (omega (arith, h))))
    ∙ ap (λ (s : Bytes). get_or b p 0 ∷ s) (slice-memcpy b at d (suc p) n (inl (omega (arith, h))))
slice-memcpy b at d p (suc n) (inr h) =
    ap (λ (c : ℕ). c ∷ slice (memcpy b at d) (suc p) n) (get_or-memcpy b at d p (inr h))
    ∙ ap (λ (s : Bytes). get_or b p 0 ∷ s) (slice-memcpy b at d (suc p) n (inr (omega (arith, h))))

-- What is copied is there.
pub slice-memcpy_self :
    (b : Bytes) (at : ℕ) (d : Bytes)
    → at + length d ≤ length b
    → slice (memcpy b at d) at (length d) ≡ d
unfolding slice memcpy
slice-memcpy_self b at [] h = refl
slice-memcpy_self b at (x ∷ d) h =
    ap (λ (c : ℕ). c ∷ slice (memcpy (set b at x) (suc at) d) (suc at) (length d))
      (get_or-memcpy (set b at x) (suc at) d at (inl (omega arith))
        ∙ get_or-set_self b at x (omega (arith, h)))
    ∙ ap (λ (s : Bytes). x ∷ s)
        (slice-memcpy_self (set b at x) (suc at) d (omega (arith, h, length-set b at x)))

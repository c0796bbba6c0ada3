-- ===== src/Output/Zeros.antt =====
-- fileio.c: the zeros at the ends of a buffer, and parts of lists.
use rsync_wrapper.Prelude.{
  ℕ, zero, suc, ◌+◌, ◌-◌, ◌<◌, ◌≤◌, ◌≡◌, ◌≢◌, refl, ap, arith, ◌==◌, ◌&&◌, Bool-cases, inl, inr,
  ==_iff,
}
use rsync_wrapper.Prelude.{
  Bytes, [], ◌∷◌, ◌++◌, length, take, drop, replicate, append-nil, length-append, length-replicate,
}
use rsync_wrapper.Receive.{write_at}
use rsync_wrapper.Output.{Out, written, leading_zeros, trailing_zeros}

ap2_cons : {c c' : ℕ} {d d' : Bytes} → c ≡ c' → d ≡ d' → c ∷ d ≡ c' ∷ d'
ap2_cons e e' = cc

pub leading_zeros-le : (d : Bytes) → leading_zeros d ≤ length d
unfolding leading_zeros
leading_zeros-le [] = omega arith
leading_zeros-le (c ∷ d) = ground (arith, leading_zeros-le d)

pub trailing_zeros-le : (d : Bytes) → trailing_zeros d ≤ length d
unfolding trailing_zeros
trailing_zeros-le [] = omega arith
trailing_zeros-le (c ∷ d) = ground (arith, trailing_zeros-le d)

-- A buffer of zeros, data and zeros.
pub leading_split : (d : Bytes) → d ≡ replicate (leading_zeros d) 0 ++ drop (leading_zeros d) d
unfolding leading_zeros
leading_split [] = refl
leading_split (c ∷ d) = elim (Bool-cases (c == 0)) [
  | inl z ↦ rw z (ap2_cons ((==_iff c 0).0 z) (leading_split d))
  | inr nz ↦ rw nz refl
]

pub trailing_split :
    (d : Bytes) → d ≡ take (length d - trailing_zeros d) d ++ replicate (trailing_zeros d) 0
unfolding trailing_zeros
trailing_split [] = refl
trailing_split (c ∷ d) = elim (Bool-cases (trailing_zeros d == length d && c == 0)) [
  | inl z ↦
      let none_left : suc (length d) - suc (trailing_zeros d) ≡ 0 = ground arith in
      let none_kept : length d - trailing_zeros d ≡ 0 = ground arith in
      rw (z, none_left) (ap2_cons (ground arith) (rw none_kept at (trailing_split d)))
  | inr nz ↦
      let more : suc (length d) - trailing_zeros d ≡ suc (length d - trailing_zeros d) =
        omega (arith, trailing_zeros-le d) in
      rw (nz, more) (ap (c ∷◌) (trailing_split d))
]

-- Behind the leading zeros not all bytes are zero.
pub trailing_zeros-lt :
    (d : Bytes)
    → leading_zeros d ≢ length d
    → trailing_zeros (drop (leading_zeros d) d) < length (drop (leading_zeros d) d)
unfolding leading_zeros trailing_zeros
trailing_zeros-lt [] h = absurd (h refl)
trailing_zeros-lt (c ∷ d) h = elim (Bool-cases (c == 0)) [
  | inl z ↦ rw z (trailing_zeros-lt d (λ e. h (rw z (ap suc e))))
  | inr nz ↦ rw nz (ground (arith, trailing_zeros-le d))
]

pub zeros-append : (a b : ℕ) → replicate {A = ℕ} (a + b) 0 ≡ replicate a 0 ++ replicate b 0
zeros-append zero b = let e : 0 + b ≡ b = omega arith in rw e refl
zeros-append (suc a) b =
    let e : suc a + b ≡ suc (a + b) = omega arith in rw e (ap (0 ∷◌) (zeros-append a b))

pub take_past : (b : Bytes) (n : ℕ) → length b ≤ n → take n b ≡ b
take_past [] zero h = refl
take_past [] (suc n) h = refl
take_past (x ∷ b) zero h = absurd (omega arith)
take_past (x ∷ b) (suc n) h = ap (x ∷◌) (take_past b n (omega arith))

pub drop_past : (b : Bytes) (n : ℕ) → length b ≤ n → drop n b ≡ []
drop_past [] zero h = refl
drop_past [] (suc n) h = refl
drop_past (x ∷ b) zero h = absurd (omega arith)
drop_past (x ∷ b) (suc n) h = drop_past b n (omega arith)

pub take-append_le : (a b : Bytes) (n : ℕ) → n ≤ length a → take n (a ++ b) ≡ take n a
take-append_le [] b zero h = refl
take-append_le [] b (suc n) h = absurd (omega arith)
take-append_le (x ∷ a) b zero h = refl
take-append_le (x ∷ a) b (suc n) h = ap (x ∷◌) (take-append_le a b n (omega arith))

pub take-zeros :
    (k n : ℕ) (b : Bytes) → take (k + n) (replicate k 0 ++ b) ≡ replicate k 0 ++ take n b
take-zeros zero n b = let e : 0 + n ≡ n = omega arith in rw e refl
take-zeros (suc k) n b =
    let e : suc k + n ≡ suc (k + n) = omega arith in rw e (ap (0 ∷◌) (take-zeros k n b))

-- A write behind a gap.
pub written_gap :
    (d : Bytes) (o : Out) (k : ℕ)
    → o.position ≡ length o.dest + k
    → (written d o).dest ≡ o.dest ++ (replicate k 0 ++ d)
unfolding written write_at
written_gap d o k e =
    let gap : o.position - length o.dest ≡ k = omega (arith, e) in
    rw
      (
        take_past o.dest o.position (omega (arith, e)),
        gap,
        drop_past o.dest (o.position + length d) (omega (arith, e)),
      )
      (ap (λ (x : Bytes). o.dest ++ (replicate k 0 ++ x)) (append-nil d))

pub written_end :
    (d : Bytes) (o : Out) (k : ℕ)
    → o.position ≡ length o.dest + k
    → (written d o).position ≡ length (written d o).dest
written_end d o k e =
    let pos : (written d o).position ≡ o.position + length d = unfold written in refl in
    omega (
      arith,
      e,
      pos,
      ap length (written_gap d o k e),
      length-append o.dest (replicate k 0 ++ d),
      length-append (replicate {A = ℕ} k 0) d,
      length-replicate {A = ℕ} k 0,
    )

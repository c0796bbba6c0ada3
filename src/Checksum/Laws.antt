-- ===== src/Checksum/Laws.antt =====
-- checksum.c: the unrolled loops of `get_checksum1` compute two plain sums.
use rsync_wrapper.Prelude.{ℕ, ◌+◌, ◌*◌, ◌%◌, ◌^◌, ◌<◌, ◌≡◌, arith}
use rsync_wrapper.Prelude.{
  Bytes, [], ◌∷◌, ◌++◌, length, length-append, append-nil, append_assoc, ap,
}
use rsync_wrapper.Checksum.{schar, join_sums, single_loop, quad_loop, get_checksum1}

-- The sum of the bytes, and the sum of all the partial sums: each byte counts as often as there are
-- bytes from it on.
unfoldable pub sum_a : Bytes → ℕ
sum_a [] = 0
sum_a (b ∷ buf) = schar b + sum_a buf

unfoldable pub sum_b : Bytes → ℕ
sum_b [] = 0
sum_b (b ∷ buf) = (length buf + 1) * schar b + sum_b buf

-- Two running sums stand for the bytes seen so far, in their low 16 bits.
pub record SumsOf (buf : Bytes) (s1 s2 : ℕ) : Type 0 where
  pub first : s1 % 2 ^ 16 ≡ sum_a buf % 2 ^ 16
  pub second : s2 % 2 ^ 16 ≡ sum_b buf % 2 ^ 16

pub sum_a-append : (x y : Bytes) → sum_a (x ++ y) ≡ sum_a x + sum_a y
unfolding sum_a
sum_a-append [] y = omega arith
sum_a-append (b ∷ x) y = omega (arith, sum_a-append x y)

pub sum_b-append : (x y : Bytes) → sum_b (x ++ y) ≡ sum_b x + length y * sum_a x + sum_b y
unfolding sum_a sum_b
sum_b-append [] y = omega arith
sum_b-append (b ∷ x) y =
    omega (arith, sum_b-append x y, ap (λ (t : ℕ). t * schar b) (length-append x y))

pub SumsOf-single :
    (seen : Bytes) (b s1 s2 : ℕ)
    → SumsOf seen s1 s2
    → SumsOf (seen ++ (b ∷ [])) ((s1 + schar b) % 2 ^ 32) ((s2 + (s1 + schar b) % 2 ^ 32) % 2 ^ 32)
unfolding sum_a sum_b
SumsOf-single seen b s1 s2 h = record {
  first = omega (arith, sum_a-append seen (b ∷ []));
  second = omega (arith, sum_b-append seen (b ∷ []));
}

SumsOf-quad :
    (seen : Bytes) (a b c d s1 s2 : ℕ)
    → SumsOf seen s1 s2
    → SumsOf
        (seen ++ (a ∷ b ∷ c ∷ d ∷ []))
        ((s1 + (schar a + schar b + schar c + schar d)) % 2 ^ 32)
        ((s2 + (4 * (s1 + schar a) + 3 * schar b + 2 * schar c + schar d)) % 2 ^ 32)
unfolding sum_a sum_b
SumsOf-quad seen a b c d s1 s2 h = record {
  first = omega (arith, sum_a-append seen (a ∷ b ∷ c ∷ d ∷ []));
  second = omega (arith, sum_b-append seen (a ∷ b ∷ c ∷ d ∷ []));
}

single_loop-SumsOf :
    (buf seen : Bytes) (s1 s2 : ℕ)
    → SumsOf seen s1 s2
    → SumsOf (seen ++ buf) (single_loop buf s1 s2).0 (single_loop buf s1 s2).1
unfolding single_loop
single_loop-SumsOf [] seen s1 s2 h = rw append-nil h
single_loop-SumsOf (b ∷ buf) seen s1 s2 h =
    rw append_assoc at
      (single_loop-SumsOf buf (seen ++ (b ∷ [])) _ _ (SumsOf-single seen b s1 s2 h))

quad_loop-SumsOf :
    (buf seen : Bytes) (s1 s2 : ℕ)
    → SumsOf seen s1 s2
    → SumsOf (seen ++ buf) (quad_loop buf s1 s2).0 (quad_loop buf s1 s2).1
unfolding quad_loop
quad_loop-SumsOf (a ∷ b ∷ c ∷ d ∷ e ∷ buf) seen s1 s2 h = rw append_assoc at (
    quad_loop-SumsOf (e ∷ buf) (seen ++ (a ∷ b ∷ c ∷ d ∷ [])) _ _
      (SumsOf-quad seen a b c d s1 s2 h))
quad_loop-SumsOf buf seen s1 s2 h = single_loop-SumsOf buf seen s1 s2 h

pub join_sums-SumsOf :
    (buf : Bytes) (s1 s2 : ℕ)
    → SumsOf buf s1 s2
    → join_sums s1 s2 ≡ sum_a buf % 2 ^ 16 + sum_b buf % 2 ^ 16 * 2 ^ 16
unfolding join_sums
join_sums-SumsOf buf s1 s2 h = omega arith

-- On every buffer `get_checksum1`, with its unrolled loop and its wrapping sums, is the sum of the
-- bytes in the low half and the position-weighted sum in the high half, each modulo 2 ^ 16.
pub get_checksum1_lem :
    (buf : Bytes) → get_checksum1 buf ≡ sum_a buf % 2 ^ 16 + sum_b buf % 2 ^ 16 * 2 ^ 16
unfolding get_checksum1
get_checksum1_lem buf = join_sums-SumsOf buf _ _ (quad_loop-SumsOf buf [] 0 0 nothing)
  where
    nothing : SumsOf [] 0 0
    nothing = unfold sum_a sum_b in omega arith

pub get_checksum1-lt : (buf : Bytes) → get_checksum1 buf < 2 ^ 32
get_checksum1-lt buf = omega (arith, get_checksum1_lem buf)

-- ===== src/Checksum/Rolling.antt =====
-- match.c: moving the checksum's window by one byte.
use rsync_wrapper.Prelude.{ℕ, ◌+◌, ◌*◌, ◌^◌, ◌<◌, ◌≡◌, arith, sym, ◌∙◌, ap, refl}
use rsync_wrapper.Prelude.{Bytes, IsByte, [], ◌∷◌, ◌++◌, length}
use rsync_wrapper.Checksum.{
  schar, join_sums, get_checksum1, low_sum, high_sum, trim_first, add_next,
}
use rsync_wrapper.Checksum.Laws.{
  sum_a, sum_b, SumsOf, SumsOf-single, join_sums-SumsOf, get_checksum1_lem,
}

-- The two running sums stand for the window exactly if they join to its checksum.
pub SumsOf→get_checksum1 :
    (w : Bytes) (s1 s2 : ℕ) → SumsOf w s1 s2 → join_sums s1 s2 ≡ get_checksum1 w
SumsOf→get_checksum1 w s1 s2 h = join_sums-SumsOf w s1 s2 h ∙ sym (get_checksum1_lem w)

-- The sums that `hash_search` takes from a fresh checksum.
pub SumsOf-split : (w : Bytes) → SumsOf w (low_sum (get_checksum1 w)) (high_sum (get_checksum1 w))
unfolding low_sum high_sum
SumsOf-split w = omega (arith, get_checksum1_lem w)

schar-lt : (c : ℕ) → IsByte c → schar c < 2 ^ 32
unfolding schar
schar-lt c h = ground arith

-- Trimming off the first byte.
pub SumsOf-trim_first :
    (c : ℕ) (w : Bytes) (k s1 s2 : ℕ)
    → IsByte c
    → k ≡ length w + 1
    → SumsOf (c ∷ w) s1 s2
    → SumsOf w (trim_first k c (s1, s2)).0 (trim_first k c (s1, s2)).1
unfolding trim_first sum_a sum_b
SumsOf-trim_first c w k s1 s2 b e h = record {
  first = omega (arith, schar-lt c b);
  second = omega (arith, ap (λ (t : ℕ). t * schar c) e);
}

-- Adding the next one.
pub SumsOf-add_next :
    (w : Bytes) (c s1 s2 : ℕ)
    → SumsOf w s1 s2
    → SumsOf (w ++ (c ∷ [])) (add_next c (s1, s2)).0 (add_next c (s1, s2)).1
unfolding add_next
SumsOf-add_next w c s1 s2 h = SumsOf-single w c s1 s2 h

-- Rolling is recomputing: from sums that join to the checksum of a window, trimming its first byte and adding the
-- next one gives sums that join to the checksum of the moved window.
pub rolling_checksum :
    (c d : ℕ) (w : Bytes) (s1 s2 : ℕ)
    → IsByte c
    → join_sums s1 s2 ≡ get_checksum1 (c ∷ w)
    → (let (t1, t2) = add_next d (trim_first (length w + 1) c (s1, s2)) in join_sums t1 t2)
      ≡ get_checksum1 (w ++ (d ∷ []))
rolling_checksum c d w s1 s2 b h =
    SumsOf→get_checksum1 (w ++ (d ∷ [])) _ _
      (SumsOf-add_next w d _ _ (SumsOf-trim_first c w (length w + 1) s1 s2 b refl stands))
  where
    stands : SumsOf (c ∷ w) s1 s2
    stands = unfold join_sums in omega (arith, h, get_checksum1_lem (c ∷ w))

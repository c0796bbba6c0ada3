-- ===== src/Prelude/Byte.antt =====
-- Bytes, little-endian numbers, and facts that hold of every value below a bound by evaluation.
use Prim.Native.Nat.{ℕ, zero, suc, ◌<◌}
use mathlib.Core.Path.{◌≡◌}
use mathlib.Core.Bool.{Bool, true, ◌&&◌}
use mathlib.Core.List.{List, [], ◌∷◌}
use native.Mathlib.Omega.{arith}

-- A `char` array is the list of its bytes, each read as unsigned.
abbrev pub Bytes : Type 0
Bytes = List ℕ

abbrev pub All {ℓ κ} : {A : Type ℓ} → (A → Type κ) → List A → Type κ
All P [] = Unit
All P (x ∷ xs) = P x × All P xs

abbrev pub IsByte : ℕ → Type 0
IsByte b = b < 256

abbrev pub AreBytes : Bytes → Type 0
AreBytes = All IsByte

-- A test that holds of the `limit` smallest numbers.
unfoldable pub holds_below : (ℕ → Bool) → ℕ → Bool
holds_below test zero = true
holds_below test (suc limit) = holds_below test limit && test limit

pub holds_below-lt :
    (test : ℕ → Bool) (limit x : ℕ) → x < limit → holds_below test limit ≡ true → test x ≡ true
unfolding holds_below
holds_below-lt test zero x less h = absurd (omega arith)
holds_below-lt test (suc limit) x less h = ground (arith, holds_below-lt test limit x)

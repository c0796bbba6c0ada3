-- ===== src/FileMap/Cuts.antt =====
-- fileio.c: parts of a file's bytes.
use rsync_wrapper.Prelude.{ℕ, zero, suc, ◌+◌, ◌-◌, ◌≤◌, ◌≡◌, refl, sym, ap, ◌∙◌, arith}
use rsync_wrapper.Prelude.{Bytes, [], ◌∷◌, take, drop, get_or, length, replicate}
use rsync_wrapper.FileMap.{mapped_bytes}

drop-mapped_bytes :
    (file : Bytes) (o k n : ℕ) → drop k (mapped_bytes file o (k + n)) ≡ mapped_bytes file (o + k) n
unfolding mapped_bytes
drop-mapped_bytes file o zero n =
    let e : 0 + n ≡ n = omega arith in let e' : o + 0 ≡ o = omega arith in rw (e, e') refl
drop-mapped_bytes file o (suc k) n =
    let e : suc k + n ≡ suc (k + n) = omega arith in
    let e' : o + suc k ≡ o + 1 + k = omega arith in rw (e, e') (drop-mapped_bytes file (o + 1) k n)

take-mapped_bytes :
    (file : Bytes) (o k n : ℕ) → take k (mapped_bytes file o (k + n)) ≡ mapped_bytes file o k
unfolding mapped_bytes
take-mapped_bytes file o zero n = refl
take-mapped_bytes file o (suc k) n =
    let e : suc k + n ≡ suc (k + n) = omega arith in
    rw e (ap (get_or file o 0 ∷◌) (take-mapped_bytes file (o + 1) k n))

-- A part of the window.
pub cut-mapped_bytes :
    (file : Bytes) (o k n l : ℕ)
    → k + n ≤ l
    → take n (drop k (mapped_bytes file o l)) ≡ mapped_bytes file (o + k) n
cut-mapped_bytes file o k n l h =
    let e : k + (n + (l - (k + n))) ≡ l = omega arith in
    ap (λ (m : ℕ). take n (drop k (mapped_bytes file o m))) (sym e)
    ∙ ap (take n) (drop-mapped_bytes file o k (n + (l - (k + n))))
    ∙ take-mapped_bytes file (o + k) n (l - (k + n))

get_or_past : (file : Bytes) (o : ℕ) → length file ≤ o → get_or file o 0 ≡ 0
get_or_past [] o h = refl
get_or_past (x ∷ file) zero h = absurd (omega arith)
get_or_past (x ∷ file) (suc o) h = get_or_past file o (omega arith)

-- Behind the end of the file.
pub mapped_bytes_past :
    (file : Bytes) (o n : ℕ) → length file ≤ o → replicate n 0 ≡ mapped_bytes file o n
unfolding mapped_bytes
mapped_bytes_past file o zero h = refl
mapped_bytes_past file o (suc n) h =
    rw (get_or_past file o h) (ap (0 ∷◌) (mapped_bytes_past file (o + 1) n (omega arith)))

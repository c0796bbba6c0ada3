-- ===== src/FileMap.antt =====
-- fileio.c: what a mapped file holds. `mapped_bytes file offset len` are the `len` bytes at `offset`; what lies
-- past the end of the file reads as 0. The file does not change while it is mapped. The search and the receiver
-- take the bytes from here; FileMap/Window has the buffer that `map_ptr` serves them from.
pub mod Window
pub mod Cuts
pub mod Contents
pub mod Calls
use rsync_wrapper.Prelude.{ℕ, zero, suc, ◌+◌, ◌≡◌, refl, arith, ap, Bytes, [], ◌∷◌, ◌++◌}
use rsync_wrapper.Prelude.{length, get_or, append-nil, ◌≢◌}

unfoldable pub mapped_bytes : Bytes → ℕ → ℕ → Bytes
mapped_bytes file offset zero = []
mapped_bytes file offset (suc len) = get_or file offset 0 ∷ mapped_bytes file (offset + 1) len

pub length-mapped_bytes :
    (file : Bytes) (offset len : ℕ) → length (mapped_bytes file offset len) ≡ len
unfolding mapped_bytes
length-mapped_bytes file offset zero = refl
length-mapped_bytes file offset (suc len) = ap suc (length-mapped_bytes file (offset + 1) len)

-- Adjacent windows join.
pub mapped_bytes-append :
    (file : Bytes) (offset a b : ℕ)
    → mapped_bytes file offset a ++ mapped_bytes file (offset + a) b
      ≡ mapped_bytes file offset (a + b)
unfolding mapped_bytes
mapped_bytes-append file offset zero b =
    let e : offset + 0 ≡ offset = omega arith in let e' : 0 + b ≡ b = omega arith in rw (e, e') refl
mapped_bytes-append file offset (suc a) b =
    let e : offset + suc a ≡ offset + 1 + a = omega arith in
    let e' : suc a + b ≡ suc (a + b) = omega arith in
    rw (e, e', mapped_bytes-append file (offset + 1) a b) refl

mapped_bytes-cons :
    (x : ℕ) (file : Bytes) (o n : ℕ) → mapped_bytes (x ∷ file) (suc o) n ≡ mapped_bytes file o n
unfolding mapped_bytes
mapped_bytes-cons x file o zero = refl
mapped_bytes-cons x file o (suc n) =
    let e : suc o + 1 ≡ suc (o + 1) = omega arith in rw (e, mapped_bytes-cons x file (o + 1) n) refl

-- The window from the start up to the end is the file.
pub mapped_bytes_whole : (file : Bytes) → mapped_bytes file 0 (length file) ≡ file
unfolding mapped_bytes
mapped_bytes_whole [] = refl
mapped_bytes_whole (x ∷ file) =
    rw (mapped_bytes-cons x file 0 (length file), mapped_bytes_whole file) refl

-- A window starts with the byte at its offset, and ends with its last byte.
pub mapped_bytes-suc :
    (file : Bytes) (offset n : ℕ)
    → mapped_bytes file offset (suc n) ≡ get_or file offset 0 ∷ mapped_bytes file (offset + 1) n
unfolding mapped_bytes
mapped_bytes-suc file offset n = refl

pub mapped_bytes_last :
    (file : Bytes) (offset n : ℕ)
    → mapped_bytes file offset n ++ (get_or file (offset + n) 0 ∷ [])
      ≡ mapped_bytes file offset (suc n)
unfolding mapped_bytes
mapped_bytes_last file offset n =
    let e : n + 1 ≡ suc n = omega arith in rw e at (mapped_bytes-append file offset n 1)

-- Windows that follow one another join; an empty one may stand anywhere.
pub mapped_bytes_join :
    (file : Bytes) (o a o' b n : ℕ)
    → a + b ≡ n
    → (b ≢ 0 → o + a ≡ o')
    → mapped_bytes file o a ++ mapped_bytes file o' b ≡ mapped_bytes file o n
mapped_bytes_join file o a o' zero n e h =
    let e' : a ≡ n = omega arith in
    rw e' (unfold mapped_bytes in append-nil (mapped_bytes file o n))
mapped_bytes_join file o a o' (suc b) n e h =
    rw (← h (λ z. cc z), ← e) (mapped_bytes-append file o a (suc b))

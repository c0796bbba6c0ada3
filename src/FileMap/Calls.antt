-- ===== src/FileMap/Calls.antt =====
-- fileio.c: a file that is mapped and read by any sequence of calls of `map_ptr`.
use rsync_wrapper.Prelude.{
  ℕ, ◌≡◌, refl, ◌∙◌, arith, ◌==◌, if◌then◌else◌, false, Bool-cases, inl, inr,
}
use rsync_wrapper.Prelude.{Bytes, List, [], ◌∷◌, All, Option, none, some, Result, ok, ◌>>=◌}
use rsync_wrapper.FileMap.{mapped_bytes}
use rsync_wrapper.FileMap.Window.{MapStruct, map_file, map_ptr}
use rsync_wrapper.FileMap.Contents.{Reads, Mirrors, SameFile, IsUsual, map_ptr_lem}

-- The calls in their order, each with its offset and length.
unfoldable pub map_calls :
    Bytes → (ℕ → ℕ → ℕ) → MapStruct → List (ℕ × ℕ) → Result (List (Option Bytes) × MapStruct)
unfolding map_ptr
map_calls file read_count m [] = ok ([], m)
map_calls file read_count m ((offset, len) ∷ calls) = do
  (bytes, m1) ← map_ptr file read_count m offset len
  (more, m2) ← map_calls file read_count m1 calls
  ok (bytes ∷ more, m2)

-- What they want: the file's bytes, or NULL for none.
unfoldable pub wanted : Bytes → List (ℕ × ℕ) → List (Option Bytes)
unfolding mapped_bytes
wanted file [] = []
wanted file ((offset, len) ∷ calls) =
    (if len == 0 then none else some (mapped_bytes file offset len)) ∷ wanted file calls

unfoldable pub UsualCalls : Bytes → MapStruct → List (ℕ × ℕ) → Type 0
UsualCalls file m calls = All (λ c. IsUsual file m c.0 c.1) calls

map_file-Mirrors :
    (file : Bytes) (len read_size blk_size : ℕ) → Mirrors file (map_file len read_size blk_size)
unfolding map_file mapped_bytes
map_file-Mirrors file len read_size blk_size = record {
  held = refl;
  fits = omega arith;
  stands = refl;
}

same_usual :
    (file : Bytes) (m m' : MapStruct) (calls : List (ℕ × ℕ))
    → SameFile m m'
    → UsualCalls file m calls
    → UsualCalls file m' calls
unfolding UsualCalls SameFile IsUsual
same_usual file m m' [] s u = tt
same_usual file m m' (c ∷ calls) s u =
    ((s.0 ∙ u.0.0, u.0.1, omega (arith, s.1, u.0.2)), same_usual file m m' calls s u.1)

module _ (file : Bytes) (read_count : ℕ → ℕ → ℕ) (reads : Reads file read_count) where
  -- One call, with a length or without.
  one_call :
      (m : MapStruct) (offset len : ℕ)
      → Mirrors file m
      → (m' : MapStruct) × (map_ptr file read_count m offset len
          ≡ ok ((if len == 0 then none else some (mapped_bytes file offset len)), m'))
        × Mirrors file m'
        × (IsUsual file m offset len → m'.status ≡ m.status)
        × SameFile m m'
  unfolding map_ptr SameFile
  one_call m offset len h = elim (Bool-cases (len == 0)) [
    | inl empty ↦ (m, rw (map_ptr, empty) refl, h, λ u. refl, (refl, refl))
    | inr full ↦
        let (m', run, h', sound, same) =
          map_ptr_lem file read_count reads m offset len h (ground arith) in
        (m', run ∙ rw full refl, h', sound, same)
  ]

  all_calls :
      (m : MapStruct) (calls : List (ℕ × ℕ))
      → Mirrors file m
      → (m' : MapStruct) × (map_calls file read_count m calls ≡ ok (wanted file calls, m'))
        × (UsualCalls file m calls → m'.status ≡ m.status)
  unfolding map_calls wanted UsualCalls
  all_calls m [] h = (m, refl, λ u. refl)
  all_calls m ((offset, len) ∷ calls) h =
      let (m1, run, h1, sound, same) = one_call m offset len h in
      let (m2, run', sound') = all_calls m1 calls h1 in
      (
        m2,
        rw (map_calls, run, run') refl,
        λ u. sound' (same_usual file m m1 calls same u.1) ∙ sound u.0,
      )

  -- A file is mapped, with any size noted and any size of the window, and `map_ptr` called any number of times:
  -- each call ends, and returns NULL for no bytes and otherwise the file's bytes at its offset, with zeros behind
  -- the end of the file, whichever bytes are in the window by then and however `read` splits its work.
  pub map_calls-map_file :
      (len read_size blk_size : ℕ) (calls : List (ℕ × ℕ))
      → (m' : MapStruct) × (map_calls file read_count (map_file len read_size blk_size) calls
          ≡ ok (wanted file calls, m'))
  map_calls-map_file len read_size blk_size calls =
      let (m', run, sound) =
        all_calls (map_file len read_size blk_size) calls
          (map_file-Mirrors file len read_size blk_size) in
      (m', run)

  -- If every request is inside the file, is at least 1023 bytes smaller than the usual window, and the noted size is
  -- the file's size, then no error is noted in `status`.
  pub map_calls-status :
      (len read_size blk_size : ℕ) (calls : List (ℕ × ℕ))
      → UsualCalls file (map_file len read_size blk_size) calls
      → (m' : MapStruct) × (map_calls file read_count (map_file len read_size blk_size) calls
          ≡ ok (wanted file calls, m'))
        × (m'.status ≡ false)
  unfolding map_file
  map_calls-status len read_size blk_size calls u =
      let (m', run, sound) =
        all_calls (map_file len read_size blk_size) calls
          (map_file-Mirrors file len read_size blk_size) in
      (m', run, sound u)

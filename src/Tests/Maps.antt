-- ===== src/Tests/Maps.antt =====
-- fileio.c: a small file that is mapped, with reads that return at most three bytes at a time, and one that is
-- written sparse, with writes of at most three bytes.
use rsync_wrapper.Prelude.{
  ℕ, ◌-◌, ◌≡◌, refl, arith, min, true, false, Bytes, List, [], ◌∷◌, ◌++◌, length, none, some, ok,
}
use rsync_wrapper.Literal.Laws.{joined}
use rsync_wrapper.Output.{Setup, Out}
use rsync_wrapper.Output.Laws.{Writes}
use rsync_wrapper.Output.Whole.{write_pieces, opened, write_pieces_lem}
use rsync_wrapper.FileMap.Window.{MapStruct, map_file, aligned_length}
use rsync_wrapper.FileMap.Contents.{Reads, IsUsual}
use rsync_wrapper.FileMap.Calls.{
  map_calls, wanted, UsualCalls, map_calls-map_file, map_calls-status,
}

abbrev small_file : Bytes
small_file = 1 ∷ 2 ∷ 3 ∷ 4 ∷ 5 ∷ 6 ∷ 7 ∷ []

abbrev short_reads : ℕ → ℕ → ℕ
short_reads at size = min (min size 3) (7 - at)

abbrev requests : List (ℕ × ℕ)
requests = (2, 3) ∷ (0, 7) ∷ (3, 0) ∷ (6, 1) ∷ []

short_reads-Reads : Reads small_file short_reads
short_reads-Reads = record {
  some_byte = λ at size h l. omega arith;
  no_more = λ at size. omega arith;
  inside = λ at size l. omega arith;
}

map_calls-map_file_example :
    (m' : MapStruct) × (map_calls small_file short_reads (map_file 7 4096 700) requests
      ≡ ok (wanted small_file requests, m'))
map_calls-map_file_example =
    map_calls-map_file small_file short_reads short_reads-Reads 7 4096 700 requests

requests-UsualCalls : UsualCalls small_file (map_file 7 4096 700) requests
unfolding UsualCalls IsUsual map_file aligned_length
requests-UsualCalls = (
  (refl, omega arith, omega arith),
  (
    (refl, omega arith, omega arith),
    ((refl, omega arith, omega arith), ((refl, omega arith, omega arith), tt)),
  ),
)

map_calls-status_example :
    (m' : MapStruct) × (map_calls small_file short_reads (map_file 7 4096 700) requests
      ≡ ok (wanted small_file requests, m'))
    × (m'.status ≡ false)
map_calls-status_example =
    map_calls-status small_file short_reads short_reads-Reads 7 4096 700 requests
      requests-UsualCalls

-- What is wanted of the file.
wanted_run :
    wanted small_file requests
    ≡ some (3 ∷ 4 ∷ 5 ∷ []) ∷ some (1 ∷ 2 ∷ 3 ∷ 4 ∷ 5 ∷ 6 ∷ 7 ∷ []) ∷ none ∷ some (7 ∷ []) ∷ []
unfolding wanted
wanted_run = refl

abbrev sparse_setup : Setup
sparse_setup = record {
  sparse_files = true;
  preallocated_len = 0;
  write_count = λ at size. min size 3;
}

sparse_setup-Writes : Writes sparse_setup.write_count
sparse_setup-Writes = record {
  some_byte = λ at size h. omega arith;
  no_more = λ at size. omega arith;
}

abbrev sparse_pieces : List Bytes
sparse_pieces = (0 ∷ 0 ∷ 1 ∷ 2 ∷ 3 ∷ 4 ∷ 0 ∷ []) ∷ (0 ∷ 0 ∷ []) ∷ (5 ∷ 0 ∷ []) ∷ (0 ∷ []) ∷ []

write_pieces_lem_example :
    (o' : Out) × (write_pieces sparse_setup (length small_file) sparse_pieces (opened small_file)
      ≡ ok o')
    × (o'.dest ≡ small_file ++ joined sparse_pieces)
write_pieces_lem_example =
    write_pieces_lem sparse_setup sparse_setup-Writes refl small_file sparse_pieces

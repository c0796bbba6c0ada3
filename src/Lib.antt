-- ===== src/Lib.antt =====
-- rsync: how one file crosses the wire.
-- The repository wraps rsync (`rsync/`, in C) for a transport tool. This library models the part of rsync
-- that brings a file from the sender to the receiver by way of the blocks that the receiver has already:
-- the generator describes the old file by a list of block checksums (`rsync/generator.c`), the sender reads
-- the list (`rsync/sender.c`), searches its own file for those blocks with a rolling checksum
-- (`rsync/match.c`, `rsync/checksum.c`) and sends tokens (`rsync/token.c`): literal data, or the number of
-- a block; the receiver writes the new file from the tokens and its old file (`rsync/receiver.c`,
-- `rsync/fileio.c`), and compares a checksum of the whole. All numbers travel in the encodings of
-- `rsync/io.c`. Beside it stand parts that every transfer uses: the judgement of paths and links and the distance
-- of names (`rsync/util.c`), wildcards (`rsync/lib/wildmatch.c`), filters (`rsync/exclude.c`), hash tables
-- (`rsync/hashtable.c`), the ring of messages (`rsync/io.c`), and file modes (`rsync/chmod.c`).
--
-- The files:
--   Prelude, with its child modules: shared names, native lists, integers, bytes, and `Result`, whose
--     `exit` is `exit_cleanup` with a code of `rsync/errcode.h`.
--   Io: integers of fixed width (Io/Word), of variable length (Io/Varint), file indices (Io/Ndx) and the
--     header of a block list (Io/SumHead) and strings with their length (Io/Vstring), from `rsync/io.c` and
--     `rsync/byteorder.h`.
--   Checksum: `get_checksum1`, and the steps that move it.
--   FileMap: the bytes of a mapped file, from which the search and the receiver take theirs; FileMap/Window has
--     `map_file` and `map_ptr` with the sliding window that serves them, FileMap/Contents one call and
--     FileMap/Calls any sequence of calls.
--   Output: `write_file` of `rsync/fileio.c`, through its buffer or sparse; Output/Zeros, Laws and Sparse are about
--     one round of it, Output/Whole about a whole file.
--   Token: `simple_send_token` and `simple_recv_token`.
--   Match: the sender's state and `matched`; Match/Table has `build_hash_table`, Match/Search the walk along
--     a chain and the choice of a block, Match/Scan has `hash_search`, Match/Send has `match_sums`.
--     Match/Chains has the invariant of the chains.
--   Receive: the receiver's state and `receive_data`; Receive/Steps and Receive/Stream say what a stretch of
--     tokens makes the receiver write.
--   Blocks: `sum_sizes_sqroot`, `generate_and_send_sums` and `receive_sums`.
--   Transfer: the sender's invariant, that what is sent so far makes the receiver write the file so far,
--     through the search (Transfer/Sent, Rolls, Wanted, Search, Loop, File) to the receiver (Transfer/Rebuild, ReadError).
--   Session: the whole way, with the block list.
--   Chmod: `parse_chmod` and `tweak_mode` of `rsync/chmod.c`.
--   Literal: `doliteral`, `trailing_N_elements` and `litmatch_array` of `rsync/lib/wildmatch.c`.
--   Wild: `dowild`, `wildmatch`, `iwildmatch` and `wildmatch_array` of the same file, with the character classes
--     in Wild/Class. Wild/Glob has the meaning of a pattern apart from the search; Wild/Verdicts what FALSE and
--     the ABORT values say; Wild/Lexed, Steps, Search and Array lead from a round of the search to the whole.
--   Paths: `unsafe_symlink` and `count_dir_elements` of `rsync/util.c`; Paths/Elements has what they mean, on the
--     list of a path's elements, and Paths/Sanitize has `sanitize_path`.
--   Hash: the hash table of `rsync/hashtable.c`, the pointer to a node as its index. Hash/Mask and Probe are about the
--     search, Hash/Nodes, Valid and Written about the nodes and the invariant, Hash/Grow and Find about `hashtable_find`, and
--     Hash/Client about a client's calls. Sizes are
--     below 2 ^ 31; the doubling of an int up to the size asked for is taken for sizes up to 2 ^ 30.
--   Filter: the rules that include and exclude names, from `rsync/exclude.c`. Filter/Meaning has what it means that a rule
--     matches, Filter/First what a list says, Filter/Add has `add_rule`, Filter/Literals what it makes of
--     a pattern without wildcards, Filter/Parse has `parse_rule_tok`, Filter/Prefix `get_rule_prefix`, and
--     Filter/Marks, Modifiers and RoundTrip lead from a rule's text back to the rule.
--   NdxQueue: the queue of file indices of `rsync/util.c`, with its items in a memory; NdxQueue/Fifo is about its calls.
--   Messages: the ring of messages in `rsync/io.c`, from `send_msg` to the bytes that `perform_io` writes. Messages/Slices,
--     Frames, Put and Send lead to one message, Messages/Stream is about one write, Messages/Calls about any messages.
--   Fuzzy: `fuzzy_distance` of `rsync/util.c`.
--   Tests: the theorems at concrete inputs, and runs.
--
-- State and bounds. A connection is the list of the bytes that are still to be read; a writer returns the
-- bytes that it adds. Static variables are records that the functions pass on. A function of the source
-- that can leave the process returns a `Result`. Values of type uint32 wrap at 2 ^ 32; lengths, offsets and
-- counts are numbers without a bound, as they are in the source for files below 2 ^ 63 bytes. Loops that do
-- not follow a list run on fuel: a search round moves on by a byte, a chain leads to smaller indices, a
-- token takes a byte, a chunk takes a byte, and the loops over paths, patterns and buffers take a character,
-- so the lengths at hand are enough fuel.
--
-- Parameters. The strong checksum `get_checksum2` and the digest of the whole file `sum_end` are functions
-- of the bytes, as libraries provide them. Where a theorem needs it, a hypothesis says that no window that the
-- search comes to (from an offset inside the file, of a block's length, or less where the file ends) has the
-- weak checksum of a block and the part of its strong checksum that is sent, unless it is that block's data. How many bytes a `read` or a `write` does of what is asked is a parameter too, with
-- the hypothesis that it is at least one, but for the end of the file, and not more than asked. MAXPATHLEN is
-- an argument. Characters are compared and classified as in the C locale.
--
-- Not modelled: compressed tokens (zlib, zstd, lz4), multiplexed messages that are read, the other buffers of the connection,
-- errors of the file system, preallocation, merge files of filters, the file list, options and daemon, and
-- the wrapper in Go (`transporter/`). In-place updating and append mode are in the definitions of the
-- search and of the receiver; the theorems on rebuilding are about files that are written anew.
pub mod Prelude
pub mod Io
pub mod Checksum
pub mod FileMap
pub mod Token
pub mod Match
pub mod Receive
pub mod Transfer
pub mod Blocks
pub mod Session
pub mod Chmod
pub mod Literal
pub mod Paths
pub mod Wild
pub mod Output
pub mod Fuzzy
pub mod Hash
pub mod Filter
pub mod NdxQueue
pub mod Messages
pub mod Tests

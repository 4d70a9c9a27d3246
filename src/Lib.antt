-- ===== src/Lib.antt =====
-- Models and proofs of WaveDB, a database that is compiled into an application as a Rust crate. The
-- program encodes values with its own codec, names records by packed ids, finds them through indexes
-- of order-preserving keys, and keeps them in a file of blocks behind a journal.
--
-- Base: notation, the Boolean tests on numbers, and lists measured by native numbers.
--
-- Wire: crates/wavedb-wire and crates/wavedb-wire-derive. `Cursor`, the trait `WaveWire` as a record of
-- functions, `to_wire`, `from_wire`, the checked forms and `to_wire_pair` stand in Wire/Cursor and
-- Wire/Codec; the implementations of lib types in Wire/Scalars, Wire/Dynamic and Wire/Compose; what
-- the derive macro generates in Wire/Derive. A method that appends to a buffer gives the bytes that it
-- appends, and an error is a value of `Result`. What the trait promises is the record
-- `Wire.Codec.Laws.IsWire`, which each implementation fills; the entry points, the derived codecs and
-- the journal use that record only. The `while` loop of a `Vec` decode runs on fuel, the length of its
-- region: a round takes a byte at least where the elements have a stack section. The checksum
-- `crc32fast` is a parameter, of which only the width is used.
--
-- Ids: crates/wavedb-core/src/u48.rs, id.rs and local_id.rs. A packed id is the number that it holds;
-- a shift is a product or a quotient and a mask is a remainder.
--
-- Index: crates/wavedb-core/src/index/key.rs, node_key.rs, and `Bound` of index/mod.rs. A key is its
-- bytes, compared as slices are.
--
-- BpTree: crates/wavedb-core/src/index/node.rs, tree.rs, tree_insert.rs and tree_delete.rs, with the
-- trait `NodeKey` as a record of functions and its laws (BpTree/Key). `load` reads the bytes of a node
-- through `get_of` of a store, a parameter; the descents take fuel, one round for each node that they
-- load, and a tree of height `h` needs `h + 1` rounds for a descent and as many as it has nodes for the
-- search walk, whose stream is the list of its items. A binary search gives the place that it has in a
-- slice in order. The plan of an insert or of a removal is the list of its node writes before their
-- bytes are made, with the new handle; `BpTree.Insert.apply` is what the nodes read as once a store has
-- taken them. `mint_node_id` asks a clock and a counter, so the minted ids are a parameter, of which no
-- one may repeat. BpTree/Shape has the abstract view: a tree of subtrees, that a store holds it, its
-- keys from the left, and the order of keys and separators; BpTree/Insert/* prove the insert on it and
-- BpTree/Remove/* what becomes of two siblings.
--
-- Streams: crates/wavedb-core/src/index/stream.rs. A stream is the list of what its polls give, pending
-- polls and faults included, and a consumer is a loop of polls on fuel, which takes one event of a side
-- at each poll. A hash set is the list of what was inserted.
--
-- Fuzzy: `levenshtein_within` of crates/wavedb-core/src/fuzzy/distance.rs. A text is the list of its
-- codepoints; the two rows that the code swaps are a new row at each round. Fuzzy/Distance/Table has
-- the table without a band. Fuzzy/Filter: the length that a posting key carries (grams.rs) and the
-- length filter of `fuzzy_search` of crates/wavedb-core/src/collection_fuzzy_read.rs.
--
-- Blocks: crates/wavedb-storage/src/block.rs and alloc.rs. A `BTreeMap` or `BTreeSet` is the sorted
-- list of its entries (Blocks/Extents). Blocks/Alloc has the operations of `BlockAllocator`, a method
-- on `&mut self` giving the new state and `none` the panic of its `assert!`; Blocks/Alloc/Valid has
-- the invariant of the two indexes, Blocks/Alloc/Consistent that of the protected sets and of the
-- deferred frees. What is said of a protected run asks its blocks one by one (Blocks/Alloc/Kept), and
-- that two runs share none is said of their blocks too (Blocks/Alloc/Collect). The debug assertions of
-- the code are hypotheses.
--
-- Journal: crates/wavedb-storage/src/journal.rs, and `Write` of crates/wavedb-core/src/store.rs. A
-- journal is the bytes of its file and the offset behind the last whole frame. A file operation
-- succeeds and does what it says. The loop of `replay` runs on fuel, one round for each byte of the
-- file and one more: a round takes the four bytes of a length at least. A crash leaves a front of the
-- bytes that were written.
--
-- Priority: crates/wavedb-quick-node/src/shard/priority.rs, the valve between reads and maintenance.
--
-- Pages: the store of pages of crates/wavedb-storage. Buckets and Directory are directory.rs and
-- directory_pages.rs, Dictionary is dictionary.rs, Page is page.rs, Storage is struct_storage.rs,
-- Store is apply.rs and read_through.rs with the fields of `PageStore` that they use, Plan is plan.rs,
-- Edit and Chunk are edit.rs and MetaLog is meta_log.rs; Fault is error.rs, Framed the length before a
-- payload that three of them write out, and Map the sorted list that stands for a `BTreeMap` or a
-- `BTreeSet`. The types of a store are a list with one entry for each hash, found by its hash. A lock
-- is taken for the whole of an operation, so that an operation is a function of the state. A file is
-- the function from a run to its bytes or a fault; the page cache in front of it is left out. The hash
-- of an id, the compressor and the checksum are parameters (`Env`, `Codecs`), and AreCodecs says that
-- a decompressor undoes its compressor under the same dictionary. `ilog2` of a `u64` halves it 64
-- times at most. The loop of the splits is bounded by the 64 rounds of the code, and the walk of the
-- chunks ends behind 1,026 of its rounds, as it fails once it has more than 1,024 chunks. The plan
-- keeps the staged pages beside the bytes planned for them, so that what is planned can be read.
--
-- Runs: each theorem with hypotheses at a concrete input.
--
-- Numbers are natural numbers with the wrap-around of the code written out. The sums of offsets and
-- block counts are taken as they are: a file has fewer than 2 ^ 64 bytes.
--
-- Not modelled: the chains and sparse indexes, the folding, grams and scores of the fuzzy search,
-- collections, the placing of a checkpoint, its commit and retirement, the queue of the settle rounds, the
-- page cache and the opening of a store, the node, the network, the platform layer, the macros and the
-- client crate.
pub mod Base
pub mod Wire
pub mod Ids
pub mod Index
pub mod BpTree
pub mod Streams
pub mod Fuzzy
pub mod Blocks
pub mod Journal
pub mod Priority
pub mod Pages
pub mod Runs

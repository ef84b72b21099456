-- ===== src/Lib.antt =====
-- ZydecoDB, a document store on a log-structured engine: the core of its crates
-- crates/zydecodb-engine and crates/zydecodb-document, and the quota of the server crate
-- crates/zydecodb.
--
-- How the parts interact. A client sends an envelope (Frame); the server routes its command by
-- the opcode and, for a write, asks the quota (Quota). A write becomes a record or a batch of the
-- log (Wal), which is appended and synced, and then the pairs of internal key and entry (Keys,
-- Entry) that go into the memtable (Memtable). A full memtable becomes a table on disk with a
-- Bloom filter (Bloom), which is recorded in the manifest (Manifest). A scan and a compaction
-- merge memtables and tables (Iter); the compaction is planned over the levels of tables and drops
-- old versions (Compaction). On a restart the manifest and the log are
-- replayed (Restart).
-- Documents and their index entries are keys of that engine: DocKeys lays them out, Encoding writes
-- the fields of an index entry so that the order of the bytes is that of the values, and Store
-- makes the index entries of a document. The catalog (Catalog) holds the collections, their
-- indexes and their counters. A search parses to a filter (Filter); the planner (Planner) reads
-- constraints from it and chooses an index of the catalog and a range of its keys, and the query
-- (Query) scans that range in a snapshot and checks each document against the whole filter.
--
-- Files, and what they model (each child module says what it adds):
--   Errors, Errors.Status  crates/zydecodb-engine/src/errors.rs: the errors and the status bytes.
--     An error keeps the fixed text of its message; what `format!` adds is left out, as no code
--     reads it back.
--   Keys       crates/zydecodb-engine/src/keys.rs: InternalKey with its Ord (`cmp_key`), the
--     keyspaces, the validation of keys and values.
--   Entry      crates/zydecodb-engine/src/entry.rs: the entry, tombstones, expiry.
--   Frame      crates/zydecodb-engine/src/frame.rs: Command, the request and response envelopes
--     (Frame.Envelope) and the PUT and key payloads (Frame.Payload).
--   Memtable   crates/zydecodb-engine/src/memtable.rs: the BTreeMap is the list of its entries in
--     the order of the keys (Prelude.SortedMap), `insert`, `get_latest`, `range`.
--   Iter       crates/zydecodb-engine/src/iter.rs: MergingIterator; a source is the list of what
--     its `next` returns, errors included, and the BinaryHeap a list with its greatest element in
--     front. Iter.Stream and Iter.Modes describe what the two modes yield, Iter.Merge and
--     Iter.Sorted the merge of sorted sources.
--   Wal        crates/zydecodb-engine/src/wal.rs: records and batches, `encode`; Wal.Decode is
--     `decode_one`, Wal.Replay is `replay_segment_body` with `has_valid_record_after` and
--     `frame_len`.
--   Manifest   crates/zydecodb-engine/src/manifest.rs: ManifestRecord, `encode`, `apply`;
--     Manifest.Decode is `decode_one` and `replay`.
--   Bloom      crates/zydecodb-engine/src/bloom.rs: `build`, `maybe_contains`, `encode`, `decode`.
--   Quota      crates/zydecodb/src/security/quota.rs: the tenant quota, `pre_write` and
--     `post_write`.
--   Compaction  crates/zydecodb-engine/src/compaction_worker.rs: the loop of `execute_compaction`, and
--     `newest_visible_in_sstable` of crates/zydecodb-engine/src/engine/read.rs (Compaction.Read).
--     Compaction.Levels and Compaction.Planner are CompactionPlanner of
--     crates/zydecodb-engine/src/compaction.rs.
--   Json, Encoding  crates/zydecodb-document/src/encoding.rs: the values of an index entry and
--     their encodings, ascending and descending. Encoding.Path reads a dotted
--     path, in JSON and in a stored document (`get_path` of
--     crates/zydecodb-document/src/binary.rs, on the value that it encodes).
--   DocKeys    crates/zydecodb-document/src/keys.rs: the keys of documents and index entries, and
--     the bounds of scans.
--   DocErrors  crates/zydecodb-document/src/error.rs: the errors of the document layer.
--   Catalog    crates/zydecodb-document/src/catalog.rs: collections and indexes, and the operations on
--     the schema; Catalog.Counters has the counters of documents and index entries.
--   Filter     crates/zydecodb-document/src/filter.rs: the predicates and their evaluation.
--   Planner    crates/zydecodb-document/src/planner.rs: the access path of a filter.
--   Store      crates/zydecodb-document/src/store.rs: `index_keys_for`.
--   Restart    crates/zydecodb-engine/src/engine/open.rs: the replay of the records of the log into a
--     memtable when the engine opens.
--   Query      crates/zydecodb-document/src/query.rs: `for_each_match_bounded` and `find_ids`; a
--     snapshot is an interface of the engine (Query.Snapshot), a point lookup and a scan.
--   Prelude    what the parts share: Boolean tests, lists, the laws of Ord, byte strings and
--     big-endian words, slices, reading at a place of a buffer, bits, sorted maps.
--
-- Numbers. Every Rust integer is a native natural number; a u64 or u32 has its bound as a
-- hypothesis of the theorems that need it, and what wraps in Rust wraps in the model. A `usize` has
-- 64 bits in `checked_add`, and is unbounded elsewhere.
--
-- Loops. Loops over a list or over a count are structural. The replays of the log and of the
-- manifest run on fuel that is the length of their bytes, as every round reads a byte at least,
-- and the loop of the merging iterator on one more than the elements that are left in the heap
-- and the sources, as every round takes one; for each there is a theorem below that more fuel
-- changes nothing. The walk over the encoded fields of an index key (Encoding) runs on fuel that is the
-- length of the bytes, as every field is a byte at least.
--
-- Parameters, code that is not in the repository: the CRC of crc32fast, of which the theorems that
-- decode what was encoded ask that it has 32 bits; the hash of xxhash_rust, of which nothing is
-- asked; the numbers of serde_json with the bits of `as_f64`, of which the theorems on the order
-- ask that they are 64 bits and not those of -0.0; the match of the regex crate, of which nothing is
-- asked. A stored body is read through a parameter too, the value that it encodes, and the lossy
-- decoding of an id, of which the search asks that it keeps the ids of the store.
--
-- Not modelled: the files and directories of the engine (only the bytes in them), the SSTable
-- format, the engine's own read and write path, the caches and the background workers, the shipping
-- of changes, the bytes of stored documents, the parser of filters, updates, aggregation and joins,
-- the pages and the order of queries, the JSON of the catalog, and the server with its sessions,
-- transactions and replication; these build on the parts here. The scores of the compaction planner
-- are floats that only order the levels it tries, and stand as that order. Concurrency does not show
-- in the parts here, which the code runs under a lock or owns.
pub mod Prelude
pub mod Errors
pub mod Keys
pub mod Entry
pub mod Frame
pub mod Memtable
pub mod Iter
pub mod Wal
pub mod Manifest
pub mod Bloom
pub mod Compaction
pub mod Quota
pub mod Json
pub mod Encoding
pub mod DocKeys
pub mod Catalog
pub mod Filter
pub mod Planner
pub mod Store
pub mod DocErrors
pub mod Query
pub mod Restart

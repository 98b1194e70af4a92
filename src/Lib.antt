-- ===== src/Lib.antt =====
-- A verification library for IronBucket, an S3-compatible object store over a directory tree with a
-- write-ahead log that a replicator process reads.
--
-- The parts, and the files that model them:
-- - Policy, Policy/Address and Json: `check_policy_permission` and `is_ip_in_range` of
--   src/policy_check.rs. A policy is a value of `serde_json`; parsing its text is a parameter.
-- - Wal: `WALWriter` of src/wal.rs: `log_*` put operations into a channel, one turn of the thread's
--   loop receives, drains and flushes (`turn`), and `load_last_sequence` finds the number that a
--   restart begins with.
-- - Replicator: src/bin/replicator.rs reads the writer's log (`parse_wal_line`,
--   `read_wal_entries`) and thins out a batch (`optimize_batch`); the iteration order of its
--   `HashMap` is a parameter. Replicator/Targets writes a batch to the directories of the other
--   nodes (`send_to_node`). Replicator/Run has the state file and one turn of the loop of `run`, and
--   Replicator/Incoming the receiving side (`handle_incoming_replication`).
-- - Disk: the directory tree that `std::fs` gives the sources. Operations succeed wherever the tree
--   allows them: permissions and full disks are left out.
-- - Filesystem: src/filesystem.rs, the configuration files of a bucket.
-- - Xml: how the handlers read XML by searching for marks, and the printing of elements.
-- - Bucket: src/handlers/bucket.rs. Bucket itself has `create_bucket`, `delete_bucket` and
--   `head_bucket`, on a state of the storage directory and the log writer; Update has
--   `handle_bucket_put` on the same state. Cors, Encryption and Expiry have the configurations of a
--   bucket with their XML. On the state of the objects, Show has `handle_bucket_get`, Contents
--   `list_objects_impl`, and Batch `handle_bucket_post`, which deletes several objects.
-- - Listing: what `list_objects_impl` lists: scan, pages, tokens, common prefixes.
-- - Quota: `QuotaManager` of src/quota.rs with its cache. The `.quota` files and their temporary
--   ones stand in the same tree as the objects, and saving or loading one may fail.
-- - Cleanup: src/cleanup.rs, the removal of empty directories.
-- - Chunked: the decoders of the chunked transfer encoding of src/utils.rs and
--   src/handlers/object.rs.
-- - Paths: the directory tree at paths of any length, with `Path::join`, `parent`, the resolution of
--   `.` and `..`, and the operations of `std::fs` that the objects need.
-- - Object: src/handlers/object.rs on a state of that tree, the log writer, the quotas, the
--   counters and the multipart uploads. Object itself has the data and the paths; Fetch has
--   `get_object` and `head_object`, Write `put_object` without a copy source, Copy the copies and
--   `put_object`, Remove `delete_object`, Counting the counters of operations, the quota and the
--   log, Saved the files of the counters and `flush_all` of src/quota.rs, Multipart the uploads in
--   parts, Tagging the tags, Versions the list of versions, and Handlers the four
--   `handle_object_*`.
-- - Auth: `auth_middleware` of src/handlers/auth.rs, which asks Policy.
-- - Base: text as lists of bytes with the operations of `str`, number parsing and printing, trimming,
--   `HashMap` as an association list, Boolean tests, lists measured by native numbers.
-- Files below a part's folder hold its proofs, named for what they prove, and its tests.
--
-- Numbers: `u64` and `usize` are native numbers with their wrap-around written out where the source
-- adds without a check (a release build), and a slice that panics gives none; bounds are hypotheses
-- of the theorems. Loops are
-- structural recursion on the lists and trees they run over. Four functions run on fuel:
-- `read_pages`, which follows the tokens of a listing, with one request per object and one more,
-- the decoder's loop, with one turn per byte of the input, since a turn passes two bytes, the loop
-- over the tags of an object, with one turn per byte, since a turn passes a mark, and the removal of
-- the bucket's name in front of a path, with one turn per byte.
--
-- The functions of other crates (MD5, AES-256-GCM, Base64, percent-decoding, dates, `serde_json`)
-- are the fields of a record that the definitions take, and so are the clock and the random bytes
-- of a request, the text of an error of `std::fs`, and the JSON of quotas and statistics. Text is
-- taken to be UTF-8 and names of buckets to be one component of a path; a panic of a handler
-- counts as an answer 500.
--
-- Not modelled: HTTP routing and the downloads between nodes, the XML of the list of buckets, the
-- configuration from the environment, and the modules that src/main.rs does not declare.
mod Base
pub mod Json
pub mod Policy
pub mod Wal
pub mod Xml
pub mod Replicator
pub mod Listing
pub mod Disk
pub mod Paths
pub mod Object
pub mod Auth
pub mod Cleanup
pub mod Filesystem
pub mod Bucket
pub mod Quota
pub mod Chunked

-- ===== src/Replicator.antt =====
-- src/bin/replicator.rs: reading the write-ahead log and optimising a batch.

pub mod Format
pub mod RoundTrip
pub mod Escape
pub mod Reading
pub mod Complete
pub mod Batch
pub mod Sent
pub mod Targets
pub mod Converge
pub mod Run
pub mod Incoming
mod Tests
mod Examples
use ironbucket.Base.{
  ℕ, zero, suc, ◌+◌, ◌-◌, Bool, true, false, not, ◌&&◌, ◌||◌, Option, none, some, List, [], ◌∷◌,
  ◌++◌, length, take, drop, any, is_empty, ltb, leb, ◌==◌, if◌then◌else◌, ◌>>=◌,
}
use ironbucket.Base.Text.{Text, codes, text_eq, split, lines}
use ironbucket.Base.Number.{parse_uint, u64_max}
use ironbucket.Base.Trim.{trim}
use ironbucket.Base.Assoc.{Assoc, lookup, insert}

pub record WalEntry : Type 0 where
  pub node_id : Text
  pub sequence_id : ℕ
  pub timestamp : ℕ
  pub operation : Text
  pub bucket : Text
  pub key : Text
  pub size : Option ℕ
  pub etag : Option Text

-- `Some(s).filter(|s| !s.is_empty())`
unfoldable pub non_empty : Text → Option Text
non_empty [] = none
non_empty (c ∷ s) = some (c ∷ s)

-- The key, the size and the etag, by the operation and the fields behind the bucket.
abbrev pub Details : Type 0
Details = Text × Option ℕ × Option Text

put_details : List Text → Option Details
unfolding non_empty parse_uint
put_details [] = none
put_details (key ∷ []) = some (key, none, none)
put_details (key ∷ size ∷ []) = some (key, parse_uint u64_max size, none)
put_details (key ∷ size ∷ etag ∷ more) = some (key, parse_uint u64_max size, non_empty etag)

key_details : List Text → Option Details
key_details [] = none
key_details (key ∷ more) = some (key, none, none)

-- The kind of the metadata stands in the key, and its content in the etag.
metadata_details : List Text → Option Details
metadata_details (kind ∷ content ∷ more) = some (kind, none, some content)
metadata_details _ = none

unfoldable pub details : Text → List Text → Option Details
unfolding put_details key_details metadata_details text_eq
details op rest =
    if text_eq op (codes "PUT")
    then put_details rest
    else if text_eq op (codes "DELETE")
    then key_details rest
    else if text_eq op (codes "CREATE_BUCKET") || text_eq op (codes "DELETE_BUCKET")
    then some ([], none, none)
    else if text_eq op (codes "UPDATE_METADATA")
    then metadata_details rest
    else if text_eq op (codes "DELETE_METADATA")
    then key_details rest
    else some ([], none, none)

unfoldable pub parse_parts : List Text → Option WalEntry
unfolding details parse_uint
parse_parts (op ∷ node ∷ seq ∷ time ∷ bucket ∷ rest) = do
  sequence_id ← parse_uint u64_max seq
  timestamp ← parse_uint u64_max time
  d ← details op rest
  some (record {
    node_id = node;
    sequence_id = sequence_id;
    timestamp = timestamp;
    operation = op;
    bucket = bucket;
    key = d.0;
    size = d.1;
    etag = d.2;
  })
parse_parts _ = none

unfoldable pub parse_wal_line : Text → Option WalEntry
unfolding parse_parts split
parse_wal_line line = parse_parts (split 9 line)

-- The part of `ReplicatorState` and of `ReplicatorConfig` that reading uses.
pub record ReplicatorState : Type 0 where
  pub last_processed_position : ℕ
  pub last_processed_sequence : Assoc ℕ

pub record ReplicatorConfig : Type 0 where
  pub node_id : Text
  pub max_batch_size : ℕ

unfoldable pub last_sequence : Text → Assoc ℕ → ℕ
unfolding lookup
last_sequence node seen = elim (lookup node seen) [ none ↦ 0 | some n ↦ n ]

-- An entry of our own node with a sequence number that was not yet processed.
unfoldable pub accepts : Text → Assoc ℕ → WalEntry → Bool
unfolding text_eq last_sequence
accepts node seen entry =
    text_eq entry.node_id node && ltb (last_sequence entry.node_id seen) entry.sequence_id

-- The effect of one line on the entries read and on the sequence numbers.
unfoldable pub read_entry :
    Text → Option WalEntry → List WalEntry × Assoc ℕ → List WalEntry × Assoc ℕ
unfolding accepts insert
read_entry node none acc = acc
read_entry node (some entry) (entries, seen) =
    if accepts node seen entry
    then (entries ++ entry ∷ [], insert entry.node_id entry.sequence_id seen)
    else (entries, seen)

-- The loop: the entries, the sequence numbers and the bytes read. It stops at a full batch.
unfoldable pub read_loop :
    ReplicatorConfig → List Text → ℕ → List WalEntry × Assoc ℕ → (List WalEntry × Assoc ℕ) × ℕ
unfolding read_entry parse_wal_line trim
read_loop c [] bytes acc = (acc, bytes)
read_loop c (line ∷ rest) bytes acc =
    let acc' = read_entry c.node_id (parse_wal_line (trim line)) acc in
    let more = read_loop c rest (bytes + length line) acc' in
    if leb c.max_batch_size (length acc'.0) then (acc', bytes + length line) else more

-- `read_wal_entries`, on the contents of the log file.
unfoldable pub read_wal_entries :
    ReplicatorConfig → Text → ReplicatorState → List WalEntry × ReplicatorState
unfolding read_loop lines
read_wal_entries c file st =
    let ((entries, seen), bytes) =
      read_loop c (lines (drop st.last_processed_position file)) 0
        ([], st.last_processed_sequence) in
    (
      entries,
      record {
        last_processed_position = st.last_processed_position + bytes;
        last_processed_sequence = seen;
      },
    )

-- A group of `operations`: the entries with one bucket and one key, in the order of the batch.
abbrev pub Group : Type 0
Group = (Text × Text) × List WalEntry

unfoldable pub same_key : Text × Text → Text × Text → Bool
unfolding text_eq
same_key (b, k) (c, j) = text_eq b c && text_eq k j

-- `operations.entry(key).or_default().push(entry)`
unfoldable pub push_entry : WalEntry → List Group → List Group
unfolding same_key
push_entry e [] = ((e.bucket, e.key), e ∷ []) ∷ []
push_entry e ((k, ops) ∷ groups) =
    let rest = push_entry e groups in
    if same_key k (e.bucket, e.key) then (k, ops ++ e ∷ []) ∷ groups else (k, ops) ∷ rest

unfoldable pub group_entries : List Group → List WalEntry → List Group
unfolding push_entry
group_entries groups [] = groups
group_entries groups (e ∷ es) = group_entries (push_entry e groups) es

unfoldable pub is_op : Text → WalEntry → Bool
unfolding text_eq
is_op name e = text_eq e.operation name

unfoldable pub last_of : List WalEntry → Option WalEntry
last_of [] = none
last_of (e ∷ []) = some e
last_of (e ∷ f ∷ es) = last_of (f ∷ es)

-- What a group sends: nothing where it holds a PUT and a DELETE, and else its last entry.
unfoldable pub group_result : List WalEntry → Option WalEntry
unfolding is_op last_of
group_result ops =
    if any (is_op (codes "PUT")) ops && any (is_op (codes "DELETE")) ops then none else last_of ops

unfoldable pub collect : List Group → List WalEntry
unfolding group_result
collect [] = []
collect ((k, ops) ∷ groups) = elim (group_result ops) [
  | none ↦ collect groups
  | some e ↦ e ∷ collect groups
]

-- `order` is the order in which the `HashMap` gives its groups.
module _ (order : List Group → List Group) where
  unfoldable pub optimize_batch : List WalEntry → List WalEntry
  unfolding collect group_entries
  optimize_batch entries = collect (order (group_entries [] entries))

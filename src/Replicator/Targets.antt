-- ===== src/Replicator/Targets.antt =====
-- What the replicator does at the other nodes: `send_to_node` of src/bin/replicator.rs, which writes
-- to their directories, and the broadcast of a batch by `process_batch`.
use ironbucket.Base.{Bool, true, false, Option, none, some, List, [], ◌∷◌, ◌++◌, if◌then◌else◌}
use ironbucket.Base.Text.{Text, codes, text_eq, split, contains}
use ironbucket.Wal.{or_empty}
use ironbucket.Paths.{
  Tree, PathBuf, append_last, join, read, write, exists, remove_file, remove_dir_all,
  create_dir_all, resolve, loc_eq,
}
unfoldable pub use ironbucket.Paths.Outcomes.{Outcome, and_then, or_fail, create_parent, if_exists}
use ironbucket.Replicator.{WalEntry}
use ironbucket.Replicator.Escape.{unescape}

-- Whether both paths lead to the same place.
unfoldable pub same_place : Tree → PathBuf → PathBuf → Bool
unfolding resolve loc_eq
same_place t p q = elim (resolve t [] p) [
  | none ↦ false
  | some l ↦ elim (resolve t [] q) [ none ↦ false | some k ↦ loc_eq l k ]
]

-- `fs::copy`, which fails where the source is no file, and which empties the target before it reads:
-- of a file that is copied onto itself nothing is left.
unfoldable pub copy : PathBuf → PathBuf → Tree → Outcome
unfolding read write or_fail same_place
copy source target t = elim (read t source) [
  | none ↦ (t, false)
  | some contents ↦ or_fail t (write t target (if same_place t source target then [] else contents))
]

unfoldable pub metadata_of : PathBuf → PathBuf
unfolding append_last
metadata_of p = append_last p (codes ".metadata")

unfoldable pub send_put : PathBuf → PathBuf → Tree → Outcome
unfolding if_exists and_then create_parent copy metadata_of
send_put source target = if_exists source (λ t.
    and_then (and_then (create_parent target t) (copy source target))
      (if_exists (metadata_of source) (copy (metadata_of source) (metadata_of target))))

unfoldable pub send_delete : PathBuf → Tree → Outcome
unfolding if_exists and_then or_fail remove_file metadata_of
send_delete target = if_exists target (λ t.
    and_then (or_fail t (remove_file t target))
      (if_exists (metadata_of target) (λ u. or_fail u (remove_file u (metadata_of target)))))

-- The contents of `.bucket_metadata`, which hold the time, are an argument.
unfoldable pub send_create_bucket : Text → PathBuf → Tree → Outcome
unfolding exists and_then create_dir_all or_fail write join
send_create_bucket metadata target t =
    if exists t target
    then (t, true)
    else and_then (create_dir_all t target)
        (λ u. or_fail u (write u (join target (codes ".bucket_metadata")) metadata))

-- The file of a bucket's metadata of one kind, which the entry has in its key.
unfoldable pub kind_file : PathBuf → Text → PathBuf
unfolding join
kind_file bucket kind = join bucket (codes "." ++ kind)

unfoldable pub send_entry : Text → PathBuf → PathBuf → WalEntry → Tree → Outcome
unfolding text_eq join send_put send_delete send_create_bucket if_exists remove_dir_all kind_file
    unescape or_empty or_fail write remove_file
send_entry metadata storage target entry t =
    let bucket = join target entry.bucket in
    let file = kind_file bucket entry.key in
    if text_eq entry.operation (codes "PUT")
    then send_put (join (join storage entry.bucket) entry.key) (join bucket entry.key) t
    else if text_eq entry.operation (codes "DELETE")
    then send_delete (join bucket entry.key) t
    else if text_eq entry.operation (codes "CREATE_BUCKET")
    then send_create_bucket metadata bucket t
    else if text_eq entry.operation (codes "DELETE_BUCKET")
    then if_exists bucket (λ u. remove_dir_all u bucket) t
    else if text_eq entry.operation (codes "UPDATE_METADATA")
    then if_exists bucket (λ u. or_fail u (write u file (unescape (or_empty entry.etag)))) t
    else if text_eq entry.operation (codes "DELETE_METADATA")
    then if_exists bucket (if_exists file (λ u. or_fail u (remove_file u file))) t
    else (t, true)

-- The loop, which the first failure ends.
unfoldable pub send_entries : Text → PathBuf → PathBuf → List WalEntry → Tree → Outcome
unfolding and_then send_entry
send_entries metadata storage target [] t = (t, true)
send_entries metadata storage target (entry ∷ rest) t =
    and_then (send_entry metadata storage target entry t)
      (send_entries metadata storage target rest)

-- The node that an address names, and the directory of its storage.
unfoldable pub target_storage : Text → Option PathBuf
unfolding contains split
target_storage address =
    if contains address (codes "node1")
    then some (split b'/' (codes "/cluster-wal/node1/s3"))
    else if contains address (codes "node2")
    then some (split b'/' (codes "/cluster-wal/node2/s3"))
    else none

unfoldable pub send_to_node : Text → PathBuf → Text → List WalEntry → Tree → Outcome
unfolding target_storage send_entries
send_to_node metadata storage address entries t = elim (target_storage address) [
  | none ↦ (t, false)
  | some target ↦ send_entries metadata storage target entries t
]

-- To every node; the failure at one of them is a warning.
unfoldable pub broadcast : Text → PathBuf → List Text → List WalEntry → Tree → Tree
unfolding send_to_node
broadcast metadata storage [] entries t = t
broadcast metadata storage (address ∷ rest) entries t =
    broadcast metadata storage rest entries (send_to_node metadata storage address entries t).0

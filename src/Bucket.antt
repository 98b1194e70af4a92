-- ===== src/Bucket.antt =====
-- src/handlers/bucket.rs: `create_bucket`, `delete_bucket` and `head_bucket`. A response is its
-- status and the error code that its body names.
pub mod Lifecycle
pub mod Unlogged
pub mod Cors
pub mod Encryption
pub mod Expiry
pub mod Update
pub mod Contents
pub mod Show
pub mod Batch
mod Tests
mod Examples
use ironbucket.Base.{
  ℕ, Bool, true, false, not, ◌&&◌, Option, none, some, List, [], ◌∷◌, any, if◌then◌else◌,
}
use ironbucket.Base.Text.{Text, codes, starts_with, ends_with, is_some}
use ironbucket.Disk.{
  Node, file, dir, Entries, nil, entry, is_dir, child, put_child, remove_child, names,
}
use ironbucket.Filesystem.{
  bucket_exists, read_bucket_policy, delete_bucket_policy, read_bucket_encryption,
  delete_bucket_encryption, read_bucket_cors, delete_bucket_cors, read_bucket_lifecycle,
  delete_bucket_lifecycle,
}
use ironbucket.Wal.{WalWriter, WalOp, log_op, create_bucket as logged_create}
use ironbucket.Wal.{delete_bucket as logged_delete, delete_metadata}

pub record Response : Type 0 where
  pub status : ℕ
  pub code : Text

-- What the handlers share: the storage directory and the writer of the log.
pub record AppState : Type 0 where
  pub storage : Entries
  pub wal : WalWriter

-- The parameters of a request: which are given, and the texts of those whose text is read. The
-- parameters `list-type`, `version-id-marker` and `key-marker` are not read.
pub record BucketQueryParams : Type 0 where
  pub location : Bool
  pub versioning : Bool
  pub versions : Bool
  pub acl : Bool
  pub policy : Bool
  pub encryption : Bool
  pub cors : Bool
  pub lifecycle : Bool
  pub uploads : Bool
  pub delete : Bool
  pub quota : Bool
  pub stats : Bool
  pub month : Option Text
  pub max_keys : Option ℕ
  pub prefix : Option Text
  pub continuation_token : Option Text
  pub delimiter : Option Text

unfoldable pub log : WalOp → AppState → AppState
unfolding log_op
log op state = record state { wal = log_op op state.wal }

-- A storage directory in which nothing of the name stands: `create_dir_all` succeeds. The contents
-- of `.bucket_metadata`, which hold the time, are an argument.
unfoldable pub create_bucket : Text → Text → AppState → AppState × Response
unfolding child put_child log
create_bucket metadata bucket state = elim (child bucket state.storage) [
  | some node ↦ (state, record { status = 200; code = [] })
  | none ↦
      let files = entry (codes ".bucket_metadata") (file metadata) nil in
      (
        log (logged_create bucket)
            (record state { storage = put_child bucket (dir files) state.storage }),
        record { status = 200; code = [] },
      )
]

-- `?policy` and the three others: 404 for no bucket and for no configuration, 500 for one that
-- cannot be deleted. Two of the four log the deletion.
unfoldable pub delete_config :
    Text
    → Option WalOp
    → Bool
    → (Entries → Text → Option Entries)
    → Text
    → AppState
    → AppState × Response
unfolding bucket_exists log
delete_config missing logged present delete_file bucket state =
    if not (bucket_exists state.storage bucket)
    then (state, record { status = 404; code = codes "NoSuchBucket" })
    else if present
    then elim (delete_file state.storage bucket) [
      | none ↦ (state, record { status = 500; code = codes "InternalError" })
      | some storage' ↦ (
        elim logged [
          | none ↦ record state { storage = storage' }
          | some op ↦ log op (record state { storage = storage' })
        ],
        record { status = 204; code = [] },
      )
    ]
    else (state, record { status = 404; code = missing })

-- A file that is neither hidden nor metadata.
unfoldable pub is_object : Text → Bool
unfolding starts_with ends_with
is_object name = not (starts_with name (codes ".")) && not (ends_with name (codes ".metadata"))

unfoldable pub has_objects : Node → Bool
unfolding is_object names
has_objects (file contents) = false
has_objects (dir es) = any is_object (names es)

-- The bucket itself: `remove_dir_all` fails on a file.
unfoldable pub remove_bucket : Text → AppState → AppState × Response
unfolding child has_objects is_dir remove_child log
remove_bucket bucket state = elim (child bucket state.storage) [
  | none ↦ (state, record { status = 404; code = codes "NoSuchBucket" })
  | some node ↦
      if has_objects node
      then (state, record { status = 409; code = codes "BucketNotEmpty" })
      else if is_dir node
      then (
        log (logged_delete bucket) (record state { storage = remove_child bucket state.storage }),
        record { status = 204; code = [] },
      )
      else (state, record { status = 500; code = codes "InternalError" })
]

-- The arguments are `serde_json::from_str` of the three types of configuration.
module _ {E C L : Type 0} (encryption_of : Text → Option E) (cors_of : Text → Option C)
    (lifecycle_of : Text → Option L) where
  unfoldable pub delete_bucket : Text → BucketQueryParams → AppState → AppState × Response
  unfolding delete_config remove_bucket
  delete_bucket bucket params state =
      if params.policy
      then delete_config (codes "NoSuchBucketPolicy")
          (some (delete_metadata bucket (codes "policy")))
          (is_some (read_bucket_policy state.storage bucket)) delete_bucket_policy bucket state
      else if params.encryption
      then delete_config (codes "ServerSideEncryptionConfigurationNotFoundError")
          (some (delete_metadata bucket (codes "encryption")))
          (is_some (read_bucket_encryption encryption_of state.storage bucket))
          delete_bucket_encryption bucket state
      else if params.cors
      then delete_config (codes "NoSuchCORSConfiguration") none
          (is_some (read_bucket_cors cors_of state.storage bucket)) delete_bucket_cors bucket state
      else if params.lifecycle
      then delete_config (codes "NoSuchLifecycleConfiguration") none
          (is_some (read_bucket_lifecycle lifecycle_of state.storage bucket))
          delete_bucket_lifecycle bucket state
      else remove_bucket bucket state

unfoldable pub head_bucket : Text → AppState → ℕ
unfolding bucket_exists
head_bucket bucket state = if bucket_exists state.storage bucket then 200 else 404

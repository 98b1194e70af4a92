-- ===== src/Bucket/Update.antt =====
-- `handle_bucket_put` of src/handlers/bucket.rs: the configurations of a bucket are set, and a
-- request without any of them creates the bucket.
pub mod Stored
use ironbucket.Base.{
  ℕ, Bool, true, false, not, Option, none, some, List, [], ◌∷◌, is_empty, if◌then◌else◌,
}
use ironbucket.Base.Text.{Text, codes, contains}
use ironbucket.Disk.{Entries}
use ironbucket.Filesystem.{
  bucket_exists, write_bucket_versioning, write_bucket_policy, write_bucket_encryption,
  write_bucket_cors, write_bucket_lifecycle,
}
use ironbucket.Wal.{WalOp, update_metadata}
use ironbucket.Bucket.{Response, AppState, BucketQueryParams, log, create_bucket}
use ironbucket.Bucket.Cors.{CorsRule, parse_cors}
use ironbucket.Bucket.Encryption.{BucketEncryption, parse_encryption, bad_algorithm}
use ironbucket.Bucket.Expiry.{LifecycleRule, parse_lifecycle}

-- `serde_json`: whether a text is JSON, `to_string(..).unwrap_or_default()` of an encryption, and
-- `to_string_pretty` and `from_str` of the three types of configuration.
pub record Codec : Type 0 where
  pub is_json : Text → Bool
  pub encryption_to_string : BucketEncryption → Text
  pub encryption_to_string_pretty : BucketEncryption → Option Text
  pub encryption_from_str : Text → Option BucketEncryption
  pub cors_to_string_pretty : List CorsRule → Option Text
  pub cors_from_str : Text → Option (List CorsRule)
  pub lifecycle_to_string_pretty : List LifecycleRule → Option Text
  pub lifecycle_from_str : Text → Option (List LifecycleRule)

unfoldable pub respond : ℕ → Text → Response
respond status code = record { status = status; code = code }

-- What is written to a bucket that exists, and what is logged then.
unfoldable pub store :
    Text → (Entries → Option Entries) → Option WalOp → AppState → AppState × Response
unfolding bucket_exists log respond
store bucket write logged state =
    if not (bucket_exists state.storage bucket)
    then (state, respond 404 (codes "NoSuchBucket"))
    else elim (write state.storage) [
      | none ↦ (state, respond 500 (codes "InternalError"))
      | some storage' ↦ (
        elim logged [
          | none ↦ record state { storage = storage' }
          | some op ↦ log op (record state { storage = storage' })
        ],
        respond 200 [],
      )
    ]

-- The status that the body names, where it names one.
unfoldable pub versioning_status : Text → Option Text
unfolding contains
versioning_status body =
    if contains body (codes "<Status>Enabled</Status>")
    then some (codes "Enabled")
    else if contains body (codes "<Status>Suspended</Status>")
    then some (codes "Suspended")
    else none

unfoldable pub put_versioning : Text → Text → AppState → AppState × Response
unfolding versioning_status store
put_versioning bucket body state = elim (versioning_status body) [
  | none ↦ store bucket some none state
  | some status ↦
      store bucket (λ storage. write_bucket_versioning storage bucket status)
        (some (update_metadata bucket (codes "versioning") status)) state
]

module _ (codec : Codec) where
  unfoldable pub put_policy : Text → Text → AppState → AppState × Response
  unfolding store respond
  put_policy bucket policy state =
      if not (codec.is_json policy)
      then (state, respond 400 (codes "MalformedPolicy"))
      else store bucket (λ storage. write_bucket_policy storage bucket policy)
          (some (update_metadata bucket (codes "policy") policy)) state

  -- A panic of the parser counts as an answer 500.
  unfoldable pub put_encryption : Text → Text → AppState → AppState × Response
  unfolding parse_encryption bad_algorithm store respond
  put_encryption bucket body state = elim (parse_encryption body) [
    | none ↦ (state, respond 500 [])
    | some encryption ↦
        if bad_algorithm encryption.algorithm
        then (state, respond 400 (codes "InvalidEncryptionAlgorithm"))
        else store bucket
            (λ storage.
              write_bucket_encryption codec.encryption_to_string_pretty storage bucket encryption)
            (some
              (update_metadata bucket (codes "encryption") (codec.encryption_to_string encryption)))
            state
  ]

  unfoldable pub put_cors : Text → Text → AppState → AppState × Response
  unfolding parse_cors store respond
  put_cors bucket body state = elim (parse_cors body) [
    | none ↦ (state, respond 500 [])
    | some rules ↦
        if is_empty rules
        then (state, respond 400 (codes "MalformedXML"))
        else store bucket
            (λ storage. write_bucket_cors codec.cors_to_string_pretty storage bucket rules) none
            state
  ]

  unfoldable pub put_lifecycle : Text → Text → AppState → AppState × Response
  unfolding parse_lifecycle store respond
  put_lifecycle bucket body state = elim (parse_lifecycle body) [
    | none ↦ (state, respond 500 [])
    | some rules ↦
        store bucket
          (λ storage. write_bucket_lifecycle codec.lifecycle_to_string_pretty storage bucket rules)
          none state
  ]

  -- The contents of a new bucket's `.bucket_metadata` are an argument.
  unfoldable pub handle_bucket_put :
      Text → Text → BucketQueryParams → Text → AppState → AppState × Response
  unfolding put_versioning put_policy put_encryption put_cors put_lifecycle create_bucket respond
  handle_bucket_put metadata bucket params body state =
      if params.versioning
      then put_versioning bucket body state
      else if params.policy
      then put_policy bucket body state
      else if params.encryption
      then put_encryption bucket body state
      else if params.cors
      then put_cors bucket body state
      else if params.lifecycle
      then put_lifecycle bucket body state
      else if params.acl
      then (state, respond 200 [])
      else create_bucket metadata bucket state

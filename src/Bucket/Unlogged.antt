-- ===== src/Bucket/Unlogged.antt =====
-- Which deletions of a configuration the log misses.
use ironbucket.Base.{◌≡◌, ◌⊎◌, inl, inr, Bool, true, false, Option, none, Bool-cases, Option-cases}
use ironbucket.Base.Text.{Text, codes, is_some}
use ironbucket.Disk.{Entries}
use ironbucket.Filesystem.{
  bucket_exists, read_bucket_cors, delete_bucket_cors, read_bucket_lifecycle,
  delete_bucket_lifecycle,
}
use ironbucket.Bucket.{AppState, BucketQueryParams, delete_config, delete_bucket}

delete_config-wal :
    (missing : Text) (present : Bool) (delete_file : Entries → Text → Option Entries)
    (bucket : Text) (state : AppState)
    → (delete_config missing none present delete_file bucket state).0.wal ≡ state.wal
unfolding delete_config
delete_config-wal missing present delete_file bucket state =
    elim (Bool-cases (bucket_exists state.storage bucket)) [
      | inr e ↦ simp (delete_config, e)
      | inl e ↦ elim (Bool-cases present) [
        | inr f ↦ simp (delete_config, e, f)
        | inl f ↦ elim (Option-cases (delete_file state.storage bucket)) [
          | inl n ↦ simp (delete_config, e, f, n)
          | inr (s, n) ↦ simp (delete_config, e, f, n)
        ]
      ]
    ]

module _ {E C L : Type 0} (encryption_of : Text → Option E) (cors_of : Text → Option C)
    (lifecycle_of : Text → Option L) where
  -- A request that deletes the CORS or the lifecycle configuration of a bucket, and not the policy
  -- or the encryption, leaves the log writer as it is, whatever it answers and deletes.
  pub delete_bucket-wal :
      (bucket : Text) (params : BucketQueryParams) (state : AppState)
      → params.policy ≡ false
      → params.encryption ≡ false
      → (params.cors ≡ true) ⊎ (params.lifecycle ≡ true)
      → (delete_bucket encryption_of cors_of lifecycle_of bucket params state).0.wal ≡ state.wal
  unfolding delete_bucket
  delete_bucket-wal bucket params state p e which = elim (Bool-cases params.cors) [
    | inl c ↦
        rw (delete_bucket, p, e, c)
          (delete_config-wal (codes "NoSuchCORSConfiguration")
            (is_some (read_bucket_cors cors_of state.storage bucket)) delete_bucket_cors bucket
            state)
    | inr c ↦ elim which [
      | inl k ↦ absurd (cc)
      | inr l ↦
          rw (delete_bucket, p, e, c, l)
            (delete_config-wal (codes "NoSuchLifecycleConfiguration")
              (is_some (read_bucket_lifecycle lifecycle_of state.storage bucket))
              delete_bucket_lifecycle bucket state)
    ]
  ]

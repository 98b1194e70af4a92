-- ===== src/Bucket/Tests.antt =====
-- Creating and deleting a bucket beside another one.
use ironbucket.Base.{◌≡◌, refl, sym, ◌∙◌, ◌≢◌, ◌⊎◌, inl, true, false, none, some, []}
use ironbucket.Base.Text.{Text, codes, text_eq}
use ironbucket.Disk.{Node, file, dir, Entries, nil, entry, child, is_dir}
use ironbucket.Wal.{WalWriter}
use ironbucket.Bucket.Unlogged.{delete_bucket-wal}
use ironbucket.Bucket.{
  BucketQueryParams, delete_bucket, AppState, create_bucket, remove_bucket, head_bucket,
}
use ironbucket.Bucket.Lifecycle.{create_bucket-head_bucket, OnlyHidden, remove_bucket-cases}

abbrev wal : WalWriter
wal = record {
  enabled = true;
  node_id = codes "n1";
  queue = [];
  batch = [];
  sequence = 1;
  file = [];
  state_file = none;
}

abbrev state : AppState
state = record {
  storage = entry (codes "photos") (dir (entry (codes "cat.png") (file (codes "meow")) nil)) nil;
  wal = wal;
}

docs_absent : child (codes "docs") state.storage ≡ none
unfolding child text_eq
docs_absent = refl

docs_dirs : (node : Node) → child (codes "docs") state.storage ≡ some node → is_dir node ≡ true
docs_dirs node e = let apart : none ≡ some node = sym docs_absent ∙ e in absurd (cc)

create_bucket-head_bucket_example :
    ((create_bucket (codes "{}") (codes "docs") state).1.status ≡ 200)
    × (head_bucket (codes "docs") (create_bucket (codes "{}") (codes "docs") state).0 ≡ 200)
    × ((other : Text)
        → (child other (create_bucket (codes "{}") (codes "docs") state).0.storage
            ≡ child other state.storage)
          ⊎ (other ≡ codes "docs"))
    × ((create_bucket
          (codes "{}")
          (codes "docs")
          (create_bucket (codes "{}") (codes "docs") state).0).0
        ≡ (create_bucket (codes "{}") (codes "docs") state).0)
create_bucket-head_bucket_example =
    create_bucket-head_bucket (codes "{}") (codes "docs") state docs_dirs

-- A bucket with an object in it is kept.
photos_kept : (remove_bucket (codes "photos") state).1.status ≡ 409
unfolding remove_bucket text_eq
photos_kept = refl

remove_bucket-cases_example :
    (((remove_bucket (codes "photos") state).1.status ≡ 204)
      × ((es : Entries) × (child (codes "photos") state.storage ≡ some (dir es)) × OnlyHidden es)
      × (head_bucket (codes "photos") (remove_bucket (codes "photos") state).0 ≡ 404)
      × ((other : Text)
          → (child other (remove_bucket (codes "photos") state).0.storage
              ≡ child other state.storage)
            ⊎ (other ≡ codes "photos")))
    ⊎ (((remove_bucket (codes "photos") state).1.status ≢ 204)
        × ((remove_bucket (codes "photos") state).0 ≡ state))
remove_bucket-cases_example = remove_bucket-cases (codes "photos") state

abbrev cors_params : BucketQueryParams
cors_params = record {
  location = false;
  versioning = false;
  versions = false;
  acl = false;
  policy = false;
  encryption = false;
  cors = true;
  lifecycle = false;
  uploads = false;
  delete = false;
  quota = false;
  stats = false;
  month = none;
  max_keys = none;
  prefix = none;
  continuation_token = none;
  delimiter = none;
}

delete_bucket-wal_example :
    (delete_bucket
      (λ (t : Text). some t)
      (λ (t : Text). some t)
      (λ (t : Text). some t)
      (codes "photos")
      cors_params
      state).0.wal
    ≡ state.wal
delete_bucket-wal_example =
    delete_bucket-wal (λ (t : Text). some t) (λ (t : Text). some t) (λ (t : Text). some t)
      (codes "photos") cors_params state refl refl (inl refl)

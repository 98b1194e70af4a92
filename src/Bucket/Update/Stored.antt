-- ===== src/Bucket/Update/Stored.antt =====
-- What `store` leaves behind where it succeeds.
use ironbucket.Base.{◌≡◌, refl, true, false, Option, none, some, []}
use ironbucket.Base.Text.{Text}
use ironbucket.Disk.{file, dir, Entries, child, put_child, dir_at}
use ironbucket.Filesystem.{bucket_exists, read_bucket_json, write_bucket_json, parsed}
use ironbucket.Filesystem.Config.{
  after_write, child-put_child, write_file-some, read_bucket_file-after_write,
}
use ironbucket.Wal.{WalOp}
use ironbucket.Bucket.{AppState, log}
use ironbucket.Bucket.Update.{store, respond}

-- The log writer behind an operation, if there is one.
abbrev pub logged_in : Option WalOp → AppState → AppState
logged_in none state = state
logged_in (some op) state = log op state

log-storage : (op : Option WalOp) (state : AppState) → (logged_in op state).storage ≡ state.storage
unfolding log
log-storage none state = refl
log-storage (some op) state = refl

bucket_exists-dir :
    (storage es : Entries) (bucket : Text)
    → child bucket storage ≡ some (dir es)
    → bucket_exists storage bucket ≡ true
unfolding bucket_exists
bucket_exists-dir storage es bucket h = rw (bucket_exists, h) refl

pub bucket_exists-after_write :
    (storage es : Entries) (bucket name contents : Text)
    → bucket_exists (after_write storage bucket name contents es) bucket ≡ true
unfolding after_write
bucket_exists-after_write storage es bucket name contents =
    bucket_exists-dir (put_child bucket (dir (put_child name (file contents) es)) storage)
      (put_child name (file contents) es) bucket
      (child-put_child bucket (dir (put_child name (file contents) es)) storage)

store-some :
    (bucket : Text) (write : Entries → Option Entries) (op : Option WalOp) (state : AppState)
    (storage' : Entries)
    → bucket_exists state.storage bucket ≡ true
    → write state.storage ≡ some storage'
    → store bucket write op state
      ≡ (logged_in op (record state { storage = storage' }), respond 200 [])
unfolding store
store-some bucket write none state storage' h w = rw (store, h, w) refl
store-some bucket write (some op) state storage' h w = rw (store, h, w) refl

module _ {C : Type 0} (to_string_pretty : C → Option Text) (from_str : Text → Option C) where
  -- Storing a configuration.
  pub store-write_bucket_json :
      (name bucket : Text) (config : C) (json : Text) (es : Entries) (op : Option WalOp)
      (state : AppState)
      → to_string_pretty config ≡ some json
      → from_str json ≡ some config
      → child bucket state.storage ≡ some (dir es)
      → dir_at name es ≡ false
      → (t : Entries) × (store bucket
            (λ storage. write_bucket_json to_string_pretty name storage bucket config)
            op
            state
          ≡ (logged_in op (record state { storage = t }), respond 200 []))
        × (bucket_exists t bucket ≡ true)
        × (read_bucket_json from_str name t bucket ≡ some config)
  unfolding write_bucket_json read_bucket_json
  store-write_bucket_json name bucket config json es op state p f h d =
      let t = after_write state.storage bucket name json es in
      let written : write_bucket_json to_string_pretty name state.storage bucket config ≡ some t =
        rw (write_bucket_json, p) (write_file-some state.storage bucket name json es h d) in
      (
        t,
        store-some bucket (λ storage. write_bucket_json to_string_pretty name storage bucket config)
            op state t (bucket_exists-dir state.storage es bucket h) written,
        bucket_exists-after_write state.storage es bucket name json,
        rw (
          read_bucket_json,
          read_bucket_file-after_write state.storage bucket name json es,
          parsed,
          f,
        ),
      )

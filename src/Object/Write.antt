-- ===== src/Object/Write.antt =====
-- `put_object` without a copy source.
use ironbucket.Base.{ℕ, ◌||◌, Option, none, some, [], ◌∷◌, ◌++◌, length, is_empty, if◌then◌else◌}
use ironbucket.Base.Text.{Text, codes, text_eq, ends_with}
use ironbucket.Base.Assoc.{Assoc}
use ironbucket.Filesystem.{read_bucket_versioning, read_bucket_encryption}
use ironbucket.Paths.{Tree, PathBuf, join, write, create_dir_all}
use ironbucket.Wal.{put}
use ironbucket.Quota.{update_quota_add, op_put}
use ironbucket.Object.{
  Library, Moment, ObjectState, ObjectMetadata, ObjectEncryption, HeaderMap, Reply, header_text,
  unwrap_or, octet_stream, custom_metadata, quoted, bucket_path, object_path, metadata_path,
  versions_dir, make_dirs, make_parent, try_write, plain_data, storage_entries, reply,
}
use ironbucket.Object.Counting.{increment_stat, with_quota, log}

-- The identifier of the version, if versioning is enabled.
unfoldable pub version_of : Moment → Text → PathBuf → Tree → Option Text
unfolding read_bucket_versioning storage_entries text_eq
version_of moment bucket storage t =
    elim (read_bucket_versioning (storage_entries t storage) bucket) [
      | none ↦ none
      | some status ↦ if text_eq status (codes "Enabled") then some moment.uuid else none
    ]

module _ (lib : Library) where
  unfoldable pub new_metadata :
      Moment
      → Text
      → HeaderMap
      → Text
      → ℕ
      → Assoc Text
      → Option Text
      → Option ObjectEncryption
      → ObjectMetadata
  unfolding header_text unwrap_or
  new_metadata moment key headers etag size custom version_id encryption = record {
    key = key;
    size = size;
    etag = etag;
    last_modified = moment.now;
    content_type = unwrap_or octet_stream (header_text (codes "content-type") headers);
    storage_class = codes "STANDARD";
    metadata = custom;
    version_id = version_id;
    encryption = encryption;
    tags = none;
  }

  -- A version is kept beside the object, with the metadata of the headers and not encrypted.
  unfoldable pub save_version :
      Moment → Text → Text → HeaderMap → Text → PathBuf → Option Text → Tree → Tree
  unfolding versions_dir make_dirs try_write new_metadata custom_metadata join
  save_version moment bucket key headers content storage none t = t
  save_version moment bucket key headers content storage (some vid) t =
      let folder = versions_dir storage bucket key in
      let m =
        new_metadata moment key headers (lib.md5 content) (length content)
          (custom_metadata [] headers) (some vid) none in
      try_write (join folder (vid ++ codes ".metadata")) (lib.metadata_to_string m)
        (try_write (join folder vid) (some content) (make_dirs folder t))

  -- What is there before the object itself is written.
  unfoldable pub prepare :
      Moment → Text → Text → HeaderMap → Text → PathBuf → Option Text → Tree → Tree
  unfolding make_parent object_path metadata_path save_version
  prepare moment bucket key headers content storage version_id t =
      make_parent (metadata_path storage bucket key) (
        save_version moment bucket key headers content storage version_id
          (make_parent (object_path storage bucket key) t))

  unfoldable pub encrypt_data : Text → Text → Text → Option (Text × Text)
  encrypt_data content key nonce = elim (lib.encrypt key nonce content) [
    | none ↦ none
    | some ciphertext ↦ some (ciphertext, nonce)
  ]

  -- The bytes to write and how they are encrypted, by the algorithm of the bucket.
  unfoldable pub sealed : Moment → Text → Option Text → Text × Option ObjectEncryption
  unfolding text_eq encrypt_data
  sealed moment content none = (content, none)
  sealed moment content (some algorithm) =
      if text_eq algorithm (codes "AES256")
      then elim (encrypt_data content moment.encryption_key moment.nonce) [
        | none ↦ (content, none)
        | some (ciphertext, nonce) ↦ (
          ciphertext,
          some (record {
            algorithm = codes "AES256";
            key_base64 = lib.base64_encode moment.encryption_key;
            nonce_base64 = lib.base64_encode nonce;
          }),
        )
      ]
      else (content, none)

  unfoldable pub bucket_algorithm : Text → PathBuf → Tree → Option Text
  unfolding read_bucket_encryption storage_entries
  bucket_algorithm bucket storage t =
      read_bucket_encryption lib.algorithm_from_str (storage_entries t storage) bucket

  -- Behind the write of the object: the log, the quota and the counters.
  unfoldable pub account : Moment → Text → Text → ℕ → Text → ObjectState → ObjectState
  unfolding log with_quota update_quota_add increment_stat
  account moment bucket key size etag s =
      increment_stat lib moment bucket op_put
        (with_quota (update_quota_add bucket size) (log (put bucket key size (some etag)) s))

  unfoldable pub version_header : Option Text → Assoc Text
  version_header none = []
  version_header (some vid) = (codes "x-amz-version-id", vid) ∷ []

  unfoldable pub ok_reply : Text → Option Text → Reply
  unfolding quoted version_header
  ok_reply etag version_id = record {
    status = 200;
    headers = (codes "etag", quoted etag) ∷ version_header version_id;
    body = [];
  }

  unfoldable pub error_reply : Text → Reply
  error_reply text = record { status = 500; headers = []; body = text }

  -- Regular file handling. The tree `t` has the bucket's directory.
  unfoldable pub put_file :
      Moment → Text → Text → HeaderMap → Text → ObjectState → ObjectState × Reply
  unfolding prepare version_of sealed bucket_algorithm write try_write account ok_reply error_reply
  put_file moment bucket key headers content s =
      let path = object_path s.storage_path bucket key in
      let version_id = version_of moment bucket s.storage_path (make_parent path s.files) in
      let t = prepare moment bucket key headers content s.storage_path version_id s.files in
      let final = sealed moment content (bucket_algorithm bucket s.storage_path t) in
      let m =
        new_metadata moment key headers (lib.md5 content) (length final.0) [] version_id final.1 in
      elim (write t path final.0) [
        | none ↦ (record s { files = t }, error_reply (codes "Failed to store object"))
        | some t' ↦ (
          account moment bucket key (length final.0) (lib.md5 content) (record s {
            files =
                try_write (metadata_path s.storage_path bucket key) (lib.metadata_to_string m) t';
          }),
          ok_reply (lib.md5 content) version_id,
        )
      ]

  -- A key that ends in a slash is a folder; the empty key and `/` are the bucket itself.
  unfoldable pub put_folder : Text → Text → Text → ObjectState → ObjectState × Reply
  unfolding create_dir_all object_path text_eq ok_reply error_reply
  put_folder bucket key etag s =
      let made = create_dir_all s.files (object_path s.storage_path bucket key) in
      if text_eq key (codes "/") || is_empty key then (s, ok_reply etag none) else (
        record s { files = made.0 },
        if made.1 then ok_reply etag none else error_reply (codes "Failed to create folder"),
      )

  -- The bucket's directory is made where it is missing.
  unfoldable pub with_bucket : Text → ObjectState → ObjectState
  unfolding make_dirs bucket_path
  with_bucket bucket s = record s { files = make_dirs (bucket_path s.storage_path bucket) s.files }

  unfoldable pub put_data :
      Moment → Text → Text → HeaderMap → Text → ObjectState → ObjectState × Reply
  unfolding plain_data put_file put_folder with_bucket ends_with reply
  put_data moment bucket key headers body s = elim (plain_data body) [
    | none ↦ (s, reply 500)
    | some content ↦
        if ends_with key (codes "/") || is_empty key
        then put_folder bucket key (lib.md5 content) (with_bucket bucket s)
        else put_file moment bucket key headers content (with_bucket bucket s)
  ]

-- ===== src/Object/Fetch.antt =====
-- `get_object` and `head_object`.
use ironbucket.Base.{ℕ, Option, none, some, [], ◌∷◌, ◌++◌, length, if◌then◌else◌}
use ironbucket.Base.Text.{Text, codes, text_eq}
use ironbucket.Base.Number.{show}
use ironbucket.Base.Assoc.{Assoc}
use ironbucket.Disk.{file, dir}
use ironbucket.Paths.{Tree, PathBuf, read, exists, at_path}
use ironbucket.Quota.{op_head}
use ironbucket.Object.{
  Library, Moment, ObjectState, ObjectMetadata, ObjectEncryption, Reply, reply, octet_stream,
  quoted, unwrap_or, object_path, metadata_path, data_file, metadata_file,
}
use ironbucket.Object.Counting.{increment_stat}

module _ (lib : Library) where
  unfoldable pub read_metadata : Tree → PathBuf → Option ObjectMetadata
  unfolding read
  read_metadata t p = elim (read t p) [ none ↦ none | some json ↦ lib.metadata_from_str json ]

  unfoldable pub decrypt_data : Text → Text → Text → Option Text
  decrypt_data ciphertext key nonce = lib.decrypt key nonce ciphertext

  -- The data to return and the algorithm for the header, or the error of the decryption.
  unfoldable pub opened : Text → Option ObjectEncryption → Option (Text × Option Text)
  unfolding text_eq decrypt_data unwrap_or
  opened content none = some (content, none)
  opened content (some encryption) =
      if text_eq encryption.algorithm (codes "AES256")
      then elim (decrypt_data content (unwrap_or [] (lib.base64_decode encryption.key_base64))
          (unwrap_or [] (lib.base64_decode encryption.nonce_base64))) [
            | none ↦ none
            | some decrypted ↦ some (decrypted, some (codes "AES256"))
          ]
      else some (content, some encryption.algorithm)

  unfoldable pub meta_headers : Assoc Text → Assoc Text
  meta_headers [] = []
  meta_headers ((key, value) ∷ rest) = (codes "x-amz-meta-" ++ key, value) ∷ meta_headers rest

  unfoldable pub object_headers : Text → ℕ → Text → ℕ → Assoc Text → Assoc Text
  unfolding quoted meta_headers show
  object_headers content_type size etag last_modified custom =
      (codes "content-type", content_type)
      ∷ (codes "content-length", show size)
      ∷ (codes "etag", quoted etag)
      ∷ (codes "last-modified", lib.format_http_date last_modified)
      ∷ meta_headers custom

  -- The answer for the data of a file and what its metadata file gives.
  unfoldable pub get_reply : ℕ → Text → Option ObjectMetadata → Reply
  unfolding opened object_headers reply
  get_reply now content none = record {
    status = 200;
    headers = object_headers octet_stream (length content) (lib.md5 content) now [];
    body = content;
  }
  get_reply now content (some m) = elim (opened content m.encryption) [
    | none ↦ record { status = 500; headers = []; body = codes "Failed to decrypt object" }
    | some found ↦ record {
      status = 200;
      headers =
          object_headers m.content_type (length found.0) m.etag m.last_modified m.metadata
          ++ elim found.1 [
            | none ↦ []
            | some algorithm ↦ (codes "x-amz-server-side-encryption", algorithm) ∷ []
          ];
      body = found.0;
    }
  ]

  unfoldable pub get_object : Moment → Text → Text → Option Text → ObjectState → Reply
  unfolding read data_file metadata_file read_metadata get_reply reply
  get_object moment bucket key version_id s =
      elim (read s.files (data_file s.storage_path bucket key version_id)) [
        | none ↦ reply 404
        | some content ↦
            get_reply moment.now content
              (read_metadata s.files (metadata_file s.storage_path bucket key version_id))
      ]

  -- `fs::metadata(path).len()`
  unfoldable pub file_len : ℕ → Tree → ℕ
  file_len directory_len none = 0
  file_len directory_len (some (file contents)) = length contents
  file_len directory_len (some (dir es)) = directory_len

  -- The headers from the metadata, else from the file itself.
  unfoldable pub head_headers : Moment → Tree → PathBuf → Option ObjectMetadata → Assoc Text
  unfolding object_headers file_len unwrap_or at_path read
  head_headers moment t path (some m) =
      object_headers m.content_type m.size m.etag m.last_modified m.metadata
  head_headers moment t path none =
      object_headers octet_stream (file_len moment.directory_len (at_path t path))
        (lib.md5 (unwrap_or [] (read t path))) moment.now []

  unfoldable pub head_object : Moment → Text → Text → ObjectState → ObjectState × Reply
  unfolding increment_stat exists read_metadata head_headers reply object_path metadata_path
  head_object moment bucket key s =
      let path = object_path s.storage_path bucket key in
      let found = read_metadata s.files (metadata_path s.storage_path bucket key) in
      let answer : Reply = record {
        status = 200;
        headers = head_headers moment s.files path found;
        body = [];
      } in
      (
        increment_stat lib moment bucket op_head s,
        if exists s.files path then answer else reply 404,
      )

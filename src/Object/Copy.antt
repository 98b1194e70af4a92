-- ===== src/Object/Copy.antt =====
-- `put_object` with the header `x-amz-copy-source`, and `put_object` itself.
use ironbucket.Base.{ℕ, ◌+◌, Option, none, some, [], ◌∷◌, ◌++◌, length, take, drop, if◌then◌else◌}
use ironbucket.Base.Text.{Text, codes, text_eq, starts_with, find}
use ironbucket.Base.Assoc.{Assoc, insert}
use ironbucket.Paths.{Tree, PathBuf, read, write, exists}
use ironbucket.Object.{
  Library, Moment, ObjectState, ObjectMetadata, HeaderMap, Reply, get_header, header_text,
  unwrap_or, custom_metadata, quoted, bucket_path, object_path, metadata_path, data_file,
  metadata_file, make_dirs, make_parent, try_write,
}
use ironbucket.Object.Fetch.{read_metadata}
use ironbucket.Object.Write.{new_metadata, account, error_reply, put_data}

pub record CopySource : Type 0 where
  pub bucket : Text
  pub key : Text
  pub version_id : Option Text

-- `base_path.splitn(2, '/')` has two parts.
unfoldable pub bucket_and_key : Option Text → Text → Option CopySource
unfolding find
bucket_and_key version_id path = elim (find path (codes "/")) [
  | none ↦ none
  | some i ↦
      some (record { bucket = take i path; key = drop (i + 1) path; version_id = version_id })
]

-- `/bucket/key?versionId=...`, the slash in front and the version being optional.
unfoldable pub copy_source : Text → Option CopySource
unfolding starts_with find bucket_and_key
copy_source header =
    let path = if starts_with header (codes "/") then drop 1 header else header in
    elim (find path (codes "?versionId=")) [
      | none ↦ bucket_and_key none path
      | some i ↦ bucket_and_key (some (drop (i + 11) path)) (take i path)
    ]

unfoldable pub insert_all : Assoc Text → Assoc Text → Assoc Text
unfolding insert
insert_all [] m = m
insert_all ((k, v) ∷ rest) m = insert_all rest (insert k v m)

-- The metadata of the source at its new place: replaced or merged by the directive.
unfoldable pub copied_metadata : Moment → Text → Text → HeaderMap → ObjectMetadata → ObjectMetadata
unfolding header_text unwrap_or custom_metadata insert_all text_eq
copied_metadata moment key etag headers m =
    let custom = custom_metadata [] headers in
    let directive =
      unwrap_or (codes "COPY") (header_text (codes "x-amz-metadata-directive") headers) in
    record m {
      key = key;
      last_modified = moment.now;
      etag = etag;
      metadata =
          if text_eq directive (codes "REPLACE") then custom else insert_all custom m.metadata;
      content_type = unwrap_or m.content_type (header_text (codes "content-type") headers);
    }

module _ (lib : Library) where
  -- The metadata file at the new place, as text: none if the source's cannot be read.
  unfoldable pub copy_metadata : Moment → Text → HeaderMap → Text → PathBuf → Tree → Option Text
  unfolding exists read_metadata copied_metadata new_metadata custom_metadata
  copy_metadata moment key headers content source t =
      if exists t source
      then elim (read_metadata lib t source) [
        | none ↦ none
        | some m ↦ lib.metadata_to_string (copied_metadata moment key (lib.md5 content) headers m)
      ]
      else lib.metadata_to_string (
          new_metadata lib moment key headers (lib.md5 content) (length content)
            (custom_metadata [] headers) none none)

  unfoldable pub copy_reply : ℕ → Text → Reply
  unfolding quoted
  copy_reply now etag = record {
    status = 200;
    headers =
        (codes "etag", quoted etag) ∷ (codes "x-amz-copy-source-version-id", codes "null") ∷ [];
    body =
        codes "<?xml version=\"1.0\" encoding=\"UTF-8\"?>\n<CopyObjectResult>\n    <LastModified>"
        ++ lib.to_rfc3339 now
        ++ codes "</LastModified>\n    <ETag>\""
        ++ etag
        ++ codes "\"</ETag>\n</CopyObjectResult>";
  }

  -- The destination is written before the metadata of the source is read.
  unfoldable pub copy_bytes :
      Moment → Text → Text → HeaderMap → PathBuf → Text → ObjectState → ObjectState × Reply
  unfolding make_dirs make_parent bucket_path object_path metadata_path write try_write
      copy_metadata account copy_reply error_reply
  copy_bytes moment bucket key headers source content s =
      let path = object_path s.storage_path bucket key in
      let t = make_parent path (make_dirs (bucket_path s.storage_path bucket) s.files) in
      elim (write t path content) [
        | none ↦ (record s { files = t }, error_reply lib (codes "Failed to copy object"))
        | some t' ↦ (
          account lib moment bucket key (length content) (lib.md5 content) (record s {
            files =
                try_write (metadata_path s.storage_path bucket key)
                  (copy_metadata moment key headers content source t') t';
          }),
          copy_reply moment.now (lib.md5 content),
        )
      ]

  unfoldable pub copy_object :
      Moment → Text → Text → HeaderMap → Text → ObjectState → ObjectState × Reply
  unfolding copy_source unwrap_or data_file metadata_file read copy_bytes
  copy_object moment bucket key headers header s = elim (copy_source header) [
    | none ↦ (
      s,
      record { status = 400; headers = []; body = codes "InvalidArgument: Invalid copy source" },
    )
    | some source ↦
        let source_key = unwrap_or source.key (lib.url_decode source.key) in
        elim (read s.files (data_file s.storage_path source.bucket source_key source.version_id)) [
          | none ↦ (
            s,
            record {
              status = 404;
              headers = [];
              body = codes "NoSuchKey: The specified key does not exist";
            },
          )
          | some content ↦
              copy_bytes moment bucket key headers
                (metadata_file s.storage_path source.bucket source_key source.version_id) content s
        ]
  ]

  unfoldable pub put_object :
      Moment → Text → Text → HeaderMap → Text → ObjectState → ObjectState × Reply
  unfolding get_header copy_object put_data unwrap_or
  put_object moment bucket key headers body s =
      elim (get_header (codes "x-amz-copy-source") headers) [
        | none ↦ put_data lib moment bucket key headers body s
        | some source ↦ copy_object moment bucket key headers (unwrap_or [] source) s
      ]

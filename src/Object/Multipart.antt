-- ===== src/Object/Multipart.antt =====
-- Multipart uploads: the parts are kept in memory, and on disk below `.multipart`.
use ironbucket.Base.{
  ℕ, suc, Bool, true, false, none, some, List, [], ◌∷◌, ◌++◌, length, ltb, ◌==◌, if◌then◌else◌,
}
use ironbucket.Base.Text.{Text, codes}
use ironbucket.Base.Number.{show}
use ironbucket.Base.Assoc.{lookup, insert, remove}
use ironbucket.Paths.{Tree, PathBuf, join, read, write, remove_dir_all}
use ironbucket.Wal.{put}
use ironbucket.Quota.{update_quota_add, op_multipart}
use ironbucket.Object.{
  Library, Moment, ℤ, pos, negsuc, UploadPart, MultipartUpload, ObjectState, ObjectMetadata, Reply,
  reply, unwrap_or, octet_stream, quoted, bucket_path, object_path, metadata_path, make_dirs,
  make_parent, try_write, plain_data,
}
use ironbucket.Object.Counting.{increment_stat, with_quota, log}
use ironbucket.Object.Remove.{try_remove}

unfoldable pub int_eq : ℤ → ℤ → Bool
int_eq (pos a) (pos b) = a == b
int_eq (pos a) (negsuc b) = false
int_eq (negsuc a) (pos b) = false
int_eq (negsuc a) (negsuc b) = a == b

unfoldable pub int_lt : ℤ → ℤ → Bool
int_lt (pos a) (pos b) = ltb a b
int_lt (pos a) (negsuc b) = false
int_lt (negsuc a) (pos b) = true
int_lt (negsuc a) (negsuc b) = ltb b a

unfoldable pub show_int : ℤ → Text
unfolding show
show_int (pos n) = show n
show_int (negsuc n) = b'-' ∷ show (suc n)

-- `upload.parts.insert(part_number, part)`
unfoldable pub insert_part : ℤ → UploadPart → List (ℤ × UploadPart) → List (ℤ × UploadPart)
unfolding int_eq
insert_part n part [] = (n, part) ∷ []
insert_part n part ((m, old) ∷ rest) =
    let later = insert_part n part rest in if int_eq m n then (n, part) ∷ rest else (m, old) ∷ later

-- `parts.sort_by_key(|(num, _)| *num)`
unfoldable pub place_part : ℤ × UploadPart → List (ℤ × UploadPart) → List (ℤ × UploadPart)
unfolding int_lt
place_part part [] = part ∷ []
place_part part (first ∷ rest) =
    let later = place_part part rest in
    if int_lt first.0 part.0 then first ∷ later else part ∷ first ∷ rest

unfoldable pub sort_parts : List (ℤ × UploadPart) → List (ℤ × UploadPart)
unfolding place_part
sort_parts [] = []
sort_parts (part ∷ rest) = place_part part (sort_parts rest)

unfoldable pub joined : List (ℤ × UploadPart) → Text
joined [] = []
joined ((n, part) ∷ rest) = part.bytes ++ joined rest

-- The bytes of the parts in the order of their numbers.
unfoldable pub combined_data : List (ℤ × UploadPart) → Text
unfolding sort_parts joined
combined_data parts = joined (sort_parts parts)

unfoldable pub multipart_dir : PathBuf → Text → PathBuf
unfolding bucket_path join
multipart_dir storage bucket = join (bucket_path storage bucket) (codes ".multipart")

-- `{upload_id}.upload`
unfoldable pub upload_file : PathBuf → Text → Text → PathBuf
unfolding multipart_dir join
upload_file storage bucket upload_id =
    join (multipart_dir storage bucket) (upload_id ++ codes ".upload")

module _ (lib : Library) where
  unfoldable pub initiate_upload : Moment → Text → Text → ObjectState → ObjectState × Reply
  unfolding insert make_dirs multipart_dir try_write upload_file
  initiate_upload moment bucket key s =
      let upload : MultipartUpload = record {
        bucket = bucket;
        key = key;
        parts = [];
        initiated = moment.now;
      } in
      (
        record s {
          multipart_uploads = insert moment.uuid upload s.multipart_uploads;
          files =
              try_write (upload_file s.storage_path bucket moment.uuid)
                (some (lib.upload_to_string moment.uuid bucket key moment.now octet_stream))
                (make_dirs (multipart_dir s.storage_path bucket) s.files);
        },
        record {
          status = 200;
          headers = (codes "content-type", codes "application/xml") ∷ [];
          body =
              codes
                "<?xml version=\"1.0\" encoding=\"UTF-8\"?>\n<InitiateMultipartUploadResult>\n    <Bucket>"
              ++ bucket
              ++ codes "</Bucket>\n    <Key>"
              ++ key
              ++ codes "</Key>\n    <UploadId>"
              ++ moment.uuid
              ++ codes "</UploadId>\n</InitiateMultipartUploadResult>";
        },
      )

  -- A part goes to memory and, where the disk allows it, to two files.
  unfoldable pub upload_part : Text → ℤ → Text → ObjectState → ObjectState × Reply
  unfolding lookup insert insert_part plain_data multipart_dir make_dirs try_write quoted reply join
      show_int
  upload_part upload_id part_number body s = elim (lookup upload_id s.multipart_uploads) [
    | none ↦ (s, reply 404)
    | some upload ↦ elim (plain_data body) [
      | none ↦ (s, reply 500)
      | some content ↦
          let etag = lib.md5 content in
          let part : UploadPart = record {
            part_number = part_number;
            etag = etag;
            size = length content;
            bytes = content;
          } in
          let folder = join (multipart_dir s.storage_path upload.bucket) upload_id in
          let name = codes "part-" ++ show_int part_number in
          let upload' : MultipartUpload = record upload {
            parts = insert_part part_number part upload.parts;
          } in
          (
            record s {
              multipart_uploads = insert upload_id upload' s.multipart_uploads;
              files =
                  try_write (join folder (name ++ codes ".meta"))
                    (some (lib.part_to_string part_number etag (length content)))
                    (try_write (join folder name) (some content) (make_dirs folder s.files));
            },
            record { status = 200; headers = (codes "etag", quoted etag) ∷ []; body = [] },
          )
    ]
  ]

  unfoldable pub stored_content_type : Tree → PathBuf → Text
  unfolding read unwrap_or
  stored_content_type t p = elim (read t p) [
    | none ↦ octet_stream
    | some json ↦ unwrap_or octet_stream (lib.content_type_from_str json)
  ]

  unfoldable pub complete_reply : Text → Text → Text → Reply
  complete_reply bucket key etag = record {
    status = 200;
    headers = (codes "content-type", codes "application/xml") ∷ [];
    body =
        codes
          "<?xml version=\"1.0\" encoding=\"UTF-8\"?>\n<CompleteMultipartUploadResult>\n    <Location>http://s3.amazonaws.com/"
        ++ bucket
        ++ codes "/"
        ++ key
        ++ codes "</Location>\n    <Bucket>"
        ++ bucket
        ++ codes "</Bucket>\n    <Key>"
        ++ key
        ++ codes "</Key>\n    <ETag>\""
        ++ etag
        ++ codes "\"</ETag>\n</CompleteMultipartUploadResult>";
  }

  unfoldable pub upload_metadata : Moment → Text → ℕ → Text → Text → ObjectMetadata
  upload_metadata moment key size etag content_type = record {
    key = key;
    size = size;
    etag = etag;
    last_modified = moment.now;
    content_type = content_type;
    storage_class = codes "STANDARD";
    metadata = [];
    version_id = none;
    encryption = none;
    tags = none;
  }

  -- Behind the write of the object: the log, the quota and the counters, then the metadata file,
  -- then the directory of the parts.
  unfoldable pub finish_upload :
      Moment → Text → Text → Text → Text → Text → ObjectState → ObjectState
  unfolding log with_quota update_quota_add increment_stat try_write metadata_path multipart_dir
      remove_dir_all upload_metadata join
  finish_upload moment bucket key upload_id content content_type s =
      let size = length content in
      let etag = lib.md5 content in
      let s' =
        increment_stat lib moment bucket op_multipart
          (with_quota (update_quota_add bucket size) (log (put bucket key size (some etag)) s)) in
      let metadata = upload_metadata moment key size etag content_type in
      let t =
        try_write (metadata_path s.storage_path bucket key) (lib.metadata_to_string metadata)
          s'.files in
      record s' {
        files = (remove_dir_all t (join (multipart_dir s.storage_path bucket) upload_id)).0;
      }

  unfoldable pub complete_upload : Moment → Text → Text → Text → ObjectState → ObjectState × Reply
  unfolding lookup remove combined_data stored_content_type make_parent make_dirs bucket_path
      object_path write finish_upload complete_reply upload_file reply
  complete_upload moment bucket key upload_id s = elim (lookup upload_id s.multipart_uploads) [
    | none ↦ (s, reply 404)
    | some upload ↦
        let content = combined_data upload.parts in
        let path = object_path s.storage_path bucket key in
        let content_type =
          stored_content_type s.files (upload_file s.storage_path bucket upload_id) in
        let t = make_parent path (make_dirs (bucket_path s.storage_path bucket) s.files) in
        let s' : ObjectState = record s {
          multipart_uploads = remove upload_id s.multipart_uploads;
          files = t;
        } in
        elim (write t path content) [
          | none ↦ (s', reply 500)
          | some t' ↦ (
            finish_upload moment bucket key upload_id content content_type
                (record s' { files = t' }),
            complete_reply bucket key (lib.md5 content),
          )
        ]
  ]

-- The bucket is the one that the upload began with.
unfoldable pub abort_upload : Text → ObjectState → ObjectState × ℕ
unfolding lookup remove multipart_dir remove_dir_all try_remove upload_file join
abort_upload upload_id s = elim (lookup upload_id s.multipart_uploads) [
  | none ↦ (s, 404)
  | some upload ↦
      let folder = join (multipart_dir s.storage_path upload.bucket) upload_id in
      (
        record s {
          multipart_uploads = remove upload_id s.multipart_uploads;
          files =
              (try_remove (remove_dir_all s.files folder).0
                (upload_file s.storage_path upload.bucket upload_id)).0;
        },
        204,
      )
]

unfoldable pub parts_xml : List (ℤ × UploadPart) → Text
unfolding show_int show
parts_xml [] = []
parts_xml ((n, part) ∷ rest) =
    codes "\n    <Part>\n        <PartNumber>"
    ++ show_int part.part_number
    ++ codes "</PartNumber>\n        <ETag>\""
    ++ part.etag
    ++ codes "\"</ETag>\n        <Size>"
    ++ show part.size
    ++ codes "</Size>\n    </Part>"
    ++ parts_xml rest

unfoldable pub list_parts : Text → Text → Text → ObjectState → Reply
unfolding lookup sort_parts parts_xml reply
list_parts bucket key upload_id s = elim (lookup upload_id s.multipart_uploads) [
  | none ↦ reply 404
  | some upload ↦ record {
    status = 200;
    headers = (codes "content-type", codes "application/xml") ∷ [];
    body =
        codes "<?xml version=\"1.0\" encoding=\"UTF-8\"?>\n<ListPartsResult>\n    <Bucket>"
        ++ bucket
        ++ codes "</Bucket>\n    <Key>"
        ++ key
        ++ codes "</Key>\n    <UploadId>"
        ++ upload_id
        ++ codes "</UploadId>\n    <MaxParts>1000</MaxParts>\n    <IsTruncated>false</IsTruncated>"
        ++ parts_xml (sort_parts upload.parts)
        ++ codes "\n</ListPartsResult>";
  }
]

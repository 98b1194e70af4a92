-- ===== src/Object.antt =====
-- src/handlers/object.rs: the objects of a bucket, their metadata files and their versions. The
-- state is the one of `AppState`, with the files as one tree. The operations are in the
-- child modules.
pub mod Counting
pub mod Fetch
pub mod Write
pub mod Copy
pub mod Multipart
pub mod Tagging
pub mod Versions
pub mod Handlers
pub mod Remove
pub mod Charged
pub mod Stored
pub mod Fetched
pub mod Deleted
pub mod Kept
pub mod Turns
pub mod Element
pub mod Tags
pub mod Parts
pub mod Order
pub mod Saved
pub mod Sample
mod Tests
use ironbucket.Base.{
  ℕ, ◌&&◌, Option, none, some, List, [], ◌∷◌, ◌++◌, length, take, ltb, if◌then◌else◌,
}
use ironbucket.Base.Text.{Text, codes, text_eq, contains}
use ironbucket.Base.Text.{strip_prefix}
use ironbucket.Base.Assoc.{Assoc, lookup, insert}
use ironbucket.Disk.{file, dir, Entries, nil}
use ironbucket.Paths.{Tree, PathBuf, join, write, at_path, create_dir_all, parent}
use ironbucket.Wal.{WalWriter}
use ironbucket.Quota.{QuotaManager, BucketStats}
use ironbucket.Chunked.{object_parse_chunked_data}

pub record ObjectEncryption : Type 0 where
  pub algorithm : Text
  pub key_base64 : Text
  pub nonce_base64 : Text

pub record ObjectMetadata : Type 0 where
  pub key : Text
  pub size : ℕ
  pub etag : Text
  pub last_modified : ℕ
  pub content_type : Text
  pub storage_class : Text
  pub metadata : Assoc Text
  pub version_id : Option Text
  pub encryption : Option ObjectEncryption
  pub tags : Option (Assoc Text)

-- A part's number is an `i32`.
pub data ℤ : Type 0 where
  pos : ℕ → ℤ
  negsuc : ℕ → ℤ

-- The functions of other crates: the MD5 sum in hexadecimal digits, AES-256-GCM by key, nonce and
-- data, Base64, percent-decoding, dates as text, and `serde_json`: of a bucket's encryption the
-- algorithm, of the file of a multipart upload the content type.
pub record Library : Type 0 where
  pub md5 : Text → Text
  pub encrypt : Text → Text → Text → Option Text
  pub decrypt : Text → Text → Text → Option Text
  pub base64_encode : Text → Text
  pub base64_decode : Text → Option Text
  pub url_decode : Text → Option Text
  pub metadata_to_string : ObjectMetadata → Option Text
  pub metadata_from_str : Text → Option ObjectMetadata
  pub algorithm_from_str : Text → Option Text
  pub stats_from_str : Text → Option BucketStats
  pub format_http_date : ℕ → Text
  pub to_rfc3339 : ℕ → Text
  pub upload_to_string : Text → Text → Text → ℕ → Text → Text
  pub part_to_string : ℤ → Text → ℕ → Text
  pub content_type_from_str : Text → Option Text

-- What a request finds around it: the clock, the random bytes, the length that the system gives
-- for a directory, and the times at which files were modified.
pub record Moment : Type 0 where
  pub now : ℕ
  pub stats_file : Text
  pub uuid : Text
  pub encryption_key : Text
  pub nonce : Text
  pub directory_len : ℕ
  pub modified : PathBuf → ℕ

pub record UploadPart : Type 0 where
  pub part_number : ℤ
  pub etag : Text
  pub size : ℕ
  pub bytes : Text

pub record MultipartUpload : Type 0 where
  pub bucket : Text
  pub key : Text
  pub parts : List (ℤ × UploadPart)
  pub initiated : ℕ

pub record ObjectState : Type 0 where
  pub files : Tree
  pub storage_path : PathBuf
  pub wal_writer : WalWriter
  pub quota_manager : QuotaManager
  pub stats_cache : Assoc BucketStats
  pub multipart_uploads : Assoc MultipartUpload

-- The names of the headers, in lower case, and their values, none for a value that is not text.
abbrev pub HeaderMap : Type 0
HeaderMap = List (Text × Option Text)

pub record Reply : Type 0 where
  pub status : ℕ
  pub headers : Assoc Text
  pub body : Text

unfoldable pub reply : ℕ → Reply
reply status = record { status = status; headers = []; body = [] }

unfoldable pub get_header : Text → HeaderMap → Option (Option Text)
unfolding lookup
get_header name headers = lookup name headers

-- `headers.get(name).and_then(|v| v.to_str().ok())`
unfoldable pub header_text : Text → HeaderMap → Option Text
unfolding get_header
header_text name headers = elim (get_header name headers) [ none ↦ none | some value ↦ value ]

unfoldable pub unwrap_or : Text → Option Text → Text
unwrap_or default none = default
unwrap_or default (some text) = text

abbrev pub octet_stream : Text
octet_stream = codes "application/octet-stream"

-- The metadata in the headers whose names start with `x-amz-meta-`.
unfoldable pub custom_metadata : Assoc Text → HeaderMap → Assoc Text
unfolding strip_prefix insert
custom_metadata found [] = found
custom_metadata found ((name, none) ∷ rest) = custom_metadata found rest
custom_metadata found ((name, some value) ∷ rest) =
    custom_metadata
      (elim (strip_prefix name (codes "x-amz-meta-")) [
        | none ↦ found
        | some meta_key ↦ insert meta_key value found
      ])
      rest

-- `etag` between quotation marks.
unfoldable pub quoted : Text → Text
quoted etag = b'"' ∷ etag ++ b'"' ∷ []

unfoldable pub bucket_path : PathBuf → Text → PathBuf
unfolding join
bucket_path storage bucket = join storage bucket

unfoldable pub object_path : PathBuf → Text → Text → PathBuf
unfolding bucket_path join
object_path storage bucket key = join (bucket_path storage bucket) key

unfoldable pub metadata_path : PathBuf → Text → Text → PathBuf
unfolding bucket_path join
metadata_path storage bucket key = join (bucket_path storage bucket) (key ++ codes ".metadata")

unfoldable pub versions_dir : PathBuf → Text → Text → PathBuf
unfolding bucket_path join
versions_dir storage bucket key = join (join (bucket_path storage bucket) (codes ".versions")) key

-- A version that is given and that is not `"null"`, which means the current one.
unfoldable pub old_version : Option Text → Option Text
unfolding text_eq
old_version none = none
old_version (some vid) = if text_eq vid (codes "null") then none else some vid

-- The file of an object or of a version of it, and the metadata file.
unfoldable pub data_file : PathBuf → Text → Text → Option Text → PathBuf
unfolding old_version object_path versions_dir join
data_file storage bucket key version_id = elim (old_version version_id) [
  | none ↦ object_path storage bucket key
  | some vid ↦ join (versions_dir storage bucket key) vid
]

unfoldable pub metadata_file : PathBuf → Text → Text → Option Text → PathBuf
unfolding old_version metadata_path versions_dir join
metadata_file storage bucket key version_id = elim (old_version version_id) [
  | none ↦ metadata_path storage bucket key
  | some vid ↦ join (versions_dir storage bucket key) (vid ++ codes ".metadata")
]

-- `fs::create_dir_all`, whose failure is a warning.
unfoldable pub make_dirs : PathBuf → Tree → Tree
unfolding create_dir_all
make_dirs p t = (create_dir_all t p).0

-- `if let Some(parent) = path.parent()`
unfoldable pub make_parent : PathBuf → Tree → Tree
unfolding make_dirs parent
make_parent p t = elim (parent p) [ none ↦ t | some above ↦ make_dirs above t ]

-- A write of what `serde_json::to_string` gives, where its failure or the write's is a warning.
unfoldable pub try_write : PathBuf → Option Text → Tree → Tree
unfolding write
try_write p none t = t
try_write p (some contents) t = elim (write t p contents) [ none ↦ t | some t' ↦ t' ]

-- Data that begin with the signature of a chunk are decoded; none for a panic.
unfoldable pub plain_data : Text → Option Text
unfolding contains object_parse_chunked_data
plain_data body =
    if ltb 100 (length body) && contains (take 100 body) (codes ";chunk-signature=")
    then object_parse_chunked_data body
    else some body

unfoldable pub storage_entries : Tree → PathBuf → Entries
unfolding at_path
storage_entries t storage = elim (at_path t storage) [
  | none ↦ nil
  | some node ↦ elim node [ file contents ↦ nil | dir es ↦ es ]
]

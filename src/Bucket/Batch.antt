-- ===== src/Bucket/Batch.antt =====
-- `handle_bucket_post` of src/handlers/bucket.rs: the objects that a request names are deleted.
pub mod Gone
use ironbucket.Base.{
  ℕ, Bool, true, false, not, Option, none, some, List, [], ◌∷◌, ◌++◌, length, is_empty,
  if◌then◌else◌, ◌>>=◌,
}
use ironbucket.Base.Text.{Text, codes}
use ironbucket.Xml.{element, parts, print_lines, listed}
use ironbucket.Paths.{Tree, PathBuf, exists, is_dir, read, remove_file, remove_dir}
use ironbucket.Quota.{update_quota_remove, op_delete}
use ironbucket.Object.{Library, Moment, ObjectState, Reply, reply, object_path, metadata_path}
use ironbucket.Object.Counting.{increment_stat, with_quota}
use ironbucket.Object.Remove.{try_remove}
use ironbucket.Bucket.{BucketQueryParams}
use ironbucket.Bucket.Expiry.{text_or}

pub record DeleteObject : Type 0 where
  pub key : Text
  pub version_id : Option Text

pub record DeletedObject : Type 0 where
  pub key : Text
  pub version_id : Option Text
  pub delete_marker : Bool
  pub delete_marker_version_id : Option Text

pub record DeleteError : Type 0 where
  pub key : Text
  pub code : Text
  pub message : Text
  pub version_id : Option Text

pub record DeleteResult : Type 0 where
  pub deleted : List DeletedObject
  pub errors : List DeleteError

unfoldable pub push_object : Text → Option Text → List DeleteObject → List DeleteObject
push_object key version_id objects =
    if is_empty key then objects else record { key = key; version_id = version_id } ∷ objects

-- The objects in the parts behind `<Object>`; none for a panic.
unfoldable pub parse_objects : List Text → Option (List DeleteObject)
unfolding text_or push_object
parse_objects [] = some []
parse_objects (object_part ∷ rest) = do
  key ← element (codes "Key") object_part
  version_id ← element (codes "VersionId") object_part
  objects ← parse_objects rest
  some (push_object (text_or [] key) version_id objects)

unfoldable pub as_deleted : DeleteObject → DeletedObject
as_deleted o = record {
  key = o.key;
  version_id = o.version_id;
  delete_marker = false;
  delete_marker_version_id = none;
}

-- The length of the file at a path, 0 where there is none.
unfoldable pub size_at : Tree → PathBuf → ℕ
unfolding read
size_at t p = elim (read t p) [ none ↦ 0 | some contents ↦ length contents ]

-- A directory goes only where it is empty.
unfoldable pub remove_path : Tree → PathBuf → Option Tree
unfolding is_dir remove_dir remove_file
remove_path t p = if is_dir t p then remove_dir t p else remove_file t p

unfoldable pub remove_metadata : Tree → PathBuf → Tree
unfolding exists try_remove
remove_metadata t p = if exists t p then (try_remove t p).0 else t

unfoldable pub deleted_xml : List DeletedObject → Text
unfolding print_lines
deleted_xml [] = []
deleted_xml (o ∷ rest) =
    codes "\n    <Deleted>\n        <Key>"
    ++ o.key
    ++ codes "</Key>"
    ++ print_lines (codes "\n        ") (codes "VersionId") (listed o.version_id)
    ++ (if o.delete_marker
        then codes "\n        <DeleteMarker>true</DeleteMarker>"
          ++ print_lines (codes "\n        ") (codes "DeleteMarkerVersionId")
              (listed o.delete_marker_version_id)
        else [])
    ++ codes "\n    </Deleted>"
    ++ deleted_xml rest

unfoldable pub errors_xml : List DeleteError → Text
unfolding print_lines
errors_xml [] = []
errors_xml (e ∷ rest) =
    codes "\n    <Error>\n        <Key>"
    ++ e.key
    ++ codes "</Key>\n        <Code>"
    ++ e.code
    ++ codes "</Code>\n        <Message>"
    ++ e.message
    ++ codes "</Message>"
    ++ print_lines (codes "\n        ") (codes "VersionId") (listed e.version_id)
    ++ codes "\n    </Error>"
    ++ errors_xml rest

unfoldable pub result_reply : DeleteResult → Reply
unfolding deleted_xml errors_xml
result_reply result = record {
  status = 200;
  headers = (codes "content-type", codes "application/xml") ∷ [];
  body =
      codes "<?xml version=\"1.0\" encoding=\"UTF-8\"?>\n<DeleteResult>"
      ++ deleted_xml result.deleted
      ++ errors_xml result.errors
      ++ codes "\n</DeleteResult>";
}

-- The text of the error of `std::fs` by the path is a parameter.
module _ (lib : Library) (moment : Moment) (error_text : PathBuf → Text) where
  -- The quota and the counter, where no directory stands at the path any more.
  unfoldable pub account_deleted : Text → PathBuf → ℕ → ObjectState → ObjectState
  unfolding is_dir update_quota_remove with_quota increment_stat
  account_deleted bucket path size s =
      if is_dir s.files path
      then s
      else increment_stat lib moment bucket op_delete
          (with_quota (update_quota_remove bucket size) s)

  -- One object: the state behind it, and whether its deletion counts as done.
  unfoldable pub delete_one : Text → DeleteObject → ObjectState → ObjectState × Bool
  unfolding exists is_dir size_at remove_path remove_metadata object_path metadata_path
      account_deleted
  delete_one bucket o s =
      let path = object_path s.storage_path bucket o.key in
      if exists s.files path
      then elim (remove_path s.files path) [
        | none ↦ (s, is_dir s.files path)
        | some t ↦
            let u = remove_metadata t (metadata_path s.storage_path bucket o.key) in
            (account_deleted bucket path (size_at s.files path) (record s { files = u }), true)
      ]
      else (s, true)

  unfoldable pub record_result : PathBuf → DeleteObject → Bool → DeleteResult → DeleteResult
  unfolding as_deleted
  record_result path o true result = record result { deleted = result.deleted ++ as_deleted o ∷ [] }
  record_result path o false result =
      let failed : DeleteError = record {
        key = o.key;
        code = codes "InternalError";
        message = codes "Failed to delete object: " ++ error_text path;
        version_id = o.version_id;
      } in
      record result { errors = result.errors ++ failed ∷ [] }

  unfoldable pub delete_all :
      Text → List DeleteObject → ObjectState → DeleteResult → ObjectState × DeleteResult
  unfolding delete_one record_result object_path
  delete_all bucket [] s result = (s, result)
  delete_all bucket (o ∷ rest) s result =
      let (s', done) = delete_one bucket o s in
      delete_all bucket rest s'
        (record_result (object_path s.storage_path bucket o.key) o done result)

  -- A panic of the parser counts as an answer 500.
  unfoldable pub handle_bucket_post :
      Text → BucketQueryParams → Text → ObjectState → ObjectState × Reply
  unfolding parts parse_objects delete_all result_reply reply
  handle_bucket_post bucket params body s =
      if not params.delete
      then (s, reply 200)
      else elim (parse_objects (parts (codes "Object") body)) [
        | none ↦ (s, reply 500)
        | some objects ↦
            let (s', result) = delete_all bucket objects s (record { deleted = []; errors = [] }) in
            (s', result_reply result)
      ]

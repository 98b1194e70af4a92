-- ===== src/Object/Handlers.antt =====
-- `handle_object_get`, `handle_object_put`, `handle_object_post` and `handle_object_delete`, which
-- choose by the parameters of the query. The route of the third one is commented out.
use ironbucket.Base.{ℕ, Bool, true, Option, none, some, [], ◌∷◌, length, if◌then◌else◌}
use ironbucket.Base.Text.{Text, codes}
use ironbucket.Quota.{check_quota, op_get}
use ironbucket.Object.{Library, Moment, ℤ, ObjectState, HeaderMap, Reply, reply, old_version}
use ironbucket.Object.Fetch.{get_object}
use ironbucket.Object.Counting.{increment_stat, manager, managed}
use ironbucket.Object.Copy.{put_object}
use ironbucket.Object.Remove.{delete_object, delete_version}
use ironbucket.Object.Multipart.{
  initiate_upload, upload_part, complete_upload, abort_upload, list_parts,
}
use ironbucket.Object.Tagging.{put_tags, delete_tags, get_tags}
use ironbucket.Object.Versions.{list_versions}

-- Of `uploads`, `acl`, `versions` and `tagging` it only matters whether they are given.
pub record ObjectQueryParams : Type 0 where
  pub uploads : Bool
  pub upload_id : Option Text
  pub part_number : Option ℤ
  pub acl : Bool
  pub versions : Bool
  pub version_id : Option Text
  pub tagging : Bool

abbrev pub acl_xml : Text
acl_xml =
    codes
      "<?xml version=\"1.0\" encoding=\"UTF-8\"?>\n<AccessControlPolicy>\n    <Owner>\n        <ID>ironbucket</ID>\n        <DisplayName>IronBucket</DisplayName>\n    </Owner>\n    <AccessControlList>\n        <Grant>\n            <Grantee xmlns:xsi=\"http://www.w3.org/2001/XMLSchema-instance\" xsi:type=\"CanonicalUser\">\n                <ID>ironbucket</ID>\n                <DisplayName>IronBucket</DisplayName>\n            </Grantee>\n            <Permission>FULL_CONTROL</Permission>\n        </Grant>\n    </AccessControlList>\n</AccessControlPolicy>"

unfoldable pub status_reply : ObjectState × ℕ → ObjectState × Reply
unfolding reply
status_reply (s, status) = (s, reply status)

module _ (lib : Library) where
  unfoldable pub get_answer : Moment → Text → Text → ObjectQueryParams → ObjectState → Reply
  unfolding get_tags list_versions list_parts get_object
  get_answer moment bucket key params s =
      if params.acl
      then record {
        status = 200;
        headers = (codes "content-type", codes "application/xml") ∷ [];
        body = acl_xml;
      }
      else if params.tagging
      then get_tags lib bucket key s
      else if params.versions
      then list_versions lib moment bucket key s
      else elim params.upload_id [
        | some upload_id ↦ list_parts bucket key upload_id s
        | none ↦ get_object lib moment bucket key params.version_id s
      ]

  unfoldable pub handle_object_get :
      Moment → Text → Text → ObjectQueryParams → ObjectState → ObjectState × Reply
  unfolding increment_stat get_answer
  handle_object_get moment bucket key params s =
      let s' = increment_stat lib moment bucket op_get s in
      (s', get_answer moment bucket key params s')

  -- `check_quota`: whether the body fits, and the state with the quota in its cache. An error of
  -- the check lets the upload go on.
  unfoldable pub admit : Text → ℕ → ObjectState → ObjectState × Bool
  unfolding check_quota manager managed
  admit bucket size s =
      let (m, fits) = check_quota bucket size (manager s) in
      (managed s m, elim fits [ none ↦ true | some answer ↦ answer ])

  unfoldable pub put_answer :
      Moment
      → Text
      → Text
      → ObjectQueryParams
      → HeaderMap
      → Text
      → ObjectState
      → ObjectState × Reply
  unfolding upload_part put_object
  put_answer moment bucket key params headers body s = elim params.upload_id [
    | none ↦ put_object lib moment bucket key headers body s
    | some upload_id ↦ elim params.part_number [
      | none ↦ put_object lib moment bucket key headers body s
      | some part_number ↦ upload_part lib upload_id part_number body s
    ]
  ]

  unfoldable pub quota_exceeded : Reply
  quota_exceeded = record {
    status = 507;
    headers = (codes "x-amz-error-code", codes "QuotaExceeded") ∷ [];
    body = codes "Bucket quota exceeded";
  }

  unfoldable pub handle_object_put :
      Moment
      → Text
      → Text
      → ObjectQueryParams
      → HeaderMap
      → Text
      → ObjectState
      → ObjectState × Reply
  unfolding admit put_tags put_answer reply quota_exceeded
  handle_object_put moment bucket key params headers body s =
      if params.acl
      then (s, reply 200)
      else if params.tagging
      then put_tags lib bucket key body s
      else let admitted = admit bucket (length body) s in
        if admitted.1
        then put_answer moment bucket key params headers body admitted.0
        else (admitted.0, quota_exceeded)

  unfoldable pub handle_object_post :
      Moment → Text → Text → ObjectQueryParams → ObjectState → ObjectState × Reply
  unfolding initiate_upload complete_upload reply
  handle_object_post moment bucket key params s =
      if params.uploads then initiate_upload lib moment bucket key s else elim params.upload_id [
        | none ↦ (s, reply 405)
        | some upload_id ↦ complete_upload lib moment bucket key upload_id s
      ]

  -- Without the tags: an upload to abort, an old version, or the object.
  unfoldable pub delete_answer :
      Moment → Text → Text → ObjectQueryParams → ObjectState → ObjectState × ℕ
  unfolding abort_upload old_version delete_version delete_object
  delete_answer moment bucket key params s = elim params.upload_id [
    | some upload_id ↦ abort_upload upload_id s
    | none ↦ elim (old_version params.version_id) [
      | some version_id ↦ delete_version bucket key version_id s
      | none ↦ delete_object lib moment bucket key s
    ]
  ]

  unfoldable pub handle_object_delete :
      Moment → Text → Text → ObjectQueryParams → ObjectState → ObjectState × Reply
  unfolding delete_tags delete_answer status_reply
  handle_object_delete moment bucket key params s =
      if params.tagging
      then delete_tags lib bucket key s
      else status_reply (delete_answer moment bucket key params s)

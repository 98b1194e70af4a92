-- ===== src/Bucket/Show.antt =====
-- `handle_bucket_get` of src/handlers/bucket.rs: the configurations of a bucket, its quota and its
-- statistics, the uploads in progress, and the list of its objects.
pub mod Shown
pub mod Encrypted
use ironbucket.Base.{
  ℕ, Bool, true, false, not, Option, none, some, List, [], ◌∷◌, ◌++◌, if◌then◌else◌,
}
use ironbucket.Base.Text.{Text, codes, text_eq}
use ironbucket.Base.Number.{show}
use ironbucket.Base.Assoc.{Assoc}
use ironbucket.Filesystem.{
  bucket_exists, read_bucket_versioning, read_bucket_policy, read_bucket_encryption,
  read_bucket_cors, read_bucket_lifecycle,
}
use ironbucket.Quota.{QuotaManager, BucketQuota, BucketStats, add_u64, get_quota}
use ironbucket.Object.{Library, Moment, ObjectState, MultipartUpload, Reply, reply, storage_entries}
use ironbucket.Object.Counting.{stats_or_zero, manager, managed, get_stats}
use ironbucket.Bucket.{BucketQueryParams}
use ironbucket.Bucket.Cors.{cors_xml}
use ironbucket.Bucket.Encryption.{encryption_xml}
use ironbucket.Bucket.Expiry.{lifecycle_xml, text_or}
use ironbucket.Bucket.Update.{Codec}
use ironbucket.Bucket.Contents.{number_or, list_objects_impl}

abbrev pub xml_headers : Assoc Text
xml_headers = (codes "content-type", codes "application/xml") ∷ []

unfoldable pub xml_reply : Text → Reply
xml_reply body = record { status = 200; headers = xml_headers; body = body }

unfoldable pub json_reply : Assoc Text → Text → Reply
json_reply more body = record {
  status = 200;
  headers = (codes "content-type", codes "application/json") ∷ more;
  body = body;
}

unfoldable pub not_found : Text → Text → Reply
not_found code message = record {
  status = 404;
  headers = xml_headers;
  body =
      codes "<?xml version=\"1.0\" encoding=\"UTF-8\"?>\n<Error>\n    <Code>"
      ++ code
      ++ codes "</Code>\n    <Message>"
      ++ message
      ++ codes "</Message>\n</Error>";
}

abbrev pub location_xml : Text
location_xml =
    codes
      "<?xml version=\"1.0\" encoding=\"UTF-8\"?>\n<LocationConstraint xmlns=\"http://s3.amazonaws.com/doc/2006-03-01/\">us-east-1</LocationConstraint>"

abbrev pub bucket_acl_xml : Text
bucket_acl_xml =
    codes
      "<?xml version=\"1.0\" encoding=\"UTF-8\"?>\n<AccessControlPolicy>\n    <Owner>\n        <ID>ironbucket</ID>\n        <DisplayName>IronBucket</DisplayName>\n    </Owner>\n    <AccessControlList>\n        <Grant>\n            <Grantee xmlns:xsi=\"http://www.w3.org/2001/XMLSchema-instance\" xsi:type=\"CanonicalUser\">\n                <ID>ironbucket</ID>\n                <DisplayName>IronBucket</DisplayName>\n            </Grantee>\n            <Permission>FULL_CONTROL</Permission>\n        </Grant>\n    </AccessControlList>\n</AccessControlPolicy>"

unfoldable pub versioning_reply : Option Text → Reply
unfolding xml_reply reply
versioning_reply none = reply 200
versioning_reply (some status) = xml_reply (
    codes
      "<?xml version=\"1.0\" encoding=\"UTF-8\"?>\n<VersioningConfiguration xmlns=\"http://s3.amazonaws.com/doc/2006-03-01/\">\n    <Status>"
    ++ status
    ++ codes "</Status>\n</VersioningConfiguration>")

unfoldable pub policy_reply : Option Text → Reply
unfolding json_reply not_found
policy_reply (some policy) = json_reply [] policy
policy_reply none =
    not_found (codes "NoSuchBucketPolicy") (codes "The bucket policy does not exist")

-- A configuration as XML, or the error that there is none.
unfoldable pub config_reply {ℓ} : {C : Type ℓ} → (C → Text) → Text → Text → Option C → Reply
unfolding xml_reply not_found
config_reply print code message none = not_found code message
config_reply print code message (some config) = xml_reply (print config)

-- The sum of the counts, in `u64`.
unfoldable pub total_operations : BucketStats → ℕ
unfolding add_u64
total_operations stats =
    add_u64
      (add_u64
        (add_u64 (add_u64 (add_u64 stats.get_count stats.put_count) stats.delete_count)
          stats.list_count)
        stats.head_count)
      stats.multipart_count

-- The uploads into the bucket, in the order of the map.
unfoldable pub uploads_xml : Library → Text → Assoc MultipartUpload → Text
unfolding text_eq
uploads_xml lib bucket [] = []
uploads_xml lib bucket ((upload_id, upload) ∷ rest) =
    let later = uploads_xml lib bucket rest in
    if text_eq upload.bucket bucket
    then codes "\n    <Upload>\n        <Key>"
      ++ upload.key
      ++ codes "</Key>\n        <UploadId>"
      ++ upload_id
      ++ codes "</UploadId>\n        <Initiated>"
      ++ lib.to_rfc3339 upload.initiated
      ++ codes "</Initiated>\n    </Upload>"
      ++ later
    else later

unfoldable pub uploads_reply : Library → Text → Assoc MultipartUpload → Reply
unfolding uploads_xml xml_reply
uploads_reply lib bucket uploads = xml_reply (
    codes "<?xml version=\"1.0\" encoding=\"UTF-8\"?>\n<ListMultipartUploadsResult>\n    <Bucket>"
    ++ bucket
    ++ codes "</Bucket>\n    <MaxUploads>1000</MaxUploads>\n    <IsTruncated>false</IsTruncated>"
    ++ uploads_xml lib bucket uploads
    ++ codes "\n</ListMultipartUploadsResult>")

-- The list of versions, which is empty for every bucket.
unfoldable pub bucket_versions_reply : Text → BucketQueryParams → Reply
unfolding xml_reply text_or number_or show
bucket_versions_reply bucket params = xml_reply (
    codes
      "<?xml version=\"1.0\" encoding=\"UTF-8\"?>\n<ListVersionsResult xmlns=\"http://s3.amazonaws.com/doc/2006-03-01/\">\n    <Name>"
    ++ bucket
    ++ codes "</Name>\n    <Prefix>"
    ++ text_or [] params.prefix
    ++ codes "</Prefix>\n    <MaxKeys>"
    ++ show (number_or 1000 params.max_keys)
    ++ codes "</MaxKeys>\n    <IsTruncated>false</IsTruncated>"
    ++ codes "\n</ListVersionsResult>")

-- The JSON of a quota, and of a bucket's statistics by bucket, month, counts and their sum, printed
-- by `serde_json`, are parameters.
module _ (lib : Library) (moment : Moment) (codec : Codec) (quota_json : BucketQuota → Text)
    (stats_json : Text → Text → BucketStats → ℕ → Text) where
  -- The quota may be loaded into the cache, and its file made.
  unfoldable pub quota_reply : Text → ObjectState → ObjectState × Reply
  unfolding manager managed get_quota json_reply show
  quota_reply bucket s =
      let (m, found) = get_quota bucket (manager s) in
      (
        managed s m,
        elim found [
          | none ↦ record {
            status = 500;
            headers = [];
            body = codes "Failed to retrieve quota information";
          }
          | some quota ↦
              json_reply
                ((codes "x-amz-bucket-quota", show quota.max_size_bytes)
                  ∷ (codes "x-amz-bucket-usage", show quota.current_usage_bytes)
                  ∷ [])
                (quota_json quota)
        ],
      )

  unfoldable pub stats_reply : Text → Option Text → ObjectState → Reply
  unfolding get_stats stats_or_zero total_operations text_or json_reply
  stats_reply bucket month s =
      let stats = stats_or_zero (get_stats lib moment bucket month s) in
      json_reply []
        (stats_json bucket (text_or (codes "current") month) stats (total_operations stats))

  unfoldable pub handle_bucket_get : Text → BucketQueryParams → ObjectState → ObjectState × Reply
  unfolding bucket_exists storage_entries versioning_reply policy_reply config_reply quota_reply
      stats_reply uploads_reply bucket_versions_reply list_objects_impl xml_reply reply
  handle_bucket_get bucket params s =
      let storage = storage_entries s.files s.storage_path in
      if not (bucket_exists storage bucket)
      then (s, reply 404)
      else if params.location
      then (s, xml_reply location_xml)
      else if params.versioning
      then (s, versioning_reply (read_bucket_versioning storage bucket))
      else if params.acl
      then (s, xml_reply bucket_acl_xml)
      else if params.policy
      then (s, policy_reply (read_bucket_policy storage bucket))
      else if params.encryption
      then (
        s,
        config_reply encryption_xml (codes "ServerSideEncryptionConfigurationNotFoundError")
            (codes "The server side encryption configuration was not found")
            (read_bucket_encryption codec.encryption_from_str storage bucket),
      )
      else if params.cors
      then (
        s,
        config_reply cors_xml (codes "NoSuchCORSConfiguration")
            (codes "The CORS configuration does not exist")
            (read_bucket_cors codec.cors_from_str storage bucket),
      )
      else if params.lifecycle
      then (
        s,
        config_reply lifecycle_xml (codes "NoSuchLifecycleConfiguration")
            (codes "The lifecycle configuration does not exist")
            (read_bucket_lifecycle codec.lifecycle_from_str storage bucket),
      )
      else if params.quota
      then quota_reply bucket s
      else if params.stats
      then (s, stats_reply bucket params.month s)
      else if params.uploads
      then (s, uploads_reply lib bucket s.multipart_uploads)
      else if params.versions
      then (s, bucket_versions_reply bucket params)
      else list_objects_impl lib moment bucket params.prefix params.delimiter
          params.continuation_token params.max_keys s

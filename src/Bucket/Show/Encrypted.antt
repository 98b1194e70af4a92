-- ===== src/Bucket/Show/Encrypted.antt =====
-- An encryption that is set is the one that is shown.
use ironbucket.Base.{◌≡◌, refl, sym, ap, ◌∙◌, subst, ℕ, true, false, some, []}
use ironbucket.Base.Text.{Text, codes}
use ironbucket.Disk.{dir, Entries, child, dir_at}
use ironbucket.Filesystem.{
  bucket_exists, read_bucket_json, read_bucket_encryption, write_bucket_encryption,
}
use ironbucket.Wal.{WalOp, update_metadata, log_op}
use ironbucket.Quota.{BucketQuota, BucketStats}
use ironbucket.Object.{Library, Moment, ObjectState, storage_entries}
use ironbucket.Bucket.{AppState, BucketQueryParams, Response, log}
use ironbucket.Bucket.Encryption.{BucketEncryption, parse_encryption, bad_algorithm, encryption_xml}
use ironbucket.Bucket.Encryption.Printed.{PlainEncryption, parse_encryption-encryption_xml}
use ironbucket.Bucket.Update.{Codec, respond, store, put_encryption, handle_bucket_put}
use ironbucket.Bucket.Update.Stored.{store-write_bucket_json}
use ironbucket.Bucket.Show.{xml_reply, config_reply, handle_bucket_get}

-- The request is about the encryption of the bucket, whether it sets it or asks for it.
pub record AboutEncryption (params : BucketQueryParams) : Type 0 where
  pub encryption : params.encryption ≡ true
  pub no_location : params.location ≡ false
  pub no_versioning : params.versioning ≡ false
  pub no_acl : params.acl ≡ false
  pub no_policy : params.policy ≡ false

-- The operation that is logged.
abbrev pub changed : Codec → Text → BucketEncryption → WalOp
changed codec bucket e = update_metadata bucket (codes "encryption") (codec.encryption_to_string e)

module _ (lib : Library) (moment : Moment) (codec : Codec) (quota_json : BucketQuota → Text)
    (stats_json : Text → Text → BucketStats → ℕ → Text) (metadata bucket json : Text) (es : Entries)
    (params : BucketQueryParams) where
  get_encryption :
      (e : BucketEncryption) (s : ObjectState)
      → AboutEncryption params
      → bucket_exists (storage_entries s.files s.storage_path) bucket ≡ true
      → read_bucket_json codec.encryption_from_str
          (codes ".encryption")
          (storage_entries s.files s.storage_path)
          bucket
        ≡ some e
      → (handle_bucket_get lib moment codec quota_json stats_json bucket params s).1
        ≡ xml_reply (encryption_xml e)
  unfolding handle_bucket_get config_reply read_bucket_encryption
  get_encryption e s about x r =
      rw
        (
          handle_bucket_get, x, about.no_location, about.no_versioning, about.no_acl,
          about.no_policy, about.encryption, r,
        )
        refl

  put_encryption-params :
      (body : Text) (e : BucketEncryption) (state : AppState)
      → AboutEncryption params
      → parse_encryption body ≡ some e
      → bad_algorithm e.algorithm ≡ false
      → handle_bucket_put codec metadata bucket params body state
        ≡ store bucket
            (λ storage. write_bucket_encryption codec.encryption_to_string_pretty storage bucket e)
            (some (changed codec bucket e))
            state
  unfolding handle_bucket_put put_encryption
  put_encryption-params body e state about f g =
      rw
        (
          handle_bucket_put, put_encryption, about.no_versioning, about.no_policy, about.encryption,
          f, g,
        )
        refl

  -- For an encryption by AES256 or aws:kms whose key has no angle bracket that opens, where JSON reads
  -- back what it printed, and for a bucket that is a directory in which no directory is called
  -- `.encryption`: a request that sets it by the XML that shows it answers 200 and logs the change,
  -- and a request for it on the storage directory that is left answers with that XML.
  pub get_encryption-put_encryption :
      (e : BucketEncryption) (state : AppState) (s : ObjectState)
      → AboutEncryption params
      → PlainEncryption e
      → bad_algorithm e.algorithm ≡ false
      → codec.encryption_to_string_pretty e ≡ some json
      → codec.encryption_from_str json ≡ some e
      → child bucket state.storage ≡ some (dir es)
      → dir_at (codes ".encryption") es ≡ false
      → storage_entries s.files s.storage_path
        ≡ (handle_bucket_put codec metadata bucket params (encryption_xml e) state).0.storage
      → ((handle_bucket_put codec metadata bucket params (encryption_xml e) state).1
          ≡ respond 200 [])
        × ((handle_bucket_put codec metadata bucket params (encryption_xml e) state).0.wal
            ≡ log_op (changed codec bucket e) state.wal)
        × ((handle_bucket_get lib moment codec quota_json stats_json bucket params s).1
            ≡ xml_reply (encryption_xml e))
  unfolding write_bucket_encryption log
  get_encryption-put_encryption e state s about plain_e good p f h d same =
      let (t, stored, x, r) =
        store-write_bucket_json codec.encryption_to_string_pretty codec.encryption_from_str
          (codes ".encryption") bucket e json es (some (changed codec bucket e)) state p f h d in
      let put =
        put_encryption-params (encryption_xml e) e state about
          (parse_encryption-encryption_xml e plain_e) good
        ∙ stored in
      let now : storage_entries s.files s.storage_path ≡ t =
        same ∙ ap (λ (o : AppState × Response). o.0.storage) put in
      (
        ap (λ (o : AppState × Response). o.1) put,
        ap (λ (o : AppState × Response). o.0.wal) put,
        get_encryption e s about (subst (λ u. bucket_exists u bucket ≡ true) (sym now) x) (
            subst
              (λ u.
                read_bucket_json codec.encryption_from_str (codes ".encryption") u bucket ≡ some e)
              (sym now) r),
      )

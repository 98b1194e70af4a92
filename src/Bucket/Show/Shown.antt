-- ===== src/Bucket/Show/Shown.antt =====
-- A configuration that is set is the one that is shown.
use ironbucket.Base.{
  ◌≡◌, refl, sym, ap, ◌∙◌, subst, ℕ, true, false, none, some, List, [], All, is_empty,
}
use ironbucket.Base.Text.{Text, codes}
use ironbucket.Disk.{dir, Entries, child, dir_at}
use ironbucket.Filesystem.{bucket_exists, read_bucket_json, read_bucket_cors, write_bucket_cors}
use ironbucket.Quota.{BucketQuota, BucketStats}
use ironbucket.Object.{Library, Moment, ObjectState, storage_entries}
use ironbucket.Bucket.{AppState, BucketQueryParams, Response}
use ironbucket.Bucket.Cors.{CorsRule, parse_cors, cors_xml}
use ironbucket.Bucket.Cors.Printed.{IsRule, parse_cors-cors_xml}
use ironbucket.Bucket.Update.{Codec, respond, store, put_cors, handle_bucket_put}
use ironbucket.Bucket.Update.Stored.{store-write_bucket_json}
use ironbucket.Bucket.Show.{xml_reply, config_reply, handle_bucket_get}

-- The request is about the CORS configuration, whether it sets it or asks for it.
pub record AboutCors (params : BucketQueryParams) : Type 0 where
  pub cors : params.cors ≡ true
  pub no_location : params.location ≡ false
  pub no_versioning : params.versioning ≡ false
  pub no_acl : params.acl ≡ false
  pub no_policy : params.policy ≡ false
  pub no_encryption : params.encryption ≡ false

module _ (lib : Library) (moment : Moment) (codec : Codec) (quota_json : BucketQuota → Text)
    (stats_json : Text → Text → BucketStats → ℕ → Text) (metadata bucket json : Text) (es : Entries)
    (params : BucketQueryParams) where
  get_cors :
      (rules : List CorsRule) (s : ObjectState)
      → AboutCors params
      → bucket_exists (storage_entries s.files s.storage_path) bucket ≡ true
      → read_bucket_json codec.cors_from_str
          (codes ".cors")
          (storage_entries s.files s.storage_path)
          bucket
        ≡ some rules
      → (handle_bucket_get lib moment codec quota_json stats_json bucket params s).1
        ≡ xml_reply (cors_xml rules)
  unfolding handle_bucket_get config_reply read_bucket_cors
  get_cors rules s about x r =
      rw
        (
          handle_bucket_get, x, about.no_location, about.no_versioning, about.no_acl,
          about.no_policy, about.no_encryption, about.cors, r,
        )
        refl

  put_cors-parsed :
      (body : Text) (rules : List CorsRule) (state : AppState)
      → parse_cors body ≡ some rules
      → is_empty rules ≡ false
      → put_cors codec bucket body state
        ≡ store bucket
            (λ storage. write_bucket_cors codec.cors_to_string_pretty storage bucket rules)
            none
            state
  unfolding put_cors
  put_cors-parsed body rules state e n = rw (put_cors, e, n) refl

  put_cors-params :
      (body : Text) (state : AppState)
      → AboutCors params
      → handle_bucket_put codec metadata bucket params body state ≡ put_cors codec bucket body state
  unfolding handle_bucket_put
  put_cors-params body state about =
      rw (handle_bucket_put, about.no_versioning, about.no_policy, about.no_encryption, about.cors)
        refl

  -- For CORS rules that have an origin and a method, no empty list of headers, an age of 32 bits and no
  -- angle bracket that opens in a text, at least one, where JSON reads back what it printed, and for a
  -- bucket that is a directory in which no directory is called `.cors`: a request that sets the rules
  -- by the XML that shows them answers 200 and leaves the log writer as it is, and a request for them
  -- on the storage directory that is left answers with that XML.
  pub get_cors-put_cors :
      (rules : List CorsRule) (state : AppState) (s : ObjectState)
      → AboutCors params
      → All IsRule rules
      → is_empty rules ≡ false
      → codec.cors_to_string_pretty rules ≡ some json
      → codec.cors_from_str json ≡ some rules
      → child bucket state.storage ≡ some (dir es)
      → dir_at (codes ".cors") es ≡ false
      → storage_entries s.files s.storage_path
        ≡ (handle_bucket_put codec metadata bucket params (cors_xml rules) state).0.storage
      → ((handle_bucket_put codec metadata bucket params (cors_xml rules) state).1 ≡ respond 200 [])
        × ((handle_bucket_put codec metadata bucket params (cors_xml rules) state).0.wal
            ≡ state.wal)
        × ((handle_bucket_get lib moment codec quota_json stats_json bucket params s).1
            ≡ xml_reply (cors_xml rules))
  unfolding write_bucket_cors
  get_cors-put_cors rules state s about good some_rule p f h d same =
      let (t, stored, x, r) =
        store-write_bucket_json codec.cors_to_string_pretty codec.cors_from_str (codes ".cors")
          bucket rules json es none state p f h d in
      let put =
        put_cors-params (cors_xml rules) state about
        ∙ put_cors-parsed (cors_xml rules) rules state (parse_cors-cors_xml rules good) some_rule
        ∙ stored in
      let now : storage_entries s.files s.storage_path ≡ t =
        same ∙ ap (λ (o : AppState × Response). o.0.storage) put in
      (
        ap (λ (o : AppState × Response). o.1) put,
        ap (λ (o : AppState × Response). o.0.wal) put,
        get_cors rules s about (subst (λ u. bucket_exists u bucket ≡ true) (sym now) x) (
            subst (λ u. read_bucket_json codec.cors_from_str (codes ".cors") u bucket ≡ some rules)
              (sym now) r),
      )

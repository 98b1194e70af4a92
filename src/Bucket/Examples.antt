-- ===== src/Bucket/Examples.antt =====
-- The handlers of a bucket with its parameters, on a small storage directory.
use ironbucket.Base.{◌≡◌, refl, true, false, none, some, List, [], ◌∷◌, All, arith}
use ironbucket.Base.Text.{Text, codes, text_eq, Lacks-test}
use ironbucket.Disk.{dir, Entries, nil, entry, child, dir_at}
use ironbucket.Wal.{WalWriter, log_op}
use ironbucket.Xml.{element, parts}
use ironbucket.Object.{ObjectState, storage_entries}
use ironbucket.Object.Sample.{lib, moment}
use ironbucket.Object.Sample.{state as stored_state}
use ironbucket.Bucket.{AppState, BucketQueryParams}
use ironbucket.Bucket.Cors.{CorsRule, cors_xml}
use ironbucket.Bucket.Cors.Printed.{IsRule}
use ironbucket.Bucket.Encryption.{BucketEncryption, bad_algorithm, encryption_xml}
use ironbucket.Bucket.Update.{Codec, respond, handle_bucket_put}
use ironbucket.Bucket.Show.{xml_reply, handle_bucket_get}
use ironbucket.Bucket.Show.Shown.{get_cors-put_cors}
use ironbucket.Bucket.Show.Encrypted.{changed, get_encryption-put_encryption}
use ironbucket.Bucket.Batch.{DeleteObject, parse_objects, handle_bucket_post}
use ironbucket.Bucket.Batch.Gone.{Missing, handle_bucket_post-get_object}

abbrev no_params : BucketQueryParams
no_params = record {
  location = false;
  versioning = false;
  versions = false;
  acl = false;
  policy = false;
  encryption = false;
  cors = false;
  lifecycle = false;
  uploads = false;
  delete = false;
  quota = false;
  stats = false;
  month = none;
  max_keys = none;
  prefix = none;
  continuation_token = none;
  delimiter = none;
}

abbrev cors_params : BucketQueryParams
cors_params = record no_params { cors = true }

abbrev encryption_params : BucketQueryParams
encryption_params = record no_params { encryption = true }

abbrev delete_params : BucketQueryParams
delete_params = record no_params { delete = true }

abbrev get_rule : CorsRule
get_rule = record {
  id = some (codes "r");
  allowed_origins = codes "*" ∷ [];
  allowed_methods = codes "GET" ∷ codes "PUT" ∷ [];
  allowed_headers = none;
  expose_headers = some (codes "ETag" ∷ []);
  max_age_seconds = some 60;
}

abbrev by_kms : BucketEncryption
by_kms = record { algorithm = codes "aws:kms"; kms_key_id = some (codes "k1") }

abbrev codec : Codec
codec = record {
  is_json = λ text. true;
  encryption_to_string = λ e. codes "E";
  encryption_to_string_pretty = λ e. some (codes "E");
  encryption_from_str = λ text. some by_kms;
  cors_to_string_pretty = λ rules. some (codes "C");
  cors_from_str = λ text. some (get_rule ∷ []);
  lifecycle_to_string_pretty = λ rules. none;
  lifecycle_from_str = λ text. none;
}

abbrev wal : WalWriter
wal = record {
  enabled = true;
  node_id = codes "n1";
  queue = [];
  batch = [];
  sequence = 1;
  file = [];
  state_file = none;
}

abbrev before : AppState
before = record { storage = entry (codes "b") (dir nil) nil; wal = wal }

-- The state of the objects over what a request leaves on disk.
abbrev over : Entries → ObjectState
over storage = record stored_state { files = some (dir (entry (codes "s3") (dir storage) nil)) }

over-storage_entries :
    (storage : Entries) → storage_entries (over storage).files (over storage).storage_path ≡ storage
unfolding storage_entries text_eq
over-storage_entries storage = refl

get_rule-IsRule : IsRule get_rule
get_rule-IsRule = record {
  plain_id = (Lacks-test 60 (codes "r") refl, tt);
  plain_origins = (Lacks-test 60 (codes "*") refl, tt);
  plain_methods = (Lacks-test 60 (codes "GET") refl, (Lacks-test 60 (codes "PUT") refl, tt));
  plain_allowed = tt;
  plain_exposed = (Lacks-test 60 (codes "ETag") refl, tt);
  some_origin = refl;
  some_method = refl;
  some_allowed = refl;
  some_exposed = refl;
  small_age = (omega arith, tt);
}

b_there : child (codes "b") before.storage ≡ some (dir nil)
unfolding child text_eq
b_there = refl

nothing_below : (name : Text) → dir_at name nil ≡ false
unfolding dir_at
nothing_below name = refl

abbrev after_cors : ObjectState
after_cors =
    over
      (handle_bucket_put codec [] (codes "b") cors_params (cors_xml (get_rule ∷ []))
        before).0.storage

get_cors-put_cors_example :
    ((handle_bucket_put codec [] (codes "b") cors_params (cors_xml (get_rule ∷ [])) before).1
      ≡ respond 200 [])
    × ((handle_bucket_put codec [] (codes "b") cors_params (cors_xml (get_rule ∷ [])) before).0.wal
        ≡ before.wal)
    × ((handle_bucket_get lib moment codec
          (λ quota. [])
          (λ bucket month stats total. [])
          (codes "b")
          cors_params
          after_cors).1
        ≡ xml_reply (cors_xml (get_rule ∷ [])))
get_cors-put_cors_example =
    get_cors-put_cors lib moment codec (λ quota. []) (λ bucket month stats total. []) [] (codes "b")
      (codes "C") nil cors_params (get_rule ∷ []) before after_cors
      (record {
        cors = refl;
        no_location = refl;
        no_versioning = refl;
        no_acl = refl;
        no_policy = refl;
        no_encryption = refl;
      })
      (get_rule-IsRule, tt) refl refl refl b_there (nothing_below (codes ".cors"))
      (over-storage_entries
        (handle_bucket_put codec [] (codes "b") cors_params (cors_xml (get_rule ∷ []))
          before).0.storage)

by_kms-good : bad_algorithm by_kms.algorithm ≡ false
unfolding bad_algorithm text_eq
by_kms-good = refl

abbrev after_encryption : ObjectState
after_encryption =
    over
      (handle_bucket_put codec [] (codes "b") encryption_params (encryption_xml by_kms)
        before).0.storage

get_encryption-put_encryption_example :
    ((handle_bucket_put codec [] (codes "b") encryption_params (encryption_xml by_kms) before).1
      ≡ respond 200 [])
    × ((handle_bucket_put codec []
          (codes "b")
          encryption_params
          (encryption_xml by_kms)
          before).0.wal
        ≡ log_op (changed codec (codes "b") by_kms) before.wal)
    × ((handle_bucket_get lib moment codec
          (λ quota. [])
          (λ bucket month stats total. [])
          (codes "b")
          encryption_params
          after_encryption).1
        ≡ xml_reply (encryption_xml by_kms))
get_encryption-put_encryption_example =
    get_encryption-put_encryption lib moment codec (λ quota. []) (λ bucket month stats total. []) []
      (codes "b") (codes "E") nil encryption_params by_kms before after_encryption
      (record {
        encryption = refl;
        no_location = refl;
        no_versioning = refl;
        no_acl = refl;
        no_policy = refl;
      })
      (Lacks-test 60 (codes "aws:kms") refl, (Lacks-test 60 (codes "k1") refl, tt)) by_kms-good refl
      refl b_there (nothing_below (codes ".encryption"))
      (over-storage_entries
        (handle_bucket_put codec [] (codes "b") encryption_params (encryption_xml by_kms)
          before).0.storage)

abbrev batch_body : Text
batch_body = codes "<Delete><Object><Key>k</Key></Object><Object><Key>d/</Key></Object></Delete>"

abbrev two_objects : List DeleteObject
two_objects =
    record { key = codes "k"; version_id = none }
    ∷ record { key = codes "d/"; version_id = none }
    ∷ []

batch_body_parsed : parse_objects (parts (codes "Object") batch_body) ≡ some two_objects
unfolding parse_objects parts element
batch_body_parsed = refl

handle_bucket_post-get_object_example :
    All
      (Missing lib moment
        (λ path. [])
        (codes "b")
        moment
        stored_state
        (handle_bucket_post lib moment
          (λ path. [])
          (codes "b")
          delete_params
          batch_body
          stored_state).0)
      two_objects
    × ((handle_bucket_post lib moment
          (λ path. [])
          (codes "b")
          delete_params
          batch_body
          stored_state).0.wal_writer
        ≡ stored_state.wal_writer)
handle_bucket_post-get_object_example =
    handle_bucket_post-get_object lib moment (λ path. []) (codes "b") moment delete_params
      batch_body two_objects stored_state refl batch_body_parsed

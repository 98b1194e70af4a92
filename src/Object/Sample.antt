-- ===== src/Object/Sample.antt =====
-- A small storage directory with a bucket whose objects are encrypted, and concrete functions for the
-- parameters of the handlers.
use ironbucket.Base.{false, none, some, [], ◌∷◌, ◌++◌, length, drop}
use ironbucket.Base.Text.{codes}
use ironbucket.Disk.{file, dir, nil, entry}
use ironbucket.Wal.{WalWriter}
use ironbucket.Quota.{QuotaManager}
use ironbucket.Object.{Library, Moment, ObjectState, ObjectMetadata}

abbrev stored : ObjectMetadata
stored = record {
  key = codes "k";
  size = 4;
  etag = codes "e";
  last_modified = 7;
  content_type = codes "application/octet-stream";
  storage_class = codes "STANDARD";
  metadata = [];
  version_id = none;
  encryption =
      some
        (record { algorithm = codes "AES256"; key_base64 = codes "x"; nonce_base64 = codes "n" });
  tags = none;
}

abbrev pub lib : Library
lib = record {
  md5 = λ content. codes "e";
  encrypt = λ key nonce plain. some (key ++ plain);
  decrypt = λ key nonce ciphertext. some (drop (length key) ciphertext);
  base64_encode = λ text. text;
  base64_decode = λ text. some text;
  url_decode = λ text. some text;
  metadata_to_string = λ m. some (codes "M");
  metadata_from_str = λ json. some stored;
  algorithm_from_str = λ json. some json;
  stats_from_str = λ json. none;
  format_http_date = λ n. [];
  to_rfc3339 = λ n. [];
  upload_to_string = λ upload_id bucket key initiated content_type. codes "U";
  part_to_string = λ n etag size. codes "P";
  content_type_from_str = λ json. none;
}

abbrev pub moment : Moment
moment = record {
  now = 7;
  stats_file = codes "m";
  uuid = codes "v";
  encryption_key = codes "x";
  nonce = codes "n";
  directory_len = 4096;
  modified = λ path. 7;
}

abbrev pub wal : WalWriter
wal = record {
  enabled = false;
  node_id = codes "n1";
  queue = [];
  batch = [];
  sequence = 1;
  file = [];
  state_file = none;
}

abbrev pub quotas : QuotaManager
quotas = record {
  quota_cache = [];
  enabled = false;
  storage_path = codes "s3" ∷ [];
  files = none;
  codec = record { to_string_pretty = λ quota. some (codes "Q"); from_str = λ json. none };
}

abbrev pub state : ObjectState
state = record {
  files = some (
      dir (
        entry (codes "s3")
          (dir
            (entry (codes "b") (dir (entry (codes ".encryption") (file (codes "AES256")) nil)) nil))
          nil));
  storage_path = codes "s3" ∷ [];
  wal_writer = wal;
  quota_manager = quotas;
  stats_cache = [];
  multipart_uploads = [];
}

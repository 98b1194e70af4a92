-- ===== src/Quota.antt =====
-- src/quota.rs: the quota and the operation counters of each bucket, kept in caches and flushed to
-- files. Counters are `u64`. The time stamps and the environment are left out.
pub mod Accounting
pub mod Counters
pub mod Touched
mod Tests
use ironbucket.Base.{
  ℕ, zero, suc, ◌+◌, ◌-◌, ◌*◌, ◌%◌, ◌^◌, Bool, true, false, not, ◌&&◌, Option, none, some, List, [],
  ◌∷◌, length, leb, if◌then◌else◌,
}
use ironbucket.Base.Text.{Text, codes, starts_with, ends_with}
use ironbucket.Base.Number.{u64_max}
use ironbucket.Base.Assoc.{Assoc, lookup, insert}
use ironbucket.Disk.{Node, file, dir, Entries, nil, entry}
use ironbucket.Paths.{Tree, PathBuf, join, at_path, exists, read, write}
use ironbucket.Paths.Outcomes.{Outcome, and_then, or_fail, rename, with_extension}

pub record BucketQuota : Type 0 where
  pub max_size_bytes : ℕ
  pub current_usage_bytes : ℕ
  pub object_count : ℕ

pub record BucketQuotaCache : Type 0 where
  pub quota : BucketQuota
  pub dirty : Bool

pub data Operation : Type 0 where
  op_get op_put op_delete op_list op_head op_multipart : Operation

pub record BucketStats : Type 0 where
  pub get_count : ℕ
  pub put_count : ℕ
  pub delete_count : ℕ
  pub list_count : ℕ
  pub head_count : ℕ
  pub multipart_count : ℕ

abbrev pub default_quota_bytes : ℕ
default_quota_bytes = 5 * 1024 * 1024 * 1024

-- Additions on `u64` in a release build, and `saturating_sub`.
unfoldable pub add_u64 : ℕ → ℕ → ℕ
add_u64 a b = (a + b) % 2 ^ 64

-- `serde_json` for a quota, whose `last_updated` nothing reads.
pub record QuotaCodec : Type 0 where
  pub to_string_pretty : BucketQuota → Option Text
  pub from_str : Text → Option BucketQuota

-- The manager, with the tree in which its storage directory stands.
pub record QuotaManager : Type 0 where
  pub quota_cache : Assoc BucketQuotaCache
  pub enabled : Bool
  pub storage_path : PathBuf
  pub files : Tree
  pub codec : QuotaCodec

-- A file that counts: neither hidden nor metadata. Its directories may be hidden.
unfoldable pub counts : Text → Bool
unfolding starts_with ends_with
counts name = not (starts_with name (codes ".")) && not (ends_with name (codes ".metadata"))

-- The walk over the tree with the sum of the sizes and the number of files.
unfoldable mutual
  unfolding counts add_u64

  pub scan_node : Text → Node → ℕ × ℕ → ℕ × ℕ
  scan_node name (file contents) (total_size, object_count) =
      if counts name
      then (add_u64 total_size (length contents), add_u64 object_count 1)
      else (total_size, object_count)
  scan_node name (dir es) acc = scan es acc

  pub scan : Entries → ℕ × ℕ → ℕ × ℕ
  scan nil acc = acc
  scan (entry name node rest) acc = scan rest (scan_node name node acc)

unfoldable pub quota_of : ℕ × ℕ → BucketQuota
quota_of (total_size, object_count) = record {
  max_size_bytes = default_quota_bytes;
  current_usage_bytes = total_size;
  object_count = object_count;
}

-- The walk from the bucket's path, which gives nothing where the path does not lead anywhere.
unfoldable pub scan_path : Tree → PathBuf → Text → ℕ × ℕ
unfolding at_path scan_node
scan_path t bucket_path name = elim (at_path t bucket_path) [
  | none ↦ (0, 0)
  | some node ↦ scan_node name node (0, 0)
]

unfoldable pub quota_file : PathBuf → Text → PathBuf
unfolding join
quota_file storage bucket = join (join storage bucket) (codes ".quota")

-- `quota_file.with_extension("tmp")`
unfoldable pub quota_temp : PathBuf → Text → PathBuf
unfolding join with_extension
quota_temp storage bucket =
    join (join storage bucket) (with_extension (codes ".quota") (codes "tmp"))

unfoldable pub save_quota_to_file : QuotaCodec → PathBuf → Text → BucketQuota → Tree → Outcome
unfolding and_then or_fail write rename quota_file quota_temp
save_quota_to_file codec storage bucket quota t = elim (codec.to_string_pretty quota) [
  | none ↦ (t, false)
  | some content ↦
      let temp_file = quota_temp storage bucket in
      and_then (or_fail t (write t temp_file content))
        (rename temp_file (quota_file storage bucket))
]

unfoldable pub load_quota_from_file : QuotaCodec → Tree → PathBuf → Option BucketQuota
unfolding read
load_quota_from_file codec t p = elim (read t p) [
  | none ↦ none
  | some content ↦ codec.from_str content
]

-- The scan, saved to the `.quota` file; an error where that fails, which may leave the temporary file.
unfoldable pub generate_quota_from_fs : Text → QuotaManager → QuotaManager × Option BucketQuota
unfolding scan_path quota_of save_quota_to_file join
generate_quota_from_fs bucket m =
    let quota = quota_of (scan_path m.files (join m.storage_path bucket) bucket) in
    let (t, saved) = save_quota_to_file m.codec m.storage_path bucket quota m.files in
    (record m { files = t }, if saved then some quota else none)

unfoldable pub unlimited : BucketQuota
unlimited = record { max_size_bytes = u64_max; current_usage_bytes = 0; object_count = 0 }

-- The quota goes to the cache, clean.
unfoldable pub cache_quota :
    Text → QuotaManager × Option BucketQuota → QuotaManager × Option BucketQuota
unfolding insert
cache_quota bucket (m, none) = (m, none)
cache_quota bucket (m, some quota) =
    let cached : BucketQuotaCache = record { quota = quota; dirty = false } in
    (record m { quota_cache = insert bucket cached m.quota_cache }, some quota)

-- From the file, if there is one and it can be loaded, else by the scan.
unfoldable pub load_from_disk : Text → QuotaManager → QuotaManager × Option BucketQuota
unfolding exists quota_file load_quota_from_file generate_quota_from_fs
load_from_disk bucket m =
    let file = quota_file m.storage_path bucket in
    if exists m.files file
    then elim (load_quota_from_file m.codec m.files file) [
      | some quota ↦ (m, some quota)
      | none ↦ generate_quota_from_fs bucket m
    ]
    else generate_quota_from_fs bucket m

-- From the cache, else from the disk; none for an error.
unfoldable pub load_or_generate_quota : Text → QuotaManager → QuotaManager × Option BucketQuota
unfolding lookup cache_quota load_from_disk unlimited
load_or_generate_quota bucket m =
    if not m.enabled then (m, some unlimited) else elim (lookup bucket m.quota_cache) [
      | some cached ↦ (m, some cached.quota)
      | none ↦ cache_quota bucket (load_from_disk bucket m)
    ]

-- Whether the quota has room for the size.
unfoldable pub has_room : ℕ → BucketQuota → Bool
unfolding add_u64
has_room new_size quota = leb (add_u64 quota.current_usage_bytes new_size) quota.max_size_bytes

unfoldable pub checked : ℕ → QuotaManager × Option BucketQuota → QuotaManager × Option Bool
unfolding has_room
checked new_size (m, none) = (m, none)
checked new_size (m, some quota) = (m, some (has_room new_size quota))

unfoldable pub check_quota : Text → ℕ → QuotaManager → QuotaManager × Option Bool
unfolding load_or_generate_quota checked
check_quota bucket new_size m =
    if not m.enabled then (m, some true) else checked new_size (load_or_generate_quota bucket m)

-- `cache.get_mut(bucket)`, a change of the quota, and the mark that it is to be flushed.
unfoldable pub change_cached : (BucketQuota → BucketQuota) → Text → QuotaManager → QuotaManager
unfolding lookup insert
change_cached change bucket m = elim (lookup bucket m.quota_cache) [
  | none ↦ m
  | some cached ↦
      let changed : BucketQuotaCache = record { quota = change cached.quota; dirty = true } in
      record m { quota_cache = insert bucket changed m.quota_cache }
]

unfoldable pub updated :
    (BucketQuota → BucketQuota) → Text → QuotaManager × Option BucketQuota → QuotaManager × Bool
unfolding change_cached
updated change bucket (m, none) = (m, false)
updated change bucket (m, some quota) = (change_cached change bucket m, true)

-- What both updates share: the quota is loaded first. An error of that ends them.
unfoldable pub update_quota :
    (BucketQuota → BucketQuota) → Text → QuotaManager → QuotaManager × Bool
unfolding load_or_generate_quota updated
update_quota change bucket m =
    if not m.enabled then (m, true) else updated change bucket (load_or_generate_quota bucket m)

unfoldable pub add_object : ℕ → BucketQuota → BucketQuota
unfolding add_u64
add_object size quota = record quota {
  current_usage_bytes = add_u64 quota.current_usage_bytes size;
  object_count = add_u64 quota.object_count 1;
}

unfoldable pub remove_object : ℕ → BucketQuota → BucketQuota
remove_object size quota = record quota {
  current_usage_bytes = quota.current_usage_bytes - size;
  object_count = quota.object_count - 1;
}

unfoldable pub update_quota_add : Text → ℕ → QuotaManager → QuotaManager × Bool
unfolding update_quota add_object
update_quota_add bucket size = update_quota (add_object size) bucket

unfoldable pub update_quota_remove : Text → ℕ → QuotaManager → QuotaManager × Bool
unfolding update_quota remove_object
update_quota_remove bucket size = update_quota (remove_object size) bucket

unfoldable pub get_quota : Text → QuotaManager → QuotaManager × Option BucketQuota
unfolding load_or_generate_quota unlimited
get_quota bucket m = if not m.enabled then (m, some unlimited) else load_or_generate_quota bucket m

unfoldable pub increment : Operation → BucketStats → BucketStats
unfolding add_u64
increment op_get s = record s { get_count = add_u64 s.get_count 1 }
increment op_put s = record s { put_count = add_u64 s.put_count 1 }
increment op_delete s = record s { delete_count = add_u64 s.delete_count 1 }
increment op_list s = record s { list_count = add_u64 s.list_count 1 }
increment op_head s = record s { head_count = add_u64 s.head_count 1 }
increment op_multipart s = record s { multipart_count = add_u64 s.multipart_count 1 }

-- A cached quota that is dirty is written to its file, and is clean where that succeeds.
unfoldable pub flush_quota :
    QuotaCodec → PathBuf → Text → BucketQuotaCache → Tree → BucketQuotaCache × Tree
unfolding save_quota_to_file
flush_quota codec storage bucket cached t =
    let (u, saved) = save_quota_to_file codec storage bucket cached.quota t in
    if cached.dirty
    then (if saved then record cached { dirty = false } else cached, u)
    else (cached, t)

-- The loop of `flush_all` over the cached quotas.
unfoldable pub flush_quotas :
    QuotaCodec → PathBuf → Assoc BucketQuotaCache → Tree → Assoc BucketQuotaCache × Tree
unfolding flush_quota
flush_quotas codec storage [] t = ([], t)
flush_quotas codec storage ((bucket, cached) ∷ rest) t =
    let (cached', u) = flush_quota codec storage bucket cached t in
    let (rest', v) = flush_quotas codec storage rest u in ((bucket, cached') ∷ rest', v)

unfoldable pub flush_all : QuotaManager → QuotaManager
unfolding flush_quotas
flush_all m =
    if not m.enabled
    then m
    else let (cache', t) = flush_quotas m.codec m.storage_path m.quota_cache m.files in
      record m { quota_cache = cache'; files = t }

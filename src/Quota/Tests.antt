-- ===== src/Quota/Tests.antt =====
-- A manager with one bucket.
use ironbucket.Base.{◌≤◌, ◌≡◌, refl, ◌↔◌, ◌⊎◌, Bool, true, none, some, [], ◌∷◌, arith}
use ironbucket.Base.Text.{Text, codes, text_eq}
use ironbucket.Base.Assoc.{lookup}
use ironbucket.Disk.{Entries, file, dir, nil, entry}
use ironbucket.Quota.{
  BucketQuota, BucketQuotaCache, QuotaManager, check_quota, update_quota_add, update_quota_remove,
  get_quota,
}
use ironbucket.Quota.Accounting.{check_quota-update_quota_add, update_quota_remove-update_quota_add}

abbrev cached : BucketQuotaCache
cached = record {
  quota = record { max_size_bytes = 100; current_usage_bytes = 4; object_count = 1 };
  dirty = true;
}

abbrev tree : Entries
tree = entry (codes "cat.png") (file (codes "meow")) (entry (codes ".quota") (file []) nil)

abbrev manager : QuotaManager
manager = record {
  quota_cache = (codes "b", cached) ∷ [];
  enabled = true;
  storage_path = codes "s3" ∷ [];
  files = some (dir (entry (codes "s3") (dir (entry (codes "b") (dir tree) nil)) nil));
  codec = record { to_string_pretty = λ quota. some (codes "Q"); from_str = λ json. none };
}

stands : lookup (codes "b") manager.quota_cache ≡ some cached
unfolding lookup text_eq
stands = refl

update_quota_remove-update_quota_add_example :
    (added : QuotaManager) × (removed : QuotaManager) × (update_quota_add (codes "b") 10 manager
      ≡ (added, true))
    × (update_quota_remove (codes "b") 10 added ≡ (removed, true))
    × (lookup (codes "b") removed.quota_cache
        ≡ some (record { quota = cached.quota; dirty = true }))
    × ((other : Text)
        → (lookup other removed.quota_cache ≡ lookup other manager.quota_cache)
          ⊎ (other ≡ codes "b"))
update_quota_remove-update_quota_add_example =
    update_quota_remove-update_quota_add (codes "b") 10 cached manager refl stands (omega arith)
      (omega arith)

check_quota-update_quota_add_example :
    (allowed : Bool) × (added : QuotaManager) × (after : BucketQuota) × (check_quota
        (codes "b")
        97
        manager
      ≡ (manager, some allowed))
    × (update_quota_add (codes "b") 97 manager ≡ (added, true))
    × (get_quota (codes "b") added ≡ (added, some after))
    × ((allowed ≡ true) ↔ (after.current_usage_bytes ≤ after.max_size_bytes))
check_quota-update_quota_add_example =
    check_quota-update_quota_add (codes "b") 97 cached manager refl stands (omega arith)

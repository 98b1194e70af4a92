-- ===== src/Quota/Accounting.antt =====
-- Checking the quota of a bucket, and counting objects in and out of it.
use ironbucket.Base.{
  ℕ, ◌+◌, ◌-◌, ◌^◌, ◌≤◌, ◌<◌, ◌≡◌, sym, ap, ◌∙◌, Bool, true, false, not, if◌then◌else◌, some, arith,
  leb, leb_iff, ◌↔◌, ◌⊎◌, inl, inr, Bool-cases,
}
use ironbucket.Base.Text.{Text, text_eq, text_eq_iff, text_eq_refl}
use ironbucket.Base.Assoc.{lookup, insert, lookup-insert}
use ironbucket.Quota.{
  BucketQuota, BucketQuotaCache, QuotaManager, add_u64, load_or_generate_quota, check_quota,
  change_cached, update_quota, add_object, remove_object, update_quota_add, update_quota_remove,
  get_quota, has_room, checked, updated, unlimited,
}

add_u64_small : (a b : ℕ) → a + b < 2 ^ 64 → add_u64 a b ≡ a + b
unfolding add_u64
add_u64_small a b h = omega arith

dirtied : BucketQuota → BucketQuotaCache
dirtied quota = record { quota = quota; dirty = true }

-- The manager with a changed and dirty quota of the bucket.
changed : (BucketQuota → BucketQuota) → Text → BucketQuotaCache → QuotaManager → QuotaManager
changed change bucket cached m =
    let entry : BucketQuotaCache = record { quota = change cached.quota; dirty = true } in
    record m { quota_cache = insert bucket entry m.quota_cache }

load_or_generate_quota-cached :
    (bucket : Text) (cached : BucketQuotaCache) (m : QuotaManager)
    → m.enabled ≡ true
    → lookup bucket m.quota_cache ≡ some cached
    → load_or_generate_quota bucket m ≡ (m, some cached.quota)
unfolding load_or_generate_quota
load_or_generate_quota-cached bucket cached m on e = simp (load_or_generate_quota, on, e)

change_cached_lem :
    (change : BucketQuota → BucketQuota) (bucket : Text) (cached : BucketQuotaCache)
    (m : QuotaManager)
    → lookup bucket m.quota_cache ≡ some cached
    → change_cached change bucket m ≡ changed change bucket cached m
unfolding change_cached changed
change_cached_lem change bucket cached m e = simp (change_cached, e)

update_quota-cached :
    (change : BucketQuota → BucketQuota) (bucket : Text) (cached : BucketQuotaCache)
    (m : QuotaManager)
    → m.enabled ≡ true
    → lookup bucket m.quota_cache ≡ some cached
    → update_quota change bucket m ≡ (changed change bucket cached m, true)
unfolding update_quota updated
update_quota-cached change bucket cached m on e =
    ap (λ b. if not b then (m, true) else updated change bucket (load_or_generate_quota bucket m))
      on
    ∙ ap (updated change bucket) (load_or_generate_quota-cached bucket cached m on e)
    ∙ ap (λ n. (n, true)) (change_cached_lem change bucket cached m e)

check_quota-cached :
    (bucket : Text) (size : ℕ) (cached : BucketQuotaCache) (m : QuotaManager)
    → m.enabled ≡ true
    → lookup bucket m.quota_cache ≡ some cached
    → check_quota bucket size m
      ≡ (m, some (leb (add_u64 cached.quota.current_usage_bytes size) cached.quota.max_size_bytes))
unfolding check_quota checked has_room
check_quota-cached bucket size cached m on e =
    ap (λ b. if not b then (m, some true) else checked size (load_or_generate_quota bucket m)) on
    ∙ ap (checked size) (load_or_generate_quota-cached bucket cached m on e)

get_quota-cached :
    (bucket : Text) (cached : BucketQuotaCache) (m : QuotaManager)
    → m.enabled ≡ true
    → lookup bucket m.quota_cache ≡ some cached
    → get_quota bucket m ≡ (m, some cached.quota)
unfolding get_quota
get_quota-cached bucket cached m on e =
    ap (λ b. if not b then (m, some unlimited) else load_or_generate_quota bucket m) on
    ∙ load_or_generate_quota-cached bucket cached m on e

lookup-changed :
    (change : BucketQuota → BucketQuota) (bucket : Text) (cached : BucketQuotaCache)
    (m : QuotaManager)
    → lookup bucket (changed change bucket cached m).quota_cache
      ≡ some (record { quota = change cached.quota; dirty = true })
unfolding changed
lookup-changed change bucket cached m = rw (
  lookup-insert bucket bucket (record { quota = change cached.quota; dirty = true }) m.quota_cache,
  text_eq_refl bucket,
)

lookup-changed_other :
    (change : BucketQuota → BucketQuota) (bucket other : Text) (cached : BucketQuotaCache)
    (m : QuotaManager)
    → text_eq bucket other ≡ false
    → lookup other (changed change bucket cached m).quota_cache ≡ lookup other m.quota_cache
unfolding changed
lookup-changed_other change bucket other cached m h = rw (
  lookup-insert bucket other (record { quota = change cached.quota; dirty = true }) m.quota_cache,
  h,
)

remove_object-add_object :
    (size : ℕ) (quota : BucketQuota)
    → quota.current_usage_bytes + size < 2 ^ 64
    → quota.object_count + 1 < 2 ^ 64
    → remove_object size (add_object size quota) ≡ quota
unfolding add_object remove_object
remove_object-add_object size quota u c = rw (
  add_u64_small quota.current_usage_bytes size u,
  add_u64_small quota.object_count 1 c,
  minus_plus quota.current_usage_bytes size,
  minus_plus quota.object_count 1,
)
  where
    minus_plus : (a b : ℕ) → a + b - b ≡ a
    minus_plus a b = omega arith

-- Where the bucket's quota is cached and the two counters do not pass 64 bits: counting an object
-- in and the same object out succeeds and leaves the bucket's quota as it was, to be flushed, and
-- every other bucket's cached quota untouched.
pub update_quota_remove-update_quota_add :
    (bucket : Text) (size : ℕ) (cached : BucketQuotaCache) (m : QuotaManager)
    → m.enabled ≡ true
    → lookup bucket m.quota_cache ≡ some cached
    → cached.quota.current_usage_bytes + size < 2 ^ 64
    → cached.quota.object_count + 1 < 2 ^ 64
    → (added : QuotaManager) × (removed : QuotaManager) × (update_quota_add bucket size m
        ≡ (added, true))
      × (update_quota_remove bucket size added ≡ (removed, true))
      × (lookup bucket removed.quota_cache ≡ some (record { quota = cached.quota; dirty = true }))
      × ((other : Text)
          → (lookup other removed.quota_cache ≡ lookup other m.quota_cache) ⊎ (other ≡ bucket))
unfolding update_quota_add update_quota_remove changed dirtied
update_quota_remove-update_quota_add bucket size cached m on e u c =
    let added = changed (add_object size) bucket cached m in
    let next : BucketQuotaCache = record { quota = add_object size cached.quota; dirty = true } in
    let removed = changed (remove_object size) bucket next added in
    let found = lookup-changed (add_object size) bucket cached m in
    (
      added,
      removed,
      update_quota-cached (add_object size) bucket cached m on e,
      update_quota-cached (remove_object size) bucket next added on found,
      (lookup-changed (remove_object size) bucket next added
          ∙ ap (λ (q : BucketQuota). some (dirtied q))
              (remove_object-add_object size cached.quota u c)),
      λ other. elim (Bool-cases (text_eq bucket other)) [
        | inl h ↦ inr (sym ((text_eq_iff bucket other).0 h))
        | inr h ↦ inl (
            lookup-changed_other (remove_object size) bucket other next added h
            ∙ lookup-changed_other (add_object size) bucket other cached m h)
      ],
    )

-- Where the bucket's quota is cached and its usage with the new size does not pass 64 bits: the
-- check succeeds, and it allows the object exactly if the usage behind counting it in is within
-- the bucket's maximum.
pub check_quota-update_quota_add :
    (bucket : Text) (size : ℕ) (cached : BucketQuotaCache) (m : QuotaManager)
    → m.enabled ≡ true
    → lookup bucket m.quota_cache ≡ some cached
    → cached.quota.current_usage_bytes + size < 2 ^ 64
    → (allowed : Bool) × (added : QuotaManager) × (after : BucketQuota) × (check_quota bucket size m
        ≡ (m, some allowed))
      × (update_quota_add bucket size m ≡ (added, true))
      × (get_quota bucket added ≡ (added, some after))
      × ((allowed ≡ true) ↔ (after.current_usage_bytes ≤ after.max_size_bytes))
unfolding update_quota_add changed add_object
check_quota-update_quota_add bucket size cached m on e u =
    let quota = cached.quota in
    let added = changed (add_object size) bucket cached m in
    let next : BucketQuotaCache = record { quota = add_object size quota; dirty = true } in
    (
      leb (add_u64 quota.current_usage_bytes size) quota.max_size_bytes,
      added,
      add_object size quota,
      check_quota-cached bucket size cached m on e,
      update_quota-cached (add_object size) bucket cached m on e,
      get_quota-cached bucket next added on (lookup-changed (add_object size) bucket cached m),
      leb_iff (add_u64 quota.current_usage_bytes size) quota.max_size_bytes,
    )

-- ===== src/Quota/Touched.antt =====
-- Which files the quotas touch: the quota file of the bucket and its temporary file.
use ironbucket.Base.{
  ℕ, ◌≡◌, refl, inl, inr, Bool, true, false, not, if◌then◌else◌, Option, none, some, List,
  Bool-cases, Option-cases, In,
}
use ironbucket.Base.Text.{Text}
use ironbucket.Base.Assoc.{lookup}
use ironbucket.Paths.{Tree, PathBuf, exists, write, join}
use ironbucket.Paths.Outcomes.{or_fail, rename}
use ironbucket.Paths.Touches.{
  Touches, Touches-refl, or_write-Touches, and_then-Touches, rename-Touches,
}
use ironbucket.Quota.{
  BucketQuota, QuotaCodec, QuotaManager, quota_file, quota_temp, save_quota_to_file, quota_of,
  scan_path, generate_quota_from_fs, load_from_disk, load_quota_from_file, cache_quota,
  load_or_generate_quota, check_quota, change_cached, update_quota, get_quota, checked, updated,
}

pub if_both {ℓ m} :
    {A : Type ℓ} (P : A → Type m) (b : Bool) {x y : A} → P x → P y → P (if b then x else y)
if_both P true h k = h
if_both P false h k = k

-- Both files of the bucket are among the paths.
pub record HasQuotaFiles (storage : PathBuf) (bucket : Text) (ps : List PathBuf) : Type 0 where
  pub has_file : In (quota_file storage bucket) ps
  pub has_temp : In (quota_temp storage bucket) ps

-- What an operation on the manager leaves as it is.
pub record Settled (ps : List PathBuf) (m m' : QuotaManager) : Type 0 where
  pub same_storage : m'.storage_path ≡ m.storage_path
  pub same_enabled : m'.enabled ≡ m.enabled
  pub touches : Touches ps m.files m'.files

Settled-refl : (ps : List PathBuf) (m : QuotaManager) → Settled ps m m
Settled-refl ps m = record {
  same_storage = refl;
  same_enabled = refl;
  touches = Touches-refl ps m.files;
}

pub save_quota_to_file-Touches :
    (codec : QuotaCodec) (storage : PathBuf) (bucket : Text) (quota : BucketQuota) (t : Tree)
    (ps : List PathBuf)
    → HasQuotaFiles storage bucket ps
    → Touches ps t (save_quota_to_file codec storage bucket quota t).0
unfolding save_quota_to_file
save_quota_to_file-Touches codec storage bucket quota t ps has =
    elim (Option-cases (codec.to_string_pretty quota)) [
      | inl e ↦ rw (save_quota_to_file, e) (Touches-refl ps t)
      | inr (content, e) ↦
          let temp = quota_temp storage bucket in
          let file = quota_file storage bucket in
          rw (save_quota_to_file, e)
            (and_then-Touches ps t (or_fail t (write t temp content)) (rename temp file)
              (or_write-Touches ps t temp content has.has_temp)
              (λ u. rename-Touches ps temp file u has.has_temp has.has_file))
    ]

module _ (bucket : Text) (ps : List PathBuf) where
  generate_quota_from_fs-Settled :
      (m : QuotaManager)
      → HasQuotaFiles m.storage_path bucket ps
      → Settled ps m (generate_quota_from_fs bucket m).0
  unfolding generate_quota_from_fs
  generate_quota_from_fs-Settled m has = record {
    same_storage = refl;
    same_enabled = refl;
    touches =
        save_quota_to_file-Touches m.codec m.storage_path bucket
          (quota_of (scan_path m.files (join m.storage_path bucket) bucket)) m.files ps has;
  }

  load_from_disk-Settled :
      (m : QuotaManager)
      → HasQuotaFiles m.storage_path bucket ps
      → Settled ps m (load_from_disk bucket m).0
  unfolding load_from_disk
  load_from_disk-Settled m has =
      let file = quota_file m.storage_path bucket in
      let made = generate_quota_from_fs-Settled m has in
      elim (Bool-cases (exists m.files file)) [
        | inr e ↦ rw (load_from_disk, e) made
        | inl e ↦ elim (Option-cases (load_quota_from_file m.codec m.files file)) [
          | inl f ↦ rw (load_from_disk, e, f) made
          | inr (quota, f) ↦ rw (load_from_disk, e, f) (Settled-refl ps m)
        ]
      ]

  cache_quota-Settled :
      (m : QuotaManager) (o : QuotaManager × Option BucketQuota)
      → Settled ps m o.0
      → Settled ps m (cache_quota bucket o).0
  unfolding cache_quota
  cache_quota-Settled m (m', none) h = h
  cache_quota-Settled m (m', some quota) h = record {
    same_storage = h.same_storage;
    same_enabled = h.same_enabled;
    touches = h.touches;
  }

  load_or_generate_quota-Settled :
      (m : QuotaManager)
      → HasQuotaFiles m.storage_path bucket ps
      → Settled ps m (load_or_generate_quota bucket m).0
  unfolding load_or_generate_quota
  load_or_generate_quota-Settled m has =
      if_both (λ (o : QuotaManager × Option BucketQuota). Settled ps m o.0) (not m.enabled)
        (Settled-refl ps m)
        (elim (Option-cases (lookup bucket m.quota_cache)) [
          | inr (cached, f) ↦ rw f (Settled-refl ps m)
          | inl f ↦
              rw f (cache_quota-Settled m (load_from_disk bucket m) (load_from_disk-Settled m has))
        ])

  checked-Settled :
      (size : ℕ) (m : QuotaManager) (o : QuotaManager × Option BucketQuota)
      → Settled ps m o.0
      → Settled ps m (checked size o).0
  unfolding checked
  checked-Settled size m (m', none) h = h
  checked-Settled size m (m', some quota) h = h

  pub check_quota-Settled :
      (size : ℕ) (m : QuotaManager)
      → HasQuotaFiles m.storage_path bucket ps
      → Settled ps m (check_quota bucket size m).0
  unfolding check_quota
  check_quota-Settled size m has =
      if_both (λ (o : QuotaManager × Option Bool). Settled ps m o.0) (not m.enabled)
        (Settled-refl ps m)
        (checked-Settled size m (load_or_generate_quota bucket m)
          (load_or_generate_quota-Settled m has))

  pub get_quota-Settled :
      (m : QuotaManager)
      → HasQuotaFiles m.storage_path bucket ps
      → Settled ps m (get_quota bucket m).0
  unfolding get_quota
  get_quota-Settled m has =
      if_both (λ (o : QuotaManager × Option BucketQuota). Settled ps m o.0) (not m.enabled)
        (Settled-refl ps m) (load_or_generate_quota-Settled m has)

  change_cached-Settled :
      (change : BucketQuota → BucketQuota) (m m' : QuotaManager)
      → Settled ps m m'
      → Settled ps m (change_cached change bucket m')
  unfolding change_cached
  change_cached-Settled change m m' h = elim (Option-cases (lookup bucket m'.quota_cache)) [
    | inl e ↦ rw (change_cached, e) h
    | inr (cached, e) ↦
        rw (change_cached, e)
          (record {
            same_storage = h.same_storage;
            same_enabled = h.same_enabled;
            touches = h.touches;
          })
  ]

  updated-Settled :
      (change : BucketQuota → BucketQuota) (m : QuotaManager)
      (o : QuotaManager × Option BucketQuota)
      → Settled ps m o.0
      → Settled ps m (updated change bucket o).0
  unfolding updated
  updated-Settled change m (m', none) h = h
  updated-Settled change m (m', some quota) h = change_cached-Settled change m m' h

  pub update_quota-Settled :
      (change : BucketQuota → BucketQuota) (m : QuotaManager)
      → HasQuotaFiles m.storage_path bucket ps
      → Settled ps m (update_quota change bucket m).0
  unfolding update_quota
  update_quota-Settled change m has =
      if_both (λ (o : QuotaManager × Bool). Settled ps m o.0) (not m.enabled) (Settled-refl ps m)
        (updated-Settled change m (load_or_generate_quota bucket m)
          (load_or_generate_quota-Settled m has))

-- ===== src/Object/Charged.antt =====
-- What an operation does to the files when it charges the quota of a bucket.
use ironbucket.Base.{◌≡◌, refl, sym, subst, ◌∙◌, inl, inr, ℕ, some, List, [], ◌∷◌, Bool-cases}
use ironbucket.Base.Text.{Text}
use ironbucket.Wal.{put}
use ironbucket.Quota.{
  Operation, BucketQuota, update_quota, update_quota_add, add_object, op_put, quota_file,
  quota_temp,
}
use ironbucket.Quota.Touched.{HasQuotaFiles, update_quota-Settled}
use ironbucket.Paths.{PathBuf}
use ironbucket.Paths.Touches.{Touches, Touches-refl}
use ironbucket.Object.{Library, Moment, ObjectState}
use ironbucket.Object.Counting.{increment_stat, with_quota, log, manager, managed}
use ironbucket.Object.Write.{account}

-- The quota file of a bucket and its temporary file.
unfoldable pub quota_paths : PathBuf → Text → List PathBuf
unfolding quota_file quota_temp
quota_paths storage bucket = quota_file storage bucket ∷ quota_temp storage bucket ∷ []

-- The same files in the same storage directory.
abbrev pub SameFiles : ObjectState → ObjectState → Type 0
SameFiles s s' = (s'.files ≡ s.files) × (s'.storage_path ≡ s.storage_path)

-- The same storage directory, in which at most the quota files of the bucket changed.
pub record Charged (bucket : Text) (s s' : ObjectState) : Type 0 where
  pub same_storage : s'.storage_path ≡ s.storage_path
  pub touches : Touches (quota_paths s.storage_path bucket) s.files s'.files

pub Charged-refl : (bucket : Text) (s : ObjectState) → Charged bucket s s
Charged-refl bucket s = record {
  same_storage = refl;
  touches = Touches-refl (quota_paths s.storage_path bucket) s.files;
}

pub has_quota_paths :
    (storage : PathBuf) (bucket : Text) → HasQuotaFiles storage bucket (quota_paths storage bucket)
unfolding quota_paths
has_quota_paths storage bucket = record { has_file = inl refl; has_temp = inr (inl refl) }

pub with_quota-Charged :
    (change : BucketQuota → BucketQuota) (bucket : Text) (s : ObjectState)
    → Charged bucket s (with_quota (update_quota change bucket) s)
unfolding with_quota manager managed
with_quota-Charged change bucket s = record {
  same_storage = refl;
  touches =
      (update_quota-Settled bucket (quota_paths s.storage_path bucket) change (manager s)
        (has_quota_paths s.storage_path bucket)).touches;
}

pub increment_stat-SameFiles :
    (lib : Library) (moment : Moment) (bucket : Text) (operation : Operation) (s : ObjectState)
    → SameFiles s (increment_stat lib moment bucket operation s)
unfolding increment_stat
increment_stat-SameFiles lib moment bucket operation s = elim (Bool-cases s.quota_manager.enabled) [
  | inl e ↦ (rw (increment_stat, e) refl, rw (increment_stat, e) refl)
  | inr e ↦ (rw (increment_stat, e) refl, rw (increment_stat, e) refl)
]

pub Charged-SameFiles :
    (bucket : Text) (s t u : ObjectState) → Charged bucket s t → SameFiles t u → Charged bucket s u
Charged-SameFiles bucket s t u c (f, p) = record {
  same_storage = p ∙ c.same_storage;
  touches = subst (λ v. Touches (quota_paths s.storage_path bucket) s.files v) (sym f) c.touches;
}

pub account-Charged :
    (lib : Library) (moment : Moment) (bucket key : Text) (size : ℕ) (etag : Text) (s : ObjectState)
    → Charged bucket s (account lib moment bucket key size etag s)
unfolding account log update_quota_add
account-Charged lib moment bucket key size etag s =
    let logged = log (put bucket key size (some etag)) s in
    let charged = with_quota (update_quota (add_object size) bucket) logged in
    let c = with_quota-Charged (add_object size) bucket logged in
    Charged-SameFiles bucket s charged (increment_stat lib moment bucket op_put charged)
      (record { same_storage = c.same_storage; touches = c.touches })
      (increment_stat-SameFiles lib moment bucket op_put charged)

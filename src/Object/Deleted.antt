-- ===== src/Object/Deleted.antt =====
-- What `get_object` gives for an object behind its deletion.
use ironbucket.Base.{
  ◌≡◌, refl, subst, ◌∙◌, ◌⊎◌, inl, inr, ℕ, true, not, ◌&&◌, Option, none, some, [], Bool-cases,
  Option-cases,
}
use ironbucket.Base.Text.{Text, codes, ends_with}
use ironbucket.Disk.{dir, nil}
use ironbucket.Paths.{
  Tree, PathBuf, read, resolve, at_path, get, dir_at, is_directory, leaf, remove_file, remove_dir,
  remove_dir_all, is_dir, removable,
}
use ironbucket.Paths.Frames.{remove_file-Changed}
use ironbucket.Object.{
  Library, Moment, ObjectState, object_path, metadata_path, data_file, old_version, bucket_path,
  reply,
}
use ironbucket.Object.Fetch.{get_object}
use ironbucket.Object.Counting.{increment_stat, log}
use ironbucket.Wal.{delete}
use ironbucket.Quota.{update_quota_remove, remove_object, op_delete}
use ironbucket.Object.Remove.{
  try_remove, remove_directory, account_removal, file_size, delete_file, delete_at, delete_object,
}
use ironbucket.Paths.Removed.{Bare, set-read, remove_file-none-read, Changed-read-none, slash-read}
use ironbucket.Object.Stored.{Charged, with_quota-Charged, quota_paths, increment_stat-SameFiles}
use ironbucket.Paths.Touches.{Touches, LeadsTo, Touches-read}

remove_directory-read :
    (t : Tree) (p : PathBuf) → is_dir t p ≡ true → read (remove_directory t p) p ≡ none
unfolding remove_directory remove_dir remove_dir_all is_dir at_path dir_at is_directory Bare
remove_directory-read t p h = elim (Option-cases (resolve t [] p)) [
  | inl e ↦ let k = rw (is_dir, at_path, e) at h in absurd (cc)
  | inr (l, e) ↦
      let d : dir_at t l ≡ true = rw (is_dir, at_path, e) at h in
      let gone = set-read none t p l (inl refl) e d in
      let emptied = set-read (some (dir nil)) t p l (inr refl) e d in
      elim (Bool-cases (leaf (get t l))) [
        | inr g ↦ elim (Bool-cases (removable p)) [
          | inl f ↦ rw (remove_directory, remove_dir, e, d, g) (rw (remove_dir_all, e, d, f) gone)
          | inr f ↦
              rw (remove_directory, remove_dir, e, d, g) (rw (remove_dir_all, e, d, f) emptied)
        ]
        | inl g ↦ elim (Bool-cases (removable p)) [
          | inl f ↦ rw (remove_directory, remove_dir, e, d, g, f) gone
          | inr f ↦
              rw (remove_directory, remove_dir, e, d, g, f) (rw (remove_dir_all, e, d, f) emptied)
        ]
      ]
]

try_remove-read : (t : Tree) (p : PathBuf) → read (try_remove t p).0 p ≡ none
unfolding try_remove
try_remove-read t p = elim (Option-cases (remove_file t p)) [
  | inl e ↦ rw (try_remove, e) (remove_file-none-read t p e)
  | inr (u, e) ↦
      let (l, f, changed) = remove_file-Changed t u p e in
      rw (try_remove, e) (Changed-read-none t u p l changed (inr f))
]

pub try_remove-read_other :
    (t : Tree) (p m : PathBuf) → read t p ≡ none → read (try_remove t m).0 p ≡ none
unfolding try_remove
try_remove-read_other t p m h = elim (Option-cases (remove_file t m)) [
  | inl e ↦ rw (try_remove, e) h
  | inr (u, e) ↦
      let (l, f, changed) = remove_file-Changed t u m e in
      rw (try_remove, e) (Changed-read-none t u p l changed (inl h))
]

account_removal-Charged :
    (bucket key : Text) (size : Option ℕ) (s : ObjectState)
    → Charged bucket s (account_removal bucket key size s)
unfolding account_removal log update_quota_remove
account_removal-Charged bucket key none s =
    let c = with_quota-Charged (remove_object 0) bucket (log (delete bucket key) s) in
    record { same_storage = c.same_storage; touches = c.touches }
account_removal-Charged bucket key (some size) s =
    let c = with_quota-Charged (remove_object size) bucket (log (delete bucket key) s) in
    record { same_storage = c.same_storage; touches = c.touches }

-- At the path of the object nothing is read, or it leads where a quota file of the bucket stands.
abbrev pub Gone : Text → Text → PathBuf → Tree → Type 0
Gone bucket key storage t =
    (read t (object_path storage bucket key) ≡ none)
    ⊎ LeadsTo t (object_path storage bucket key) (quota_paths storage bucket)

-- A charge of the quota behind it.
pub Touches-Gone :
    (bucket key : Text) (storage : PathBuf) (t t' : Tree)
    → Touches (quota_paths storage bucket) t t'
    → read t (object_path storage bucket key) ≡ none
    → Gone bucket key storage t'
Touches-Gone bucket key storage t t' h e =
    elim (Touches-read (quota_paths storage bucket) t t' (object_path storage bucket key) h) [
      | inl f ↦ inl (f ∙ e)
      | inr leads ↦ inr leads
    ]

-- The same storage directory, in which the object is gone.
record Unread (bucket key : Text) (storage : PathBuf) (s : ObjectState) : Type 0 where
  same_storage : s.storage_path ≡ storage
  gone : Gone bucket key storage s.files

Unread-files :
    (bucket key : Text) (s : ObjectState) (t : Tree)
    → read t (object_path s.storage_path bucket key) ≡ none
    → Unread bucket key s.storage_path (record s { files = t })
Unread-files bucket key s t h = record { same_storage = refl; gone = inl h }

delete_file-Unread :
    (bucket key : Text) (s : ObjectState)
    → Unread bucket key s.storage_path (delete_file bucket key s).0
unfolding delete_file
delete_file-Unread bucket key s =
    let path = object_path s.storage_path bucket key in
    let disk = try_remove s.files path in
    let meta = try_remove disk.0 (metadata_path s.storage_path bucket key) in
    let s' : ObjectState = record s { files = meta.0 } in
    let u =
      try_remove-read_other disk.0 path (metadata_path s.storage_path bucket key)
        (try_remove-read s.files path) in
    let size = file_size (read s.files path) in
    let charged = account_removal bucket key size s' in
    let c = account_removal-Charged bucket key size s' in
    elim (Bool-cases (disk.1 && not (is_dir meta.0 path))) [
      | inl e ↦ rw (e) (record {
        same_storage = c.same_storage;
        gone = Touches-Gone bucket key s.storage_path meta.0 charged.files c.touches u;
      })
      | inr e ↦ rw (e) (Unread-files bucket key s meta.0 u)
    ]

delete_at-Unread :
    (bucket key : Text) (s : ObjectState)
    → Unread bucket key s.storage_path (delete_at bucket key s).0
unfolding delete_at object_path
delete_at-Unread bucket key s =
    let path = object_path s.storage_path bucket key in
    elim (Bool-cases (is_dir s.files path)) [
      | inl e ↦
          rw (delete_at, e)
            (Unread-files bucket key s (remove_directory s.files path)
              (remove_directory-read s.files path e))
      | inr e ↦ elim (Bool-cases (ends_with key (codes "/"))) [
        | inl f ↦
            rw (delete_at, e, f)
              (Unread-files bucket key s s.files
                (slash-read s.files (bucket_path s.storage_path bucket) key f e))
        | inr f ↦ rw (delete_at, e, f) (delete_file-Unread bucket key s)
      ]
    ]

Unread-get_object :
    (lib : Library) (later : Moment) (bucket key : Text) (storage : PathBuf) (s : ObjectState)
    → Unread bucket key storage s
    → ((get_object lib later bucket key none s).status ≡ 404)
      ⊎ LeadsTo s.files (object_path storage bucket key) (quota_paths storage bucket)
unfolding get_object data_file old_version reply
Unread-get_object lib later bucket key storage s u = elim u.gone [
  | inr leads ↦ inr leads
  | inl e ↦
      let e' : read s.files (object_path s.storage_path bucket key) ≡ none =
        rw (u.same_storage) e in
      inl (rw (get_object, e') refl)
]

-- Deleting an object, whether it answers 204 or 404 and whether the key is a file, a folder or
-- nothing: fetching the current version answers 404 afterwards, unless the path of the object
-- leads where the bucket's quota file or that file's temporary one stands.
pub delete_object-get_object :
    (lib : Library) (moment later : Moment) (bucket key : Text) (s : ObjectState)
    → ((get_object lib later bucket key none (delete_object lib moment bucket key s).0).status
        ≡ 404)
      ⊎ LeadsTo
          (delete_object lib moment bucket key s).0.files
          (object_path s.storage_path bucket key)
          (quota_paths s.storage_path bucket)
unfolding delete_object
delete_object-get_object lib moment later bucket key s =
    let counted = increment_stat lib moment bucket op_delete s in
    let same = increment_stat-SameFiles lib moment bucket op_delete s in
    let u = delete_at-Unread bucket key counted in
    Unread-get_object lib later bucket key s.storage_path (delete_object lib moment bucket key s).0
      (record {
        same_storage = u.same_storage ∙ same.1;
        gone = subst (λ p. Gone bucket key p (delete_at bucket key counted).0.files) same.1 u.gone;
      })

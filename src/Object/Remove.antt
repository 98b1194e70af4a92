-- ===== src/Object/Remove.antt =====
-- `delete_object`, and the deletion of one version by `handle_object_delete`.
use ironbucket.Base.{
  ℕ, Bool, true, false, not, ◌&&◌, ◌||◌, Option, none, some, ◌++◌, length, if◌then◌else◌,
}
use ironbucket.Base.Text.{Text, codes, ends_with}
use ironbucket.Paths.{
  Tree, PathBuf, join, read, is_dir, exists, remove_file, remove_dir, remove_dir_all,
}
use ironbucket.Wal.{delete}
use ironbucket.Quota.{update_quota_remove, op_delete}
use ironbucket.Object.{Library, Moment, ObjectState, object_path, metadata_path, versions_dir}
use ironbucket.Object.Counting.{increment_stat, with_quota, log}

-- A removal, where its failure leaves the tree as it was, and whether it succeeded.
unfoldable pub try_remove : Tree → PathBuf → Tree × Bool
unfolding remove_file
try_remove t p = elim (remove_file t p) [ none ↦ (t, false) | some t' ↦ (t', true) ]

-- An empty directory, or one with all it holds.
unfoldable pub remove_directory : Tree → PathBuf → Tree
unfolding remove_dir remove_dir_all
remove_directory t p = elim (remove_dir t p) [ none ↦ (remove_dir_all t p).0 | some t' ↦ t' ]

-- The log and the quota, by the size of the file before it was deleted.
unfoldable pub account_removal : Text → Text → Option ℕ → ObjectState → ObjectState
unfolding log with_quota update_quota_remove
account_removal bucket key none s =
    with_quota (update_quota_remove bucket 0) (log (delete bucket key) s)
account_removal bucket key (some size) s =
    with_quota (update_quota_remove bucket size) (log (delete bucket key) s)

unfoldable pub file_size : Option Text → Option ℕ
file_size none = none
file_size (some contents) = some (length contents)

-- The object and its metadata file, where the path is no directory.
unfoldable pub delete_file : Text → Text → ObjectState → ObjectState × ℕ
unfolding object_path metadata_path try_remove account_removal file_size read is_dir
delete_file bucket key s =
    let path = object_path s.storage_path bucket key in
    let disk = try_remove s.files path in
    let meta = try_remove disk.0 (metadata_path s.storage_path bucket key) in
    let s' = record s { files = meta.0 } in
    (
      if disk.1 && not (is_dir meta.0 path)
          then account_removal bucket key (file_size (read s.files path)) s'
          else s',
      if disk.1 || meta.1 then 204 else 404,
    )

unfoldable pub delete_at : Text → Text → ObjectState → ObjectState × ℕ
unfolding object_path is_dir remove_directory delete_file ends_with
delete_at bucket key s =
    let path = object_path s.storage_path bucket key in
    if is_dir s.files path
    then (record s { files = remove_directory s.files path }, 204)
    else if ends_with key (codes "/")
    then (s, 204)
    else delete_file bucket key s

module _ (lib : Library) where
  unfoldable pub delete_object : Moment → Text → Text → ObjectState → ObjectState × ℕ
  unfolding delete_at increment_stat
  delete_object moment bucket key s =
      delete_at bucket key (increment_stat lib moment bucket op_delete s)

-- `?versionId=`, where it is not `null`.
unfoldable pub delete_version : Text → Text → Text → ObjectState → ObjectState × ℕ
unfolding versions_dir join exists remove_file try_remove
delete_version bucket key version_id s =
    let folder = versions_dir s.storage_path bucket key in
    let metadata = join folder (version_id ++ codes ".metadata") in
    if not (exists s.files (join folder version_id))
    then (s, 404)
    else elim (remove_file s.files (join folder version_id)) [
      | none ↦ (s, 500)
      | some t ↦
          (record s { files = if exists t metadata then (try_remove t metadata).0 else t }, 204)
    ]

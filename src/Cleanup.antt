-- ===== src/Cleanup.antt =====
-- src/cleanup.rs: the removal of empty directories inside the buckets.
pub mod Empty
mod Tests
use ironbucket.Base.{ℕ, ◌+◌, Bool, true, false, not, ◌&&◌, Option, none, some, List, [], ◌∷◌}
use ironbucket.Base.{if◌then◌else◌}
use ironbucket.Base.Text.{Text, codes, text_eq}
use ironbucket.Disk.{Node, file, dir, Entries, nil, entry, no_entries}

-- What the removal leaves of one entry, and the number of directories removed.
abbrev pub keep : Text → Option Node → Entries → Entries
keep name none rest = rest
keep name (some node) rest = entry name node rest

-- The directory called `name`, when its subdirectories are done: it is removed when it is empty
-- now, unless it is called ".multipart".
unfoldable pub remove_if_empty : Text → Entries → ℕ → Option Node × ℕ
unfolding no_entries text_eq
remove_if_empty name es removed_count =
    if not (text_eq name (codes ".multipart")) && no_entries es
    then (none, removed_count + 1)
    else (some (dir es), removed_count)

-- `remove_empty_subdir_recursive` of a directory, and the loop over the subdirectories of one,
-- which passes files by.
unfoldable mutual
  unfolding remove_if_empty

  pub remove_empty_subdir_recursive : Text → Node → Option Node × ℕ
  remove_empty_subdir_recursive name (file contents) = (some (file contents), 0)
  remove_empty_subdir_recursive name (dir es) =
      let (es', removed_count) = remove_in_subdirs es in remove_if_empty name es' removed_count

  pub remove_in_subdirs : Entries → Entries × ℕ
  remove_in_subdirs nil = (nil, 0)
  remove_in_subdirs (entry name node rest) =
      let (node', m) = remove_empty_subdir_recursive name node in
      let (rest', n) = remove_in_subdirs rest in (keep name node' rest', m + n)

-- The bucket itself stays.
unfoldable pub remove_empty_dirs_in_bucket : Entries → Entries × ℕ
unfolding remove_in_subdirs
remove_empty_dirs_in_bucket bucket_dir = remove_in_subdirs bucket_dir

-- One round of `cleanup_empty_directories`: every bucket of the storage directory.
unfoldable pub cleanup_round : Entries → Entries × ℕ
unfolding remove_empty_dirs_in_bucket
cleanup_round nil = (nil, 0)
cleanup_round (entry name (file contents) rest) =
    let (rest', n) = cleanup_round rest in (entry name (file contents) rest', n)
cleanup_round (entry name (dir es) rest) =
    let (es', m) = remove_empty_dirs_in_bucket es in
    let (rest', n) = cleanup_round rest in (entry name (dir es') rest', m + n)

-- ===== src/Cleanup/Tests.antt =====
-- A bucket with an empty directory inside an empty directory.
use ironbucket.Base.{◌+◌, ◌≡◌, refl, []}
use ironbucket.Base.Text.{codes}
use ironbucket.Disk.{file, dir, Entries, nil, entry}
use ironbucket.Cleanup.{remove_empty_dirs_in_bucket}
use ironbucket.Cleanup.Empty.{
  files, dirs, Full, remove_empty_dirs_in_bucket-Full, remove_empty_dirs_in_bucket-files,
}

abbrev a_bucket : Entries
a_bucket = entry (codes "cat.png") (file (codes "meow")) (
    entry (codes "a") (dir (entry (codes "b") (dir nil) nil))
      (entry (codes ".multipart") (dir nil) nil))

both_removed : (remove_empty_dirs_in_bucket a_bucket).1 ≡ 2
unfolding remove_empty_dirs_in_bucket
both_removed = refl

remove_empty_dirs_in_bucket-Full_example : Full (remove_empty_dirs_in_bucket a_bucket).0
remove_empty_dirs_in_bucket-Full_example = remove_empty_dirs_in_bucket-Full a_bucket

remove_empty_dirs_in_bucket-files_example :
    (files [] (remove_empty_dirs_in_bucket a_bucket).0 ≡ files [] a_bucket)
    × (dirs (remove_empty_dirs_in_bucket a_bucket).0 + (remove_empty_dirs_in_bucket a_bucket).1
        ≡ dirs a_bucket)
remove_empty_dirs_in_bucket-files_example = remove_empty_dirs_in_bucket-files a_bucket

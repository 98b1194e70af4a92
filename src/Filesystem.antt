-- ===== src/Filesystem.antt =====
-- src/filesystem.rs: the existence of buckets, their configuration files and their list. A bucket's
-- name is taken to be one component of a path.
pub mod Config
mod Tests
use ironbucket.Base.{Bool, true, false, not, ◌&&◌, Option, none, some, List, [], ◌∷◌, if◌then◌else◌}
use ironbucket.Base.Text.{Text, codes, starts_with, is_some}
use ironbucket.Disk.{
  Node, file, dir, Entries, nil, entry, is_dir, child, find, read_file, write_file, remove_file,
}
use ironbucket.Listing.{text_gt}

unfoldable pub bucket_exists : Entries → Text → Bool
unfolding child is_dir
bucket_exists storage bucket = elim (child bucket storage) [
  | none ↦ false
  | some node ↦ is_dir node
]

-- `if file.exists() { read_to_string(file).ok() } else { None }`
unfoldable pub read_bucket_file : Text → Entries → Text → Option Text
unfolding find read_file
read_bucket_file name storage bucket =
    if is_some (find storage bucket name) then read_file storage bucket name else none

-- `if file.exists() { remove_file(file) } else { Ok(()) }`, the storage behind it, or the error.
unfoldable pub delete_bucket_file : Text → Entries → Text → Option Entries
unfolding find remove_file
delete_bucket_file name storage bucket =
    if is_some (find storage bucket name) then remove_file storage bucket name else some storage

unfoldable pub read_bucket_policy : Entries → Text → Option Text
unfolding read_bucket_file
read_bucket_policy = read_bucket_file (codes ".policy")

unfoldable pub write_bucket_policy : Entries → Text → Text → Option Entries
unfolding write_file
write_bucket_policy storage bucket policy = write_file storage bucket (codes ".policy") policy

unfoldable pub delete_bucket_policy : Entries → Text → Option Entries
unfolding delete_bucket_file
delete_bucket_policy = delete_bucket_file (codes ".policy")

unfoldable pub read_bucket_versioning : Entries → Text → Option Text
unfolding read_bucket_file
read_bucket_versioning = read_bucket_file (codes ".versioning")

unfoldable pub write_bucket_versioning : Entries → Text → Text → Option Entries
unfolding write_file
write_bucket_versioning storage bucket status =
    write_file storage bucket (codes ".versioning") status

unfoldable pub parsed {ℓ} : {C : Type ℓ} → (Text → Option C) → Option Text → Option C
parsed from_str none = none
parsed from_str (some json) = from_str json

-- `serde_json::from_str` of the type of one configuration.
module _ {ℓ} {C : Type ℓ} (from_str : Text → Option C) where
  unfoldable pub read_bucket_json : Text → Entries → Text → Option C
  unfolding read_bucket_file parsed
  read_bucket_json name storage bucket = parsed from_str (read_bucket_file name storage bucket)

  unfoldable pub read_bucket_encryption : Entries → Text → Option C
  unfolding read_bucket_json
  read_bucket_encryption = read_bucket_json (codes ".encryption")

  unfoldable pub read_bucket_cors : Entries → Text → Option C
  unfolding read_bucket_json
  read_bucket_cors = read_bucket_json (codes ".cors")

  unfoldable pub read_bucket_lifecycle : Entries → Text → Option C
  unfolding read_bucket_json
  read_bucket_lifecycle = read_bucket_json (codes ".lifecycle")

-- `serde_json::to_string_pretty` of the type of one configuration.
module _ {ℓ} {C : Type ℓ} (to_string_pretty : C → Option Text) where
  unfoldable pub write_bucket_json : Text → Entries → Text → C → Option Entries
  unfolding write_file
  write_bucket_json name storage bucket config = elim (to_string_pretty config) [
    | none ↦ none
    | some json ↦ write_file storage bucket name json
  ]

  unfoldable pub write_bucket_encryption : Entries → Text → C → Option Entries
  unfolding write_bucket_json
  write_bucket_encryption = write_bucket_json (codes ".encryption")

  unfoldable pub write_bucket_cors : Entries → Text → C → Option Entries
  unfolding write_bucket_json
  write_bucket_cors = write_bucket_json (codes ".cors")

  unfoldable pub write_bucket_lifecycle : Entries → Text → C → Option Entries
  unfolding write_bucket_json
  write_bucket_lifecycle = write_bucket_json (codes ".lifecycle")

unfoldable pub delete_bucket_encryption : Entries → Text → Option Entries
unfolding delete_bucket_file
delete_bucket_encryption = delete_bucket_file (codes ".encryption")

unfoldable pub delete_bucket_cors : Entries → Text → Option Entries
unfolding delete_bucket_file
delete_bucket_cors = delete_bucket_file (codes ".cors")

unfoldable pub delete_bucket_lifecycle : Entries → Text → Option Entries
unfolding delete_bucket_file
delete_bucket_lifecycle = delete_bucket_file (codes ".lifecycle")

-- The directories whose names do not start with a dot, and their sorted list.
unfoldable pub bucket_dirs : Entries → List Text
unfolding is_dir starts_with
bucket_dirs nil = []
bucket_dirs (entry name node rest) =
    let later = bucket_dirs rest in
    if is_dir node && not (starts_with name (codes ".")) then name ∷ later else later

insert_text : Text → List Text → List Text
unfolding text_gt
insert_text t [] = t ∷ []
insert_text t (u ∷ us) =
    let later = insert_text t us in if text_gt t u then u ∷ later else t ∷ u ∷ us

unfoldable pub sort : List Text → List Text
unfolding insert_text
sort [] = []
sort (t ∷ ts) = insert_text t (sort ts)

unfoldable pub list_bucket_names : Entries → List Text
unfolding sort bucket_dirs
list_bucket_names storage = sort (bucket_dirs storage)

-- ===== src/Filesystem/Tests.antt =====
-- A configuration that is a text.
use ironbucket.Base.{◌≡◌, refl, ◌⊎◌, false, none, some}
use ironbucket.Base.Text.{Text, codes, text_eq}
use ironbucket.Disk.{Entries, file, dir, nil, entry, child, find, dir_at}
use ironbucket.Filesystem.{
  read_bucket_file, read_bucket_json, write_bucket_json, delete_bucket_file,
}
use ironbucket.Filesystem.Config.{read_bucket_json-write_bucket_json, delete_bucket_file-read}

abbrev photos : Entries
photos = entry (codes ".cors") (file (codes "old")) nil

abbrev storage : Entries
storage = entry (codes "photos") (dir photos) nil

stands : child (codes "photos") storage ≡ some (dir photos)
unfolding child text_eq
stands = refl

no_dir : dir_at (codes ".cors") photos ≡ false
unfolding dir_at text_eq
no_dir = refl

read_bucket_json-write_bucket_json_example :
    (s : Entries) × (write_bucket_json
        (λ (c : Text). some c)
        (codes ".cors")
        storage
        (codes "photos")
        (codes "new")
      ≡ some s)
    × (read_bucket_json (λ (c : Text). some c) (codes ".cors") s (codes "photos")
        ≡ some (codes "new"))
    × ((b n : Text)
        → (find s b n ≡ find storage b n) ⊎ ((b ≡ codes "photos") × (n ≡ codes ".cors")))
read_bucket_json-write_bucket_json_example =
    read_bucket_json-write_bucket_json (λ c. some c) (λ c. some c) (codes ".cors") storage
      (codes "photos") (codes "new") (codes "new") photos refl refl stands no_dir

abbrev emptied : Entries
emptied = entry (codes "photos") (dir nil) nil

deleted : delete_bucket_file (codes ".cors") storage (codes "photos") ≡ some emptied
unfolding delete_bucket_file text_eq
deleted = refl

delete_bucket_file-read_example :
    (read_bucket_file (codes ".cors") emptied (codes "photos") ≡ none)
    × (delete_bucket_file (codes ".cors") emptied (codes "photos") ≡ some emptied)
delete_bucket_file-read_example =
    delete_bucket_file-read (codes ".cors") storage emptied (codes "photos") deleted

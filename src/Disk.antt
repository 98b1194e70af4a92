-- ===== src/Disk.antt =====
-- The file system, as far as the sources use `std::fs`: a tree of named files and directories. The
-- operations succeed wherever the tree allows them: there is no permission and no full disk.
use ironbucket.Base.{Bool, true, false, Option, none, some, List, [], ◌∷◌, if◌then◌else◌}
use ironbucket.Base.Text.{Text, text_eq}

mutual
  pub data Node : Type 0 where
    file : Text → Node
    dir : Entries → Node

  pub data Entries : Type 0 where
    nil : Entries
    entry : Text → Node → Entries → Entries

-- `Path::is_dir`
unfoldable pub is_dir : Node → Bool
is_dir (file contents) = false
is_dir (dir es) = true

-- `path.join(name)`, where it exists.
unfoldable pub child : Text → Entries → Option Node
child name nil = none
child name (entry n node rest) = if text_eq n name then some node else child name rest

-- The entries with `name` standing for `node`.
unfoldable pub put_child : Text → Node → Entries → Entries
put_child name node nil = entry name node nil
put_child name node (entry n old rest) =
    let later = put_child name node rest in
    if text_eq n name then entry n node rest else entry n old later

unfoldable pub remove_child : Text → Entries → Entries
remove_child name nil = nil
remove_child name (entry n node rest) =
    let later = remove_child name rest in if text_eq n name then later else entry n node later

-- The names that `fs::read_dir` gives.
unfoldable pub names : Entries → List Text
names nil = []
names (entry n node rest) = n ∷ names rest

-- `read_dir(..).next().is_none()`
unfoldable pub no_entries : Entries → Bool
no_entries nil = true
no_entries (entry n node rest) = false

-- `fs::metadata(path.join(bucket).join(name))`: what stands at a path of two names.
unfoldable pub find : Entries → Text → Text → Option Node
unfolding child
find storage bucket name = elim (child bucket storage) [
  | none ↦ none
  | some node ↦ elim node [ file contents ↦ none | dir es ↦ child name es ]
]

-- `fs::read_to_string`; the contents are taken to be UTF-8.
unfoldable pub read_file : Entries → Text → Text → Option Text
unfolding find
read_file storage bucket name = elim (find storage bucket name) [
  | none ↦ none
  | some node ↦ elim node [ file contents ↦ some contents | dir es ↦ none ]
]

-- A directory stands in the way of a file.
unfoldable pub dir_at : Text → Entries → Bool
unfolding child is_dir
dir_at name es = elim (child name es) [ none ↦ false | some node ↦ is_dir node ]

-- `fs::write`, an error where the directory is missing or where a directory has the name.
unfoldable pub write_file : Entries → Text → Text → Text → Option Entries
unfolding child put_child dir_at
write_file storage bucket name contents = elim (child bucket storage) [
  | none ↦ none
  | some node ↦ elim node [
    | file old ↦ none
    | dir es ↦
        if dir_at name es
        then none
        else some (put_child bucket (dir (put_child name (file contents) es)) storage)
  ]
]

-- `fs::remove_file`, an error where there is no file of the name.
unfoldable pub remove_file : Entries → Text → Text → Option Entries
unfolding child put_child remove_child is_dir
remove_file storage bucket name = elim (child bucket storage) [
  | none ↦ none
  | some node ↦ elim node [
    | file old ↦ none
    | dir es ↦ elim (child name es) [
      | none ↦ none
      | some found ↦
          if is_dir found
          then none
          else some (put_child bucket (dir (remove_child name es)) storage)
    ]
  ]
]

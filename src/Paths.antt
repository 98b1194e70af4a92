-- ===== src/Paths.antt =====
-- The file system at paths of any length, as far as src/handlers/object.rs uses `std::fs` and
-- `std::path`: a tree below the root directory, paths as their pieces between the slashes, and the
-- operations on them, which fail only where the tree does not allow them.
pub mod Trees
pub mod Frames
pub mod Reads
pub mod Suffix
pub mod Removed
pub mod Fewer
pub mod Outcomes
pub mod Written
pub mod Touches
use ironbucket.Base.{
  Bool, true, false, not, ◌&&◌, ◌||◌, Option, none, some, List, [], ◌∷◌, ◌++◌, is_empty,
  if◌then◌else◌,
}
use ironbucket.Base.Text.{Text, codes, text_eq, starts_with, split}
use ironbucket.Disk.{Node, file, dir, Entries, nil, child, put_child, remove_child, no_entries}

-- What stands at a place: nothing, or a file or a directory.
abbrev pub Tree : Type 0
Tree = Option Node

-- A place: the names on the way to it from the root.
abbrev pub Location : Type 0
Location = List Text

-- A path from the root: its pieces between the slashes, `""`, `"."` and `".."` among them.
abbrev pub PathBuf : Type 0
PathBuf = List Text

unfoldable pub loc_eq : Location → Location → Bool
unfolding text_eq
loc_eq [] [] = true
loc_eq [] (d ∷ ds) = false
loc_eq (c ∷ cs) [] = false
loc_eq (c ∷ cs) (d ∷ ds) = text_eq c d && loc_eq cs ds

unfoldable pub get : Tree → Location → Tree
unfolding child
get t [] = t
get none (c ∷ cs) = none
get (some (file contents)) (c ∷ cs) = none
get (some (dir es)) (c ∷ cs) = get (child c es) cs

unfoldable pub set_child : Text → Tree → Entries → Entries
unfolding put_child remove_child
set_child c none es = remove_child c es
set_child c (some node) es = put_child c node es

-- The tree in which `new` stands at a place, whose directory exists.
unfoldable pub set : Tree → Tree → Location → Tree
unfolding child set_child
set new t [] = new
set new none (c ∷ cs) = none
set new (some (file contents)) (c ∷ cs) = some (file contents)
set new (some (dir es)) (c ∷ cs) = some (dir (set_child c (set new (child c es) cs) es))

-- All the directories on the way to a place exist.
unfoldable pub has_parent : Tree → Location → Bool
unfolding child
has_parent t [] = true
has_parent none (c ∷ cs) = false
has_parent (some (file contents)) (c ∷ cs) = false
has_parent (some (dir es)) (c ∷ cs) = has_parent (child c es) cs

unfoldable pub is_directory : Tree → Bool
is_directory none = false
is_directory (some (file contents)) = false
is_directory (some (dir es)) = true

unfoldable pub contents_of : Tree → Option Text
contents_of none = none
contents_of (some (file contents)) = some contents
contents_of (some (dir es)) = none

-- Nothing stands below it.
unfoldable pub leaf : Tree → Bool
unfolding no_entries
leaf none = true
leaf (some (file contents)) = true
leaf (some (dir es)) = no_entries es

unfoldable pub dir_at : Tree → Location → Bool
unfolding get is_directory
dir_at t l = is_directory (get t l)

unfoldable pub file_at : Tree → Location → Option Text
unfolding get contents_of
file_at t l = contents_of (get t l)

-- The piece names the directory itself.
unfoldable pub stays : Text → Bool
unfolding text_eq
stays c = is_empty c || text_eq c (codes ".")

unfoldable pub up : Location → Location
up [] = []
up (c ∷ []) = []
up (c ∷ d ∷ ds) = c ∷ up (d ∷ ds)

unfoldable pub step : Location → Text → Location
unfolding stays up text_eq
step l c = if stays c then l else if text_eq c (codes "..") then up l else l ++ c ∷ []

-- The place that a path leads to from `l`: every piece is looked up in a directory, and nothing
-- needs to stand at the last one.
unfoldable pub resolve : Tree → Location → PathBuf → Option Location
unfolding dir_at step
resolve t l [] = some l
resolve t l (c ∷ cs) = let rest = resolve t (step l c) cs in if dir_at t l then rest else none

-- `path.join(s)`: an absolute `s` takes the place of the path.
unfoldable pub join : PathBuf → Text → PathBuf
unfolding starts_with split
join p s = if starts_with s (codes "/") then split b'/' s else p ++ split b'/' s

-- `path.parent()`, which does not count pieces like `"."` at the end.
unfoldable pub parent : PathBuf → Option PathBuf
unfolding stays
parent [] = none
parent (c ∷ cs) = elim (parent cs) [
  | some p ↦ some (c ∷ p)
  | none ↦ if stays c then none else some []
]

-- `PathBuf::from(format!("{}{}", path.display(), w))`: the last piece with `w` behind it.
unfoldable pub append_last : PathBuf → Text → PathBuf
append_last [] w = w ∷ []
append_last (c ∷ []) w = (c ++ w) ∷ []
append_last (c ∷ d ∷ ds) w = c ∷ append_last (d ∷ ds) w

unfoldable pub at_path : Tree → PathBuf → Tree
unfolding resolve get
at_path t p = elim (resolve t [] p) [ none ↦ none | some l ↦ get t l ]

unfoldable pub exists : Tree → PathBuf → Bool
unfolding at_path
exists t p = elim (at_path t p) [ none ↦ false | some node ↦ true ]

unfoldable pub is_dir : Tree → PathBuf → Bool
unfolding at_path is_directory
is_dir t p = is_directory (at_path t p)

-- `fs::read`
unfoldable pub read : Tree → PathBuf → Option Text
unfolding at_path contents_of
read t p = contents_of (at_path t p)

-- `fs::write`: none where it fails, which leaves the tree as it was.
unfoldable pub write : Tree → PathBuf → Text → Option Tree
unfolding resolve has_parent dir_at set
write t p contents = elim (resolve t [] p) [
  | none ↦ none
  | some l ↦
      if has_parent t l && not (dir_at t l) then some (set (some (file contents)) t l) else none
]

-- `fs::remove_file`
unfoldable pub remove_file : Tree → PathBuf → Option Tree
unfolding resolve file_at has_parent set
remove_file t p = elim (resolve t [] p) [
  | none ↦ none
  | some l ↦ elim (file_at t l) [
    | none ↦ none
    | some contents ↦ if has_parent t l then some (set none t l) else none
  ]
]

-- `fs::create_dir_all` from the directory `l` on: the tree, which keeps the directories that were
-- made before a failure, and whether it succeeded.
unfoldable pub create_dirs : Tree → Location → PathBuf → Tree × Bool
unfolding stays up text_eq get set is_directory has_parent
create_dirs t l [] = (t, true)
create_dirs t l (c ∷ cs) =
    let next = step l c in
    elim (get t next) [
      | some (file contents) ↦ (t, false)
      | some (dir es) ↦ create_dirs t next cs
      | none ↦
          if has_parent t next
          then create_dirs (set (some (dir nil)) t next) next cs
          else (t, false)
    ]

unfoldable pub create_dir_all : Tree → PathBuf → Tree × Bool
unfolding create_dirs
create_dir_all t p = create_dirs t [] p

-- The last piece that is not empty, which `rmdir` refuses where it is a dot or two.
unfoldable pub removable : PathBuf → Bool
unfolding text_eq
removable [] = false
removable (c ∷ cs) =
    let rest = removable cs in
    if not (text_eq c (codes ".") || text_eq c (codes "..")) && all_empty cs
    then not (is_empty c)
    else rest
  where
    all_empty : List Text → Bool
    all_empty [] = true
    all_empty (d ∷ ds) = is_empty d && all_empty ds

-- `fs::remove_dir`, for an empty directory.
unfoldable pub remove_dir : Tree → PathBuf → Option Tree
unfolding resolve dir_at leaf get set removable
remove_dir t p = elim (resolve t [] p) [
  | none ↦ none
  | some l ↦ if dir_at t l && leaf (get t l) && removable p then some (set none t l) else none
]

-- `fs::remove_dir_all`: the tree and whether it succeeded. A directory that cannot be removed itself
-- is emptied.
unfoldable pub remove_dir_all : Tree → PathBuf → Tree × Bool
unfolding resolve dir_at set removable
remove_dir_all t p = elim (resolve t [] p) [
  | none ↦ (t, false)
  | some l ↦
      if not (dir_at t l)
      then (t, false)
      else if removable p
      then (set none t l, true)
      else (set (some (dir nil)) t l, false)
]

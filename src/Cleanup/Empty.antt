-- ===== src/Cleanup/Empty.antt =====
-- The clean-up of a bucket removes empty directories and nothing else.
use ironbucket.Base.{
  ℕ, suc, ◌+◌, ◌≡◌, refl, ◌∙◌, ◌⊎◌, inl, inr, true, false, Option, none, some, List, [], ◌∷◌, ◌++◌,
  arith, Bool-cases,
}
use ironbucket.Base.Text.{Text, codes, text_eq}
use ironbucket.Disk.{Node, file, dir, Entries, nil, entry, no_entries}
use ironbucket.Cleanup.{
  keep, remove_if_empty, remove_empty_subdir_recursive, remove_in_subdirs,
  remove_empty_dirs_in_bucket,
}

-- The files of a tree with their paths and contents, below the path given.
mutual
  pub node_files : List Text → Node → List (List Text × Text)
  node_files path (file contents) = (path, contents) ∷ []
  node_files path (dir es) = files path es

  pub files : List Text → Entries → List (List Text × Text)
  files path nil = []
  files path (entry name node rest) = node_files (path ++ name ∷ []) node ++ files path rest

-- The number of directories.
mutual
  pub node_dirs : Node → ℕ
  node_dirs (file contents) = 0
  node_dirs (dir es) = suc (dirs es)

  pub dirs : Entries → ℕ
  dirs nil = 0
  dirs (entry name node rest) = node_dirs node + dirs rest

-- No directory is empty, but one called ".multipart".
mutual
  pub NodeFull : Text → Node → Type 0
  NodeFull name (file contents) = Unit
  NodeFull name (dir es) =
      ((text_eq name (codes ".multipart") ≡ true) ⊎ (no_entries es ≡ false)) × Full es

  pub Full : Entries → Type 0
  Full nil = Unit
  Full (entry name node rest) = NodeFull name node × Full rest

option_files : List Text → Option Node → List (List Text × Text)
option_files path none = []
option_files path (some node) = node_files path node

option_dirs : Option Node → ℕ
option_dirs none = 0
option_dirs (some node) = node_dirs node

OptionFull : Text → Option Node → Type 0
OptionFull name none = Unit
OptionFull name (some node) = NodeFull name node

keep-files :
    (path : List Text) (name : Text) (o : Option Node) (rest : Entries)
    → files path (keep name o rest) ≡ option_files (path ++ name ∷ []) o ++ files path rest
unfolding files option_files
keep-files path name none rest = refl
keep-files path name (some node) rest = refl

keep-dirs :
    (name : Text) (o : Option Node) (rest : Entries)
    → dirs (keep name o rest) ≡ option_dirs o + dirs rest
unfolding dirs option_dirs
keep-dirs name none rest = omega arith
keep-dirs name (some node) rest = refl

keep-Full :
    (name : Text) (o : Option Node) (rest : Entries)
    → OptionFull name o
    → Full rest
    → Full (keep name o rest)
unfolding Full OptionFull
keep-Full name none rest h k = k
keep-Full name (some node) rest h k = (h, k)

remove_if_empty-files :
    (path : List Text) (name : Text) (es : Entries) (n : ℕ)
    → option_files path (remove_if_empty name es n).0 ≡ files path es
unfolding remove_if_empty option_files node_files no_entries
remove_if_empty-files path name nil n = elim (Bool-cases (text_eq name (codes ".multipart"))) [
  | inl e ↦ rw e
  | inr e ↦ rw e
]
remove_if_empty-files path name (entry k node rest) n =
    elim (Bool-cases (text_eq name (codes ".multipart"))) [ inl e ↦ rw e | inr e ↦ rw e ]

remove_if_empty-dirs :
    (name : Text) (es : Entries) (n : ℕ)
    → option_dirs (remove_if_empty name es n).0 + (remove_if_empty name es n).1 ≡ suc (dirs es) + n
unfolding remove_if_empty option_dirs node_dirs no_entries
remove_if_empty-dirs name nil n = elim (Bool-cases (text_eq name (codes ".multipart"))) [
  | inl e ↦ rw e
  | inr e ↦ rw e (omega arith)
]
remove_if_empty-dirs name (entry k node rest) n =
    elim (Bool-cases (text_eq name (codes ".multipart"))) [ inl e ↦ rw e | inr e ↦ rw e ]

remove_if_empty-Full :
    (name : Text) (es : Entries) (n : ℕ) → Full es → OptionFull name (remove_if_empty name es n).0
unfolding remove_if_empty OptionFull NodeFull no_entries
remove_if_empty-Full name nil n f = elim (Bool-cases (text_eq name (codes ".multipart"))) [
  | inl e ↦ rw e ((inl e, f))
  | inr e ↦ rw e tt
]
remove_if_empty-Full name (entry k node rest) n f =
    elim (Bool-cases (text_eq name (codes ".multipart"))) [
      | inl e ↦ rw e ((inl e, f))
      | inr e ↦ rw e ((inr refl, f))
    ]

mutual
  unfolding remove_empty_subdir_recursive node_files files option_files

  node-files_kept :
      (path : List Text) (name : Text) (node : Node)
      → option_files path (remove_empty_subdir_recursive name node).0 ≡ node_files path node
  node-files_kept path name (file contents) = refl
  node-files_kept path name (dir es) =
      remove_if_empty-files path name (remove_in_subdirs es).0 (remove_in_subdirs es).1
      ∙ files_kept path es

  files_kept :
      (path : List Text) (es : Entries) → files path (remove_in_subdirs es).0 ≡ files path es
  files_kept path nil = refl
  files_kept path (entry name node rest) =
      keep-files path name (remove_empty_subdir_recursive name node).0 (remove_in_subdirs rest).0
      ∙ rw (node-files_kept (path ++ name ∷ []) name node, files_kept path rest)

mutual
  unfolding remove_empty_subdir_recursive node_dirs dirs option_dirs

  node-dirs_counted :
      (name : Text) (node : Node)
      → option_dirs (remove_empty_subdir_recursive name node).0
          + (remove_empty_subdir_recursive name node).1
        ≡ node_dirs node
  node-dirs_counted name (file contents) = refl
  node-dirs_counted name (dir es) = omega (
    arith,
    remove_if_empty-dirs name (remove_in_subdirs es).0 (remove_in_subdirs es).1,
    dirs_counted es,
  )

  dirs_counted : (es : Entries) → dirs (remove_in_subdirs es).0 + (remove_in_subdirs es).1 ≡ dirs es
  dirs_counted nil = refl
  dirs_counted (entry name node rest) = omega (
    arith,
    keep-dirs name (remove_empty_subdir_recursive name node).0 (remove_in_subdirs rest).0,
    node-dirs_counted name node,
    dirs_counted rest,
  )

mutual
  unfolding remove_empty_subdir_recursive NodeFull Full OptionFull

  NodeFull-after :
      (name : Text) (node : Node) → OptionFull name (remove_empty_subdir_recursive name node).0
  NodeFull-after name (file contents) = tt
  NodeFull-after name (dir es) =
      remove_if_empty-Full name (remove_in_subdirs es).0 (remove_in_subdirs es).1 (Full-after es)

  Full-after : (es : Entries) → Full (remove_in_subdirs es).0
  Full-after nil = tt
  Full-after (entry name node rest) =
      keep-Full name (remove_empty_subdir_recursive name node).0 (remove_in_subdirs rest).0
        (NodeFull-after name node) (Full-after rest)

-- Removing the empty directories of a bucket leaves no empty directory in it, but those called
-- ".multipart".
pub remove_empty_dirs_in_bucket-Full :
    (bucket : Entries) → Full (remove_empty_dirs_in_bucket bucket).0
unfolding remove_empty_dirs_in_bucket
remove_empty_dirs_in_bucket-Full bucket = Full-after bucket

-- It keeps every file of the bucket, with its path and its contents, and the number it returns is
-- the number of directories that are gone.
pub remove_empty_dirs_in_bucket-files :
    (bucket : Entries)
    → (files [] (remove_empty_dirs_in_bucket bucket).0 ≡ files [] bucket)
      × (dirs (remove_empty_dirs_in_bucket bucket).0 + (remove_empty_dirs_in_bucket bucket).1
          ≡ dirs bucket)
unfolding remove_empty_dirs_in_bucket
remove_empty_dirs_in_bucket-files bucket = (files_kept [] bucket, dirs_counted bucket)

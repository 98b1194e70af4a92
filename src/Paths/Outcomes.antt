-- ===== src/Paths/Outcomes.antt =====
-- Chains of operations of `std::fs` that may fail: `?`, and `if path.exists()`.
use ironbucket.Base.{Bool, true, false, Option, none, some, [], ◌∷◌, ◌++◌, ◌==◌, if◌then◌else◌}
use ironbucket.Base.Text.{Text}
use ironbucket.Paths.{Tree, PathBuf, parent, exists, create_dir_all, read, write, remove_file}

-- A step that may fail, and the tree behind it, whether it failed or not.
abbrev pub Outcome : Type 0
Outcome = Tree × Bool

-- `?`: the next step, if there was no failure.
unfoldable pub and_then : Outcome → (Tree → Outcome) → Outcome
and_then (t, true) next = next t
and_then (t, false) next = (t, false)

unfoldable pub or_fail : Tree → Option Tree → Outcome
or_fail t none = (t, false)
or_fail t (some t') = (t', true)

-- `if let Some(parent) = path.parent() { fs::create_dir_all(parent)?; }`
unfoldable pub create_parent : PathBuf → Tree → Outcome
unfolding parent create_dir_all
create_parent p t = elim (parent p) [ none ↦ (t, true) | some above ↦ create_dir_all t above ]

unfoldable pub if_exists : PathBuf → (Tree → Outcome) → Tree → Outcome
unfolding exists
if_exists p next t = if exists t p then next t else (t, true)

-- `fs::rename` of a file.
unfoldable pub rename : PathBuf → PathBuf → Tree → Outcome
unfolding read remove_file write or_fail
rename source target t = elim (read t source) [
  | none ↦ (t, false)
  | some contents ↦ elim (remove_file t source) [
    | none ↦ (t, false)
    | some u ↦ elim (write u target contents) [ none ↦ (t, false) | some v ↦ (v, true) ]
  ]
]

-- What stands in front of the last dot of a name.
unfoldable pub before_dot : Text → Option Text
before_dot [] = none
before_dot (c ∷ name) = elim (before_dot name) [
  | some front ↦ some (c ∷ front)
  | none ↦ if c == b'.' then some [] else none
]

-- `Path::file_stem`, which keeps a name whose only dot is its first byte.
unfoldable pub file_stem : Text → Text
unfolding before_dot
file_stem name = elim (before_dot name) [
  | none ↦ name
  | some front ↦ elim front [ [] ↦ name | c ∷ rest ↦ c ∷ rest ]
]

unfoldable pub with_extension : Text → Text → Text
unfolding file_stem
with_extension name extension = file_stem name ++ b'.' ∷ extension

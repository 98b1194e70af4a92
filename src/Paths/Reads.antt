-- ===== src/Paths/Reads.antt =====
-- What is read at a path behind a write or a removal.
use ironbucket.Base.{
  ◌≡◌, refl, ◌∙◌, inl, inr, true, false, Option, none, some, [], ◌∷◌, Bool-cases, Option-cases,
}
use ironbucket.Base.Text.{Text}
use ironbucket.Disk.{file, dir, child}
use ironbucket.Paths.{
  Tree, PathBuf, Location, read, write, resolve, at_path, get, has_parent, dir_at, loc_eq,
  contents_of, is_directory, file_at,
}
use ironbucket.Paths.Frames.{Changed, resolve-same, loc_eq_refl}

pub read-Changed :
    (t t' : Tree) (p : PathBuf) (l : Location) (contents : Text)
    → resolve t [] p ≡ some l
    → Changed (some contents) l t t'
    → read t' p ≡ some contents
unfolding read at_path Changed file_at
read-Changed t t' p l contents e (dirs, files) =
    let e' = resolve-same t t' dirs [] p ∙ e in
    let k : contents_of (get t' l) ≡ some contents = rw (loc_eq_refl l) at (files l) in
    rw (read, at_path, e') k

pub read-Changed_other :
    (t t' : Tree) (p : PathBuf) (l m : Location) (contents : Option Text)
    → resolve t [] p ≡ some l
    → loc_eq m l ≡ false
    → Changed contents m t t'
    → read t' p ≡ read t p
unfolding read at_path Changed file_at
read-Changed_other t t' p l m contents e n (dirs, files) =
    let e' = resolve-same t t' dirs [] p ∙ e in
    let k : contents_of (get t' l) ≡ contents_of (get t l) = rw (n) at (files l) in
    rw (read, at_path, e', e) k

pub get-has_parent : (t : Tree) (l : Location) → has_parent t l ≡ false → get t l ≡ none
unfolding has_parent get
get-has_parent t [] h = absurd (cc)
get-has_parent none (c ∷ cs) h = refl
get-has_parent (some (file contents)) (c ∷ cs) h = refl
get-has_parent (some (dir es)) (c ∷ cs) h = get-has_parent (child c es) cs h

pub contents_of-is_directory : (t : Tree) → is_directory t ≡ true → contents_of t ≡ none
unfolding contents_of is_directory
contents_of-is_directory none h = refl
contents_of-is_directory (some (file contents)) h = absurd (cc)
contents_of-is_directory (some (dir es)) h = refl

-- Where a write fails there is no file.
pub read-write-none :
    (t : Tree) (p : PathBuf) (contents : Text) → write t p contents ≡ none → read t p ≡ none
unfolding write read at_path contents_of
read-write-none t p contents h = elim (Option-cases (resolve t [] p)) [
  | inl e ↦ rw (read, at_path, e) refl
  | inr (l, e) ↦ elim (Bool-cases (has_parent t l)) [
    | inr f ↦ rw (read, at_path, e, get-has_parent t l f) refl
    | inl f ↦ elim (Bool-cases (dir_at t l)) [
      | inl g ↦ rw (read, at_path, e) (contents_of-is_directory (get t l) g)
      | inr g ↦ let k = rw (write, e, f, g) at h in absurd (cc)
    ]
  ]
]

-- ===== src/Paths/Removed.antt =====
-- What is read behind the removal of a file or of a directory.
use ironbucket.Base.{
  ◌≡◌, refl, sym, ap, subst, ◌∙◌, ◌⊎◌, inl, inr, true, false, none, some, [], ◌∷◌, ◌++◌, Bool-cases,
  Option-cases, ◌==◌, append_assoc,
}
use ironbucket.Base.Text.{
  Text, codes, text_eq, text_eq_iff, ends_with, ends_with_front, split, cons_head, starts_with,
}
use ironbucket.Disk.{file, dir, nil, child}
use ironbucket.Paths.{
  Tree, PathBuf, Location, join, read, resolve, at_path, get, set, has_parent, dir_at, loc_eq,
  contents_of, is_directory, file_at, step, stays, remove_file, is_dir,
}
use ironbucket.Paths.Trees.{child-set_child, child-set_child_other}
use ironbucket.Paths.Frames.{Changed, resolve-same, resolve-more, loc_eq_refl}
use ironbucket.Paths.Suffix.{split-cons}
use ironbucket.Paths.Reads.{get-has_parent}

get-none : (l : Location) → get none l ≡ none
unfolding get
get-none [] = refl
get-none (c ∷ cs) = refl

-- Nothing but directories is in the way of a removed directory.
unfoldable pub Bare : Tree → Type 0
Bare new = (new ≡ none) ⊎ (new ≡ some (dir nil))

Bare-get : (new : Tree) (d : Text) (ds : Location) → Bare new → get new (d ∷ ds) ≡ none
unfolding get child Bare
Bare-get new d ds (inl e) = rw (e) refl
Bare-get new d ds (inr e) = rw (e) (get-none ds)

get-set_place : (new t : Tree) (l : Location) → dir_at t l ≡ true → get (set new t l) l ≡ new
unfolding get set dir_at is_directory
get-set_place new t [] h = refl
get-set_place new none (c ∷ cs) h = absurd (cc)
get-set_place new (some (file contents)) (c ∷ cs) h = absurd (cc)
get-set_place new (some (dir es)) (c ∷ cs) h =
    rw (child-set_child c (set new (child c es) cs) es) (get-set_place new (child c es) cs h)

-- No directory is there that was not.
pub dir_at-set :
    (new t : Tree) (l q : Location)
    → Bare new
    → dir_at t l ≡ true
    → dir_at (set new t l) q ≡ true
    → dir_at t q ≡ true
unfolding get set dir_at is_directory
dir_at-set new t [] [] b h k = h
dir_at-set new t [] (d ∷ ds) b h k = let n = rw (Bare-get new d ds b) at k in absurd (cc)
dir_at-set new none (c ∷ cs) q b h k = absurd (cc)
dir_at-set new (some (file contents)) (c ∷ cs) q b h k = absurd (cc)
dir_at-set new (some (dir es)) (c ∷ cs) [] b h k = refl
dir_at-set new (some (dir es)) (c ∷ cs) (d ∷ ds) b h k = elim (Bool-cases (text_eq c d)) [
  | inl e ↦
      let same = (text_eq_iff c d).0 e in
      rw (sym same) (
        dir_at-set new (child c es) cs ds b h
          (rw (sym same, child-set_child c (set new (child c es) cs) es) at k))
  | inr e ↦ rw (child-set_child_other c d (set new (child c es) cs) es e) at k
]

Bare-contents : (new : Tree) → Bare new → contents_of new ≡ none
unfolding Bare contents_of
Bare-contents new (inl e) = rw (e) refl
Bare-contents new (inr e) = rw (e) refl

pub set-read :
    (new t : Tree) (p : PathBuf) (l : Location)
    → Bare new
    → resolve t [] p ≡ some l
    → dir_at t l ≡ true
    → read (set new t l) p ≡ none
unfolding read at_path
set-read new t p l b e d = elim (Option-cases (resolve (set new t l) [] p)) [
  | inl f ↦ rw (read, at_path, f) refl
  | inr (q, f) ↦
      let back = resolve-more (set new t l) t (λ r k. dir_at-set new t l r b d k) [] p q f in
      let there : resolve (set new t l) [] p ≡ some l = f ∙ sym back ∙ e in
      rw (read, at_path, there, get-set_place new t l d) (Bare-contents new b)
]

-- Where a removal fails there is no file.
pub remove_file-none-read : (t : Tree) (p : PathBuf) → remove_file t p ≡ none → read t p ≡ none
unfolding remove_file read at_path file_at
remove_file-none-read t p h = elim (Option-cases (resolve t [] p)) [
  | inl e ↦ rw (read, at_path, e) refl
  | inr (l, e) ↦ elim (Option-cases (file_at t l)) [
    | inl f ↦ rw (read, at_path, e) f
    | inr (d, f) ↦ elim (Bool-cases (has_parent t l)) [
      | inr g ↦ rw (read, at_path, e, get-has_parent t l g) refl
      | inl g ↦ let k = rw (remove_file, e, f, g) at h in absurd (cc)
    ]
  ]
]

-- What was not read before a removal is not read behind it.
pub Changed-read-none :
    (t u : Tree) (p : PathBuf) (l : Location)
    → Changed none l t u
    → (read t p ≡ none) ⊎ (resolve t [] p ≡ some l)
    → read u p ≡ none
unfolding Changed read at_path file_at
Changed-read-none t u p l (dirs, files) h = elim (Option-cases (resolve t [] p)) [
  | inl e ↦ let e' = resolve-same t u dirs [] p ∙ e in rw (read, at_path, e') refl
  | inr (q, e) ↦
      let e' = resolve-same t u dirs [] p ∙ e in
      elim (Bool-cases (loc_eq l q)) [
        | inl f ↦ rw (read, at_path, e') (rw (f) at (files q))
        | inr f ↦
            let same : contents_of (get u q) ≡ contents_of (get t q) = rw (f) at (files q) in
            elim h [
              | inl g ↦ rw (read, at_path, e') (same ∙ (rw (read, at_path, e) at g))
              | inr g ↦
                  let r : some l ≡ some q = sym g ∙ e in
                  let z : l ≡ q = cc in
                  let k : loc_eq l q ≡ true = rw (z) (loc_eq_refl q) in absurd (cc)
            ]
      ]
]

-- A path that ends in a slash leads to directories only.
split-slash : (s : Text) → split b'/' (s ++ b'/' ∷ []) ≡ split b'/' s ++ [] ∷ []
unfolding split cons_head
split-slash [] = refl
split-slash (x ∷ s) =
    let (v, vs, e) = split-cons s in
    elim (Bool-cases (x == b'/')) [
      | inl f ↦ rw (f, split-slash s, e) refl
      | inr f ↦ rw (f, split-slash s, e) refl
    ]

resolve-slash :
    (t : Tree) (l q : Location) (p : PathBuf)
    → resolve t l (p ++ [] ∷ []) ≡ some q
    → dir_at t q ≡ true
unfolding resolve step stays
resolve-slash t l q [] h = elim (Bool-cases (dir_at t l)) [
  | inl e ↦ let k : some l ≡ some q = rw (e) at h in subst (λ r. dir_at t r ≡ true) (cc) e
  | inr e ↦ let k = rw (e) at h in absurd (cc)
]
resolve-slash t l q (c ∷ p) h = elim (Bool-cases (dir_at t l)) [
  | inl e ↦ resolve-slash t (step l c) q p (rw (e) at h)
  | inr e ↦ let k = rw (e) at h in absurd (cc)
]

join-slash :
    (t : Tree) (p : PathBuf) (q : Location) (s : Text)
    → ends_with s (codes "/") ≡ true
    → resolve t [] (join p s) ≡ some q
    → dir_at t q ≡ true
unfolding join
join-slash t p q s h e =
    let (r, f) = ends_with_front s (codes "/") h in
    let pieces : split b'/' s ≡ split b'/' r ++ [] ∷ [] = ap (split b'/') f ∙ split-slash r in
    elim (Bool-cases (starts_with s (codes "/"))) [
      | inl g ↦
          let k : resolve t [] (split b'/' r ++ [] ∷ []) ≡ some q = rw (join, g, pieces) at e in
          resolve-slash t [] q (split b'/' r) k
      | inr g ↦
          let k : resolve t [] (p ++ (split b'/' r ++ [] ∷ [])) ≡ some q =
            rw (join, g, pieces) at e in
          resolve-slash t [] q (p ++ split b'/' r) (rw (append_assoc p (split b'/' r) ([] ∷ [])) k)
    ]

-- So nothing is read where no directory is.
pub slash-read :
    (t : Tree) (p : PathBuf) (s : Text)
    → ends_with s (codes "/") ≡ true
    → is_dir t (join p s) ≡ false
    → read t (join p s) ≡ none
unfolding read at_path is_dir dir_at is_directory
slash-read t p s h n = elim (Option-cases (resolve t [] (join p s))) [
  | inl e ↦ rw (read, at_path, e) refl
  | inr (q, e) ↦
      let d = join-slash t p q s h e in let k = rw (is_dir, at_path, e) at n in absurd (cc)
]

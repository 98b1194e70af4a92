-- ===== src/Paths/Frames.antt =====
-- What an operation on the file system leaves as it was: directories, files, and where paths lead.
use ironbucket.Base.{
  ◌≡◌, refl, sym, ap, subst, ◌∙◌, ◌⊎◌, inl, inr, true, false, not, ◌&&◌, Option, none, some, List,
  [], ◌∷◌, if◌then◌else◌, Bool-cases, Option-cases, &&-eq_true, In,
}
use native.Mathlib.Omega.{arith}
use ironbucket.Base.Text.{Text, text_eq, text_eq_iff, text_eq_refl}
use ironbucket.Disk.{file, dir, Entries, nil, no_entries}
use ironbucket.Paths.{
  Tree, Location, PathBuf, loc_eq, get, set, has_parent, is_directory, contents_of, leaf, dir_at,
  file_at, step, resolve, at_path, read, write, remove_file, create_dirs, create_dir_all,
}
use ironbucket.Paths.Trees.{get-set}

pub loc_eq→eq : (p q : Location) → loc_eq p q ≡ true → p ≡ q
unfolding loc_eq
loc_eq→eq [] [] h = refl
loc_eq→eq [] (d ∷ ds) h = absurd (cc)
loc_eq→eq (c ∷ cs) [] h = absurd (cc)
loc_eq→eq (c ∷ cs) (d ∷ ds) h =
    let (e, f) = &&-eq_true (text_eq c d) (loc_eq cs ds) h in
    rw ((text_eq_iff c d).0 e, loc_eq→eq cs ds f)

pub loc_eq_refl : (p : Location) → loc_eq p p ≡ true
unfolding loc_eq
loc_eq_refl [] = refl
loc_eq_refl (c ∷ cs) = rw (text_eq_refl c, loc_eq_refl cs)

leaf-not_directory : (t : Tree) → is_directory t ≡ false → leaf t ≡ true
unfolding leaf is_directory
leaf-not_directory none h = refl
leaf-not_directory (some (file contents)) h = refl
leaf-not_directory (some (dir es)) h = absurd (cc)

-- A path leads where it led, if the directories are the same or more.
pub resolve-more :
    (t t' : Tree)
    → ((q : Location) → dir_at t q ≡ true → dir_at t' q ≡ true)
    → (l : Location) (p : PathBuf) (r : Location) → resolve t l p ≡ some r
    → resolve t' l p ≡ some r
unfolding resolve
resolve-more t t' more l [] r h = h
resolve-more t t' more l (c ∷ cs) r h = elim (Bool-cases (dir_at t l)) [
  | inl e ↦
      let k : resolve t (step l c) cs ≡ some r = rw (e) at h in
      rw (more l e) (resolve-more t t' more (step l c) cs r k)
  | inr e ↦ let k = rw (e) at h in absurd (cc)
]

pub resolve-same :
    (t t' : Tree)
    → ((q : Location) → dir_at t' q ≡ dir_at t q)
    → (l : Location) (p : PathBuf) → resolve t' l p ≡ resolve t l p
unfolding resolve
resolve-same t t' same l [] = refl
resolve-same t t' same l (c ∷ cs) = rw (same l, resolve-same t t' same (step l c) cs)

-- What changed at one place, and at no other, without a directory there before or after.
unfoldable pub Changed : Option Text → Location → Tree → Tree → Type 0
Changed contents l t t' =
    ((q : Location) → dir_at t' q ≡ dir_at t q)
    × ((q : Location) → file_at t' q ≡ (if loc_eq l q then contents else file_at t q))

set-Changed :
    (new t : Tree) (l : Location)
    → is_directory new ≡ false
    → dir_at t l ≡ false
    → has_parent t l ≡ true
    → Changed (contents_of new) l t (set new t l)
unfolding Changed dir_at file_at
set-Changed new t l n d h = (dirs, files)
  where
    below : leaf (get t l) ≡ true
    below = leaf-not_directory (get t l) d

    files :
        (q : Location)
        → contents_of (get (set new t l) q)
          ≡ (if loc_eq l q then contents_of new else contents_of (get t q))
    files q = get-set contents_of new t l q (λ es es'. refl) (leaf-not_directory new n) below h

    dirs : (q : Location) → is_directory (get (set new t l) q) ≡ is_directory (get t q)
    dirs q =
        get-set is_directory new t l q (λ es es'. refl) (leaf-not_directory new n) below h
        ∙ elim (Bool-cases (loc_eq l q)) [
          | inl e ↦ rw (e, n, sym (loc_eq→eq l q e), d)
          | inr e ↦ rw (e)
        ]

file_at-dir_at : (t : Tree) (l : Location) (d : Text) → file_at t l ≡ some d → dir_at t l ≡ false
unfolding file_at dir_at
file_at-dir_at t l d h = by_node (get t l) h
  where
    by_node : (n : Tree) → contents_of n ≡ some d → is_directory n ≡ false
    by_node none k = refl
    by_node (some (file contents)) k = refl
    by_node (some (dir es)) k = absurd (cc)

-- A write that succeeds changes the file that its path leads to.
pub write-Changed :
    (t t' : Tree) (p : PathBuf) (contents : Text)
    → write t p contents ≡ some t'
    → (l : Location) × (resolve t [] p ≡ some l) × Changed (some contents) l t t'
unfolding write contents_of
write-Changed t t' p contents h = elim (Option-cases (resolve t [] p)) [
  | inl e ↦ let k = rw (write, e) at h in absurd (cc)
  | inr (l, e) ↦ elim (Bool-cases (has_parent t l && not (dir_at t l))) [
    | inr f ↦ let k = rw (write, e, f) at h in absurd (cc)
    | inl f ↦
        let same : some (set (some (file contents)) t l) ≡ some t' = rw (write, e, f) at h in
        let (parent, free) = &&-eq_true (has_parent t l) (not (dir_at t l)) f in
        let changed = set-Changed (some (file contents)) t l refl (ground arith) parent in
        (l, e, subst (λ u. Changed (some contents) l t u) (cc) changed)
  ]
]

-- So does a removal.
pub remove_file-Changed :
    (t t' : Tree) (p : PathBuf)
    → remove_file t p ≡ some t'
    → (l : Location) × (resolve t [] p ≡ some l) × Changed none l t t'
unfolding remove_file contents_of
remove_file-Changed t t' p h = elim (Option-cases (resolve t [] p)) [
  | inl e ↦ let k = rw (remove_file, e) at h in absurd (cc)
  | inr (l, e) ↦ elim (Option-cases (file_at t l)) [
    | inl f ↦ let k = rw (remove_file, e, f) at h in absurd (cc)
    | inr (old, f) ↦ elim (Bool-cases (has_parent t l)) [
      | inr g ↦ let k = rw (remove_file, e, f, g) at h in absurd (cc)
      | inl g ↦
          let same : some (set none t l) ≡ some t' = rw (remove_file, e, f, g) at h in
          let changed = set-Changed none t l refl (file_at-dir_at t l old f) g in
          (l, e, subst (λ u. Changed none l t u) (cc) changed)
    ]
  ]
]

-- The paths lead to the place.
abbrev pub Leads : Tree → Location → List PathBuf → Type 0
Leads t q [] = ⊥
Leads t q (p ∷ ps) = (resolve t [] p ≡ some q) ⊎ Leads t q ps

-- The directories are the same or more, and so are the files, but for those that the paths lead to.
unfoldable pub Keeps : List PathBuf → Tree → Tree → Type 0
Keeps ps t t' =
    ((q : Location) → dir_at t q ≡ true → dir_at t' q ≡ true)
    × ((q : Location) (d : Text) → file_at t q ≡ some d → (file_at t' q ≡ some d) ⊎ Leads t' q ps)

pub Leads-more :
    (t t' : Tree) (q : Location) (ps : List PathBuf)
    → ((q : Location) → dir_at t q ≡ true → dir_at t' q ≡ true)
    → Leads t q ps
    → Leads t' q ps
Leads-more t t' q [] more h = h
Leads-more t t' q (p ∷ ps) more (inl e) = inl (resolve-more t t' more [] p q e)
Leads-more t t' q (p ∷ ps) more (inr h) = inr (Leads-more t t' q ps more h)

pub Leads-In :
    (t : Tree) (q : Location) (p : PathBuf) (ps : List PathBuf)
    → In p ps
    → resolve t [] p ≡ some q
    → Leads t q ps
Leads-In t q p [] i h = elim i [ ]
Leads-In t q p (r ∷ ps) (inl e) h = inl (rw (sym e) h)
Leads-In t q p (r ∷ ps) (inr i) h = inr (Leads-In t q p ps i h)

pub Keeps-refl : (ps : List PathBuf) (t : Tree) → Keeps ps t t
unfolding Keeps
Keeps-refl ps t = (λ q h. h, λ q d h. inl h)

pub Keeps-trans : (ps : List PathBuf) (t u v : Tree) → Keeps ps t u → Keeps ps u v → Keeps ps t v
unfolding Keeps
Keeps-trans ps t u v (dirs, files) (dirs', files') = (
  λ q h. dirs' q (dirs q h),
  λ q d h. elim (files q d h) [
    | inl e ↦ files' q d e
    | inr leads ↦ inr (Leads-more u v q ps dirs' leads)
  ],
)

pub Changed-Keeps :
    (contents : Option Text) (l : Location) (t t' : Tree) (p : PathBuf) (ps : List PathBuf)
    → In p ps
    → resolve t [] p ≡ some l
    → Changed contents l t t'
    → Keeps ps t t'
unfolding Changed Keeps
Changed-Keeps contents l t t' p ps i e (dirs, files) = (
  λ q h. dirs q ∙ h,
  λ q d h. elim (Bool-cases (loc_eq l q)) [
    | inl f ↦
        inr (Leads-In t' q p ps i (resolve-same t t' dirs [] p ∙ e ∙ ap some (loc_eq→eq l q f)))
    | inr f ↦ let k : file_at t' q ≡ file_at t q = rw (f) at (files q) in inl (k ∙ h)
  ],
)

Tree-cases :
    (o : Tree)
    → (o ≡ none)
      ⊎ ((contents : Text) × (o ≡ some (file contents)))
      ⊎ ((es : Entries) × (o ≡ some (dir es)))
Tree-cases none = inl refl
Tree-cases (some (file contents)) = inr (inl (contents, refl))
Tree-cases (some (dir es)) = inr (inr (es, refl))

made-Keeps :
    (ps : List PathBuf) (t : Tree) (l : Location)
    → get t l ≡ none
    → has_parent t l ≡ true
    → Keeps ps t (set (some (dir nil)) t l)
unfolding Keeps dir_at file_at leaf no_entries is_directory contents_of
made-Keeps ps t l e h = (λ q d. dirs q d, λ q d k. inl (files q d k))
  where
    below : leaf (get t l) ≡ true
    below = rw (e) refl

    dirs :
        (q : Location)
        → is_directory (get t q) ≡ true
        → is_directory (get (set (some (dir nil)) t l) q) ≡ true
    dirs q d =
        get-set is_directory (some (dir nil)) t l q (λ es es'. refl) refl below h
        ∙ elim (Bool-cases (loc_eq l q)) [ inl f ↦ rw (f) refl | inr f ↦ rw (f) d ]

    files :
        (q : Location) (d : Text)
        → contents_of (get t q) ≡ some d
        → contents_of (get (set (some (dir nil)) t l) q) ≡ some d
    files q d k =
        get-set contents_of (some (dir nil)) t l q (λ es es'. refl) refl below h
        ∙ elim (Bool-cases (loc_eq l q)) [
          | inl f ↦
              let gone : contents_of none ≡ some d = rw (sym (loc_eq→eq l q f), e) at k in
              absurd (cc (gone))
          | inr f ↦ rw (f) k
        ]

-- What `fs::create_dir_all` makes is directories only.
create_dirs-Keeps :
    (ps : List PathBuf) (t : Tree) (l : Location) (p : PathBuf) → Keeps ps t (create_dirs t l p).0
unfolding create_dirs
create_dirs-Keeps ps t l [] = Keeps-refl ps t
create_dirs-Keeps ps t l (c ∷ cs) = elim (Tree-cases (get t (step l c))) [
  | inl e ↦ elim (Bool-cases (has_parent t (step l c))) [
    | inr h ↦ rw (create_dirs, e, h) (Keeps-refl ps t)
    | inl h ↦
        let made = set (some (dir nil)) t (step l c) in
        rw (create_dirs, e, h)
          (Keeps-trans ps t made (create_dirs made (step l c) cs).0 (made-Keeps ps t (step l c) e h)
            (create_dirs-Keeps ps made (step l c) cs))
  ]
  | inr (inl (contents, e)) ↦ rw (create_dirs, e) (Keeps-refl ps t)
  | inr (inr (es, e)) ↦ rw (create_dirs, e) (create_dirs-Keeps ps t (step l c) cs)
]

pub create_dir_all-Keeps :
    (ps : List PathBuf) (t : Tree) (p : PathBuf) → Keeps ps t (create_dir_all t p).0
unfolding create_dir_all
create_dir_all-Keeps ps t p = create_dirs-Keeps ps t [] p

-- A file that is read at a path is read there still, unless the path leads where one of the others
-- does.
pub Keeps-read :
    (ps : List PathBuf) (t t' : Tree) (p : PathBuf) (d : Text)
    → Keeps ps t t'
    → read t p ≡ some d
    → (read t' p ≡ some d) ⊎ ((q : Location) × (resolve t' [] p ≡ some q) × Leads t' q ps)
unfolding Keeps read at_path file_at
Keeps-read ps t t' p d (dirs, files) h = elim (Option-cases (resolve t [] p)) [
  | inl e ↦ let k = rw (read, at_path, e, contents_of) at h in absurd (cc)
  | inr (q, e) ↦
      let k : contents_of (get t q) ≡ some d = rw (read, at_path, e) at h in
      let e' = resolve-more t t' dirs [] p q e in
      elim (files q d k) [ inl f ↦ inl (rw (read, at_path, e') f) | inr leads ↦ inr (q, e', leads) ]
]

-- ===== src/Paths/Fewer.antt =====
-- Removals after which nothing is read that was not read before.
use ironbucket.Base.{
  ◌≡◌, refl, sym, ◌∙◌, ◌⊎◌, inl, inr, true, false, none, some, List, [], Bool-cases, Option-cases,
}
use ironbucket.Paths.{
  Tree, PathBuf, Location, exists, is_dir, read, resolve, at_path, get, set, dir_at, is_directory,
  file_at, contents_of, leaf, has_parent, remove_dir, removable, loc_eq,
}
use ironbucket.Paths.Trees.{get-set}
use ironbucket.Paths.Reads.{get-has_parent, contents_of-is_directory}
use ironbucket.Paths.Frames.{Changed, Leads, Leads-more, resolve-more}
use ironbucket.Paths.Touches.{Touches, LeadsTo}
use ironbucket.Paths.Removed.{Bare, dir_at-set}

-- No directory is new, and no file but where the paths led.
unfoldable pub Fewer : List PathBuf → Tree → Tree → Type 0
Fewer ps t u =
    ((q : Location) → dir_at u q ≡ true → dir_at t q ≡ true)
    × ((q : Location) → file_at t q ≡ none → (file_at u q ≡ none) ⊎ Leads t q ps)

pub Fewer-refl : (ps : List PathBuf) (t : Tree) → Fewer ps t t
unfolding Fewer
Fewer-refl ps t = (λ q h. h, λ q h. inl h)

pub Fewer-trans : (ps : List PathBuf) (t u v : Tree) → Fewer ps t u → Fewer ps u v → Fewer ps t v
unfolding Fewer
Fewer-trans ps t u v (dirs, files) (dirs', files') = (
  λ q h. dirs q (dirs' q h),
  λ q h. elim (files q h) [
    | inr k ↦ inr k
    | inl e ↦ elim (files' q e) [ inl f ↦ inl f | inr k ↦ inr (Leads-more u t q ps dirs k) ]
  ],
)

pub Touches-Fewer : (ps : List PathBuf) (t u : Tree) → Touches ps t u → Fewer ps t u
unfolding Fewer Touches
Touches-Fewer ps t u (dirs, files) =
    (λ q h. sym (dirs q) ∙ h, λ q h. elim (files q) [ inl e ↦ inl (e ∙ h) | inr k ↦ inr k ])

-- A removal of a file.
pub Changed-Fewer :
    (ps : List PathBuf) (l : Location) (t u : Tree) → Changed none l t u → Fewer ps t u
unfolding Fewer Changed
Changed-Fewer ps l t u (dirs, files) = (
  λ q h. sym (dirs q) ∙ h,
  λ q h. inl (files q ∙ elim (Bool-cases (loc_eq l q)) [ inl e ↦ rw (e) | inr e ↦ rw (e) h ]),
)

pub Fewer-LeadsTo :
    (ps qs : List PathBuf) (t u : Tree) (p : PathBuf)
    → Fewer ps t u
    → LeadsTo u p qs
    → LeadsTo t p qs
unfolding Fewer
Fewer-LeadsTo ps qs t u p (dirs, files) (q, e, k) =
    (q, resolve-more u t dirs [] p q e, Leads-more u t q qs dirs k)

-- What was read nowhere is read nowhere, or where the paths led.
pub Fewer-read :
    (ps : List PathBuf) (t u : Tree) (p : PathBuf)
    → Fewer ps t u
    → read t p ≡ none
    → (read u p ≡ none) ⊎ LeadsTo t p ps
unfolding Fewer read at_path file_at contents_of
Fewer-read ps t u p (dirs, files) h = elim (Option-cases (resolve u [] p)) [
  | inl e ↦ inl (rw (read, at_path, e) refl)
  | inr (q, e) ↦
      let back = resolve-more u t dirs [] p q e in
      let old : contents_of (get t q) ≡ none = rw (read, at_path, back) at h in
      elim (files q old) [ inl f ↦ inl (rw (read, at_path, e) f) | inr k ↦ inr (q, back, k) ]
]

-- The directory that is removed, as a place.
pub remove_dir-some :
    (t u : Tree) (p : PathBuf)
    → remove_dir t p ≡ some u
    → (l : Location) × (resolve t [] p ≡ some l)
      × (dir_at t l ≡ true)
      × (leaf (get t l) ≡ true)
      × (set none t l ≡ u)
unfolding remove_dir
remove_dir-some t u p h = elim (Option-cases (resolve t [] p)) [
  | inl e ↦ let k = rw (remove_dir, e) at h in absurd (cc)
  | inr (l, e) ↦ elim (Bool-cases (dir_at t l)) [
    | inr d ↦ let k = rw (remove_dir, e, d) at h in absurd (cc)
    | inl d ↦ elim (Bool-cases (leaf (get t l))) [
      | inr f ↦ let k = rw (remove_dir, e, d, f) at h in absurd (cc)
      | inl f ↦ elim (Bool-cases (removable p)) [
        | inr g ↦ let k = rw (remove_dir, e, d, f, g) at h in absurd (cc)
        | inl g ↦
            let k : some (set none t l) ≡ some u = rw (remove_dir, e, d, f, g) at h in
            (l, e, d, f, cc)
      ]
    ]
  ]
]

has_parent-dir : (t : Tree) (l : Location) → dir_at t l ≡ true → has_parent t l ≡ true
unfolding dir_at is_directory
has_parent-dir t l d = elim (Bool-cases (has_parent t l)) [
  | inl e ↦ e
  | inr e ↦ let k = rw (get-has_parent t l e) at d in absurd (cc)
]

pub set-Fewer :
    (ps : List PathBuf) (t : Tree) (l : Location)
    → dir_at t l ≡ true
    → leaf (get t l) ≡ true
    → Fewer ps t (set none t l)
unfolding Fewer file_at contents_of leaf Bare
set-Fewer ps t l d f = (
  λ q k. dir_at-set none t l q (inl refl) d k,
  λ q old.
      let same = get-set contents_of none t l q (λ es es'. refl) refl f (has_parent-dir t l d) in
      inl (same ∙ elim (Bool-cases (loc_eq l q)) [ inl g ↦ rw (g) | inr g ↦ rw (g) old ]),
)

pub is_dir-read : (t : Tree) (p : PathBuf) → is_dir t p ≡ true → read t p ≡ none
unfolding is_dir read
is_dir-read t p h = contents_of-is_directory (at_path t p) h

pub exists-read : (t : Tree) (p : PathBuf) → exists t p ≡ false → read t p ≡ none
unfolding exists read contents_of
exists-read t p h = elim (Option-cases (at_path t p)) [
  | inl e ↦ rw (read, e) refl
  | inr (node, e) ↦ let k = rw (exists, e) at h in absurd (cc)
]

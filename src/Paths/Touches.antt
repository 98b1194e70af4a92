-- ===== src/Paths/Touches.antt =====
-- Operations after which only the files change that some paths lead to, and no directory.
use ironbucket.Base.{
  ◌≡◌, refl, sym, ap, ◌∙◌, ◌⊎◌, inl, inr, true, false, Option, none, some, List, [], ◌∷◌,
  Bool-cases, Option-cases, In,
}
use ironbucket.Base.Text.{Text}
use ironbucket.Paths.{
  Tree, PathBuf, Location, read, write, remove_file, resolve, at_path, dir_at, file_at, loc_eq,
}
use ironbucket.Paths.Frames.{
  Changed, Leads, Leads-In, Keeps, write-Changed, remove_file-Changed, resolve-same, loc_eq→eq,
}
use ironbucket.Paths.Outcomes.{Outcome, and_then, or_fail, rename}

unfoldable pub Touches : List PathBuf → Tree → Tree → Type 0
Touches ps t t' =
    ((q : Location) → dir_at t' q ≡ dir_at t q)
    × ((q : Location) → (file_at t' q ≡ file_at t q) ⊎ Leads t q ps)

pub Touches-refl : (ps : List PathBuf) (t : Tree) → Touches ps t t
unfolding Touches
Touches-refl ps t = (λ q. refl, λ q. inl refl)

pub Leads-same :
    (t u : Tree) (q : Location) (ps : List PathBuf)
    → ((r : Location) → dir_at u r ≡ dir_at t r)
    → Leads u q ps
    → Leads t q ps
Leads-same t u q [] same h = h
Leads-same t u q (p ∷ ps) same (inl e) = inl (sym (resolve-same t u same [] p) ∙ e)
Leads-same t u q (p ∷ ps) same (inr h) = inr (Leads-same t u q ps same h)

pub Touches-trans :
    (ps : List PathBuf) (t u v : Tree) → Touches ps t u → Touches ps u v → Touches ps t v
unfolding Touches
Touches-trans ps t u v (dirs, files) (dirs', files') = (
  λ q. dirs' q ∙ dirs q,
  λ q. elim (files' q) [
    | inr h ↦ inr (Leads-same t u q ps dirs h)
    | inl e ↦ elim (files q) [ inr h ↦ inr h | inl f ↦ inl (e ∙ f) ]
  ],
)

pub Changed-Touches :
    (contents : Option Text) (l : Location) (t t' : Tree) (p : PathBuf) (ps : List PathBuf)
    → In p ps
    → resolve t [] p ≡ some l
    → Changed contents l t t'
    → Touches ps t t'
unfolding Touches Changed
Changed-Touches contents l t t' p ps i e (dirs, files) = (
  dirs,
  λ q. elim (Bool-cases (loc_eq l q)) [
    | inl f ↦ inr (Leads-In t q p ps i (e ∙ ap some (loc_eq→eq l q f)))
    | inr f ↦ let k : file_at t' q ≡ file_at t q = rw (f) at (files q) in inl k
  ],
)

pub Touches-Keeps : (ps : List PathBuf) (t t' : Tree) → Touches ps t t' → Keeps ps t t'
unfolding Touches Keeps
Touches-Keeps ps t t' (dirs, files) = (
  λ q h. dirs q ∙ h,
  λ q d h. elim (files q) [
    | inl e ↦ inl (e ∙ h)
    | inr k ↦ inr (Leads-same t' t q ps (λ r. sym (dirs r)) k)
  ],
)

-- What a path reads is the same, unless it leads where one of the paths does.
abbrev pub LeadsTo : Tree → PathBuf → List PathBuf → Type 0
LeadsTo t p ps = (q : Location) × (resolve t [] p ≡ some q) × Leads t q ps

pub Touches-read :
    (ps : List PathBuf) (t t' : Tree) (p : PathBuf)
    → Touches ps t t'
    → (read t' p ≡ read t p) ⊎ LeadsTo t' p ps
unfolding Touches read at_path file_at
Touches-read ps t t' p (dirs, files) = elim (Option-cases (resolve t [] p)) [
  | inl e ↦ let e' = resolve-same t t' dirs [] p ∙ e in inl (rw (read, at_path, e, e') refl)
  | inr (q, e) ↦
      let e' = resolve-same t t' dirs [] p ∙ e in
      elim (files q) [
        | inl f ↦ inl (rw (read, at_path, e, e') f)
        | inr k ↦ inr (q, e', Leads-same t' t q ps (λ r. sym (dirs r)) k)
      ]
]

pub or_write-Touches :
    (ps : List PathBuf) (t : Tree) (p : PathBuf) (contents : Text)
    → In p ps
    → Touches ps t (or_fail t (write t p contents)).0
unfolding or_fail
or_write-Touches ps t p contents i = elim (Option-cases (write t p contents)) [
  | inl e ↦ rw (or_fail, e) (Touches-refl ps t)
  | inr (u, e) ↦
      let (l, led, changed) = write-Changed t u p contents e in
      rw (or_fail, e) (Changed-Touches (some contents) l t u p ps i led changed)
]

pub and_then-Touches :
    (ps : List PathBuf) (t : Tree) (o : Outcome) (next : Tree → Outcome)
    → Touches ps t o.0
    → ((u : Tree) → Touches ps u (next u).0)
    → Touches ps t (and_then o next).0
unfolding and_then
and_then-Touches ps t (u, true) next k more = Touches-trans ps t u (next u).0 k (more u)
and_then-Touches ps t (u, false) next k more = k

pub rename-Touches :
    (ps : List PathBuf) (source target : PathBuf) (t : Tree)
    → In source ps
    → In target ps
    → Touches ps t (rename source target t).0
unfolding rename
rename-Touches ps source target t i j = elim (Option-cases (read t source)) [
  | inl r ↦ rw (rename, r) (Touches-refl ps t)
  | inr (contents, r) ↦ elim (Option-cases (remove_file t source)) [
    | inl e ↦ rw (rename, r, e) (Touches-refl ps t)
    | inr (u, e) ↦ elim (Option-cases (write u target contents)) [
      | inl f ↦ rw (rename, r, e, f) (Touches-refl ps t)
      | inr (v, f) ↦
          let (l, led, gone) = remove_file-Changed t u source e in
          let (k, led', changed) = write-Changed u v target contents f in
          rw (rename, r, e, f)
            (Touches-trans ps t u v (Changed-Touches none l t u source ps i led gone)
              (Changed-Touches (some contents) k u v target ps j led' changed))
    ]
  ]
]

-- The same for more paths.
Leads-within :
    (t : Tree) (q : Location) (qs ps : List PathBuf)
    → ((p : PathBuf) → In p qs → In p ps)
    → Leads t q qs
    → Leads t q ps
Leads-within t q [] ps more h = elim h [ ]
Leads-within t q (p ∷ qs) ps more (inl e) = Leads-In t q p ps (more p (inl refl)) e
Leads-within t q (p ∷ qs) ps more (inr h) = Leads-within t q qs ps (λ r i. more r (inr i)) h

pub Touches-within :
    (qs ps : List PathBuf) (t t' : Tree)
    → ((p : PathBuf) → In p qs → In p ps)
    → Touches qs t t'
    → Touches ps t t'
unfolding Touches
Touches-within qs ps t t' more (dirs, files) =
    (dirs, λ q. elim (files q) [ inl e ↦ inl e | inr h ↦ inr (Leads-within t q qs ps more h) ])

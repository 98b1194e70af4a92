-- ===== src/Replicator/Converge.antt =====
-- What stands at another node behind a PUT.
use ironbucket.Base.{
  ◌≡◌, refl, sym, ap, subst, ◌∙◌, ◌⊎◌, inl, inr, true, false, none, some, List, [], ◌∷◌, ◌++◌,
  Bool-cases, Option-cases, arith, if◌then◌else◌,
}
use ironbucket.Base.Text.{Text, codes, text_eq, starts_with}
use ironbucket.Paths.{
  Tree, PathBuf, Location, join, parent, read, write, exists, resolve, at_path, contents_of, loc_eq,
  dir_at,
}
use ironbucket.Paths.Frames.{
  Keeps, Keeps-refl, Keeps-read, create_dir_all-Keeps, write-Changed, resolve-same, loc_eq→eq,
  Changed,
}
use ironbucket.Paths.Reads.{read-Changed, read-Changed_other}
use ironbucket.Paths.Suffix.{resolve-apart, split-cons}
use ironbucket.Paths.Written.{and_then-true}
use ironbucket.Paths.Touches.{Touches, Touches-refl, LeadsTo, or_write-Touches}
use ironbucket.Replicator.{WalEntry}
use ironbucket.Replicator.Targets.{
  and_then, or_fail, create_parent, same_place, copy, metadata_of, if_exists, send_put, send_entry,
}

read-exists : (t : Tree) (p : PathBuf) (d : Text) → read t p ≡ some d → exists t p ≡ true
unfolding read exists contents_of
read-exists t p d h = by_node (at_path t p) refl
  where
    by_node : (o : Tree) → at_path t p ≡ o → exists t p ≡ true
    by_node none e = let k = rw (read, e) at h in absurd (cc)
    by_node (some node) e = rw (exists, e) refl

pub create_parent-Keeps :
    (ps : List PathBuf) (p : PathBuf) (t : Tree) → Keeps ps t (create_parent p t).0
unfolding create_parent
create_parent-Keeps ps p t = elim (Option-cases (parent p)) [
  | inl e ↦ rw (create_parent, e) (Keeps-refl ps t)
  | inr (q, e) ↦ rw (create_parent, e) (create_dir_all-Keeps ps t q)
]

-- What was read before the directories were made is read behind them.
Keeps-read_all :
    (t u : Tree) (p : PathBuf) (d : Text) → Keeps [] t u → read t p ≡ some d → read u p ≡ some d
Keeps-read_all t u p d k h = elim (Keeps-read [] t u p d k h) [
  | inl e ↦ e
  | inr (q, e, leads) ↦ elim leads [ ]
]

same_place-led :
    (t : Tree) (p q : PathBuf)
    → same_place t p q ≡ true
    → (l : Location) × (resolve t [] p ≡ some l) × (resolve t [] q ≡ some l)
unfolding same_place
same_place-led t p q h = elim (Option-cases (resolve t [] p)) [
  | inl e ↦ let k = rw (same_place, e) at h in absurd (cc)
  | inr (l, e) ↦ elim (Option-cases (resolve t [] q)) [
    | inl f ↦ let k = rw (same_place, e, f) at h in absurd (cc)
    | inr (k, f) ↦
        let same : loc_eq l k ≡ true = rw (same_place, e, f) at h in
        (l, e, f ∙ ap some (sym (loc_eq→eq l k same)))
  ]
]

-- A copy makes and removes no directory.
copy-Touches :
    (source target : PathBuf) (t : Tree) → Touches (target ∷ []) t (copy source target t).0
unfolding copy
copy-Touches source target t = elim (Option-cases (read t source)) [
  | inl e ↦ rw (copy, e) (Touches-refl (target ∷ []) t)
  | inr (d, e) ↦ rw (copy, e) (or_write-Touches (target ∷ []) t target _ (inl refl))
]

-- A copy that succeeds writes what it read, or nothing where it is onto itself.
copy-write :
    (source target : PathBuf) (t t' : Tree)
    → copy source target t ≡ (t', true)
    → (d : Text) × (read t source ≡ some d)
      × (write t target (if same_place t source target then [] else d) ≡ some t')
unfolding copy or_fail
copy-write source target t t' h = elim (Option-cases (read t source)) [
  | inl e ↦ let k : false ≡ true = ap (λ o. o.1) (rw (copy, e) at h) in absurd (cc)
  | inr (d, e) ↦
      elim (Option-cases (write t target (if same_place t source target then [] else d))) [
        | inl f ↦ let k : false ≡ true = ap (λ o. o.1) (rw (copy, e, f) at h) in absurd (cc)
        | inr (u, f) ↦
            let k : (u, true) ≡ (t', true) = rw (copy, e, f) at h in
            (d, e, f ∙ ap (λ o. some o.0) k)
      ]
]

-- The metadata file is not the object.
copy_metadata-read :
    (source : PathBuf) (c : Text) (p : PathBuf) (t t' : Tree) (l : Location)
    → resolve t [] (c ∷ p) ≡ some l
    → if_exists (metadata_of source) (copy (metadata_of source) (metadata_of (c ∷ p))) t
      ≡ (t', true)
    → (read t' (c ∷ p) ≡ read t (c ∷ p)) × ((q : Location) → dir_at t' q ≡ dir_at t q)
unfolding if_exists metadata_of Touches
copy_metadata-read source c p t t' l e h = elim (Bool-cases (exists t (metadata_of source))) [
  | inr f ↦
      let k : (t, true) ≡ (t', true) = rw (if_exists, f) at h in
      (ap (λ o. read o.0 (c ∷ p)) (sym k), λ q. ap (λ o. dir_at o.0 q) (sym k))
  | inl f ↦
      let copied : copy (metadata_of source) (metadata_of (c ∷ p)) t ≡ (t', true) =
        rw (if_exists, f) at h in
      let (d, g, w) = copy-write (metadata_of source) (metadata_of (c ∷ p)) t t' copied in
      let (k, r, changed) = write-Changed t t' (metadata_of (c ∷ p)) _ w in
      let other : loc_eq k l ≡ false = elim (Bool-cases (loc_eq k l)) [
        | inr n ↦ n
        | inl n ↦ absurd (
            resolve-apart t [] l c p (codes ".metadata") (omega arith) e
              (r ∙ ap some (loc_eq→eq k l n)))
      ] in
      (
        read-Changed_other t t' (c ∷ p) l k (some _) e other changed,
        λ q.
            ap (λ o. dir_at o.0 q) (sym copied)
            ∙ (copy-Touches (metadata_of source) (metadata_of (c ∷ p)) t).0 q,
      )
]

send_put-read :
    (source : PathBuf) (c : Text) (p : PathBuf) (t t' : Tree) (d : Text)
    → read t source ≡ some d
    → send_put source (c ∷ p) t ≡ (t', true)
    → (read t' (c ∷ p) ≡ some d) ⊎ LeadsTo t' (c ∷ p) (source ∷ [])
unfolding send_put if_exists Changed
send_put-read source c p t t' d h sent =
    let there = read-exists t source d h in
    let both : and_then (and_then (create_parent (c ∷ p) t) (copy source (c ∷ p)))
          (if_exists (metadata_of source) (copy (metadata_of source) (metadata_of (c ∷ p))))
        ≡ (t', true) =
      rw (send_put, there) at sent in
    let object = and_then (create_parent (c ∷ p) t) (copy source (c ∷ p)) in
    let (first, second) =
      and_then-true object
        (if_exists (metadata_of source) (copy (metadata_of source) (metadata_of (c ∷ p)))) t'
        both in
    let made = (create_parent (c ∷ p) t).0 in
    let (made_ok, copied) =
      and_then-true (create_parent (c ∷ p) t) (copy source (c ∷ p)) object.0 first in
    let (e, found, written) = copy-write source (c ∷ p) made object.0 copied in
    let kept = Keeps-read_all t made source d (create_parent-Keeps [] (c ∷ p) t) h in
    let same : some e ≡ some d = sym found ∙ kept in
    let (l, led, changed) = write-Changed made object.0 (c ∷ p) _ written in
    let led' = resolve-same made object.0 changed.0 [] (c ∷ p) ∙ led in
    let (rest, dirs) = copy_metadata-read source c p object.0 t' l led' second in
    let still : (r : PathBuf) → resolve t' [] r ≡ resolve made [] r =
      λ r. resolve-same object.0 t' dirs [] r ∙ resolve-same made object.0 changed.0 [] r in
    elim (Bool-cases (same_place made source (c ∷ p))) [
      | inl f ↦
          let (k, at_source, at_target) = same_place-led made source (c ∷ p) f in
          inr (k, still (c ∷ p) ∙ at_target, inl (still source ∙ at_source))
      | inr f ↦ inl (
          rest
          ∙ read-Changed made object.0 (c ∷ p) l _ led changed
          ∙ ap (λ b. some (if b then [] else e)) f
          ∙ same)
    ]

join-cons : (p : PathBuf) (s : Text) → (c : Text) × (q : PathBuf) × (join p s ≡ c ∷ q)
unfolding join
join-cons p s =
    let (v, vs, e) = split-cons s in
    elim (Bool-cases (starts_with s (codes "/"))) [
      | inl f ↦ (v, vs, rw (join, f) e)
      | inr f ↦ by_path p v vs (rw (join, f) (ap (λ r. p ++ r) e))
    ]
  where
    by_path :
        (r : PathBuf) (v : Text) (vs : PathBuf)
        → join p s ≡ r ++ v ∷ vs
        → (c : Text) × (q : PathBuf) × (join p s ≡ c ∷ q)
    by_path [] v vs h = (v, vs, h)
    by_path (c ∷ r) v vs h = (c, r ++ v ∷ vs, h)

-- Where an entry tells of an upload and its object is read in the replicator's own storage, and
-- sending it to another node succeeds: the object is read at the node with the same contents, unless
-- its path there leads to the same place as the one in the own storage.
pub send_entry-read :
    (metadata : Text) (storage target : PathBuf) (entry : WalEntry) (t t' : Tree) (d : Text)
    → text_eq entry.operation (codes "PUT") ≡ true
    → read t (join (join storage entry.bucket) entry.key) ≡ some d
    → send_entry metadata storage target entry t ≡ (t', true)
    → (read t' (join (join target entry.bucket) entry.key) ≡ some d)
      ⊎ LeadsTo t'
          (join (join target entry.bucket) entry.key)
          (join (join storage entry.bucket) entry.key ∷ [])
unfolding send_entry
send_entry-read metadata storage target entry t t' d op h sent =
    let (c, q, e) = join-cons (join target entry.bucket) entry.key in
    let put : send_put (join (join storage entry.bucket) entry.key)
          (join (join target entry.bucket) entry.key) t
        ≡ (t', true) =
      rw (send_entry, op) at sent in
    let source = join (join storage entry.bucket) entry.key in
    subst
      (λ r. send_put source r t ≡ (t', true) → (read t' r ≡ some d) ⊎ LeadsTo t' r (source ∷ []))
      (sym e) (send_put-read source c q t t' d h) put

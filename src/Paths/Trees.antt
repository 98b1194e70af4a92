-- ===== src/Paths/Trees.antt =====
-- What stands where after one change of the tree.
use ironbucket.Base.{
  ◌≡◌, refl, sym, inl, inr, true, false, none, some, [], ◌∷◌, if◌then◌else◌, Bool-cases,
}
use ironbucket.Base.Text.{Text, text_eq, text_eq_iff, text_eq_refl}
use ironbucket.Disk.{file, dir, Entries, nil, entry, child, no_entries}
use ironbucket.Filesystem.Config.{
  child-put_child, child-put_child_other, child-remove_child, child-remove_child_other,
}
use ironbucket.Paths.{Tree, Location, loc_eq, get, set, set_child, has_parent, leaf}

pub child-set_child : (c : Text) (t : Tree) (es : Entries) → child c (set_child c t es) ≡ t
unfolding set_child
child-set_child c none es = child-remove_child c es
child-set_child c (some node) es = child-put_child c node es

pub child-set_child_other :
    (c d : Text) (t : Tree) (es : Entries)
    → text_eq c d ≡ false
    → child d (set_child c t es) ≡ child d es
unfolding set_child
child-set_child_other c d none es h = child-remove_child_other c d es h
child-set_child_other c d (some node) es h = child-put_child_other c d node es h

leaf-get : (t : Tree) (d : Text) (ds : Location) → leaf t ≡ true → get t (d ∷ ds) ≡ none
unfolding leaf get no_entries child
leaf-get none d ds h = refl
leaf-get (some (file contents)) d ds h = refl
leaf-get (some (dir nil)) d [] h = refl
leaf-get (some (dir nil)) d (e ∷ ds) h = refl
leaf-get (some (dir (entry n node rest))) d ds h = absurd (cc)

-- Where both what stood at a place and what is put there have nothing below them, the change shows
-- at this place only.
pub get-set :
    {A : Type 0} (view : Tree → A) (new t : Tree) (p q : Location)
    → ((es : Entries) (es' : Entries) → view (some (dir es)) ≡ view (some (dir es')))
    → leaf new ≡ true
    → leaf (get t p) ≡ true
    → has_parent t p ≡ true
    → view (get (set new t p) q) ≡ (if loc_eq p q then view new else view (get t q))
unfolding get set has_parent loc_eq
get-set view new t [] [] k n o h = refl
get-set view new t [] (d ∷ ds) k n o h = rw (leaf-get new d ds n, leaf-get t d ds o)
get-set view new none (c ∷ cs) q k n o h = absurd (cc)
get-set view new (some (file contents)) (c ∷ cs) q k n o h = absurd (cc)
get-set view new (some (dir es)) (c ∷ cs) [] k n o h =
    k (set_child c (set new (child c es) cs) es) es
get-set view new (some (dir es)) (c ∷ cs) (d ∷ ds) k n o h = elim (Bool-cases (text_eq c d)) [
  | inl e ↦
      let same = (text_eq_iff c d).0 e in
      rw (
        sym same,
        text_eq_refl c,
        child-set_child c (set new (child c es) cs) es,
        get-set view new (child c es) cs ds k n o h,
      )
  | inr e ↦ rw (e, child-set_child_other c d (set new (child c es) cs) es e)
]

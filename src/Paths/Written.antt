-- ===== src/Paths/Written.antt =====
-- What a chain of operations that succeeds has written.
use ironbucket.Base.{◌≡◌, refl, sym, ap, ◌∙◌, inl, inr, true, false, some, Option-cases}
use ironbucket.Base.Text.{Text}
use ironbucket.Paths.{Tree, PathBuf, read, write, remove_file}
use ironbucket.Paths.Frames.{write-Changed}
use ironbucket.Paths.Reads.{read-Changed}
use ironbucket.Paths.Outcomes.{Outcome, and_then, or_fail, rename}

pub and_then-true :
    (o : Outcome) (next : Tree → Outcome) (t' : Tree)
    → and_then o next ≡ (t', true)
    → (o ≡ (o.0, true)) × (next o.0 ≡ (t', true))
unfolding and_then
and_then-true (t, true) next t' h = (refl, h)
and_then-true (t, false) next t' h = absurd (cc)

pub or_write-read :
    (p : PathBuf) (contents : Text) (t t' : Tree)
    → or_fail t (write t p contents) ≡ (t', true)
    → read t' p ≡ some contents
unfolding or_fail
or_write-read p contents t t' h = elim (Option-cases (write t p contents)) [
  | inl e ↦ let k : false ≡ true = ap (λ (o : Outcome). o.1) (rw (or_fail, e) at h) in absurd (cc)
  | inr (u, e) ↦
      let same : (u, true) ≡ (t', true) = rw (or_fail, e) at h in
      let (l, led, changed) = write-Changed t u p contents e in
      ap (λ (o : Outcome). read o.0 p) (sym same) ∙ read-Changed t u p l contents led changed
]

-- A file that is renamed is read under its new name.
pub rename-read :
    (source target : PathBuf) (t t' : Tree) (contents : Text)
    → read t source ≡ some contents
    → rename source target t ≡ (t', true)
    → read t' target ≡ some contents
unfolding rename
rename-read source target t t' contents r h = elim (Option-cases (remove_file t source)) [
  | inl e ↦ let k : false ≡ true = ap (λ (o : Outcome). o.1) (rw (rename, r, e) at h) in absurd (cc)
  | inr (u, e) ↦ elim (Option-cases (write u target contents)) [
    | inl f ↦
        let k : false ≡ true = ap (λ (o : Outcome). o.1) (rw (rename, r, e, f) at h) in absurd (cc)
    | inr (v, f) ↦
        let same : (v, true) ≡ (t', true) = rw (rename, r, e, f) at h in
        let (l, led, changed) = write-Changed u v target contents f in
        ap (λ (o : Outcome). read o.0 target) (sym same)
        ∙ read-Changed u v target l contents led changed
  ]
]

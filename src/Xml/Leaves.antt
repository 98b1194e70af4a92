-- ===== src/Xml/Leaves.antt =====
-- Elements of plain text, listed by name: how they are printed, and what is read of them.
use ironbucket.Base.{
  ◌≡◌, refl, sym, ap, ◌∙◌, inl, inr, true, false, Option, none, some, List, [], ◌∷◌, ◌++◌,
  append_assoc, append-nil, All, All-append, if◌then◌else◌, Bool-cases,
}
use ironbucket.Base.Text.{Text, text_eq, Lacks}
use ironbucket.Xml.{element, values, print_lines}
use ironbucket.Xml.Tokens.{Token, render, render-append, Passes}
use ironbucket.Xml.Sections.{
  Section, layout, Fits, named_contents, first, blocks-other, values-layout, element-layout,
  tail_none,
}
use ironbucket.Xml.Items.{
  lacks, is_name, is_name→IsName, passes, passes→Passes, leaves, leaves-Fits, map-render,
  print_lines-render,
}

-- Names with the texts of their elements.
abbrev pub Fields : Type 0
Fields = List (Text × List Text)

abbrev pub sections_of : Text → Fields → List Section
sections_of indent [] = []
sections_of indent ((m, ws) ∷ fs) = leaves indent m ws ∷ sections_of indent fs

abbrev pub printed : Text → Fields → Text → Text
printed indent [] behind = behind
printed indent ((m, ws) ∷ fs) behind = print_lines indent m ws ++ printed indent fs behind

-- The texts under a name, and the first of them.
abbrev pub select : Text → Fields → List Text
select n [] = []
select n ((m, ws) ∷ fs) = if text_eq m n then ws ++ select n fs else select n fs

abbrev pub head? : List Text → Option Text
head? [] = none
head? (w ∷ ws) = some w

-- The names are names, and no text has an angle bracket.
abbrev pub PlainFields : Fields → Type 0
PlainFields fs = All (λ f. (is_name f.0 ≡ true) × All (Lacks b'<') f.1) fs

printed-render :
    (indent : Text) (fs : Fields) (behind : Text)
    → printed indent fs behind ≡ render (layout (sections_of indent fs)) ++ behind
printed-render indent [] behind = refl
printed-render indent ((m, ws) ∷ fs) behind =
    ap (λ r. print_lines indent m ws ++ r) (printed-render indent fs behind)
    ∙ sym (append_assoc (print_lines indent m ws) (render (layout (sections_of indent fs))) behind)
    ∙ ap (λ r. r ++ behind) (sym (print_lines-render indent m ws (sections_of indent fs)))

-- The same with the marks that follow.
pub printed-tokens :
    (indent : Text) (fs : Fields) (closing ts : List Token)
    → printed indent fs (render closing) ++ render ts
      ≡ render ((layout (sections_of indent fs) ++ closing) ++ ts)
printed-tokens indent fs closing ts =
    let fields = layout (sections_of indent fs) in
    ap (λ r. r ++ render ts)
      (printed-render indent fs (render closing) ∙ sym (render-append fields closing))
    ∙ sym (render-append (fields ++ closing) ts)

sections_of-Fits :
    (n indent : Text) (fs : Fields)
    → lacks b'<' indent ≡ true
    → PlainFields fs
    → All (Fits n) (sections_of indent fs)
sections_of-Fits n indent [] h k = tt
sections_of-Fits n indent ((m, ws) ∷ fs) h k =
    (leaves-Fits n indent m ws h k.0.0 k.0.1, sections_of-Fits n indent fs h k.1)

-- Elements under other names have no marks of `n`.
pub sections_of-Passes :
    (n indent : Text) (fs : Fields)
    → is_name n ≡ true
    → lacks b'<' indent ≡ true
    → PlainFields fs
    → All (λ f. text_eq f.0 n ≡ false) fs
    → All (Passes n) (layout (sections_of indent fs))
sections_of-Passes n indent [] i h k e = tt
sections_of-Passes n indent ((m, ws) ∷ fs) i h k e =
    let fit = leaves-Fits n indent m ws h k.0.0 k.0.1 in
    All-append (Passes n) _ (layout (sections_of indent fs))
      (blocks-other n (is_name→IsName n i) indent m _ fit.0 fit.1 fit.2 e.0)
      (sections_of-Passes n indent fs i h k.1 e.1)

named_contents-sections_of :
    (n indent : Text) (fs : Fields) → named_contents n (sections_of indent fs) ≡ select n fs
named_contents-sections_of n indent [] = refl
named_contents-sections_of n indent ((m, ws) ∷ fs) = elim (Bool-cases (text_eq m n)) [
  | inl e ↦ rw (e) (
      ap (λ r. r ++ named_contents n (sections_of indent fs)) (map-render ws)
      ∙ ap (λ r. ws ++ r) (named_contents-sections_of n indent fs))
  | inr e ↦ rw (e) (named_contents-sections_of n indent fs)
]

first-sections_of :
    (n indent : Text) (fs : Fields) → first n (sections_of indent fs) none ≡ head? (select n fs)
first-sections_of n indent [] = refl
first-sections_of n indent ((m, []) ∷ fs) = elim (Bool-cases (text_eq m n)) [
  | inl e ↦ rw (e) (first-sections_of n indent fs)
  | inr e ↦ rw (e) (first-sections_of n indent fs)
]
first-sections_of n indent ((m, w ∷ ws) ∷ fs) = elim (Bool-cases (text_eq m n)) [
  | inl e ↦ rw (e) (ap some (append-nil w))
  | inr e ↦ rw (e) (first-sections_of n indent fs)
]

-- What is read of a name are the texts listed under it, where nothing behind them has its marks.
module _ (indent : Text) (fs : Fields) (behind : List Token) (white : lacks b'<' indent ≡ true)
    (plain_fields : PlainFields fs) where
  pub values-printed :
      (n : Text)
      → is_name n ≡ true
      → passes n behind ≡ true
      → values n (render (layout (sections_of indent fs) ++ behind)) ≡ select n fs
  values-printed n i h =
      let name = is_name→IsName n i in
      values-layout n name (sections_of indent fs) behind
        (sections_of-Fits n indent fs white plain_fields)
      ∙ ap (λ r. named_contents n (sections_of indent fs) ++ r)
          (tail_none n name behind (passes→Passes n behind h)).0
      ∙ append-nil (named_contents n (sections_of indent fs))
      ∙ named_contents-sections_of n indent fs

  pub element-printed :
      (n : Text)
      → is_name n ≡ true
      → passes n behind ≡ true
      → element n (render (layout (sections_of indent fs) ++ behind)) ≡ some (head? (select n fs))
  element-printed n i h =
      let name = is_name→IsName n i in
      element-layout n name (sections_of indent fs) behind none
        (sections_of-Fits n indent fs white plain_fields)
        (tail_none n name behind (passes→Passes n behind h)).1
      ∙ ap some (first-sections_of n indent fs)

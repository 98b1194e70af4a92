-- ===== src/Xml/Elements.antt =====
-- What `element` and `values` read from text and marks.
use ironbucket.Base.{
  ◌≡◌, refl, sym, ap, ◌∙◌, inl, inr, ℕ, suc, ◌+◌, true, false, Option, none, some, List, [], ◌∷◌,
  ◌++◌, append-nil, arith, length, take, drop, take-length_append, leb, Option-cases,
}
use ironbucket.Base.Text.{Text, text_eq, find, Lacks}
use ironbucket.Xml.{slice, between, mark, end_mark, element, split_at, parts, ended, values}
use ironbucket.Xml.Tokens.{
  IsName, shift, QuietBoth, find-Quiet, split-Quiet, split_at-cons, split_at-mark, find-mark,
  tag-Quiet, prepend, prepend-cons,
}

take-add : (w s : Text) (k : ℕ) → take (length w + k) (w ++ s) ≡ w ++ take k s
take-add [] s k = ap (λ n. take n s) (omega arith)
take-add (x ∷ w) s k =
    let e : suc (length w) + k ≡ suc (length w + k) = omega arith in
    rw (e) (ap (λ r. x ∷ r) (take-add w s k))

drop-add : (w s : Text) (k : ℕ) → drop (length w + k) (w ++ s) ≡ drop k s
drop-add [] s k = ap (λ n. drop n s) (omega arith)
drop-add (x ∷ w) s k =
    let e : suc (length w) + k ≡ suc (length w + k) = omega arith in rw (e) (drop-add w s k)

slice-add : (w s : Text) (i j : ℕ) → slice (length w + i) (length w + j) (w ++ s) ≡ slice i j s
unfolding slice
slice-add w s i j =
    let same : leb (length w + i) (length w + j) ≡ leb i j = ground arith in
    rw (same, take-add w s j, drop-add w (take j s) i) refl

abbrev found : Option Text → Option (Option Text)
found none = none
found (some t) = some (some t)

slice-length : (b s : Text) → slice 0 (length b + 0) (b ++ s) ≡ some b
unfolding slice
slice-length b s =
    let e : length b + 0 ≡ length b = omega arith in
    let less : leb 0 (length b) ≡ true = ground arith in rw (e, less, take-length_append b s) refl

-- A name is not one behind a slash.
pub name-slash : (m n : Text) → Lacks b'/' m → text_eq m (b'/' ∷ n) ≡ false
unfolding text_eq
name-slash [] n h = refl
name-slash (x ∷ m) n h = ground (arith, h.0)

pub slash-name : (m n : Text) → Lacks b'/' m → text_eq (b'/' ∷ n) m ≡ false
unfolding text_eq
slash-name [] n h = refl
slash-name (x ∷ m) n h = ground (arith, h.0)

module _ (n : Text) where
  -- The element, by the places of its marks.
  abbrev cut : Option ℕ → Option ℕ → Text → Option (Option Text)
  cut i j s = elim i [
    | none ↦ some none
    | some a ↦ elim j [ none ↦ some none | some b ↦ found (slice (a + length (mark n)) b s) ]
  ]

  element-cut : (s : Text) → element n s ≡ cut (find s (mark n)) (find s (end_mark n)) s
  unfolding element between
  element-cut s = elim (Option-cases (find s (mark n))) [
    | inl e ↦ rw (element, between, e) refl
    | inr (a, e) ↦ elim (Option-cases (find s (end_mark n))) [
      | inl f ↦ rw (element, between, e, f) refl
      | inr (b, f) ↦ elim (Option-cases (slice (a + length (mark n)) b s)) [
        | inl g ↦ rw (element, between, e, f, g) refl
        | inr (t, g) ↦ rw (element, between, e, f, g) refl
      ]
    ]
  ]

  cut-shift :
      (w s : Text) (i j : Option ℕ)
      → cut (shift (length w) i) (shift (length w) j) (w ++ s) ≡ cut i j s
  cut-shift w s none j = refl
  cut-shift w s (some a) none = refl
  cut-shift w s (some a) (some b) =
      let e : length w + a + length (mark n) ≡ length w + (a + length (mark n)) = omega arith in
      ap (λ k. found (slice k (length w + b) (w ++ s))) e
      ∙ ap found (slice-add w s (a + length (mark n)) b)

  -- An element is looked for behind text that has none of its marks.
  pub element-Quiet : (w s : Text) → QuietBoth n w s → element n (w ++ s) ≡ element n s
  element-Quiet w s h =
      element-cut (w ++ s)
      ∙ ap (λ o. cut o (find (w ++ s) (end_mark n)) (w ++ s)) (find-Quiet w s (mark n) h.0)
      ∙ ap (λ o. cut (shift (length w) (find s (mark n))) o (w ++ s))
          (find-Quiet w s (end_mark n) h.1)
      ∙ cut-shift w s (find s (mark n)) (find s (end_mark n))
      ∙ sym (element-cut s)

  -- Nothing is found in text that has none of the marks.
  pub element-none : (w : Text) → QuietBoth n w [] → element n w ≡ some none
  unfolding element between find
  element-none w h = sym (ap (element n) (append-nil w)) ∙ element-Quiet w [] h ∙ element_nil
    where
      element_nil : element n [] ≡ some none
      element_nil = refl

  -- The first element is what stands between its marks.
  pub element-mark :
      (b s : Text)
      → IsName n
      → ((r : Text) → QuietBoth n b r)
      → element n (mark n ++ (b ++ (end_mark n ++ s))) ≡ some (some b)
  element-mark b s i h =
      let rest = end_mark n ++ s in
      let all = mark n ++ (b ++ rest) in
      let start : find all (mark n) ≡ some 0 = find-mark b'<' (n ++ b'>' ∷ []) (b ++ rest) in
      let end : find all (end_mark n) ≡ some (length (mark n) + (length b + 0)) =
        find-Quiet (mark n) (b ++ rest) (end_mark n)
          (tag-Quiet n (b'/' ∷ n) (b ++ rest) i.0 i.1 (omega arith, i.1) (name-slash n n i.2))
        ∙ ap (shift (length (mark n))) (
            find-Quiet b rest (end_mark n) (h rest).1
            ∙ ap (shift (length b)) (find-mark b'<' (b'/' ∷ (n ++ b'>' ∷ [])) s)) in
      let front : 0 + length (mark n) ≡ length (mark n) + 0 = omega arith in
      element-cut all
      ∙ ap (λ o. cut o (find all (end_mark n)) all) start
      ∙ ap (λ o. cut (some 0) o all) end
      ∙ ap (λ k. found (slice k (length (mark n) + (length b + 0)) all)) front
      ∙ ap found (slice-add (mark n) (b ++ rest) 0 (length b + 0) ∙ slice-length b rest)

  -- The elements are looked for behind text that has none of their marks.
  pub values-Quiet : (w s : Text) → QuietBoth n w s → values n (w ++ s) ≡ values n s
  unfolding values parts
  values-Quiet w s h =
      let (v, vs, e) = split_at-cons (mark n) 0 s in
      rw (split-Quiet w s (mark n) h.0, e, prepend-cons w v vs) refl

  pub values-none : (w : Text) → QuietBoth n w [] → values n w ≡ []
  unfolding values parts ended split_at
  values-none w h = sym (ap (values n) (append-nil w)) ∙ values-Quiet w [] h

  ended_cons :
      (part : Text) (rest : List Text) (end : ℕ)
      → find part (end_mark n) ≡ some end
      → ended n (part ∷ rest) ≡ take end part ∷ ended n rest
  unfolding ended
  ended_cons part rest end e = rw (ended, e) refl

  -- The first of the values is what stands between the marks.
  pub values-mark :
      (b s : Text)
      → IsName n
      → ((r : Text) → QuietBoth n b r)
      → values n (mark n ++ (b ++ (end_mark n ++ s))) ≡ b ∷ values n s
  unfolding values parts ended
  values-mark b s i h =
      let rest = end_mark n ++ s in
      let (v, vs, e) = split_at-cons (mark n) 0 s in
      let closed =
        tag-Quiet (b'/' ∷ n) n s (omega arith, i.0) (omega arith, i.1) i.1 (slash-name n n i.2) in
      let pieces : split_at (mark n) 0 (b ++ rest) ≡ (b ++ (end_mark n ++ v)) ∷ vs =
        split-Quiet b rest (mark n) (h rest).0
        ∙ ap (prepend b) (
            split-Quiet (end_mark n) s (mark n) closed
            ∙ ap (prepend (end_mark n)) e
            ∙ prepend-cons (end_mark n) v vs)
        ∙ prepend-cons b (end_mark n ++ v) vs in
      let all : parts n (mark n ++ (b ++ rest)) ≡ (b ++ (end_mark n ++ v)) ∷ vs =
        ap (drop 1) (split_at-mark b'<' (n ++ b'>' ∷ []) (b ++ rest)) ∙ pieces in
      let end : find (b ++ (end_mark n ++ v)) (end_mark n) ≡ some (length b + 0) =
        find-Quiet b (end_mark n ++ v) (end_mark n) (h (end_mark n ++ v)).1
        ∙ ap (shift (length b)) (find-mark b'<' (b'/' ∷ (n ++ b'>' ∷ [])) v) in
      ap (ended n) all
      ∙ ended_cons (b ++ (end_mark n ++ v)) vs (length b + 0) end
      ∙ ap (λ t. t ∷ ended n vs)
          (ap (λ k. take k (b ++ (end_mark n ++ v))) (omega arith)
            ∙ take-length_append b (end_mark n ++ v))
      ∙ sym (ap (λ r. b ∷ ended n (drop 1 r)) e)

-- ===== src/Xml/Sections.antt =====
-- XML that lists elements one behind another, each name with its contents: what is read of a name is
-- what was listed under it.
use ironbucket.Base.{
  ◌≡◌, refl, sym, ap, ◌∙◌, inl, inr, false, Option, none, some, List, [], ◌∷◌, ◌++◌, append_assoc,
  arith, All, All-append, map, if◌then◌else◌, Bool-cases,
}
use ironbucket.Base.Text.{Text, text_eq, text_eq→eq, Lacks}
use ironbucket.Xml.{mark, end_mark, element, values}
use ironbucket.Xml.Tokens.{
  Token, plain, tag, render, render-append, IsName, Passes, Passes-Quiet, Lacks-Quiet,
}
use ironbucket.Xml.Elements.{
  element-Quiet, element-mark, element-none, name-slash, slash-name, values-Quiet, values-mark,
  values-none,
}

-- An element behind white space.
abbrev pub block : Text → Text → List Token → List Token
block indent m inner = plain indent ∷ tag m ∷ (inner ++ tag (b'/' ∷ m) ∷ [])

-- The elements of a name, each with what it holds.
pub record Section : Type 0 where
  pub indent : Text
  pub name : Text
  pub contents : List (List Token)

abbrev pub blocks : Text → Text → List (List Token) → List Token
blocks indent m [] = []
blocks indent m (b ∷ bs) = block indent m b ++ blocks indent m bs

abbrev pub layout : List Section → List Token
layout [] = []
layout (s ∷ ss) = blocks s.indent s.name s.contents ++ layout ss

-- The name can be told from `n`, and nothing inside has a mark of `n`.
abbrev pub Fits : Text → Section → Type 0
Fits n s = Lacks b'<' s.indent × IsName s.name × All (All (Passes n)) s.contents

abbrev pub named_contents : Text → List Section → List Text
named_contents n [] = []
named_contents n (s ∷ ss) =
    if text_eq s.name n then map render s.contents ++ named_contents n ss else named_contents n ss

abbrev head_or : List (List Token) → Option Text → Option Text
head_or [] after = after
head_or (b ∷ bs) after = some (render b)

-- The first element of the name, or what follows them.
abbrev pub first : Text → List Section → Option Text → Option Text
first n [] after = after
first n (s ∷ ss) after =
    if text_eq s.name n then head_or s.contents (first n ss after) else first n ss after

block_shape :
    (indent m : Text) (b ts : List Token)
    → render (block indent m b ++ ts)
      ≡ indent ++ (mark m ++ (render b ++ (end_mark m ++ render ts)))
block_shape indent m b ts =
    let inner =
      render-append (b ++ tag (b'/' ∷ m) ∷ []) ts
      ∙ ap (λ r. r ++ render ts) (render-append b (tag (b'/' ∷ m) ∷ []))
      ∙ append_assoc (render b) (end_mark m) (render ts) in
    ap (λ r. indent ++ b'<' ∷ r)
      (ap (λ r. m ++ b'>' ∷ r) inner
        ∙ sym (append_assoc m (b'>' ∷ []) (render b ++ (end_mark m ++ render ts))))

-- A block of another name has no mark of `n`.
block-Passes :
    (n indent m : Text) (b : List Token)
    → Lacks b'<' indent
    → IsName m
    → IsName n
    → All (Passes n) b
    → text_eq m n ≡ false
    → All (Passes n) (block indent m b)
unfolding text_eq
block-Passes n indent m b h i j k e = (
  h,
  (
    (i.0, i.1, e, name-slash m n i.2),
    All-append (Passes n) b (tag (b'/' ∷ m) ∷ []) k
        (((omega arith, i.0), (omega arith, i.1), slash-name n m j.2, slash_slash), tt),
  ),
)
  where
    slash_slash : text_eq (b'/' ∷ m) (b'/' ∷ n) ≡ false
    slash_slash = e

module _ (n : Text) (name : IsName n) where
  -- The elements listed under other names are passed over.
  pub blocks-other :
      (indent m : Text) (bs : List (List Token))
      → Lacks b'<' indent
      → IsName m
      → All (All (Passes n)) bs
      → text_eq m n ≡ false
      → All (Passes n) (blocks indent m bs)
  blocks-other indent m [] h i k e = tt
  blocks-other indent m (b ∷ bs) h i k e =
      All-append (Passes n) (block indent m b) (blocks indent m bs)
        (block-Passes n indent m b h i name k.0 e) (blocks-other indent m bs h i k.1 e)

  values-passed :
      (a ts : List Token) → All (Passes n) a → values n (render (a ++ ts)) ≡ values n (render ts)
  values-passed a ts h =
      ap (values n) (render-append a ts)
      ∙ values-Quiet n (render a) (render ts) (Passes-Quiet n a (render ts) name h)

  element-passed :
      (a ts : List Token) → All (Passes n) a → element n (render (a ++ ts)) ≡ element n (render ts)
  element-passed a ts h =
      ap (element n) (render-append a ts)
      ∙ element-Quiet n (render a) (render ts) (Passes-Quiet n a (render ts) name h)

  values-block :
      (indent : Text) (b ts : List Token)
      → Lacks b'<' indent
      → All (Passes n) b
      → values n (render (block indent n b ++ ts)) ≡ render b ∷ values n (render ts)
  values-block indent b ts h k =
      let inside = λ (r : Text). Passes-Quiet n b r name k in
      let rest = mark n ++ (render b ++ (end_mark n ++ render ts)) in
      ap (values n) (block_shape indent n b ts)
      ∙ values-passed_text indent rest h
      ∙ values-mark n (render b) (render ts) name inside
    where
      values-passed_text : (w s : Text) → Lacks b'<' w → values n (w ++ s) ≡ values n s
      values-passed_text w s h = values-Quiet n w s (Lacks-Quiet w s _ h, Lacks-Quiet w s _ h)

  element-block :
      (indent : Text) (b ts : List Token)
      → Lacks b'<' indent
      → All (Passes n) b
      → element n (render (block indent n b ++ ts)) ≡ some (some (render b))
  element-block indent b ts h k =
      let inside = λ (r : Text). Passes-Quiet n b r name k in
      let rest = mark n ++ (render b ++ (end_mark n ++ render ts)) in
      ap (element n) (block_shape indent n b ts)
      ∙ element-Quiet n indent rest (Lacks-Quiet indent rest _ h, Lacks-Quiet indent rest _ h)
      ∙ element-mark n (render b) (render ts) name inside

  values-blocks :
      (indent : Text) (bs : List (List Token)) (ts : List Token)
      → Lacks b'<' indent
      → All (All (Passes n)) bs
      → values n (render (blocks indent n bs ++ ts)) ≡ map render bs ++ values n (render ts)
  values-blocks indent [] ts h k = refl
  values-blocks indent (b ∷ bs) ts h k =
      ap (λ r. values n (render r)) (append_assoc (block indent n b) (blocks indent n bs) ts)
      ∙ values-block indent b (blocks indent n bs ++ ts) h k.0
      ∙ ap (λ r. render b ∷ r) (values-blocks indent bs ts h k.1)

  element-blocks :
      (indent : Text) (bs : List (List Token)) (ts : List Token) (after : Option Text)
      → Lacks b'<' indent
      → All (All (Passes n)) bs
      → element n (render ts) ≡ some after
      → element n (render (blocks indent n bs ++ ts)) ≡ some (head_or bs after)
  element-blocks indent [] ts after h k e = e
  element-blocks indent (b ∷ bs) ts after h k e =
      ap (λ r. element n (render r)) (append_assoc (block indent n b) (blocks indent n bs) ts)
      ∙ element-block indent b (blocks indent n bs ++ ts) h k.0

  -- All the elements of a name are read, in order.
  pub values-layout :
      (ss : List Section) (ts : List Token)
      → All (Fits n) ss
      → values n (render (layout ss ++ ts)) ≡ named_contents n ss ++ values n (render ts)
  values-layout [] ts h = refl
  values-layout (s ∷ ss) ts h =
      let more = layout ss ++ ts in
      let rest = values-layout ss ts h.1 in
      let split =
        ap (λ r. values n (render r))
          (append_assoc (blocks s.indent s.name s.contents) (layout ss) ts) in
      elim (Bool-cases (text_eq s.name n)) [
        | inl e ↦ rw (e) (
            split
            ∙ ap (λ m. values n (render (blocks s.indent m s.contents ++ more)))
                (text_eq→eq s.name n e)
            ∙ values-blocks s.indent s.contents more h.0.0 h.0.2
            ∙ ap (λ r. map render s.contents ++ r) rest
            ∙ sym
                (append_assoc (map render s.contents) (named_contents n ss) (values n (render ts))))
        | inr e ↦ rw (e) (
            split
            ∙ values-passed (blocks s.indent s.name s.contents) more
                (blocks-other s.indent s.name s.contents h.0.0 h.0.1 h.0.2 e)
            ∙ rest)
      ]

  -- The first element of a name is read.
  pub element-layout :
      (ss : List Section) (ts : List Token) (after : Option Text)
      → All (Fits n) ss
      → element n (render ts) ≡ some after
      → element n (render (layout ss ++ ts)) ≡ some (first n ss after)
  element-layout [] ts after h e = e
  element-layout (s ∷ ss) ts after h e =
      let more = layout ss ++ ts in
      let rest = element-layout ss ts after h.1 e in
      let split =
        ap (λ r. element n (render r))
          (append_assoc (blocks s.indent s.name s.contents) (layout ss) ts) in
      elim (Bool-cases (text_eq s.name n)) [
        | inl f ↦ rw (f) (
            split
            ∙ ap (λ m. element n (render (blocks s.indent m s.contents ++ more)))
                (text_eq→eq s.name n f)
            ∙ element-blocks s.indent s.contents more (first n ss after) h.0.0 h.0.2 rest)
        | inr f ↦ rw (f) (
            split
            ∙ element-passed (blocks s.indent s.name s.contents) more
                (blocks-other s.indent s.name s.contents h.0.0 h.0.1 h.0.2 f)
            ∙ rest)
      ]

  -- What is behind them has no element of the name.
  pub tail_none :
      (ts : List Token)
      → All (Passes n) ts
      → (values n (render ts) ≡ []) × (element n (render ts) ≡ some none)
  tail_none ts h =
      let quiet = Passes-Quiet n ts [] name h in
      (values-none n (render ts) quiet, element-none n (render ts) quiet)

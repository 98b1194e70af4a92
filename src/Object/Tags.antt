-- ===== src/Object/Tags.antt =====
-- The XML that `?tagging` answers with, read back by an upload of tags.
use ironbucket.Base.{
  ◌≡◌, refl, sym, ap, inl, inr, ◌∙◌, ℕ, zero, suc, ◌+◌, ◌≤◌, false, Option, none, some, [], ◌∷◌,
  ◌++◌, append_assoc, append-nil, All, arith, length, length-append, take, drop, take-length_append,
  drop-length_append, Bool-cases,
}
use ironbucket.Base.Text.{Text, codes, text_eq, find, starts_with, Lacks}
use ironbucket.Base.Assoc.{Assoc, lookup, insert}
use ironbucket.Object.Tagging.{tag_of, add_tag, parse_tags, tag_elements, tags_xml}
use ironbucket.Object.Element.{inside, closing_tag, tag_of-inside, element_shape, length-inside}

insert-fresh :
    (k v : Text) (acc : Assoc Text) → lookup k acc ≡ none → insert k v acc ≡ acc ++ (k, v) ∷ []
unfolding insert lookup
insert-fresh k v [] h = refl
insert-fresh k v ((j, w) ∷ acc) h = elim (Bool-cases (text_eq j k)) [
  | inl e ↦ let z = rw (e) at h in absurd (cc)
  | inr e ↦ rw (e) (ap (λ r. (j, w) ∷ r) (insert-fresh k v acc (rw (e) at h)))
]

lookup-append_fresh :
    (k j v : Text) (acc : Assoc Text)
    → lookup k acc ≡ none
    → text_eq j k ≡ false
    → lookup k (acc ++ (j, v) ∷ []) ≡ none
unfolding lookup
lookup-append_fresh k j v [] h e = rw (e) refl
lookup-append_fresh k j v ((i, w) ∷ acc) h e = elim (Bool-cases (text_eq i k)) [
  | inl f ↦ let z = rw (f) at h in absurd (cc)
  | inr f ↦ rw (f) (lookup-append_fresh k j v acc (rw (f) at h) e)
]

-- No key stands twice.
abbrev pub DistinctKeys : Assoc Text → Type 0
DistinctKeys [] = Unit
DistinctKeys ((k, v) ∷ rest) = All (λ p. text_eq k p.0 ≡ false) rest × DistinctKeys rest

-- No angle bracket opens in a key or in a value.
abbrev pub PlainTags : Assoc Text → Type 0
PlainTags tags = All (λ p. Lacks 60 p.0 × Lacks 60 p.1) tags

keep_fresh :
    (k v : Text) (acc tags : Assoc Text)
    → All (λ p. lookup p.0 acc ≡ none) tags
    → All (λ p. text_eq k p.0 ≡ false) tags
    → All (λ p. lookup p.0 (acc ++ (k, v) ∷ []) ≡ none) tags
keep_fresh k v acc [] h d = tt
keep_fresh k v acc (p ∷ tags) h d =
    (lookup-append_fresh p.0 k v acc h.0 d.0, keep_fresh k v acc tags h.1 d.1)

-- One turn of the loop, by what is found.
parse_tags-found :
    (fuel : ℕ) (xml s : Text) (acc : Assoc Text) (i j : ℕ) (tag : Option (Text × Text))
    → find xml (codes "<Tag>") ≡ some i
    → find (drop (i + 5) xml) (codes "</Tag>") ≡ some j
    → tag_of (take j (drop (i + 5) xml)) ≡ some tag
    → drop (j + 6) (drop (i + 5) xml) ≡ s
    → parse_tags (suc fuel) xml acc ≡ parse_tags fuel s (add_tag tag acc)
unfolding parse_tags
parse_tags-found fuel xml s acc i j tag a c d e = rw (parse_tags, a, c, d, e) refl

opening_tag : (s : Text) → find (codes "<Tag>" ++ s) (codes "<Tag>") ≡ some 0
unfolding find starts_with
opening_tag s = by_rest s
  where
    by_rest : (r : Text) → find (codes "<Tag>" ++ r) (codes "<Tag>") ≡ some 0
    by_rest r = refl

parse_tags-tag :
    (fuel : ℕ) (k v s : Text) (acc : Assoc Text)
    → Lacks 60 k
    → Lacks 60 v
    → parse_tags (suc fuel) (codes "<Tag>" ++ (inside k v ++ (codes "</Tag>" ++ s))) acc
      ≡ parse_tags fuel s (insert k v acc)
unfolding add_tag
parse_tags-tag fuel k v s acc h i =
    let w = inside k v in
    let rest = w ++ (codes "</Tag>" ++ s) in
    let j = 26 + (length k + length v) in
    let size = length-inside k v in
    let found : find rest (codes "</Tag>") ≡ some j =
      ap (λ r. find r (codes "</Tag>")) (element_shape k v s) ∙ closing_tag k v s h i in
    let content : take j rest ≡ w =
      ap (λ n. take n rest) (sym size) ∙ take-length_append w (codes "</Tag>" ++ s) in
    let ended : j + 6 ≡ length (w ++ codes "</Tag>") =
      omega (arith, size, length-append w (codes "</Tag>")) in
    let left : drop (j + 6) rest ≡ s =
      ap (λ n. drop n rest) ended
      ∙ ap (drop (length (w ++ codes "</Tag>"))) (sym (append_assoc w (codes "</Tag>") s))
      ∙ drop-length_append (w ++ codes "</Tag>") s in
    parse_tags-found fuel (codes "<Tag>" ++ rest) s acc 0 j (some (k, v)) (opening_tag rest) found
      (ap tag_of content ∙ tag_of-inside k v h i) left

append_right :
    (a b c d e f : Text) → ((((a ++ b) ++ c) ++ d) ++ e) ++ f ≡ a ++ (b ++ (c ++ (d ++ (e ++ f))))
append_right a b c d e f =
    append_assoc (((a ++ b) ++ c) ++ d) e f
    ∙ append_assoc ((a ++ b) ++ c) d (e ++ f)
    ∙ append_assoc (a ++ b) c (d ++ (e ++ f))
    ∙ append_assoc a b (c ++ (d ++ (e ++ f)))

elements_shape :
    (k v s : Text) (rest : Assoc Text)
    → tag_elements ((k, v) ∷ rest) ++ s
      ≡ codes "<Tag>" ++ (inside k v ++ (codes "</Tag>" ++ (tag_elements rest ++ s)))
unfolding tag_elements
elements_shape k v s rest =
    let all =
      append_right k (codes "</Key><Value>") v (codes "</Value></Tag>") (tag_elements rest) s in
    ap (λ r. codes "<Tag>" ++ r)
      (ap (λ r. codes "<Key>" ++ r) all ∙ sym (element_shape k v (tag_elements rest ++ s)))

-- All the tags, in front of a text that has none.
parse_tags-elements :
    (fuel : ℕ) (tags acc : Assoc Text) (s : Text)
    → PlainTags tags
    → DistinctKeys tags
    → All (λ p. lookup p.0 acc ≡ none) tags
    → find s (codes "<Tag>") ≡ none
    → length (tag_elements tags ++ s) ≤ fuel
    → parse_tags fuel (tag_elements tags ++ s) acc ≡ some (acc ++ tags)
unfolding tag_elements parse_tags
parse_tags-elements zero [] acc s p d f left enough = ap some (sym (append-nil acc))
parse_tags-elements (suc fuel) [] acc s p d f left enough =
    rw (parse_tags, left) (ap some (sym (append-nil acc)))
parse_tags-elements zero ((k, v) ∷ rest) acc s p d f left enough =
    absurd (omega (arith, ap length (elements_shape k v s rest)))
parse_tags-elements (suc fuel) ((k, v) ∷ rest) acc s p d f left enough =
    let shape = elements_shape k v s rest in
    let more = tag_elements rest ++ s in
    let acc' = acc ++ (k, v) ∷ [] in
    let short : length more ≤ fuel =
      omega (arith, ap length shape, length-append (inside k v) (codes "</Tag>" ++ more)) in
    ap (λ xml. parse_tags (suc fuel) xml acc) shape
    ∙ parse_tags-tag fuel k v more acc p.0.0 p.0.1
    ∙ ap (parse_tags fuel more) (insert-fresh k v acc f.0)
    ∙ parse_tags-elements fuel rest acc' s p.1 d.1 (keep_fresh k v acc rest f.1 d.0) left short
    ∙ ap some (append_assoc acc ((k, v) ∷ []) rest)

abbrev heading : Text
heading = codes "<?xml version=\"1.0\" encoding=\"UTF-8\"?><Tagging><TagSet>"

abbrev ending : Text
ending = codes "</TagSet></Tagging>"

heading_mark :
    (r : Text) → find (heading ++ (codes "<Tag>" ++ r)) (codes "<Tag>") ≡ some (length heading)
unfolding find starts_with
heading_mark r = refl

heading_end : find (heading ++ ending) (codes "<Tag>") ≡ none
unfolding find starts_with
heading_end = refl

ending_end : find ending (codes "<Tag>") ≡ none
unfolding find starts_with
ending_end = refl

-- A turn of the loop behind an opening mark.
abbrev turn : ℕ → Assoc Text → Text → Option (Assoc Text)
turn fuel acc r = elim (find r (codes "</Tag>")) [
  | none ↦ some acc
  | some j ↦ elim (tag_of (take j r)) [
    | none ↦ none
    | some tag ↦ parse_tags fuel (drop (j + 6) r) (add_tag tag acc)
  ]
]

-- The same behind the first opening mark, the same tags.
parse_tags-mark :
    (fuel : ℕ) (xml ys : Text) (acc : Assoc Text) (i j : ℕ)
    → find xml (codes "<Tag>") ≡ some i
    → find ys (codes "<Tag>") ≡ some j
    → drop (i + 5) xml ≡ drop (j + 5) ys
    → parse_tags (suc fuel) xml acc ≡ parse_tags (suc fuel) ys acc
unfolding parse_tags
parse_tags-mark fuel xml ys acc i j a c e = rw (parse_tags, a, c) (ap (turn fuel acc) e)

parse_tags-none :
    (fuel : ℕ) (xml : Text) (acc : Assoc Text)
    → find xml (codes "<Tag>") ≡ none
    → parse_tags (suc fuel) xml acc ≡ some acc
unfolding parse_tags
parse_tags-none fuel xml acc e = rw (parse_tags, e) refl

start_fresh : (tags : Assoc Text) → All (λ p. lookup {V = Text} p.0 [] ≡ none) tags
unfolding lookup
start_fresh [] = tt
start_fresh (p ∷ tags) = (refl, start_fresh tags)

-- The XML that a request for the tags of an object is answered with, if no key stands twice and no
-- angle bracket opens in a key or a value: parsed as the body of an upload of tags, in as many turns
-- as it has bytes, it gives the same tags.
pub parse_tags-tags_xml :
    (tags : Assoc Text)
    → PlainTags tags
    → DistinctKeys tags
    → parse_tags (length (tags_xml tags)) (tags_xml tags) [] ≡ some tags
unfolding tags_xml tag_elements
parse_tags-tags_xml [] p d = parse_tags-none 73 (heading ++ ending) [] heading_end
parse_tags-tags_xml ((k, v) ∷ rest) p d =
    let tags = (k, v) ∷ rest in
    let body = tag_elements tags ++ ending in
    let r = inside k v ++ (codes "</Tag>" ++ (tag_elements rest ++ ending)) in
    let shape = elements_shape k v ending rest in
    let fuel = length (drop 1 heading ++ body) in
    let size = length-append (drop 1 heading) body in
    ap (λ b. parse_tags (suc fuel) (heading ++ b) []) shape
    ∙ parse_tags-mark fuel (heading ++ (codes "<Tag>" ++ r)) (codes "<Tag>" ++ r) []
        (length heading) 0 (heading_mark r) (opening_tag r) refl
    ∙ ap (λ b. parse_tags (suc fuel) b []) (sym shape)
    ∙ parse_tags-elements (suc fuel) tags [] ending p d (start_fresh tags) ending_end
        (omega (arith, size))

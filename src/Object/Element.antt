-- ===== src/Object/Element.antt =====
-- The text of one tag, and how it is read.
use ironbucket.Base.{
  ◌≡◌, refl, sym, ap, ◌∙◌, ℕ, ◌+◌, true, some, [], ◌∷◌, ◌++◌, append_assoc, arith, length,
  length-append, take-length_append, drop-length_append, leb,
}
use ironbucket.Base.Text.{Text, codes, find, starts_with, Lacks}
use ironbucket.Xml.{between, slice}
use ironbucket.Object.Tagging.{tag_of}

-- What is found behind a text without an angle bracket is found further on by its length.
find-behind :
    (w s p : Text) (i : ℕ)
    → Lacks 60 w
    → find s (60 ∷ p) ≡ some i
    → find (w ++ s) (60 ∷ p) ≡ some (length w + i)
unfolding find starts_with
find-behind [] s p i h e = e ∙ ap some (omega arith)
find-behind (x ∷ w) s p i h e = rw (find-behind w s p i h.1 e) (ground (arith))

-- The text of a tag behind its opening mark, up to the closing one.
abbrev pub inside : Text → Text → Text
inside k v = codes "<Key>" ++ (k ++ (codes "</Key><Value>" ++ (v ++ codes "</Value>")))

pub closing_tag :
    (k v s : Text)
    → Lacks 60 k
    → Lacks 60 v
    → find
        (codes "<Key>" ++ (k ++ (codes "</Key><Value>" ++ (v ++ (codes "</Value></Tag>" ++ s)))))
        (codes "</Tag>")
      ≡ some (26 + (length k + length v))
unfolding find starts_with
closing_tag k v s h i =
    let mark = codes "/Tag>" in
    let first = find-behind v (codes "</Value></Tag>" ++ s) mark 8 i refl in
    let second : find (codes "</Key><Value>" ++ (v ++ (codes "</Value></Tag>" ++ s))) (60 ∷ mark)
        ≡ some (21 + length v) =
      rw (first) (ap some (omega arith)) in
    let third =
      find-behind k (codes "</Key><Value>" ++ (v ++ (codes "</Value></Tag>" ++ s))) mark
        (21 + length v) h second in
    rw (third) (ap some (omega arith))

key_end : (k v : Text) → Lacks 60 k → find (inside k v) (codes "</Key>") ≡ some (5 + length k)
unfolding find starts_with
key_end k v h =
    rw (find-behind k (codes "</Key><Value>" ++ (v ++ codes "</Value>")) (codes "/Key>") 0 h refl)
      (ap some (omega arith))

value_start : (k v : Text) → Lacks 60 k → find (inside k v) (codes "<Value>") ≡ some (11 + length k)
unfolding find starts_with
value_start k v h =
    rw (find-behind k (codes "</Key><Value>" ++ (v ++ codes "</Value>")) (codes "Value>") 6 h refl)
      (ap some (omega arith))

value_end :
    (k v : Text)
    → Lacks 60 k
    → Lacks 60 v
    → find (inside k v) (codes "</Value>") ≡ some (18 + (length k + length v))
unfolding find starts_with
value_end k v h i =
    let mark = codes "/Value>" in
    let first = find-behind v (codes "</Value>") mark 0 i refl in
    let second : find (codes "</Key><Value>" ++ (v ++ codes "</Value>")) (60 ∷ mark)
        ≡ some (13 + length v) =
      rw (first) (ap some (omega arith)) in
    let third =
      find-behind k (codes "</Key><Value>" ++ (v ++ codes "</Value>")) mark (13 + length v) h
        second in
    rw (third) (ap some (omega arith))

-- The part of a text between two lengths.
slice-middle :
    (t a b c : Text) (n m : ℕ)
    → t ≡ (a ++ b) ++ c
    → n ≡ length a
    → m ≡ length a + length b
    → slice n m t ≡ some b
unfolding slice
slice-middle t a b c n m e f g =
    let long : m ≡ length (a ++ b) = omega (arith, g, length-append a b) in
    let less : leb n m ≡ true = ground (arith, f, g) in
    rw (less, e, long, take-length_append (a ++ b) c, f, drop-length_append a b) refl

between-some :
    (start end t : Text) (i j n : ℕ)
    → find t start ≡ some i
    → find t end ≡ some j
    → n ≡ i + length start
    → between start end t ≡ some (n, j)
unfolding between
between-some start end t i j n e f g = rw (between, e, f, g) refl

key_start : (k v : Text) → find (inside k v) (codes "<Key>") ≡ some 0
unfolding find starts_with
key_start k v = refl

inside_shape :
    (k v : Text)
    → inside k v ≡ ((codes "<Key>" ++ (k ++ codes "</Key><Value>")) ++ v) ++ codes "</Value>"
inside_shape k v =
    ap (λ r. codes "<Key>" ++ r)
      (sym (
        append_assoc (k ++ codes "</Key><Value>") v (codes "</Value>")
        ∙ append_assoc k (codes "</Key><Value>") (v ++ codes "</Value>")))

pub tag_of-inside :
    (k v : Text) → Lacks 60 k → Lacks 60 v → tag_of (inside k v) ≡ some (some (k, v))
unfolding tag_of
tag_of-inside k v h i =
    let opening = codes "<Key>" in
    let middle = codes "</Key><Value>" in
    let rest = middle ++ (v ++ codes "</Value>") in
    let before = opening ++ (k ++ middle) in
    let size : length before ≡ 18 + length k =
      omega (arith, length-append opening (k ++ middle), length-append k middle) in
    let keys =
      between-some opening (codes "</Key>") (inside k v) 0 (5 + length k) 5 (key_start k v)
        (key_end k v h) (omega arith) in
    let values =
      between-some (codes "<Value>") (codes "</Value>") (inside k v) (11 + length k)
        (18 + (length k + length v)) (18 + length k) (value_start k v h) (value_end k v h i)
        (omega arith) in
    let key =
      slice-middle (inside k v) opening k rest 5 (5 + length k) (sym (append_assoc opening k rest))
        refl refl in
    let value =
      slice-middle (inside k v) before v (codes "</Value>") (18 + length k)
        (18 + (length k + length v)) (inside_shape k v) (sym size) (omega (arith, size)) in
    rw (tag_of, keys, values, key, value) refl

pub element_shape :
    (k v s : Text)
    → inside k v ++ (codes "</Tag>" ++ s)
      ≡ codes "<Key>" ++ (k ++ (codes "</Key><Value>" ++ (v ++ (codes "</Value></Tag>" ++ s))))
element_shape k v s =
    ap (λ r. codes "<Key>" ++ r)
      (append_assoc k (codes "</Key><Value>" ++ (v ++ codes "</Value>")) (codes "</Tag>" ++ s)
        ∙ ap (λ r. k ++ (codes "</Key><Value>" ++ r))
            (append_assoc v (codes "</Value>") (codes "</Tag>" ++ s)))

pub length-inside : (k v : Text) → length (inside k v) ≡ 26 + (length k + length v)
length-inside k v =
    let tail = v ++ codes "</Value>" in
    omega
      (arith, length-append k (codes "</Key><Value>" ++ tail), length-append v (codes "</Value>"))

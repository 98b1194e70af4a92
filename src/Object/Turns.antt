-- ===== src/Object/Turns.antt =====
-- The loop over the tags of a text ends.
use ironbucket.Base.{
  ◌≡◌, refl, inl, inr, ℕ, zero, suc, ◌+◌, ◌≤◌, [], ◌∷◌, length, take, drop, length-drop, arith,
  Option-cases,
}
use ironbucket.Base.Text.{Text, codes, find}
use ironbucket.Base.Assoc.{Assoc}
use ironbucket.Object.Tagging.{parse_tags, tag_of, add_tag}

-- The loop that parses tags ends: with a turn for every byte, or more, it gives the same tags, or
-- the same panic.
pub parse_tags-fuel :
    (n m : ℕ) (xml : Text) (tags : Assoc Text)
    → length xml ≤ n
    → length xml ≤ m
    → parse_tags n xml tags ≡ parse_tags m xml tags
unfolding parse_tags find
parse_tags-fuel zero zero xml tags h k = refl
parse_tags-fuel zero (suc m) [] tags h k = refl
parse_tags-fuel zero (suc m) (x ∷ xml) tags h k = absurd (omega arith)
parse_tags-fuel (suc n) zero [] tags h k = refl
parse_tags-fuel (suc n) zero (x ∷ xml) tags h k = absurd (omega arith)
parse_tags-fuel (suc n) (suc m) xml tags h k = elim (Option-cases (find xml (codes "<Tag>"))) [
  | inl e ↦ rw (parse_tags, e) refl
  | inr (i, e) ↦
      let rest = drop (i + 5) xml in
      elim (Option-cases (find rest (codes "</Tag>"))) [
        | inl f ↦ rw (parse_tags, e, f) refl
        | inr (j, f) ↦ elim (Option-cases (tag_of (take j rest))) [
          | inl g ↦ rw (parse_tags, e, f, g) refl
          | inr (tag, g) ↦
              let left = length-drop (j + 6) rest in
              let right = length-drop (i + 5) xml in
              rw (parse_tags, e, f, g)
                (parse_tags-fuel n m (drop (j + 6) rest) (add_tag tag tags)
                  (omega (arith, left, right)) (omega (arith, left, right)))
        ]
      ]
]

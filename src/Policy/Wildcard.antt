-- ===== src/Policy/Wildcard.antt =====
-- What a pattern of an Action or a Resource matches.
use mathlib.Core.List.{reverse-append}
use ironbucket.Base.{
  ◌≡◌, ◌↔◌, refl, ap, ◌∙◌, inl, inr, Bool, Bool-cases, true, false, ◌&&◌, ◌||◌, [], ◌∷◌, ◌++◌,
  reverse, arith, ||-eq_true, &&-eq_true, ◌-◌, length, length-append, take, take-length_append,
}
use ironbucket.Base.Text.{
  Text, codes, text_eq, text_eq_iff, eq→text_eq, starts_with, ends_with, starts_with_rest,
  ends_with_front,
}
use ironbucket.Policy.{wildcard}

-- The pattern is the text itself or the one that stands for all, or it is a front followed by `*`
-- and the text begins with the front.
pub data Matches (all x pat : Text) : Type 0 where
  same : pat ≡ x → Matches all x pat
  everything : pat ≡ all → Matches all x pat
  front : (p rest : Text) → pat ≡ p ++ codes "*" → x ≡ p ++ rest → Matches all x pat

-- The code drops the last byte of the pattern by its length.
take_front : (p : Text) → take (length (p ++ codes "*") - 1) (p ++ codes "*") ≡ p
take_front p =
    let n : length (p ++ codes "*") - 1 ≡ length p = omega (arith, length-append p (codes "*")) in
    rw n (take-length_append p (codes "*"))

starred :
    (all x pat : Text)
    → (ends_with pat (codes "*") && starts_with x (take (length pat - 1) pat)) ≡ true
    → Matches all x pat
starred all x pat h =
    let (e, s) = &&-eq_true _ _ h in
    let (p, q) = ends_with_front pat (codes "*") e in
    let (rest, r) = starts_with_rest x (take (length pat - 1) pat) s in
    front p rest q
      (r ∙ ap (λ t. t ++ rest) (ap (λ (t : Text). take (length t - 1) t) q ∙ take_front p))

wildcard→Matches : (all x pat : Text) → wildcard all x pat ≡ true → Matches all x pat
unfolding wildcard
wildcard→Matches all x pat h = elim (||-eq_true _ _ h) [
  | inr s ↦ starred all x pat s
  | inl t ↦ elim (||-eq_true _ _ t) [
    | inl e ↦ same ((text_eq_iff pat x).0 e)
    | inr e ↦ everything ((text_eq_iff pat all).0 e)
  ]
]

starts_with-append : (p rest : Text) → starts_with (p ++ rest) p ≡ true
unfolding starts_with
starts_with-append [] rest = refl
starts_with-append (c ∷ p) rest = ground (arith, starts_with-append p rest)

ends_with-append : (p q : Text) → ends_with (p ++ q) q ≡ true
unfolding ends_with
ends_with-append p q =
    ap (λ t. starts_with t (reverse q)) (reverse-append p q)
    ∙ starts_with-append (reverse q) (reverse p)

Matches→wildcard : (all x pat : Text) → Matches all x pat → wildcard all x pat ≡ true
unfolding wildcard
Matches→wildcard all x pat (same e) = rw (eq→text_eq pat x e)
Matches→wildcard all x pat (everything e) = elim (Bool-cases (text_eq pat x)) [
  | inl b ↦ rw b
  | inr b ↦ rw (b, eq→text_eq pat all e)
]
Matches→wildcard all x pat (front p rest e f) =
    let star : ends_with pat (codes "*") ≡ true =
      ap (λ t. ends_with t (codes "*")) e ∙ ends_with-append p (codes "*") in
    let begins : starts_with x (take (length pat - 1) pat) ≡ true =
      ap (λ t. starts_with x (take (length t - 1) t)) e
      ∙ ap (starts_with x) (take_front p)
      ∙ ap (λ t. starts_with t p) f
      ∙ starts_with-append p rest in
    rw (star, begins) (or-true (text_eq pat x || text_eq pat all))
  where
    or-true : (b : Bool) → (b || true && true) ≡ true
    or-true true = refl
    or-true false = refl

-- An action or a resource matches a pattern of a policy exactly when the pattern is it, or is the
-- one that stands for all, or ends in a star behind a text that it begins with.
pub wildcard_iff : (all x pat : Text) → (wildcard all x pat ≡ true) ↔ Matches all x pat
wildcard_iff all x pat = (wildcard→Matches all x pat, Matches→wildcard all x pat)

-- ===== src/Policy/Decision.antt =====
-- How a policy's statements decide a request: the first statement that applies and says Allow or
-- Deny has its way, and a request that no statement decides is refused.
use ironbucket.Base.{
  ◌≡◌, refl, ◌≢◌, ◌⊎◌, inl, inr, true, false, List, [], ◌∷◌, arith, All, Bool-cases, if_same, ◌↔◌,
}
use ironbucket.Base.Text.{Text, codes, text_eq, text_eq_iff, ne→text_eq}
use ironbucket.Json.{Value}
use ironbucket.Policy.{Query, applies, effect, check_statements}

-- A statement that applies, with an effect that decides.
abbrev pub Decides : Query → Text → Value → Type 0
Decides q verdict s = (applies q s ≡ true) × (effect s ≡ verdict)

-- A statement that the loop passes over.
abbrev pub Passed : Query → Value → Type 0
Passed q s = (applies q s ≡ false) ⊎ (effect s ≢ codes "Allow") × (effect s ≢ codes "Deny")

-- `xs` holds a statement with the verdict, and all before it are passed over.
pub data FirstDecides (q : Query) (verdict : Text) : List Value → Type 0 where
  here : (s : Value) (rest : List Value) → Decides q verdict s → FirstDecides q verdict (s ∷ rest)
  later :
      (s : Value) (rest : List Value)
      → Passed q s
      → FirstDecides q verdict rest
      → FirstDecides q verdict (s ∷ rest)

Passed-step :
    (q : Query) (s : Value) (rest : List Value)
    → Passed q s
    → check_statements q (s ∷ rest) ≡ check_statements q rest
unfolding check_statements
Passed-step q s rest (inl e) = rw e
Passed-step q s rest (inr (na, nd)) = elim (Bool-cases (applies q s)) [
  | inl e ↦ rw (e, ne→text_eq _ _ na, ne→text_eq _ _ nd)
  | inr e ↦ rw e
]

allowed→FirstDecides :
    (q : Query) (xs : List Value) → check_statements q xs ≡ true → FirstDecides q (codes "Allow") xs
unfolding check_statements
allowed→FirstDecides q [] h = cc
allowed→FirstDecides q (s ∷ rest) h = elim (Bool-cases (applies q s)) [
  | inr e ↦ later s rest (inl e) (allowed→FirstDecides q rest (rw e at h))
  | inl e ↦ elim (Bool-cases (text_eq (effect s) (codes "Allow"))) [
    | inl a ↦ here s rest (e, (text_eq_iff (effect s) (codes "Allow")).0 a)
    | inr a ↦ elim (Bool-cases (text_eq (effect s) (codes "Deny"))) [
      | inl d ↦ absurd (cc (rw (e, a, d) at h))
      | inr d ↦
          later s rest
            (inr (
              ground (arith, text_eq_iff (effect s) (codes "Allow")),
              ground (arith, text_eq_iff (effect s) (codes "Deny")),
            ))
            (allowed→FirstDecides q rest (rw (e, a, d) at h))
    ]
  ]
]

FirstDecides→allowed :
    (q : Query) (xs : List Value) → FirstDecides q (codes "Allow") xs → check_statements q xs ≡ true
unfolding check_statements
FirstDecides→allowed q xs (here s rest (e, a)) = rw (e, a)
FirstDecides→allowed q xs (later s rest p f) =
    rw (Passed-step q s rest p) (FirstDecides→allowed q rest f)

-- No statement decides for the request.
abbrev pub NoneAllows : Query → List Value → Type 0
NoneAllows q xs = All (λ s. (applies q s ≡ false) ⊎ (effect s ≢ codes "Allow")) xs

-- A request is allowed exactly when the first statement that applies to it with effect Allow or
-- Deny has the effect Allow; so an Allow overrules every Deny behind it, and a request with no
-- deciding statement is refused.
pub check_statements_iff :
    (q : Query) (xs : List Value)
    → (check_statements q xs ≡ true) ↔ FirstDecides q (codes "Allow") xs
check_statements_iff q xs = (allowed→FirstDecides q xs, FirstDecides→allowed q xs)

-- A request to which no statement with effect Allow applies is refused.
pub check_statements_denies :
    (q : Query) (xs : List Value) → NoneAllows q xs → check_statements q xs ≡ false
unfolding check_statements
check_statements_denies q [] h = refl
check_statements_denies q (s ∷ rest) (inl e, h) = rw e (check_statements_denies q rest h)
check_statements_denies q (s ∷ rest) (inr n, h) =
    rw (ne→text_eq _ _ n, check_statements_denies q rest h)
      (rw (if_same (text_eq (effect s) (codes "Deny")) false) (if_same (applies q s) false))

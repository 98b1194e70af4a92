-- ===== src/Object/Parts.antt =====
-- The parts of a multipart upload in the order of their numbers.
use ironbucket.Base.{◌≡◌, refl, inl, inr, true, false, List, [], ◌∷◌, All, arith, Bool-cases}
use ironbucket.Object.{ℤ, pos, negsuc, UploadPart}
use ironbucket.Object.Multipart.{int_lt, int_eq, place_part, sort_parts}

abbrev pub Parts : Type 0
Parts = List (ℤ × UploadPart)

-- Every number is smaller than those behind it.
abbrev pub Increasing : Parts → Type 0
Increasing [] = Unit
Increasing ((n, part) ∷ rest) = All (λ p. int_lt n p.0 ≡ true) rest × Increasing rest

-- No number stands twice.
abbrev pub Distinct : Parts → Type 0
Distinct [] = Unit
Distinct ((n, part) ∷ rest) = All (λ p. int_eq p.0 n ≡ false) rest × Distinct rest

int_lt_trans : (a b c : ℤ) → int_lt a b ≡ true → int_lt b c ≡ true → int_lt a c ≡ true
unfolding int_lt
int_lt_trans (pos a) (pos b) (pos c) h k = ground arith
int_lt_trans (pos a) (pos b) (negsuc c) h k = absurd (cc)
int_lt_trans (pos a) (negsuc b) c h k = absurd (cc)
int_lt_trans (negsuc a) (pos b) (pos c) h k = refl
int_lt_trans (negsuc a) (pos b) (negsuc c) h k = absurd (cc)
int_lt_trans (negsuc a) (negsuc b) (pos c) h k = refl
int_lt_trans (negsuc a) (negsuc b) (negsuc c) h k = ground arith

pub int_lt_total : (a b : ℤ) → int_eq a b ≡ false → int_lt a b ≡ false → int_lt b a ≡ true
unfolding int_lt int_eq
int_lt_total (pos a) (pos b) h k = ground arith
int_lt_total (pos a) (negsuc b) h k = refl
int_lt_total (negsuc a) (pos b) h k = absurd (cc)
int_lt_total (negsuc a) (negsuc b) h k = ground arith

module _ (P : ℤ × UploadPart → Type 0) where
  place_part-All :
      (part : ℤ × UploadPart) (ps : Parts) → P part → All P ps → All P (place_part part ps)
  unfolding place_part
  place_part-All part [] h k = (h, k)
  place_part-All part (first ∷ rest) h k = elim (Bool-cases (int_lt first.0 part.0)) [
    | inl e ↦ rw (e) (k.0, place_part-All part rest h k.1)
    | inr e ↦ rw (e) (h, k)
  ]

  pub sort_parts-All : (ps : Parts) → All P ps → All P (sort_parts ps)
  unfolding sort_parts
  sort_parts-All [] h = h
  sort_parts-All (part ∷ rest) h =
      place_part-All part (sort_parts rest) h.0 (sort_parts-All rest h.1)

pub All-lt :
    (a b : ℤ) (ps : Parts)
    → int_lt a b ≡ true
    → All (λ p. int_lt b p.0 ≡ true) ps
    → All (λ p. int_lt a p.0 ≡ true) ps
All-lt a b [] h k = k
All-lt a b (p ∷ ps) h k = (int_lt_trans a b p.0 h k.0, All-lt a b ps h k.1)

place_part-Increasing :
    (part : ℤ × UploadPart) (ps : Parts)
    → All (λ p. int_eq p.0 part.0 ≡ false) ps
    → Increasing ps
    → Increasing (place_part part ps)
unfolding place_part
place_part-Increasing part [] d h = (tt, tt)
place_part-Increasing part (first ∷ rest) d h = elim (Bool-cases (int_lt first.0 part.0)) [
  | inl e ↦ rw (e) (
    place_part-All (λ p. int_lt first.0 p.0 ≡ true) part rest e h.0,
    place_part-Increasing part rest d.1 h.1,
  )
  | inr e ↦
      let less = int_lt_total first.0 part.0 d.0 e in
      rw (e) ((less, All-lt part.0 first.0 rest less h.0), h)
]

-- Where no number stands twice, the parts that a completed upload is put together from are in the
-- order of their numbers, each smaller than those behind it.
pub sort_parts-Increasing : (ps : Parts) → Distinct ps → Increasing (sort_parts ps)
unfolding sort_parts
sort_parts-Increasing [] d = tt
sort_parts-Increasing (part ∷ rest) d =
    place_part-Increasing part (sort_parts rest)
      (sort_parts-All (λ p. int_eq p.0 part.0 ≡ false) rest d.0) (sort_parts-Increasing rest d.1)

-- ===== src/Object/Order.antt =====
-- A completed upload depends on the last part of each number only, not on the order of the parts.
use ironbucket.Base.{
  ◌≡◌, refl, sym, ap, ◌∙◌, inl, inr, true, false, Option, none, some, [], ◌∷◌, All, arith,
  Bool-cases, if◌then◌else◌,
}
use ironbucket.Object.{ℤ, pos, negsuc, UploadPart}
use ironbucket.Object.Multipart.{int_lt, int_eq, place_part, sort_parts, joined, combined_data}
use ironbucket.Object.Parts.{
  Parts, Increasing, Distinct, sort_parts-Increasing, int_lt_total, All-lt, sort_parts-All,
}

-- The part of a number.
unfoldable pub part_of : ℤ → Parts → Option UploadPart
unfolding int_eq
part_of n [] = none
part_of n ((m, part) ∷ rest) = if int_eq m n then some part else part_of n rest

int_eq→eq : (a b : ℤ) → int_eq a b ≡ true → a ≡ b
unfolding int_eq
int_eq→eq (pos a) (pos b) h = ap pos (ground arith)
int_eq→eq (pos a) (negsuc b) h = absurd (cc)
int_eq→eq (negsuc a) (pos b) h = absurd (cc)
int_eq→eq (negsuc a) (negsuc b) h = ap negsuc (ground arith)

int_eq_refl : (a : ℤ) → int_eq a a ≡ true
unfolding int_eq
int_eq_refl (pos a) = ground arith
int_eq_refl (negsuc a) = ground arith

int_lt-apart : (a b : ℤ) → int_lt a b ≡ true → int_eq b a ≡ false
unfolding int_eq int_lt
int_lt-apart (pos a) (pos b) h = ground arith
int_lt-apart (pos a) (negsuc b) h = absurd (cc)
int_lt-apart (negsuc a) (pos b) h = refl
int_lt-apart (negsuc a) (negsuc b) h = ground arith

part_of-above : (n : ℤ) (ps : Parts) → All (λ p. int_lt n p.0 ≡ true) ps → part_of n ps ≡ none
unfolding part_of
part_of-above n [] h = refl
part_of-above n (p ∷ ps) h = rw (int_lt-apart n p.0 h.0) (part_of-above n ps h.1)

part_of-place_part :
    (n : ℤ) (part : ℤ × UploadPart) (ps : Parts)
    → All (λ p. int_eq p.0 part.0 ≡ false) ps
    → part_of n (place_part part ps) ≡ part_of n (part ∷ ps)
unfolding part_of place_part
part_of-place_part n part [] d = refl
part_of-place_part n part (first ∷ rest) d = elim (Bool-cases (int_lt first.0 part.0)) [
  | inr e ↦ rw (e) refl
  | inl e ↦ elim (Bool-cases (int_eq part.0 n)) [
    | inr f ↦ rw (e, part_of-place_part n part rest d.1, f) refl
    | inl f ↦
        let other : int_eq first.0 n ≡ false = rw (int_eq→eq part.0 n f) at d.0 in
        rw (e, part_of-place_part n part rest d.1, f, other) refl
  ]
]

part_of-sort_parts : (n : ℤ) (ps : Parts) → Distinct ps → part_of n (sort_parts ps) ≡ part_of n ps
unfolding part_of sort_parts
part_of-sort_parts n [] d = refl
part_of-sort_parts n (part ∷ rest) d =
    part_of-place_part n part (sort_parts rest)
      (sort_parts-All (λ p. int_eq p.0 part.0 ≡ false) rest d.0)
    ∙ rw (part_of-sort_parts n rest d.1) refl

-- Two lists in the order of the numbers are equal, if they have the same part for each number.
Increasing-ext :
    (ps qs : Parts)
    → Increasing ps
    → Increasing qs
    → ((n : ℤ) → part_of n ps ≡ part_of n qs)
    → ps ≡ qs
unfolding part_of
Increasing-ext [] [] h k same = refl
Increasing-ext [] ((m, q) ∷ qs) h k same =
    let z : none ≡ some q = rw (int_eq_refl m) at (same m) in absurd (cc)
Increasing-ext ((n, p) ∷ ps) [] h k same =
    let z : some p ≡ none = rw (int_eq_refl n) at (same n) in absurd (cc)
Increasing-ext ((n, p) ∷ ps) ((m, q) ∷ qs) h k same = elim (Bool-cases (int_lt n m)) [
  | inl e ↦
      let z : some p ≡ none =
        rw (int_eq_refl n, int_lt-apart n m e, part_of-above n qs (All-lt n m qs e k.0)) at
          (same n) in
      absurd (cc)
  | inr e ↦ elim (Bool-cases (int_eq n m)) [
    | inr f ↦
        let g = int_lt_total n m f e in
        let z : none ≡ some q =
          rw (int_eq_refl m, f, part_of-above m ps (All-lt m n ps g h.0)) at (same m) in
        absurd (cc)
    | inl f ↦
        let eq = int_eq→eq n m f in
        let y : some p ≡ some q = rw (sym eq, int_eq_refl n) at (same n) in
        let part : p ≡ q = cc in
        rw
          (
            eq,
            part,
            Increasing-ext ps qs h.1 k.1 (λ r. elim (Bool-cases (int_eq n r)) [
              | inr g ↦ rw (sym eq, g) at (same r)
              | inl g ↦
                  let there = int_eq→eq n r g in
                  let above : All (λ p. int_lt n p.0 ≡ true) qs = rw (sym eq) at k.0 in
                  rw (sym there) (part_of-above n ps h.0 ∙ sym (part_of-above n qs above))
            ]),
          )
          refl
  ]
]

-- Where no number stands twice in either of two uploads, and both have the same part for each
-- number, or none: they are put together to the same bytes, in whatever order the parts came.
pub combined_data-part_of :
    (ps qs : Parts)
    → Distinct ps
    → Distinct qs
    → ((n : ℤ) → part_of n ps ≡ part_of n qs)
    → combined_data ps ≡ combined_data qs
unfolding combined_data
combined_data-part_of ps qs d e same = ap joined (
    Increasing-ext (sort_parts ps) (sort_parts qs) (sort_parts-Increasing ps d)
      (sort_parts-Increasing qs e)
      (λ n. part_of-sort_parts n ps d ∙ same n ∙ sym (part_of-sort_parts n qs e)))

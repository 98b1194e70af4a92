-- ===== src/Listing/Pages.antt =====
-- Following the tokens of a listing gives every object once, in order.
use ironbucket.Base.{
  ℕ, zero, suc, ◌+◌, ◌-◌, ◌%◌, ◌^◌, ◌≤◌, ◌<◌, min, ◌≡◌, refl, sym, ap, ◌∙◌, subst, ◌≢◌, inl, inr,
  true, false, Option, none, some, List, [], ◌∷◌, ◌++◌, append_assoc, length, take, drop,
  length-append, length-drop, length-take, arith, All, drop-length_append, ltb→lt, lt→ltb,
  ltb-false, ltb-false→le, ltb, is_empty, if◌then◌else◌, Bool-cases, take-append-drop, take_all,
}
use ironbucket.Base.Text.{Text}
use ironbucket.Listing.{
  text_gt, Object, position_after, start_index, last_key, Page, page_between, page_of,
}

pub text_gt_irrefl : (a : Text) → text_gt a a ≡ false
unfolding text_gt
text_gt_irrefl [] = refl
text_gt_irrefl (x ∷ a) = ground (arith, text_gt_irrefl a)

pub text_gt_asymm : (a b : Text) → text_gt a b ≡ true → text_gt b a ≡ false
unfolding text_gt
text_gt_asymm [] b h = cc
text_gt_asymm (x ∷ a) [] h = refl
text_gt_asymm (x ∷ a) (y ∷ b) h = ground (arith, text_gt_asymm a b)

pub text_gt_trans : (a b c : Text) → text_gt a b ≡ true → text_gt b c ≡ true → text_gt a c ≡ true
unfolding text_gt
text_gt_trans [] b c h k = cc
text_gt_trans (x ∷ a) [] c h k = cc
text_gt_trans (x ∷ a) (y ∷ b) [] h k = refl
text_gt_trans (x ∷ a) (y ∷ b) (z ∷ c) h k = ground (arith, text_gt_trans a b c)

-- Every key is greater than the ones before it; none is empty.
abbrev pub IsSorted : List Object → Type 0
IsSorted [] = Unit
IsSorted (o ∷ os) = (o.key ≢ []) × All (λ (p : Object). text_gt p.key o.key ≡ true) os × IsSorted os

last_key-gt :
    (b : Text) (xs ys : List Object) (k : Text)
    → All (λ (p : Object). text_gt p.key b ≡ true) (xs ++ ys)
    → last_key xs ≡ some k
    → text_gt k b ≡ true
unfolding last_key
last_key-gt b [] ys k h e = absurd (cc)
last_key-gt b (o ∷ []) ys k (h, t) e = cc
last_key-gt b (o ∷ p ∷ xs) ys k (h, t) e = last_key-gt b (p ∷ xs) ys k t e

position_after_self :
    (o : Object) (ys : List Object) → IsSorted (o ∷ ys) → position_after o.key (o ∷ ys) ≡ 1
unfolding position_after
position_after_self o [] s = rw (text_gt_irrefl o.key)
position_after_self o (y ∷ ys) (n, (h, t), s) = rw (text_gt_irrefl o.key, h)

-- The token of a page that ends behind `xs` leads to what is behind `xs`.
position_after-last_key :
    (xs ys : List Object) (k : Text)
    → IsSorted (xs ++ ys)
    → last_key xs ≡ some k
    → position_after k (xs ++ ys) ≡ length xs
unfolding last_key position_after
position_after-last_key [] ys k s e = absurd (cc)
position_after-last_key (o ∷ []) ys k s e =
    let same : o.key ≡ k = (cc) in
    subst (λ v. position_after v (o ∷ ys) ≡ 1) same (position_after_self o ys s)
position_after-last_key (o ∷ p ∷ xs) ys k (n, h, s) e =
    let gt = last_key-gt o.key (p ∷ xs) ys k h e in
    let rest = position_after-last_key (p ∷ xs) ys k s e in rw (text_gt_asymm k o.key gt, rest)

last_key-append :
    (xs : List Object) (p : Object) (ps : List Object) → last_key (xs ++ p ∷ ps) ≡ last_key (p ∷ ps)
unfolding last_key
last_key-append [] p ps = refl
last_key-append (x ∷ []) p ps = refl
last_key-append (x ∷ y ∷ xs) p ps = last_key-append (y ∷ xs) p ps

-- A page that is not empty has a last key, and no sorted listing has an empty one.
last_key-some : (p : Object) (ps : List Object) → (k : Text) × (last_key (p ∷ ps) ≡ some k)
unfolding last_key
last_key-some p [] = (p.key, refl)
last_key-some p (q ∷ ps) = last_key-some q ps

last_key-ne-nil :
    (xs ys : List Object) (k : Text) → IsSorted (xs ++ ys) → last_key xs ≡ some k → k ≢ []
unfolding last_key
last_key-ne-nil [] ys k s e = absurd (cc)
last_key-ne-nil (o ∷ []) ys k (n, h, s) e = λ z. n (cc)
last_key-ne-nil (o ∷ p ∷ xs) ys k (n, h, s) e = last_key-ne-nil (p ∷ xs) ys k s e

is_empty-ne-nil : (k : Text) → k ≢ [] → is_empty k ≡ false
is_empty-ne-nil [] n = absurd (n refl)
is_empty-ne-nil (x ∷ k) n = refl

-- Where the next page starts, when what was read so far is `xs`.
start_index-last_key :
    (xs ys : List Object) → IsSorted (xs ++ ys) → start_index (last_key xs) (xs ++ ys) ≡ length xs
unfolding start_index last_key
start_index-last_key [] ys s = refl
start_index-last_key (x ∷ xs) ys s =
    let (k, e) = last_key-some x xs in
    rw (
      e,
      is_empty-ne-nil k (last_key-ne-nil (x ∷ xs) ys k s e),
      position_after-last_key (x ∷ xs) ys k s e,
    )

-- `ListObjects` asked again with each `NextContinuationToken`.
abbrev pub read_pages : ℕ → List Object → Option Text → ℕ → List Object
read_pages zero all_objects token max_keys = []
read_pages (suc fuel) all_objects token max_keys = elim (page_of all_objects token max_keys) [
  | none ↦ []
  | some page ↦
      let rest = read_pages fuel all_objects page.next_token max_keys in
      if page.is_truncated then page.objects ++ rest else page.objects
]

take_upto : (m n : ℕ) (ys : List Object) → m ≡ min n (length ys) → take m ys ≡ take n ys
take_upto zero zero ys e = refl
take_upto zero (suc n) [] e = refl
take_upto zero (suc n) (y ∷ ys) e = absurd (omega arith)
take_upto (suc m) zero ys e = absurd (omega arith)
take_upto (suc m) (suc n) [] e = refl
take_upto (suc m) (suc n) (y ∷ ys) e = ap (λ t. y ∷ t) (take_upto m n ys (omega arith))

take-min : (n : ℕ) (ys : List Object) → take (min n (length ys)) ys ≡ take n ys
take-min n ys = take_upto (min n (length ys)) n ys refl

min_shift : (a b c : ℕ) → min (a + b) (a + c) - a ≡ min b c
min_shift a b c = omega arith

ltb_shift : (a b c : ℕ) → ltb (min (a + b) (a + c)) (a + c) ≡ ltb b c
ltb_shift a b c = elim (Bool-cases (ltb b c)) [
  | inl t ↦ lt→ltb _ _ (omega (arith, ltb→lt b c t)) ∙ sym t
  | inr t ↦ ltb-false _ _ (omega (arith, ltb-false→le b c t)) ∙ sym t
]

-- The page behind the first objects.
abbrev page_behind : List Object → List Object → ℕ → Page
page_behind xs ys max_keys =
    page_between (xs ++ ys) (length xs) (min (length xs + max_keys) (length (xs ++ ys)))

page_of-behind :
    (xs ys : List Object) (token : Option Text) (max_keys : ℕ)
    → start_index token (xs ++ ys) ≡ length xs
    → length xs + max_keys < 2 ^ 64
    → page_of (xs ++ ys) token max_keys ≡ some (page_behind xs ys max_keys)
unfolding page_of
page_of-behind xs ys token max_keys e b =
    let whole : (length xs + max_keys) % 2 ^ 64 ≡ length xs + max_keys = omega arith in
    let after : ltb (min (length xs + max_keys) (length (xs ++ ys))) (length xs) ≡ false =
      ltb-false _ _ (omega (arith, length-append xs ys)) in
    rw (e, whole, after) refl

page_behind-objects :
    (xs ys : List Object) (max_keys : ℕ) → (page_behind xs ys max_keys).objects ≡ take max_keys ys
unfolding page_between
page_behind-objects xs ys max_keys = rw (
  length-append xs ys,
  min_shift (length xs) max_keys (length ys),
  drop-length_append xs ys,
  take-min max_keys ys,
)

page_behind-is_truncated :
    (xs ys : List Object) (max_keys : ℕ)
    → (page_behind xs ys max_keys).is_truncated ≡ ltb max_keys (length ys)
unfolding page_between
page_behind-is_truncated xs ys max_keys =
    rw (length-append xs ys, ltb_shift (length xs) max_keys (length ys))

page_behind-next_token :
    (xs ys : List Object) (max_keys : ℕ)
    → ltb max_keys (length ys) ≡ true
    → (page_behind xs ys max_keys).next_token ≡ last_key (take max_keys ys)
unfolding page_between
page_behind-next_token xs ys max_keys t = rw (
  length-append xs ys,
  ltb_shift (length xs) max_keys (length ys),
  min_shift (length xs) max_keys (length ys),
  drop-length_append xs ys,
  take-min max_keys ys,
  t,
)

-- The token of a page that is not the last one.
next_start :
    (xs ys : List Object) (max_keys : ℕ)
    → IsSorted (xs ++ ys)
    → 1 ≤ max_keys
    → ltb max_keys (length ys) ≡ true
    → start_index (page_behind xs ys max_keys).next_token (xs ++ ys)
      ≡ length (xs ++ take max_keys ys)
next_start xs ys zero s m t = absurd (omega arith)
next_start xs [] (suc n) s m t = absurd (omega (arith, ltb→lt (suc n) 0 t))
next_start xs (y ∷ ys) (suc n) s m t =
    let front = xs ++ y ∷ take n ys in
    let split : front ++ drop n ys ≡ xs ++ y ∷ ys =
      append_assoc xs (y ∷ take n ys) (drop n ys) ∙ ap (λ v. xs ++ y ∷ v) (take-append-drop n ys) in
    let sorted = subst IsSorted (sym split) s in
    let last = start_index-last_key front (drop n ys) sorted in
    ap (λ v. start_index v (xs ++ y ∷ ys))
      (page_behind-next_token xs (y ∷ ys) (suc n) t ∙ sym (last_key-append xs y (take n ys)))
    ∙ ap (start_index (last_key front)) (sym split)
    ∙ last

read_pages_rest :
    (fuel : ℕ) (xs ys : List Object) (token : Option Text) (max_keys : ℕ)
    → IsSorted (xs ++ ys)
    → start_index token (xs ++ ys) ≡ length xs
    → 1 ≤ max_keys
    → length ys < fuel
    → length xs + max_keys < 2 ^ 64
    → length (xs ++ ys) < 2 ^ 63
    → read_pages fuel (xs ++ ys) token max_keys ≡ ys
read_pages_rest zero xs ys token max_keys s e m f b c = absurd (omega arith)
read_pages_rest (suc fuel) xs ys token max_keys s e m f b c =
    elim (Bool-cases (ltb max_keys (length ys))) [
      | inl t ↦
          let next = (page_behind xs ys max_keys).next_token in
          let front = xs ++ take max_keys ys in
          let split : front ++ drop max_keys ys ≡ xs ++ ys =
            append_assoc xs (take max_keys ys) (drop max_keys ys)
            ∙ ap (λ v. xs ++ v) (take-append-drop max_keys ys) in
          let later =
            read_pages_rest fuel front (drop max_keys ys) next max_keys
              (subst IsSorted (sym split) s)
              (ap (start_index next) split ∙ next_start xs ys max_keys s m t) m
              (omega (arith, length-drop max_keys ys, ltb→lt max_keys (length ys) t)) (next_fits t)
              (subst (λ v. length v < 2 ^ 63) (sym split) c) in
          let later' =
            subst (λ v. read_pages fuel v next max_keys ≡ drop max_keys ys) split later in
          rw (
            read_pages,
            page_of-behind xs ys token max_keys e b,
            page_behind-is_truncated xs ys max_keys,
            t,
            page_behind-objects xs ys max_keys,
            later',
            take-append-drop max_keys ys,
          )
      | inr t ↦
          let short = ltb-false→le max_keys (length ys) t in
          rw (
            read_pages,
            page_of-behind xs ys token max_keys e b,
            page_behind-is_truncated xs ys max_keys,
            t,
            page_behind-objects xs ys max_keys,
            take_all max_keys ys short,
          )
    ]
  where
    next_fits :
        ltb max_keys (length ys) ≡ true → length (xs ++ take max_keys ys) + max_keys < 2 ^ 64
    next_fits t = omega (
      arith,
      length-append xs (take max_keys ys),
      length-append xs ys,
      length-take max_keys ys,
      ltb→lt max_keys (length ys) t,
    )

-- For fewer than 2^63 objects sorted by key with no empty key and a page size of at least 1 that fits
-- 64 bits, asking for the pages
-- one after the other, each with the token of the one before, gives every object exactly once and
-- in order, with at most one request per object and one more.
pub read_pages_complete :
    (all_objects : List Object) (max_keys : ℕ)
    → IsSorted all_objects
    → 1 ≤ max_keys
    → max_keys < 2 ^ 64
    → length all_objects < 2 ^ 63
    → read_pages (suc (length all_objects)) all_objects none max_keys ≡ all_objects
unfolding start_index
read_pages_complete all_objects max_keys s m b c =
    read_pages_rest (suc (length all_objects)) [] all_objects none max_keys s refl m (omega arith)
      (omega arith) c

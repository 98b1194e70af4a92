-- ===== src/Paths/Suffix.antt =====
-- The place of a file and the place of the file whose name is longer are two places.
use ironbucket.Base.{
  ◌≡◌, refl, ap, subst, ◌∙◌, ◌≢◌, inl, inr, ℕ, ◌<◌, ◌≤◌, Bool, true, false, some, List, [], ◌∷◌,
  ◌++◌, length, length-append, is_empty, arith, if◌then◌else◌, Bool-cases, ◌==◌,
}
use ironbucket.Base.Text.{
  Text, codes, text_eq, split, split_last, cons_head, starts_with, Lacks, ne→text_eq,
}
use ironbucket.Paths.{Tree, Location, PathBuf, dir_at, stays, up, step, resolve, join, append_last}

length-up : (l : Location) → length (up l) ≤ length l
unfolding up
length-up [] = omega arith
length-up (c ∷ []) = omega arith
length-up (c ∷ d ∷ ds) = omega (arith, length-up (d ∷ ds))

last_eq : (l : Location) (c d : Text) → l ++ c ∷ [] ≡ l ++ d ∷ [] → c ≡ d
last_eq [] c d h = cc
last_eq (x ∷ l) c d h = last_eq l c d (cc)

ne_length : (s t : Text) → length s ≢ length t → text_eq s t ≡ false
ne_length s t h = ne→text_eq s t (λ e. h (ap length e))

is_empty-long : (s : Text) → 2 < length s → is_empty s ≡ false
is_empty-long [] h = absurd (omega arith)
is_empty-long (x ∷ s) h = refl

long_step : (l : Location) (s : Text) → 2 < length s → step l s ≡ l ++ s ∷ []
unfolding step stays
long_step l s h = rw (
  is_empty-long s h,
  ne_length s (codes ".") (omega arith),
  ne_length s (codes "..") (omega arith),
)

step-apart : (l : Location) (c w : Text) → 2 < length w → step l c ≢ step l (c ++ w)
unfolding step stays
step-apart l c w h e =
    let long : 2 < length (c ++ w) = omega (arith, length-append c w) in
    let k : step l c ≡ l ++ (c ++ w) ∷ [] = e ∙ long_step l (c ++ w) long in
    let more = length-append l ((c ++ w) ∷ []) in
    elim (Bool-cases (stays c)) [
      | inl f ↦
          let n : l ≡ l ++ (c ++ w) ∷ [] = rw (step, f) at k in
          absurd (omega (arith, ap length n, more))
      | inr f ↦ elim (Bool-cases (text_eq c (codes ".."))) [
        | inl g ↦
            let n : up l ≡ l ++ (c ++ w) ∷ [] = rw (step, f, g) at k in
            absurd (omega (arith, ap length n, more, length-up l))
        | inr g ↦
            let n : l ++ c ∷ [] ≡ l ++ (c ++ w) ∷ [] = rw (step, f, g) at k in
            absurd (omega (arith, ap length (last_eq l c (c ++ w) n), length-append c w))
      ]
    ]

pub resolve-apart :
    (t : Tree) (l q : Location) (c : Text) (p : PathBuf) (w : Text)
    → 2 < length w
    → resolve t l (c ∷ p) ≡ some q
    → resolve t l (append_last (c ∷ p) w) ≢ some q
unfolding resolve append_last
resolve-apart t l q c [] w h e k = elim (Bool-cases (dir_at t l)) [
  | inr f ↦ let n = rw (f) at e in absurd (cc)
  | inl f ↦
      let m : some (step l c) ≡ some q = rw (f) at e in
      let n : some (step l (c ++ w)) ≡ some q = rw (f) at k in step-apart l c w h (cc)
]
resolve-apart t l q c (d ∷ p) w h e k = elim (Bool-cases (dir_at t l)) [
  | inr f ↦ let n = rw (f) at e in absurd (cc)
  | inl f ↦ resolve-apart t (step l c) q d p w h (rw (f) at e) (rw (f) at k)
]

pub split-cons : (s : Text) → (v : Text) × (vs : List Text) × (split b'/' s ≡ v ∷ vs)
unfolding split cons_head
split-cons [] = ([], [], refl)
split-cons (x ∷ s) =
    let (v, vs, e) = split-cons s in
    elim (Bool-cases (x == b'/')) [
      | inl f ↦ ([], v ∷ vs, rw (f, e))
      | inr f ↦ (x ∷ v, vs, rw (f, e))
    ]

cons_head-append_last :
    (x : ℕ) (v : Text) (vs : List Text) (w : Text)
    → cons_head x (append_last (v ∷ vs) w) ≡ append_last (cons_head x (v ∷ vs)) w
unfolding append_last cons_head
cons_head-append_last x v [] w = refl
cons_head-append_last x v (u ∷ vs) w = refl

split-append : (w s : Text) → Lacks b'/' w → split b'/' (s ++ w) ≡ append_last (split b'/' s) w
unfolding split append_last
split-append w [] h = split_last b'/' w h
split-append w (x ∷ s) h =
    let (v, vs, e) = split-cons s in
    let later = split-append w s h in
    elim (Bool-cases (x == b'/')) [
      | inl f ↦ rw (f, later, e)
      | inr f ↦ rw (f, later, e) (cons_head-append_last x v vs w)
    ]

append_last-append :
    (p : PathBuf) (v : Text) (vs : List Text) (w : Text)
    → p ++ append_last (v ∷ vs) w ≡ append_last (p ++ v ∷ vs) w
unfolding append_last
append_last-append [] v vs w = refl
append_last-append (c ∷ []) v vs w = refl
append_last-append (c ∷ d ∷ p) v vs w = rw (append_last-append (d ∷ p) v vs w)

resolve-apart_append :
    (t : Tree) (q : Location) (p : PathBuf) (v : Text) (vs : List Text) (w : Text)
    → 2 < length w
    → resolve t [] (p ++ v ∷ vs) ≡ some q
    → resolve t [] (p ++ append_last (v ∷ vs) w) ≢ some q
resolve-apart_append t q [] v vs w n e k = resolve-apart t [] q v vs w n e k
resolve-apart_append t q (c ∷ p) v vs w n e k =
    resolve-apart t [] q c (p ++ v ∷ vs) w n e (rw (append_last-append (c ∷ p) v vs w) at k)

if-apart :
    (b : Bool) (t : Tree) (q : Location) (p : PathBuf) (v : Text) (vs : List Text) (w : Text)
    → 2 < length w
    → resolve t [] (if b then v ∷ vs else p ++ v ∷ vs) ≡ some q
    → resolve t [] (if b then append_last (v ∷ vs) w else p ++ append_last (v ∷ vs) w) ≢ some q
if-apart true t q p v vs w n e k = resolve-apart t [] q v vs w n e k
if-apart false t q p v vs w n e k = resolve-apart_append t q p v vs w n e k

-- A key that is not empty, joined to a path, and the key with a suffix lead to two places.
pub join-apart :
    (t : Tree) (q : Location) (p : PathBuf) (x : ℕ) (key w : Text)
    → Lacks b'/' w
    → 2 < length w
    → resolve t [] (join p (x ∷ key)) ≡ some q
    → resolve t [] (join p (x ∷ (key ++ w))) ≢ some q
unfolding join starts_with
join-apart t q p x key w h n e k =
    let (v, vs, f) = split-cons (x ∷ key) in
    let g : split b'/' (x ∷ (key ++ w)) ≡ append_last (v ∷ vs) w =
      split-append w (x ∷ key) h ∙ ap (λ r. append_last r w) f in
    let b = starts_with (x ∷ key) (codes "/") in
    if-apart b t q p v vs w n (subst (λ r. resolve t [] (if b then r else p ++ r) ≡ some q) f e)
      (subst (λ r. resolve t [] (if b then r else p ++ r) ≡ some q) g k)

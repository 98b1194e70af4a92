-- ===== src/Xml/Tokens.antt =====
-- Text as plain text and marks: where a mark is found, what an element holds, and how text is split
-- at a mark.
use ironbucket.Base.{
  ◌≡◌, refl, sym, ap, subst, ◌∙◌, inl, inr, ℕ, zero, suc, ◌+◌, ◌-◌, false, ◌&&◌, Option, none, some,
  List, [], ◌∷◌, ◌++◌, append_assoc, arith, All, length, ◌==◌, Bool-cases,
}
use ironbucket.Base.Text.{
  Text, text_eq, find, starts_with, cons_head, Lacks, Lacks-append, starts_with-append,
}
use ironbucket.Xml.{mark, end_mark, split_at}

pub data Token : Type 0 where
  plain : Text → Token
  tag : Text → Token

abbrev pub render : List Token → Text
render [] = []
render (plain w ∷ ts) = w ++ render ts
render (tag n ∷ ts) = b'<' ∷ (n ++ b'>' ∷ render ts)

pub render-append : (a b : List Token) → render (a ++ b) ≡ render a ++ render b
render-append [] b = refl
render-append (plain w ∷ a) b =
    ap (λ r. w ++ r) (render-append a b) ∙ sym (append_assoc w (render a) (render b))
render-append (tag n ∷ a) b =
    ap (λ r. b'<' ∷ (n ++ b'>' ∷ r)) (render-append a b)
    ∙ sym (ap (λ r. b'<' ∷ r) (append_assoc n (b'>' ∷ render a) (render b)))

-- A name of elements: it holds neither brackets nor slashes.
abbrev pub IsName : Text → Type 0
IsName n = Lacks b'<' n × Lacks b'>' n × Lacks b'/' n

-- The token is text without marks, or a mark that neither starts nor ends an element `n`.
abbrev pub Passes : Text → Token → Type 0
Passes n (plain w) = Lacks b'<' w
Passes n (tag m) =
    Lacks b'<' m × Lacks b'>' m × (text_eq m n ≡ false) × (text_eq m (b'/' ∷ n) ≡ false)

-- A mark starts with another only if it is the same.
pub starts_with-mark :
    (m n s : Text)
    → Lacks b'>' m
    → Lacks b'>' n
    → starts_with (m ++ b'>' ∷ s) (n ++ b'>' ∷ []) ≡ text_eq m n
unfolding starts_with text_eq
starts_with-mark [] [] s h k = refl
starts_with-mark [] (y ∷ n) s h k = ground arith
starts_with-mark (x ∷ m) [] s h k = ground arith
starts_with-mark (x ∷ m) (y ∷ n) s h k = ap (λ b. x == y && b) (starts_with-mark m n s h.1 k.1)

-- A position, moved by what stands in front.
abbrev pub shift : ℕ → Option ℕ → Option ℕ
shift k none = none
shift k (some i) = some (k + i)

-- No place in `w`, in front of `s`, is where the pattern begins.
abbrev pub Quiet : Text → Text → Text → Type 0
Quiet p [] s = Unit
Quiet p (x ∷ w) s = (starts_with (x ∷ (w ++ s)) p ≡ false) × Quiet p w s

pub find-Quiet : (w s p : Text) → Quiet p w s → find (w ++ s) p ≡ shift (length w) (find s p)
unfolding find
find-Quiet [] s p h = shift_zero (find s p)
  where
    shift_zero : (o : Option ℕ) → o ≡ shift 0 o
    shift_zero none = refl
    shift_zero (some i) = ap some (omega arith)
find-Quiet (x ∷ w) s p h = rw (h.0, find-Quiet w s p h.1) (shift_suc (find s p))
  where
    shift_suc :
        (o : Option ℕ)
        → (elim (shift (length w) o) as (λ r. Option ℕ) [ none ↦ none | some i ↦ some (suc i) ])
          ≡ shift (suc (length w)) o
    shift_suc none = refl
    shift_suc (some i) = ap some (omega arith)

abbrev pub prepend : Text → List Text → List Text
prepend [] vs = vs
prepend (x ∷ w) vs = cons_head x (prepend w vs)

pub prepend-cons : (w v : Text) (vs : List Text) → prepend w (v ∷ vs) ≡ (w ++ v) ∷ vs
unfolding cons_head
prepend-cons [] v vs = refl
prepend-cons (x ∷ w) v vs = rw (prepend-cons w v vs) refl

pub split-Quiet : (w s p : Text) → Quiet p w s → split_at p 0 (w ++ s) ≡ prepend w (split_at p 0 s)
unfolding split_at
split-Quiet [] s p h = refl
split-Quiet (x ∷ w) s p h = rw (h.0, split-Quiet w s p h.1) refl

-- There is always a first piece.
pub split_at-cons :
    (p : Text) (k : ℕ) (s : Text) → (v : Text) × (vs : List Text) × (split_at p k s ≡ v ∷ vs)
unfolding split_at cons_head
split_at-cons p k [] = ([], [], refl)
split_at-cons p (suc k) (x ∷ s) = split_at-cons p k s
split_at-cons p zero (x ∷ s) =
    let (v, vs, e) = split_at-cons p 0 s in
    elim (Bool-cases (starts_with (x ∷ s) p)) [
      | inl h ↦ ([], split_at p (length p - 1) s, rw (h) refl)
      | inr h ↦ (x ∷ v, vs, rw (h, e) refl)
    ]

-- The bytes of the pattern that are left are skipped.
split_at-skip : (p w s : Text) → split_at p (length w) (w ++ s) ≡ split_at p 0 s
unfolding split_at
split_at-skip p [] s = refl
split_at-skip p (x ∷ w) s = split_at-skip p w s

pub split_at-mark :
    (x : ℕ) (p s : Text) → split_at (x ∷ p) 0 (x ∷ (p ++ s)) ≡ [] ∷ split_at (x ∷ p) 0 s
unfolding split_at
split_at-mark x p s =
    let k : suc (length p) - 1 ≡ length p = omega arith in
    rw (starts_with-append (x ∷ p) s, k) (ap (λ r. [] ∷ r) (split_at-skip (x ∷ p) p s))

pub find-mark : (x : ℕ) (p s : Text) → find (x ∷ (p ++ s)) (x ∷ p) ≡ some 0
unfolding find
find-mark x p s = rw (starts_with-append (x ∷ p) s) refl

pub Quiet-append : (p a b s : Text) → Quiet p a (b ++ s) → Quiet p b s → Quiet p (a ++ b) s
Quiet-append p [] b s h k = k
Quiet-append p (x ∷ a) b s h k = (rw (append_assoc a b s) h.0, Quiet-append p a b s h.1 k)

pub Lacks-Quiet : (w s p : Text) → Lacks b'<' w → Quiet (b'<' ∷ p) w s
unfolding starts_with
Lacks-Quiet [] s p h = tt
Lacks-Quiet (x ∷ w) s p h = (ground arith, Lacks-Quiet w s p h.1)

pub tag-Quiet :
    (m n s : Text)
    → Lacks b'<' m
    → Lacks b'>' m
    → Lacks b'>' n
    → text_eq m n ≡ false
    → Quiet (mark n) (mark m) s
unfolding starts_with
tag-Quiet m n s h k l e = (
  ap (λ r. starts_with r (n ++ b'>' ∷ [])) (append_assoc m (b'>' ∷ []) s)
      ∙ starts_with-mark m n s k l
      ∙ e,
  Lacks-Quiet (m ++ b'>' ∷ []) s (n ++ b'>' ∷ [])
      (Lacks-append b'<' m (b'>' ∷ []) h (omega arith, tt)),
)

-- Both marks of the name.
abbrev pub QuietBoth : Text → Text → Text → Type 0
QuietBoth n w s = Quiet (mark n) w s × Quiet (end_mark n) w s

-- The token is text without marks, or another mark than that of `n`.
abbrev pub Skips : Text → Token → Type 0
Skips n (plain w) = Lacks b'<' w
Skips n (tag m) = Lacks b'<' m × Lacks b'>' m × (text_eq m n ≡ false)

pub Skips-Quiet :
    (n : Text) (ts : List Token) (s : Text)
    → Lacks b'>' n
    → All (Skips n) ts
    → Quiet (mark n) (render ts) s
Skips-Quiet n [] s i h = tt
Skips-Quiet n (plain w ∷ ts) s i h =
    Quiet-append (mark n) w (render ts) s (Lacks-Quiet w _ _ h.0) (Skips-Quiet n ts s i h.1)
Skips-Quiet n (tag m ∷ ts) s i h =
    subst (λ w. Quiet (mark n) w s) (ap (λ r. b'<' ∷ r) (append_assoc m (b'>' ∷ []) (render ts)))
      (Quiet-append (mark n) (mark m) (render ts) s (tag-Quiet m n _ h.0.0 h.0.1 i h.0.2)
        (Skips-Quiet n ts s i h.1))

pub Passes-Skips :
    (n : Text) (ts : List Token) → All (Passes n) ts → All (Skips n) ts × All (Skips (b'/' ∷ n)) ts
Passes-Skips n [] h = (tt, tt)
Passes-Skips n (plain w ∷ ts) h = let (a, b) = Passes-Skips n ts h.1 in ((h.0, a), (h.0, b))
Passes-Skips n (tag m ∷ ts) h =
    let (a, b) = Passes-Skips n ts h.1 in (((h.0.0, h.0.1, h.0.2), a), ((h.0.0, h.0.1, h.0.3), b))

pub Passes-Quiet :
    (n : Text) (ts : List Token) (s : Text)
    → IsName n
    → All (Passes n) ts
    → QuietBoth n (render ts) s
Passes-Quiet n ts s i h =
    let (a, b) = Passes-Skips n ts h in
    (Skips-Quiet n ts s i.1 a, Skips-Quiet (b'/' ∷ n) ts s (omega arith, i.1) b)

-- ===== src/Base/Text.antt =====
-- Text as the list of its bytes, and the operations of Rust's `str` that the source calls: `==`,
-- `starts_with`, `ends_with`, `split`, `contains`, `find`, and number parsing.
use Prim.Native.Nat.{ℕ, suc}
use Prim.Native.Char.{code}
use Prim.Native.String.{String}
use mathlib.Core.Path.{◌≡◌, refl, ap, sym, ◌∙◌}
use mathlib.Core.Logic.{◌↔◌, ◌≢◌, inl, inr}
use mathlib.Core.Bool.{Bool, true, false, ◌&&◌}
use mathlib.Core.Option.{Option, none, some}
use mathlib.Core.List.{List, [], ◌∷◌, ◌++◌, reverse, reverse-reverse, reverse-append}
use native.Mathlib.Omega.{arith}
use ironbucket.Base.Tests.{==_iff, ◌==◌, if◌then◌else◌, Bool-cases}
use ironbucket.Base.Lists.{any, All, is_empty}

abbrev pub Text : Type 0
Text = List ℕ

-- The bytes of a literal, all of which are ASCII in the source.
abbrev pub codes : String → Text
codes String.[] = []
codes (String.◌∷◌ c s) = code c ∷ codes s

unfoldable pub text_eq : Text → Text → Bool
text_eq [] [] = true
text_eq [] (y ∷ ys) = false
text_eq (x ∷ xs) [] = false
text_eq (x ∷ xs) (y ∷ ys) = x == y && text_eq xs ys

pub text_eq→eq : (s t : Text) → text_eq s t ≡ true → s ≡ t
unfolding text_eq
text_eq→eq [] [] h = refl
text_eq→eq [] (y ∷ ys) h = cc
text_eq→eq (x ∷ xs) [] h = cc
text_eq→eq (x ∷ xs) (y ∷ ys) h = ground (arith, text_eq→eq xs ys)

pub text_eq_refl : (s : Text) → text_eq s s ≡ true
unfolding text_eq
text_eq_refl [] = refl
text_eq_refl (x ∷ xs) = ground (arith, text_eq_refl xs)

pub eq→text_eq : (s t : Text) → s ≡ t → text_eq s t ≡ true
eq→text_eq s t h = rw h (text_eq_refl t)

pub text_eq_iff : (s t : Text) → (text_eq s t ≡ true) ↔ (s ≡ t)
text_eq_iff s t = (text_eq→eq s t, eq→text_eq s t)

-- `s.strip_prefix(p)`.
unfoldable pub strip_prefix : Text → Text → Option Text
strip_prefix s [] = some s
strip_prefix [] (y ∷ ys) = none
strip_prefix (x ∷ xs) (y ∷ ys) = let rest = strip_prefix xs ys in if x == y then rest else none

abbrev pub is_some {ℓ} : {A : Type ℓ} → Option A → Bool
is_some none = false
is_some (some a) = true

unfoldable pub starts_with : Text → Text → Bool
starts_with s [] = true
starts_with [] (y ∷ ys) = false
starts_with (x ∷ xs) (y ∷ ys) = x == y && starts_with xs ys

unfoldable pub ends_with : Text → Text → Bool
unfolding starts_with
ends_with s p = starts_with (reverse s) (reverse p)

-- `s.find(p)`: the position of the first occurrence.
unfoldable pub find : Text → Text → Option ℕ
unfolding starts_with
find [] p = if is_empty p then some 0 else none
find (x ∷ xs) p =
    let rest = find xs p in
    if starts_with (x ∷ xs) p then some 0 else elim rest [ none ↦ none | some i ↦ some (suc i) ]

unfoldable pub contains : Text → Text → Bool
unfolding find
contains s p = is_some (find s p)

unfoldable pub cons_head : ℕ → List Text → List Text
cons_head x [] = (x ∷ []) ∷ []
cons_head x (w ∷ ws) = (x ∷ w) ∷ ws

-- `s.split(c)` at a single character.
unfoldable pub split : ℕ → Text → List Text
unfolding cons_head
split c [] = [] ∷ []
split c (x ∷ s) = let rest = split c s in if x == c then [] ∷ rest else cons_head x rest

-- A text in which the byte `c` does not occur.
abbrev pub Lacks : ℕ → Text → Type 0
Lacks c s = All (λ x. x ≢ c) s

-- Splitting gives back a piece that lacks the separator, and then the pieces of the rest.
pub split-piece : (c : ℕ) (w s : Text) → Lacks c w → split c (w ++ c ∷ s) ≡ w ∷ split c s
unfolding split
split-piece c [] s h = ground arith
split-piece c (x ∷ w) s h = rw (split-piece c w s h.1) (ground arith)

pub split_last : (c : ℕ) (w : Text) → Lacks c w → split c w ≡ w ∷ []
unfolding split
split_last c [] h = refl
split_last c (x ∷ w) h = rw (split_last c w h.1) (ground arith)

pub starts_with-append : (p s : Text) → starts_with (p ++ s) p ≡ true
unfolding starts_with
starts_with-append [] [] = refl
starts_with-append [] (x ∷ s) = refl
starts_with-append (x ∷ p) s = ground (arith, starts_with-append p s)

-- What starts with `p` is `p` followed by a rest.
pub starts_with_rest : (s p : Text) → starts_with s p ≡ true → (r : Text) × (s ≡ p ++ r)
unfolding starts_with
starts_with_rest [] [] h = ([], refl)
starts_with_rest (x ∷ s) [] h = (x ∷ s, refl)
starts_with_rest [] (y ∷ p) h = absurd (cc)
starts_with_rest (x ∷ s) (y ∷ p) h =
    let (r, e) = starts_with_rest s p (ground arith) in (r, ground arith)

pub ne→text_eq : (s t : Text) → s ≢ t → text_eq s t ≡ false
ne→text_eq s t h = split_test (text_eq s t) (text_eq→eq s t)
  where
    split_test : (b : Bool) → (b ≡ true → s ≡ t) → b ≡ false
    split_test true e = absurd (h (e refl))
    split_test false e = refl

-- What ends with `p` is a front followed by `p`.
pub ends_with_front : (s p : Text) → ends_with s p ≡ true → (r : Text) × (s ≡ r ++ p)
unfolding ends_with
ends_with_front s p h =
    let (r, e) = starts_with_rest (reverse s) (reverse p) h in
    (
      reverse r,
      sym (reverse-reverse s)
          ∙ ap reverse e
          ∙ reverse-append (reverse p) r
          ∙ ap (λ t. reverse r ++ t) (reverse-reverse p),
    )

pub ends_with-append : (s p : Text) → ends_with (s ++ p) p ≡ true
unfolding ends_with
ends_with-append s p = rw (reverse-append s p) (starts_with-append (reverse p) (reverse s))

-- The lines that `BufRead::read_line` returns one after another, each with its line feed.
unfoldable pub lines : Text → List Text
unfolding cons_head
lines [] = []
lines (c ∷ s) = let rest = lines s in if c == 10 then (c ∷ []) ∷ rest else cons_head c rest

-- Reading gives a line that ends in its only line feed, and then the lines of the rest.
pub lines_line : (w s : Text) → Lacks 10 w → lines (w ++ 10 ∷ s) ≡ (w ++ 10 ∷ []) ∷ lines s
unfolding lines
lines_line [] s h = refl
lines_line (x ∷ w) s h = rw (lines_line w s h.1) (ground arith)

-- `s.replace(c, t)` at a single character.
unfoldable pub replace_char : ℕ → Text → Text → Text
replace_char c t [] = []
replace_char c t (x ∷ s) = let rest = replace_char c t s in if x == c then t ++ rest else x ∷ rest

-- The pieces with the separator between them.
unfoldable pub join : ℕ → List Text → Text
join c [] = []
join c (w ∷ []) = w
join c (w ∷ v ∷ ws) = w ++ c ∷ join c (v ∷ ws)

-- Splitting gives back the pieces of a join, where none of them has the separator.
pub split-join :
    (c : ℕ) (w : Text) (ws : List Text)
    → All (Lacks c) (w ∷ ws)
    → split c (join c (w ∷ ws)) ≡ w ∷ ws
unfolding join
split-join c w [] h = split_last c w h.0
split-join c w (v ∷ ws) h = rw (split-piece c w (join c (v ∷ ws)) h.0, split-join c v ws h.1)

pub Lacks-append : (c : ℕ) (s t : Text) → Lacks c s → Lacks c t → Lacks c (s ++ t)
Lacks-append c [] t h k = k
Lacks-append c (x ∷ s) t h k = (h.0, Lacks-append c s t h.1 k)

pub Lacks-join : (c d : ℕ) (ws : List Text) → d ≢ c → All (Lacks c) ws → Lacks c (join d ws)
unfolding join
Lacks-join c d [] n h = tt
Lacks-join c d (w ∷ []) n h = h.0
Lacks-join c d (w ∷ v ∷ ws) n h =
    Lacks-append c w (d ∷ join d (v ∷ ws)) h.0 (n, Lacks-join c d (v ∷ ws) n h.1)

-- A replaced character is gone, if the replacement lacks it.
pub Lacks-replace_char : (c : ℕ) (t s : Text) → Lacks c t → Lacks c (replace_char c t s)
unfolding replace_char
Lacks-replace_char c t [] h = tt
Lacks-replace_char c t (x ∷ s) h = elim (Bool-cases (x == c)) [
  | inl e ↦ rw e (Lacks-append c t (replace_char c t s) h (Lacks-replace_char c t s h))
  | inr e ↦ rw e (ground arith, Lacks-replace_char c t s h)
]

-- What lacks another character still does, if the replacement lacks it too.
pub Lacks-replace_char_other :
    (c d : ℕ) (t s : Text) → Lacks d t → Lacks d s → Lacks d (replace_char c t s)
unfolding replace_char
Lacks-replace_char_other c d t [] h k = tt
Lacks-replace_char_other c d t (x ∷ s) h k = elim (Bool-cases (x == c)) [
  | inl e ↦ rw e (Lacks-append d t (replace_char c t s) h (Lacks-replace_char_other c d t s h k.1))
  | inr e ↦ rw e (k.0, Lacks-replace_char_other c d t s h k.1)
]

-- The test that a text lacks a character.
pub Lacks-test : (c : ℕ) (s : Text) → any (λ x. x == c) s ≡ false → Lacks c s
Lacks-test c [] h = tt
Lacks-test c (x ∷ s) h = elim (Bool-cases (x == c)) [
  | inl e ↦ let k = rw e at h in absurd (cc)
  | inr e ↦ (λ q. absurd (cc (e, (==_iff x c).1 q)), Lacks-test c s (rw e at h))
]

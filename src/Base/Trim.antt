-- ===== src/Base/Trim.antt =====
-- `str::trim` on the bytes of a text: the white space of Unicode at either end.
use Prim.Native.Nat.{ℕ, zero, suc, ◌≤◌, ◌<◌}
use mathlib.Core.Path.{◌≡◌, refl, ap, ◌∙◌, sym, subst}
use mathlib.Core.Bool.{Bool, true, ◌&&◌, ◌||◌}
use mathlib.Core.List.{
  List, [], ◌∷◌, ◌++◌, reverse, reverse-append, reverse-reverse, reverse-cons, append_assoc,
}
use native.Mathlib.Omega.{arith}
use ironbucket.Base.Tests.{leb, ◌==◌, if◌then◌else◌}
use ironbucket.Base.Lists.{length, drop, All, length-append, length-reverse}
use ironbucket.Base.Text.{Text}

unfoldable pub ascii_space : ℕ → Bool
ascii_space c = leb 9 c && leb c 13 || c == 32

-- U+0085 and U+00A0.
space_of_two : ℕ → ℕ → Bool
space_of_two a b = a == 0xc2 && (b == 0x85 || b == 0xa0)

-- U+1680, U+2000 to U+200A, U+2028, U+2029, U+202F, U+205F and U+3000.
space_of_three : ℕ → ℕ → ℕ → Bool
space_of_three a b c =
    a == 0xe1 && b == 0x9a && c == 0x80
    || a == 0xe2 && b == 0x80 && (leb 0x80 c && leb c 0x8a || c == 0xa8 || c == 0xa9 || c == 0xaf)
    || a == 0xe2 && b == 0x81 && c == 0x9f
    || a == 0xe3 && b == 0x80 && c == 0x80

-- The number of bytes of the white space character that a text begins with, or 0.
front_width : Text → ℕ
unfolding ascii_space space_of_two space_of_three
front_width [] = 0
front_width (a ∷ []) = if ascii_space a then 1 else 0
front_width (a ∷ b ∷ []) = if ascii_space a then 1 else if space_of_two a b then 2 else 0
front_width (a ∷ b ∷ c ∷ s) =
    if ascii_space a
    then 1
    else if space_of_two a b
    then 2
    else if space_of_three a b c
    then 3
    else 0

-- The same at the end of a text, given in reverse.
back_width : Text → ℕ
unfolding ascii_space space_of_two space_of_three
back_width [] = 0
back_width (a ∷ []) = if ascii_space a then 1 else 0
back_width (a ∷ b ∷ []) = if ascii_space a then 1 else if space_of_two b a then 2 else 0
back_width (a ∷ b ∷ c ∷ s) =
    if ascii_space a
    then 1
    else if space_of_two b a
    then 2
    else if space_of_three c b a
    then 3
    else 0

-- As many steps as the text has bytes are enough, since each drops one at least.
drop_spaces : ℕ → (Text → ℕ) → Text → Text
drop_spaces zero width s = s
drop_spaces (suc fuel) width s = elim (width s) [
  | zero ↦ s
  | suc n ↦ drop_spaces fuel width (drop (suc n) s)
]

unfoldable pub trim : Text → Text
unfolding drop_spaces front_width back_width
trim s =
    let front = drop_spaces (length s) front_width s in
    reverse (drop_spaces (length front) back_width (reverse front))

-- A printable character of ASCII.
abbrev pub IsPlain : ℕ → Type 0
IsPlain c = (33 ≤ c) × (c < 127)

front_plain : (c : ℕ) (s : Text) → IsPlain c → front_width (c ∷ s) ≡ 0
unfolding front_width
front_plain c [] h = ground arith
front_plain c (a ∷ []) h = ground arith
front_plain c (a ∷ b ∷ s) h = ground arith

back_plain : (c : ℕ) (s : Text) → IsPlain c → back_width (c ∷ s) ≡ 0
unfolding back_width
back_plain c [] h = ground arith
back_plain c (a ∷ []) h = ground arith
back_plain c (a ∷ b ∷ s) h = ground arith

back_space : (c : ℕ) (s : Text) → ascii_space c ≡ true → back_width (c ∷ s) ≡ 1
unfolding back_width
back_space c [] h = ground arith
back_space c (a ∷ []) h = ground arith
back_space c (a ∷ b ∷ s) h = ground arith

drop_none : (fuel : ℕ) (width : Text → ℕ) (s : Text) → width s ≡ 0 → drop_spaces fuel width s ≡ s
unfolding drop_spaces
drop_none zero width s h = refl
drop_none (suc fuel) width s h = rw (h, drop_spaces)

abbrev pub Spaces : Text → Type 0
Spaces s = All (λ c. ascii_space c ≡ true) s

drop_back :
    (fuel : ℕ) (spaces r : Text)
    → Spaces spaces
    → back_width r ≡ 0
    → length spaces ≤ fuel
    → drop_spaces fuel back_width (spaces ++ r) ≡ r
unfolding drop_spaces
drop_back fuel [] r h e l = drop_none fuel back_width r e
drop_back zero (c ∷ spaces) r h e l = absurd (omega arith)
drop_back (suc fuel) (c ∷ spaces) r h e l =
    rw (back_space c (spaces ++ r) h.0, drop_spaces) (drop_back fuel spaces r h.1 e (omega arith))

trim_back :
    (s spaces r : Text)
    → reverse s ≡ spaces ++ r
    → Spaces spaces
    → back_width r ≡ 0
    → reverse (drop_spaces (length s) back_width (reverse s)) ≡ reverse r
trim_back s spaces r e h z =
    let l : length spaces ≤ length s =
      omega (arith, length-reverse s, ap length e, length-append spaces r) in
    rw e (ap reverse (drop_back (length s) spaces r h z l))

-- Trimming takes the white space off the end of a text that begins with a printable character,
-- back to the last printable character; the spaces are given in reverse.
pub trim_line :
    (c d : ℕ) (s spaces : Text)
    → IsPlain c
    → IsPlain d
    → Spaces spaces
    → trim (c ∷ s ++ d ∷ reverse spaces) ≡ c ∷ s ++ d ∷ []
unfolding trim
trim_line c d s spaces hc hd h =
    rw
      (drop_none (length (c ∷ s ++ d ∷ reverse spaces)) front_width (c ∷ s ++ d ∷ reverse spaces)
        (front_plain c (s ++ d ∷ reverse spaces) hc))
      (trim_back (c ∷ s ++ d ∷ reverse spaces) spaces (d ∷ reverse (c ∷ s)) backwards h
          (back_plain d (reverse (c ∷ s)) hd)
        ∙ reverse-cons d (reverse (c ∷ s))
        ∙ ap (λ t. t ++ d ∷ []) (reverse-reverse (c ∷ s)))
  where
    backwards : reverse (c ∷ s ++ d ∷ reverse spaces) ≡ spaces ++ d ∷ reverse (c ∷ s)
    backwards =
        reverse-append (c ∷ s) (d ∷ reverse spaces)
        ∙ ap (λ t. t ++ reverse (c ∷ s))
            (reverse-cons d (reverse spaces) ∙ ap (λ t. t ++ d ∷ []) (reverse-reverse spaces))
        ∙ append_assoc spaces (d ∷ []) (reverse (c ∷ s))

All-snoc :
    {A : Type 0} (P : A → Type 0) (xs : List A) (x : A) → All P xs → P x → All P (xs ++ x ∷ [])
All-snoc P [] x h k = (k, tt)
All-snoc P (y ∷ ys) x (h, t) k = (h, All-snoc P ys x t k)

All-reverse : {A : Type 0} (P : A → Type 0) (xs : List A) → All P xs → All P (reverse xs)
All-reverse P [] h = tt
All-reverse P (x ∷ xs) (h, t) =
    subst (All P) (sym (reverse-cons x xs)) (All-snoc P (reverse xs) x (All-reverse P xs t) h)

back_plains : (s : Text) → All IsPlain s → back_width s ≡ 0
unfolding back_width
back_plains [] h = refl
back_plains (c ∷ s) (h, t) = back_plain c s h

-- Trimming keeps a text of printable characters.
pub trim_plain : (s : Text) → All IsPlain s → trim s ≡ s
unfolding trim drop_spaces
trim_plain [] h = refl
trim_plain (c ∷ s) (h, t) =
    rw (drop_none (length (c ∷ s)) front_width (c ∷ s) (front_plain c s h)) (
      trim_back (c ∷ s) [] (reverse (c ∷ s)) refl tt
        (back_plains (reverse (c ∷ s)) (All-reverse IsPlain (c ∷ s) (h, t)))
      ∙ reverse-reverse (c ∷ s))

-- ===== src/Base/Number.antt =====
-- Decimal numbers in text: `str::parse` at an unsigned type, `format!("{}", n)`, and their round
-- trip.
use Prim.Native.Nat.{ℕ, zero, suc, ◌+◌, ◌-◌, ◌*◌, ◌/◌, ◌%◌, ◌≤◌, ◌<◌}
use mathlib.Core.Path.{◌≡◌, refl}
use mathlib.Core.Logic.{◌≢◌, inl, inr}
use mathlib.Core.Bool.{Bool, ◌&&◌}
use mathlib.Core.Option.{Option, none, some}
use mathlib.Core.List.{[], ◌∷◌, ◌++◌}
use native.Mathlib.Omega.{arith}
use ironbucket.Base.Tests.{leb, ltb, ◌==◌, if◌then◌else◌, Bool-cases, ltb→lt}
use ironbucket.Base.Lists.{All}
use ironbucket.Base.Text.{Text, Lacks}

abbrev pub is_digit : ℕ → Bool
is_digit c = leb b'0' c && leb c b'9'

-- The value of the digits `s` after digits of value `acc`.
value_from : ℕ → Text → Option ℕ
value_from acc [] = some acc
value_from acc (c ∷ s) =
    let rest = value_from (acc * 10 + (c - b'0')) s in if is_digit c then rest else none

within : ℕ → Option ℕ → Option ℕ
within bound none = none
within bound (some n) = if leb n bound then some n else none

unfoldable pub parse_digits : ℕ → Text → Option ℕ
unfolding value_from within
parse_digits bound [] = none
parse_digits bound (c ∷ s) = within bound (value_from 0 (c ∷ s))

-- `s.parse()` at an unsigned type whose largest value is `bound`: an optional `+`, then digits.
unfoldable pub parse_uint : ℕ → Text → Option ℕ
unfolding parse_digits
parse_uint bound [] = none
parse_uint bound (c ∷ s) = if c == b'+' then parse_digits bound s else parse_digits bound (c ∷ s)

pub parse_digits-le : (bound : ℕ) (s : Text) (n : ℕ) → parse_digits bound s ≡ some n → n ≤ bound
unfolding parse_digits
parse_digits-le bound [] n h = cc
parse_digits-le bound (c ∷ s) n h = within-le (value_from 0 (c ∷ s)) h
  where
    within-le : (o : Option ℕ) → within bound o ≡ some n → n ≤ bound
    within-le none e = cc
    within-le (some m) e = ground arith

abbrev pub u8_max : ℕ
u8_max = 255

abbrev pub u32_max : ℕ
u32_max = 4294967295

abbrev pub u64_max : ℕ
u64_max = 18446744073709551615

show_fuel : ℕ → ℕ → Text
show_fuel zero n = []
show_fuel (suc f) n =
    let rest = show_fuel f (n / 10) in
    if ltb n 10 then (n + b'0') ∷ [] else rest ++ (n % 10 + b'0') ∷ []

-- `format!("{}", n)`: a number has at most as many digits as its value and one.
unfoldable pub show : ℕ → Text
unfolding show_fuel
show n = show_fuel (suc n) n

abbrev pub Digits : Text → Type 0
Digits s = All (λ c. (b'0' ≤ c) × (c ≤ b'9')) s

Digits-append : (s t : Text) → Digits s → Digits t → Digits (s ++ t)
Digits-append [] t h k = k
Digits-append (c ∷ s) t h k = (h.0, Digits-append s t h.1 k)

show_fuel-Digits : (f n : ℕ) → Digits (show_fuel f n)
unfolding show_fuel
show_fuel-Digits zero n = tt
show_fuel-Digits (suc f) n = elim (Bool-cases (ltb n 10)) [
  | inl small ↦ rw small (omega (arith, ltb→lt))
  | inr large ↦
      rw large (Digits-append (show_fuel f (n / 10)) _ (show_fuel-Digits f (n / 10)) (omega arith))
]

pub show-Digits : (n : ℕ) → Digits (show n)
unfolding show
show-Digits n = show_fuel-Digits (suc n) n

pub Digits-Lacks : (c : ℕ) (s : Text) → c < b'0' → Digits s → Lacks c s
Digits-Lacks c [] h d = tt
Digits-Lacks c (x ∷ s) h d = (omega arith, Digits-Lacks c s h d.1)

value_from-append :
    (acc n : ℕ) (s t : Text) → value_from acc s ≡ some n → value_from acc (s ++ t) ≡ value_from n t
unfolding value_from
value_from-append acc n [] t h = ground arith
value_from-append acc n (c ∷ s) t h = elim (Bool-cases (is_digit c)) [
  | inl d ↦ rw d (value_from-append (acc * 10 + (c - b'0')) n s t (rw d at h))
  | inr d ↦ absurd (ground arith)
]

value-show_fuel : (f n : ℕ) → n < f → value_from 0 (show_fuel f n) ≡ some n
unfolding show_fuel value_from
value-show_fuel zero n h = absurd (omega arith)
value-show_fuel (suc f) n h = elim (Bool-cases (ltb n 10)) [
  | inl small ↦ rw small (ground arith)
  | inr large ↦ rw large (
      rw
        (value_from-append 0 (n / 10) (show_fuel f (n / 10)) _
          (value-show_fuel f (n / 10) (ground arith)))
        (ground arith))
]

append-ne-nil : (s : Text) (c : ℕ) → s ++ c ∷ [] ≢ []
append-ne-nil [] c = cc
append-ne-nil (x ∷ s) c = cc

show_fuel-ne-nil : (f n : ℕ) → show_fuel (suc f) n ≢ []
unfolding show_fuel
show_fuel-ne-nil f n = ground (arith, append-ne-nil (show_fuel f (n / 10)) (n % 10 + b'0'))

pub show-ne-nil : (n : ℕ) → show n ≢ []
unfolding show
show-ne-nil n = show_fuel-ne-nil n n

parse_read :
    (bound n : ℕ) (s : Text)
    → s ≢ []
    → Digits s
    → value_from 0 s ≡ some n
    → n ≤ bound
    → parse_uint bound s ≡ some n
unfolding parse_uint
parse_read bound n [] p d e h = absurd (p refl)
parse_read bound n (c ∷ s) p d e h = ground arith

-- Reading a printed number gives it back, where it fits the type.
pub parse_uint-show : (bound n : ℕ) → n ≤ bound → parse_uint bound (show n) ≡ some n
unfolding show
parse_uint-show bound n h =
    parse_read bound n (show_fuel (suc n) n) (show_fuel-ne-nil n n) (show_fuel-Digits (suc n) n)
      (value-show_fuel (suc n) n (omega arith)) h

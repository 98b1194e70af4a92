-- ===== src/Policy/Network.antt =====
-- The CIDR mask: comparing masked addresses compares their leading bits.
use mathlib.Core.Path.{◌≡◌, refl, ap, sym, ◌∙◌}
use native.Mathlib.Nat.{pow-suc, one-le-pow, div-div-eq-div-mul, mul_comm, div-one, mul-div_left}
use ironbucket.Base.{ℕ, zero, suc, ◌+◌, ◌-◌, ◌*◌, ◌/◌, ◌%◌, ◌^◌, ◌≤◌, ◌<◌, true, ◌↔◌, arith, ==_iff}
use ironbucket.Policy.Address.{bit_and, mask, in_network}

two_pow_pos : (k : ℕ) → 1 ≤ 2 ^ k
two_pow_pos k = one-le-pow k 2 (omega arith)

-- All ones on `w` bits is the identity.
bit_and_ones : (w a : ℕ) → a < 2 ^ w → bit_and w a (2 ^ w - 1) ≡ a
unfolding bit_and
bit_and_ones zero a h = omega arith
bit_and_ones (suc w) a h =
    let p = pow-suc 2 w in
    let one = two_pow_pos w in
    let half : (2 ^ suc w - 1) / 2 ≡ 2 ^ w - 1 = omega arith in
    let odd : (2 ^ suc w - 1) % 2 ≡ 1 = omega arith in
    rw (half, odd) (omega (arith, bit_and_ones w (a / 2) (omega arith)))

doubled : (x p r : ℕ) → x * p * 2 + r * 0 ≡ x * (p * 2)
doubled x p r = omega arith

cancel : (x y p : ℕ) → 1 ≤ p → x * p ≡ y * p → x ≡ y
cancel x y p h e = sym (mul-div_left x h) ∙ ap (λ t. t / p) e ∙ mul-div_left y h

-- Ones above the `k` lowest bits clear those: `k` steps, then `w` bits of ones.
bit_and_high :
    (w k n a : ℕ) → n ≡ k + w → a < 2 ^ n → bit_and n a (2 ^ n - 2 ^ k) ≡ a / 2 ^ k * 2 ^ k
unfolding bit_and
bit_and_high w zero n a e h = rw (div-one a) (omega (arith, bit_and_ones n a h, pow-suc 2 0))
bit_and_high w (suc k) zero a e h = absurd (omega arith)
bit_and_high w (suc k) (suc n) a e h =
    let p = pow-suc 2 n in
    let q = pow-suc 2 k in
    let half : (2 ^ suc n - 2 ^ suc k) / 2 ≡ 2 ^ n - 2 ^ k = omega arith in
    let even : (2 ^ suc n - 2 ^ suc k) % 2 ≡ 0 = omega arith in
    let ih : bit_and n (a / 2) (2 ^ n - 2 ^ k) ≡ a / 2 / 2 ^ k * 2 ^ k =
      bit_and_high w k n (a / 2) (omega arith) (omega arith) in
    let d : a / 2 / 2 ^ k ≡ a / 2 ^ suc k =
      div-div-eq-div-mul a 2 (2 ^ k) ∙ ap (λ x. a / x) (mul_comm 2 (2 ^ k) ∙ sym q) in
    rw (half, even, ih, d)
      (doubled (a / 2 ^ suc k) (2 ^ k) (a % 2) ∙ ap (λ x. a / 2 ^ suc k * x) (sym q))

mask_lem : (prefix_len : ℕ) → mask prefix_len ≡ 2 ^ 32 - 2 ^ (32 - prefix_len)
unfolding mask
mask_lem zero = refl
mask_lem (suc l) = ground (arith, two_pow_pos (32 - suc l))

masked : (a l : ℕ) → l ≤ 32 → a < 2 ^ 32 → bit_and 32 a (mask l) ≡ a / 2 ^ (32 - l) * 2 ^ (32 - l)
masked a l h b = rw (mask_lem l) (bit_and_high l (32 - l) 32 a (omega arith) b)

-- For addresses of 32 bits and a prefix length of at most 32, the comparison of the masked
-- addresses is true exactly when the leading `prefix_len` bits are the same.
pub in_network_iff :
    (client network prefix_len : ℕ)
    → prefix_len ≤ 32
    → client < 2 ^ 32
    → network < 2 ^ 32
    → (in_network client network prefix_len ≡ true)
      ↔ (client / 2 ^ (32 - prefix_len) ≡ network / 2 ^ (32 - prefix_len))
unfolding in_network
in_network_iff c n l h hc hn = (
  λ t.
      cancel _ _ _ (two_pow_pos (32 - l))
        (sym (masked c l h hc) ∙ (==_iff _ _).0 t ∙ masked n l h hn),
  λ e. (==_iff _ _).1 (masked c l h hc ∙ ap (λ x. x * 2 ^ (32 - l)) e ∙ sym (masked n l h hn)),
)

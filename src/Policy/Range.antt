-- ===== src/Policy/Range.antt =====
-- Text of addresses and ranges: what `is_ip_in_range` decides for each form of its two texts.
use ironbucket.Base.{
  ℕ, ◌-◌, ◌/◌, ◌^◌, ◌≤◌, ◌<◌, ◌≡◌, refl, inl, inr, ◌↔◌, true, Option, none, some, List, [], ◌∷◌,
  ◌++◌, arith, ◌>>=◌, Option-cases,
}
use ironbucket.Base.Text.{Text, Lacks, split}
use ironbucket.Base.Number.{u8_max, parse_digits-le}
use ironbucket.Policy.Address.{
  octet, from_be_bytes, from_parts, parse_ipv4, split_slash, parse_prefix_len, in_cidr,
  is_ip_in_range,
}
use ironbucket.Policy.Network.{in_network_iff}

split_slash_lem : (a b : Text) → Lacks b'/' a → split_slash (a ++ b'/' ∷ b) ≡ some (a, b)
unfolding split_slash
split_slash_lem [] b h = refl
split_slash_lem (c ∷ a) b h = rw (split_slash_lem a b h.1) (ground arith)

split_slash-none : (a : Text) → Lacks b'/' a → split_slash a ≡ none
unfolding split_slash
split_slash-none [] h = refl
split_slash-none (c ∷ a) h = rw (split_slash-none a h.1) (ground arith)

octet-le : (s : Text) (n : ℕ) → octet s ≡ some n → n ≤ 255
unfolding octet
octet-le s n h = ground (arith, parse_digits-le u8_max s n)

from_be_bytes-lt :
    (a b c d : ℕ) → a ≤ 255 → b ≤ 255 → c ≤ 255 → d ≤ 255 → from_be_bytes a b c d < 2 ^ 32
unfolding from_be_bytes
from_be_bytes-lt a b c d ha hb hc hd = omega arith

from_parts-lt : (ps : List Text) (n : ℕ) → from_parts ps ≡ some n → n < 2 ^ 32
unfolding from_parts
from_parts-lt (p ∷ q ∷ r ∷ s ∷ []) n h =
    all_parts (octet p) (octet q) (octet r) (octet s) refl refl refl refl h
  where
    all_parts :
        (a b c d : Option ℕ)
        → octet p ≡ a
        → octet q ≡ b
        → octet r ≡ c
        → octet s ≡ d
        → (a >>= λ w. b >>= λ x. c >>= λ y. d >>= λ z. some (from_be_bytes w x y z)) ≡ some n
        → n < 2 ^ 32
    all_parts (some w) (some x) (some y) (some z) ea eb ec ed e =
        let sum : from_be_bytes w x y z ≡ n = cc e in
        rw (← sum) (
          from_be_bytes-lt w x y z (octet-le p w ea) (octet-le q x eb) (octet-le r y ec)
            (octet-le s z ed))
    all_parts none b c d ea eb ec ed e = cc
    all_parts (some w) none c d ea eb ec ed e = cc
    all_parts (some w) (some x) none d ea eb ec ed e = cc
    all_parts (some w) (some x) (some y) none ea eb ec ed e = cc
from_parts-lt _ n h = cc

-- A parsed address fits in 32 bits.
pub parse_ipv4-lt : (s : Text) (n : ℕ) → parse_ipv4 s ≡ some n → n < 2 ^ 32
unfolding parse_ipv4
parse_ipv4-lt s n h = from_parts-lt (split b'.' s) n h

prefix_len-le : (s : Text) (n : ℕ) → parse_prefix_len s ≡ some n → n ≤ 32
unfolding parse_prefix_len
prefix_len-le s n h = ground arith

-- The range `network/prefix` as the numbers that it stands for.
pub record InRange (client : ℕ) (network prefix : Text) : Type 0 where
  pub address : ℕ
  pub bits : ℕ
  pub address_read : parse_ipv4 network ≡ some address
  pub bits_read : parse_prefix_len prefix ≡ some bits
  pub same_network : client / 2 ^ (32 - bits) ≡ address / 2 ^ (32 - bits)

in_cidr→InRange :
    (client : ℕ) (network prefix : Text)
    → client < 2 ^ 32
    → in_cidr client network prefix ≡ true
    → InRange client network prefix
unfolding in_cidr
in_cidr→InRange client network prefix lt h = elim (Option-cases (parse_prefix_len prefix)) [
  | inl e ↦ absurd (cc (rw (e, in_cidr) at h))
  | inr (len, e) ↦ elim (Option-cases (parse_ipv4 network)) [
    | inl f ↦ absurd (cc (rw (e, f, in_cidr) at h))
    | inr (addr, f) ↦ record {
      address = addr;
      bits = len;
      address_read = f;
      bits_read = e;
      same_network =
          (in_network_iff client addr len (prefix_len-le prefix len e) lt
              (parse_ipv4-lt network addr f)).0
            (rw (e, f, in_cidr) at h);
    }
  ]
]

InRange→in_cidr :
    (client : ℕ) (network prefix : Text)
    → client < 2 ^ 32
    → InRange client network prefix
    → in_cidr client network prefix ≡ true
unfolding in_cidr
InRange→in_cidr client network prefix lt r =
    rw (r.bits_read, r.address_read, in_cidr)
      ((in_network_iff client r.address r.bits (prefix_len-le prefix r.bits r.bits_read) lt
          (parse_ipv4-lt network r.address r.address_read)).1
        r.same_network)

-- For a client address that parses and a range written `network/prefix`, the test is true exactly
-- when the network parses, the prefix is a length of at most 32, and the leading `prefix` bits of
-- the two addresses are the same.
pub is_ip_in_range-cidr :
    (ip network prefix : Text) (client : ℕ)
    → parse_ipv4 ip ≡ some client
    → Lacks b'/' network
    → (is_ip_in_range ip (network ++ b'/' ∷ prefix) ≡ true) ↔ InRange client network prefix
unfolding is_ip_in_range
is_ip_in_range-cidr ip network prefix client e l =
    rw (e, split_slash_lem network prefix l, is_ip_in_range)
      (
        in_cidr→InRange client network prefix (parse_ipv4-lt ip client e),
        InRange→in_cidr client network prefix (parse_ipv4-lt ip client e),
      )

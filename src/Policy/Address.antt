-- ===== src/Policy/Address.antt =====
-- `is_ip_in_range` of src/policy_check.rs: an IPv4 address against a CIDR range or one address.
use ironbucket.Base.{
  ℕ, zero, suc, ◌+◌, ◌-◌, ◌*◌, ◌/◌, ◌%◌, ◌^◌, Bool, false, not, ◌&&◌, Option, none, some, List, [],
  ◌∷◌, leb, ◌==◌, if◌then◌else◌, length, ◌>>=◌,
}
use ironbucket.Base.Text.{Text, split}
use ironbucket.Base.Number.{parse_uint, parse_digits, u8_max}

unfoldable pub leading_zero : Text → Bool
leading_zero [] = false
leading_zero (c ∷ []) = false
leading_zero (c ∷ d ∷ s) = c == b'0'

-- One number of a dotted address: at most three digits, no leading zero, at most 255.
unfoldable pub octet : Text → Option ℕ
unfolding leading_zero parse_digits
octet s = if leb (length s) 3 && not (leading_zero s) then parse_digits u8_max s else none

-- `u32::from_be_bytes`
unfoldable pub from_be_bytes : ℕ → ℕ → ℕ → ℕ → ℕ
from_be_bytes a b c d = ((a * 256 + b) * 256 + c) * 256 + d

unfoldable pub from_parts : List Text → Option ℕ
unfolding octet from_be_bytes
from_parts (p ∷ q ∷ r ∷ s ∷ []) = do
  a ← octet p
  b ← octet q
  c ← octet r
  d ← octet s
  some (from_be_bytes a b c d)
from_parts _ = none

-- `s.parse::<Ipv4Addr>()`, as the number that `u32::from_be_bytes` makes of its octets.
unfoldable pub parse_ipv4 : Text → Option ℕ
unfolding from_parts split
parse_ipv4 s = from_parts (split b'.' s)

-- `range.find('/')` with the two sides of the first slash.
unfoldable pub split_slash : Text → Option (Text × Text)
split_slash [] = none
split_slash (c ∷ s) =
    let rest = split_slash s in
    if c == b'/' then some ([], s) else elim rest [ none ↦ none | some (a, b) ↦ some (c ∷ a, b) ]

-- `a & b` on words of `w` bits, by binary digits.
unfoldable pub bit_and : ℕ → ℕ → ℕ → ℕ
bit_and zero a b = 0
bit_and (suc w) a b = bit_and w (a / 2) (b / 2) * 2 + (a % 2) * (b % 2)

-- `if prefix_len == 0 { 0 } else { !((1u32 << (32 - prefix_len)) - 1) }`
unfoldable pub mask : ℕ → ℕ
mask prefix_len = if prefix_len == 0 then 0 else 2 ^ 32 - 1 - (2 ^ (32 - prefix_len) - 1)

-- The parse of the prefix length, with its guard `len <= 32`.
unfoldable pub parse_prefix_len : Text → Option ℕ
unfolding parse_uint
parse_prefix_len s = elim (parse_uint u8_max s) [
  | none ↦ none
  | some len ↦ if leb len 32 then some len else none
]

unfoldable pub in_network : ℕ → ℕ → ℕ → Bool
unfolding bit_and mask
in_network client network prefix_len =
    bit_and 32 client (mask prefix_len) == bit_and 32 network (mask prefix_len)

unfoldable pub in_cidr : ℕ → Text → Text → Bool
unfolding parse_prefix_len parse_ipv4
in_cidr client network_str prefix_str = elim (parse_prefix_len prefix_str) [
  | none ↦ false
  | some len ↦ elim (parse_ipv4 network_str) [
    | none ↦ false
    | some network ↦ in_network client network len
  ]
]

unfoldable pub same_address : ℕ → Text → Bool
unfolding parse_ipv4
same_address client range = elim (parse_ipv4 range) [
  | none ↦ false
  | some allowed ↦ client == allowed
]

-- An address that is not IPv4 (an IPv6 one parses, and is refused too) is in no range.
unfoldable pub is_ip_in_range : Text → Text → Bool
unfolding parse_ipv4 split_slash in_cidr same_address
is_ip_in_range ip range = elim (parse_ipv4 ip) [
  | none ↦ false
  | some client ↦ elim (split_slash range) [
    | none ↦ same_address client range
    | some (network, prefix) ↦ in_cidr client network prefix
  ]
]

-- ===== src/Chunked.antt =====
-- src/utils.rs and src/handlers/object.rs: the two decoders of the chunked transfer encoding with
-- signatures.
pub mod Decode
mod Tests
use ironbucket.Base.{
  ℕ, zero, suc, ◌+◌, ◌*◌, ◌-◌, ◌%◌, ◌^◌, ◌≤◌, Bool, true, false, ◌&&◌, ◌||◌, Option, none, some,
  List, [], ◌∷◌, ◌++◌, length, take, drop, is_empty, leb, ltb, ◌==◌, if◌then◌else◌,
}
use ironbucket.Base.Text.{Text, text_eq, starts_with, find}
use ironbucket.Base.Number.{u64_max}
use ironbucket.Base.Trim.{trim}

-- `b"\r\n"`
abbrev pub crlf : Text
crlf = 13 ∷ 10 ∷ []

-- `find_sequence`, for a needle that is not empty: the position of its first occurrence.
unfoldable pub find_sequence : Text → Text → Option ℕ
unfolding find
find_sequence haystack needle = find haystack needle

-- The value of a hexadecimal digit.
hex_digit : ℕ → Option ℕ
hex_digit c =
    if leb b'0' c && leb c b'9'
    then some (c - b'0')
    else if leb b'a' c && leb c b'f'
    then some (c - b'a' + 10)
    else if leb b'A' c && leb c b'F'
    then some (c - b'A' + 10)
    else none

hex_from : ℕ → Text → Option ℕ
unfolding hex_digit
hex_from acc [] = if leb acc u64_max then some acc else none
hex_from acc (c ∷ s) = elim (hex_digit c) [ none ↦ none | some d ↦ hex_from (acc * 16 + d) s ]

hex_digits : Text → Option ℕ
unfolding hex_from
hex_digits [] = none
hex_digits (c ∷ s) = hex_from 0 (c ∷ s)

-- `usize::from_str_radix(s, 16)`: an optional `+`, then digits.
from_str_radix : Text → Option ℕ
unfolding hex_digits
from_str_radix [] = none
from_str_radix (c ∷ s) = if c == b'+' then hex_digits s else hex_digits (c ∷ s)

-- The size in a chunk's header: what stands before a semicolon, if there is one.
unfoldable pub chunk_size : Text → Option ℕ
unfolding from_str_radix trim find
chunk_size header = elim (find header (b';' ∷ [])) [
  | none ↦ from_str_radix (trim header)
  | some semi_pos ↦ from_str_radix (trim (take semi_pos header))
]

-- The line break behind a chunk may be missing.
unfoldable pub skip_crlf : Text → Text
unfolding starts_with
skip_crlf input = if starts_with input crlf then drop 2 input else input

-- What a chunk's data are put in front of; none for a panic.
unfoldable pub prefixed : Text → Option Text → Option Text
prefixed front none = none
prefixed front (some rest) = some (front ++ rest)

-- The loop on what is left of an input of a length. Every turn passes two bytes at least. The sum of
-- the position and the size wraps; where it is smaller than the position then, the slice panics.
unfoldable pub decode : ℕ → ℕ → Text → Option Text
unfolding find_sequence skip_crlf prefixed
decode zero total input = some []
decode (suc fuel) total input = elim (find_sequence input crlf) [
  | none ↦ some []
  | some i ↦ elim (chunk_size (take i input)) [
    | none ↦ some []
    | some size ↦
        let behind = drop (i + 2) input in
        let pos = total - length behind in
        let end = (pos + size) % 2 ^ 64 in
        if size == 0
        then some []
        else if leb end total
        then if ltb end pos
          then none
          else prefixed (take size behind) (decode fuel total (skip_crlf (drop size behind)))
        else some []
  ]
]

-- The input itself, if no chunk was decoded.
unfoldable pub parse_chunked_data : Text → Option Text
unfolding decode
parse_chunked_data input = elim (decode (length input) (length input) input) [
  | none ↦ none
  | some result ↦ some (if is_empty result then input else result)
]

-- The decoder of src/handlers/object.rs, the one that uploads go through: the same loop, and the
-- result whatever it is.
unfoldable pub object_parse_chunked_data : Text → Option Text
unfolding decode
object_parse_chunked_data input = decode (length input) (length input) input

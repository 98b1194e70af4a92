-- ===== src/Listing.antt =====
-- `list_objects_impl` of src/handlers/bucket.rs: the page of a listing, the token for the next one
-- and the common prefixes.
pub mod Pages
pub mod Scan
mod Tests
use ironbucket.Base.{
  ℕ, zero, suc, ◌+◌, ◌-◌, ◌%◌, ◌^◌, ◌≤◌, min, Bool, true, false, not, ◌&&◌, ◌||◌, Option, none,
  some, List, [], ◌∷◌, ◌++◌, length, take, drop, any, is_empty, ltb, leb, if◌then◌else◌,
}
use ironbucket.Base.Text.{Text, codes, text_eq, starts_with, ends_with, replace_char, find}
use ironbucket.Disk.{Node, file, dir, Entries, nil, entry}

-- `a > b` on texts: lexicographic by bytes.
unfoldable pub text_gt : Text → Text → Bool
text_gt [] b = false
text_gt (x ∷ a) [] = true
text_gt (x ∷ a) (y ∷ b) =
    let rest = text_gt a b in if ltb y x then true else if ltb x y then false else rest

-- The part of `ObjectData` that a listing shows.
pub record Object : Type 0 where
  pub key : Text
  pub size : ℕ

-- The path of an entry below the bucket.
unfoldable pub relative_path : Text → Text → Text
relative_path [] name = name
relative_path (c ∷ path) name = (c ∷ path) ++ b'/' ∷ name

-- Backslashes become slashes.
unfoldable pub key_of : Text → Text → Text
unfolding relative_path replace_char
key_of path name = replace_char b'\\' (b'/' ∷ []) (relative_path path name)

-- The tests that an entry passes: neither metadata nor hidden, and its key starts with the prefix.
unfoldable pub shown : Text → Text → Text → Bool
unfolding text_eq starts_with ends_with relative_path key_of
shown target_prefix path name =
    not (ends_with name (codes ".metadata"))
    && (not (starts_with name (codes ".")) || text_eq name (codes ".bucket_metadata"))
    && not (text_eq (relative_path path name) (codes ".bucket_metadata"))
    && starts_with (key_of path name) target_prefix

-- `scan_directory`, in the order of the tree: a directory that does not pass is not entered.
unfoldable mutual
  unfolding shown key_of relative_path

  pub scan_entry : Text → Text → Text → Node → List Object
  scan_entry target_prefix path name (file contents) =
      if shown target_prefix path name
      then record { key = key_of path name; size = length contents } ∷ []
      else []
  scan_entry target_prefix path name (dir es) =
      let sub_results = scan_directory target_prefix (relative_path path name) es in
      if shown target_prefix path name then sub_results else []

  pub scan_directory : Text → Text → Entries → List Object
  scan_directory target_prefix path nil = []
  scan_directory target_prefix path (entry name node rest) =
      scan_entry target_prefix path name node ++ scan_directory target_prefix path rest

-- `sort_by_key` on the key: a stable insertion sort stands for it.
unfoldable pub insert_sorted : Object → List Object → List Object
unfolding text_gt
insert_sorted o [] = o ∷ []
insert_sorted o (p ∷ ps) =
    let later = insert_sorted o ps in if text_gt o.key p.key then p ∷ later else o ∷ p ∷ ps

unfoldable pub sort_by_key : List Object → List Object
unfolding insert_sorted
sort_by_key [] = []
sort_by_key (o ∷ os) = insert_sorted o (sort_by_key os)

-- `iter().position(|(key, _)| key > start_after).unwrap_or(len)`
unfoldable pub position_after : Text → List Object → ℕ
unfolding text_gt
position_after token [] = 0
position_after token (o ∷ os) =
    let rest = position_after token os in if text_gt o.key token then 0 else suc rest

unfoldable pub start_index : Option Text → List Object → ℕ
unfolding position_after
start_index none os = 0
start_index (some token) os = if is_empty token then 0 else position_after token os

unfoldable pub last_key : List Object → Option Text
last_key [] = none
last_key (o ∷ []) = some o.key
last_key (o ∷ p ∷ os) = last_key (p ∷ os)

pub record Page : Type 0 where
  pub objects : List Object
  pub is_truncated : Bool
  pub next_token : Option Text

-- The page from one index to another.
unfoldable pub page_between : List Object → ℕ → ℕ → Page
unfolding last_key
page_between all_objects start end =
    let page = take (end - start) (drop start all_objects) in
    let truncated = ltb end (length all_objects) in
    record {
      objects = page;
      is_truncated = truncated;
      next_token = if truncated then last_key page else none;
    }

-- The page of the sorted objects behind the token; none for the panic of the slice, where the sum
-- wraps.
unfoldable pub page_of : List Object → Option Text → ℕ → Option Page
unfolding start_index page_between
page_of all_objects token max_keys =
    let start = start_index token all_objects in
    let end = min ((start + max_keys) % 2 ^ 64) (length all_objects) in
    if ltb end start then none else some (page_between all_objects start end)

-- `key[prefix.len()..].find(delim)`, and the key up to the delimiter.
unfoldable pub common_prefix : Text → Text → Text → Option Text
unfolding find
common_prefix prefix delim key = elim (find (drop (length prefix) key) delim) [
  | none ↦ none
  | some i ↦ some (take (length prefix + i) key ++ delim)
]

-- The set of prefixes seen keeps each once.
unfoldable pub collect_prefixes : Text → Text → List Text → List Object → List Text
unfolding common_prefix text_eq
collect_prefixes prefix delim seen [] = seen
collect_prefixes prefix delim seen (o ∷ os) =
    collect_prefixes prefix delim
      (elim (common_prefix prefix delim o.key) [
        | none ↦ seen
        | some p ↦ if any (text_eq p) seen then seen else seen ++ p ∷ []
      ])
      os

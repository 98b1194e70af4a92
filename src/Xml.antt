-- ===== src/Xml.antt =====
-- How the handlers read XML, by searching for marks: `content.find("<Key>")`, the slice up to the
-- mark that ends the element, and `str::split` at a mark.
pub mod Tokens
pub mod Elements
pub mod Sections
pub mod Items
pub mod Leaves
use ironbucket.Base.{
  ℕ, zero, suc, ◌+◌, ◌-◌, Bool, true, false, Option, none, some, List, [], ◌∷◌, ◌++◌, length, take,
  drop, leb, if◌then◌else◌,
}
use ironbucket.Base.Text.{Text, codes, find, starts_with, cons_head}

-- `&content[from..to]`, which panics where `from` is behind `to`.
unfoldable pub slice : ℕ → ℕ → Text → Option Text
slice from to content = if leb from to then some (drop from (take to content)) else none

-- What stands between two marks: none if one of them is missing.
unfoldable pub between : Text → Text → Text → Option (ℕ × ℕ)
unfolding find
between start end content = elim (find content start) [
  | none ↦ none
  | some i ↦ elim (find content end) [ none ↦ none | some j ↦ some (i + length start, j) ]
]

-- The marks around an element of the name.
abbrev pub mark : Text → Text
mark name = b'<' ∷ (name ++ b'>' ∷ [])

abbrev pub end_mark : Text → Text
end_mark name = mark (b'/' ∷ name)

-- `if let Some(start) = s.find("<Name>") { if let Some(end) = s.find("</Name>") { s[start + n..end] } }`:
-- none for a panic, and otherwise the text of the first element of the name, if both marks are found.
unfoldable pub element : Text → Text → Option (Option Text)
unfolding between slice
element name s = elim (between (mark name) (end_mark name) s) [
  | none ↦ some none
  | some span ↦ elim (slice span.0 span.1 s) [ none ↦ none | some text ↦ some (some text) ]
]

-- `s.split(pattern)` for a pattern that is not empty; `skip` bytes of the pattern are left.
unfoldable pub split_at : Text → ℕ → Text → List Text
unfolding starts_with cons_head
split_at pattern skip [] = [] ∷ []
split_at pattern (suc skip) (x ∷ s) = split_at pattern skip s
split_at pattern zero (x ∷ s) =
    let matched = [] ∷ split_at pattern (length pattern - 1) s in
    let other = cons_head x (split_at pattern zero s) in
    if starts_with (x ∷ s) pattern then matched else other

-- `s.split("<Name>")` without what stands before the first mark.
unfoldable pub parts : Text → Text → List Text
unfolding split_at
parts name s = drop 1 (split_at (mark name) 0 s)

-- `part[..end]` up to the mark that ends the element, for each part in which it is found.
unfoldable pub ended : Text → List Text → List Text
unfolding find
ended name [] = []
ended name (part ∷ rest) =
    let later = ended name rest in
    elim (find part (end_mark name)) [ none ↦ later | some end ↦ take end part ∷ later ]

-- The texts of all elements of the name.
unfoldable pub values : Text → Text → List Text
unfolding parts ended
values name s = ended name (parts name s)

-- `format!("\n    <Name>{}</Name>", text)` with the white space that stands in front.
unfoldable pub line : Text → Text → Text → Text
line indent name text = indent ++ (mark name ++ (text ++ end_mark name))

-- A line for each text of a list.
unfoldable pub print_lines : Text → Text → List Text → Text
unfolding line
print_lines indent name [] = []
print_lines indent name (text ∷ rest) = line indent name text ++ print_lines indent name rest

abbrev pub listed {ℓ} : {A : Type ℓ} → Option A → List A
listed none = []
listed (some a) = a ∷ []

-- A list, where it has elements.
abbrev pub unless_empty {ℓ} : {A : Type ℓ} → List A → Option (List A)
unless_empty [] = none
unless_empty (a ∷ rest) = some (a ∷ rest)

-- What stands inside an element, where there is one; none for a panic.
abbrev pub inside {ℓ} : {A : Type ℓ} → (Text → Option A) → Option Text → Option (Option A)
inside read none = some none
inside read (some text) = elim (read text) [ none ↦ none | some a ↦ some (some a) ]

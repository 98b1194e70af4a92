-- ===== src/Replicator/Escape.antt =====
-- Metadata travels escaped: the replicator undoes the writer's escape with two calls of `replace`.
use ironbucket.Base.{
  ℕ, ◌≡◌, refl, ap, ◌∙◌, sym, ◌≢◌, ==_iff, ◌&&◌, Bool-cases, inl, inr, [], ◌∷◌, ◌++◌, arith, ◌==◌,
  if◌then◌else◌,
}
use ironbucket.Base.Text.{Text, Lacks, replace_char}
use ironbucket.Wal.{escape}

-- `s.replace("\\x", "c")`: every backslash with the letter behind it becomes one character.
unfoldable pub replace_escaped : ℕ → ℕ → Text → Text
replace_escaped letter c [] = []
replace_escaped letter c (x ∷ []) = x ∷ []
replace_escaped letter c (x ∷ y ∷ s) =
    let skip = replace_escaped letter c s in
    let keep = replace_escaped letter c (y ∷ s) in
    if x == b'\\' && y == letter then c ∷ skip else x ∷ keep

-- `content.replace("\\n", "\n").replace("\\t", "\t")`
unfoldable pub unescape : Text → Text
unfolding replace_escaped
unescape s = replace_escaped b't' 9 (replace_escaped b'n' 10 s)

keep_plain :
    (letter c x : ℕ) (t : Text)
    → x ≢ b'\\'
    → replace_escaped letter c (x ∷ t) ≡ x ∷ replace_escaped letter c t
unfolding replace_escaped
keep_plain letter c x [] h = refl
keep_plain letter c x (y ∷ t) h = ground arith

undo_escape :
    (letter c : ℕ) (t : Text)
    → replace_escaped letter c (b'\\' ∷ letter ∷ t) ≡ c ∷ replace_escaped letter c t
unfolding replace_escaped
undo_escape letter c t = ground arith

keep_escape :
    (letter c y : ℕ) (t : Text)
    → y ≢ letter
    → y ≢ b'\\'
    → replace_escaped letter c (b'\\' ∷ y ∷ t) ≡ b'\\' ∷ y ∷ replace_escaped letter c t
unfolding replace_escaped
keep_escape letter c y t h k = rw (← keep_plain letter c y t k) (ground arith)

abbrev newlines : Text → Text
newlines = replace_char 10 (b'\\' ∷ b'n' ∷ [])

abbrev tabs : Text → Text
tabs = replace_char 9 (b'\\' ∷ b't' ∷ [])

char_same : (c : ℕ) (t s : Text) → replace_char c t (c ∷ s) ≡ t ++ replace_char c t s
unfolding replace_char
char_same c t s = ground arith

char_other : (c x : ℕ) (t s : Text) → x ≢ c → replace_char c t (x ∷ s) ≡ x ∷ replace_char c t s
unfolding replace_char
char_other c x t s h = ground arith

newlines_plain : (x : ℕ) (s : Text) → x ≢ 10 → newlines (x ∷ s) ≡ x ∷ newlines s
newlines_plain x s h = char_other 10 x (b'\\' ∷ b'n' ∷ []) s h

tabs_plain : (x : ℕ) (s : Text) → x ≢ 9 → tabs (x ∷ s) ≡ x ∷ tabs s
tabs_plain x s h = char_other 9 x (b'\\' ∷ b't' ∷ []) s h

undo_newlines : (s : Text) → Lacks b'\\' s → replace_escaped b'n' 10 (tabs (newlines s)) ≡ tabs s
undo_newlines [] h = unfold replace_escaped replace_char in refl
undo_newlines (x ∷ s) h = elim (Bool-cases (x == 10)) [
  | inl e ↦ rw ((==_iff x 10).0 e) (at_newline (undo_newlines s h.1))
  | inr e ↦ elim (Bool-cases (x == 9)) [
    | inl f ↦ rw ((==_iff x 9).0 f) (at_tab (undo_newlines s h.1))
    | inr f ↦ at_plain (ground arith) (ground arith) (undo_newlines s h.1)
  ]
]
  where
    at_newline :
        replace_escaped b'n' 10 (tabs (newlines s)) ≡ tabs s
        → replace_escaped b'n' 10 (tabs (newlines (10 ∷ s))) ≡ tabs (10 ∷ s)
    at_newline ih =
        ap (λ t. replace_escaped b'n' 10 (tabs t)) (char_same 10 (b'\\' ∷ b'n' ∷ []) s)
        ∙ ap (replace_escaped b'n' 10) (
            tabs_plain b'\\' (b'n' ∷ newlines s) (omega arith)
            ∙ ap (λ t. b'\\' ∷ t) (tabs_plain b'n' (newlines s) (omega arith)))
        ∙ undo_escape b'n' 10 (tabs (newlines s))
        ∙ ap (λ t. 10 ∷ t) ih
        ∙ sym (tabs_plain 10 s (omega arith))

    at_tab :
        replace_escaped b'n' 10 (tabs (newlines s)) ≡ tabs s
        → replace_escaped b'n' 10 (tabs (newlines (9 ∷ s))) ≡ tabs (9 ∷ s)
    at_tab ih =
        ap (λ t. replace_escaped b'n' 10 (tabs t)) (newlines_plain 9 s (omega arith))
        ∙ ap (replace_escaped b'n' 10) (char_same 9 (b'\\' ∷ b't' ∷ []) (newlines s))
        ∙ keep_escape b'n' 10 b't' (tabs (newlines s)) (omega arith) (omega arith)
        ∙ ap (λ t. b'\\' ∷ b't' ∷ t) ih
        ∙ sym (char_same 9 (b'\\' ∷ b't' ∷ []) s)

    at_plain :
        x ≢ 10
        → x ≢ 9
        → replace_escaped b'n' 10 (tabs (newlines s)) ≡ tabs s
        → replace_escaped b'n' 10 (tabs (newlines (x ∷ s))) ≡ tabs (x ∷ s)
    at_plain n t ih =
        ap (λ u. replace_escaped b'n' 10 (tabs u)) (newlines_plain x s n)
        ∙ ap (replace_escaped b'n' 10) (tabs_plain x (newlines s) t)
        ∙ keep_plain b'n' 10 x (tabs (newlines s)) h.0
        ∙ ap (λ u. x ∷ u) ih
        ∙ sym (tabs_plain x s t)

undo_tabs : (s : Text) → Lacks b'\\' s → replace_escaped b't' 9 (tabs s) ≡ s
undo_tabs [] h = unfold replace_escaped replace_char in refl
undo_tabs (x ∷ s) h = elim (Bool-cases (x == 9)) [
  | inl e ↦ rw ((==_iff x 9).0 e) (
      ap (replace_escaped b't' 9) (char_same 9 (b'\\' ∷ b't' ∷ []) s)
      ∙ undo_escape b't' 9 (tabs s)
      ∙ ap (λ t. 9 ∷ t) (undo_tabs s h.1))
  | inr e ↦
      ap (replace_escaped b't' 9) (tabs_plain x s (ground arith))
      ∙ keep_plain b't' 9 x (tabs s) h.0
      ∙ ap (λ t. x ∷ t) (undo_tabs s h.1)
]

-- Metadata content with no backslash comes back as it was.
pub unescape-escape : (content : Text) → Lacks b'\\' content → unescape (escape content) ≡ content
unfolding unescape escape
unescape-escape content h =
    ap (replace_escaped b't' 9) (undo_newlines content h) ∙ undo_tabs content h

-- A backslash with an `n` behind it comes back as a line feed, whatever surrounds it, so that the
-- escape cannot be undone at all: it sends this text and a line feed to the same one.
pub escape_clash : (s : Text) → escape (b'\\' ∷ b'n' ∷ s) ≡ escape (10 ∷ s)
unfolding escape
escape_clash s =
    ap tabs (
      newlines_plain b'\\' (b'n' ∷ s) (omega arith)
      ∙ ap (λ t. b'\\' ∷ t) (newlines_plain b'n' s (omega arith)))
    ∙ ap tabs (sym (char_same 10 (b'\\' ∷ b'n' ∷ []) s))

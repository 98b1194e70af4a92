-- ===== src/Listing/Scan.antt =====
-- What the scan of a bucket finds under a prefix.
use ironbucket.Base.{
  ℕ, ◌≤◌, ◌<◌, ◌≡◌, refl, inl, inr, true, false, not, ◌&&◌, ◌||◌, [], ◌∷◌, length, arith, All,
  All-append, Bool-cases, &&-eq_true, ◌==◌,
}
use ironbucket.Base.Text.{Text, codes, text_eq, starts_with, ends_with, replace_char}
use ironbucket.Disk.{Node, file, dir, Entries, nil, entry}
use ironbucket.Listing.{Object, relative_path, key_of, shown, scan_entry, scan_directory}

length-replace_char : (c d : ℕ) (s : Text) → length (replace_char c (d ∷ []) s) ≡ length s
unfolding replace_char
length-replace_char c d [] = refl
length-replace_char c d (x ∷ s) = elim (Bool-cases (x == c)) [
  | inl e ↦ rw (e, length-replace_char c d s)
  | inr e ↦ rw (e, length-replace_char c d s)
]

starts_with-le : (s p : Text) → starts_with s p ≡ true → length p ≤ length s
unfolding starts_with
starts_with-le s [] h = omega arith
starts_with-le [] (y ∷ p) h = absurd (cc)
starts_with-le (x ∷ s) (y ∷ p) h =
    omega (arith, starts_with-le s p (&&-eq_true (x == y) (starts_with s p) h).1)

shown-starts_with :
    (target path name : Text)
    → shown target path name ≡ true
    → starts_with (key_of path name) target ≡ true
unfolding shown
shown-starts_with target path name h =
    (&&-eq_true
      (not (ends_with name (codes ".metadata"))
        && (not (starts_with name (codes ".")) || text_eq name (codes ".bucket_metadata"))
        && not (text_eq (relative_path path name) (codes ".bucket_metadata")))
      (starts_with (key_of path name) target) h).1

-- An object of the listing.
abbrev pub Matches : Text → Object → Type 0
Matches target o = starts_with o.key target ≡ true

mutual
  unfolding scan_entry

  scan_entry-Matches :
      (target path name : Text) (node : Node)
      → All (Matches target) (scan_entry target path name node)
  scan_entry-Matches target path name (file contents) = elim (Bool-cases (shown target path name)) [
    | inl e ↦ rw e ((shown-starts_with target path name e, tt))
    | inr e ↦ rw e tt
  ]
  scan_entry-Matches target path name (dir es) = elim (Bool-cases (shown target path name)) [
    | inl e ↦ rw e (directory-Matches target (relative_path path name) es)
    | inr e ↦ rw e tt
  ]

  directory-Matches :
      (target path : Text) (es : Entries) → All (Matches target) (scan_directory target path es)
  directory-Matches target path nil = tt
  directory-Matches target path (entry name node rest) =
      All-append (Matches target) (scan_entry target path name node)
        (scan_directory target path rest) (scan_entry-Matches target path name node)
        (directory-Matches target path rest)

-- Every object that the scan finds has a key that starts with the prefix.
pub scan_directory-Matches :
    (target : Text) (es : Entries) → All (Matches target) (scan_directory target [] es)
scan_directory-Matches target es = directory-Matches target [] es

not_shown :
    (target path name : Text)
    → length (relative_path path name) < length target
    → shown target path name ≡ false
unfolding key_of
not_shown target path name h = elim (Bool-cases (shown target path name)) [
  | inr e ↦ e
  | inl e ↦ absurd (
      omega (
        arith,
        starts_with-le (key_of path name) target (shown-starts_with target path name e),
        length-replace_char b'\\' b'/' (relative_path path name),
      ))
]

-- Nothing in a directory at the top of the bucket is listed under a prefix that is longer than the
-- directory's name, such as the name with a slash behind it, whatever keys the directory holds.
pub scan_directory-below_prefix :
    (target name : Text) (es rest : Entries)
    → length name < length target
    → scan_directory target [] (entry name (dir es) rest) ≡ scan_directory target [] rest
unfolding scan_directory relative_path
scan_directory-below_prefix target name es rest h = rw (not_shown target [] name h)

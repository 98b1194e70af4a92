-- ===== src/Replicator/Batch.antt =====
-- What `optimize_batch` sends for each object, whatever the order of the `HashMap`.
use ironbucket.Base.{
  ◌≡◌, refl, sym, ap, ◌∙◌, inl, inr, true, false, List, [], ◌∷◌, ◌++◌, append_assoc, append-nil,
  arith, All, if◌then◌else◌, Bool-cases,
}
use ironbucket.Base.Text.{Text, text_eq_iff}
use ironbucket.Replicator.{WalEntry, Group, same_key, push_entry, group_entries}

-- The entries of a batch about one object, in their order.
unfoldable pub about : Text × Text → List WalEntry → List WalEntry
unfolding same_key
about k [] = []
about k (e ∷ es) = let rest = about k es in if same_key k (e.bucket, e.key) then e ∷ rest else rest

-- The entries of the group with the key, if there is one.
unfoldable pub group_of : Text × Text → List Group → List WalEntry
unfolding same_key
group_of k [] = []
group_of k ((j, ops) ∷ groups) = if same_key k j then ops else group_of k groups

pub same_key→eq : (k j : Text × Text) → same_key k j ≡ true → k ≡ j
unfolding same_key
same_key→eq (a, b) (c, d) h = ground (arith, text_eq_iff a c, text_eq_iff b d)

pub same_key_refl : (k : Text × Text) → same_key k k ≡ true
unfolding same_key
same_key_refl (a, b) = ground (arith, text_eq_iff a a, text_eq_iff b b)

abbrev pub key_of : WalEntry → Text × Text
key_of e = (e.bucket, e.key)

abbrev pub if_own : Text × Text → WalEntry → List WalEntry
if_own k e = if same_key k (key_of e) then e ∷ [] else []

module _ (j : Text × Text) (ops : List WalEntry) (groups : List Group) where
  pub push_here :
      (e : WalEntry)
      → same_key j (key_of e) ≡ true
      → push_entry e ((j, ops) ∷ groups) ≡ (j, ops ++ e ∷ []) ∷ groups
  unfolding push_entry
  push_here e p = rw p

  push_later :
      (e : WalEntry)
      → same_key j (key_of e) ≡ false
      → push_entry e ((j, ops) ∷ groups) ≡ (j, ops) ∷ push_entry e groups
  unfolding push_entry
  push_later e p = rw p

  pub group_here : (k : Text × Text) → same_key k j ≡ true → group_of k ((j, ops) ∷ groups) ≡ ops
  unfolding group_of
  group_here k p = rw p

  pub group_later :
      (k : Text × Text) → same_key k j ≡ false → group_of k ((j, ops) ∷ groups) ≡ group_of k groups
  unfolding group_of
  group_later k p = rw p

pub same_as : (k j i : Text × Text) → same_key j i ≡ true → same_key k i ≡ same_key k j
same_as k j i p = ap (same_key k) (sym (same_key→eq j i p))

differ : (k j i : Text × Text) → same_key j i ≡ false → same_key k j ≡ true → same_key k i ≡ false
differ k j i p q = ap (λ x. same_key x i) (same_key→eq k j q) ∙ p

group_of-push_entry :
    (k : Text × Text) (e : WalEntry) (groups : List Group)
    → group_of k (push_entry e groups) ≡ group_of k groups ++ if_own k e
group_of-push_entry k e [] = unfold group_of push_entry in refl
group_of-push_entry k e ((j, ops) ∷ groups) = elim (Bool-cases (same_key j (key_of e))) [
  | inl p ↦
      rw (push_here j ops groups e p, same_as k j (key_of e) p)
        (elim (Bool-cases (same_key k j)) [
          | inl q ↦ rw (group_here j (ops ++ e ∷ []) groups k q, group_here j ops groups k q, q)
          | inr q ↦
              rw (group_later j (ops ++ e ∷ []) groups k q, group_later j ops groups k q, q)
                (sym (append-nil (group_of k groups)))
        ])
  | inr p ↦ rw (push_later j ops groups e p) (elim (Bool-cases (same_key k j)) [
    | inl q ↦
        rw
          (
            group_here j ops (push_entry e groups) k q,
            group_here j ops groups k q,
            differ k j (key_of e) p q,
          )
          (sym (append-nil ops))
    | inr q ↦
        rw (group_later j ops (push_entry e groups) k q, group_later j ops groups k q)
          (group_of-push_entry k e groups)
  ])
]

about_cons :
    (k : Text × Text) (e : WalEntry) (es : List WalEntry)
    → about k (e ∷ es) ≡ if_own k e ++ about k es
unfolding about
about_cons k e es = elim (Bool-cases (same_key k (key_of e))) [ inl p ↦ rw p | inr p ↦ rw p ]

-- The group of a key collects the entries about it.
pub group_of-group_entries :
    (k : Text × Text) (groups : List Group) (es : List WalEntry)
    → group_of k (group_entries groups es) ≡ group_of k groups ++ about k es
unfolding group_entries
group_of-group_entries k groups [] = unfold about in sym (append-nil (group_of k groups))
group_of-group_entries k groups (e ∷ es) =
    group_of-group_entries k (push_entry e groups) es
    ∙ ap (λ g. g ++ about k es) (group_of-push_entry k e groups)
    ∙ append_assoc (group_of k groups) (if_own k e) (about k es)
    ∙ ap (λ t. group_of k groups ++ t) (sym (about_cons k e es))

-- No group has the key.
abbrev pub Absent : Text × Text → List Group → Type 0
Absent k groups = All (λ g. same_key k g.0 ≡ false) groups

abbrev pub Distinct : List Group → Type 0
Distinct [] = Unit
Distinct ((k, ops) ∷ groups) = Absent k groups × Distinct groups

Absent-push_entry :
    (k : Text × Text) (e : WalEntry) (groups : List Group)
    → same_key k (key_of e) ≡ false
    → Absent k groups
    → Absent k (push_entry e groups)
Absent-push_entry k e [] n h = unfold push_entry in (n, tt)
Absent-push_entry k e ((j, ops) ∷ groups) n h = elim (Bool-cases (same_key j (key_of e))) [
  | inl p ↦ rw (push_here j ops groups e p) h
  | inr p ↦ rw (push_later j ops groups e p) (h.0, Absent-push_entry k e groups n h.1)
]

Distinct-push_entry :
    (e : WalEntry) (groups : List Group) → Distinct groups → Distinct (push_entry e groups)
Distinct-push_entry e [] h = unfold push_entry in (tt, tt)
Distinct-push_entry e ((j, ops) ∷ groups) h = elim (Bool-cases (same_key j (key_of e))) [
  | inl p ↦ rw (push_here j ops groups e p) h
  | inr p ↦
      rw (push_later j ops groups e p)
        (Absent-push_entry j e groups p h.0, Distinct-push_entry e groups h.1)
]

pub Distinct-group_entries :
    (groups : List Group) (es : List WalEntry)
    → Distinct groups
    → Distinct (group_entries groups es)
unfolding group_entries
Distinct-group_entries groups [] h = h
Distinct-group_entries groups (e ∷ es) h =
    Distinct-group_entries (push_entry e groups) es (Distinct-push_entry e groups h)

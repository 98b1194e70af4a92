-- ===== src/Replicator/Sent.antt =====
-- What `optimize_batch` sends, whatever the order of the `HashMap`.
use ironbucket.Base.{
  ◌≡◌, refl, sym, ap, ◌∙◌, ◌≢◌, inl, inr, ◌↔◌, Bool, true, false, none, some, List, [], ◌∷◌, ◌++◌,
  In, any, ◌&&◌, &&-eq_true, Bool-cases, Option-cases, subst,
}
use ironbucket.Base.Text.{Text, codes, text_eq, text_eq_iff}
use ironbucket.Replicator.{
  WalEntry, Group, same_key, is_op, last_of, group_entries, group_result, collect, optimize_batch,
}
use ironbucket.Replicator.Batch.{
  about, group_of, same_key→eq, same_key_refl, Absent, Distinct, Distinct-group_entries,
  group_of-group_entries, group_here, group_later,
}

Absent-found :
    (k : Text × Text) (j : Text × Text) (ops : List WalEntry) (groups : List Group)
    → Absent k groups
    → In (j, ops) groups
    → same_key k j ≡ false
Absent-found k j ops ((i, o) ∷ groups) h (inl e) = ap (λ (g : Group). same_key k g.0) e ∙ h.0
Absent-found k j ops ((i, o) ∷ groups) h (inr m) = Absent-found k j ops groups h.1 m
Absent-found k j ops [] h m = elim m [ ]

-- With distinct keys, each group is the one found under its key.
group_of-In :
    (k : Text × Text) (ops : List WalEntry) (groups : List Group)
    → Distinct groups
    → In (k, ops) groups
    → group_of k groups ≡ ops
group_of-In k ops [] d m = elim m [ ]
group_of-In k ops ((j, o) ∷ groups) d (inl e) =
    let same : j ≡ k = ap (λ (g : Group). g.0) (sym e) in
    group_here j o groups k (subst (λ i. same_key k i ≡ true) (sym same) (same_key_refl k))
    ∙ ap (λ (g : Group). g.1) (sym e)
group_of-In k ops ((j, o) ∷ groups) d (inr m) = elim (Bool-cases (same_key k j)) [
  | inr n ↦ group_later j o groups k n ∙ group_of-In k ops groups d.1 m
  | inl y ↦ absurd (cc (Absent-found j k ops groups d.0 m, same_key→eq k j y, same_key_refl k))
]

In-group_of :
    (k : Text × Text) (groups : List Group)
    → group_of k groups ≢ []
    → In (k, group_of k groups) groups
In-group_of k [] n = absurd (n (unfold group_of in refl))
In-group_of k ((j, o) ∷ groups) n = elim (Bool-cases (same_key k j)) [
  | inl y ↦ rw (group_here j o groups k y) (inl (ap (λ i. (i, o)) (same_key→eq k j y)))
  | inr y ↦
      subst (λ x. In (k, x) ((j, o) ∷ groups)) (sym (group_later j o groups k y))
        (inr (In-group_of k groups (rw (group_later j o groups k y) at n)))
]

In-collect :
    (g : Group) (e : WalEntry) (groups : List Group)
    → In g groups
    → group_result g.1 ≡ some e
    → In e (collect groups)
unfolding collect
In-collect g e [] m r = elim m [ ]
In-collect g e ((k, ops) ∷ groups) (inl h) r =
    let s : group_result ops ≡ some e = ap (λ (x : Group). group_result x.1) (sym h) ∙ r in
    rw (s, collect) (inl refl)
In-collect g e ((k, ops) ∷ groups) (inr m) r = elim (Option-cases (group_result ops)) [
  | inl n ↦ rw (n, collect) (In-collect g e groups m r)
  | inr (f, n) ↦ rw (n, collect) (inr (In-collect g e groups m r))
]

collect-In :
    (e : WalEntry) (groups : List Group)
    → In e (collect groups)
    → (g : Group) × In g groups × (group_result g.1 ≡ some e)
unfolding collect
collect-In e [] m = elim m [ ]
collect-In e ((k, ops) ∷ groups) m = elim (Option-cases (group_result ops)) [
  | inl n ↦ let (g, i, r) = collect-In e groups (rw (n, collect) at m) in (g, inr i, r)
  | inr (f, n) ↦ first_or_later (collect-In e groups) f n (rw (n, collect) at m)
]
  where
    first_or_later :
        (In e (collect groups) → (g : Group) × In g groups × (group_result g.1 ≡ some e))
        → (f : WalEntry) → group_result ops ≡ some f
        → In e (f ∷ collect groups)
        → (g : Group) × In g ((k, ops) ∷ groups) × (group_result g.1 ≡ some e)
    first_or_later ih f n (inl h) = ((k, ops), inl refl, n ∙ ap some (sym h))
    first_or_later ih f n (inr i) = let (g, j, r) = ih i in (g, inr j, r)

last_of-append : (ops : List WalEntry) (e : WalEntry) → last_of (ops ++ e ∷ []) ≡ some e
unfolding last_of
last_of-append [] e = refl
last_of-append (o ∷ []) e = refl
last_of-append (o ∷ p ∷ ops) e = last_of-append (p ∷ ops) e

last_of-some :
    (ops : List WalEntry) (e : WalEntry)
    → last_of ops ≡ some e
    → (front : List WalEntry) × (ops ≡ front ++ e ∷ [])
unfolding last_of
last_of-some [] e h = absurd (cc)
last_of-some (o ∷ []) e h = let same : o ≡ e = cc in ([], ap (λ x. x ∷ []) same)
last_of-some (o ∷ p ∷ ops) e h =
    let (front, rest) = last_of-some (p ∷ ops) e h in (o ∷ front, ap (λ es. o ∷ es) rest)

In-any :
    (name : Text) (o : WalEntry) (ops : List WalEntry)
    → In o ops
    → o.operation ≡ name
    → any (is_op name) ops ≡ true
unfolding is_op
In-any name o [] i e = elim i [ ]
In-any name o (p ∷ ops) (inl same) e =
    let k : text_eq p.operation name ≡ true =
      (text_eq_iff p.operation name).1 (ap (λ (x : WalEntry). x.operation) (sym same) ∙ e) in
    rw (k) refl
In-any name o (p ∷ ops) (inr i) e = elim (Bool-cases (text_eq p.operation name)) [
  | inl k ↦ rw (k) refl
  | inr k ↦ rw (k) (In-any name o ops i e)
]

any-In :
    (name : Text) (ops : List WalEntry)
    → any (is_op name) ops ≡ true
    → (o : WalEntry) × In o ops × (o.operation ≡ name)
unfolding is_op
any-In name [] h = absurd (cc)
any-In name (p ∷ ops) h = elim (Bool-cases (text_eq p.operation name)) [
  | inl k ↦ (p, inl refl, (text_eq_iff p.operation name).0 k)
  | inr k ↦ let (o, i, e) = any-In name ops (rw (k) at h) in (o, inr i, e)
]

-- A PUT and a DELETE among the entries.
abbrev pub Both : List WalEntry → Type 0
Both ops =
    (p : WalEntry) × (d : WalEntry) × In p ops
    × In d ops
    × (p.operation ≡ codes "PUT")
    × (d.operation ≡ codes "DELETE")

-- The last of the entries, among which are not both a PUT and a DELETE.
abbrev pub LastOf : List WalEntry → WalEntry → Type 0
LastOf ops e = ((front : List WalEntry) × (ops ≡ front ++ e ∷ [])) × ¬ Both ops

mixed : List WalEntry → Bool
mixed ops = any (is_op (codes "PUT")) ops && any (is_op (codes "DELETE")) ops

group_result-LastOf :
    (ops : List WalEntry) (e : WalEntry) → (group_result ops ≡ some e) ↔ LastOf ops e
unfolding group_result mixed
group_result-LastOf ops e = (
  λ h. elim (Bool-cases (mixed ops)) [
    | inl m ↦ let k = rw (group_result, m) at h in absurd (cc)
    | inr m ↦ (
      last_of-some ops e (rw (group_result, m) at h),
      λ both.
          let (p, d, i, j, a, b) = both in
          let one = In-any (codes "PUT") p ops i a in
          let two = In-any (codes "DELETE") d ops j b in let k = rw (one, two) at m in absurd (cc),
    )
  ],
  λ last. elim (Bool-cases (mixed ops)) [
    | inl m ↦
        let (one, two) =
          &&-eq_true (any (is_op (codes "PUT")) ops) (any (is_op (codes "DELETE")) ops) m in
        let (p, i, a) = any-In (codes "PUT") ops one in
        let (d, j, b) = any-In (codes "DELETE") ops two in absurd (last.1 (p, d, i, j, a, b))
    | inr m ↦ rw (group_result, m) (ap last_of last.0.1 ∙ last_of-append last.0.0 e)
  ],
)

group_result_nil : group_result [] ≡ none
unfolding group_result
group_result_nil = refl

result-ne-nil : (ops : List WalEntry) (e : WalEntry) → group_result ops ≡ some e → ops ≢ []
result-ne-nil [] e r = absurd (cc (group_result_nil))
result-ne-nil (o ∷ ops) e r = cc

-- The map that the loop over a batch builds.
grouped :
    (k : Text × Text) (entries : List WalEntry)
    → group_of k (group_entries [] entries) ≡ about k entries
unfolding group_of
grouped k entries = group_of-group_entries k [] entries

module _ (order : List Group → List Group)
    (gives_all : (g : Group) (groups : List Group) → In g (order groups) ↔ In g groups) where
  sent→result :
      (e : WalEntry) (entries : List WalEntry)
      → In e (optimize_batch order entries)
      → (k : Text × Text) × (group_result (about k entries) ≡ some e)
  unfolding optimize_batch
  sent→result e entries m =
      let (g, i, r) = collect-In e (order (group_entries [] entries)) m in
      let own : group_of g.0 (group_entries [] entries) ≡ g.1 =
        group_of-In g.0 g.1 (group_entries [] entries) (Distinct-group_entries [] entries tt)
          ((gives_all g (group_entries [] entries)).0 i) in
      (g.0, ap group_result (sym (grouped g.0 entries) ∙ own) ∙ r)

  result→sent :
      (e : WalEntry) (entries : List WalEntry) (k : Text × Text)
      → group_result (about k entries) ≡ some e
      → In e (optimize_batch order entries)
  unfolding optimize_batch
  result→sent e entries k r =
      let groups = group_entries [] entries in
      let s : group_result (group_of k groups) ≡ some e = ap group_result (grouped k entries) ∙ r in
      In-collect (k, group_of k groups) e (order groups)
        ((gives_all (k, group_of k groups) groups).1
          (In-group_of k groups (result-ne-nil (group_of k groups) e s)))
        s

  -- Where the map gives each of its groups, in whatever order, an entry is sent exactly when for
  -- some object it is the last of the batch's entries about that object, and not both a PUT and a
  -- DELETE are among them.
  pub optimize_batch_iff :
      (e : WalEntry) (entries : List WalEntry)
      → In e (optimize_batch order entries) ↔ ((k : Text × Text) × LastOf (about k entries) e)
  optimize_batch_iff e entries = (
    λ m. let (k, r) = sent→result e entries m in (k, (group_result-LastOf (about k entries) e).0 r),
    λ p. result→sent e entries p.0 ((group_result-LastOf (about p.0 entries) e).1 p.1),
  )

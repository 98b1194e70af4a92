-- ===== src/Bucket/Lifecycle.antt =====
-- Creating, asking for and deleting buckets.
use ironbucket.Base.{
  ℕ, ◌<◌, arith, ◌≡◌, refl, sym, ap, ◌∙◌, subst, ◌≢◌, ◌⊎◌, inl, inr, true, false, Option, none,
  some, List, [], ◌∷◌, All, any, Bool-cases, Option-cases,
}
use ironbucket.Base.Text.{Text, codes, text_eq, text_eq_iff, starts_with, ends_with}
use ironbucket.Disk.{
  Node, file, dir, Entries, nil, entry, is_dir, child, put_child, remove_child, names,
}
use ironbucket.Filesystem.{bucket_exists}
use ironbucket.Filesystem.Config.{
  child-remove_child_other, child-put_child, child-put_child_other, child-remove_child,
}
use ironbucket.Bucket.{
  AppState, Response, log, create_bucket, is_object, has_objects, remove_bucket, head_bucket,
}

-- The directory of a new bucket.
new_dir : Text → Node
new_dir metadata = dir (entry (codes ".bucket_metadata") (file metadata) nil)

create_bucket-absent :
    (metadata bucket : Text) (state : AppState)
    → child bucket state.storage ≡ none
    → ((create_bucket metadata bucket state).1.status ≡ 200)
      × ((create_bucket metadata bucket state).0.storage
          ≡ put_child bucket (new_dir metadata) state.storage)
unfolding create_bucket log new_dir
create_bucket-absent metadata bucket state e = (rw (create_bucket, e), rw (create_bucket, e))

create_bucket-present :
    (metadata bucket : Text) (state : AppState) (node : Node)
    → child bucket state.storage ≡ some node
    → ((create_bucket metadata bucket state).1.status ≡ 200)
      × ((create_bucket metadata bucket state).0 ≡ state)
unfolding create_bucket
create_bucket-present metadata bucket state node e = (rw (create_bucket, e), rw (create_bucket, e))

head_bucket-dir :
    (bucket : Text) (state : AppState) (node : Node)
    → child bucket state.storage ≡ some node
    → is_dir node ≡ true
    → head_bucket bucket state ≡ 200
unfolding head_bucket bucket_exists
head_bucket-dir bucket state node e d = rw (head_bucket, bucket_exists, e, d)

head_bucket-absent :
    (bucket : Text) (state : AppState)
    → child bucket state.storage ≡ none
    → head_bucket bucket state ≡ 404
unfolding head_bucket bucket_exists
head_bucket-absent bucket state e = rw (head_bucket, bucket_exists, e)

-- What is the same for every other name is the same, or the name is the bucket's.
same_or_named :
    {A : Type 0} (f g : Text → A) (bucket : Text)
    → ((other : Text) → text_eq bucket other ≡ false → f other ≡ g other)
    → (other : Text) → (f other ≡ g other) ⊎ (other ≡ bucket)
same_or_named f g bucket h other = elim (Bool-cases (text_eq bucket other)) [
  | inl e ↦ inr (sym ((text_eq_iff bucket other).0 e))
  | inr e ↦ inl (h other e)
]

-- Creating a bucket where no file has the name answers 200, the bucket exists then, everything of
-- another name is as before, and creating it again changes nothing.
pub create_bucket-head_bucket :
    (metadata bucket : Text) (state : AppState)
    → ((node : Node) → child bucket state.storage ≡ some node → is_dir node ≡ true)
    → ((create_bucket metadata bucket state).1.status ≡ 200)
      × (head_bucket bucket (create_bucket metadata bucket state).0 ≡ 200)
      × ((other : Text)
          → (child other (create_bucket metadata bucket state).0.storage
              ≡ child other state.storage)
            ⊎ (other ≡ bucket))
      × ((create_bucket metadata bucket (create_bucket metadata bucket state).0).0
          ≡ (create_bucket metadata bucket state).0)
unfolding new_dir is_dir
create_bucket-head_bucket metadata bucket state dirs =
    elim (Option-cases (child bucket state.storage)) [
      | inl e ↦
          let (ok, stored) = create_bucket-absent metadata bucket state e in
          let made =
            ap (child bucket) stored ∙ child-put_child bucket (new_dir metadata) state.storage in
          (
            ok,
            head_bucket-dir bucket (create_bucket metadata bucket state).0 (new_dir metadata) made
                refl,
            same_or_named (λ v. child v (create_bucket metadata bucket state).0.storage)
                (λ v. child v state.storage) bucket
                (λ other apart.
                  ap (child other) stored
                  ∙ child-put_child_other bucket other (new_dir metadata) state.storage apart),
            (create_bucket-present metadata bucket (create_bucket metadata bucket state).0
                (new_dir metadata) made).1,
          )
      | inr (node, e) ↦
          let (ok, same) = create_bucket-present metadata bucket state node e in
          (
            ok,
            ap (head_bucket bucket) same ∙ head_bucket-dir bucket state node e (dirs node e),
            (λ other. inl (ap (λ (s : AppState). child other s.storage) same)),
            ap (λ (s : AppState). (create_bucket metadata bucket s).0) same,
          )
    ]

remove_bucket-absent :
    (bucket : Text) (state : AppState)
    → child bucket state.storage ≡ none
    → ((remove_bucket bucket state).1.status ≡ 404) × ((remove_bucket bucket state).0 ≡ state)
unfolding remove_bucket
remove_bucket-absent bucket state e = (rw (remove_bucket, e), rw (remove_bucket, e))

remove_bucket-file :
    (bucket : Text) (state : AppState) (contents : Text)
    → child bucket state.storage ≡ some (file contents)
    → ((remove_bucket bucket state).1.status ≡ 500) × ((remove_bucket bucket state).0 ≡ state)
unfolding remove_bucket has_objects is_dir
remove_bucket-file bucket state contents e = (rw (remove_bucket, e), rw (remove_bucket, e))

remove_bucket-full :
    (bucket : Text) (state : AppState) (es : Entries)
    → child bucket state.storage ≡ some (dir es)
    → any is_object (names es) ≡ true
    → ((remove_bucket bucket state).1.status ≡ 409) × ((remove_bucket bucket state).0 ≡ state)
unfolding remove_bucket has_objects
remove_bucket-full bucket state es e h =
    (rw (remove_bucket, e, has_objects, h), rw (remove_bucket, e, has_objects, h))

remove_bucket-empty :
    (bucket : Text) (state : AppState) (es : Entries)
    → child bucket state.storage ≡ some (dir es)
    → any is_object (names es) ≡ false
    → ((remove_bucket bucket state).1.status ≡ 204)
      × ((remove_bucket bucket state).0.storage ≡ remove_child bucket state.storage)
unfolding remove_bucket has_objects is_dir log
remove_bucket-empty bucket state es e h =
    (rw (remove_bucket, e, has_objects, h), rw (remove_bucket, e, has_objects, h))

-- Every name in the directory begins with a dot or ends in `.metadata`.
abbrev pub OnlyHidden : Entries → Type 0
OnlyHidden es =
    All
      (λ name. (starts_with name (codes ".") ≡ true) ⊎ (ends_with name (codes ".metadata") ≡ true))
      (names es)

is_object-hidden :
    (name : Text)
    → is_object name ≡ false
    → (starts_with name (codes ".") ≡ true) ⊎ (ends_with name (codes ".metadata") ≡ true)
unfolding is_object
is_object-hidden name h = elim (Bool-cases (starts_with name (codes "."))) [
  | inl e ↦ inl e
  | inr e ↦ elim (Bool-cases (ends_with name (codes ".metadata"))) [
    | inl f ↦ inr f
    | inr f ↦ let k = rw (is_object, e, f) at h in absurd (cc)
  ]
]

is_object-OnlyHidden : (es : Entries) → any is_object (names es) ≡ false → OnlyHidden es
is_object-OnlyHidden es h = each (names es) h
  where
    each :
        (ns : List Text)
        → any is_object ns ≡ false
        → All
            (λ name.
              (starts_with name (codes ".") ≡ true) ⊎ (ends_with name (codes ".metadata") ≡ true))
            ns
    each [] h = tt
    each (n ∷ ns) h = elim (Bool-cases (is_object n)) [
      | inl e ↦ let k = rw (e) at h in absurd (cc)
      | inr e ↦ (is_object-hidden n e, each ns (rw (e) at h))
    ]

status_apart : (r : Response) (n : ℕ) → r.status ≡ n → 204 < n → r.status ≢ 204
status_apart r n e lt = λ p. omega arith

-- Deleting a bucket: either the answer is 204, the bucket was there with no names in it but hidden
-- ones and those that end in `.metadata`, is gone then, and everything of another name is as before; or the answer is another one and nothing
-- changed.
pub remove_bucket-cases :
    (bucket : Text) (state : AppState)
    → (((remove_bucket bucket state).1.status ≡ 204)
        × ((es : Entries) × (child bucket state.storage ≡ some (dir es)) × OnlyHidden es)
        × (head_bucket bucket (remove_bucket bucket state).0 ≡ 404)
        × ((other : Text)
            → (child other (remove_bucket bucket state).0.storage ≡ child other state.storage)
              ⊎ (other ≡ bucket)))
      ⊎ (((remove_bucket bucket state).1.status ≢ 204) × ((remove_bucket bucket state).0 ≡ state))
remove_bucket-cases bucket state = by_node (child bucket state.storage) refl
  where
    by_node :
        (o : Option Node)
        → child bucket state.storage ≡ o
        → (((remove_bucket bucket state).1.status ≡ 204)
            × ((es : Entries) × (child bucket state.storage ≡ some (dir es)) × OnlyHidden es)
            × (head_bucket bucket (remove_bucket bucket state).0 ≡ 404)
            × ((other : Text)
                → (child other (remove_bucket bucket state).0.storage ≡ child other state.storage)
                  ⊎ (other ≡ bucket)))
          ⊎ (((remove_bucket bucket state).1.status ≢ 204)
              × ((remove_bucket bucket state).0 ≡ state))
    by_node none e =
        let (code, same) = remove_bucket-absent bucket state e in
        inr (status_apart (remove_bucket bucket state).1 404 code (omega arith), same)
    by_node (some (file contents)) e =
        let (code, same) = remove_bucket-file bucket state contents e in
        inr (status_apart (remove_bucket bucket state).1 500 code (omega arith), same)
    by_node (some (dir es)) e = elim (Bool-cases (any is_object (names es))) [
      | inl h ↦
          let (code, same) = remove_bucket-full bucket state es e h in
          inr (status_apart (remove_bucket bucket state).1 409 code (omega arith), same)
      | inr h ↦
          let (ok, stored) = remove_bucket-empty bucket state es e h in
          inl (
            ok,
            (es, e, is_object-OnlyHidden es h),
            head_bucket-absent bucket (remove_bucket bucket state).0
                (ap (child bucket) stored ∙ child-remove_child bucket state.storage),
            same_or_named (λ v. child v (remove_bucket bucket state).0.storage)
                (λ v. child v state.storage) bucket
                (λ other apart.
                  ap (child other) stored
                  ∙ child-remove_child_other bucket other state.storage apart),
          )
    ]

new_dir_hidden :
    (metadata : Text)
    → any is_object (names (entry (codes ".bucket_metadata") (file metadata) nil)) ≡ false
unfolding is_object names
new_dir_hidden metadata = refl

-- A bucket just created where there was nothing can be deleted: the answer is 204, and everything
-- stands where it did.
pub remove_bucket-create_bucket :
    (metadata bucket : Text) (state : AppState)
    → child bucket state.storage ≡ none
    → ((remove_bucket bucket (create_bucket metadata bucket state).0).1.status ≡ 204)
      × ((other : Text)
          → child other (remove_bucket bucket (create_bucket metadata bucket state).0).0.storage
            ≡ child other state.storage)
unfolding new_dir
remove_bucket-create_bucket metadata bucket state e =
    let (ok, stored) = create_bucket-absent metadata bucket state e in
    let made = ap (child bucket) stored ∙ child-put_child bucket (new_dir metadata) state.storage in
    let (gone, left) =
      remove_bucket-empty bucket (create_bucket metadata bucket state).0
        (entry (codes ".bucket_metadata") (file metadata) nil) made (new_dir_hidden metadata) in
    (
      gone,
      λ other. ap (child other) left ∙ by_name other (Bool-cases (text_eq bucket other)) stored,
    )
  where
    by_name :
        (other : Text)
        → (text_eq bucket other ≡ true) ⊎ (text_eq bucket other ≡ false)
        → (create_bucket metadata bucket state).0.storage
          ≡ put_child bucket (new_dir metadata) state.storage
        → child other (remove_child bucket (create_bucket metadata bucket state).0.storage)
          ≡ child other state.storage
    by_name other (inl same) stored =
        subst
          (λ v.
            child v (remove_child bucket (create_bucket metadata bucket state).0.storage)
            ≡ child v state.storage)
          ((text_eq_iff bucket other).0 same)
          (child-remove_child bucket (create_bucket metadata bucket state).0.storage ∙ sym e)
    by_name other (inr apart) stored =
        child-remove_child_other bucket other (create_bucket metadata bucket state).0.storage apart
        ∙ ap (child other) stored
        ∙ child-put_child_other bucket other (new_dir metadata) state.storage apart

-- ===== src/Filesystem/Config.antt =====
-- Reading, writing and deleting the configuration files of a bucket.
use ironbucket.Base.{
  ◌≡◌, refl, sym, subst, ◌≢◌, ◌⊎◌, inl, inr, false, Option, none, some, Bool-cases, Option-cases,
}
use ironbucket.Base.Text.{Text, text_eq, text_eq_iff, text_eq_refl, ne→text_eq}
use ironbucket.Disk.{
  Node, file, dir, Entries, nil, entry, is_dir, child, put_child, remove_child, find, read_file,
  write_file, remove_file, dir_at,
}
use ironbucket.Filesystem.{
  read_bucket_file, delete_bucket_file, read_bucket_json, write_bucket_json, parsed,
}

pub child-put_child :
    (name : Text) (node : Node) (es : Entries) → child name (put_child name node es) ≡ some node
unfolding child put_child
child-put_child name node nil = rw (text_eq_refl name)
child-put_child name node (entry n old rest) = elim (Bool-cases (text_eq n name)) [
  | inl e ↦ rw (e, child, e)
  | inr e ↦ rw (e, child, e, child-put_child name node rest)
]

pub child-put_child_other :
    (name other : Text) (node : Node) (es : Entries)
    → text_eq name other ≡ false
    → child other (put_child name node es) ≡ child other es
unfolding child put_child
child-put_child_other name other node nil h = rw h
child-put_child_other name other node (entry n old rest) h = elim (Bool-cases (text_eq n name)) [
  | inl e ↦
      let apart : text_eq n other ≡ false = rw ((text_eq_iff n name).0 e) h in rw (e, child, apart)
  | inr e ↦ rw (e, child, child-put_child_other name other node rest h)
]

pub child-remove_child : (name : Text) (es : Entries) → child name (remove_child name es) ≡ none
unfolding child remove_child
child-remove_child name nil = refl
child-remove_child name (entry n old rest) = elim (Bool-cases (text_eq n name)) [
  | inl e ↦ rw (e, child-remove_child name rest)
  | inr e ↦ rw (e, child, e, child-remove_child name rest)
]

pub child-remove_child_other :
    (name other : Text) (es : Entries)
    → text_eq name other ≡ false
    → child other (remove_child name es) ≡ child other es
unfolding child remove_child
child-remove_child_other name other nil h = refl
child-remove_child_other name other (entry n old rest) h = elim (Bool-cases (text_eq n name)) [
  | inl e ↦
      let apart : text_eq n other ≡ false = rw ((text_eq_iff n name).0 e) h in
      rw (e, child, apart, child-remove_child_other name other rest h)
  | inr e ↦ rw (e, child, child-remove_child_other name other rest h)
]

-- The tree behind a write.
unfoldable pub after_write : Entries → Text → Text → Text → Entries → Entries
unfolding put_child
after_write storage bucket name contents es =
    put_child bucket (dir (put_child name (file contents) es)) storage

pub write_file-some :
    (storage : Entries) (bucket name contents : Text) (es : Entries)
    → child bucket storage ≡ some (dir es)
    → dir_at name es ≡ false
    → write_file storage bucket name contents ≡ some (after_write storage bucket name contents es)
unfolding write_file after_write
write_file-some storage bucket name contents es h d = rw (write_file, h, d)

find-after_write :
    (storage : Entries) (bucket name contents : Text) (es : Entries)
    → find (after_write storage bucket name contents es) bucket name ≡ some (file contents)
unfolding find after_write
find-after_write storage bucket name contents es = rw (
  find,
  child-put_child bucket (dir (put_child name (file contents) es)) storage,
  child-put_child name (file contents) es,
)

find-after_write_other :
    (storage : Entries) (bucket name contents : Text) (es : Entries) (b n : Text)
    → child bucket storage ≡ some (dir es)
    → (b ≢ bucket) ⊎ (n ≢ name)
    → find (after_write storage bucket name contents es) b n ≡ find storage b n
unfolding find after_write
find-after_write_other storage bucket name contents es b n h apart =
    elim (Bool-cases (text_eq bucket b)) [
      | inl e ↦ elim apart [
        | inl ne ↦ absurd (ne (sym ((text_eq_iff bucket b).0 e)))
        | inr ne ↦
            let other = ne→text_eq name n (λ q. ne (sym q)) in
            subst (λ v. find (after_write storage bucket name contents es) v n ≡ find storage v n)
              ((text_eq_iff bucket b).0 e)
              (rw (
                find,
                child-put_child bucket (dir (put_child name (file contents) es)) storage,
                h,
                child-put_child_other name n (file contents) es other,
              ))
      ]
      | inr e ↦
          rw (
            find,
            child-put_child_other bucket b (dir (put_child name (file contents) es)) storage e,
          )
    ]

find-after_write_or :
    (storage : Entries) (bucket name contents : Text) (es : Entries) (b n : Text)
    → child bucket storage ≡ some (dir es)
    → (find (after_write storage bucket name contents es) b n ≡ find storage b n)
      ⊎ ((b ≡ bucket) × (n ≡ name))
find-after_write_or storage bucket name contents es b n h = elim (Bool-cases (text_eq b bucket)) [
  | inr e ↦ inl (other (inl (λ q. absurd (cc (e, (text_eq_iff b bucket).1 q)))))
  | inl e ↦ elim (Bool-cases (text_eq n name)) [
    | inr f ↦ inl (other (inr (λ q. absurd (cc (f, (text_eq_iff n name).1 q)))))
    | inl f ↦ inr ((text_eq_iff b bucket).0 e, (text_eq_iff n name).0 f)
  ]
]
  where
    other :
        (b ≢ bucket) ⊎ (n ≢ name)
        → find (after_write storage bucket name contents es) b n ≡ find storage b n
    other apart = find-after_write_other storage bucket name contents es b n h apart

pub read_bucket_file-after_write :
    (storage : Entries) (bucket name contents : Text) (es : Entries)
    → read_bucket_file name (after_write storage bucket name contents es) bucket ≡ some contents
unfolding read_bucket_file read_file
read_bucket_file-after_write storage bucket name contents es =
    rw (read_file, find-after_write storage bucket name contents es)

module _ {C : Type 0} (from_str : Text → Option C) (to_string_pretty : C → Option Text) where
  -- Where the bucket is a directory in which no directory has the configuration's file name, and
  -- JSON reads back what it printed: writing a configuration succeeds, reading it gives it back,
  -- and every other path of two names holds what it held.
  pub read_bucket_json-write_bucket_json :
      (name : Text) (storage : Entries) (bucket : Text) (config : C) (json : Text) (es : Entries)
      → to_string_pretty config ≡ some json
      → from_str json ≡ some config
      → child bucket storage ≡ some (dir es)
      → dir_at name es ≡ false
      → (s : Entries) × (write_bucket_json to_string_pretty name storage bucket config ≡ some s)
        × (read_bucket_json from_str name s bucket ≡ some config)
        × ((b n : Text) → (find s b n ≡ find storage b n) ⊎ ((b ≡ bucket) × (n ≡ name)))
  unfolding read_bucket_json write_bucket_json
  read_bucket_json-write_bucket_json name storage bucket config json es p f h d = (
    after_write storage bucket name json es,
    (rw (write_bucket_json, p) (write_file-some storage bucket name json es h d)),
    (rw (read_bucket_json, read_bucket_file-after_write storage bucket name json es, parsed, f)),
    λ b n. find-after_write_or storage bucket name json es b n h,
  )

pub find-remove :
    (storage : Entries) (bucket name : Text) (es : Entries)
    → find (put_child bucket (dir (remove_child name es)) storage) bucket name ≡ none
unfolding find
find-remove storage bucket name es =
    rw (
      find,
      child-put_child bucket (dir (remove_child name es)) storage,
      child-remove_child name es,
    )

remove_file-find :
    (storage s : Entries) (bucket name : Text)
    → remove_file storage bucket name ≡ some s
    → find s bucket name ≡ none
unfolding remove_file
remove_file-find storage s bucket name h = by_bucket (child bucket storage) refl
  where
    by_entry :
        (es : Entries) (o : Option Node)
        → child bucket storage ≡ some (dir es)
        → child name es ≡ o
        → find s bucket name ≡ none
    by_entry es none e f = let k = rw (remove_file, e, f) at h in absurd (cc)
    by_entry es (some (dir ds)) e f = let k = rw (remove_file, e, f, is_dir) at h in absurd (cc)
    by_entry es (some (file contents)) e f =
        let same : some (put_child bucket (dir (remove_child name es)) storage) ≡ some s =
          rw (remove_file, e, f, is_dir) at h in
        subst (λ t. find t bucket name ≡ none) (cc) (find-remove storage bucket name es)

    by_bucket : (o : Option Node) → child bucket storage ≡ o → find s bucket name ≡ none
    by_bucket none e = let k = rw (remove_file, e) at h in absurd (cc)
    by_bucket (some (file contents)) e = let k = rw (remove_file, e) at h in absurd (cc)
    by_bucket (some (dir es)) e = by_entry es (child name es) e refl

-- What is left where the file was.
delete_bucket_file-find :
    (name : Text) (storage s : Entries) (bucket : Text)
    → delete_bucket_file name storage bucket ≡ some s
    → find s bucket name ≡ none
unfolding delete_bucket_file
delete_bucket_file-find name storage s bucket h = elim (Option-cases (find storage bucket name)) [
  | inl e ↦
      let same : some storage ≡ some s = rw (delete_bucket_file, e) at h in
      subst (λ t. find t bucket name ≡ none) (cc) e
  | inr (node, e) ↦ remove_file-find storage s bucket name (rw (delete_bucket_file, e) at h)
]

-- Deleting the configuration file of a bucket: when it succeeds, nothing is read from it any more,
-- and deleting it again succeeds and changes nothing.
pub delete_bucket_file-read :
    (name : Text) (storage s : Entries) (bucket : Text)
    → delete_bucket_file name storage bucket ≡ some s
    → (read_bucket_file name s bucket ≡ none) × (delete_bucket_file name s bucket ≡ some s)
unfolding delete_bucket_file read_bucket_file
delete_bucket_file-read name storage s bucket h =
    let gone = delete_bucket_file-find name storage s bucket h in
    (rw (read_bucket_file, gone), rw (delete_bucket_file, gone))

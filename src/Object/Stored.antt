-- ===== src/Object/Stored.antt =====
-- What an upload leaves as it was, and what is read behind it.
use ironbucket.Base.{
  ◌≡◌, refl, sym, subst, ◌⊎◌, inl, inr, ◌||◌, Option, none, some, List, [], ◌∷◌, ◌++◌, length,
  Bool-cases, Option-cases, In, is_empty,
}
use ironbucket.Base.Text.{Text, codes, text_eq, ends_with}
use ironbucket.Filesystem.{read_bucket_versioning}
use ironbucket.Paths.Touches.{Touches-Keeps, Touches-within}
use ironbucket.Paths.{Tree, PathBuf, join, write, parent}
use ironbucket.Paths.Frames.{
  Keeps, Keeps-refl, Keeps-trans, Changed-Keeps, write-Changed, create_dir_all-Keeps,
}
use ironbucket.Object.{
  Library, Moment, ObjectState, ObjectMetadata, ObjectEncryption, HeaderMap, bucket_path,
  object_path, metadata_path, versions_dir, make_dirs, make_parent, try_write, plain_data,
  storage_entries,
}
pub use ironbucket.Object.Charged.{
  SameFiles, Charged, Charged-refl, with_quota-Charged, increment_stat-SameFiles, Charged-SameFiles,
  account-Charged,
}
unfoldable pub use ironbucket.Object.Charged.{quota_paths}
use ironbucket.Object.Write.{
  version_of, save_version, prepare, sealed, bucket_algorithm, new_metadata, account, put_file,
  put_data, put_folder, with_bucket,
}

pub write-Keeps :
    (ps : List PathBuf) (t t' : Tree) (p : PathBuf) (contents : Text)
    → In p ps
    → write t p contents ≡ some t'
    → Keeps ps t t'
write-Keeps ps t t' p contents i h =
    let (l, e, changed) = write-Changed t t' p contents h in
    Changed-Keeps (some contents) l t t' p ps i e changed

pub try_write-Keeps :
    (ps : List PathBuf) (t : Tree) (p : PathBuf) (contents : Option Text)
    → In p ps
    → Keeps ps t (try_write p contents t)
unfolding try_write
try_write-Keeps ps t p none i = Keeps-refl ps t
try_write-Keeps ps t p (some contents) i = elim (Option-cases (write t p contents)) [
  | inl e ↦ rw (try_write, e) (Keeps-refl ps t)
  | inr (t', e) ↦ rw (try_write, e) (write-Keeps ps t t' p contents i e)
]

pub make_dirs-Keeps : (ps : List PathBuf) (t : Tree) (p : PathBuf) → Keeps ps t (make_dirs p t)
unfolding make_dirs
make_dirs-Keeps ps t p = create_dir_all-Keeps ps t p

pub make_parent-Keeps : (ps : List PathBuf) (t : Tree) (p : PathBuf) → Keeps ps t (make_parent p t)
unfolding make_parent
make_parent-Keeps ps t p = elim (Option-cases (parent p)) [
  | inl e ↦ rw (make_parent, e) (Keeps-refl ps t)
  | inr (q, e) ↦ rw (make_parent, e) (make_dirs-Keeps ps t q)
]

-- The paths that an upload may write to: the object and its metadata, those of its version, and those
-- of the bucket's quota.
unfoldable pub written_paths : Text → Text → PathBuf → Text → List PathBuf
unfolding object_path metadata_path versions_dir join quota_paths
written_paths bucket key storage vid =
    object_path storage bucket key
    ∷ metadata_path storage bucket key
    ∷ join (versions_dir storage bucket key) vid
    ∷ join (versions_dir storage bucket key) (vid ++ codes ".metadata")
    ∷ quota_paths storage bucket

version_of-cases :
    (moment : Moment) (bucket : Text) (storage : PathBuf) (t : Tree)
    → (version_of moment bucket storage t ≡ none)
      ⊎ (version_of moment bucket storage t ≡ some moment.uuid)
unfolding version_of
version_of-cases moment bucket storage t =
    elim (Option-cases (read_bucket_versioning (storage_entries t storage) bucket)) [
      | inl e ↦ inl (rw (version_of, e) refl)
      | inr (status, e) ↦ elim (Bool-cases (text_eq status (codes "Enabled"))) [
        | inl f ↦ inr (rw (version_of, e, f) refl)
        | inr f ↦ inl (rw (version_of, e, f) refl)
      ]
    ]

-- What the charge of the quota does, for whoever keeps all but the written paths.
pub Charged-Keeps :
    (bucket key vid : Text) (s s' : ObjectState)
    → Charged bucket s s'
    → Keeps (written_paths bucket key s.storage_path vid) s.files s'.files
unfolding written_paths
Charged-Keeps bucket key vid s s' c =
    Touches-Keeps (written_paths bucket key s.storage_path vid) s.files s'.files (
      Touches-within (quota_paths s.storage_path bucket)
        (written_paths bucket key s.storage_path vid) s.files s'.files
        (λ p i. inr (inr (inr (inr i)))) c.touches)

module _ (lib : Library) (moment : Moment) (bucket key : Text) (headers : HeaderMap) where
  save_version-Keeps :
      (content : Text) (storage : PathBuf) (v : Option Text) (t : Tree)
      → (v ≡ none) ⊎ (v ≡ some moment.uuid)
      → Keeps
          (written_paths bucket key storage moment.uuid)
          t
          (save_version lib moment bucket key headers content storage v t)
  unfolding save_version written_paths
  save_version-Keeps content storage v t (inl e) =
      rw (e) (Keeps-refl (written_paths bucket key storage moment.uuid) t)
  save_version-Keeps content storage v t (inr e) =
      let ps = written_paths bucket key storage moment.uuid in
      let made = make_dirs (versions_dir storage bucket key) t in
      let vp = join (versions_dir storage bucket key) moment.uuid in
      let kept = try_write vp (some content) made in
      rw (e) (
        Keeps-trans ps t made _ (make_dirs-Keeps ps t (versions_dir storage bucket key)) (
          Keeps-trans ps made kept _
            (try_write-Keeps ps made vp (some content) (inr (inr (inl refl))))
            (try_write-Keeps ps kept
              (join (versions_dir storage bucket key) (moment.uuid ++ codes ".metadata"))
              (lib.metadata_to_string _) (inr (inr (inr (inl refl)))))))

  prepare-Keeps :
      (content : Text) (storage : PathBuf) (v : Option Text) (t : Tree)
      → (v ≡ none) ⊎ (v ≡ some moment.uuid)
      → Keeps
          (written_paths bucket key storage moment.uuid)
          t
          (prepare lib moment bucket key headers content storage v t)
  unfolding prepare
  prepare-Keeps content storage v t h =
      let ps = written_paths bucket key storage moment.uuid in
      let t₁ = make_parent (object_path storage bucket key) t in
      let t₂ = save_version lib moment bucket key headers content storage v t₁ in
      Keeps-trans ps t t₁ _ (make_parent-Keeps ps t (object_path storage bucket key)) (
        Keeps-trans ps t₁ t₂ _ (save_version-Keeps content storage v t₁ h)
          (make_parent-Keeps ps t₂ (metadata_path storage bucket key)))

  -- The parts of `put_file`: what is there before the write, and the bytes to write.
  abbrev pub put_version : ObjectState → Option Text
  put_version s =
      version_of moment bucket s.storage_path
        (make_parent (object_path s.storage_path bucket key) s.files)

  abbrev pub prepared : Text → ObjectState → Tree
  prepared content s =
      prepare lib moment bucket key headers content s.storage_path (put_version s) s.files

  abbrev pub put_sealed : Text → ObjectState → Text × Option ObjectEncryption
  put_sealed content s =
      sealed lib moment content (bucket_algorithm lib bucket s.storage_path (prepared content s))

  abbrev pub put_metadata : Text → ObjectState → ObjectMetadata
  put_metadata content s =
      new_metadata lib moment key headers (lib.md5 content) (length (put_sealed content s).0) []
        (put_version s) (put_sealed content s).1

  -- Either the write of the object fails, and the upload with it, or the metadata follow.
  pub put_file-cases :
      (content : Text) (s : ObjectState)
      → ((write
              (prepared content s)
              (object_path s.storage_path bucket key)
              (put_sealed content s).0
            ≡ none)
          × ((put_file lib moment bucket key headers content s).0.files ≡ prepared content s)
          × ((put_file lib moment bucket key headers content s).1.status ≡ 500))
        ⊎ ((t' : Tree) × (write
                (prepared content s)
                (object_path s.storage_path bucket key)
                (put_sealed content s).0
              ≡ some t')
            × Charged bucket
                (record s {
                  files =
                      try_write
                        (metadata_path s.storage_path bucket key)
                        (lib.metadata_to_string (put_metadata content s))
                        t';
                })
                (put_file lib moment bucket key headers content s).0
            × ((put_file lib moment bucket key headers content s).1.status ≡ 200))
  unfolding put_file
  put_file-cases content s =
      elim (Option-cases (
        write (prepared content s) (object_path s.storage_path bucket key)
          (put_sealed content s).0)) [
            | inl e ↦ inl (e, rw (put_file, e) refl, rw (put_file, e) refl)
            | inr (t', e) ↦
                let stored : ObjectState = record s {
                  files =
                      try_write (metadata_path s.storage_path bucket key)
                        (lib.metadata_to_string (put_metadata content s)) t';
                } in
                let whole : (put_file lib moment bucket key headers content s).0
                    ≡ account lib moment bucket key (length (put_sealed content s).0)
                        (lib.md5 content) stored =
                  rw (put_file, e) refl in
                inr (
                  t',
                  e,
                  subst (Charged bucket stored) (sym whole) (
                      account-Charged lib moment bucket key (length (put_sealed content s).0)
                        (lib.md5 content) stored),
                  rw (put_file, e) refl,
                )
          ]

  pub put_file-Keeps :
      (content : Text) (s : ObjectState)
      → Keeps
          (written_paths bucket key s.storage_path moment.uuid)
          s.files
          (put_file lib moment bucket key headers content s).0.files
  unfolding written_paths
  put_file-Keeps content s =
      let ps = written_paths bucket key s.storage_path moment.uuid in
      let t = prepared content s in
      let before = prepare-Keeps content s.storage_path (put_version s) s.files (
        version_of-cases moment bucket s.storage_path
          (make_parent (object_path s.storage_path bucket key) s.files)) in
      elim (put_file-cases content s) [
        | inl (e, f, g) ↦ rw (f) before
        | inr (t', e, c, g) ↦ Keeps-trans ps s.files t _ before (
            Keeps-trans ps t t' _ (write-Keeps ps t t' _ _ (inl refl) e) (
              Keeps-trans ps t' _ _ (try_write-Keeps ps t' _ _ (inr (inl refl)))
                (Charged-Keeps bucket key moment.uuid _ _ c)))
      ]

  pub put_data-Keeps :
      (body : Text) (s : ObjectState)
      → Keeps
          (written_paths bucket key s.storage_path moment.uuid)
          s.files
          (put_data lib moment bucket key headers body s).0.files
  unfolding put_data put_folder with_bucket
  put_data-Keeps body s =
      let ps = written_paths bucket key s.storage_path moment.uuid in
      let s' = with_bucket lib bucket s in
      let before = make_dirs-Keeps ps s.files (bucket_path s.storage_path bucket) in
      elim (Option-cases (plain_data body)) [
        | inl p ↦ rw (put_data, p) (Keeps-refl ps s.files)
        | inr (content, p) ↦ elim (Bool-cases (ends_with key (codes "/") || is_empty key)) [
          | inr e ↦
              rw (put_data, p, e)
                (Keeps-trans ps s.files s'.files _ before (put_file-Keeps content s'))
          | inl e ↦ elim (Bool-cases (text_eq key (codes "/") || is_empty key)) [
            | inl f ↦ rw (put_data, p, e, f) before
            | inr f ↦
                rw (put_data, p, e, f)
                  (Keeps-trans ps s.files s'.files _ before
                    (create_dir_all-Keeps ps s'.files (object_path s.storage_path bucket key)))
          ]
        ]
      ]

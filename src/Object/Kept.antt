-- ===== src/Object/Kept.antt =====
-- What an upload or a copy leaves as it was.
use ironbucket.Base.{◌≡◌, refl, ◌⊎◌, inl, inr, some, [], length, Option-cases}
use ironbucket.Base.Text.{Text, codes}
use ironbucket.Paths.{Location, PathBuf, read, resolve, write}
use ironbucket.Paths.Frames.{Keeps, Keeps-refl, Keeps-trans, Keeps-read, Leads}
use ironbucket.Object.{
  Library, Moment, ObjectState, HeaderMap, bucket_path, object_path, metadata_path, make_dirs,
  make_parent, try_write, data_file, metadata_file, get_header, unwrap_or,
}
use ironbucket.Object.Copy.{copy_source, copy_metadata, copy_bytes, copy_object, put_object}
use ironbucket.Object.Write.{account}
use ironbucket.Object.Stored.{
  write-Keeps, try_write-Keeps, make_dirs-Keeps, make_parent-Keeps, written_paths, put_data-Keeps,
  account-Charged, Charged-Keeps,
}

module _ (lib : Library) (moment : Moment) (bucket key : Text) (headers : HeaderMap) where
  copy_bytes-Keeps :
      (source : PathBuf) (content : Text) (s : ObjectState)
      → Keeps
          (written_paths bucket key s.storage_path moment.uuid)
          s.files
          (copy_bytes lib moment bucket key headers source content s).0.files
  unfolding copy_bytes written_paths
  copy_bytes-Keeps source content s =
      let ps = written_paths bucket key s.storage_path moment.uuid in
      let path = object_path s.storage_path bucket key in
      let made = make_dirs (bucket_path s.storage_path bucket) s.files in
      let t = make_parent path made in
      let before =
        Keeps-trans ps s.files made t
          (make_dirs-Keeps ps s.files (bucket_path s.storage_path bucket))
          (make_parent-Keeps ps made path) in
      elim (Option-cases (write t path content)) [
        | inl e ↦ rw (copy_bytes, e) before
        | inr (t', e) ↦
            let json = copy_metadata lib moment key headers content source t' in
            let mp = metadata_path s.storage_path bucket key in
            let u = try_write mp json t' in
            let stored : ObjectState = record s { files = u } in
            let charged = account lib moment bucket key (length content) (lib.md5 content) stored in
            rw (copy_bytes, e)
              (Keeps-trans ps s.files t charged.files before (
                Keeps-trans ps t t' charged.files (write-Keeps ps t t' path content (inl refl) e) (
                  Keeps-trans ps t' u charged.files (try_write-Keeps ps t' mp json (inr (inl refl)))
                    (Charged-Keeps bucket key moment.uuid stored charged (
                      account-Charged lib moment bucket key (length content) (lib.md5 content)
                        stored)))))
      ]

  copy_object-Keeps :
      (header : Text) (s : ObjectState)
      → Keeps
          (written_paths bucket key s.storage_path moment.uuid)
          s.files
          (copy_object lib moment bucket key headers header s).0.files
  unfolding copy_object
  copy_object-Keeps header s =
      let ps = written_paths bucket key s.storage_path moment.uuid in
      elim (Option-cases (copy_source header)) [
        | inl e ↦ rw (copy_object, e) (Keeps-refl ps s.files)
        | inr (source, e) ↦
            let source_key = unwrap_or source.key (lib.url_decode source.key) in
            let path = data_file s.storage_path source.bucket source_key source.version_id in
            let meta = metadata_file s.storage_path source.bucket source_key source.version_id in
            elim (Option-cases (read s.files path)) [
              | inl f ↦ rw (copy_object, e, f) (Keeps-refl ps s.files)
              | inr (content, f) ↦ rw (copy_object, e, f) (copy_bytes-Keeps meta content s)
            ]
      ]

  put_object-Keeps :
      (body : Text) (s : ObjectState)
      → Keeps
          (written_paths bucket key s.storage_path moment.uuid)
          s.files
          (put_object lib moment bucket key headers body s).0.files
  unfolding put_object
  put_object-Keeps body s = elim (Option-cases (get_header (codes "x-amz-copy-source") headers)) [
    | inl e ↦ rw (put_object, e) (put_data-Keeps lib moment bucket key headers body s)
    | inr (source, e) ↦ rw (put_object, e) (copy_object-Keeps (unwrap_or [] source) s)
  ]

  -- An upload or a copy, whether it succeeds or not: a file that was read at a path before is read
  -- there afterwards with the same contents, unless the path then leads to the place of the object,
  -- of its metadata file, of its new version or that version's metadata file, or of the bucket's
  -- quota file or that file's temporary one.
  pub put_object-read :
      (body : Text) (s : ObjectState) (p : PathBuf) (contents : Text)
      → read s.files p ≡ some contents
      → (read (put_object lib moment bucket key headers body s).0.files p ≡ some contents)
        ⊎ ((q : Location) × (resolve (put_object lib moment bucket key headers body s).0.files [] p
              ≡ some q)
            × Leads
                (put_object lib moment bucket key headers body s).0.files
                q
                (written_paths bucket key s.storage_path moment.uuid))
  put_object-read body s p contents h =
      Keeps-read (written_paths bucket key s.storage_path moment.uuid) s.files
        (put_object lib moment bucket key headers body s).0.files p contents
        (put_object-Keeps body s) h

-- ===== src/Object/Fetched.antt =====
-- What `get_object` gives for an object behind its upload.
use ironbucket.Base.{
  ◌≡◌, refl, ap, subst, ◌∙◌, ◌≢◌, ◌⊎◌, inl, inr, ℕ, true, false, Option, none, some, [], ◌∷◌,
  Bool-cases, Option-cases, is_empty, arith,
}
use ironbucket.Base.Text.{Text, codes, text_eq, ends_with, is_some, Lacks-test}
use ironbucket.Paths.{Tree, PathBuf, Location, read, write, resolve, loc_eq}
use ironbucket.Paths.Frames.{Changed, write-Changed, resolve-same, loc_eq→eq}
use ironbucket.Paths.Reads.{read-Changed, read-Changed_other, read-write-none}
use ironbucket.Paths.Suffix.{join-apart}
use ironbucket.Object.{
  Library, Moment, ObjectState, ObjectMetadata, HeaderMap, Reply, bucket_path, object_path,
  metadata_path, try_write, plain_data, data_file, metadata_file, old_version, unwrap_or,
}
use ironbucket.Object.Fetch.{read_metadata, get_reply, opened, get_object, decrypt_data}
use ironbucket.Object.Write.{
  sealed, encrypt_data, new_metadata, bucket_algorithm, put_file, put_data, with_bucket,
}
use ironbucket.Object.Stored.{put_file-cases, put_sealed, put_metadata, prepared, quota_paths}
use ironbucket.Paths.Touches.{Touches, LeadsTo, Touches-read}

-- Both files behind the two writes; the second one may have failed.
try_write-read :
    (t t' : Tree) (p m : PathBuf) (contents json : Text)
    → ((q : Location) → resolve t' [] p ≡ some q → resolve t' [] m ≢ some q)
    → write t p contents ≡ some t'
    → (read (try_write m (some json) t') p ≡ some contents)
      × ((read (try_write m (some json) t') m ≡ some json)
          ⊎ (read (try_write m (some json) t') m ≡ none))
unfolding try_write Changed
try_write-read t t' p m contents json apart h =
    let (l, e, changed) = write-Changed t t' p contents h in
    let first = read-Changed t t' p l contents e changed in
    let led = resolve-same t t' changed.0 [] p ∙ e in
    elim (Option-cases (write t' m json)) [
      | inl f ↦ (rw (try_write, f) first, inr (rw (try_write, f) (read-write-none t' m json f)))
      | inr (u, f) ↦
          let (k, g, changed') = write-Changed t' u m json f in
          let other : loc_eq k l ≡ false = elim (Bool-cases (loc_eq k l)) [
            | inr n ↦ n
            | inl n ↦ absurd (apart l led (g ∙ ap some (loc_eq→eq k l n)))
          ] in
          (
            rw (try_write, f)
                (read-Changed_other t' u p l k (some json) led other changed' ∙ first),
            inl (rw (try_write, f) (read-Changed t' u m k json g changed')),
          )
    ]

metadata_path-apart :
    (t : Tree) (storage : PathBuf) (bucket key : Text) (q : Location)
    → is_empty key ≡ false
    → resolve t [] (object_path storage bucket key) ≡ some q
    → resolve t [] (metadata_path storage bucket key) ≢ some q
unfolding object_path metadata_path
metadata_path-apart t storage bucket [] q n e k = absurd (cc)
metadata_path-apart t storage bucket (x ∷ key) q n e k =
    join-apart t q (bucket_path storage bucket) x key (codes ".metadata")
      (Lacks-test b'/' (codes ".metadata") refl) (omega arith) e k

module _ (lib : Library)
    (base64_round_trip : (text : Text) → lib.base64_decode (lib.base64_encode text) ≡ some text)
    (decrypt-encrypt : (k n plain ciphertext : Text)
      → lib.encrypt k n plain ≡ some ciphertext
      → lib.decrypt k n ciphertext ≡ some plain) where
  -- What is sealed by any algorithm is opened to what it was.
  pub opened-sealed :
      (moment : Moment) (content : Text) (algorithm : Option Text)
      → (header : Option Text) × (opened lib
            (sealed lib moment content algorithm).0
            (sealed lib moment content algorithm).1
          ≡ some (content, header))
  unfolding opened sealed encrypt_data decrypt_data unwrap_or text_eq
  opened-sealed moment content none = (none, refl)
  opened-sealed moment content (some algorithm) =
      elim (Bool-cases (text_eq algorithm (codes "AES256"))) [
        | inr e ↦ (none, rw (e) refl)
        | inl e ↦ elim (Option-cases (lib.encrypt moment.encryption_key moment.nonce content)) [
          | inl f ↦ (none, rw (e, f) refl)
          | inr (ciphertext, f) ↦ (
            some (codes "AES256"),
            rw
                (
                  e,
                  f,
                  base64_round_trip moment.encryption_key,
                  base64_round_trip moment.nonce,
                  decrypt-encrypt moment.encryption_key moment.nonce content ciphertext f,
                )
                refl,
          )
        ]
      ]

sealed-plain :
    (lib : Library) (moment : Moment) (content : Text) (algorithm : Option Text)
    → (sealed lib moment content algorithm).1 ≡ none
    → (sealed lib moment content algorithm).0 ≡ content
unfolding sealed encrypt_data
sealed-plain lib moment content none h = refl
sealed-plain lib moment content (some algorithm) h =
    elim (Bool-cases (text_eq algorithm (codes "AES256"))) [
      | inr e ↦ rw (e) refl
      | inl e ↦ elim (Option-cases (lib.encrypt moment.encryption_key moment.nonce content)) [
        | inl f ↦ rw (e, f) refl
        | inr (ciphertext, f) ↦ let k = rw (e, f) at h in absurd (cc)
      ]
    ]

get_object-read :
    (lib : Library) (moment : Moment) (bucket key : Text) (s : ObjectState) (content : Text)
    → read s.files (object_path s.storage_path bucket key) ≡ some content
    → get_object lib moment bucket key none s
      ≡ get_reply lib moment.now content
          (read_metadata lib s.files (metadata_path s.storage_path bucket key))
unfolding get_object data_file metadata_file old_version
get_object-read lib moment bucket key s content h = rw (get_object, h) refl

-- Data that come back whole, whatever the headers.
pub Gives : Text → Reply → Type 0
Gives content r = (r.status ≡ 200) × (r.body ≡ content)

get_reply-Gives :
    (lib : Library) (now : ℕ) (stored content : Text) (m : ObjectMetadata) (header : Option Text)
    → opened lib stored m.encryption ≡ some (content, header)
    → Gives content (get_reply lib now stored (some m))
unfolding get_reply Gives
get_reply-Gives lib now stored content m header h = (rw (get_reply, h) refl, rw (get_reply, h) refl)

-- The object or its metadata stand where a quota file of the bucket does.
abbrev pub AtQuota : Text → Text → PathBuf → Tree → Type 0
AtQuota bucket key storage t =
    LeadsTo t (object_path storage bucket key) (quota_paths storage bucket)
    ⊎ LeadsTo t (metadata_path storage bucket key) (quota_paths storage bucket)

-- By the two files, of which the one with the metadata may be missing.
files-Gives :
    (lib : Library) (later : Moment) (bucket key : Text) (s : ObjectState) (storage : PathBuf)
    (final content json : Text) (m : ObjectMetadata) (header : Option Text)
    → s.storage_path ≡ storage
    → read s.files (object_path storage bucket key) ≡ some final
    → (read s.files (metadata_path storage bucket key) ≡ some json)
      ⊎ ((read s.files (metadata_path storage bucket key) ≡ none) × (final ≡ content))
    → lib.metadata_from_str json ≡ some m
    → opened lib final m.encryption ≡ some (content, header)
    → Gives content (get_object lib later bucket key none s)
unfolding read_metadata get_reply Gives
files-Gives lib later bucket key s storage final content json m header p r found parse unsealed =
    let r' : read s.files (object_path s.storage_path bucket key) ≡ some final = rw (p) r in
    let answer = get_object-read lib later bucket key s final r' in
    elim found [
      | inl e ↦
          rw (answer, p, read_metadata, e, parse)
            (get_reply-Gives lib later.now final content m header unsealed)
      | inr (e, same) ↦
          (rw (answer, p, read_metadata, e) refl, rw (answer, p, read_metadata, e) same)
    ]

module _ (lib : Library)
    (base64_round_trip : (text : Text) → lib.base64_decode (lib.base64_encode text) ≡ some text)
    (decrypt-encrypt : (k n plain ciphertext : Text)
      → lib.encrypt k n plain ≡ some ciphertext
      → lib.decrypt k n ciphertext ≡ some plain)
    (moment later : Moment) (bucket key : Text) (headers : HeaderMap) where
  put_file-get_object :
      (content : Text) (s : ObjectState) (json : Text)
      → is_empty key ≡ false
      → (put_file lib moment bucket key headers content s).1.status ≡ 200
      → lib.metadata_to_string (put_metadata lib moment bucket key headers content s) ≡ some json
      → lib.metadata_from_str json ≡ some (put_metadata lib moment bucket key headers content s)
      → ((put_sealed lib moment bucket key headers content s).1 ≡ none)
        ⊎ (is_some (
              read
                (put_file lib moment bucket key headers content s).0.files
                (metadata_path s.storage_path bucket key))
            ≡ true)
      → Gives content (
          get_object lib later bucket key none (put_file lib moment bucket key headers content s).0)
        ⊎ AtQuota bucket key s.storage_path
            (put_file lib moment bucket key headers content s).0.files
  unfolding object_path metadata_path new_metadata
  put_file-get_object content s json n ok print parse plain =
      elim (put_file-cases lib moment bucket key headers content s) [
        | inl (e, f, g) ↦ absurd (omega (arith, g, ok))
        | inr (t', e, c, g) ↦
            let algorithm =
              bucket_algorithm lib bucket s.storage_path
                (prepared lib moment bucket key headers content s) in
            let sent = put_sealed lib moment bucket key headers content s in
            let after = (put_file lib moment bucket key headers content s).0 in
            let op = object_path s.storage_path bucket key in
            let mp = metadata_path s.storage_path bucket key in
            let ps = quota_paths s.storage_path bucket in
            let u = try_write mp (some json) t' in
            let touched : Touches ps u after.files =
              subst (λ o. Touches ps (try_write mp o t') after.files) print c.touches in
            let (first, second) =
              try_write-read (prepared lib moment bucket key headers content s) t' op mp sent.0 json
                (λ q. metadata_path-apart t' s.storage_path bucket key q n) e in
            let (header, unsealed) =
              opened-sealed lib base64_round_trip decrypt-encrypt moment content algorithm in
            elim (Touches-read ps u after.files op touched) [
              | inr leads ↦ inr (inl leads)
              | inl f ↦ elim (Touches-read ps u after.files mp touched) [
                | inr leads ↦ inr (inr leads)
                | inl f' ↦ inl (
                    files-Gives lib later bucket key after s.storage_path sent.0 content json
                      (put_metadata lib moment bucket key headers content s) header c.same_storage
                      (f ∙ first)
                      (elim second [
                        | inl k ↦ inl (f' ∙ k)
                        | inr k ↦ inr (
                          f' ∙ k,
                          elim plain [
                            | inl q ↦ sealed-plain lib moment content algorithm q
                            | inr q ↦ let z = rw (f', k) at q in absurd (cc)
                          ],
                        )
                      ])
                      parse unsealed)
              ]
            ]
      ]

  -- If the body is plain or its chunks are decoded without a panic, the key neither is empty nor ends
  -- in a slash, the upload answers 200, JSON reads back the metadata that were written, Base64 and
  -- AES-256-GCM undo themselves, and either the data were not encrypted or a file of metadata is
  -- there afterwards: fetching the object answers 200 with the data of the upload, out of their
  -- chunks if they came in chunks, unless the path of the object or of its metadata leads where the
  -- bucket's quota file or its temporary one stands.
  pub put_data-get_object :
      (body content json : Text) (s : ObjectState)
      → plain_data body ≡ some content
      → ends_with key (codes "/") ≡ false
      → is_empty key ≡ false
      → (put_data lib moment bucket key headers body s).1.status ≡ 200
      → lib.metadata_to_string
          (put_metadata lib moment bucket key headers content (with_bucket lib bucket s))
        ≡ some json
      → lib.metadata_from_str json
        ≡ some (put_metadata lib moment bucket key headers content (with_bucket lib bucket s))
      → ((put_sealed lib moment bucket key headers content (with_bucket lib bucket s)).1 ≡ none)
        ⊎ (is_some (
              read
                (put_data lib moment bucket key headers body s).0.files
                (metadata_path s.storage_path bucket key))
            ≡ true)
      → (((get_object lib later bucket key none
              (put_data lib moment bucket key headers body s).0).status
            ≡ 200)
          × ((get_object lib later bucket key none
                (put_data lib moment bucket key headers body s).0).body
              ≡ content))
        ⊎ AtQuota bucket key s.storage_path (put_data lib moment bucket key headers body s).0.files
  unfolding put_data with_bucket Gives
  put_data-get_object body content json s d e n ok print parse plain =
      let s' = with_bucket lib bucket s in
      rw (put_data, d, e, n)
        (put_file-get_object content s' json n (rw (put_data, d, e, n) at ok) print parse
          (rw (put_data, d, e, n) at plain))

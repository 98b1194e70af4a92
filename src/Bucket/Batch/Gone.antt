-- ===== src/Bucket/Batch/Gone.antt =====
-- The objects that a batch deletion names are gone, and the log has nothing of it.
use ironbucket.Base.{
  ◌≡◌, refl, sym, ◌∙◌, subst, ◌⊎◌, inl, inr, ℕ, Bool, true, none, some, List, [], ◌∷◌, All,
  Bool-cases, Option-cases,
}
use ironbucket.Base.Text.{Text, codes}
use ironbucket.Xml.{parts}
use ironbucket.Paths.{Tree, PathBuf, exists, is_dir, read, remove_file, remove_dir}
use ironbucket.Paths.Frames.{remove_file-Changed}
use ironbucket.Paths.Removed.{Bare, set-read, remove_file-none-read, Changed-read-none}
use ironbucket.Paths.Fewer.{
  Fewer, Fewer-refl, Fewer-trans, Touches-Fewer, Changed-Fewer, Fewer-LeadsTo, Fewer-read,
  remove_dir-some, set-Fewer, is_dir-read, exists-read,
}
use ironbucket.Paths.Touches.{LeadsTo}
use ironbucket.Quota.{
  QuotaManager, Operation, update_quota, update_quota_remove, remove_object, op_delete,
}
use ironbucket.Object.{
  Library, Moment, ObjectState, object_path, metadata_path, data_file, old_version, reply,
}
use ironbucket.Object.Counting.{increment_stat, with_quota, managed}
use ironbucket.Object.Fetch.{get_object}
use ironbucket.Object.Deleted.{try_remove-read_other}
use ironbucket.Object.Remove.{try_remove}
use ironbucket.Object.Stored.{
  Charged, Charged-refl, Charged-SameFiles, with_quota-Charged, quota_paths,
  increment_stat-SameFiles,
}
use ironbucket.Bucket.{BucketQueryParams}
use ironbucket.Bucket.Batch.{
  DeleteObject, DeleteResult, parse_objects, remove_path, remove_metadata, size_at, account_deleted,
  delete_one, record_result, delete_all, handle_bucket_post,
}

-- What is removed is read no more, and nothing else is read that was not.
remove_path-read :
    (ps : List PathBuf) (t u : Tree) (p : PathBuf)
    → remove_path t p ≡ some u
    → (read u p ≡ none) × Fewer ps t u
unfolding remove_path Bare
remove_path-read ps t u p h = elim (Bool-cases (is_dir t p)) [
  | inl d ↦
      let k : remove_dir t p ≡ some u = rw (remove_path, d) at h in
      let (l, e, at, empty, same) = remove_dir-some t u p k in
      (
        subst (λ v. read v p ≡ none) same (set-read none t p l (inl refl) e at),
        subst (λ v. Fewer ps t v) same (set-Fewer ps t l at empty),
      )
  | inr d ↦
      let k : remove_file t p ≡ some u = rw (remove_path, d) at h in
      let (l, e, changed) = remove_file-Changed t u p k in
      (Changed-read-none t u p l changed (inr e), Changed-Fewer ps l t u changed)
]

remove_path-none : (t : Tree) (p : PathBuf) → remove_path t p ≡ none → read t p ≡ none
unfolding remove_path
remove_path-none t p h = elim (Bool-cases (is_dir t p)) [
  | inl d ↦ is_dir-read t p d
  | inr d ↦ remove_file-none-read t p (rw (remove_path, d) at h)
]

try_remove-Fewer : (ps : List PathBuf) (t : Tree) (p : PathBuf) → Fewer ps t (try_remove t p).0
unfolding try_remove
try_remove-Fewer ps t p = elim (Option-cases (remove_file t p)) [
  | inl e ↦ rw (try_remove, e) (Fewer-refl ps t)
  | inr (u, e) ↦
      let (l, f, changed) = remove_file-Changed t u p e in
      rw (try_remove, e) (Changed-Fewer ps l t u changed)
]

remove_metadata-Fewer :
    (ps : List PathBuf) (t : Tree) (p : PathBuf) → Fewer ps t (remove_metadata t p)
unfolding remove_metadata
remove_metadata-Fewer ps t p = elim (Bool-cases (exists t p)) [
  | inl e ↦ rw (e) (try_remove-Fewer ps t p)
  | inr e ↦ rw (e) (Fewer-refl ps t)
]

remove_metadata-read :
    (t : Tree) (p q : PathBuf) → read t q ≡ none → read (remove_metadata t p) q ≡ none
unfolding remove_metadata
remove_metadata-read t p q h = elim (Bool-cases (exists t p)) [
  | inl e ↦ rw (e) (try_remove-read_other t q p h)
  | inr e ↦ rw (e) h
]

-- One step: where the objects stand and what the log holds are as before, and nothing is read that
-- was not, but where the quota files of the bucket stand.
record Removes (bucket : Text) (s s' : ObjectState) : Type 0 where
  same_storage : s'.storage_path ≡ s.storage_path
  same_wal : s'.wal_writer ≡ s.wal_writer
  fewer : Fewer (quota_paths s.storage_path bucket) s.files s'.files

Removes-refl : (bucket : Text) (s : ObjectState) → Removes bucket s s
Removes-refl bucket s = record {
  same_storage = refl;
  same_wal = refl;
  fewer = Fewer-refl (quota_paths s.storage_path bucket) s.files;
}

Removes-trans :
    (bucket : Text) (s t u : ObjectState)
    → Removes bucket s t
    → Removes bucket t u
    → Removes bucket s u
Removes-trans bucket s t u a b = record {
  same_storage = b.same_storage ∙ a.same_storage;
  same_wal = b.same_wal ∙ a.same_wal;
  fewer =
      Fewer-trans (quota_paths s.storage_path bucket) s.files t.files u.files a.fewer
        (subst (λ p. Fewer (quota_paths p bucket) t.files u.files) a.same_storage b.fewer);
}

with_quota-wal :
    (update : QuotaManager → QuotaManager × Bool) (s : ObjectState)
    → (with_quota update s).wal_writer ≡ s.wal_writer
unfolding with_quota managed
with_quota-wal update s = refl

increment_stat-wal :
    (lib : Library) (moment : Moment) (bucket : Text) (operation : Operation) (s : ObjectState)
    → (increment_stat lib moment bucket operation s).wal_writer ≡ s.wal_writer
unfolding increment_stat
increment_stat-wal lib moment bucket operation s = elim (Bool-cases s.quota_manager.enabled) [
  | inl e ↦ rw (increment_stat, e) refl
  | inr e ↦ rw (increment_stat, e) refl
]

module _ (lib : Library) (moment : Moment) (error_text : PathBuf → Text) (bucket : Text) where
  account_deleted-Charged :
      (path : PathBuf) (size : ℕ) (s : ObjectState)
      → Charged bucket s (account_deleted lib moment error_text bucket path size s)
        × ((account_deleted lib moment error_text bucket path size s).wal_writer ≡ s.wal_writer)
  unfolding account_deleted update_quota_remove
  account_deleted-Charged path size s =
      let charged = with_quota (update_quota (remove_object size) bucket) s in
      let c =
        Charged-SameFiles bucket s charged (increment_stat lib moment bucket op_delete charged)
          (with_quota-Charged (remove_object size) bucket s)
          (increment_stat-SameFiles lib moment bucket op_delete charged) in
      let w =
        increment_stat-wal lib moment bucket op_delete charged
        ∙ with_quota-wal (update_quota (remove_object size) bucket) s in
      elim (Bool-cases (is_dir s.files path)) [
        | inl e ↦ rw (account_deleted, e) (Charged-refl bucket s, refl)
        | inr e ↦ rw (account_deleted, e) (c, w)
      ]

  -- The object is read no more, unless its path led where a quota file stands.
  abbrev Away : ObjectState → ObjectState → DeleteObject → Type 0
  Away s s' o =
      (read s'.files (object_path s.storage_path bucket o.key) ≡ none)
      ⊎ LeadsTo s.files (object_path s.storage_path bucket o.key)
          (quota_paths s.storage_path bucket)

  abbrev Done : DeleteObject → ObjectState → ObjectState → Type 0
  Done o s s' = Away s s' o × Removes bucket s s'

  delete_one-Done :
      (o : DeleteObject) (s : ObjectState)
      → Done o s (delete_one lib moment error_text bucket o s).0
  unfolding delete_one
  delete_one-Done o s =
      let path = object_path s.storage_path bucket o.key in
      let meta = metadata_path s.storage_path bucket o.key in
      let ps = quota_paths s.storage_path bucket in
      elim (Bool-cases (exists s.files path)) [
        | inr e ↦
            let same : (delete_one lib moment error_text bucket o s).0 ≡ s =
              rw (delete_one, e) refl in
            subst (Done o s) (sym same) (inl (exists-read s.files path e), Removes-refl bucket s)
        | inl e ↦ elim (Option-cases (remove_path s.files path)) [
          | inl f ↦
              let same : (delete_one lib moment error_text bucket o s).0 ≡ s =
                rw (delete_one, e, f) refl in
              subst (Done o s) (sym same)
                (inl (remove_path-none s.files path f), Removes-refl bucket s)
          | inr (t, f) ↦
              let (gone, fewer) = remove_path-read ps s.files t path f in
              let u = remove_metadata t meta in
              let s' : ObjectState = record s { files = u } in
              let size = size_at s.files path in
              let after = account_deleted lib moment error_text bucket path size s' in
              let same : (delete_one lib moment error_text bucket o s).0 ≡ after =
                rw (delete_one, e, f) refl in
              let (c, w) = account_deleted-Charged path size s' in
              let removed = Fewer-trans ps s.files t u fewer (remove_metadata-Fewer ps t meta) in
              let charged = Touches-Fewer ps u after.files c.touches in
              subst (Done o s) (sym same) (
                elim (Fewer-read ps u after.files path charged
                    (remove_metadata-read t meta path gone)) [
                      | inl k ↦ inl k
                      | inr leads ↦ inr (Fewer-LeadsTo ps ps s.files u path removed leads)
                    ],
                record {
                  same_storage = c.same_storage;
                  same_wal = w;
                  fewer = Fewer-trans ps s.files u after.files removed charged;
                },
              )
        ]
      ]

  -- What was away in a state is so behind more removals.
  Removes-Away :
      (s t u : ObjectState) (o : DeleteObject)
      → Away s t o
      → Removes bucket s t
      → Removes bucket t u
      → Away s u o
  Removes-Away s t u o away one more =
      let path = object_path s.storage_path bucket o.key in
      let ps = quota_paths s.storage_path bucket in
      let later =
        subst (λ p. Fewer (quota_paths p bucket) t.files u.files) one.same_storage more.fewer in
      elim away [
        | inr leads ↦ inr leads
        | inl e ↦ elim (Fewer-read ps t.files u.files path later e) [
          | inl f ↦ inl f
          | inr leads ↦ inr (Fewer-LeadsTo ps ps s.files t.files path one.fewer leads)
        ]
      ]

  Away-before :
      (s t u : ObjectState) (objects : List DeleteObject)
      → Removes bucket s t
      → All (Away t u) objects
      → All (Away s u) objects
  Away-before s t u [] one h = tt
  Away-before s t u (o ∷ rest) one (h, hs) = (
    elim (subst
        (λ p.
          (read u.files (object_path p bucket o.key) ≡ none)
          ⊎ LeadsTo t.files (object_path p bucket o.key) (quota_paths p bucket))
        one.same_storage h) [
          | inl e ↦ inl e
          | inr leads ↦ inr (
              Fewer-LeadsTo (quota_paths s.storage_path bucket) (quota_paths s.storage_path bucket)
                s.files t.files (object_path s.storage_path bucket o.key) one.fewer leads)
        ],
    Away-before s t u rest one hs,
  )

  delete_all-Removes :
      (objects : List DeleteObject) (s : ObjectState) (result : DeleteResult)
      → Removes bucket s (delete_all lib moment error_text bucket objects s result).0
        × All (Away s (delete_all lib moment error_text bucket objects s result).0) objects
  unfolding delete_all
  delete_all-Removes [] s result = (Removes-refl bucket s, tt)
  delete_all-Removes (o ∷ rest) s result =
      let path = object_path s.storage_path bucket o.key in
      let next = delete_one lib moment error_text bucket o s in
      let (gone, one) = delete_one-Done o s in
      let result' = record_result lib moment error_text path o next.1 result in
      let last = (delete_all lib moment error_text bucket rest next.0 result').0 in
      let (more, all) = delete_all-Removes rest next.0 result' in
      (
        Removes-trans bucket s next.0 last one more,
        (Removes-Away s next.0 last o gone one more, Away-before s next.0 last rest one all),
      )

  -- Fetching what is not read.
  unread-get_object :
      (later : Moment) (key : Text) (s : ObjectState)
      → read s.files (object_path s.storage_path bucket key) ≡ none
      → (get_object lib later bucket key none s).status ≡ 404
  unfolding get_object data_file old_version reply
  unread-get_object later key s h = rw (get_object, h) refl

  -- Fetching the object answers 404, or its path led where a quota file of the bucket stands.
  abbrev pub Missing : Moment → ObjectState → ObjectState → DeleteObject → Type 0
  Missing later s s' o =
      ((get_object lib later bucket o.key none s').status ≡ 404)
      ⊎ LeadsTo s.files (object_path s.storage_path bucket o.key)
          (quota_paths s.storage_path bucket)

  Removes-Missing :
      (later : Moment) (objects : List DeleteObject) (s s' : ObjectState)
      → Removes bucket s s'
      → All (Away s s') objects
      → All (Missing later s s') objects
  Removes-Missing later [] s s' r h = tt
  Removes-Missing later (o ∷ rest) s s' r h = (
    elim h.0 [
      | inr leads ↦ inr leads
      | inl e ↦ inl (
          unread-get_object later o.key s'
            (subst (λ q. read s'.files (object_path q bucket o.key) ≡ none) (sym r.same_storage) e))
    ],
    Removes-Missing later rest s s' r h.1,
  )

  post-delete_all :
      (params : BucketQueryParams) (body : Text) (objects : List DeleteObject) (s : ObjectState)
      → params.delete ≡ true
      → parse_objects (parts (codes "Object") body) ≡ some objects
      → (handle_bucket_post lib moment error_text bucket params body s).0
        ≡ (delete_all lib moment error_text bucket objects s
            (record { deleted = []; errors = [] })).0
  unfolding handle_bucket_post
  post-delete_all params body objects s d e = rw (handle_bucket_post, d, e) refl

  -- A request to delete objects, whatever it answers for each of them: fetching the current version
  -- of any of them answers 404 afterwards, unless its path led where the bucket's quota file or that
  -- file's temporary one stands, and nothing of it is logged for the other nodes.
  pub handle_bucket_post-get_object :
      (later : Moment) (params : BucketQueryParams) (body : Text) (objects : List DeleteObject)
      (s : ObjectState)
      → params.delete ≡ true
      → parse_objects (parts (codes "Object") body) ≡ some objects
      → All
          (Missing later s (handle_bucket_post lib moment error_text bucket params body s).0)
          objects
        × ((handle_bucket_post lib moment error_text bucket params body s).0.wal_writer
            ≡ s.wal_writer)
  handle_bucket_post-get_object later params body objects s d e =
      let start : DeleteResult = record { deleted = []; errors = [] } in
      let (all, gone) = delete_all-Removes objects s start in
      let same = post-delete_all params body objects s d e in
      let s' = (delete_all lib moment error_text bucket objects s start).0 in
      subst (λ r. All (Missing later s r) objects × (r.wal_writer ≡ s.wal_writer)) (sym same)
        (Removes-Missing later objects s s' all gone, all.same_wal)

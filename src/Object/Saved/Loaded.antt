-- ===== src/Object/Saved/Loaded.antt =====
-- The statistics that are saved are the ones that are read.
use ironbucket.Base.{
  ◌+◌, ◌%◌, ◌^◌, ◌≡◌, ◌⊎◌, refl, sym, ap, ◌∙◌, inl, inr, true, not, Option, none, some, [], ◌∷◌,
  ◌++◌, length, take-length_append, ◌==◌, ==_iff, if◌then◌else◌, Bool-cases,
}
use ironbucket.Base.Assoc.{lookup, insert}
use ironbucket.Base.Text.{join as join_text}
use ironbucket.Base.Text.{Text, codes, find, starts_with, Lacks}
use ironbucket.Paths.{Tree, PathBuf, join, read, write, exists, create_dir_all}
use ironbucket.Paths.Fewer.{exists-read}
use ironbucket.Paths.Written.{and_then-true, or_write-read, rename-read}
use ironbucket.Paths.Outcomes.{with_extension, and_then, or_fail, rename}
use ironbucket.Quota.{
  BucketStats, Operation, increment, QuotaManager, flush_all as flush_quota_manager,
}
use ironbucket.Quota.Counters.{count_of, increment-count_of, increment-count_of_other}
use ironbucket.Object.{Library, Moment, ObjectState}
use ironbucket.Object.Counting.{
  load_stats_from_file, load_stats, get_stats, increment_stat, cached_stats, manager, month_file,
}
use ironbucket.Object.Saved.{save_stats_to_file, flush_stats, flush_state}

module _ (stats_to_string : BucketStats → Option Text) (lib : Library) where
  -- Where JSON reads back what it printed, and saving succeeds: the statistics in the file are those
  -- that were saved.
  pub load_stats_from_file-save_stats_to_file :
      (folder : PathBuf) (name : Text) (stats : BucketStats) (json : Text) (t t' : Tree)
      → stats_to_string stats ≡ some json
      → lib.stats_from_str json ≡ some stats
      → save_stats_to_file stats_to_string folder name stats t ≡ (t', true)
      → load_stats_from_file lib t' (join folder name) ≡ some stats
  unfolding save_stats_to_file load_stats_from_file
  load_stats_from_file-save_stats_to_file folder name stats json t t' p f h =
      let temp = join folder (with_extension name (codes "tmp")) in
      let file = join folder name in
      let u = (create_dir_all t folder).0 in
      let saved = rw (save_stats_to_file, p) at h in
      let (made, behind) =
        and_then-true (create_dir_all t folder)
          (λ v. and_then (or_fail v (write v temp json)) (rename temp file)) t' saved in
      let written = or_fail u (write u temp json) in
      let (wrote, renamed) = and_then-true written (rename temp file) t' behind in
      let there : read t' file ≡ some json =
        rename-read temp file written.0 t' json (or_write-read temp json u written.0 wrote)
          renamed in
      elim (Bool-cases (exists t' file)) [
        | inl e ↦ rw (load_stats_from_file, e, there) f
        | inr e ↦ let k = sym (exists-read t' file e) ∙ there in absurd (cc)
      ]

find-colon :
    (bucket rest : Text)
    → Lacks b':' bucket
    → find (bucket ++ b':' ∷ rest) (codes ":") ≡ some (length bucket)
unfolding find starts_with
find-colon [] rest h = refl
find-colon (c ∷ bucket) rest (h, t) = elim (Bool-cases (c == b':')) [
  | inl e ↦ absurd (h ((==_iff c b':').0 e))
  | inr e ↦ rw (find, e, find-colon bucket rest t)
]

flush_all-enabled : (m : QuotaManager) → (flush_quota_manager m).enabled ≡ m.enabled
unfolding flush_quota_manager
flush_all-enabled m = elim (Bool-cases m.enabled) [
  | inl e ↦ rw (flush_quota_manager, e) refl
  | inr e ↦ rw (flush_quota_manager, e) refl
]

module _ (stats_to_string : BucketStats → Option Text) (lib : Library) (moment : Moment) where
  abbrev folder_of : Text → ObjectState → PathBuf
  folder_of bucket s = join (join s.storage_path bucket) (codes ".stats")

  -- What the statistics file of this month gives for a bucket.
  abbrev pub stored_stats : Text → ObjectState → BucketStats
  stored_stats bucket s = load_stats lib s.files (join (folder_of bucket s) moment.stats_file)

  -- The same with one operation more.
  abbrev pub counted : Text → Operation → ObjectState → BucketStats
  counted bucket operation s = increment operation (stored_stats bucket s)

  flush_stats-one :
      (storage : PathBuf) (bucket rest : Text) (stats : BucketStats) (t : Tree)
      → Lacks b':' bucket
      → flush_stats stats_to_string moment storage ((bucket ++ b':' ∷ rest, stats) ∷ []) t
        ≡ (save_stats_to_file stats_to_string
            (join (join storage bucket) (codes ".stats"))
            moment.stats_file
            stats
            t).0
  unfolding flush_stats
  flush_stats-one storage bucket rest stats t plain =
      let found = find-colon bucket rest plain in
      let front = take-length_append bucket (b':' ∷ rest) in
      rw (flush_stats, found)
        (ap
          (λ b.
            (save_stats_to_file stats_to_string (join (join storage b) (codes ".stats"))
              moment.stats_file stats t).0)
          front)

  cache_key : Text → ObjectState → Text
  cache_key bucket s = join_text b'/' (join (folder_of bucket s) moment.stats_file)

  increment_stat-first :
      (bucket : Text) (operation : Operation) (s : ObjectState)
      → s.quota_manager.enabled ≡ true
      → s.stats_cache ≡ []
      → increment_stat lib moment bucket operation s ≡ record s {
        stats_cache = (bucket ++ b':' ∷ cache_key bucket s, counted bucket operation s) ∷ [];
      }
  unfolding increment_stat cached_stats lookup insert cache_key
  increment_stat-first bucket operation s on empty = rw (increment_stat, on, empty) refl

  abbrev flushed : ObjectState → ObjectState
  flushed s = record s {
    quota_manager = flush_quota_manager (manager s);
    files =
        flush_stats stats_to_string moment s.storage_path s.stats_cache
          (flush_quota_manager (manager s)).files;
  }

  flush_state-enabled :
      (s : ObjectState)
      → s.quota_manager.enabled ≡ true
      → flush_state stats_to_string moment s ≡ flushed s
  unfolding flush_state
  flush_state-enabled s on = ap (λ b. if not b then s else flushed s) on

  get_stats-enabled :
      (bucket : Text) (s : ObjectState)
      → s.quota_manager.enabled ≡ true
      → get_stats lib moment bucket none s
        ≡ load_stats_from_file lib s.files (join (folder_of bucket s) moment.stats_file)
  unfolding get_stats month_file
  get_stats-enabled bucket s on = rw (get_stats, on) refl

  get_stats-flushed :
      (bucket : Text) (s : ObjectState)
      → s.quota_manager.enabled ≡ true
      → get_stats lib moment bucket none (flush_state stats_to_string moment s)
        ≡ load_stats_from_file lib
            (flush_stats stats_to_string moment s.storage_path s.stats_cache
              (flush_quota_manager (manager s)).files)
            (join (folder_of bucket s) moment.stats_file)
  unfolding manager
  get_stats-flushed bucket s on =
      let still = flush_all-enabled (manager s) ∙ on in
      ap (get_stats lib moment bucket none) (flush_state-enabled s on)
      ∙ get_stats-enabled bucket (flushed s) still

  -- Where statistics are enabled, none is cached, no colon is in the name of the bucket, JSON reads
  -- back what it printed, and saving the statistics succeeds behind the flush of the quotas: behind
  -- an operation and a flush, the statistics of this month are those that were in the file, with the
  -- operation counted: its own counter is one more in 64 bits, and every other counter is the same.
  pub get_stats-flush_state :
      (bucket : Text) (operation : Operation) (s : ObjectState) (json : Text)
      → s.quota_manager.enabled ≡ true
      → s.stats_cache ≡ []
      → Lacks b':' bucket
      → stats_to_string (counted bucket operation s) ≡ some json
      → lib.stats_from_str json ≡ some (counted bucket operation s)
      → (save_stats_to_file stats_to_string
          (folder_of bucket s)
          moment.stats_file
          (counted bucket operation s)
          (flush_quota_manager (manager s)).files).1
        ≡ true
      → (get_stats lib moment bucket none
            (flush_state stats_to_string moment (increment_stat lib moment bucket operation s))
          ≡ some (counted bucket operation s))
        × (count_of operation (counted bucket operation s)
            ≡ (count_of operation (stored_stats bucket s) + 1) % 2 ^ 64)
        × ((other : Operation)
            → (count_of other (counted bucket operation s) ≡ count_of other (stored_stats bucket s))
              ⊎ (other ≡ operation))
  unfolding manager
  get_stats-flush_state bucket operation s json on empty plain p f saved =
      let stats = counted bucket operation s in
      let s' : ObjectState = record s {
        stats_cache = (bucket ++ b':' ∷ cache_key bucket s, stats) ∷ [];
      } in
      let t = (flush_quota_manager (manager s)).files in
      let outcome =
        save_stats_to_file stats_to_string (folder_of bucket s) moment.stats_file stats t in
      let file = join (folder_of bucket s) moment.stats_file in
      (
        ap (λ u. get_stats lib moment bucket none (flush_state stats_to_string moment u))
              (increment_stat-first bucket operation s on empty)
            ∙ get_stats-flushed bucket s' on
            ∙ ap (λ u. load_stats_from_file lib u file)
                (flush_stats-one s.storage_path bucket (cache_key bucket s) stats t plain)
            ∙ load_stats_from_file-save_stats_to_file stats_to_string lib (folder_of bucket s)
                moment.stats_file stats json t outcome.0 p f (ap (λ b. (outcome.0, b)) saved),
        increment-count_of operation (stored_stats bucket s),
        λ other. increment-count_of_other operation other (stored_stats bucket s),
      )

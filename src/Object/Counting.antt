-- ===== src/Object/Counting.antt =====
-- What the handlers keep beside the files: the counters of operations, the quota and the log.
use ironbucket.Base.{Bool, not, Option, none, some, ◌++◌, if◌then◌else◌}
use ironbucket.Base.Text.{Text, codes}
use ironbucket.Base.Text.{join as join_text}
use ironbucket.Base.Assoc.{lookup, insert}
use ironbucket.Paths.{Tree, PathBuf, join, read, exists}
use ironbucket.Wal.{WalOp, log_op}
use ironbucket.Quota.{QuotaManager, BucketStats, Operation, increment}
use ironbucket.Object.{Library, Moment, ObjectState}

abbrev pub zero_stats : BucketStats
zero_stats = record {
  get_count = 0;
  put_count = 0;
  delete_count = 0;
  list_count = 0;
  head_count = 0;
  multipart_count = 0;
}

-- `unwrap_or_default()`
unfoldable pub stats_or_zero : Option BucketStats → BucketStats
stats_or_zero (some stats) = stats
stats_or_zero none = zero_stats

-- The name of the statistics file of a month.
unfoldable pub month_file : Text → Option Text → Text
month_file current none = current
month_file current (some year_month) = year_month ++ codes ".json"

module _ (lib : Library) where
  -- `load_stats_from_file` with its error, for a file that cannot be read.
  unfoldable pub load_stats_from_file : Tree → PathBuf → Option BucketStats
  unfolding exists read
  load_stats_from_file t p =
      if exists t p
      then elim (read t p) [ none ↦ none | some content ↦ lib.stats_from_str content ]
      else some zero_stats

  unfoldable pub load_stats : Tree → PathBuf → BucketStats
  unfolding load_stats_from_file stats_or_zero
  load_stats t p = stats_or_zero (load_stats_from_file t p)

  -- The statistics of a month that is given, or of this month, from the file.
  unfoldable pub get_stats : Moment → Text → Option Text → ObjectState → Option BucketStats
  unfolding load_stats_from_file join month_file
  get_stats moment bucket year_month s =
      if not s.quota_manager.enabled
      then some zero_stats
      else load_stats_from_file s.files (
          join (join (join s.storage_path bucket) (codes ".stats"))
            (month_file moment.stats_file year_month))

  -- `cache.entry(key).or_insert_with(..)`
  unfoldable pub cached_stats : Option BucketStats → Tree → PathBuf → BucketStats
  unfolding load_stats
  cached_stats none t p = load_stats t p
  cached_stats (some stats) t p = stats

  unfoldable pub increment_stat : Moment → Text → Operation → ObjectState → ObjectState
  unfolding join cached_stats increment lookup insert
  increment_stat moment bucket operation s =
      if not s.quota_manager.enabled
      then s
      else let stats_file =
          join (join (join s.storage_path bucket) (codes ".stats")) moment.stats_file in
        let cache_key = bucket ++ (codes ":" ++ join_text b'/' stats_file) in
        let stats = cached_stats (lookup cache_key s.stats_cache) s.files stats_file in
        record s { stats_cache = insert cache_key (increment operation stats) s.stats_cache }

-- The manager of the quotas on the state's own tree.
unfoldable pub manager : ObjectState → QuotaManager
manager s = record s.quota_manager { storage_path = s.storage_path; files = s.files }

unfoldable pub managed : ObjectState → QuotaManager → ObjectState
managed s m = record s { quota_manager = m; files = m.files }

-- A change of the quotas, whose error is a warning.
unfoldable pub with_quota : (QuotaManager → QuotaManager × Bool) → ObjectState → ObjectState
unfolding manager managed
with_quota update s = managed s (update (manager s)).0

unfoldable pub log : WalOp → ObjectState → ObjectState
unfolding log_op
log op s = record s { wal_writer = log_op op s.wal_writer }

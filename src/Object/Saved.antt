-- ===== src/Object/Saved.antt =====
-- The statistics of src/quota.rs on disk: `save_stats_to_file` and what `flush_all` does with them.
pub mod Loaded
mod Tests
use ironbucket.Base.{
  ◌≡◌, refl, sym, ap, ◌∙◌, inl, inr, ℕ, Bool, true, false, not, Option, none, some, List, [], ◌∷◌,
  ◌++◌, take, ◌==◌, if◌then◌else◌, Option-cases,
}
use ironbucket.Base.Text.{Text, codes, find}
use ironbucket.Base.Assoc.{Assoc}
use ironbucket.Paths.{Tree, PathBuf, join, read, write, create_dir_all, remove_file}
use ironbucket.Paths.Outcomes.{with_extension, Outcome, and_then, or_fail, rename}
use ironbucket.Quota.{BucketStats, flush_all as flush_quota_manager}
use ironbucket.Object.{Library, Moment, ObjectState, storage_entries}
use ironbucket.Object.Counting.{load_stats_from_file, get_stats, manager}

-- `serde_json::to_string_pretty` is a parameter.
module _ (stats_to_string : BucketStats → Option Text) where
  -- The file is given by its directory and its name.
  unfoldable pub save_stats_to_file : PathBuf → Text → BucketStats → Tree → Outcome
  unfolding and_then create_dir_all join with_extension or_fail write rename
  save_stats_to_file folder name stats t =
      let temp_file = join folder (with_extension name (codes "tmp")) in
      and_then (create_dir_all t folder) (λ u. elim (stats_to_string stats) [
        | none ↦ (u, false)
        | some content ↦
            and_then (or_fail u (write u temp_file content)) (rename temp_file (join folder name))
      ])

  -- The loop over the cached statistics: each goes to the file of the current month of the bucket that
  -- its key begins with, and an error of one is passed over.
  unfoldable pub flush_stats : Moment → PathBuf → Assoc BucketStats → Tree → Tree
  unfolding find join save_stats_to_file
  flush_stats moment storage [] t = t
  flush_stats moment storage ((cache_key, stats) ∷ rest) t =
      flush_stats moment storage rest (elim (find cache_key (codes ":")) [
        | none ↦ t
        | some colon_pos ↦
            (save_stats_to_file (join (join storage (take colon_pos cache_key)) (codes ".stats"))
              moment.stats_file stats t).0
      ])

  -- The quotas first, and then the statistics.
  unfoldable pub flush_state : Moment → ObjectState → ObjectState
  unfolding manager flush_quota_manager flush_stats
  flush_state moment s =
      if not s.quota_manager.enabled
      then s
      else let m = flush_quota_manager (manager s) in
        record s {
          quota_manager = m;
          files = flush_stats moment s.storage_path s.stats_cache m.files;
        }

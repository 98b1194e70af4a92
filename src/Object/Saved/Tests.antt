-- ===== src/Object/Saved/Tests.antt =====
-- An operation that is counted, flushed and read at the bucket of Object/Sample.
use ironbucket.Base.{◌+◌, ◌%◌, ◌^◌, ◌⊎◌, ◌≡◌, refl, true, Option, none, some}
use ironbucket.Base.Text.{Text, codes, text_eq, Lacks-test}
use ironbucket.Paths.{join}
use ironbucket.Quota.{BucketStats, Operation, op_put, increment, flush_all as flush_quota_manager}
use ironbucket.Quota.Counters.{count_of}
use ironbucket.Object.{Library, ObjectState}
use ironbucket.Object.Counting.{load_stats, get_stats, increment_stat, zero_stats, manager}
use ironbucket.Object.Saved.{save_stats_to_file, flush_state}
use ironbucket.Object.Saved.Loaded.{counted, stored_stats, get_stats-flush_state}
use ironbucket.Object.Sample.{lib, moment, quotas, state}

abbrev one_put : BucketStats
one_put = record zero_stats { put_count = 1 }

abbrev counting : Library
counting = record lib { stats_from_str = λ json. some one_put }

abbrev print_stats : BucketStats → Option Text
print_stats stats = some (codes "S")

abbrev enabled_state : ObjectState
enabled_state = record state { quota_manager = record quotas { enabled = true } }

one_put_read :
    counting.stats_from_str (codes "S")
    ≡ some (counted print_stats counting moment (codes "b") op_put enabled_state)
unfolding load_stats increment text_eq join
one_put_read = refl

one_put_saved :
    (save_stats_to_file print_stats
      (join (join enabled_state.storage_path (codes "b")) (codes ".stats"))
      moment.stats_file
      (counted print_stats counting moment (codes "b") op_put enabled_state)
      (flush_quota_manager (manager enabled_state)).files).1
    ≡ true
unfolding save_stats_to_file text_eq join flush_quota_manager manager
one_put_saved = refl

abbrev after_put : BucketStats
after_put = counted print_stats counting moment (codes "b") op_put enabled_state

abbrev before_put : BucketStats
before_put = stored_stats print_stats counting moment (codes "b") enabled_state

get_stats-flush_state_example :
    (get_stats counting moment (codes "b") none (
        flush_state print_stats moment
          (increment_stat counting moment (codes "b") op_put enabled_state))
      ≡ some after_put)
    × (count_of op_put after_put ≡ (count_of op_put before_put + 1) % 2 ^ 64)
    × ((other : Operation)
        → (count_of other after_put ≡ count_of other before_put) ⊎ (other ≡ op_put))
get_stats-flush_state_example =
    get_stats-flush_state print_stats counting moment (codes "b") op_put enabled_state (codes "S")
      refl refl (Lacks-test b':' (codes "b") refl) refl one_put_read one_put_saved

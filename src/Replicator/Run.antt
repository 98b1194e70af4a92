-- ===== src/Replicator/Run.antt =====
-- The `Replicator` of src/bin/replicator.rs: its state file, the processing of a batch, and one turn of
-- the loop of `run`.
pub mod Restart
pub mod Reached
use ironbucket.Base.{
  ℕ, Bool, true, false, not, ◌&&◌, ◌||◌, Option, none, some, List, [], ◌∷◌, ◌++◌, length, is_empty,
  leb, if◌then◌else◌,
}
use ironbucket.Base.Text.{Text}
use ironbucket.Paths.{Tree, PathBuf, read, write}
use ironbucket.Replicator.{
  WalEntry, ReplicatorState, ReplicatorConfig, Group, read_wal_entries, optimize_batch,
}
use ironbucket.Replicator.Targets.{Outcome, and_then, or_fail, create_parent, broadcast}

-- Without `http_client`, and with the rest of `config`.
pub record Replicator : Type 0 where
  pub config : ReplicatorConfig
  pub cluster_nodes : List Text
  pub wal_path : PathBuf
  pub state_path : PathBuf
  pub storage_path : PathBuf
  pub state : ReplicatorState
  pub event_buffer : List WalEntry
  pub seen_events : List (Text × ℕ)

abbrev pub fresh_state : ReplicatorState
fresh_state = record { last_processed_position = 0; last_processed_sequence = [] }

-- `serde_json` for the state, whose `last_flush` nothing reads.
pub record StateCodec : Type 0 where
  pub to_string_pretty : ReplicatorState → Option Text
  pub from_str : Text → Option ReplicatorState

-- A file that is missing, cannot be read or is no state counts as none.
unfoldable pub load_state : StateCodec → Tree → PathBuf → ReplicatorState
unfolding read
load_state codec t path = elim (read t path) [
  | none ↦ fresh_state
  | some content ↦ elim (codec.from_str content) [ none ↦ fresh_state | some state ↦ state ]
]

unfoldable pub save_state : StateCodec → PathBuf → ReplicatorState → Tree → Outcome
unfolding and_then create_parent or_fail write
save_state codec path state t = and_then (create_parent path t) (λ u.
    elim (codec.to_string_pretty state) [
      | none ↦ (u, false)
      | some state_json ↦ or_fail u (write u path state_json)
    ])

-- What is new in the log goes to the buffer; a log that cannot be read is waited for.
unfoldable pub read_step : Replicator → Tree → Replicator
unfolding read read_wal_entries
read_step r t = elim (read t r.wal_path) [
  | none ↦ r
  | some file ↦
      let (entries, state) = read_wal_entries r.config file r.state in
      record r { state = state; event_buffer = r.event_buffer ++ entries }
]

-- Whether the time of a batch is over is an argument.
unfoldable pub should_process : Bool → Replicator → Bool
should_process elapsed r =
    not (is_empty r.event_buffer)
    && (elapsed || leb r.config.max_batch_size (length r.event_buffer))

-- `order` is the order in which the `HashMap` of `optimize_batch` gives its groups, and `metadata` what
-- is written for a new bucket.
module _ (codec : StateCodec) (order : List Group → List Group) (metadata : Text) where
  -- A batch that is empty is passed over. A failure to save the state is an error in the log.
  unfoldable pub process_batch : List WalEntry → Replicator → Tree → Tree
  unfolding optimize_batch broadcast save_state
  process_batch entries r t =
      if is_empty entries
      then t
      else (save_state codec r.state_path r.state
          (broadcast metadata r.storage_path r.cluster_nodes (optimize_batch order entries) t)).0

  -- The second half of a turn of the loop: the buffer is processed, where it is due.
  unfoldable pub process_step : Bool → Replicator → Tree → Replicator × Tree
  unfolding should_process process_batch
  process_step elapsed r t =
      if should_process elapsed r
      then (record r { event_buffer = [] }, process_batch r.event_buffer r t)
      else (r, t)

  -- One turn of the loop.
  unfoldable pub run_step : Bool → Replicator × Tree → Replicator × Tree
  unfolding read_step process_step
  run_step elapsed (r, t) = process_step elapsed (read_step r t) t

-- ===== src/Replicator/Examples.antt =====
-- The loop of the replicator at a small storage directory, and entries that are received twice.
use ironbucket.Base.{ℕ, ◌≡◌, ◌⊎◌, refl, inl, Bool, true, Option, some, List, [], ◌∷◌, ◌++◌, arith}
use ironbucket.Base.Number.{show}
use ironbucket.Base.Text.{Text, codes, text_eq}
use ironbucket.Disk.{file, dir, nil, entry}
use ironbucket.Paths.{Tree, PathBuf, join, read}
use ironbucket.Wal.{write_batch}
use ironbucket.Replicator.{
  WalEntry, ReplicatorState, last_sequence, read_wal_entries, optimize_batch,
}
use ironbucket.Replicator.Format.{entry_of}
use ironbucket.Paths.Touches.{LeadsTo}
use ironbucket.Replicator.Reading.{Ascending, done}
use ironbucket.Replicator.Targets.{broadcast, send_to_node, target_storage}
use ironbucket.Replicator.Run.{
  Replicator, StateCodec, load_state, save_state, should_process, run_step,
}
use ironbucket.Replicator.Run.Restart.{batch, reached, sent, run_step-load_state}
use ironbucket.Replicator.Run.Reached.{run_step-read}
use ironbucket.Replicator.Incoming.{handle_incoming_replication}
use ironbucket.Replicator.Incoming.Once.{handle_incoming_replication-again}
use ironbucket.Replicator.Tests.{
  node, a_put, config, start, newer, a_put-IsReadable, a_put-NoNewlines,
}

abbrev state_file : PathBuf
state_file = codes "state" ∷ codes "replicator.state" ∷ []

abbrev replicator : Replicator
replicator = record {
  config = config;
  cluster_nodes = codes "node1" ∷ [];
  wal_path = codes "wal" ∷ codes "wal.log" ∷ [];
  state_path = state_file;
  storage_path = codes "s3" ∷ [];
  state = start;
  event_buffer = [];
  seen_events = [];
}

abbrev a_log : Text
a_log = (write_batch node 50 1 (a_put ∷ [])).0

abbrev disk : Tree
disk = some (
    dir (
      entry (codes "s3")
        (dir (entry (codes "b") (dir (entry (codes "k") (file (codes "abc")) nil)) nil))
        (entry (codes "wal") (dir (entry (codes "wal.log") (file a_log) nil)) nil)))

abbrev behind_log : ReplicatorState
behind_log = (read_wal_entries config a_log start).1

abbrev codec : StateCodec
codec = record { to_string_pretty = λ state. some (codes "S"); from_str = λ text. some behind_log }

log_read : read disk replicator.wal_path ≡ some a_log
unfolding read text_eq
log_read = refl

abbrev node1 : PathBuf
node1 = [] ∷ codes "cluster-wal" ∷ codes "node1" ∷ codes "s3" ∷ []

node1_known : target_storage (codes "node1") ≡ some node1
unfolding target_storage
node1_known = refl

object_read :
    read disk (join (join replicator.storage_path (codes "b")) (codes "k")) ≡ some (codes "abc")
unfolding read join text_eq
object_read = refl

a_put-sent :
    (send_to_node [] replicator.storage_path (codes "node1") (entry_of node 1 50 a_put ∷ []) disk).1
    ≡ true
unfolding send_to_node text_eq entry_of
a_put-sent = refl

abbrev after : Tree
after = (run_step codec (λ gs. gs) [] true (replicator, disk)).1

run_step-read_example :
    (read after (join (join node1 (codes "b")) (codes "k")) ≡ some (codes "abc"))
    ⊎ LeadsTo after
        (join (join node1 (codes "b")) (codes "k"))
        (state_file ∷ join (join replicator.storage_path (codes "b")) (codes "k") ∷ [])
run_step-read_example =
    run_step-read codec (λ gs. gs) (λ g. refl) [] (codes "b") (codes "k") 1 50 3 (some (codes "e1"))
      replicator disk [] (codes "node1") node1 (codes "abc") refl refl node1_known log_read refl
      (a_put-IsReadable 1 (omega arith), a_put-NoNewlines, tt) (omega arith) (omega arith) newer
      object_read a_put-sent

batch_due :
    should_process true (record replicator {
      state = reached codec (λ gs. gs) [] replicator disk a_log;
      event_buffer = batch codec (λ gs. gs) [] replicator disk a_log;
    })
    ≡ true
unfolding should_process read_wal_entries text_eq write_batch show
batch_due = refl

state_saved :
    (save_state codec state_file behind_log (sent codec (λ gs. gs) [] replicator disk a_log)).1
    ≡ true
unfolding save_state read_wal_entries text_eq broadcast optimize_batch write_batch show
state_saved = refl

nothing_buffered : Ascending node 0 (last_sequence node start.last_processed_sequence) []
unfolding last_sequence
nothing_buffered = done

run_step-load_state_example :
    ((run_step codec (λ gs. gs) [] true (replicator, disk)).0.event_buffer ≡ [])
    × Ascending node 0
        (last_sequence node
          (read_wal_entries config
            (a_log ++ a_log)
            (load_state codec after state_file)).1.last_processed_sequence)
        (batch codec (λ gs. gs) [] replicator disk a_log
          ++ (read_wal_entries config (a_log ++ a_log) (load_state codec after state_file)).0)
run_step-load_state_example =
    run_step-load_state codec (λ gs. gs) [] replicator disk a_log true 0 (codes "S")
      (a_log ++ a_log) log_read batch_due nothing_buffered refl refl state_saved

abbrev received : WalEntry
received = entry_of (codes "node2") 1 50 a_put

abbrev http : Text → Option Text
http url = some url

abbrev handled : List (Text × ℕ) × (Tree × Bool)
handled =
    handle_incoming_replication http (codes "node2:9000" ∷ []) (codes "s3" ∷ []) (received ∷ []) []
      disk

handled_ok : handled.1.1 ≡ true
unfolding handle_incoming_replication entry_of text_eq
handled_ok = refl

handle_incoming_replication-again_example :
    handle_incoming_replication http
      (codes "node2:9000" ∷ [])
      (codes "s3" ∷ [])
      (received ∷ received ∷ [])
      handled.0
      handled.1.0
    ≡ (handled.0, (handled.1.0, true))
handle_incoming_replication-again_example =
    handle_incoming_replication-again http (codes "node2:9000" ∷ []) (codes "s3" ∷ [])
      (received ∷ []) (received ∷ received ∷ []) [] disk handled.1.0 handled_ok
      (inl refl, (inl refl, tt))

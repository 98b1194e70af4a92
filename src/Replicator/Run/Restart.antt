-- ===== src/Replicator/Run/Restart.antt =====
-- What a replicator that starts again knows of what it did before.
use ironbucket.Base.{
  ◌≡◌, refl, sym, ap, subst, ◌∙◌, ℕ, Bool, true, false, some, List, [], ◌∷◌, ◌++◌, is_empty, arith,
  append_assoc, append-nil,
}
use ironbucket.Base.Text.{Text}
use ironbucket.Paths.{Tree, PathBuf, read, write}
use ironbucket.Paths.Written.{and_then-true, or_write-read}
use ironbucket.Replicator.{
  WalEntry, ReplicatorState, Group, last_sequence, read_wal_entries, optimize_batch,
}
use ironbucket.Replicator.Reading.{Ascending, done, next, read_wal_entries-Ascending}
use ironbucket.Replicator.Targets.{broadcast, create_parent, or_fail}
use ironbucket.Replicator.Run.{
  Replicator, StateCodec, load_state, save_state, read_step, should_process, process_batch,
  process_step, run_step,
}

-- A state that was saved is the one that is loaded.
load_state-save_state :
    (codec : StateCodec) (path : PathBuf) (state : ReplicatorState) (json : Text) (t t' : Tree)
    → codec.to_string_pretty state ≡ some json
    → codec.from_str json ≡ some state
    → save_state codec path state t ≡ (t', true)
    → load_state codec t' path ≡ state
unfolding save_state or_fail load_state
load_state-save_state codec path state json t t' p f h =
    let saved = rw (save_state, p) at h in
    let (made_ok, wrote) =
      and_then-true (create_parent path t) (λ u. or_fail u (write u path json)) t' saved in
    let there = or_write-read path json (create_parent path t).0 t' wrote in
    rw (load_state, there, f) refl

module _ {node : Text} {low mid : ℕ} (es : List WalEntry) (a : Ascending node low mid es) where
  Ascending-append :
      {high : ℕ} {fs : List WalEntry}
      → Ascending node mid high fs
      → Ascending node low high (es ++ fs)
  Ascending-append done = subst (λ l. Ascending node low mid l) (sym (append-nil es)) a
  Ascending-append (next {es = gs} e b own above) =
      subst (λ l. Ascending node low e.sequence_id l) (append_assoc es gs (e ∷ []))
        (next e (Ascending-append b) own above)

module _ (codec : StateCodec) (order : List Group → List Group) (metadata : Text) (r : Replicator)
    (t : Tree) (file : Text) where
  -- What a turn of the loop sends, and the state of the replicator behind it.
  abbrev pub batch : List WalEntry
  batch = r.event_buffer ++ (read_wal_entries r.config file r.state).0

  abbrev pub reached : ReplicatorState
  reached = (read_wal_entries r.config file r.state).1

  abbrev pub sent : Tree
  sent = broadcast metadata r.storage_path r.cluster_nodes (optimize_batch order batch) t

  read_step-file :
      read t r.wal_path ≡ some file
      → read_step r t ≡ record r { state = reached; event_buffer = batch }
  unfolding read_step
  read_step-file h = rw (read_step, h) refl

  abbrev emptied : Replicator → Replicator
  emptied r' = record r' { event_buffer = [] }

  process_batch-some :
      (r' : Replicator)
      → is_empty r'.event_buffer ≡ false
      → process_batch codec order metadata r'.event_buffer r' t
        ≡ (save_state codec r'.state_path r'.state (
            broadcast metadata r'.storage_path r'.cluster_nodes
              (optimize_batch order r'.event_buffer)
              t)).0
  unfolding process_batch
  process_batch-some r' h = rw (process_batch, h) refl

  process_step-due :
      (elapsed : Bool) (r' : Replicator)
      → should_process elapsed r' ≡ true
      → is_empty r'.event_buffer ≡ false
      → process_step codec order metadata elapsed r' t ≡ (
        emptied r',
        (save_state codec r'.state_path r'.state (
            broadcast metadata r'.storage_path r'.cluster_nodes
              (optimize_batch order r'.event_buffer)
              t)).0,
      )
  unfolding process_step
  process_step-due elapsed r' due some_entry =
      rw (process_step, due) (ap (λ u. (emptied r', u)) (process_batch-some r' some_entry))

  run_step-step :
      (elapsed : Bool)
      → run_step codec order metadata elapsed (r, t)
        ≡ process_step codec order metadata elapsed (read_step r t) t
  unfolding run_step
  run_step-step elapsed = refl

  should_process-some :
      (elapsed : Bool) (r' : Replicator)
      → should_process elapsed r' ≡ true
      → is_empty r'.event_buffer ≡ false
  unfolding should_process
  should_process-some elapsed r' h = ground arith

  pub run_step-file :
      (elapsed : Bool)
      → read t r.wal_path ≡ some file
      → should_process elapsed (record r { state = reached; event_buffer = batch }) ≡ true
      → run_step codec order metadata elapsed (r, t) ≡ (
        record r { state = reached; event_buffer = [] },
        (save_state codec r.state_path reached sent).0,
      )
  run_step-file elapsed h due =
      let r' : Replicator = record r { state = reached; event_buffer = batch } in
      run_step-step elapsed
      ∙ ap (λ q. process_step codec order metadata elapsed q t) (read_step-file h)
      ∙ process_step-due elapsed r' due (should_process-some elapsed r' due)

  -- In a turn of the loop that reads the log and processes a batch, where the entries in the buffer
  -- were in order, and where the state is saved and JSON reads back what it printed: the buffer is
  -- empty then, and whatever the log holds when the replicator starts again, the entries of the batch
  -- and those it reads then are of its own node and have sequence numbers that grow strictly, so none
  -- is processed twice.
  pub run_step-load_state :
      (elapsed : Bool) (low : ℕ) (json later : Text)
      → read t r.wal_path ≡ some file
      → should_process elapsed (record r { state = reached; event_buffer = batch }) ≡ true
      → Ascending r.config.node_id low
          (last_sequence r.config.node_id r.state.last_processed_sequence)
          r.event_buffer
      → codec.to_string_pretty reached ≡ some json
      → codec.from_str json ≡ some reached
      → (save_state codec r.state_path reached sent).1 ≡ true
      → ((run_step codec order metadata elapsed (r, t)).0.event_buffer ≡ [])
        × Ascending r.config.node_id low
            (last_sequence r.config.node_id
              (read_wal_entries r.config later (
                load_state codec
                  (run_step codec order metadata elapsed (r, t)).1
                  r.state_path)).1.last_processed_sequence)
            (batch
              ++ (read_wal_entries r.config later (
                  load_state codec
                    (run_step codec order metadata elapsed (r, t)).1
                    r.state_path)).0)
  run_step-load_state elapsed low json later h due ordered p f saved =
      let node = r.config.node_id in
      let step = run_step-file elapsed h due in
      let t' = (save_state codec r.state_path reached sent).0 in
      let loaded : load_state codec t' r.state_path ≡ reached =
        load_state-save_state codec r.state_path reached json sent t' p f
          (ap (λ b. (t', b)) saved) in
      let again = ap (λ (o : Replicator × Tree). load_state codec o.1 r.state_path) step ∙ loaded in
      let all =
        Ascending-append batch
          (Ascending-append r.event_buffer ordered
            (read_wal_entries-Ascending r.config file r.state))
          (read_wal_entries-Ascending r.config later reached) in
      (
        ap (λ (o : Replicator × Tree). o.0.event_buffer) step,
        subst
            (λ st.
              Ascending node low
                (last_sequence node (read_wal_entries r.config later st).1.last_processed_sequence)
                (batch ++ (read_wal_entries r.config later st).0))
            (sym again) all,
      )

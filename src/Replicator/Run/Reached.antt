-- ===== src/Replicator/Run/Reached.antt =====
-- An upload that the writer logs is read at another node behind one turn of the replicator's loop.
use mathlib.Core.Path.{ap₂}
use ironbucket.Base.{
  ◌≡◌, refl, sym, ap, subst, ◌∙◌, inl, inr, ◌⊎◌, ℕ, ◌+◌, ◌≤◌, ◌<◌, true, false, Option, some, List,
  [], ◌∷◌, ◌++◌, length, Option-cases,
}
use ironbucket.Base.Text.{Text, codes, text_eq, text_eq_refl}
use ironbucket.Base.Number.{u64_max}
use ironbucket.Wal.{put, write_batch}
use ironbucket.Paths.{Tree, PathBuf, join, read, write}
use ironbucket.Paths.Frames.{
  Keeps, Keeps-refl, Keeps-trans, Keeps-read, Changed-Keeps, Leads-more, resolve-more,
  write-Changed,
}
use ironbucket.Paths.Touches.{LeadsTo}
use ironbucket.Replicator.{
  WalEntry, ReplicatorState, Group, last_sequence, read_wal_entries, optimize_batch, collect,
}
use ironbucket.Replicator.Format.{entry_of}
use ironbucket.Replicator.Complete.{AllReadable, entries_of, read_wal_entries-write_batch}
use ironbucket.Replicator.Converge.{create_parent-Keeps, send_entry-read}
use ironbucket.Replicator.Targets.{
  Outcome, and_then, or_fail, create_parent, send_entry, send_entries, send_to_node, target_storage,
  broadcast,
}
use ironbucket.Replicator.Run.{Replicator, StateCodec, save_state, should_process, run_step}
use ironbucket.Replicator.Run.Restart.{batch, reached, sent, run_step-file}

or_write-Keeps :
    (t : Tree) (p : PathBuf) (contents : Text) → Keeps (p ∷ []) t (or_fail t (write t p contents)).0
unfolding or_fail
or_write-Keeps t p contents = elim (Option-cases (write t p contents)) [
  | inl e ↦ rw (or_fail, e) (Keeps-refl (p ∷ []) t)
  | inr (u, e) ↦
      let (l, led, changed) = write-Changed t u p contents e in
      rw (or_fail, e) (Changed-Keeps (some contents) l t u p (p ∷ []) (inl refl) led changed)
]

and_then-Keeps :
    (ps : List PathBuf) (t : Tree) (o : Outcome) (next : Tree → Outcome)
    → Keeps ps t o.0
    → ((u : Tree) → Keeps ps u (next u).0)
    → Keeps ps t (and_then o next).0
unfolding and_then
and_then-Keeps ps t (u, true) next k more = Keeps-trans ps t u (next u).0 k (more u)
and_then-Keeps ps t (u, false) next k more = k

-- Saving the state keeps every file but that of the state.
save_state-Keeps :
    (codec : StateCodec) (path : PathBuf) (state : ReplicatorState) (t : Tree)
    → Keeps (path ∷ []) t (save_state codec path state t).0
unfolding save_state
save_state-Keeps codec path state t = elim (Option-cases (codec.to_string_pretty state)) [
  | inl e ↦
      rw (save_state, e)
        (and_then-Keeps (path ∷ []) t (create_parent path t) (λ u. (u, false)) made
          (λ u. Keeps-refl (path ∷ []) u))
  | inr (json, e) ↦
      rw (save_state, e)
        (and_then-Keeps (path ∷ []) t (create_parent path t) (λ u. or_fail u (write u path json))
          made (λ u. or_write-Keeps u path json))
]
  where
    made : Keeps (path ∷ []) t (create_parent path t).0
    made = create_parent-Keeps (path ∷ []) path t

and_then-done : (o : Outcome) → and_then o (λ u. (u, true)) ≡ o
unfolding and_then
and_then-done (t, true) = refl
and_then-done (t, false) = refl

module _ (metadata : Text) (storage target : PathBuf) (address : Text) (entry : WalEntry) (t : Tree)
    (known : target_storage address ≡ some target) where
  send_to_node-entry :
      send_to_node metadata storage address (entry ∷ []) t
      ≡ send_entry metadata storage target entry t
  unfolding send_to_node send_entries
  send_to_node-entry =
      rw (send_to_node, known) (and_then-done (send_entry metadata storage target entry t))

  broadcast-read :
      (d : Text)
      → text_eq entry.operation (codes "PUT") ≡ true
      → (send_to_node metadata storage address (entry ∷ []) t).1 ≡ true
      → read t (join (join storage entry.bucket) entry.key) ≡ some d
      → (read
            (broadcast metadata storage (address ∷ []) (entry ∷ []) t)
            (join (join target entry.bucket) entry.key)
          ≡ some d)
        ⊎ LeadsTo
            (broadcast metadata storage (address ∷ []) (entry ∷ []) t)
            (join (join target entry.bucket) entry.key)
            (join (join storage entry.bucket) entry.key ∷ [])
  unfolding broadcast
  broadcast-read d op ok h =
      let outcome = send_to_node metadata storage address (entry ∷ []) t in
      send_entry-read metadata storage target entry t outcome.0 d op h
        (sym send_to_node-entry ∙ ap (λ b. (outcome.0, b)) ok)

-- What arrived before the state is saved.
Keeps-arrived :
    (state_path own_path path : PathBuf) (t u : Tree) (d : Text)
    → Keeps (state_path ∷ []) t u
    → (read t path ≡ some d) ⊎ LeadsTo t path (own_path ∷ [])
    → (read u path ≡ some d) ⊎ LeadsTo u path (state_path ∷ own_path ∷ [])
unfolding Keeps
Keeps-arrived state_path own_path path t u d kept (inl h) =
    elim (Keeps-read (state_path ∷ []) t u path d kept h) [
      | inl e ↦ inl e
      | inr (q, e, inl leads) ↦ inr (q, e, inl leads)
      | inr (q, e, inr leads) ↦ elim leads [ ]
    ]
Keeps-arrived state_path own_path path t u d kept (inr (q, e, leads)) =
    inr
      (q, resolve-more t u kept.0 [] path q e, inr (Leads-more t u q (own_path ∷ []) kept.0 leads))

module _ (codec : StateCodec) (order : List Group → List Group)
    (gives_one : (g : Group) → order (g ∷ []) ≡ g ∷ []) (metadata bucket key : Text)
    (seq time size : ℕ) (etag : Option Text) (r : Replicator) (t : Tree) (old : Text) where
  abbrev pub log_file : Text
  log_file = old ++ (write_batch r.config.node_id time seq (put bucket key size etag ∷ [])).0

  abbrev pub uploaded : WalEntry
  uploaded = entry_of r.config.node_id seq time (put bucket key size etag)

  is_put : text_eq uploaded.operation (codes "PUT") ≡ true
  unfolding entry_of
  is_put = text_eq_refl (codes "PUT")

  optimize_batch-uploaded : optimize_batch order (uploaded ∷ []) ≡ uploaded ∷ []
  unfolding optimize_batch text_eq entry_of
  optimize_batch-uploaded = ap collect (gives_one ((bucket, key), uploaded ∷ []))

  batch-uploaded :
      r.event_buffer ≡ []
      → r.state.last_processed_position ≡ length old
      → AllReadable r.config.node_id time seq (put bucket key size etag ∷ [])
      → seq + 1 ≤ u64_max
      → 1 < r.config.max_batch_size
      → last_sequence r.config.node_id r.state.last_processed_sequence < seq
      → batch codec order metadata r t log_file ≡ uploaded ∷ []
  unfolding entries_of
  batch-uploaded empty position readable fits room newer =
      ap (λ es. es ++ (read_wal_entries r.config log_file r.state).0) empty
      ∙ read_wal_entries-write_batch r.config r.state old time seq (put bucket key size etag ∷ [])
          position readable fits room newer

  due :
      (state : ReplicatorState) (buffer : List WalEntry)
      → buffer ≡ uploaded ∷ []
      → should_process true (record r { state = state; event_buffer = buffer }) ≡ true
  unfolding should_process
  due state [] h = absurd (cc)
  due state (e ∷ es) h = refl

  -- Where the writer flushes one upload behind what the replicator has read, whose buffer is empty,
  -- whose only other node is known, and whose batch takes more than one entry, and the time of a batch
  -- is over; where the upload can be read back, its number fits and is above the last one processed,
  -- its object is read in the own storage, and sending it succeeds; and where the `HashMap` gives a
  -- single group as it is: behind one turn of the loop the object is read at the other node with the
  -- same contents, unless its path there leads to the replicator's own state file or to the object in
  -- the own storage.
  pub run_step-read :
      (address : Text) (target : PathBuf) (d : Text)
      → r.event_buffer ≡ []
      → r.cluster_nodes ≡ address ∷ []
      → target_storage address ≡ some target
      → read t r.wal_path ≡ some log_file
      → r.state.last_processed_position ≡ length old
      → AllReadable r.config.node_id time seq (put bucket key size etag ∷ [])
      → seq + 1 ≤ u64_max
      → 1 < r.config.max_batch_size
      → last_sequence r.config.node_id r.state.last_processed_sequence < seq
      → read t (join (join r.storage_path bucket) key) ≡ some d
      → (send_to_node metadata r.storage_path address (uploaded ∷ []) t).1 ≡ true
      → (read (run_step codec order metadata true (r, t)).1 (join (join target bucket) key)
          ≡ some d)
        ⊎ LeadsTo
            (run_step codec order metadata true (r, t)).1
            (join (join target bucket) key)
            (r.state_path ∷ join (join r.storage_path bucket) key ∷ [])
  unfolding entry_of
  run_step-read address target d empty one known logged position readable fits room newer own ok =
      let one_entry = batch-uploaded empty position readable fits room newer in
      let state = reached codec order metadata r t log_file in
      let now = sent codec order metadata r t log_file in
      let path = join (join target bucket) key in
      let sends : now ≡ broadcast metadata r.storage_path (address ∷ []) (uploaded ∷ []) t =
        ap₂ (λ nodes es. broadcast metadata r.storage_path nodes es t) one
          (ap (optimize_batch order) one_entry ∙ optimize_batch-uploaded) in
      let own_path = join (join r.storage_path bucket) key in
      let arrived : (read now path ≡ some d) ⊎ LeadsTo now path (own_path ∷ []) =
        subst (λ u. (read u path ≡ some d) ⊎ LeadsTo u path (own_path ∷ [])) (sym sends)
          (broadcast-read metadata r.storage_path target address uploaded t known d is_put ok
            own) in
      let step =
        run_step-file codec order metadata r t log_file true logged
          (due state (batch codec order metadata r t log_file) one_entry) in
      let kept =
        Keeps-arrived r.state_path own_path path now (save_state codec r.state_path state now).0 d
          (save_state-Keeps codec r.state_path state now) arrived in
      subst (λ u. (read u path ≡ some d) ⊎ LeadsTo u path (r.state_path ∷ own_path ∷ []))
        (sym (ap (λ (o : Replicator × Tree). o.1) step)) kept

-- ===== src/Replicator/Incoming.antt =====
-- The receiving side of src/bin/replicator.rs: `handle_incoming_replication` with `apply_operation` and
-- `download_object`.
pub mod Once
use ironbucket.Base.{
  ◌≡◌, refl, ap, ◌∙◌, ℕ, Bool, true, false, ◌&&◌, ◌||◌, Option, none, some, List, [], ◌∷◌, ◌++◌,
  All, any, ◌==◌, if◌then◌else◌, Bool-cases, inl, inr, arith,
}
use ironbucket.Base.Text.{Text, codes, text_eq, text_eq_refl, contains}
use ironbucket.Paths.{
  Tree, PathBuf, join, write, exists, remove_file, remove_dir_all, create_dir_all,
}
use ironbucket.Replicator.{WalEntry, is_op}
use ironbucket.Replicator.Targets.{Outcome, and_then, or_fail, create_parent, if_exists}

-- The first address that contains the identifier.
unfoldable pub find_node : List Text → Text → Option Text
unfolding contains
find_node [] node_id = none
find_node (address ∷ rest) node_id =
    let later = find_node rest node_id in if contains address node_id then some address else later

unfoldable pub event_seen : Text × ℕ → List (Text × ℕ) → Bool
unfolding text_eq
event_seen event seen = any (λ e. text_eq e.0 event.0 && e.1 == event.1) seen

-- The body that a GET of a URL is answered with, where it succeeds, is a parameter.
module _ (http_get : Text → Option Text) where
  unfoldable pub download_object : List Text → Text → Text → Text → Option Text
  unfolding find_node
  download_object cluster_nodes node_id bucket key = elim (find_node cluster_nodes node_id) [
    | none ↦ none
    | some address ↦ http_get (codes "http://" ++ address ++ b'/' ∷ (bucket ++ b'/' ∷ key))
  ]

  unfoldable pub apply_operation : List Text → PathBuf → WalEntry → Tree → Outcome
  unfolding is_op download_object join and_then create_parent or_fail write if_exists remove_file
      exists create_dir_all remove_dir_all
  apply_operation cluster_nodes storage entry t =
      let bucket_path = join storage entry.bucket in
      let object_path = join bucket_path entry.key in
      if is_op (codes "PUT") entry
      then elim (download_object cluster_nodes entry.node_id entry.bucket entry.key) [
        | none ↦ (t, false)
        | some body ↦
            and_then (create_parent object_path t) (λ u. or_fail u (write u object_path body))
      ]
      else if is_op (codes "DELETE") entry
      then if_exists object_path (λ u. or_fail u (remove_file u object_path)) t
      else if is_op (codes "CREATE_BUCKET") entry
      then (if exists t bucket_path then (t, true) else create_dir_all t bucket_path)
      else if is_op (codes "DELETE_BUCKET") entry
      then if_exists bucket_path (λ u. remove_dir_all u bucket_path) t
      else (t, true)

  -- One entry: nothing where its event was seen, and else the operation; the event is marked as seen
  -- where that succeeds.
  unfoldable pub receive_entry :
      List Text → PathBuf → WalEntry → List (Text × ℕ) → Tree → List (Text × ℕ) × Outcome
  unfolding event_seen apply_operation
  receive_entry cluster_nodes storage entry seen t =
      let event : Text × ℕ = (entry.node_id, entry.sequence_id) in
      let (u, done) = apply_operation cluster_nodes storage entry t in
      if event_seen event seen
      then (seen, (t, true))
      else if done
      then (event ∷ seen, (u, true))
      else (seen, (u, false))

  -- The first failure ends the loop.
  unfoldable pub handle_incoming_replication :
      List Text → PathBuf → List WalEntry → List (Text × ℕ) → Tree → List (Text × ℕ) × Outcome
  unfolding receive_entry
  handle_incoming_replication cluster_nodes storage [] seen t = (seen, (t, true))
  handle_incoming_replication cluster_nodes storage (entry ∷ rest) seen t =
      let (seen', (u, done)) = receive_entry cluster_nodes storage entry seen t in
      let later = handle_incoming_replication cluster_nodes storage rest seen' u in
      if done then later else (seen', (u, false))

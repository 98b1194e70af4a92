-- ===== src/Replicator/Tests.antt =====
-- The replicator behind the writer.
use ironbucket.Base.{
  ℕ, ◌≤◌, ◌<◌, ◌≡◌, refl, ◌↔◌, ◌⊎◌, inr, true, none, some, List, [], ◌∷◌, ◌++◌, arith, In, All,
}
use ironbucket.Base.Text.{Text, codes, text_eq, Lacks, Lacks-test}
use ironbucket.Disk.{file, dir, nil, entry}
use ironbucket.Paths.{Tree, join, read}
use ironbucket.Paths.Touches.{LeadsTo}
use ironbucket.Replicator.Targets.{send_entry}
use ironbucket.Replicator.Converge.{send_entry-read}
use ironbucket.Base.Trim.{trim}
use ironbucket.Wal.{or_empty, WalOp, put, format_line, write_batch, new}
use ironbucket.Replicator.{
  WalEntry, ReplicatorConfig, ReplicatorState, parse_wal_line, last_sequence, read_entry,
  read_wal_entries, optimize_batch,
}
use ironbucket.Replicator.Reading.{Ascending, read_wal_entries-Ascending}
use ironbucket.Replicator.Format.{entry_of}
use ironbucket.Replicator.RoundTrip.{plain_texts, IsReadable, parse_wal_line-format_line}
use ironbucket.Replicator.Complete.{
  AllReadable, entries_of, read_wal_entries-write_batch, first_operation_lost,
}
use ironbucket.Replicator.Batch.{about}
use ironbucket.Replicator.Sent.{LastOf, optimize_batch_iff}

abbrev pub node : Text
node = codes "n1"

abbrev pub a_put : WalOp
a_put = put (codes "b") (codes "k") 3 (some (codes "e1"))

pub a_put-NoNewlines : All (Lacks 10) (node ∷ plain_texts a_put)
unfolding or_empty
a_put-NoNewlines = (
  Lacks-test 10 node refl,
  (
    Lacks-test 10 (codes "b") refl,
    (Lacks-test 10 (codes "k") refl, (Lacks-test 10 (codes "e1") refl, tt)),
  ),
)

pub a_put-IsReadable : (sequence : ℕ) → sequence ≤ 100 → IsReadable node sequence 50 a_put
unfolding or_empty
a_put-IsReadable sequence h = record {
  sequence_fits = omega arith;
  timestamp_fits = omega arith;
  size_fits = omega arith;
  no_tabs = (
    Lacks-test 9 node refl,
    (
      Lacks-test 9 (codes "b") refl,
      (Lacks-test 9 (codes "k") refl, (Lacks-test 9 (codes "e1") refl, tt)),
    ),
  );
  ends_well = inr (codes "e", b'1', refl, (omega arith, omega arith));
}

parse_wal_line-format_line_example :
    parse_wal_line (trim (format_line node 7 50 a_put)) ≡ some (entry_of node 7 50 a_put)
parse_wal_line-format_line_example =
    parse_wal_line-format_line node 7 50 a_put (a_put-IsReadable 7 (omega arith))

abbrev pub config : ReplicatorConfig
config = record { node_id = node; max_batch_size = 10 }

abbrev pub start : ReplicatorState
start = record { last_processed_position = 0; last_processed_sequence = [] }

two_puts-AllReadable : AllReadable node 50 1 (a_put ∷ a_put ∷ [])
two_puts-AllReadable = (
  a_put-IsReadable 1 (omega arith),
  a_put-NoNewlines,
  (a_put-IsReadable 2 (omega arith), a_put-NoNewlines, tt),
)

pub newer : last_sequence node start.last_processed_sequence < 1
unfolding last_sequence
newer = omega arith

read_wal_entries-write_batch_example :
    (read_wal_entries config ([] ++ (write_batch node 50 1 (a_put ∷ a_put ∷ [])).0) start).0
    ≡ entries_of node 50 1 (a_put ∷ a_put ∷ [])
read_wal_entries-write_batch_example =
    read_wal_entries-write_batch config start [] 50 1 (a_put ∷ a_put ∷ []) refl two_puts-AllReadable
      (omega arith) (omega arith) newer

first_operation_lost_example :
    ((new none none node true).sequence ≡ 0)
    × (read_entry node (parse_wal_line (trim (format_line node 0 50 a_put))) ([], []) ≡ ([], []))
first_operation_lost_example =
    first_operation_lost config 50 a_put [] [] (a_put-IsReadable 0 (omega arith))

abbrev two_entries : List WalEntry
two_entries = entry_of node 1 50 a_put ∷ entry_of node 2 60 a_put ∷ []

optimize_batch_iff_example :
    In (entry_of node 2 60 a_put) (optimize_batch (λ gs. gs) two_entries)
    ↔ ((k : Text × Text) × LastOf (about k two_entries) (entry_of node 2 60 a_put))
optimize_batch_iff_example =
    optimize_batch_iff (λ gs. gs) (λ g gs. (λ i. i, λ i. i)) (entry_of node 2 60 a_put) two_entries

-- The storage of this node and of another one, before the object b/k is sent there.
abbrev two_nodes : Tree
two_nodes = some (
    dir (
      entry (codes "s3")
        (dir (entry (codes "b") (dir (entry (codes "k") (file (codes "abc")) nil)) nil))
        (entry (codes "t3") (dir nil) nil)))

abbrev k_put : WalEntry
k_put = record {
  node_id = codes "n1";
  sequence_id = 1;
  timestamp = 7;
  operation = codes "PUT";
  bucket = codes "b";
  key = codes "k";
  size = none;
  etag = none;
}

k_is_put : text_eq k_put.operation (codes "PUT") ≡ true
unfolding text_eq
k_is_put = refl

k_read : read two_nodes (join (join (codes "s3" ∷ []) k_put.bucket) k_put.key) ≡ some (codes "abc")
unfolding read join text_eq
k_read = refl

abbrev k_sent : Tree
k_sent = (send_entry [] (codes "s3" ∷ []) (codes "t3" ∷ []) k_put two_nodes).0

k_sent_ok : send_entry [] (codes "s3" ∷ []) (codes "t3" ∷ []) k_put two_nodes ≡ (k_sent, true)
unfolding send_entry text_eq
k_sent_ok = refl

send_entry-read_example :
    (read k_sent (join (join (codes "t3" ∷ []) k_put.bucket) k_put.key) ≡ some (codes "abc"))
    ⊎ LeadsTo k_sent
        (join (join (codes "t3" ∷ []) k_put.bucket) k_put.key)
        (join (join (codes "s3" ∷ []) k_put.bucket) k_put.key ∷ [])
send_entry-read_example =
    send_entry-read [] (codes "s3" ∷ []) (codes "t3" ∷ []) k_put two_nodes k_sent (codes "abc")
      k_is_put k_read k_sent_ok

abbrev two_lines : Text
two_lines = (write_batch node 50 1 (a_put ∷ a_put ∷ [])).0

read_wal_entries-Ascending_example :
    Ascending node
      (last_sequence node start.last_processed_sequence)
      (last_sequence node (read_wal_entries config two_lines start).1.last_processed_sequence)
      (read_wal_entries config two_lines start).0
read_wal_entries-Ascending_example = read_wal_entries-Ascending config two_lines start

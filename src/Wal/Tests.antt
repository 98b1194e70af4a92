-- ===== src/Wal/Tests.antt =====
-- The writer at work on a few operations.
use ironbucket.Base.{◌≡◌, refl, true, none, some, List, [], ◌∷◌, arith}
use ironbucket.Base.Text.{Text, codes}
use ironbucket.Wal.{WalOp, put, delete, WalWriter, flush, new}
use ironbucket.Wal.Restart.{new-flush}
use ironbucket.Wal.Fifo.{Event, logs, turns, run, all_taken, Follows, run-Follows}

abbrev pub node : Text
node = codes "node-1"

abbrev pub a_put : WalOp
a_put = put (codes "photos") (codes "cat.png") 3 (some (codes "e1"))

abbrev fresh : WalWriter
fresh = record {
  enabled = true;
  node_id = node;
  queue = [];
  batch = [];
  sequence = 7;
  file = [];
  state_file = none;
}

abbrev some_events : List Event
some_events = logs a_put ∷ logs (delete (codes "photos") (codes "cat.png")) ∷ turns 6 100 ∷ []

-- Both operations are written by the turn.
written : (run fresh some_events).sequence ≡ 9
unfolding run
written = refl

run-Follows_example : Follows fresh (all_taken fresh some_events) (run fresh some_events)
run-Follows_example = run-Follows fresh some_events

abbrev full : WalWriter
full = record fresh { batch = a_put ∷ a_put ∷ [] }

new-flush_example :
    (new (some (flush 100 full).file) (flush 100 full).state_file node true).sequence
    ≡ (flush 100 full).sequence
new-flush_example = new-flush 100 full (omega arith)

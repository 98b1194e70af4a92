-- ===== src/Wal.antt =====
-- src/wal.rs: the operations of the write-ahead log, its text format, the writer with its channel
-- and its thread, and the sequence number that a restart begins with.
pub mod Fifo
pub mod Restart
mod Tests
use ironbucket.Base.{
  ℕ, zero, suc, ◌+◌, ◌-◌, ◌%◌, ◌^◌, min, max, Bool, true, false, not, ◌&&◌, ◌||◌, Option, none,
  some, List, [], ◌∷◌, ◌++◌, length, take, drop, is_empty, ltb, leb, if◌then◌else◌,
}
use ironbucket.Base.Text.{Text, codes, text_eq, replace_char, join, split, lines}
use ironbucket.Base.Number.{show, parse_uint, u64_max}
use ironbucket.Base.Trim.{trim}

pub data WalOp : Type 0 where
  put : Text → Text → ℕ → Option Text → WalOp
  delete : Text → Text → WalOp
  create_bucket : Text → WalOp
  delete_bucket : Text → WalOp
  update_metadata : Text → Text → Text → WalOp
  delete_metadata : Text → Text → WalOp

-- `etag.unwrap_or_default()`
unfoldable pub or_empty : Option Text → Text
or_empty none = []
or_empty (some s) = s

-- `content.replace('\n', "\\n").replace('\t', "\\t")`
unfoldable pub escape : Text → Text
unfolding replace_char
escape content = replace_char 9 (b'\\' ∷ b't' ∷ []) (replace_char 10 (b'\\' ∷ b'n' ∷ []) content)

-- The fields of the line of one operation.
unfoldable pub op_fields : Text → ℕ → ℕ → WalOp → List Text
unfolding or_empty
op_fields node sequence timestamp (put bucket key size etag) =
    codes "PUT"
    ∷ node
    ∷ show sequence
    ∷ show timestamp
    ∷ bucket
    ∷ key
    ∷ show size
    ∷ or_empty etag
    ∷ []
op_fields node sequence timestamp (delete bucket key) =
    codes "DELETE" ∷ node ∷ show sequence ∷ show timestamp ∷ bucket ∷ key ∷ []
op_fields node sequence timestamp (create_bucket bucket) =
    codes "CREATE_BUCKET" ∷ node ∷ show sequence ∷ show timestamp ∷ bucket ∷ []
op_fields node sequence timestamp (delete_bucket bucket) =
    codes "DELETE_BUCKET" ∷ node ∷ show sequence ∷ show timestamp ∷ bucket ∷ []
op_fields node sequence timestamp (update_metadata bucket metadata_type content) =
    codes "UPDATE_METADATA"
    ∷ node
    ∷ show sequence
    ∷ show timestamp
    ∷ bucket
    ∷ metadata_type
    ∷ escape content
    ∷ []
op_fields node sequence timestamp (delete_metadata bucket metadata_type) =
    codes "DELETE_METADATA" ∷ node ∷ show sequence ∷ show timestamp ∷ bucket ∷ metadata_type ∷ []

unfoldable pub format_line : Text → ℕ → ℕ → WalOp → Text
unfolding op_fields join
format_line node sequence timestamp op = join 9 (op_fields node sequence timestamp op) ++ 10 ∷ []

-- The writer: what it shares with its thread (the channel and the counter), the batch that the
-- thread holds, the log file and the file with the next sequence number.
pub record WalWriter : Type 0 where
  pub enabled : Bool
  pub node_id : Text
  pub queue : List WalOp
  pub batch : List WalOp
  pub sequence : ℕ
  pub file : Text
  pub state_file : Option Text

abbrev pub channel_capacity : ℕ
channel_capacity = 10000

abbrev pub batch_capacity : ℕ
batch_capacity = 1000

-- `log_put` and the five others: a disabled writer ignores the operation, and a full channel drops
-- it, since the error of `try_send` is ignored.
unfoldable pub log_op : WalOp → WalWriter → WalWriter
log_op op w =
    if not w.enabled
    then w
    else if ltb (length w.queue) channel_capacity
    then record w { queue = w.queue ++ op ∷ [] }
    else w

-- `receiver.recv_timeout`, which comes back with one operation or with none.
receive_first : List WalOp → WalWriter → WalWriter
receive_first [] w = w
receive_first (op ∷ rest) w = record w { queue = rest; batch = w.batch ++ op ∷ [] }

-- `while batch.len() < 1000 { receiver.try_recv() }`, which ends at a full batch or an empty channel.
drain : WalWriter → WalWriter
drain w =
    let room = batch_capacity - length w.batch in
    record w { queue = drop room w.queue; batch = w.batch ++ take room w.queue }

-- The lines of a batch and the counter behind it, by `fetch_add` on a `u64`.
unfoldable pub write_batch : Text → ℕ → ℕ → List WalOp → Text × ℕ
unfolding format_line
write_batch node timestamp sequence [] = ([], sequence)
write_batch node timestamp sequence (op ∷ ops) =
    let (text, next) = write_batch node timestamp ((sequence + 1) % 2 ^ 64) ops in
    (format_line node sequence timestamp op ++ text, next)

unfoldable pub flush : ℕ → WalWriter → WalWriter
unfolding write_batch
flush timestamp w =
    let (text, next) = write_batch w.node_id timestamp w.sequence w.batch in
    record w { batch = []; sequence = next; file = w.file ++ text; state_file = some (show next) }

-- One turn of the thread's loop: `elapsed` seconds have passed since the last flush.
unfoldable pub turn : ℕ → ℕ → WalWriter → WalWriter
unfolding receive_first drain flush
turn elapsed timestamp w =
    let w' = drain (receive_first w.queue w) in
    if not (is_empty w'.batch) && (leb 5 elapsed || leb batch_capacity (length w'.batch))
    then flush timestamp w'
    else w'

-- `load_last_sequence`: the largest sequence number of this node in the lines.
line_sequence : Text → List Text → Option ℕ
unfolding text_eq parse_uint
line_sequence node (op ∷ id ∷ seq ∷ rest) = if text_eq id node then parse_uint u64_max seq else none
line_sequence node _ = none

max_sequence : Text → ℕ → List Text → ℕ
unfolding line_sequence split
max_sequence node best [] = best
max_sequence node best (line ∷ rest) =
    max_sequence node
      (elim (line_sequence node (split 9 line)) [ none ↦ best | some n ↦ max best n ]) rest

-- The first line of the part that is read is skipped, since it may be cut.
last_lines : Text → List Text
unfolding lines
last_lines file = drop 1 (lines (drop (length file - min 10240 (length file)) file))

unfoldable pub saved_sequence : Option Text → Option ℕ
unfolding trim parse_uint
saved_sequence none = none
saved_sequence (some contents) = parse_uint u64_max (trim contents)

scan_log : Text → Text → Option ℕ
unfolding max_sequence last_lines
scan_log node file =
    let best = max_sequence node 0 (last_lines file) in
    if ltb 0 best then some ((best + 1) % 2 ^ 64) else none

-- The arguments are the log file and the state file, where they exist.
unfoldable pub load_last_sequence : Option Text → Option Text → Text → Option ℕ
unfolding saved_sequence scan_log
load_last_sequence none state node = none
load_last_sequence (some file) state node = elim (saved_sequence state) [
  | some n ↦ some n
  | none ↦ scan_log node file
]

unfoldable pub new : Option Text → Option Text → Text → Bool → WalWriter
unfolding load_last_sequence
new file state node enabled = record {
  enabled = enabled;
  node_id = node;
  queue = [];
  batch = [];
  sequence =
      if enabled then elim (load_last_sequence file state node) [ none ↦ 0 | some n ↦ n ] else 0;
  file = elim file [ none ↦ [] | some s ↦ s ];
  state_file = state;
}

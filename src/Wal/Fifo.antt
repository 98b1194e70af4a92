-- ===== src/Wal/Fifo.antt =====
-- The writer loses, repeats and reorders nothing that its channel took.
use ironbucket.Base.{
  ℕ, ◌+◌, ◌-◌, ◌%◌, ◌^◌, ◌≡◌, refl, sym, ap, ◌∙◌, subst, Bool, true, false, not, ◌&&◌, ◌||◌, List,
  [], ◌∷◌, ◌++◌, append_assoc, append-nil, length, take, drop, take-append-drop, is_empty, ltb, leb,
  if◌then◌else◌,
}
use ironbucket.Base.Text.{Text}
use ironbucket.Wal.{
  WalOp, WalWriter, log_op, receive_first, drain, format_line, write_batch, flush, turn,
  channel_capacity, batch_capacity,
}

-- What happens to a writer: a request logs an operation, or the thread takes a turn.
pub data Event : Type 0 where
  logs : WalOp → Event
  turns : ℕ → ℕ → Event

unfoldable pub step : WalWriter → Event → WalWriter
unfolding log_op turn
step w (logs op) = log_op op w
step w (turns elapsed timestamp) = turn elapsed timestamp w

unfoldable pub run : WalWriter → List Event → WalWriter
unfolding step
run w [] = w
run w (e ∷ es) = run (step w e) es

-- The operations that the channel took.
unfoldable pub taken : WalWriter → Event → List WalOp
taken w (logs op) = if w.enabled && ltb (length w.queue) channel_capacity then op ∷ [] else []
taken w (turns elapsed timestamp) = []

unfoldable pub all_taken : WalWriter → List Event → List WalOp
unfolding taken step
all_taken w [] = []
all_taken w (e ∷ es) = taken w e ++ all_taken (step w e) es

-- The text of operations, one line for each, with consecutive numbers of 64 bits from the first
-- counter to the last.
pub data Written (node : Text) (first : ℕ) : ℕ → List WalOp → Text → Type 0 where
  nothing : Written node first first [] []
  a_line :
      {next : ℕ} {ops : List WalOp} {text : Text}
      → Written node first next ops text
      → (timestamp : ℕ) (op : WalOp)
      → Written node first
          ((next + 1) % 2 ^ 64)
          (ops ++ op ∷ [])
          (text ++ format_line node next timestamp op)

Written-write_batch :
    (node : Text) (first timestamp next : ℕ) (ops batch : List WalOp) (text : Text)
    → Written node first next ops text
    → Written node first
        (write_batch node timestamp next batch).1
        (ops ++ batch)
        (text ++ (write_batch node timestamp next batch).0)
unfolding write_batch
Written-write_batch node first timestamp next ops [] text w = rw (append-nil ops, append-nil text) w
Written-write_batch node first timestamp next ops (op ∷ batch) text w =
    let line = format_line node next timestamp op in
    let more =
      Written-write_batch node first timestamp ((next + 1) % 2 ^ 64) (ops ++ op ∷ []) batch
        (text ++ line) (a_line w timestamp op) in
    let rest = write_batch node timestamp ((next + 1) % 2 ^ 64) batch in
    subst (λ os. Written node first rest.1 os (text ++ (line ++ rest.0)))
      (append_assoc ops (op ∷ []) batch)
      (subst (λ t. Written node first rest.1 ((ops ++ op ∷ []) ++ batch) t)
        (append_assoc text line rest.0) more)

-- The state of a writer, against the state it began in and the operations taken since.
pub record Follows (start : WalWriter) (ops : List WalOp) (w : WalWriter) : Type 0 where
  pub done : List WalOp
  pub text : Text
  pub same_node : w.node_id ≡ start.node_id
  pub in_order : done ++ w.batch ++ w.queue ≡ start.batch ++ start.queue ++ ops
  pub written : Written start.node_id start.sequence w.sequence done text
  pub appended : w.file ≡ start.file ++ text

abbrev held : WalWriter → List WalOp
held w = w.batch ++ w.queue

held-receive_first :
    (q : List WalOp) (w : WalWriter) → w.queue ≡ q → held (receive_first q w) ≡ held w
unfolding receive_first
held-receive_first [] w e = refl
held-receive_first (op ∷ rest) w e =
    append_assoc w.batch (op ∷ []) rest ∙ ap (λ q. w.batch ++ q) (sym e)

held-drain : (w : WalWriter) → held (drain w) ≡ held w
unfolding drain
held-drain w =
    let room = batch_capacity - length w.batch in
    append_assoc w.batch (take room w.queue) (drop room w.queue)
    ∙ ap (λ q. w.batch ++ q) (take-append-drop room w.queue)

module _ {start : WalWriter} {ops : List WalOp} where
  -- A writer that differs in its channel and batch only, and holds the same.
  Follows-held :
      (w : WalWriter) (batch queue : List WalOp)
      → batch ++ queue ≡ held w
      → Follows start ops w
      → Follows start ops (record w { batch = batch; queue = queue })
  Follows-held w batch queue e f = record {
    done = f.done;
    text = f.text;
    same_node = f.same_node;
    in_order =
        append_assoc f.done batch queue
        ∙ ap (λ q. f.done ++ q) e
        ∙ sym (append_assoc f.done w.batch w.queue)
        ∙ f.in_order;
    written = f.written;
    appended = f.appended;
  }

  Follows-flush :
      (timestamp : ℕ) (w : WalWriter) → Follows start ops w → Follows start ops (flush timestamp w)
  unfolding flush
  Follows-flush timestamp w f = record {
    done = f.done ++ w.batch;
    text = f.text ++ (write_batch w.node_id timestamp w.sequence w.batch).0;
    same_node = f.same_node;
    in_order = ap (λ q. q ++ w.queue) (append-nil (f.done ++ w.batch)) ∙ f.in_order;
    written =
        subst
          (λ n.
            Written start.node_id start.sequence (write_batch n timestamp w.sequence w.batch).1
              (f.done ++ w.batch) (f.text ++ (write_batch n timestamp w.sequence w.batch).0))
          (sym f.same_node)
          (Written-write_batch start.node_id start.sequence timestamp w.sequence f.done w.batch
            f.text f.written);
    appended =
        ap (λ t. t ++ (write_batch w.node_id timestamp w.sequence w.batch).0) f.appended
        ∙ append_assoc start.file f.text _;
  }

  Follows-receive :
      (w : WalWriter) → Follows start ops w → Follows start ops (drain (receive_first w.queue w))
  unfolding drain receive_first
  Follows-receive w f = through w.queue refl
    where
      through : (q : List WalOp) → w.queue ≡ q → Follows start ops (drain (receive_first q w))
      through [] e = Follows-held w _ _ (held-drain w) f
      through (op ∷ rest) e =
          Follows-held w _ _
            (held-drain (receive_first (op ∷ rest) w) ∙ held-receive_first (op ∷ rest) w e) f

  Follows-turn :
      (elapsed timestamp : ℕ) (w : WalWriter)
      → Follows start ops w
      → Follows start ops (turn elapsed timestamp w)
  unfolding turn
  Follows-turn elapsed timestamp w f =
      branch (not (is_empty w'.batch) && (leb 5 elapsed || leb batch_capacity (length w'.batch)))
    where
      w' : WalWriter
      w' = drain (receive_first w.queue w)

      branch : (b : Bool) → Follows start ops (if b then flush timestamp w' else w')
      branch true = Follows-flush timestamp w' (Follows-receive w f)
      branch false = Follows-receive w f

  Follows-more :
      (op : WalOp) (w : WalWriter)
      → Follows start ops w
      → Follows start (ops ++ op ∷ []) (record w { queue = w.queue ++ op ∷ [] })
  Follows-more op w f = record {
    done = f.done;
    text = f.text;
    same_node = f.same_node;
    in_order =
        sym (append_assoc (f.done ++ w.batch) w.queue (op ∷ []))
        ∙ ap (λ q. q ++ op ∷ []) f.in_order
        ∙ append_assoc (start.batch ++ start.queue) ops (op ∷ []);
    written = f.written;
    appended = f.appended;
  }

  Follows-log :
      (op : WalOp) (w : WalWriter)
      → Follows start ops w
      → Follows start (ops ++ taken w (logs op)) (log_op op w)
  unfolding log_op taken
  Follows-log op w f = branches w.enabled (ltb (length w.queue) channel_capacity)
    where
      branches :
          (b c : Bool)
          → Follows start
              (ops ++ (if b && c then op ∷ [] else []))
              (if not b then w else if c then record w { queue = w.queue ++ op ∷ [] } else w)
      branches true true = Follows-more op w f
      branches true false = rw (append-nil ops) f
      branches false c = rw (append-nil ops) f

Follows-step :
    {start : WalWriter} {ops : List WalOp} (w : WalWriter) (e : Event)
    → Follows start ops w
    → Follows start (ops ++ taken w e) (step w e)
unfolding step taken
Follows-step w (logs op) f = Follows-log op w f
Follows-step {ops = ops} w (turns elapsed timestamp) f =
    rw (append-nil ops) (Follows-turn elapsed timestamp w f)

Follows-run :
    {start : WalWriter} (ops : List WalOp) (w : WalWriter) (es : List Event)
    → Follows start ops w
    → Follows start (ops ++ all_taken w es) (run w es)
unfolding run all_taken
Follows-run ops w [] f = rw (append-nil ops) f
Follows-run ops w (e ∷ es) f =
    rw (← append_assoc ops (taken w e) (all_taken (step w e) es))
      (Follows-run (ops ++ taken w e) (step w e) es (Follows-step w e f))

Follows-start : (w : WalWriter) → Follows w [] w
Follows-start w = record {
  done = [];
  text = [];
  same_node = refl;
  in_order = sym (append-nil (w.batch ++ w.queue));
  written = nothing;
  appended = sym (append-nil w.file);
}

-- After any sequence of requests and of turns of the thread, the file has grown by one line for each
-- operation written, with consecutive sequence numbers of 64 bits from the counter at the start to
-- the counter now, and the operations written, those of the batch and
-- those of the channel are, in this order, the ones that were there at the start and then all
-- that the channel took since.
pub run-Follows : (w : WalWriter) (es : List Event) → Follows w (all_taken w es) (run w es)
run-Follows w es = Follows-run [] w es (Follows-start w)

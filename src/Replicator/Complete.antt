-- ===== src/Replicator/Complete.antt =====
-- Everything that a flush of the writer appends is read by the replicator behind it.
use mathlib.Core.Path.{ap₂}
use ironbucket.Base.{
  ℕ, ◌+◌, ◌%◌, ◌^◌, ◌≤◌, ◌<◌, ◌≡◌, refl, sym, ap, ◌∙◌, subst, true, false, none, some, List, [],
  ◌∷◌, ◌++◌, append_assoc, append-nil, length, length-append, arith, All, leb, leb-false,
  Bool-cases, inl, inr, drop-length_append, drop, if◌then◌else◌,
}
use ironbucket.Base.Text.{
  Text, Lacks, join, lines, lines_line, Lacks-join, Lacks-replace_char, Lacks-replace_char_other,
  replace_char,
}
use ironbucket.Base.Number.{show, u64_max, show-Digits, Digits-Lacks}
use ironbucket.Base.Trim.{trim}
use ironbucket.Base.Assoc.{Assoc, insert}
use ironbucket.Wal.{
  WalOp, put, delete, create_bucket, delete_bucket, update_metadata, delete_metadata, escape,
  op_fields, format_line, write_batch, new,
}
use ironbucket.Replicator.{
  WalEntry, ReplicatorConfig, parse_wal_line, last_sequence, accepts, read_entry, read_loop,
  read_wal_entries, ReplicatorState,
}
use ironbucket.Replicator.Format.{entry_of}
use ironbucket.Replicator.RoundTrip.{plain_texts, IsReadable, parse_wal_line-format_line}
use ironbucket.Replicator.Reading.{last_sequence-insert, accepts_newer, accepted}

abbrev NoNewlines : Text → WalOp → Type 0
NoNewlines node op = All (Lacks 10) (node ∷ plain_texts op)

show-Lacks : (n : ℕ) → Lacks 10 (show n)
show-Lacks n = Digits-Lacks 10 (show n) (omega arith) (show-Digits n)

escape-Lacks : (content : Text) → Lacks 10 (escape content)
unfolding escape
escape-Lacks content =
    Lacks-replace_char_other 9 10 (b'\\' ∷ b't' ∷ []) (replace_char 10 (b'\\' ∷ b'n' ∷ []) content)
      (omega arith) (Lacks-replace_char 10 (b'\\' ∷ b'n' ∷ []) content (omega arith))

fields_Lacks :
    (node : Text) (seq time : ℕ) (op : WalOp)
    → NoNewlines node op
    → All (Lacks 10) (op_fields node seq time op)
unfolding op_fields
fields_Lacks node seq time (put bucket key size etag) h = (
  omega arith,
  (h.0, (show-Lacks seq, (show-Lacks time, (h.1.0, (h.1.1.0, (show-Lacks size, h.1.1.1)))))),
)
fields_Lacks node seq time (delete bucket key) h =
    (omega arith, (h.0, (show-Lacks seq, (show-Lacks time, h.1))))
fields_Lacks node seq time (create_bucket bucket) h =
    (omega arith, (h.0, (show-Lacks seq, (show-Lacks time, h.1))))
fields_Lacks node seq time (delete_bucket bucket) h =
    (omega arith, (h.0, (show-Lacks seq, (show-Lacks time, h.1))))
fields_Lacks node seq time (update_metadata bucket kind content) h = (
  omega arith,
  (h.0, (show-Lacks seq, (show-Lacks time, (h.1.0, (h.1.1.0, (escape-Lacks content, tt)))))),
)
fields_Lacks node seq time (delete_metadata bucket kind) h =
    (omega arith, (h.0, (show-Lacks seq, (show-Lacks time, h.1))))

-- The first line read is the one written first.
lines-format_line :
    (node : Text) (seq time : ℕ) (op : WalOp) (text : Text)
    → NoNewlines node op
    → lines (format_line node seq time op ++ text) ≡ format_line node seq time op ∷ lines text
unfolding format_line
lines-format_line node seq time op text h =
    let fields = join 9 (op_fields node seq time op) in
    ap lines (append_assoc fields (10 ∷ []) text)
    ∙ lines_line fields text (
        Lacks-join 10 9 (op_fields node seq time op) (omega arith)
          (fields_Lacks node seq time op h))

-- The entries of a batch, with consecutive sequence numbers.
unfoldable pub entries_of : Text → ℕ → ℕ → List WalOp → List WalEntry
entries_of node time seq [] = []
entries_of node time seq (op ∷ ops) = entry_of node seq time op ∷ entries_of node time (seq + 1) ops

-- Every operation of the batch can be written on a line of its own and read back.
abbrev pub AllReadable : Text → ℕ → ℕ → List WalOp → Type 0
AllReadable node time seq [] = Unit
AllReadable node time seq (op ∷ ops) =
    IsReadable node seq time op × NoNewlines node op × AllReadable node time (seq + 1) ops

read_skipped :
    (node : Text) (e : WalEntry) (es : List WalEntry) (seen : Assoc ℕ)
    → accepts node seen e ≡ false
    → read_entry node (some e) (es, seen) ≡ (es, seen)
unfolding read_entry
read_skipped node e es seen h = rw h

accepts_zero :
    (node : Text) (seen : Assoc ℕ) (e : WalEntry) → e.sequence_id ≡ 0 → accepts node seen e ≡ false
accepts_zero node seen e z = elim (Bool-cases (accepts node seen e)) [
  | inl h ↦ absurd (omega (arith, (accepted node seen e h).1))
  | inr h ↦ h
]

read_accepted :
    (node : Text) (e : WalEntry) (es : List WalEntry) (seen : Assoc ℕ)
    → accepts node seen e ≡ true
    → read_entry node (some e) (es, seen) ≡ (es ++ e ∷ [], insert e.node_id e.sequence_id seen)
unfolding read_entry
read_accepted node e es seen h = rw h

entry_of_node :
    (node : Text) (seq time : ℕ) (op : WalOp) → (entry_of node seq time op).node_id ≡ node
unfolding entry_of
entry_of_node node seq time (put bucket key size etag) = refl
entry_of_node node seq time _ = refl

entry_of_sequence :
    (node : Text) (seq time : ℕ) (op : WalOp) → (entry_of node seq time op).sequence_id ≡ seq
unfolding entry_of
entry_of_sequence node seq time (put bucket key size etag) = refl
entry_of_sequence node seq time _ = refl

-- A line that leaves room in the batch passes on to the next.
read_loop_next :
    (c : ReplicatorConfig) (line : Text) (rest : List Text) (bytes : ℕ)
    (acc acc' : List WalEntry × Assoc ℕ)
    → read_entry c.node_id (parse_wal_line (trim line)) acc ≡ acc'
    → length acc'.0 < c.max_batch_size
    → read_loop c (line ∷ rest) bytes acc ≡ read_loop c rest (bytes + length line) acc'
unfolding read_loop
read_loop_next c line rest bytes acc acc' e room =
    subst
      (λ a. read_loop c (line ∷ rest) bytes acc ≡ (
        if leb c.max_batch_size (length a.0)
        then (a, bytes + length line)
        else read_loop c rest (bytes + length line) a))
      e refl
    ∙ rw (leb-false c.max_batch_size (length acc'.0) room)

module _ (c : ReplicatorConfig) (time : ℕ) where
  read_line :
      (seq : ℕ) (op : WalOp) (es : List WalEntry) (seen : Assoc ℕ)
      → IsReadable c.node_id seq time op
      → last_sequence c.node_id seen < seq
      → read_entry c.node_id (parse_wal_line (trim (format_line c.node_id seq time op))) (es, seen)
        ≡ (es ++ entry_of c.node_id seq time op ∷ [], insert c.node_id seq seen)
  read_line seq op es seen r newer =
      let e = entry_of c.node_id seq time op in
      let own = entry_of_node c.node_id seq time op in
      let number = entry_of_sequence c.node_id seq time op in
      ap (λ p. read_entry c.node_id p (es, seen))
        (parse_wal_line-format_line c.node_id seq time op r)
      ∙ read_accepted c.node_id e es seen (
          accepts_newer c.node_id seen e own
            (subst (λ n. last_sequence c.node_id seen < n) (sym number) newer))
      ∙ ap₂ (λ n k. (es ++ e ∷ [], insert n k seen)) own number

  pub read_loop-write_batch :
      (ops : List WalOp) (seq bytes : ℕ) (es : List WalEntry) (seen : Assoc ℕ)
      → AllReadable c.node_id time seq ops
      → seq + length ops ≤ u64_max
      → length es + length ops < c.max_batch_size
      → last_sequence c.node_id seen < seq
      → (read_loop c (lines (write_batch c.node_id time seq ops).0) bytes (es, seen)).0.0
        ≡ es ++ entries_of c.node_id time seq ops
  unfolding write_batch entries_of
  read_loop-write_batch [] seq bytes es seen r fits room newer =
      unfold read_loop lines in sym (append-nil es)
  read_loop-write_batch (op ∷ ops) seq bytes es seen r fits room newer =
      let line = format_line c.node_id seq time op in
      let e = entry_of c.node_id seq time op in
      let next : (seq + 1) % 2 ^ 64 ≡ seq + 1 = omega arith in
      rw next (
        ap (λ ls. (read_loop c ls bytes (es, seen)).0.0)
          (lines-format_line c.node_id seq time op (write_batch c.node_id time (seq + 1) ops).0 r.1)
        ∙ ap (λ q. q.0.0)
            (read_loop_next c line (lines (write_batch c.node_id time (seq + 1) ops).0) bytes
              (es, seen) (es ++ e ∷ [], insert c.node_id seq seen)
              (read_line seq op es seen r.0 newer) (omega (arith, length-append es (e ∷ []))))
        ∙ read_loop-write_batch ops (seq + 1) (bytes + length line) (es ++ e ∷ [])
            (insert c.node_id seq seen) r.2 (omega arith) (omega (arith, length-append es (e ∷ [])))
            (omega (arith, last_sequence-insert c.node_id seq seen))
        ∙ append_assoc es (e ∷ []) (entries_of c.node_id time (seq + 1) ops))

-- A batch that the writer appends to a log which the replicator has read to the end is read whole:
-- if the operations are readable, the numbers fit, the batch is smaller than the replicator's, and
-- the sequence numbers are above the last one processed, then the entries are those operations,
-- in order, with consecutive sequence numbers.
pub read_wal_entries-write_batch :
    (c : ReplicatorConfig) (st : ReplicatorState) (old : Text) (time seq : ℕ) (ops : List WalOp)
    → st.last_processed_position ≡ length old
    → AllReadable c.node_id time seq ops
    → seq + length ops ≤ u64_max
    → length ops < c.max_batch_size
    → last_sequence c.node_id st.last_processed_sequence < seq
    → (read_wal_entries c (old ++ (write_batch c.node_id time seq ops).0) st).0
      ≡ entries_of c.node_id time seq ops
unfolding read_wal_entries
read_wal_entries-write_batch c st old time seq ops e r fits room newer =
    let text = (write_batch c.node_id time seq ops).0 in
    ap (λ t. (read_loop c (lines t) 0 ([], st.last_processed_sequence)).0.0)
      (ap (λ n. drop n (old ++ text)) e ∙ drop-length_append old text)
    ∙ read_loop-write_batch c time ops seq 0 [] st.last_processed_sequence r fits (omega arith)
        newer

-- The first operation of a writer that starts without a log has sequence number 0, and whatever
-- the replicator has read so far, it passes over the line of a readable operation with that number.
pub first_operation_lost :
    (c : ReplicatorConfig) (time : ℕ) (op : WalOp) (es : List WalEntry) (seen : Assoc ℕ)
    → IsReadable c.node_id 0 time op
    → ((new none none c.node_id true).sequence ≡ 0)
      × (read_entry c.node_id (parse_wal_line (trim (format_line c.node_id 0 time op))) (es, seen)
          ≡ (es, seen))
unfolding new
first_operation_lost c time op es seen r = (
  refl,
  ap (λ p. read_entry c.node_id p (es, seen)) (parse_wal_line-format_line c.node_id 0 time op r)
      ∙ read_skipped c.node_id (entry_of c.node_id 0 time op) es seen (
          accepts_zero c.node_id seen (entry_of c.node_id 0 time op)
            (entry_of_sequence c.node_id 0 time op)),
)

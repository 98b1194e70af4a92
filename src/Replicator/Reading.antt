-- ===== src/Replicator/Reading.antt =====
-- What `read_wal_entries` takes from the log.
use mathlib.Core.Path.{ap₂}
use ironbucket.Base.{
  ℕ, ◌+◌, ◌<◌, ◌≡◌, sym, ap, ◌∙◌, inl, inr, Bool, true, false, ◌&&◌, Option, none, some, List, [],
  ◌∷◌, ◌++◌, length, ltb, leb, if◌then◌else◌, Bool-cases, subst, &&-eq_true, ltb→lt, lt→ltb, drop,
}
use ironbucket.Base.Text.{Text, text_eq, text_eq→eq, eq→text_eq, text_eq_refl, lines}
use ironbucket.Base.Trim.{trim}
use ironbucket.Base.Assoc.{Assoc, insert, lookup-insert}
use ironbucket.Replicator.{
  WalEntry, ReplicatorConfig, ReplicatorState, parse_wal_line, last_sequence, accepts, read_entry,
  read_loop, read_wal_entries,
}

pub last_sequence-insert :
    (node : Text) (n : ℕ) (seen : Assoc ℕ) → last_sequence node (insert node n seen) ≡ n
unfolding last_sequence
last_sequence-insert node n seen =
    rw (last_sequence, lookup-insert node node n seen, text_eq_refl node)

-- Entries of one node whose sequence numbers grow, all of them above `low` and the last `high`.
pub data Ascending (node : Text) : ℕ → ℕ → List WalEntry → Type 0 where
  done : {n : ℕ} → Ascending node n n []
  next :
      {low high : ℕ} {es : List WalEntry} (e : WalEntry)
      → Ascending node low high es
      → e.node_id ≡ node
      → high < e.sequence_id
      → Ascending node low e.sequence_id (es ++ e ∷ [])

pub accepted :
    (node : Text) (seen : Assoc ℕ) (e : WalEntry)
    → accepts node seen e ≡ true
    → (e.node_id ≡ node) × (last_sequence e.node_id seen < e.sequence_id)
unfolding accepts
accepted node seen e h =
    let (same, newer) =
      &&-eq_true (text_eq e.node_id node) (ltb (last_sequence e.node_id seen) e.sequence_id) h in
    (text_eq→eq e.node_id node same, ltb→lt (last_sequence e.node_id seen) e.sequence_id newer)

pub accepts_newer :
    (node : Text) (seen : Assoc ℕ) (e : WalEntry)
    → e.node_id ≡ node
    → last_sequence node seen < e.sequence_id
    → accepts node seen e ≡ true
unfolding accepts
accepts_newer node seen e same newer =
    let own : text_eq e.node_id node ≡ true = eq→text_eq e.node_id node same in
    let new : ltb (last_sequence e.node_id seen) e.sequence_id ≡ true =
      lt→ltb (last_sequence e.node_id seen) e.sequence_id
        (subst (λ n. last_sequence n seen < e.sequence_id) (sym same) newer) in
    ap₂ ◌&&◌ own new

abbrev Grows : Text → ℕ → List WalEntry × Assoc ℕ → Type 0
Grows node low acc = Ascending node low (last_sequence node acc.1) acc.0

read_entry-Grows :
    (node : Text) (low : ℕ) (parsed : Option WalEntry) (acc : List WalEntry × Assoc ℕ)
    → Grows node low acc
    → Grows node low (read_entry node parsed acc)
unfolding read_entry
read_entry-Grows node low none acc g = g
read_entry-Grows node low (some e) (es, seen) g = elim (Bool-cases (accepts node seen e)) [
  | inr skipped ↦ rw skipped g
  | inl taken ↦ rw taken (extended taken)
]
  where
    extended :
        accepts node seen e ≡ true
        → Ascending node low
            (last_sequence node (insert e.node_id e.sequence_id seen))
            (es ++ e ∷ [])
    extended taken =
        let (same, newer) = accepted node seen e taken in
        subst (λ n. Ascending node low n (es ++ e ∷ []))
          (sym (last_sequence-insert node e.sequence_id seen)
            ∙ ap (λ n. last_sequence node (insert n e.sequence_id seen)) (sym same))
          (next e g same (subst (λ n. last_sequence n seen < e.sequence_id) same newer))

read_loop-Grows :
    (c : ReplicatorConfig) (low : ℕ) (ls : List Text) (bytes : ℕ) (acc : List WalEntry × Assoc ℕ)
    → Grows c.node_id low acc
    → Grows c.node_id low (read_loop c ls bytes acc).0
unfolding read_loop
read_loop-Grows c low [] bytes acc g = g
read_loop-Grows c low (line ∷ rest) bytes acc g =
    stop (leb c.max_batch_size (length acc'.0)) g'
      (read_loop-Grows c low rest (bytes + length line) acc' g')
  where
    acc' : List WalEntry × Assoc ℕ
    acc' = read_entry c.node_id (parse_wal_line (trim line)) acc

    g' : Grows c.node_id low acc'
    g' = read_entry-Grows c.node_id low (parse_wal_line (trim line)) acc g

    stop :
        (b : Bool)
        → Grows c.node_id low acc'
        → Grows c.node_id low (read_loop c rest (bytes + length line) acc').0
        → Grows c.node_id low
            (if b
              then (acc', bytes + length line)
              else read_loop c rest (bytes + length line) acc').0
    stop true p q = p
    stop false p q = q

-- Whatever the log holds, the entries read are of our own node, their sequence numbers grow
-- strictly from the last one processed before, and the last of them is the one remembered; so no
-- entry is processed twice, and none with sequence number 0 ever.
pub read_wal_entries-Ascending :
    (c : ReplicatorConfig) (file : Text) (st : ReplicatorState)
    → Ascending c.node_id
        (last_sequence c.node_id st.last_processed_sequence)
        (last_sequence c.node_id (read_wal_entries c file st).1.last_processed_sequence)
        (read_wal_entries c file st).0
unfolding read_wal_entries
read_wal_entries-Ascending c file st =
    read_loop-Grows c _ (lines (drop st.last_processed_position file)) 0
      ([], st.last_processed_sequence) done

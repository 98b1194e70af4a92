-- ===== src/Wal/Restart.antt =====
-- The sequence number that a restart begins with.
use ironbucket.Base.{
  ℕ, ◌+◌, ◌%◌, ◌^◌, ◌≤◌, ◌<◌, ◌≡◌, ap, ◌∙◌, true, some, List, [], ◌∷◌, All, arith,
}
use ironbucket.Base.Text.{Text}
use ironbucket.Base.Number.{show, Digits, show-Digits, parse_uint, parse_uint-show, u64_max}
use ironbucket.Base.Trim.{IsPlain, trim_plain}
use ironbucket.Wal.{WalOp, WalWriter, write_batch, flush, saved_sequence, load_last_sequence, new}

Digits-IsPlain : (s : Text) → Digits s → All IsPlain s
Digits-IsPlain [] h = tt
Digits-IsPlain (c ∷ s) (h, t) = ((omega arith, omega arith), Digits-IsPlain s t)

saved_sequence-show : (n : ℕ) → n ≤ u64_max → saved_sequence (some (show n)) ≡ some n
unfolding saved_sequence
saved_sequence-show n h =
    ap (parse_uint u64_max) (trim_plain (show n) (Digits-IsPlain (show n) (show-Digits n)))
    ∙ parse_uint-show u64_max n h

write_batch-lt :
    (node : Text) (timestamp sequence : ℕ) (ops : List WalOp)
    → sequence < 2 ^ 64
    → (write_batch node timestamp sequence ops).1 < 2 ^ 64
unfolding write_batch
write_batch-lt node timestamp sequence [] h = h
write_batch-lt node timestamp sequence (op ∷ ops) h =
    write_batch-lt node timestamp ((sequence + 1) % 2 ^ 64) ops (omega arith)

-- A writer that starts behind a flush, on the files that the flush left, goes on with the sequence
-- number that the flushed writer would have used next, if that writer's number fits 64 bits.
pub new-flush :
    (timestamp : ℕ) (w : WalWriter)
    → w.sequence < 2 ^ 64
    → (new (some (flush timestamp w).file) (flush timestamp w).state_file w.node_id true).sequence
      ≡ (flush timestamp w).sequence
unfolding new flush load_last_sequence
new-flush timestamp w h =
    let next = (write_batch w.node_id timestamp w.sequence w.batch).1 in
    let fits = write_batch-lt w.node_id timestamp w.sequence w.batch h in
    rw (saved_sequence-show next (omega arith))

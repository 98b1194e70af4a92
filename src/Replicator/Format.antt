-- ===== src/Replicator/Format.antt =====
-- The writer's lines, read by the replicator.
use ironbucket.Base.{
  ℕ, ◌≡◌, refl, sym, ap, ◌∙◌, ◌≢◌, none, some, List, [], ◌∷◌, ◌++◌, append_assoc, arith, All,
  reverse,
}
use ironbucket.Base.Text.{Text, codes, Lacks, split, join, split-join}
use ironbucket.Base.Number.{Digits}
use ironbucket.Base.Trim.{trim, trim_line, IsPlain, Spaces, ascii_space}
use ironbucket.Wal.{
  WalOp, put, delete, create_bucket, delete_bucket, update_metadata, delete_metadata, or_empty,
  escape,
}
use ironbucket.Replicator.{WalEntry, non_empty}

-- The entry that stands for an operation at a target.
unfoldable pub entry_of : Text → ℕ → ℕ → WalOp → WalEntry
unfolding non_empty or_empty
entry_of node seq time (put bucket key size etag) = record {
  node_id = node;
  sequence_id = seq;
  timestamp = time;
  operation = codes "PUT";
  bucket = bucket;
  key = key;
  size = some size;
  etag = non_empty (or_empty etag);
}
entry_of node seq time (delete bucket key) = record {
  node_id = node;
  sequence_id = seq;
  timestamp = time;
  operation = codes "DELETE";
  bucket = bucket;
  key = key;
  size = none;
  etag = none;
}
entry_of node seq time (create_bucket bucket) = record {
  node_id = node;
  sequence_id = seq;
  timestamp = time;
  operation = codes "CREATE_BUCKET";
  bucket = bucket;
  key = [];
  size = none;
  etag = none;
}
entry_of node seq time (delete_bucket bucket) = record {
  node_id = node;
  sequence_id = seq;
  timestamp = time;
  operation = codes "DELETE_BUCKET";
  bucket = bucket;
  key = [];
  size = none;
  etag = none;
}
entry_of node seq time (update_metadata bucket metadata_type content) = record {
  node_id = node;
  sequence_id = seq;
  timestamp = time;
  operation = codes "UPDATE_METADATA";
  bucket = bucket;
  key = metadata_type;
  size = none;
  etag = some (escape content);
}
entry_of node seq time (delete_metadata bucket metadata_type) = record {
  node_id = node;
  sequence_id = seq;
  timestamp = time;
  operation = codes "DELETE_METADATA";
  bucket = bucket;
  key = metadata_type;
  size = none;
  etag = none;
}

-- A text that ends in a printable character.
abbrev pub EndsPlain : Text → Type 0
EndsPlain t = (r : Text) × (d : ℕ) × (t ≡ r ++ d ∷ []) × IsPlain d

EndsPlain-append : (s t : Text) → EndsPlain t → EndsPlain (s ++ t)
EndsPlain-append s t (r, d, e, p) =
    (s ++ r, d, ap (λ x. s ++ x) e ∙ sym (append_assoc s r (d ∷ [])), p)

abbrev pub last_text : Text → List Text → Text
last_text w [] = w
last_text w (v ∷ ws) = last_text v ws

pub EndsPlain-join :
    (w : Text) (ws : List Text) → EndsPlain (last_text w ws) → EndsPlain (join 9 (w ∷ ws))
unfolding join
EndsPlain-join w [] h = h
EndsPlain-join w (v ∷ ws) h =
    EndsPlain-append w (9 ∷ join 9 (v ∷ ws))
      (EndsPlain-append (9 ∷ []) (join 9 (v ∷ ws)) (EndsPlain-join v ws h))

-- An empty last field leaves a separator at the end.
join-snoc : (w : Text) (ws : List Text) → join 9 (w ∷ ws ++ [] ∷ []) ≡ join 9 (w ∷ ws) ++ 9 ∷ []
unfolding join
join-snoc w [] = refl
join-snoc w (v ∷ ws) =
    ap (λ t. w ++ 9 ∷ t) (join-snoc v ws) ∙ sym (append_assoc w (9 ∷ join 9 (v ∷ ws)) (9 ∷ []))

pub Digits-EndsPlain : (s : Text) → s ≢ [] → Digits s → EndsPlain s
Digits-EndsPlain [] n h = absurd (n refl)
Digits-EndsPlain (c ∷ []) n h = ([], c, refl, omega arith)
Digits-EndsPlain (c ∷ d ∷ s) n h =
    EndsPlain-append (c ∷ []) (d ∷ s) (Digits-EndsPlain (d ∷ s) (cc) h.1)

trim_text :
    (a b : ℕ) (x spaces : Text)
    → IsPlain a
    → EndsPlain (a ∷ b ∷ x)
    → Spaces spaces
    → trim ((a ∷ b ∷ x) ++ reverse spaces) ≡ a ∷ b ∷ x
trim_text a b x spaces p ([], d, e, q) h = absurd (cc)
trim_text a b x spaces p (c ∷ s, d, e, q) h =
    let f : a ≡ c = cc in
    let whole : a ∷ b ∷ x ≡ a ∷ s ++ d ∷ [] = e ∙ ap (λ z. z ∷ s ++ d ∷ []) (sym f) in
    ap (λ t. trim (t ++ reverse spaces)) whole
    ∙ ap trim (append_assoc (a ∷ s) (d ∷ []) (reverse spaces))
    ∙ trim_line a d s spaces p q h
    ∙ sym whole

-- A line whose fields lack the separator, and whose last field ends in a printable character, is
-- split into those fields again; the second field list begins with an operation's name.
pub split_fields :
    (a b : ℕ) (x : Text) (ws : List Text)
    → IsPlain a
    → All (Lacks 9) ((a ∷ b ∷ x) ∷ ws)
    → EndsPlain (last_text (a ∷ b ∷ x) ws)
    → split 9 (trim (join 9 ((a ∷ b ∷ x) ∷ ws) ++ 10 ∷ [])) ≡ (a ∷ b ∷ x) ∷ ws
unfolding join ascii_space
split_fields a b x ws p h e =
    ap (split 9) (trimmed ws (EndsPlain-join (a ∷ b ∷ x) ws e)) ∙ split-join 9 (a ∷ b ∷ x) ws h
  where
    trimmed :
        (vs : List Text)
        → EndsPlain (join 9 ((a ∷ b ∷ x) ∷ vs))
        → trim (join 9 ((a ∷ b ∷ x) ∷ vs) ++ 10 ∷ []) ≡ join 9 ((a ∷ b ∷ x) ∷ vs)
    trimmed [] q = trim_text a b x (10 ∷ []) p q (refl, tt)
    trimmed (v ∷ vs) q = trim_text a b (x ++ 9 ∷ join 9 (v ∷ vs)) (10 ∷ []) p q (refl, tt)

-- The same where an empty field stands last: trimming takes its separator off.
pub split_fields_empty :
    (a b : ℕ) (x v : Text) (ws : List Text)
    → IsPlain a
    → All (Lacks 9) ((a ∷ b ∷ x) ∷ v ∷ ws)
    → EndsPlain (last_text v ws)
    → split 9 (trim (join 9 ((a ∷ b ∷ x) ∷ v ∷ ws ++ [] ∷ []) ++ 10 ∷ [])) ≡ (a ∷ b ∷ x) ∷ v ∷ ws
unfolding join ascii_space
split_fields_empty a b x v ws p h e =
    ap (λ t. split 9 (trim (t ++ 10 ∷ []))) (join-snoc (a ∷ b ∷ x) (v ∷ ws))
    ∙ ap (λ t. split 9 (trim t)) (append_assoc (join 9 ((a ∷ b ∷ x) ∷ v ∷ ws)) (9 ∷ []) (10 ∷ []))
    ∙ ap (split 9) (
        trim_text a b (x ++ 9 ∷ join 9 (v ∷ ws)) (10 ∷ 9 ∷ []) p
          (EndsPlain-join (a ∷ b ∷ x) (v ∷ ws) e) (refl, (refl, tt)))
    ∙ split-join 9 (a ∷ b ∷ x) (v ∷ ws) h

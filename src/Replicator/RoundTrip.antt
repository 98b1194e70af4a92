-- ===== src/Replicator/RoundTrip.antt =====
-- What the writer logs is what the replicator reads.
use ironbucket.Base.{
  ℕ, ◌≤◌, ◌≡◌, refl, ap, ◌∙◌, ◌⊎◌, inl, inr, some, List, [], ◌∷◌, ◌++◌, arith, All,
}
use ironbucket.Base.Text.{Text, codes, Lacks, join, split, Lacks-replace_char, replace_char}
use ironbucket.Base.Number.{show, u64_max, parse_uint-show, show-Digits, show-ne-nil, Digits-Lacks}
use ironbucket.Base.Trim.{trim}
use ironbucket.Wal.{
  WalOp, put, delete, create_bucket, delete_bucket, update_metadata, delete_metadata, or_empty,
  escape, op_fields, format_line,
}
use ironbucket.Replicator.{parse_parts, parse_wal_line}
use ironbucket.Replicator.Format.{
  entry_of, EndsPlain, Digits-EndsPlain, split_fields, split_fields_empty,
}

-- The texts of an operation that stand in its line as they are.
abbrev pub plain_texts : WalOp → List Text
plain_texts (put bucket key size etag) = bucket ∷ key ∷ or_empty etag ∷ []
plain_texts (delete bucket key) = bucket ∷ key ∷ []
plain_texts (create_bucket bucket) = bucket ∷ []
plain_texts (delete_bucket bucket) = bucket ∷ []
plain_texts (update_metadata bucket kind content) = bucket ∷ kind ∷ []
plain_texts (delete_metadata bucket kind) = bucket ∷ kind ∷ []

-- The last field of the line ends in a printable character; a PUT may also have no etag.
abbrev pub EndsWell : WalOp → Type 0
EndsWell (put bucket key size etag) = (or_empty etag ≡ []) ⊎ EndsPlain (or_empty etag)
EndsWell (delete bucket key) = EndsPlain key
EndsWell (create_bucket bucket) = EndsPlain bucket
EndsWell (delete_bucket bucket) = EndsPlain bucket
EndsWell (update_metadata bucket kind content) = EndsPlain (escape content)
EndsWell (delete_metadata bucket kind) = EndsPlain kind

abbrev pub SizeFits : WalOp → Type 0
SizeFits (put bucket key size etag) = size ≤ u64_max
SizeFits _ = Unit

-- The numbers fit a `u64`, no text has a tab, and the line has no white space at its end.
pub record IsReadable (node : Text) (sequence timestamp : ℕ) (op : WalOp) : Type 0 where
  pub sequence_fits : sequence ≤ u64_max
  pub timestamp_fits : timestamp ≤ u64_max
  pub size_fits : SizeFits op
  pub no_tabs : All (Lacks 9) (node ∷ plain_texts op)
  pub ends_well : EndsWell op

escape-Lacks : (content : Text) → Lacks 9 (escape content)
unfolding escape
escape-Lacks content =
    Lacks-replace_char 9 (b'\\' ∷ b't' ∷ []) (replace_char 10 (b'\\' ∷ b'n' ∷ []) content)
      (omega arith)

show-Lacks : (n : ℕ) → Lacks 9 (show n)
show-Lacks n = Digits-Lacks 9 (show n) (omega arith) (show-Digits n)

-- The fields in front lack the separator, if the others do.
front_Lacks :
    (node : Text) (seq time : ℕ) (rest : List Text)
    → Lacks 9 node
    → All (Lacks 9) rest
    → All (Lacks 9) (node ∷ show seq ∷ show time ∷ rest)
front_Lacks node seq time rest n h = (n, (show-Lacks seq, (show-Lacks time, h)))

parsed :
    (node : Text) (seq time : ℕ) (op : WalOp)
    → IsReadable node seq time op
    → parse_parts (op_fields node seq time op) ≡ some (entry_of node seq time op)
unfolding parse_parts op_fields entry_of
parsed node seq time (put bucket key size etag) r = simp (
  parse_uint-show u64_max seq r.sequence_fits,
  parse_uint-show u64_max time r.timestamp_fits,
  parse_uint-show u64_max size r.size_fits,
)
parsed node seq time _ r =
    simp
      (parse_uint-show u64_max seq r.sequence_fits, parse_uint-show u64_max time r.timestamp_fits)

no_etag :
    (node bucket key : Text) (seq time size : ℕ)
    → parse_parts (codes "PUT" ∷ node ∷ show seq ∷ show time ∷ bucket ∷ key ∷ show size ∷ [])
      ≡ parse_parts (codes "PUT" ∷ node ∷ show seq ∷ show time ∷ bucket ∷ key ∷ show size ∷ [] ∷ [])
unfolding parse_parts
no_etag node bucket key seq time size = refl

-- The fields of the line of a PUT, with and without an etag.
put_read :
    (node bucket key etag : Text) (seq time size : ℕ)
    → All (Lacks 9) (node ∷ bucket ∷ key ∷ etag ∷ [])
    → (etag ≡ []) ⊎ EndsPlain etag
    → parse_parts (
        split 9 (
          trim (
            join 9
              (codes "PUT" ∷ node ∷ show seq ∷ show time ∷ bucket ∷ key ∷ show size ∷ etag ∷ [])
            ++ 10 ∷ [])))
      ≡ parse_parts
          (codes "PUT" ∷ node ∷ show seq ∷ show time ∷ bucket ∷ key ∷ show size ∷ etag ∷ [])
put_read node bucket key etag seq time size h (inr e) = ap parse_parts (
    split_fields b'P' b'U' (codes "T")
      (node ∷ show seq ∷ show time ∷ bucket ∷ key ∷ show size ∷ etag ∷ []) (omega arith)
      (
        omega arith,
        front_Lacks node seq time (bucket ∷ key ∷ show size ∷ etag ∷ []) h.0
            (h.1.0, (h.1.1.0, (show-Lacks size, h.1.1.1))),
      )
      e)
put_read node bucket key etag seq time size h (inl e) = rw e (
    ap parse_parts (
      split_fields_empty b'P' b'U' (codes "T") node
        (show seq ∷ show time ∷ bucket ∷ key ∷ show size ∷ []) (omega arith)
        (
          omega arith,
          front_Lacks node seq time (bucket ∷ key ∷ show size ∷ []) h.0
              (h.1.0, (h.1.1.0, (show-Lacks size, tt))),
        )
        (Digits-EndsPlain (show size) (show-ne-nil size) (show-Digits size)))
    ∙ no_etag node bucket key seq time size)

-- The fields of the line, read back.
fields_read :
    (node : Text) (seq time : ℕ) (op : WalOp)
    → IsReadable node seq time op
    → parse_parts (split 9 (trim (format_line node seq time op)))
      ≡ parse_parts (op_fields node seq time op)
unfolding op_fields format_line
fields_read node seq time (put bucket key size etag) r =
    put_read node bucket key (or_empty etag) seq time size r.no_tabs r.ends_well
fields_read node seq time (delete bucket key) r = ap parse_parts (
    split_fields b'D' b'E' (codes "LETE") (node ∷ show seq ∷ show time ∷ bucket ∷ key ∷ [])
      (omega arith)
      (omega arith, front_Lacks node seq time (bucket ∷ key ∷ []) r.no_tabs.0 r.no_tabs.1)
      r.ends_well)
fields_read node seq time (create_bucket bucket) r = ap parse_parts (
    split_fields b'C' b'R' (codes "EATE_BUCKET") (node ∷ show seq ∷ show time ∷ bucket ∷ [])
      (omega arith) (omega arith, front_Lacks node seq time (bucket ∷ []) r.no_tabs.0 r.no_tabs.1)
      r.ends_well)
fields_read node seq time (delete_bucket bucket) r = ap parse_parts (
    split_fields b'D' b'E' (codes "LETE_BUCKET") (node ∷ show seq ∷ show time ∷ bucket ∷ [])
      (omega arith) (omega arith, front_Lacks node seq time (bucket ∷ []) r.no_tabs.0 r.no_tabs.1)
      r.ends_well)
fields_read node seq time (update_metadata bucket kind content) r = ap parse_parts (
    split_fields b'U' b'P' (codes "DATE_METADATA")
      (node ∷ show seq ∷ show time ∷ bucket ∷ kind ∷ escape content ∷ []) (omega arith)
      (
        omega arith,
        front_Lacks node seq time (bucket ∷ kind ∷ escape content ∷ []) r.no_tabs.0
            (r.no_tabs.1.0, (r.no_tabs.1.1.0, (escape-Lacks content, tt))),
      )
      r.ends_well)
fields_read node seq time (delete_metadata bucket kind) r = ap parse_parts (
    split_fields b'D' b'E' (codes "LETE_METADATA")
      (node ∷ show seq ∷ show time ∷ bucket ∷ kind ∷ []) (omega arith)
      (omega arith, front_Lacks node seq time (bucket ∷ kind ∷ []) r.no_tabs.0 r.no_tabs.1)
      r.ends_well)

-- A line that the writer makes of a readable operation, trimmed and parsed by the replicator, is
-- the entry with the operation's name, numbers and texts; the content of a metadata update comes
-- back escaped.
pub parse_wal_line-format_line :
    (node : Text) (sequence timestamp : ℕ) (op : WalOp)
    → IsReadable node sequence timestamp op
    → parse_wal_line (trim (format_line node sequence timestamp op))
      ≡ some (entry_of node sequence timestamp op)
unfolding parse_wal_line
parse_wal_line-format_line node sequence timestamp op r =
    fields_read node sequence timestamp op r ∙ parsed node sequence timestamp op r

-- ===== src/Chunked/Decode.antt =====
-- What the decoder makes of an encoded sequence of chunks.
use ironbucket.Base.{
  ℕ, zero, suc, ◌+◌, ◌-◌, ◌%◌, ◌^◌, ◌≤◌, ◌<◌, ◌≡◌, refl, sym, ap, ◌∙◌, ◌≢◌, inl, inr, true, false,
  some, List, [], ◌∷◌, ◌++◌, length, take, drop, length-append, is_empty, leb, All, arith, ◌==◌,
  take-length_append, drop-length_append, Bool-cases, leb_iff, ltb, ltb-false, ==_iff, subst,
}
use ironbucket.Base.Text.{Text, Lacks, find, starts_with}
use ironbucket.Chunked.{
  crlf, find_sequence, chunk_size, skip_crlf, prefixed, decode, parse_chunked_data,
  object_parse_chunked_data,
}

-- A chunk: its header, which gives the size of its data, and its data.
pub record Chunk : Type 0 where
  pub header : Text
  pub payload : Text

-- The header holds no carriage return and gives the size of the data, which is not empty.
pub record IsChunk (c : Chunk) : Type 0 where
  pub one_line : Lacks 13 c.header
  pub gives_size : chunk_size c.header ≡ some (length c.payload)
  pub some_data : c.payload ≢ []

abbrev pub encode : List Chunk → Text → Text
encode [] last = last ++ (crlf ++ crlf)
encode (c ∷ cs) last = c.header ++ (crlf ++ (c.payload ++ (crlf ++ encode cs last)))

abbrev pub contents : List Chunk → Text
contents [] = []
contents (c ∷ cs) = c.payload ++ contents cs

find-crlf :
    (header rest : Text)
    → Lacks 13 header
    → find (header ++ (crlf ++ rest)) crlf ≡ some (length header)
unfolding find starts_with
find-crlf [] rest h = refl
find-crlf (x ∷ header) rest (h, t) = elim (Bool-cases (x == 13)) [
  | inl e ↦ absurd (h ((==_iff x 13).0 e))
  | inr e ↦ rw (find, e, find-crlf header rest t)
]

drop_past :
    (n : ℕ) (header rest : Text) → n ≡ length header + 2 → drop n (header ++ (crlf ++ rest)) ≡ rest
drop_past n [] rest e = subst (λ v. drop v (crlf ++ rest) ≡ rest) (sym e) refl
drop_past zero (x ∷ header) rest e = absurd (omega arith)
drop_past (suc n) (x ∷ header) rest e = drop_past n header rest (omega arith)

-- One turn of the loop, when a header of the size and enough data are in front.
decode_step :
    (fuel total : ℕ) (header rest : Text) (size : ℕ)
    → Lacks 13 header
    → chunk_size header ≡ some size
    → (size == 0) ≡ false
    → size ≤ length rest
    → length rest ≤ total
    → total < 2 ^ 64
    → decode (suc fuel) total (header ++ (crlf ++ rest))
      ≡ prefixed (take size rest) (decode fuel total (skip_crlf (drop size rest)))
unfolding decode find_sequence
decode_step fuel total header rest size h e n fits within b =
    let whole : (total - length rest + size) % 2 ^ 64 ≡ total - length rest + size = omega arith in
    let inside : leb (total - length rest + size) total ≡ true = (leb_iff _ _).1 (omega arith) in
    let onward : ltb (total - length rest + size) (total - length rest) ≡ false =
      ltb-false _ _ (omega arith) in
    rw (
      decode,
      find_sequence,
      find-crlf header rest h,
      take-length_append header (crlf ++ rest),
      e,
      drop_past (length header + 2) header rest refl,
      n,
      whole,
      inside,
      onward,
    )

decode_end :
    (fuel total : ℕ) (header rest : Text)
    → Lacks 13 header
    → chunk_size header ≡ some 0
    → decode (suc fuel) total (header ++ (crlf ++ rest)) ≡ some []
unfolding decode find_sequence
decode_end fuel total header rest h e =
    rw (decode, find_sequence, find-crlf header rest h, take-length_append header (crlf ++ rest), e)

not_empty : (s : Text) → s ≢ [] → (length s == 0) ≡ false
not_empty [] n = absurd (n refl)
not_empty (x ∷ s) n = ground arith

skip_crlf-crlf : (rest : Text) → skip_crlf (crlf ++ rest) ≡ rest
unfolding skip_crlf starts_with
skip_crlf-crlf rest = refl

decode-chunk :
    (fuel total : ℕ) (c : Chunk) (rest : Text)
    → IsChunk c
    → length (c.payload ++ (crlf ++ rest)) ≤ total
    → total < 2 ^ 64
    → decode (suc fuel) total (c.header ++ (crlf ++ (c.payload ++ (crlf ++ rest))))
      ≡ prefixed c.payload (decode fuel total rest)
decode-chunk fuel total c rest ok within b =
    decode_step fuel total c.header (c.payload ++ (crlf ++ rest)) (length c.payload) ok.one_line
      ok.gives_size (not_empty c.payload ok.some_data)
      (omega (arith, length-append c.payload (crlf ++ rest))) within b
    ∙ rw (
      take-length_append c.payload (crlf ++ rest),
      drop-length_append c.payload (crlf ++ rest),
      skip_crlf-crlf rest,
    )

decode-encode :
    (fuel total : ℕ) (cs : List Chunk) (last : Text)
    → All IsChunk cs
    → Lacks 13 last
    → chunk_size last ≡ some 0
    → length cs < fuel
    → length (encode cs last) ≤ total
    → total < 2 ^ 64
    → decode fuel total (encode cs last) ≡ some (contents cs)
unfolding prefixed
decode-encode zero total cs last oks h e f w b = absurd (omega arith)
decode-encode (suc fuel) total [] last oks h e f w b = decode_end fuel total last crlf h e
decode-encode (suc fuel) total (c ∷ cs) last (ok, oks) h e f w b =
    decode-chunk fuel total c (encode cs last) ok
      (omega (arith, w, length-append c.header (crlf ++ (c.payload ++ (crlf ++ encode cs last))))) b
    ∙ ap (prefixed c.payload) (
        decode-encode fuel total cs last oks h e (omega arith)
          (omega (
            arith,
            w,
            length-append c.header (crlf ++ (c.payload ++ (crlf ++ encode cs last))),
            length-append c.payload (crlf ++ encode cs last),
          ))
          b)

length-encode : (cs : List Chunk) (last : Text) → length cs < length (encode cs last)
length-encode [] last = omega (arith, length-append last (crlf ++ crlf))
length-encode (c ∷ cs) last = omega (
  arith,
  length-append c.header (crlf ++ (c.payload ++ (crlf ++ encode cs last))),
  length-append c.payload (crlf ++ encode cs last),
  length-encode cs last,
)

-- For at least one chunk, where each header is one line that gives the size of its data, no data
-- is empty, the last header gives size 0, and the length fits 64 bits: decoding the encoded chunks gives their data, one
-- behind the other.
pub parse_chunked_data-encode :
    (c : Chunk) (cs : List Chunk) (last : Text)
    → IsChunk c
    → All IsChunk cs
    → Lacks 13 last
    → chunk_size last ≡ some 0
    → length (encode (c ∷ cs) last) < 2 ^ 64
    → parse_chunked_data (encode (c ∷ cs) last) ≡ some (contents (c ∷ cs))
unfolding parse_chunked_data
parse_chunked_data-encode c cs last ok oks h e b = rw (
  parse_chunked_data,
  decode-encode (length (encode (c ∷ cs) last)) (length (encode (c ∷ cs) last)) (c ∷ cs) last
      (ok, oks) h e (length-encode (c ∷ cs) last) (omega arith) b,
  not_nil c.payload (contents cs) ok.some_data,
)
  where
    not_nil : (s t : Text) → s ≢ [] → is_empty (s ++ t) ≡ false
    not_nil [] t n = absurd (n refl)
    not_nil (x ∷ s) t n = refl

-- Where each header is one line that gives the size of its data, no data is empty, the last header
-- gives size 0, and the length of all fits 64 bits: the decoder of uploads gives the data of the encoded chunks, one behind the
-- other, for any number of chunks.
pub object_parse_chunked_data-encode :
    (cs : List Chunk) (last : Text)
    → All IsChunk cs
    → Lacks 13 last
    → chunk_size last ≡ some 0
    → length (encode cs last) < 2 ^ 64
    → object_parse_chunked_data (encode cs last) ≡ some (contents cs)
unfolding object_parse_chunked_data
object_parse_chunked_data-encode cs last oks h e b =
    decode-encode (length (encode cs last)) (length (encode cs last)) cs last oks h e
      (length-encode cs last) (omega arith) b

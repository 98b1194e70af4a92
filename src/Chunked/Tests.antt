-- ===== src/Chunked/Tests.antt =====
-- Two chunks in the encoding with signatures.
use ironbucket.Base.{◌≡◌, refl, some, [], ◌∷◌, arith}
use ironbucket.Base.Text.{Text, codes, Lacks-test}
use ironbucket.Chunked.{chunk_size, object_parse_chunked_data}
use ironbucket.Chunked.Decode.{Chunk, IsChunk, encode, contents, object_parse_chunked_data-encode}

abbrev hello : Chunk
hello = record { header = codes "5;chunk-signature=ab"; payload = codes "hello" }

abbrev world : Chunk
world = record { header = codes "A"; payload = codes "wide world" }

abbrev last_header : Text
last_header = codes "0;chunk-signature=cd"

hello-IsChunk : IsChunk hello
unfolding chunk_size
hello-IsChunk = record {
  one_line = Lacks-test 13 (codes "5;chunk-signature=ab") refl;
  gives_size = refl;
  some_data = λ p. cc;
}

world-IsChunk : IsChunk world
unfolding chunk_size
world-IsChunk = record {
  one_line = Lacks-test 13 (codes "A") refl;
  gives_size = refl;
  some_data = λ p. cc;
}

last_size : chunk_size last_header ≡ some 0
unfolding chunk_size
last_size = refl

object_parse_chunked_data-encode_example :
    object_parse_chunked_data (encode (hello ∷ world ∷ []) last_header)
    ≡ some (contents (hello ∷ world ∷ []))
object_parse_chunked_data-encode_example =
    object_parse_chunked_data-encode (hello ∷ world ∷ []) last_header
      (hello-IsChunk, (world-IsChunk, tt)) (Lacks-test 13 last_header refl) last_size (omega arith)

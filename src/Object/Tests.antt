-- ===== src/Object/Tests.antt =====
-- The theorems about objects at a bucket whose objects are encrypted.
use ironbucket.Base.{
  ◌≡◌, refl, ap, sym, ◌∙◌, inr, ◌⊎◌, arith, ℕ, true, false, none, some, [], ◌∷◌, ◌++◌, length, drop,
  drop-length_append,
}
use ironbucket.Base.Text.{Text, codes, text_eq, ends_with, is_some, Lacks-test}
use ironbucket.Paths.{PathBuf, Location, read, resolve}
use ironbucket.Paths.Frames.{Leads}
use ironbucket.Paths.Touches.{LeadsTo}
use ironbucket.Object.{object_path, metadata_path, plain_data, ℤ, pos, negsuc, UploadPart}
use ironbucket.Object.Sample.{lib, moment, state}
use ironbucket.Object.Fetch.{get_object}
use ironbucket.Object.Write.{put_data, with_bucket}
use ironbucket.Object.Copy.{put_object}
use ironbucket.Object.Kept.{put_object-read}
use ironbucket.Object.Stored.{put_metadata, written_paths, quota_paths}
use ironbucket.Object.Tagging.{parse_tags, tags_xml}
use ironbucket.Object.Tags.{DistinctKeys, PlainTags, parse_tags-tags_xml}
use ironbucket.Base.Assoc.{Assoc}
use ironbucket.Object.Turns.{parse_tags-fuel}
use ironbucket.Object.Multipart.{combined_data, int_eq}
use ironbucket.Object.Parts.{Parts, Distinct}
use ironbucket.Object.Order.{part_of, combined_data-part_of}
use ironbucket.Object.Remove.{delete_object}
use ironbucket.Object.Deleted.{delete_object-get_object}
use ironbucket.Object.Fetched.{AtQuota, put_data-get_object}

decrypt-encrypt :
    (k n plain ciphertext : Text)
    → lib.encrypt k n plain ≡ some ciphertext
    → lib.decrypt k n ciphertext ≡ some plain
decrypt-encrypt k n plain ciphertext h =
    let same : k ++ plain ≡ ciphertext = cc in
    ap (λ c. some (drop (length k) c)) (sym same) ∙ ap some (drop-length_append k plain)

put_data_ok : (put_data lib moment (codes "b") (codes "k") [] (codes "abc") state).1.status ≡ 200
unfolding put_data text_eq
put_data_ok = refl

delete_object-get_object_example :
    ((get_object lib moment
        (codes "b")
        (codes "k")
        none
        (delete_object lib moment (codes "b") (codes "k") state).0).status
      ≡ 404)
    ⊎ LeadsTo
        (delete_object lib moment (codes "b") (codes "k") state).0.files
        (object_path state.storage_path (codes "b") (codes "k"))
        (quota_paths state.storage_path (codes "b"))
delete_object-get_object_example =
    delete_object-get_object lib moment moment (codes "b") (codes "k") state

abbrev body : Text
body = codes "abc"

is_plain : plain_data body ≡ some body
unfolding plain_data
is_plain = refl

not_folder : ends_with (codes "k") (codes "/") ≡ false
unfolding ends_with
not_folder = refl

reads_back :
    lib.metadata_from_str (codes "M")
    ≡ some (
        put_metadata lib moment (codes "b") (codes "k") [] body (with_bucket lib (codes "b") state))
unfolding put_data with_bucket plain_data text_eq
reads_back = refl

metadata_there :
    is_some (
      read
        (put_data lib moment (codes "b") (codes "k") [] body state).0.files
        (metadata_path state.storage_path (codes "b") (codes "k")))
    ≡ true
unfolding put_data text_eq read metadata_path
metadata_there = refl

put_data-get_object_example :
    (((get_object lib moment
          (codes "b")
          (codes "k")
          none
          (put_data lib moment (codes "b") (codes "k") [] body state).0).status
        ≡ 200)
      × ((get_object lib moment
            (codes "b")
            (codes "k")
            none
            (put_data lib moment (codes "b") (codes "k") [] body state).0).body
          ≡ body))
    ⊎ AtQuota
        (codes "b")
        (codes "k")
        state.storage_path
        (put_data lib moment (codes "b") (codes "k") [] body state).0.files
put_data-get_object_example =
    put_data-get_object lib (λ text. refl) decrypt-encrypt moment moment (codes "b") (codes "k") []
      body body (codes "M") state is_plain not_folder refl put_data_ok refl reads_back
      (inr metadata_there)

abbrev encryption_path : PathBuf
encryption_path = codes "s3" ∷ codes "b" ∷ codes ".encryption" ∷ []

encryption_read : read state.files encryption_path ≡ some (codes "AES256")
unfolding read text_eq
encryption_read = refl

put_object-read_example :
    (read (put_object lib moment (codes "b") (codes "k") [] body state).0.files encryption_path
      ≡ some (codes "AES256"))
    ⊎ ((q : Location) × (resolve
            (put_object lib moment (codes "b") (codes "k") [] body state).0.files
            []
            encryption_path
          ≡ some q)
        × Leads
            (put_object lib moment (codes "b") (codes "k") [] body state).0.files
            q
            (written_paths (codes "b") (codes "k") state.storage_path moment.uuid))
put_object-read_example =
    put_object-read lib moment (codes "b") (codes "k") [] body state encryption_path
      (codes "AES256") encryption_read

abbrev tags_body : Text
tags_body = codes "<Tag><Key>k</Key><Value>v</Value></Tag>"

tags_length : length tags_body ≡ 39
tags_length = refl

parse_tags-fuel_example : parse_tags 39 tags_body [] ≡ parse_tags 60 tags_body []
parse_tags-fuel_example = parse_tags-fuel 39 60 tags_body [] (omega arith) (omega arith)

parse_tags_run : parse_tags 39 tags_body [] ≡ some ((codes "k", codes "v") ∷ [])
unfolding parse_tags text_eq
parse_tags_run = refl

abbrev two_tags : Assoc Text
two_tags = (codes "k", codes "v") ∷ (codes "j", codes "w") ∷ []

two_tags-PlainTags : PlainTags two_tags
two_tags-PlainTags = (
  (Lacks-test 60 (codes "k") refl, Lacks-test 60 (codes "v") refl),
  ((Lacks-test 60 (codes "j") refl, Lacks-test 60 (codes "w") refl), tt),
)

two_tags-DistinctKeys : DistinctKeys two_tags
unfolding text_eq
two_tags-DistinctKeys = ((refl, tt), (tt, tt))

parse_tags-tags_xml_example :
    parse_tags (length (tags_xml two_tags)) (tags_xml two_tags) [] ≡ some two_tags
parse_tags-tags_xml_example = parse_tags-tags_xml two_tags two_tags-PlainTags two_tags-DistinctKeys

abbrev part : ℕ → Text → UploadPart
part n content = record {
  part_number = pos n;
  etag = codes "e";
  size = length content;
  bytes = content;
}

abbrev backward : Parts
backward = (pos 2, part 2 (codes "b")) ∷ (pos 1, part 1 (codes "a")) ∷ []

abbrev forward : Parts
forward = (pos 1, part 1 (codes "a")) ∷ (pos 2, part 2 (codes "b")) ∷ []

backward-Distinct : Distinct backward
unfolding int_eq
backward-Distinct = ((refl, tt), (tt, tt))

forward-Distinct : Distinct forward
unfolding int_eq
forward-Distinct = ((refl, tt), (tt, tt))

same_parts : (n : ℤ) → part_of n backward ≡ part_of n forward
unfolding part_of int_eq
same_parts (pos n) = ground arith
same_parts (negsuc n) = refl

combined_data-part_of_example : combined_data backward ≡ combined_data forward
combined_data-part_of_example =
    combined_data-part_of backward forward backward-Distinct forward-Distinct same_parts

combined_data_run : combined_data backward ≡ codes "ab"
unfolding combined_data
combined_data_run = refl

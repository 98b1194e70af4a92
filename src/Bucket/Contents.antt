-- ===== src/Bucket/Contents.antt =====
-- `list_objects_impl` of src/handlers/bucket.rs as a whole: the objects of Listing, as XML.
use ironbucket.Base.{ℕ, Bool, true, false, Option, none, some, List, [], ◌∷◌, ◌++◌, length}
use ironbucket.Base.Text.{Text, codes}
use ironbucket.Base.Number.{show}
use ironbucket.Xml.{print_lines, listed}
use ironbucket.Disk.{file, dir, Entries}
use ironbucket.Paths.{PathBuf, at_path}
use ironbucket.Quota.{op_list}
use ironbucket.Listing.{Object, Page, scan_directory, sort_by_key, page_of, collect_prefixes}
use ironbucket.Filesystem.{sort}
use ironbucket.Object.{Library, Moment, ObjectState, Reply, reply, bucket_path, object_path}
use ironbucket.Object.Counting.{increment_stat}
use ironbucket.Bucket.Expiry.{text_or}

unfoldable pub number_or : ℕ → Option ℕ → ℕ
number_or default none = default
number_or default (some n) = n

unfoldable pub common_prefixes : Text → Option Text → List Object → List Text
unfolding sort collect_prefixes
common_prefixes prefix none objects = []
common_prefixes prefix (some delim) objects = sort (collect_prefixes prefix delim [] objects)

unfoldable pub prefixes_xml : List Text → Text
prefixes_xml [] = []
prefixes_xml (prefix ∷ rest) =
    codes "\n    <CommonPrefixes>\n        <Prefix>"
    ++ prefix
    ++ codes "</Prefix>\n    </CommonPrefixes>"
    ++ prefixes_xml rest

abbrev pub truncated_text : Bool → Text
truncated_text true = codes "true"
truncated_text false = codes "false"

module _ (lib : Library) (moment : Moment) where
  -- The time at which an object's file was modified stands at its key below the bucket.
  unfoldable pub contents_xml : PathBuf → Text → List Object → Text
  unfolding show object_path
  contents_xml storage bucket [] = []
  contents_xml storage bucket (o ∷ rest) =
      let last_modified = moment.modified (object_path storage bucket o.key) in
      codes "\n    <Contents>\n        <Key>"
      ++ o.key
      ++ codes "</Key>\n        <LastModified>"
      ++ lib.to_rfc3339 last_modified
      ++ codes "</LastModified>\n        <ETag>\""
      ++ lib.md5 (show o.size ++ b'-' ∷ show last_modified)
      ++ codes "\"</ETag>\n        <Size>"
      ++ show o.size
      ++ codes "</Size>\n        <StorageClass>STANDARD</StorageClass>\n    </Contents>"
      ++ contents_xml storage bucket rest

  unfoldable pub list_xml : PathBuf → Text → Text → ℕ → Page → List Text → Text
  unfolding show print_lines contents_xml prefixes_xml
  list_xml storage bucket prefix max_keys page prefixes =
      codes
        "<?xml version=\"1.0\" encoding=\"UTF-8\"?>\n<ListBucketResult xmlns=\"http://s3.amazonaws.com/doc/2006-03-01/\">\n    <Name>"
      ++ bucket
      ++ codes "</Name>\n    <Prefix>"
      ++ prefix
      ++ codes "</Prefix>\n    <MaxKeys>"
      ++ show max_keys
      ++ codes "</MaxKeys>\n    <IsTruncated>"
      ++ truncated_text page.is_truncated
      ++ codes "</IsTruncated>"
      ++ print_lines (codes "\n    ") (codes "NextContinuationToken") (listed page.next_token)
      ++ codes "\n    <KeyCount>"
      ++ show (length page.objects)
      ++ codes "</KeyCount>"
      ++ contents_xml storage bucket page.objects
      ++ prefixes_xml prefixes
      ++ codes "\n</ListBucketResult>"

  unfoldable pub list_reply :
      PathBuf → Text → Text → Option Text → Option Text → ℕ → Entries → Reply
  unfolding scan_directory sort_by_key page_of common_prefixes list_xml reply
  list_reply storage bucket prefix delimiter token max_keys es =
      let all_objects = sort_by_key (scan_directory prefix [] es) in
      elim (page_of all_objects token max_keys) [
        | none ↦ reply 500
        | some page ↦ record {
          status = 200;
          headers = (codes "content-type", codes "application/xml") ∷ [];
          body =
              list_xml storage bucket prefix max_keys page
                (common_prefixes prefix delimiter all_objects);
        }
      ]

  unfoldable pub list_objects_impl :
      Text → Option Text → Option Text → Option Text → Option ℕ → ObjectState → ObjectState × Reply
  unfolding increment_stat at_path bucket_path list_reply text_or number_or reply
  list_objects_impl bucket prefix delimiter token max_keys s =
      let s' = increment_stat lib moment bucket op_list s in
      (
        s',
        elim (at_path s'.files (bucket_path s'.storage_path bucket)) [
          | none ↦ reply 404
          | some node ↦ elim node [
            | file contents ↦ reply 404
            | dir es ↦
                list_reply s'.storage_path bucket (text_or [] prefix) delimiter token
                  (number_or 1000 max_keys) es
          ]
        ],
      )

-- ===== src/Object/Versions.antt =====
-- The list of the versions of an object, by `handle_object_get` with `?versions`.
use ironbucket.Base.{ℕ, none, some, List, [], ◌∷◌, ◌++◌, length, ltb, if◌then◌else◌}
use ironbucket.Base.Text.{Text, codes, ends_with}
use ironbucket.Base.Number.{show}
use ironbucket.Disk.{file, dir, Entries, nil, entry}
use ironbucket.Paths.{Tree, PathBuf, join, exists, read, at_path}
use ironbucket.Object.{
  Library, Moment, ObjectState, Reply, object_path, versions_dir, storage_entries, unwrap_or,
}
use ironbucket.Object.Fetch.{read_metadata, file_len}

pub record Version : Type 0 where
  pub version_id : Text
  pub last_modified : ℕ
  pub size : ℕ

-- `versions.sort_by(|a, b| b.1.cmp(&a.1))`, which keeps the order of equal times.
unfoldable pub place_version : Version → List Version → List Version
place_version v [] = v ∷ []
place_version v (w ∷ rest) =
    let later = place_version v rest in
    if ltb v.last_modified w.last_modified then w ∷ later else v ∷ w ∷ rest

unfoldable pub sort_versions : List Version → List Version
unfolding place_version
sort_versions [] = []
sort_versions (v ∷ rest) = place_version v (sort_versions rest)

unfoldable pub version_xml : Text → Text → Text → Text → Text → ℕ → Text
unfolding show
version_xml key version_id latest last_modified etag size =
    codes "\n    <Version>\n        <Key>"
    ++ key
    ++ codes "</Key>\n        <VersionId>"
    ++ version_id
    ++ codes "</VersionId>\n        <IsLatest>"
    ++ latest
    ++ codes "</IsLatest>\n        <LastModified>"
    ++ last_modified
    ++ codes "</LastModified>\n        <ETag>\""
    ++ etag
    ++ codes "\"</ETag>\n        <Size>"
    ++ show size
    ++ codes
        "</Size>\n        <StorageClass>STANDARD</StorageClass>\n        <Owner>\n            <ID>ironbucket</ID>\n            <DisplayName>IronBucket</DisplayName>\n        </Owner>\n    </Version>"

module _ (lib : Library) where
  unfoldable pub version_time : Moment → Tree → PathBuf → Text → ℕ
  unfolding read_metadata join
  version_time moment t folder name =
      elim (read_metadata lib t (join folder (name ++ codes ".metadata"))) [
        | some m ↦ m.last_modified
        | none ↦ moment.modified (join folder name)
      ]

  -- The files of the directory that are not metadata.
  unfoldable pub versions_in : Moment → Tree → PathBuf → Entries → List Version
  unfolding version_time ends_with
  versions_in moment t path nil = []
  versions_in moment t path (entry name (dir es) rest) = versions_in moment t path rest
  versions_in moment t path (entry name (file contents) rest) =
      let later = versions_in moment t path rest in
      let version : Version = record {
        version_id = name;
        last_modified = version_time moment t path name;
        size = length contents;
      } in
      if ends_with name (codes ".metadata") then later else version ∷ later

  unfoldable pub etag_of : Tree → PathBuf → Text
  unfolding read
  etag_of t p = elim (read t p) [ none ↦ codes "unknown" | some content ↦ lib.md5 content ]

  unfoldable pub versions_xml : Tree → PathBuf → Text → List Version → Text
  unfolding version_xml etag_of join
  versions_xml t path key [] = []
  versions_xml t path key (v ∷ rest) =
      version_xml key v.version_id (codes "false") (lib.to_rfc3339 v.last_modified)
        (etag_of t (join path v.version_id)) v.size
      ++ versions_xml t path key rest

  -- The version that is current.
  unfoldable pub current_xml : Moment → Tree → PathBuf → Text → Text
  unfolding exists version_xml file_len unwrap_or read at_path
  current_xml moment t path key =
      if exists t path
      then version_xml key (codes "null") (codes "true") (lib.to_rfc3339 (moment.modified path))
          (lib.md5 (unwrap_or [] (read t path)))
          (file_len lib moment.directory_len (at_path t path))
      else []

  unfoldable pub list_versions : Moment → Text → Text → ObjectState → Reply
  unfolding object_path versions_dir current_xml versions_xml sort_versions versions_in
      storage_entries
  list_versions moment bucket key s =
      let folder = versions_dir s.storage_path bucket key in
      let found =
        sort_versions (versions_in moment s.files folder (storage_entries s.files folder)) in
      record {
        status = 200;
        headers = (codes "content-type", codes "application/xml") ∷ [];
        body =
            codes
              "<?xml version=\"1.0\" encoding=\"UTF-8\"?>\n<ListVersionsResult xmlns=\"http://s3.amazonaws.com/doc/2006-03-01/\">\n    <Name>"
            ++ bucket
            ++ codes "</Name>\n    <Prefix>"
            ++ key
            ++ codes
                "</Prefix>\n    <KeyMarker></KeyMarker>\n    <VersionIdMarker></VersionIdMarker>\n    <MaxKeys>1000</MaxKeys>\n    <IsTruncated>false</IsTruncated>"
            ++ current_xml moment s.files (object_path s.storage_path bucket key) key
            ++ versions_xml s.files folder key found
            ++ codes "\n</ListVersionsResult>";
      }

-- ===== src/Object/Tagging.antt =====
-- The tags of an object, in its metadata file and as XML.
use ironbucket.Base.{
  ℕ, zero, suc, ◌+◌, not, Option, none, some, [], ◌∷◌, ◌++◌, length, take, drop, if◌then◌else◌,
}
use ironbucket.Base.Text.{Text, codes, find}
use ironbucket.Base.Assoc.{Assoc, insert}
use ironbucket.Xml.{slice, between}
use ironbucket.Paths.{PathBuf, exists, read, write}
use ironbucket.Object.{Library, ObjectState, ObjectMetadata, Reply, reply, metadata_path}
use ironbucket.Object.Fetch.{read_metadata}

-- The tag in the text, if there is one; none for a panic.
unfoldable pub tag_of : Text → Option (Option (Text × Text))
unfolding between slice
tag_of content = elim (between (codes "<Key>") (codes "</Key>") content) [
  | none ↦ some none
  | some k ↦ elim (between (codes "<Value>") (codes "</Value>") content) [
    | none ↦ some none
    | some v ↦ elim (slice k.0 k.1 content) [
      | none ↦ none
      | some key ↦ elim (slice v.0 v.1 content) [
        | none ↦ none
        | some value ↦ some (some (key, value))
      ]
    ]
  ]
]

unfoldable pub add_tag : Option (Text × Text) → Assoc Text → Assoc Text
unfolding insert
add_tag none tags = tags
add_tag (some tag) tags = insert tag.0 tag.1 tags

-- The loop over the tags, on what is left of the text; none for a panic. Every turn passes a mark.
unfoldable pub parse_tags : ℕ → Text → Assoc Text → Option (Assoc Text)
unfolding find tag_of add_tag
parse_tags zero xml tags = some tags
parse_tags (suc fuel) xml tags = elim (find xml (codes "<Tag>")) [
  | none ↦ some tags
  | some i ↦
      let rest = drop (i + 5) xml in
      elim (find rest (codes "</Tag>")) [
        | none ↦ some tags
        | some j ↦ elim (tag_of (take j rest)) [
          | none ↦ none
          | some tag ↦ parse_tags fuel (drop (j + 6) rest) (add_tag tag tags)
        ]
      ]
]

unfoldable pub text_reply : ℕ → Text → Reply
text_reply status body = record { status = status; headers = []; body = body }

unfoldable pub some_tags : Assoc Text → Option (Assoc Text)
some_tags [] = none
some_tags (tag ∷ tags) = some (tag ∷ tags)

unfoldable pub tag_elements : Assoc Text → Text
tag_elements [] = []
tag_elements ((key, value) ∷ rest) =
    codes "<Tag><Key>"
    ++ key
    ++ codes "</Key><Value>"
    ++ value
    ++ codes "</Value></Tag>"
    ++ tag_elements rest

unfoldable pub tags_xml : Assoc Text → Text
unfolding tag_elements
tags_xml tags =
    codes "<?xml version=\"1.0\" encoding=\"UTF-8\"?><Tagging><TagSet>"
    ++ tag_elements tags
    ++ codes "</TagSet></Tagging>"

unfoldable pub tags_of : Option (Assoc Text) → Assoc Text
tags_of none = []
tags_of (some tags) = tags

module _ (lib : Library) where
  -- The metadata with other tags, written to their file; a panic answers as 500.
  unfoldable pub save_tags :
      Text → PathBuf → ObjectMetadata → Option (Assoc Text) → ℕ → ObjectState → ObjectState × Reply
  unfolding write text_reply reply
  save_tags failure p m tags status s = elim (lib.metadata_to_string (record m { tags = tags })) [
    | none ↦ (s, reply 500)
    | some json ↦ elim (write s.files p json) [
      | none ↦ (s, text_reply 500 failure)
      | some t ↦ (record s { files = t }, reply status)
    ]
  ]

  unfoldable pub put_tags : Text → Text → Text → ObjectState → ObjectState × Reply
  unfolding parse_tags exists read metadata_path save_tags some_tags text_reply reply
  put_tags bucket key body s =
      let p = metadata_path s.storage_path bucket key in
      elim (parse_tags (length body) body []) [
        | none ↦ (s, reply 500)
        | some tags ↦ elim (read s.files p) [
          | none ↦ (s, text_reply 404 (codes "Object not found"))
          | some json ↦ elim (lib.metadata_from_str json) [
            | none ↦ (s, text_reply 500 (codes "Failed to parse metadata"))
            | some m ↦ save_tags (codes "Failed to save tags") p m (some_tags tags) 200 s
          ]
        ]
      ]

  unfoldable pub delete_tags : Text → Text → ObjectState → ObjectState × Reply
  unfolding exists read metadata_path save_tags text_reply reply
  delete_tags bucket key s =
      let p = metadata_path s.storage_path bucket key in
      if not (exists s.files p) then (s, reply 204) else elim (read s.files p) [
        | none ↦ (s, text_reply 500 (codes "Failed to read metadata"))
        | some json ↦ elim (lib.metadata_from_str json) [
          | none ↦ (s, text_reply 500 (codes "Failed to parse metadata"))
          | some m ↦ save_tags (codes "Failed to delete tags") p m none 204 s
        ]
      ]

  unfoldable pub get_tags : Text → Text → ObjectState → Reply
  unfolding read_metadata metadata_path tags_xml tags_of
  get_tags bucket key s = record {
    status = 200;
    headers = (codes "content-type", codes "application/xml") ∷ [];
    body = elim (read_metadata lib s.files (metadata_path s.storage_path bucket key)) [
      | none ↦ codes "<?xml version=\"1.0\" encoding=\"UTF-8\"?><Tagging><TagSet/></Tagging>"
      | some m ↦
          codes "<?xml version=\"1.0\" encoding=\"UTF-8\"?><Tagging><TagSet>"
          ++ tag_elements (tags_of m.tags)
          ++ codes "</TagSet></Tagging>"
    ];
  }

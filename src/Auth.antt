-- ===== src/Auth.antt =====
-- src/handlers/auth.rs: `auth_middleware`, which lets a request through to its handler or answers it
-- itself.
pub mod Passing
mod Tests
use ironbucket.Base.{
  ℕ, zero, suc, ◌+◌, ◌-◌, ◌*◌, Bool, true, false, not, ◌&&◌, Option, none, some, List, [], ◌∷◌,
  ◌++◌, length, take, drop, is_empty, leb, any, ◌==◌, if◌then◌else◌,
}
use ironbucket.Base.Text.{Text, codes, text_eq, split, contains, starts_with, strip_prefix, is_some}
use ironbucket.Base.Number.{parse_digits}
use ironbucket.Base.Trim.{trim}
use ironbucket.Base.Assoc.{Assoc, lookup, insert}
use ironbucket.Disk.{Entries}
use ironbucket.Filesystem.{read_bucket_policy}
use ironbucket.Json.{Value}
use ironbucket.Policy.{Query, check_policy_permission}
use ironbucket.Object.{ℤ, pos, negsuc, HeaderMap, get_header, header_text}
use ironbucket.Object.Multipart.{int_lt}

pub data Method : Type 0 where
  get put delete head options other : Method

pub record Request : Type 0 where
  pub method : Method
  pub path : Text
  pub query : Option Text
  pub headers : HeaderMap

-- The request goes on to its handler; it is answered 403 with a text; or the middleware panics.
pub data Verdict : Type 0 where
  run : Verdict
  forbidden : Text → Verdict
  panicked : Verdict

pub record AuthState : Type 0 where
  pub storage : Entries
  pub access_keys : Assoc Text

unfoldable pub action_of : Method → Text
action_of get = codes "s3:GetObject"
action_of put = codes "s3:PutObject"
action_of delete = codes "s3:DeleteObject"
action_of head = codes "s3:GetObject"
action_of options = codes "s3:*"
action_of other = codes "s3:*"

unfoldable pub first_piece : List Text → Text
first_piece [] = []
first_piece (piece ∷ pieces) = piece

-- `headers.get("x-real-ip").or_else(..)`
unfoldable pub ip_header : HeaderMap → Option Text
unfolding get_header header_text
ip_header headers = elim (get_header (codes "x-real-ip") headers) [
  | some value ↦ value
  | none ↦ header_text (codes "x-forwarded-for") headers
]

-- The address up to the first comma; the local host by default.
unfoldable pub client_ip : HeaderMap → Text
unfolding ip_header first_piece split trim
client_ip headers = elim (ip_header headers) [
  | none ↦ codes "127.0.0.1"
  | some value ↦ trim (first_piece (split b',' value))
]

-- `s.trim_start_matches('/')`
unfoldable pub trim_slashes : Text → Text
trim_slashes [] = []
trim_slashes (c ∷ s) = let rest = trim_slashes s in if c == b'/' then rest else c ∷ s

-- `s.trim_start_matches(p)`. An empty `p` occurs with an empty `s` only.
unfoldable pub trim_prefix : ℕ → Text → Text → Text
unfolding strip_prefix
trim_prefix zero p s = s
trim_prefix (suc fuel) p s = elim (strip_prefix s p) [
  | none ↦ s
  | some rest ↦ trim_prefix fuel p rest
]

unfoldable pub bucket_name : Text → Option Text
unfolding text_eq trim_slashes split first_piece
bucket_name path =
    if text_eq path (codes "/") then none else some (first_piece (split b'/' (trim_slashes path)))

-- `arn:aws:s3:::{bucket}/{rest of the path}*`
unfoldable pub resource_of : Text → Text → Text
unfolding trim_slashes trim_prefix
resource_of bucket path =
    codes "arn:aws:s3:::"
    ++ bucket
    ++ codes "/"
    ++ trim_slashes (trim_prefix (length path) bucket (trim_slashes path))
    ++ codes "*"

-- `s.parse::<i64>()`
unfoldable pub parse_i64 : Text → Option ℤ
unfolding parse_digits
parse_i64 [] = none
parse_i64 (c ∷ s) =
    if c == b'-'
    then elim (parse_digits 9223372036854775808 s) [
      | none ↦ none
      | some n ↦ some (elim n as (λ m. ℤ) [ zero ↦ pos 0 | suc m ↦ negsuc m ])
    ]
    else elim (parse_digits 9223372036854775807 (if c == b'+' then s else c ∷ s)) [
      | none ↦ none
      | some n ↦ some (pos n)
    ]

-- `!s.is_char_boundary(i)` of a text in UTF-8, up to its length.
unfoldable pub inside_char : Text → ℕ → Bool
inside_char s i = elim (drop i s) [ [] ↦ false | c ∷ rest ↦ leb 128 c && leb c 191 ]

-- `YYYYMMDDTHHMMSSZ` as `YYYY-MM-DDTHH:MM:SS+00:00`; the slices panic on a shorter text, and where
-- they cut a character.
unfoldable pub iso_date : Text → Option Text
unfolding inside_char
iso_date date =
    if leb 15 (length date) && not (any (inside_char date) (4 ∷ 6 ∷ 8 ∷ 9 ∷ 11 ∷ 13 ∷ 15 ∷ []))
    then some (
        take 4 date
        ++ codes "-"
        ++ take 2 (drop 4 date)
        ++ codes "-"
        ++ take 2 (drop 6 date)
        ++ codes "T"
        ++ take 2 (drop 9 date)
        ++ codes ":"
        ++ take 2 (drop 11 date)
        ++ codes ":"
        ++ take 2 (drop 13 date)
        ++ codes "+00:00")
    else none

-- The access key of a presigned URL: none if the query has none.
unfoldable pub presigned_key : Assoc Text → Option Text
unfolding lookup first_piece split
presigned_key params = elim (lookup (codes "X-Amz-Credential") params) [
  | none ↦ none
  | some credential ↦ some (first_piece (split b'/' credential))
]

-- `parts[1]` of the header, its credential, and the access key of that.
unfoldable pub credential_key : List Text → Option Text
unfolding strip_prefix first_piece split
credential_key (algorithm ∷ credential_part ∷ rest) =
    elim (strip_prefix credential_part (codes "Credential=")) [
      | none ↦ none
      | some credential ↦ some (first_piece (split b',' (first_piece (split b'/' credential))))
    ]
credential_key pieces = none

unfoldable pub header_key : HeaderMap → Option Text
unfolding header_text starts_with credential_key split
header_key headers = elim (header_text (codes "authorization") headers) [
  | none ↦ none
  | some auth ↦
      if starts_with auth (codes "AWS4-HMAC-SHA256") then credential_key (split b' ' auth) else none
]

unfoldable pub knows : AuthState → Option Text → Bool
unfolding lookup
knows state none = false
knows state (some key) = is_some (lookup key state.access_keys)

unfoldable pub key_text : Option Text → Text
key_text none = []
key_text (some key) = key

-- The arguments are percent-decoding, the seconds that have passed since a date if `chrono` can
-- read it, and `serde_json::from_str::<Value>`.
module _ (decode : Text → Option Text) (elapsed_since : Text → Option ℤ)
    (from_str : Text → Option Value) where
  unfoldable pub decoded : Text → Text
  decoded value = elim (decode value) [ none ↦ value | some text ↦ text ]

  -- `name=value`, with one equals sign.
  unfoldable pub add_param : List Text → Assoc Text → Assoc Text
  unfolding insert decoded
  add_param (name ∷ value ∷ []) params = insert name (decoded value) params
  add_param pieces params = params

  unfoldable pub query_params : List Text → Assoc Text → Assoc Text
  unfolding add_param split
  query_params [] params = params
  query_params (piece ∷ pieces) params = query_params pieces (add_param (split b'=' piece) params)

  -- Whether the URL has expired; none for a panic. What cannot be read does not expire.
  unfoldable pub expired : Assoc Text → Option Bool
  unfolding lookup parse_i64 iso_date int_lt
  expired params = elim (lookup (codes "X-Amz-Expires") params) [
    | none ↦ some false
    | some expires ↦ elim (parse_i64 expires) [
      | none ↦ some false
      | some seconds ↦ elim (lookup (codes "X-Amz-Date") params) [
        | none ↦ some false
        | some date ↦ elim (iso_date date) [
          | none ↦ none
          | some iso ↦ elim (elapsed_since iso) [
            | none ↦ some false
            | some elapsed ↦ some (int_lt seconds elapsed)
          ]
        ]
      ]
    ]
  ]

  -- The policy of the bucket, if there is one, decides.
  unfoldable pub policy_verdict : AuthState → Request → Text → Verdict
  unfolding bucket_name read_bucket_policy check_policy_permission action_of resource_of client_ip
  policy_verdict state request principal = elim (bucket_name request.path) [
    | none ↦ run
    | some bucket ↦ elim (read_bucket_policy state.storage bucket) [
      | none ↦ run
      | some policy ↦
          if check_policy_permission from_str policy (record {
            action = action_of request.method;
            resource = resource_of bucket request.path;
            principal = principal;
            client_ip = some (client_ip request.headers);
          })
          then run
          else forbidden (codes "Access Denied by bucket policy")
    ]
  ]

  -- The signature in a header: with a known access key the policy decides.
  unfoldable pub header_verdict : AuthState → Request → Verdict
  unfolding header_key knows policy_verdict key_text
  header_verdict state request =
      if knows state (header_key request.headers)
      then policy_verdict state request (key_text (header_key request.headers))
      else forbidden (codes "Access Denied: Authentication required")

  -- A presigned URL: its expiry first, then the policy for everybody; with no known access key the
  -- header is looked at.
  unfoldable pub presigned_verdict : AuthState → Request → Assoc Text → Verdict
  unfolding presigned_key expired knows policy_verdict header_verdict
  presigned_verdict state request params = elim (presigned_key params) [
    | none ↦ header_verdict state request
    | some key ↦ elim (expired params) [
      | none ↦ panicked
      | some old ↦
          if old
          then forbidden (codes "Request has expired")
          else if knows state (some key)
          then policy_verdict state request (codes "*")
          else header_verdict state request
    ]
  ]

  unfoldable pub query_verdict : AuthState → Request → Option Text → Verdict
  unfolding contains query_params split presigned_verdict header_verdict
  query_verdict state request none = header_verdict state request
  query_verdict state request (some query) =
      if contains query (codes "X-Amz-Algorithm=AWS4-HMAC-SHA256")
      then presigned_verdict state request (query_params (split b'&' query) [])
      else header_verdict state request

  unfoldable pub auth_middleware : AuthState → Request → Verdict
  unfolding query_verdict
  auth_middleware state request = elim request.method [
    | options ↦ run
    | get ↦ query_verdict state request request.query
    | put ↦ query_verdict state request request.query
    | delete ↦ query_verdict state request request.query
    | head ↦ query_verdict state request request.query
    | other ↦ query_verdict state request request.query
  ]

-- ===== src/Auth/Tests.antt =====
-- A request with a known access key for a bucket without a policy.
use ironbucket.Base.{◌≡◌, refl, ◌⊎◌, Option, none, some, [], ◌∷◌}
use ironbucket.Base.Text.{Text, codes, text_eq}
use ironbucket.Disk.{dir, nil, entry}
use ironbucket.Json.{Value}
use ironbucket.Object.{ℤ, pos}
use ironbucket.Auth.{AuthState, Request, get, options, run, forbidden, auth_middleware}
use ironbucket.Auth.Passing.{HeaderKey, Allowed, Presigned, auth_middleware-run}

abbrev keys : AuthState
keys = record {
  storage = entry (codes "b") (dir nil) nil;
  access_keys = (codes "K", codes "secret") ∷ [];
}

abbrev percent : Text → Option Text
percent text = some text

abbrev elapsed_since : Text → Option ℤ
elapsed_since date = some (pos 61)

abbrev from_str : Text → Option Value
from_str json = none

abbrev signed : Request
signed = record {
  method = get;
  path = codes "/b/k";
  query = none;
  headers =
      (codes "authorization", some (codes "AWS4-HMAC-SHA256 Credential=K/20250915/us-east-1")) ∷ [];
}

signed_runs : auth_middleware percent elapsed_since from_str keys signed ≡ run
unfolding auth_middleware text_eq
signed_runs = refl

auth_middleware-run_example :
    (signed.method ≡ options)
    ⊎ ((key : Text) × HeaderKey keys signed key × Allowed from_str keys signed key)
    ⊎ (Presigned percent elapsed_since from_str keys signed
        × Allowed from_str keys signed (codes "*"))
auth_middleware-run_example =
    auth_middleware-run percent elapsed_since from_str keys signed signed_runs

-- A presigned URL that was good for a minute.
abbrev expired_url : Request
expired_url = record signed {
  query = some (
      codes
        "X-Amz-Algorithm=AWS4-HMAC-SHA256&X-Amz-Credential=K/x&X-Amz-Expires=60&X-Amz-Date=20250915T205242Z");
}

old_refused :
    auth_middleware percent elapsed_since from_str keys expired_url
    ≡ forbidden (codes "Request has expired")
unfolding auth_middleware text_eq
old_refused = refl

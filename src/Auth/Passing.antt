-- ===== src/Auth/Passing.antt =====
-- Which requests the middleware lets through.
use ironbucket.Base.{
  ◌≡◌, refl, ◌⊎◌, inl, inr, true, false, Option, none, some, [], Bool-cases, Option-cases,
}
use ironbucket.Base.Text.{Text, codes, contains, split}
use ironbucket.Base.Assoc.{Assoc, lookup}
use ironbucket.Json.{Value}
use ironbucket.Policy.{Query, check_policy_permission}
use ironbucket.Filesystem.{read_bucket_policy}
use ironbucket.Object.{ℤ}
use ironbucket.Auth.{
  AuthState, Request, Method, get, put, delete, head, options, other, run, policy_verdict,
  presigned_key, header_key, knows, header_verdict, presigned_verdict, query_verdict, query_params,
  expired, auth_middleware, key_text, action_of, resource_of, client_ip, bucket_name, parse_i64,
  iso_date, int_lt,
}

-- The header names a known access key.
unfoldable pub HeaderKey : AuthState → Request → Text → Type 0
unfolding header_key knows
HeaderKey state request key =
    (header_key request.headers ≡ some key) × (knows state (some key) ≡ true)

-- The parameters of a presigned URL give no expiry that has passed: what is missing or cannot be read
-- does not expire, and else no more seconds have passed since the date than it gives.
pub data InTime (elapsed_since : Text → Option ℤ) (params : Assoc Text) : Type 0 where
  no_expiry : lookup (codes "X-Amz-Expires") params ≡ none → InTime elapsed_since params
  unread_expiry :
      (expires : Text)
      → lookup (codes "X-Amz-Expires") params ≡ some expires
      → parse_i64 expires ≡ none
      → InTime elapsed_since params
  no_date : lookup (codes "X-Amz-Date") params ≡ none → InTime elapsed_since params
  unread_date :
      (date iso : Text)
      → lookup (codes "X-Amz-Date") params ≡ some date
      → iso_date date ≡ some iso
      → elapsed_since iso ≡ none
      → InTime elapsed_since params
  in_time :
      (expires date iso : Text) (seconds elapsed : ℤ)
      → lookup (codes "X-Amz-Expires") params ≡ some expires
      → parse_i64 expires ≡ some seconds
      → lookup (codes "X-Amz-Date") params ≡ some date
      → iso_date date ≡ some iso
      → elapsed_since iso ≡ some elapsed
      → int_lt seconds elapsed ≡ false
      → InTime elapsed_since params

-- What the policy is asked.
abbrev pub asked : Request → Text → Text → Query
asked request bucket principal = record {
  action = action_of request.method;
  resource = resource_of bucket request.path;
  principal = principal;
  client_ip = some (client_ip request.headers);
}

-- No bucket is named, or it has no policy, or its policy allows what is asked.
unfoldable pub Allowed : (Text → Option Value) → AuthState → Request → Text → Type 0
unfolding bucket_name
Allowed from_str state request principal =
    (bucket_name request.path ≡ none)
    ⊎ ((bucket : Text) × (bucket_name request.path ≡ some bucket)
        × ((read_bucket_policy state.storage bucket ≡ none)
            ⊎ ((policy : Text) × (read_bucket_policy state.storage bucket ≡ some policy)
                × (check_policy_permission from_str policy (asked request bucket principal)
                    ≡ true))))

module _ (decode : Text → Option Text) (elapsed_since : Text → Option ℤ)
    (from_str : Text → Option Value) where
  policy_verdict-Allowed :
      (state : AuthState) (request : Request) (principal : Text)
      → policy_verdict decode elapsed_since from_str state request principal ≡ run
      → Allowed from_str state request principal
  unfolding policy_verdict Allowed
  policy_verdict-Allowed state request principal h =
      elim (Option-cases (bucket_name request.path)) [
        | inl e ↦ inl e
        | inr (bucket, e) ↦ elim (Option-cases (read_bucket_policy state.storage bucket)) [
          | inl f ↦ inr (bucket, e, inl f)
          | inr (policy, f) ↦
              elim (Bool-cases
                (check_policy_permission from_str policy (asked request bucket principal))) [
                  | inl g ↦ inr (bucket, e, inr (policy, f, g))
                  | inr g ↦ let k = rw (policy_verdict, e, f, g) at h in absurd (cc)
                ]
        ]
      ]

  expired-InTime :
      (params : Assoc Text)
      → expired decode elapsed_since from_str params ≡ some false
      → InTime elapsed_since params
  unfolding expired
  expired-InTime params h = elim (Option-cases (lookup (codes "X-Amz-Expires") params)) [
    | inl a ↦ no_expiry a
    | inr (expires, a) ↦ elim (Option-cases (parse_i64 expires)) [
      | inl b ↦ unread_expiry expires a b
      | inr (seconds, b) ↦ elim (Option-cases (lookup (codes "X-Amz-Date") params)) [
        | inl c ↦ no_date c
        | inr (date, c) ↦ elim (Option-cases (iso_date date)) [
          | inl d ↦ let k = rw (expired, a, b, c, d) at h in absurd (cc)
          | inr (iso, d) ↦ elim (Option-cases (elapsed_since iso)) [
            | inl e ↦ unread_date date iso c d e
            | inr (elapsed, e) ↦ elim (Bool-cases (int_lt seconds elapsed)) [
              | inl f ↦ let k = rw (expired, a, b, c, d, e, f) at h in absurd (cc)
              | inr f ↦ in_time expires date iso seconds elapsed a b c d e f
            ]
          ]
        ]
      ]
    ]
  ]

  -- The query is the one of a presigned URL that names a known access key and has not expired, as
  -- far as its expiry can be read.
  unfoldable pub Presigned : AuthState → Request → Type 0
  unfolding presigned_key knows query_params
  Presigned state request =
      (query : Text) × (key : Text) × (request.query ≡ some query)
      × (contains query (codes "X-Amz-Algorithm=AWS4-HMAC-SHA256") ≡ true)
      × (presigned_key (query_params decode elapsed_since from_str (split b'&' query) [])
          ≡ some key)
      × (knows state (some key) ≡ true)
      × InTime elapsed_since (query_params decode elapsed_since from_str (split b'&' query) [])

  -- What lets a request through.
  abbrev Passes : AuthState → Request → Type 0
  Passes state request =
      ((key : Text) × HeaderKey state request key × Allowed from_str state request key)
      ⊎ (Presigned state request × Allowed from_str state request (codes "*"))

  header_verdict-run :
      (state : AuthState) (request : Request)
      → header_verdict decode elapsed_since from_str state request ≡ run
      → Passes state request
  unfolding header_verdict HeaderKey
  header_verdict-run state request h = elim (Option-cases (header_key request.headers)) [
    | inl e ↦ let k = rw (header_verdict, e, knows) at h in absurd (cc)
    | inr (key, e) ↦ elim (Bool-cases (knows state (some key))) [
      | inr f ↦ let k = rw (header_verdict, e, f) at h in absurd (cc)
      | inl f ↦ inl (
        key,
        (e, f),
        policy_verdict-Allowed state request key (rw (header_verdict, e, f, key_text) at h),
      )
    ]
  ]

  presigned_verdict-run :
      (state : AuthState) (request : Request) (query : Text)
      → request.query ≡ some query
      → contains query (codes "X-Amz-Algorithm=AWS4-HMAC-SHA256") ≡ true
      → presigned_verdict decode elapsed_since from_str state request
          (query_params decode elapsed_since from_str (split b'&' query) [])
        ≡ run
      → Passes state request
  unfolding presigned_verdict Presigned
  presigned_verdict-run state request query q c h =
      let params = query_params decode elapsed_since from_str (split b'&' query) [] in
      elim (Option-cases (presigned_key params)) [
        | inl e ↦ header_verdict-run state request (rw (presigned_verdict, e) at h)
        | inr (key, e) ↦ elim (Option-cases (expired decode elapsed_since from_str params)) [
          | inl f ↦ let k = rw (presigned_verdict, e, f) at h in absurd (cc)
          | inr (true, f) ↦ let k = rw (presigned_verdict, e, f) at h in absurd (cc)
          | inr (false, f) ↦ elim (Bool-cases (knows state (some key))) [
            | inr g ↦ header_verdict-run state request (rw (presigned_verdict, e, f, g) at h)
            | inl g ↦ inr (
              (query, key, q, c, e, g, expired-InTime params f),
              policy_verdict-Allowed state request (codes "*")
                  (rw (presigned_verdict, e, f, g) at h),
            )
          ]
        ]
      ]

  query_verdict-run :
      (state : AuthState) (request : Request)
      → query_verdict decode elapsed_since from_str state request request.query ≡ run
      → Passes state request
  unfolding query_verdict
  query_verdict-run state request h = elim (Option-cases request.query) [
    | inl e ↦ header_verdict-run state request (rw (e) at h)
    | inr (query, e) ↦
        elim (Bool-cases (contains query (codes "X-Amz-Algorithm=AWS4-HMAC-SHA256"))) [
          | inl f ↦ presigned_verdict-run state request query e f (rw (e, query_verdict, f) at h)
          | inr f ↦ header_verdict-run state request (rw (e, query_verdict, f) at h)
        ]
  ]

  -- A request that the middleware lets through either has the method OPTIONS, or its header names a
  -- known access key and the policy of the bucket, if any, allows it for that key, or it has a
  -- presigned URL with a known access key whose expiry has not passed, as far as it and its date are
  -- given and can be read, and the policy of the bucket, if any, allows it for everybody.
  pub auth_middleware-run :
      (state : AuthState) (request : Request)
      → auth_middleware decode elapsed_since from_str state request ≡ run
      → (request.method ≡ options)
        ⊎ ((key : Text) × HeaderKey state request key × Allowed from_str state request key)
        ⊎ (Presigned state request × Allowed from_str state request (codes "*"))
  unfolding auth_middleware
  auth_middleware-run state request h = by_method request.method refl
    where
      by_method :
          (m : Method)
          → request.method ≡ m
          → (request.method ≡ options)
            ⊎ ((key : Text) × HeaderKey state request key × Allowed from_str state request key)
            ⊎ (Presigned state request × Allowed from_str state request (codes "*"))
      by_method options e = inl e
      by_method get e = inr (query_verdict-run state request (rw (auth_middleware, e) at h))
      by_method put e = inr (query_verdict-run state request (rw (auth_middleware, e) at h))
      by_method delete e = inr (query_verdict-run state request (rw (auth_middleware, e) at h))
      by_method head e = inr (query_verdict-run state request (rw (auth_middleware, e) at h))
      by_method other e = inr (query_verdict-run state request (rw (auth_middleware, e) at h))

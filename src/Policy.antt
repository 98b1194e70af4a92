-- ===== src/Policy.antt =====
-- `check_policy_permission` of src/policy_check.rs.
pub mod Address
pub mod Network
pub mod Decision
pub mod Wildcard
pub mod Range
mod Tests
use ironbucket.Base.{
  Bool, true, false, ◌&&◌, ◌||◌, not, Option, none, some, List, [], ◌∷◌, if◌then◌else◌, any, take,
  length, ◌-◌,
}
use ironbucket.Base.Text.{Text, codes, text_eq, starts_with, ends_with}
use ironbucket.Json.{Value, get, as_str, as_array}
use Address.{is_ip_in_range}

-- What a request asks for.
pub record Query : Type 0 where
  pub action : Text
  pub resource : Text
  pub principal : Text
  pub client_ip : Option Text

-- `x.as_str()` satisfies `p`.
unfoldable pub str_matches : (Text → Bool) → Value → Bool
unfolding as_str
str_matches p v = elim (as_str v) [ none ↦ false | some s ↦ p s ]

-- An array of which one text satisfies `p`, or a text that does.
unfoldable pub one_or_many : (Text → Bool) → Value → Bool
unfolding str_matches as_array
one_or_many p v = elim (as_array v) [ some vs ↦ any (str_matches p) vs | none ↦ str_matches p v ]

-- `pat == x || pat == all || (pat.ends_with("*") && x.starts_with(&pat[..pat.len() - 1]))`
unfoldable pub wildcard : Text → Text → Text → Bool
unfolding text_eq starts_with ends_with
wildcard all x pat =
    text_eq pat x
    || text_eq pat all
    || ends_with pat (codes "*") && starts_with x (take (length pat - 1) pat)

unfoldable pub effect : Value → Text
unfolding get as_str
effect statement = elim (get statement (codes "Effect")) [
  | none ↦ []
  | some e ↦ elim (as_str e) [ none ↦ [] | some s ↦ s ]
]

unfoldable pub aws_match : Text → Option Value → Bool
unfolding one_or_many
aws_match principal none = false
aws_match principal (some aws) = one_or_many (λ s. text_eq s principal) aws

unfoldable pub principal_match : Text → Value → Bool
unfolding aws_match get str_matches
principal_match principal statement = elim (get statement (codes "Principal")) [
  | none ↦ false
  | some p ↦
      if str_matches (λ s. text_eq s (codes "*")) p
      then true
      else aws_match principal (get p (codes "AWS"))
]

unfoldable pub action_match : Text → Value → Bool
unfolding one_or_many wildcard get
action_match action statement = elim (get statement (codes "Action")) [
  | none ↦ false
  | some actions ↦ one_or_many (wildcard (codes "s3:*") action) actions
]

unfoldable pub resource_match : Text → Value → Bool
unfolding one_or_many wildcard get
resource_match resource statement = elim (get statement (codes "Resource")) [
  | none ↦ false
  | some resources ↦ one_or_many (wildcard (codes "*") resource) resources
]

-- The value of `aws:SourceIp` under the condition of the given name.
unfoldable pub source_ip : Value → Text → Option Value
unfolding get
source_ip conditions name = elim (get conditions name) [
  | none ↦ none
  | some c ↦ get c (codes "aws:SourceIp")
]

-- `IpAddress`: the client's address is known and in one of the ranges.
unfoldable pub ip_allowed : Option Text → Value → Bool
unfolding one_or_many is_ip_in_range
ip_allowed none ranges = false
ip_allowed (some ip) ranges = one_or_many (is_ip_in_range ip) ranges

-- `NotIpAddress`: the client's address is unknown, or in none of the ranges.
unfoldable pub ip_not_blocked : Option Text → Value → Bool
unfolding one_or_many is_ip_in_range
ip_not_blocked none ranges = true
ip_not_blocked (some ip) ranges = not (one_or_many (is_ip_in_range ip) ranges)

unfoldable pub if_present : (Value → Bool) → Option Value → Bool
if_present p none = true
if_present p (some v) = p v

unfoldable pub condition_match : Option Text → Value → Bool
unfolding if_present source_ip ip_allowed ip_not_blocked get
condition_match client_ip statement = elim (get statement (codes "Condition")) [
  | none ↦ true
  | some conditions ↦
      if_present (ip_allowed client_ip) (source_ip conditions (codes "IpAddress"))
      && if_present (ip_not_blocked client_ip) (source_ip conditions (codes "NotIpAddress"))
]

-- The four tests of one statement.
unfoldable pub applies : Query → Value → Bool
unfolding principal_match action_match resource_match condition_match
applies q statement =
    principal_match q.principal statement
    && action_match q.action statement
    && resource_match q.resource statement
    && condition_match q.client_ip statement

-- The loop over the statements: the first one that applies and says Allow or Deny decides.
unfoldable pub check_statements : Query → List Value → Bool
unfolding applies effect text_eq
check_statements q [] = false
check_statements q (s ∷ rest) =
    let later = check_statements q rest in
    if applies q s
    then if text_eq (effect s) (codes "Allow")
      then true
      else if text_eq (effect s) (codes "Deny")
      then false
      else later
    else later

unfoldable pub statements : Option Value → List Value
unfolding get as_array
statements none = []
statements (some policy) = elim (get policy (codes "Statement")) [
  | none ↦ []
  | some s ↦ elim (as_array s) [ none ↦ [] | some vs ↦ vs ]
]

-- `from_str` is `serde_json::from_str::<Value>`, which fails on what is not JSON.
module _ (from_str : Text → Option Value) where
  unfoldable pub check_policy_permission : Text → Query → Bool
  unfolding check_statements statements
  check_policy_permission policy_json q = check_statements q (statements (from_str policy_json))

-- ===== src/Policy/Tests.antt =====
-- Policies and addresses at work.
use ironbucket.Base.{◌≡◌, refl, ◌↔◌, true, none, some, List, [], ◌∷◌, ◌++◌}
use ironbucket.Base.Text.{Text, codes, Lacks-test}
use ironbucket.Json.{Value, str, obj, end, field}
use ironbucket.Policy.{Query, wildcard, check_statements, is_ip_in_range}
use ironbucket.Policy.Address.{parse_ipv4}
use ironbucket.Policy.Decision.{FirstDecides, check_statements_iff}
use ironbucket.Policy.Wildcard.{Matches, wildcard_iff}
use ironbucket.Policy.Range.{InRange, is_ip_in_range-cidr}

abbrev statement : Text → Value
statement verdict = obj (
    field (codes "Effect") (str verdict) (
      field (codes "Principal") (str (codes "*")) (
        field (codes "Action") (str (codes "s3:Get*"))
          (field (codes "Resource") (str (codes "*")) end))))

abbrev query : Query
query = record {
  action = codes "s3:GetObject";
  resource = codes "arn:aws:s3:::photos/cat.png";
  principal = codes "anyone";
  client_ip = none;
}

abbrev allow_then_deny : List Value
allow_then_deny = statement (codes "Allow") ∷ statement (codes "Deny") ∷ []

-- The Deny behind the Allow is not read.
deny_ignored : check_statements query allow_then_deny ≡ true
unfolding check_statements
deny_ignored = refl

check_statements_iff_example :
    (check_statements query allow_then_deny ≡ true)
    ↔ FirstDecides query (codes "Allow") allow_then_deny
check_statements_iff_example = check_statements_iff query allow_then_deny

client_parses : parse_ipv4 (codes "10.0.0.5") ≡ some 167772165
unfolding parse_ipv4
client_parses = refl

is_ip_in_range-cidr_example :
    (is_ip_in_range (codes "10.0.0.5") (codes "10.0.0.0" ++ b'/' ∷ codes "24") ≡ true)
    ↔ InRange 167772165 (codes "10.0.0.0") (codes "24")
is_ip_in_range-cidr_example =
    is_ip_in_range-cidr (codes "10.0.0.5") (codes "10.0.0.0") (codes "24") 167772165 client_parses
      (Lacks-test b'/' (codes "10.0.0.0") refl)

wildcard_iff_example :
    (wildcard (codes "*") (codes "s3:GetObject") (codes "s3:Get*") ≡ true)
    ↔ Matches (codes "*") (codes "s3:GetObject") (codes "s3:Get*")
wildcard_iff_example = wildcard_iff (codes "*") (codes "s3:GetObject") (codes "s3:Get*")

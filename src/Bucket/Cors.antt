-- ===== src/Bucket/Cors.antt =====
-- The CORS configuration of a bucket: its rules, how `handle_bucket_put` reads them from XML and how
-- `handle_bucket_get` prints them.
pub mod Printed
use ironbucket.Base.{
  ℕ, Bool, true, false, not, ◌&&◌, Option, none, some, List, [], ◌∷◌, ◌++◌, is_empty, map,
  if◌then◌else◌, ◌>>=◌,
}
use ironbucket.Base.Text.{Text, codes}
use ironbucket.Base.Number.{parse_uint, show, u32_max}
use ironbucket.Xml.{element, parts, values, print_lines, listed, unless_empty}

pub record CorsRule : Type 0 where
  pub id : Option Text
  pub allowed_origins : List Text
  pub allowed_methods : List Text
  pub allowed_headers : Option (List Text)
  pub expose_headers : Option (List Text)
  pub max_age_seconds : Option ℕ

-- `text.parse::<u32>()`, where there is a text.
unfoldable pub parse_u32 : Option Text → Option ℕ
unfolding parse_uint
parse_u32 none = none
parse_u32 (some text) = parse_uint u32_max text

-- The rule, if it has an origin and a method.
unfoldable pub cors_rule :
    Option Text → List Text → List Text → List Text → List Text → Option Text → Option CorsRule
unfolding parse_u32
cors_rule id origins methods allowed exposed max_age =
    if not (is_empty origins) && not (is_empty methods)
    then some (record {
      id = id;
      allowed_origins = origins;
      allowed_methods = methods;
      allowed_headers = unless_empty allowed;
      expose_headers = unless_empty exposed;
      max_age_seconds = parse_u32 max_age;
    })
    else none

-- A part of the body behind `<CORSRule>`; none for a panic.
unfoldable pub parse_cors_rule : Text → Option (Option CorsRule)
parse_cors_rule part = do
  id ← element (codes "ID") part
  max_age ← element (codes "MaxAgeSeconds") part
  some (
      cors_rule id (values (codes "AllowedOrigin") part) (values (codes "AllowedMethod") part)
        (values (codes "AllowedHeader") part) (values (codes "ExposeHeader") part) max_age)

unfoldable pub push_rule : Option CorsRule → List CorsRule → List CorsRule
push_rule none rules = rules
push_rule (some rule) rules = rule ∷ rules

unfoldable pub parse_cors_rules : List Text → Option (List CorsRule)
unfolding parse_cors_rule push_rule
parse_cors_rules [] = some []
parse_cors_rules (part ∷ rest) = do
  rule ← parse_cors_rule part
  rules ← parse_cors_rules rest
  some (push_rule rule rules)

unfoldable pub parse_cors : Text → Option (List CorsRule)
unfolding parts parse_cors_rules
parse_cors body = parse_cors_rules (parts (codes "CORSRule") body)

abbrev pub rule_indent : Text
rule_indent = codes "\n    "

-- The headers of a rule, if there are any.
abbrev pub headers : Option (List Text) → List Text
headers none = []
headers (some texts) = texts

unfoldable pub cors_rule_xml : CorsRule → Text
unfolding print_lines show
cors_rule_xml rule =
    codes "\n  <CORSRule>"
    ++ (print_lines rule_indent (codes "ID") (listed rule.id)
        ++ (print_lines rule_indent (codes "AllowedOrigin") rule.allowed_origins
            ++ (print_lines rule_indent (codes "AllowedMethod") rule.allowed_methods
                ++ (print_lines rule_indent (codes "AllowedHeader") (headers rule.allowed_headers)
                    ++ (print_lines rule_indent (codes "ExposeHeader") (headers rule.expose_headers)
                        ++ (print_lines rule_indent (codes "MaxAgeSeconds")
                              (map show (listed rule.max_age_seconds))
                            ++ codes "\n  </CORSRule>"))))))

unfoldable pub cors_rules_xml : List CorsRule → Text
unfolding cors_rule_xml
cors_rules_xml [] = codes "\n</CORSConfiguration>"
cors_rules_xml (rule ∷ rest) = cors_rule_xml rule ++ cors_rules_xml rest

unfoldable pub cors_xml : List CorsRule → Text
unfolding cors_rules_xml
cors_xml rules =
    codes "<?xml version=\"1.0\" encoding=\"UTF-8\"?>\n<CORSConfiguration>" ++ cors_rules_xml rules

-- ===== src/Bucket/Cors/Printed.antt =====
-- The CORS rules that are printed are read back.
use ironbucket.Base.{
  ◌≡◌, refl, ap, ◌∙◌, ℕ, ◌≤◌, true, false, Option, none, some, List, [], ◌∷◌, ◌++◌, append_assoc,
  append-nil, arith, All, All-append, is_empty, map,
}
use ironbucket.Base.Text.{Text, codes, text_eq, Lacks}
use ironbucket.Base.Number.{show, u32_max, parse_uint-show, show-Digits, Digits}
use ironbucket.Xml.{element, values, listed, unless_empty}
use ironbucket.Xml.Tokens.{Token, plain, tag, render, Skips, Passes-Skips}
use ironbucket.Xml.Sections.{layout}
use ironbucket.Xml.Items.{is_name, passes, passes→Passes, items, front, pieces, parts-items}
use ironbucket.Xml.Leaves.{
  Fields, sections_of, select, head?, PlainFields, printed-tokens, sections_of-Passes,
  values-printed, element-printed,
}
use ironbucket.Bucket.Cors.{
  CorsRule, parse_u32, cors_rule, parse_cors_rule, parse_cors_rules, parse_cors, rule_indent,
  headers, cors_rule_xml, cors_rules_xml, cors_xml,
}

abbrev pub Plain : List Text → Type 0
Plain ws = All (Lacks b'<') ws

-- A rule as it is read: with an origin and a method, no empty list of headers, an age of 32 bits, and
-- no angle bracket that opens in a text.
pub record IsRule (rule : CorsRule) : Type 0 where
  pub plain_id : Plain (listed rule.id)
  pub plain_origins : Plain rule.allowed_origins
  pub plain_methods : Plain rule.allowed_methods
  pub plain_allowed : Plain (headers rule.allowed_headers)
  pub plain_exposed : Plain (headers rule.expose_headers)
  pub some_origin : is_empty rule.allowed_origins ≡ false
  pub some_method : is_empty rule.allowed_methods ≡ false
  pub some_allowed : unless_empty (headers rule.allowed_headers) ≡ rule.allowed_headers
  pub some_exposed : unless_empty (headers rule.expose_headers) ≡ rule.expose_headers
  pub small_age : All (λ age. age ≤ u32_max) (listed rule.max_age_seconds)

abbrev fields : CorsRule → Fields
fields rule =
    (codes "ID", listed rule.id)
    ∷ (codes "AllowedOrigin", rule.allowed_origins)
    ∷ (codes "AllowedMethod", rule.allowed_methods)
    ∷ (codes "AllowedHeader", headers rule.allowed_headers)
    ∷ (codes "ExposeHeader", headers rule.expose_headers)
    ∷ (codes "MaxAgeSeconds", map show (listed rule.max_age_seconds))
    ∷ []

abbrev closing : List Token
closing = plain (codes "\n  ") ∷ tag (codes "/CORSRule") ∷ []

abbrev body : CorsRule → List Token
body rule = layout (sections_of rule_indent (fields rule)) ++ closing

abbrev final : List Token
final = plain (codes "\n") ∷ tag (codes "/CORSConfiguration") ∷ []

abbrev rules_tokens : List CorsRule → List Token
rules_tokens = items (codes "CORSRule") (codes "\n  ") body final

abbrev behind : List CorsRule → List Token
behind rest = closing ++ front (codes "CORSRule") (codes "\n  ") body final rest

cors_rule_xml-render :
    (rule : CorsRule) (ts : List Token)
    → cors_rule_xml rule ++ render ts
      ≡ render (plain (codes "\n  ") ∷ tag (codes "CORSRule") ∷ (body rule ++ ts))
unfolding cors_rule_xml
cors_rule_xml-render rule ts =
    ap (λ r. codes "\n  <CORSRule>" ++ r) (printed-tokens rule_indent (fields rule) closing ts)

cors_rules_xml-render : (rules : List CorsRule) → cors_rules_xml rules ≡ render (rules_tokens rules)
unfolding cors_rules_xml
cors_rules_xml-render [] = refl
cors_rules_xml-render (rule ∷ rest) =
    ap (λ r. cors_rule_xml rule ++ r) (cors_rules_xml-render rest)
    ∙ cors_rule_xml-render rule (rules_tokens rest)

show-Plain : (o : Option ℕ) → Plain (map show (listed o))
show-Plain none = tt
show-Plain (some n) = (Digits-bracket (show n) (show-Digits n), tt)
  where
    Digits-bracket : (s : Text) → Digits s → Lacks b'<' s
    Digits-bracket [] d = tt
    Digits-bracket (c ∷ s) d = (omega arith, Digits-bracket s d.1)

fields-PlainFields : (rule : CorsRule) → IsRule rule → PlainFields (fields rule)
fields-PlainFields rule h = (
  (refl, h.plain_id),
  (
    (refl, h.plain_origins),
    (
      (refl, h.plain_methods),
      (
        (refl, h.plain_allowed),
        ((refl, h.plain_exposed), ((refl, show-Plain rule.max_age_seconds), tt)),
      ),
    ),
  ),
)

head-listed : (o : Option Text) → head? (listed o ++ []) ≡ o
head-listed none = refl
head-listed (some w) = refl

parse_u32-show :
    (o : Option ℕ)
    → All (λ age. age ≤ u32_max) (listed o)
    → parse_u32 (head? (map show (listed o) ++ [])) ≡ o
unfolding parse_u32
parse_u32-show none h = refl
parse_u32-show (some n) h = parse_uint-show u32_max n h.0

-- The name stands behind the rule only where it is another rule's.
abbrev Apart : Text → List CorsRule → Type 0
Apart n rest = (is_name n ≡ true) × (passes n (behind rest) ≡ true)

text_of : CorsRule → List CorsRule → Text
text_of rule rest = render (body rule ++ front (codes "CORSRule") (codes "\n  ") body final rest)

module _ (rule : CorsRule) (rest : List CorsRule) (good : IsRule rule) where
  field_values : (n : Text) → Apart n rest → values n (text_of rule rest) ≡ select n (fields rule)
  unfolding text_of
  field_values n h =
      ap (λ r. values n (render r))
        (append_assoc (layout (sections_of rule_indent (fields rule))) closing
          (front (codes "CORSRule") (codes "\n  ") body final rest))
      ∙ values-printed rule_indent (fields rule) (behind rest) refl (fields-PlainFields rule good) n
          h.0 h.1

  field_element :
      (n : Text)
      → Apart n rest
      → element n (text_of rule rest) ≡ some (head? (select n (fields rule)))
  unfolding text_of
  field_element n h =
      ap (λ r. element n (render r))
        (append_assoc (layout (sections_of rule_indent (fields rule))) closing
          (front (codes "CORSRule") (codes "\n  ") body final rest))
      ∙ element-printed rule_indent (fields rule) (behind rest) refl (fields-PlainFields rule good)
          n h.0 h.1

cors_rule-fields :
    (rule : CorsRule)
    → IsRule rule
    → cors_rule rule.id rule.allowed_origins rule.allowed_methods
        (headers rule.allowed_headers)
        (headers rule.expose_headers)
        (head? (map show (listed rule.max_age_seconds) ++ []))
      ≡ some rule
unfolding cors_rule
cors_rule-fields rule h =
    rw
      (
        h.some_origin,
        h.some_method,
        h.some_allowed,
        h.some_exposed,
        parse_u32-show rule.max_age_seconds h.small_age,
      )
      refl

-- What follows a rule has none of the marks inside a rule.
apart :
    (rest : List CorsRule)
    → All
        (λ n. Apart n rest)
        (codes "ID"
          ∷ codes "MaxAgeSeconds"
          ∷ codes "AllowedOrigin"
          ∷ codes "AllowedMethod"
          ∷ codes "AllowedHeader"
          ∷ codes "ExposeHeader"
          ∷ [])
unfolding text_eq
apart [] = (
  (refl, refl),
  ((refl, refl), ((refl, refl), ((refl, refl), ((refl, refl), ((refl, refl), tt))))),
)
apart (rule ∷ rest) = (
  (refl, refl),
  ((refl, refl), ((refl, refl), ((refl, refl), ((refl, refl), ((refl, refl), tt))))),
)

-- The part behind a rule's mark is that rule.
parse_cors_rule-text :
    (rule : CorsRule) (rest : List CorsRule)
    → IsRule rule
    → parse_cors_rule (text_of rule rest) ≡ some (some rule)
unfolding parse_cors_rule text_eq
parse_cors_rule-text rule rest h =
    let t = text_of rule rest in
    let a = apart rest in
    let id : element (codes "ID") t ≡ some rule.id =
      field_element rule rest h (codes "ID") a.0 ∙ ap some (head-listed rule.id) in
    let age = field_element rule rest h (codes "MaxAgeSeconds") a.1.0 in
    let origins : values (codes "AllowedOrigin") t ≡ rule.allowed_origins =
      field_values rule rest h (codes "AllowedOrigin") a.1.1.0 ∙ append-nil rule.allowed_origins in
    let methods : values (codes "AllowedMethod") t ≡ rule.allowed_methods =
      field_values rule rest h (codes "AllowedMethod") a.1.1.1.0
      ∙ append-nil rule.allowed_methods in
    let allowed : values (codes "AllowedHeader") t ≡ headers rule.allowed_headers =
      field_values rule rest h (codes "AllowedHeader") a.1.1.1.1.0
      ∙ append-nil (headers rule.allowed_headers) in
    let exposed : values (codes "ExposeHeader") t ≡ headers rule.expose_headers =
      field_values rule rest h (codes "ExposeHeader") a.1.1.1.1.1.0
      ∙ append-nil (headers rule.expose_headers) in
    rw (id, age, origins, methods, allowed, exposed) (ap some (cors_rule-fields rule h))

parse_cors_rules-pieces :
    (rules : List CorsRule)
    → All IsRule rules
    → parse_cors_rules (pieces (codes "CORSRule") (codes "\n  ") body final rules) ≡ some rules
unfolding parse_cors_rules text_of
parse_cors_rules-pieces [] h = refl
parse_cors_rules-pieces (rule ∷ rest) h =
    rw (parse_cors_rule-text rule rest h.0, parse_cors_rules-pieces rest h.1) refl

rule_marks :
    (rules : List CorsRule)
    → All IsRule rules
    → All (λ rule. All (Skips (codes "CORSRule")) (body rule)) rules
unfolding text_eq
rule_marks [] h = tt
rule_marks (rule ∷ rest) h =
    let n = codes "CORSRule" in
    let inside =
      sections_of-Passes n rule_indent (fields rule) refl refl (fields-PlainFields rule h.0)
        (refl, (refl, (refl, (refl, (refl, (refl, tt)))))) in
    let closed : All (Skips n) closing = (omega arith, ((omega arith, omega arith, refl), tt)) in
    (
      All-append (Skips n) (layout (sections_of rule_indent (fields rule))) closing
          (Passes-Skips n _ inside).0 closed,
      rule_marks rest h.1,
    )

heading : List Token
heading =
    tag (codes "?xml version=\"1.0\" encoding=\"UTF-8\"?")
    ∷ plain (codes "\n")
    ∷ tag (codes "CORSConfiguration")
    ∷ []

skipped :
    (ts : List Token) → passes (codes "CORSRule") ts ≡ true → All (Skips (codes "CORSRule")) ts
skipped ts h = (Passes-Skips (codes "CORSRule") ts (passes→Passes (codes "CORSRule") ts h)).0

-- The rules that a request for the CORS configuration is answered with are read back from a request
-- that sets it.
pub parse_cors-cors_xml :
    (rules : List CorsRule) → All IsRule rules → parse_cors (cors_xml rules) ≡ some rules
unfolding parse_cors cors_xml heading text_eq
parse_cors-cors_xml rules h =
    ap parse_cors (ap (λ r. render heading ++ r) (cors_rules_xml-render rules))
    ∙ ap parse_cors_rules (
        parts-items (codes "CORSRule") (codes "\n  ") body final heading rules (omega arith)
          (omega arith) (skipped final refl) (skipped heading refl) (rule_marks rules h))
    ∙ parse_cors_rules-pieces rules h

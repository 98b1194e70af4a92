-- ===== src/Bucket/Expiry.antt =====
-- The lifecycle configuration of a bucket: its rules, how `handle_bucket_put` reads them from XML and
-- how `handle_bucket_get` prints them.

use ironbucket.Base.{
  ℕ, Bool, Option, none, some, List, [], ◌∷◌, ◌++◌, is_empty, map, if◌then◌else◌, ◌>>=◌,
}
use ironbucket.Base.Text.{Text, codes}
use ironbucket.Base.Number.{show}
use ironbucket.Xml.{element, parts, values, line, print_lines, listed, unless_empty, inside}
use ironbucket.Bucket.Cors.{parse_u32}

pub record LifecycleTag : Type 0 where
  pub key : Text
  pub value : Text

pub record LifecycleAnd : Type 0 where
  pub prefix : Option Text
  pub tags : Option (List LifecycleTag)

pub record LifecycleFilter : Type 0 where
  pub prefix : Option Text
  pub tag : Option LifecycleTag
  pub and : Option LifecycleAnd

pub record LifecycleTransition : Type 0 where
  pub days : Option ℕ
  pub date : Option Text
  pub storage_class : Text

pub record LifecycleExpiration : Type 0 where
  pub days : Option ℕ
  pub date : Option Text
  pub expired_object_delete_marker : Option Bool

-- The days and the class of a transition of old versions.
pub record NoncurrentVersionTransition : Type 0 where
  pub noncurrent_days : ℕ
  pub storage_class : Text

pub record LifecycleRule : Type 0 where
  pub id : Option Text
  pub status : Text
  pub filter : Option LifecycleFilter
  pub transitions : Option (List LifecycleTransition)
  pub expiration : Option LifecycleExpiration
  pub noncurrent_version_transitions : Option (List NoncurrentVersionTransition)
  pub noncurrent_version_expiration : Option ℕ
  pub abort_incomplete_multipart_upload : Option ℕ

unfoldable pub text_or : Text → Option Text → Text
text_or default none = default
text_or default (some text) = text

unfoldable pub lifecycle_tag : Text → Text → Option LifecycleTag
lifecycle_tag key value = if is_empty key then none else some (record { key = key; value = value })

-- The tag of a filter, where its key is not empty.
unfoldable pub parse_filter_tag : Text → Option (Option LifecycleTag)
unfolding lifecycle_tag text_or
parse_filter_tag tag_xml = do
  key ← element (codes "Key") tag_xml
  value ← element (codes "Value") tag_xml
  some (lifecycle_tag (text_or [] key) (text_or [] value))

abbrev pub flat {ℓ} : {A : Type ℓ} → Option (Option A) → Option A
flat none = none
flat (some o) = o

unfoldable pub lifecycle_filter : Option Text → Option LifecycleTag → Option LifecycleFilter
lifecycle_filter none none = none
lifecycle_filter (some prefix) tag = some (record { prefix = some prefix; tag = tag; and = none })
lifecycle_filter none (some tag) = some (record { prefix = none; tag = some tag; and = none })

unfoldable pub parse_filter : Text → Option (Option LifecycleFilter)
unfolding parse_filter_tag lifecycle_filter
parse_filter filter_xml = do
  prefix ← element (codes "Prefix") filter_xml
  tag_xml ← element (codes "Tag") filter_xml
  tag ← inside parse_filter_tag tag_xml
  some (lifecycle_filter prefix (flat tag))

unfoldable pub parse_expiration : Text → Option LifecycleExpiration
unfolding parse_u32
parse_expiration exp_xml = do
  days ← element (codes "Days") exp_xml
  date ← element (codes "Date") exp_xml
  some (record { days = parse_u32 days; date = date; expired_object_delete_marker = none })

unfoldable pub parse_transition : Text → Option LifecycleTransition
unfolding parse_u32 text_or
parse_transition trans_xml = do
  days ← element (codes "Days") trans_xml
  date ← element (codes "Date") trans_xml
  storage_class ← element (codes "StorageClass") trans_xml
  some (record {
    days = parse_u32 days;
    date = date;
    storage_class = text_or (codes "STANDARD_IA") storage_class;
  })

unfoldable pub parse_transitions : List Text → Option (List LifecycleTransition)
unfolding parse_transition
parse_transitions [] = some []
parse_transitions (trans_xml ∷ rest) = do
  transition ← parse_transition trans_xml
  transitions ← parse_transitions rest
  some (transition ∷ transitions)

-- A part of the body behind `<Rule>`; none for a panic.
unfoldable pub parse_lifecycle_rule : Text → Option LifecycleRule
unfolding parse_filter parse_expiration parse_transitions text_or
parse_lifecycle_rule part = do
  id ← element (codes "ID") part
  status ← element (codes "Status") part
  filter_xml ← element (codes "Filter") part
  filter ← inside parse_filter filter_xml
  exp_xml ← element (codes "Expiration") part
  expiration ← inside parse_expiration exp_xml
  transitions ← parse_transitions (values (codes "Transition") part)
  some (record {
    id = id;
    status = text_or (codes "Enabled") status;
    filter = flat filter;
    transitions = unless_empty transitions;
    expiration = expiration;
    noncurrent_version_transitions = none;
    noncurrent_version_expiration = none;
    abort_incomplete_multipart_upload = none;
  })

unfoldable pub parse_lifecycle_rules : List Text → Option (List LifecycleRule)
unfolding parse_lifecycle_rule
parse_lifecycle_rules [] = some []
parse_lifecycle_rules (part ∷ rest) = do
  rule ← parse_lifecycle_rule part
  rules ← parse_lifecycle_rules rest
  some (rule ∷ rules)

unfoldable pub parse_lifecycle : Text → Option (List LifecycleRule)
unfolding parts parse_lifecycle_rules
parse_lifecycle body = parse_lifecycle_rules (parts (codes "Rule") body)

abbrev pub outer : Text
outer = codes "\n    "

abbrev pub inner : Text
inner = codes "\n      "

abbrev pub innermost : Text
innermost = codes "\n        "

unfoldable pub filter_tag_xml : Option LifecycleTag → Text
unfolding line
filter_tag_xml none = []
filter_tag_xml (some tag) =
    codes "\n      <Tag>"
    ++ (line innermost (codes "Key") tag.key
        ++ (line innermost (codes "Value") tag.value ++ codes "\n      </Tag>"))

unfoldable pub filter_xml : Option LifecycleFilter → Text
unfolding print_lines filter_tag_xml
filter_xml none = []
filter_xml (some filter) =
    codes "\n    <Filter>"
    ++ (print_lines inner (codes "Prefix") (listed filter.prefix)
        ++ (filter_tag_xml filter.tag ++ codes "\n    </Filter>"))

unfoldable pub expiration_xml : Option LifecycleExpiration → Text
unfolding print_lines show
expiration_xml none = []
expiration_xml (some expiration) =
    codes "\n    <Expiration>"
    ++ (print_lines inner (codes "Days") (map show (listed expiration.days))
        ++ (print_lines inner (codes "Date") (listed expiration.date)
            ++ codes "\n    </Expiration>"))

unfoldable pub transition_xml : LifecycleTransition → Text
unfolding print_lines line show
transition_xml transition =
    codes "\n    <Transition>"
    ++ (print_lines inner (codes "Days") (map show (listed transition.days))
        ++ (print_lines inner (codes "Date") (listed transition.date)
            ++ (line inner (codes "StorageClass") transition.storage_class
                ++ codes "\n    </Transition>")))

unfoldable pub transitions_xml : List LifecycleTransition → Text
unfolding transition_xml
transitions_xml [] = []
transitions_xml (transition ∷ rest) = transition_xml transition ++ transitions_xml rest

abbrev pub list_or {ℓ} : {A : Type ℓ} → Option (List A) → List A
list_or none = []
list_or (some xs) = xs

unfoldable pub lifecycle_rule_xml : LifecycleRule → Text
unfolding print_lines line filter_xml expiration_xml transitions_xml
lifecycle_rule_xml rule =
    codes "\n  <Rule>"
    ++ (print_lines outer (codes "ID") (listed rule.id)
        ++ (line outer (codes "Status") rule.status
            ++ (filter_xml rule.filter
                ++ (expiration_xml rule.expiration
                    ++ (transitions_xml (list_or rule.transitions) ++ codes "\n  </Rule>")))))

unfoldable pub lifecycle_rules_xml : List LifecycleRule → Text
unfolding lifecycle_rule_xml
lifecycle_rules_xml [] = codes "\n</LifecycleConfiguration>"
lifecycle_rules_xml (rule ∷ rest) = lifecycle_rule_xml rule ++ lifecycle_rules_xml rest

unfoldable pub lifecycle_xml : List LifecycleRule → Text
unfolding lifecycle_rules_xml
lifecycle_xml rules =
    codes "<?xml version=\"1.0\" encoding=\"UTF-8\"?>\n<LifecycleConfiguration>"
    ++ lifecycle_rules_xml rules

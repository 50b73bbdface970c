-- ===== src/Approvals.antt =====
-- packages/core/src/action-approval.ts: whether a call of a tool needs the user's approval. What the
-- code takes from the language is a parameter: the lower case of a text, its part before the first
-- underscore, and the tests of its regular expressions.
pub mod Specific
use grok_bot_v.Prelude.{
  ℕ, max, String, Bool, true, false, not, ◌&&◌, ◌||◌, Option, none, some, List, [], ◌∷◌, ◌==◌,
  str_eq, any, keep, if◌then◌else◌,
}
use grok_bot_v.Store.Schema.{ApprovalRule}

abbrev pub in_set : List String → String → Bool
in_set names name = any (λ n. str_eq n name) names

abbrev pub approval_exempt_tools : List String
approval_exempt_tools =
    "computer_observe" ∷ "computer_act" ∷ "list_files" ∷ "read_file" ∷ "write_file" ∷ "shell"
    ∷ "open_path" ∷ "launch_app" ∷ "remember" ∷ "request_takeover" ∷ "vault_list" ∷ "vault_fill"
    ∷ "vault_put" ∷ "vault_delete" ∷ "run_subagent" ∷ "spawn_bot" ∷ "schedule_create"
    ∷ "schedule_list" ∷ "schedule_cancel" ∷ []

abbrev pub approval_required_builtin_tools : List String
approval_required_builtin_tools = "destination.write" ∷ "delete_bot" ∷ "archive_bot" ∷ []

abbrev pub email_connector_slugs : List String
email_connector_slugs = "gmail" ∷ "outlook" ∷ "microsoft_outlook" ∷ []

abbrev pub purchase_connector_slugs : List String
purchase_connector_slugs = "stripe" ∷ "shopify" ∷ "paypal" ∷ "square" ∷ []

-- the regular expressions of the file
pub data Pattern : Type 0 where
  read_only mutating compound send_mail purchase : Pattern

pub record Texts : Type 0 where
  pub lower : String → String
  pub before_underscore : String → String
  pub test : Pattern → String → Bool

pub data Approval : Type 0 where
  asks allows : Approval

module _ (t : Texts) where
  -- with no connector kinds given
  unfoldable pub connector_kind_from_tool_name : String → String
  connector_kind_from_tool_name tool_name = t.lower (t.before_underscore tool_name)

  unfoldable pub connector_tool_requires_approval : String → Bool
  connector_tool_requires_approval tool_name =
      if t.test mutating tool_name || t.test compound tool_name
      then true
      else not (t.test read_only tool_name)

  unfoldable pub tool_requires_approval : String → Bool → Bool
  tool_requires_approval tool_name via_connector =
      if in_set approval_exempt_tools tool_name
      then false
      else if in_set approval_required_builtin_tools tool_name
      then true
      else via_connector && connector_tool_requires_approval tool_name

  abbrev pub slug_or_pattern : List String → Pattern → String → String → Bool
  slug_or_pattern slugs pattern tool_name connector_kind =
      if in_set slugs (t.lower connector_kind)
      then connector_tool_requires_approval tool_name
      else connector_tool_requires_approval tool_name && t.test pattern tool_name

  unfoldable pub category_matches : String → String → String → Bool
  category_matches category tool_name connector_kind =
      if str_eq (t.lower category) "email"
      then slug_or_pattern email_connector_slugs send_mail tool_name connector_kind
      else if str_eq (t.lower category) "purchase"
      then slug_or_pattern purchase_connector_slugs purchase tool_name connector_kind
      else false

  unfoldable pub rule_matches : ApprovalRule → String → String → Bool
  rule_matches rule tool_name connector_kind =
      if str_eq rule.match_kind "tool"
      then str_eq (t.lower tool_name) (t.lower rule.match_value)
      else if str_eq rule.match_kind "connector"
      then str_eq (t.lower connector_kind) (t.lower rule.match_value)
      else str_eq rule.match_kind "category"
        && category_matches rule.match_value tool_name connector_kind

  abbrev pub kind_or : Option String → String → String
  kind_or none tool_name = connector_kind_from_tool_name tool_name
  kind_or (some kind) tool_name = kind

abbrev pub rule_specificity : ApprovalRule → ℕ
rule_specificity rule =
    if str_eq rule.match_kind "tool"
    then 3
    else if str_eq rule.match_kind "connector"
    then 2
    else if str_eq rule.match_kind "category"
    then 1
    else 0

-- `Math.max(...rules.map(ruleSpecificity))` of a list that is not empty
abbrev pub highest : List ApprovalRule → ℕ
highest [] = 0
highest (r ∷ rs) = max (rule_specificity r) (highest rs)

abbrev pub decisive : ℕ → ApprovalRule → Bool
decisive level rule = rule_specificity rule == level && str_eq rule.effect "require_approval"

abbrev pub decide : List ApprovalRule → Approval
decide [] = allows
decide (r ∷ rs) = if any (decisive (highest (r ∷ rs))) (r ∷ rs) then asks else allows

unfoldable pub resolve_action_approval :
    Texts → String → Option String → List ApprovalRule → Approval
resolve_action_approval t tool_name connector_kind rules =
    if in_set approval_exempt_tools tool_name
    then allows
    else decide (keep (λ r. rule_matches t r tool_name (kind_or t connector_kind tool_name)) rules)

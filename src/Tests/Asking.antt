-- ===== src/Tests/Asking.antt =====
-- The theorem on approval rules, at a tool with a rule of its own and one for its connector.
use grok_bot_v.Prelude.{◌≡◌, ◌↔◌, true, false, some, List, [], ◌∷◌, keep}
use grok_bot_v.Store.Schema.{ApprovalRule}
use grok_bot_v.Approvals.{
  Texts, asks, in_set, approval_exempt_tools, rule_matches, resolve_action_approval,
}
use grok_bot_v.Approvals.Specific.{Decides, resolve_action_approval_iff}

-- texts in lower case without underscores, of tools that all change something
abbrev plain : Texts
plain = record { lower = λ s. s; before_underscore = λ s. s; test = λ p s. true }

abbrev rules : List ApprovalRule
rules =
    record {
      workspace_id = 9;
      created_by_user_id = 5;
      effect = "always_allow";
      match_kind = "tool";
      match_value = "gmail_send";
    }
    ∷ record {
      workspace_id = 9;
      created_by_user_id = 5;
      effect = "require_approval";
      match_kind = "connector";
      match_value = "gmail";
    }
    ∷ []

resolve_action_approval_iff_example :
    (resolve_action_approval plain "gmail_send" (some "gmail") rules ≡ asks) ↔ (
      (in_set approval_exempt_tools "gmail_send" ≡ false)
      × ((r : ApprovalRule) × Decides
            (keep (λ x. rule_matches plain x "gmail_send" "gmail") rules)
            r))
resolve_action_approval_iff_example =
    resolve_action_approval_iff plain "gmail_send" (some "gmail") rules

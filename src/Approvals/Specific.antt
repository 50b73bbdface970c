-- ===== src/Approvals/Specific.antt =====
-- Which rules decide on a call.
use grok_bot_v.Prelude.{
  ℕ, ◌≤◌, ◌≡◌, refl, ◌↔◌, String, true, false, Option, List, [], ◌∷◌, arith, ◌==◌, ==_iff,
  and-eq-true, str_eq, any, any-of, any-In, keep, In, here, there, Bool-cases, inl, inr,
}
use grok_bot_v.Store.Schema.{ApprovalRule}
use grok_bot_v.Approvals.{
  Texts, Approval, asks, in_set, approval_exempt_tools, rule_matches, rule_specificity, highest,
  decisive, decide, kind_or, resolve_action_approval,
}

highest_bound :
    (rs : List ApprovalRule) {r : ApprovalRule} → In r rs → rule_specificity r ≤ highest rs
highest_bound [] i = elim i [ ]
highest_bound (x ∷ xs) (here e) = rw (← e) (omega arith)
highest_bound (x ∷ xs) (there i) = omega (arith, highest_bound xs i)

-- A rule of the list with this effect, and no rule of the list is more specific.
abbrev pub Decides : List ApprovalRule → ApprovalRule → Type 0
Decides rs r =
    In r rs
    × (str_eq r.effect "require_approval" ≡ true)
    × ((x : ApprovalRule) → In x rs → rule_specificity x ≤ rule_specificity r)

decide-asks : (rs : List ApprovalRule) → decide rs ≡ asks → (r : ApprovalRule) × Decides rs r
decide-asks [] e = cc
decide-asks (x ∷ xs) e = elim (Bool-cases (any (decisive (highest (x ∷ xs))) (x ∷ xs))) [
  | inl hit ↦
      let (r, i, is) = any-In (decisive (highest (x ∷ xs))) (x ∷ xs) hit in
      let (level, effect) =
        and-eq-true (rule_specificity r == highest (x ∷ xs)) (str_eq r.effect "require_approval")
          is in
      let at = (==_iff (rule_specificity r) (highest (x ∷ xs))).0 level in
      (r, (i, effect, λ y j. rw at (highest_bound (x ∷ xs) j)))
  | inr miss ↦ let e' : Approval.allows ≡ asks = rw miss at e in cc
]

highest-least :
    (n : ℕ) (rs : List ApprovalRule)
    → ((x : ApprovalRule) → In x rs → rule_specificity x ≤ n)
    → highest rs ≤ n
highest-least n [] h = omega arith
highest-least n (x ∷ xs) h =
    omega (arith, h x (here refl), highest-least n xs (λ y i. h y (there i)))

decide-Decides : (rs : List ApprovalRule) (r : ApprovalRule) → Decides rs r → decide rs ≡ asks
decide-Decides [] r (i, effect, top) = elim i [ ]
decide-Decides (x ∷ xs) r (i, effect, top) =
    let level : rule_specificity r ≡ highest (x ∷ xs) =
      omega (arith, highest_bound (x ∷ xs) i, highest-least (rule_specificity r) (x ∷ xs) top) in
    let hit : decisive (highest (x ∷ xs)) r ≡ true =
      rw (effect, (==_iff (rule_specificity r) (highest (x ∷ xs))).1 level) refl in
    rw (any-of (decisive (highest (x ∷ xs))) (x ∷ xs) i hit) refl

-- A call asks for approval exactly when its tool is not exempt and, among the rules that match it, a
-- rule that requires approval is as specific as any: a less specific rule never decides.
pub resolve_action_approval_iff :
    (t : Texts) (tool_name : String) (connector_kind : Option String) (rules : List ApprovalRule)
    → (resolve_action_approval t tool_name connector_kind rules ≡ asks) ↔ (
        (in_set approval_exempt_tools tool_name ≡ false)
        × ((r : ApprovalRule) × Decides
              (keep (λ x. rule_matches t x tool_name (kind_or t connector_kind tool_name)) rules)
              r))
unfolding resolve_action_approval
resolve_action_approval_iff t tool_name connector_kind rules =
    elim (Bool-cases (in_set approval_exempt_tools tool_name)) [
      | inl exempt ↦ (
        λ e. let e' : Approval.allows ≡ asks = rw (exempt, resolve_action_approval) at e in cc,
        λ h. absurd (cc (exempt, h.0)),
      )
      | inr not_exempt ↦ (
        λ e. (not_exempt, decide-asks _ (rw (not_exempt, resolve_action_approval) at e)),
        λ h. rw (not_exempt, resolve_action_approval) (decide-Decides _ h.1.0 h.1.1),
      )
    ]

-- ===== src/Computers/Effects/Once.antt =====
-- How often the workers together can win a claim of one external effect.
use grok_bot_v.Prelude.{
  ℕ, ◌+◌, ◌≤◌, ◌≡◌, refl, String, Bool, true, false, ◌&&◌, ◌||◌, List, [], ◌∷◌, arith, ◌==◌,
  count_where, update_where, if◌then◌else◌, Bool-cases, inl, inr,
}
use grok_bot_v.Store.Blocks.{RowId}
use grok_bot_v.Store.Schema.{Db, ExternalEffect, EffectStatus, EffectResult, approved, interrupted}
use grok_bot_v.Computers.Effects.{
  ExpectedStatus, effect_in, claim_approved_effect, claim_intended_effect, complete_external_effect,
  settle_uncertain_effect, expected, set_result, after_settling,
}

-- One call of a worker; other writers may run between the two statements of `settle`.
pub data EffectCall : Type 0 where
  claim_approved : RowId → EffectCall
  claim_intended : RowId → EffectCall
  complete : RowId → ExpectedStatus → EffectResult → EffectCall
  settle : RowId → String → EffectCall

-- The call's answer counts if it is a claim of the effect that was won.
abbrev pub won : RowId → RowId → Bool → ℕ
won id other claimed = if other == id && claimed then 1 else 0

abbrev pub call_effect : RowId → EffectCall → Db → ℕ × Db
call_effect id (claim_approved other) db =
    let r = claim_approved_effect other db in (won id other r.0, r.1)
call_effect id (claim_intended other) db =
    let r = claim_intended_effect other db in (won id other r.0, r.1)
call_effect id (complete other expected result) db =
    (0, (complete_external_effect other expected result db).1)
call_effect id (settle other tool_name) db =
    (0, (settle_uncertain_effect (λ d. d) other tool_name db).1)

-- The claims of the effect that a sequence of calls wins.
abbrev pub wins : RowId → List EffectCall → Db → ℕ
wins id [] db = 0
wins id (c ∷ cs) db = let r = call_effect id c db in r.0 + wins id cs r.1

-- a row of the effect that may still be claimed
abbrev pub claimable : RowId → ExternalEffect → Bool
claimable id e = effect_in id EffectStatus.intended e || effect_in id approved e

-- An update whose new rows fail `q` does not raise the count of `q`.
count-update_le :
    {A : Type 0} (p q : A → Bool) (f : A → A) (xs : List A)
    → ((x : A) → p x ≡ true → q (f x) ≡ false)
    → count_where q (update_where p f xs) ≤ count_where q xs
count-update_le p q f [] h = ground arith
count-update_le p q f (x ∷ xs) h = elim (Bool-cases (p x)) [
  | inl hit ↦ ground (arith, count-update_le p q f xs h, h x hit)
  | inr miss ↦ ground (arith, count-update_le p q f xs h)
]

-- If moreover every row that it meets passes `q`, it lowers the count by the rows that it meets.
count-update_spent :
    {A : Type 0} (p q : A → Bool) (f : A → A) (xs : List A)
    → ((x : A) → p x ≡ true → (q (f x) ≡ false) × (q x ≡ true))
    → count_where q (update_where p f xs) + count_where p xs ≡ count_where q xs
count-update_spent p q f [] h = refl
count-update_spent p q f (x ∷ xs) h = elim (Bool-cases (p x)) [
  | inl hit ↦ ground (arith, count-update_spent p q f xs h, h x hit)
  | inr miss ↦ ground (arith, count-update_spent p q f xs h)
]

claim-spends :
    (id other : RowId) (p : ExternalEffect → Bool) (f : ExternalEffect → ExternalEffect)
    (es : List ExternalEffect)
    → ((x : ExternalEffect) → p x ≡ true → claimable id (f x) ≡ false)
    → ((x : ExternalEffect) → other == id ≡ true → p x ≡ true → claimable id x ≡ true)
    → won id other (count_where p es == 1) + count_where (claimable id) (update_where p f es)
      ≤ count_where (claimable id) es
claim-spends id other p f es h k = elim (Bool-cases (other == id)) [
  | inl same ↦
      ground (arith, count-update_spent p (claimable id) f es (λ x hit. (h x hit, k x same hit)))
  | inr differs ↦ ground (arith, count-update_le p (claimable id) f es h)
]

complete-spends :
    (id other : RowId) (status : ExpectedStatus) (result : EffectResult) (es : List ExternalEffect)
    → 0
        + count_where (claimable id) (
            update_where
              (effect_in other (expected status))
              (set_result EffectStatus.completed result)
              es)
      ≤ count_where (claimable id) es
complete-spends id other status result es = omega (
  arith,
  count-update_le (effect_in other (expected status)) (claimable id)
      (set_result EffectStatus.completed result) es (λ x hit. ground arith),
)

settle-spends :
    (id other : RowId) (tool_name : String) (es : List ExternalEffect)
    → 0
        + count_where (claimable id) (
            update_where
              (effect_in other EffectStatus.executing)
              (set_result EffectStatus.uncertain (interrupted tool_name))
              es)
      ≤ count_where (claimable id) es
settle-spends id other tool_name es = omega (
  arith,
  count-update_le (effect_in other EffectStatus.executing) (claimable id)
      (set_result EffectStatus.uncertain (interrupted tool_name)) es (λ x hit. ground arith),
)

-- Settling without another writer changes nothing more.
after_settling-db :
    (id : RowId) (tool_name : String) (met : Bool) (db : Db)
    → (after_settling (λ d. d) id tool_name met db).1 ≡ db
after_settling-db id tool_name true db = refl
after_settling-db id tool_name false db = refl

-- Every answer that counts is paid for by a claimable row.
call-spends :
    (id : RowId) (c : EffectCall) (db : Db)
    → (call_effect id c db).0 + count_where (claimable id) (call_effect id c db).1.effects
      ≤ count_where (claimable id) db.effects
unfolding claim_approved_effect claim_intended_effect complete_external_effect
    settle_uncertain_effect
call-spends id (claim_approved other) db =
    claim-spends id other _ _ db.effects (λ x hit. ground arith) (λ x same hit. ground arith)
call-spends id (claim_intended other) db =
    claim-spends id other _ _ db.effects (λ x hit. ground arith) (λ x same hit. ground arith)
call-spends id (complete other expected_status result) db =
    complete-spends id other expected_status result db.effects
call-spends id (settle other tool_name) db =
    rw
      (after_settling-db other tool_name
        (count_where (effect_in other EffectStatus.executing) db.effects == 1) _)
      (settle-spends id other tool_name db.effects)

wins-spend :
    (id : RowId) (cs : List EffectCall) (db : Db)
    → wins id cs db ≤ count_where (claimable id) db.effects
wins-spend id [] db = ground arith
wins-spend id (c ∷ cs) db =
    omega (arith, call-spends id c db, wins-spend id cs (call_effect id c db).1)

claimable-le :
    (id : RowId) (es : List ExternalEffect)
    → count_where (claimable id) es ≤ count_where (λ e. e.id == id) es
claimable-le id [] = ground arith
claimable-le id (e ∷ es) = ground (arith, claimable-le id es)

-- If at most one row bears the identifier, then any sequence of the calls, on this effect and others,
-- one after the other, wins at most one claim of the effect.
pub claims-once :
    (id : RowId) (cs : List EffectCall) (db : Db)
    → count_where (λ e. e.id == id) db.effects ≤ 1
    → wins id cs db ≤ 1
claims-once id cs db one = omega (arith, one, wins-spend id cs db, claimable-le id db.effects)

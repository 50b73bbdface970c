-- ===== src/Computers/Effects.antt =====
-- packages/adapters/src/approval-effect.ts: the gate on an external effect that was proposed before,
-- and the updates by which a worker claims and settles an effect. Each update is one statement of the
-- database; between the update and the read of `settleUncertainEffect`, `between` is what other
-- writers did.
pub mod Once
use grok_bot_v.Prelude.{
  ℕ, String, Bool, true, false, ◌&&◌, Option, none, some, List, ◌==◌, find_where, update_where,
  count_where,
}
use grok_bot_v.Store.Blocks.{RowId}
use grok_bot_v.Store.Schema.{
  Db, ExternalEffect, EffectStatus, approved, denied, uncertain, other_status, EffectResult,
  duplicate, user_denied, interrupted,
}

pub data DuplicateEffectGate : Type 0 where
  execute paused : DuplicateEffectGate
  return : EffectResult → DuplicateEffectGate
  uncertain_gate : String → DuplicateEffectGate

unfoldable pub uncertain_effect_result : String → EffectResult
uncertain_effect_result tool_name = interrupted tool_name

-- `effect.result ?? fallback`
abbrev pub result_or : Option EffectResult → EffectResult → EffectResult
result_or none fallback = fallback
result_or (some r) fallback = r

abbrev pub gate_of : EffectStatus → Option EffectResult → String → DuplicateEffectGate
gate_of EffectStatus.completed result tool_name = return (result_or result duplicate)
gate_of denied result tool_name = return user_denied
gate_of EffectStatus.executing result tool_name = uncertain_gate tool_name
gate_of uncertain result tool_name = return (result_or result (interrupted tool_name))
gate_of approved result tool_name = execute
gate_of EffectStatus.intended result tool_name = paused
gate_of (other_status s) result tool_name = uncertain_gate tool_name

unfoldable pub resolve_duplicate_effect_gate : ExternalEffect → String → DuplicateEffectGate
resolve_duplicate_effect_gate effect tool_name = gate_of effect.status effect.result tool_name

abbrev status_number : EffectStatus → ℕ
status_number EffectStatus.intended = 0
status_number approved = 1
status_number denied = 2
status_number EffectStatus.executing = 3
status_number EffectStatus.completed = 4
status_number uncertain = 5
status_number (other_status s) = 6

-- `where: { id, status }`, for the statuses that the code names
abbrev pub effect_in : RowId → EffectStatus → ExternalEffect → Bool
effect_in id status e = e.id == id && status_number e.status == status_number status

abbrev set_status : EffectStatus → ExternalEffect → ExternalEffect
set_status status e = record e { status = status }

abbrev pub set_result : EffectStatus → EffectResult → ExternalEffect → ExternalEffect
set_result status result e = record e { status = status; result = some result }

-- `updateMany` of the effects, and the test that it met exactly one
abbrev pub update_effects :
    (ExternalEffect → Bool) → (ExternalEffect → ExternalEffect) → Db → Bool × Db
update_effects p f db =
    (count_where p db.effects == 1, record db { effects = update_where p f db.effects })

unfoldable pub claim_approved_effect : RowId → Db → Bool × Db
claim_approved_effect effect_id db =
    update_effects (effect_in effect_id approved) (set_status EffectStatus.executing) db

unfoldable pub claim_intended_effect : RowId → Db → Bool × Db
claim_intended_effect effect_id db =
    update_effects (effect_in effect_id EffectStatus.intended) (set_status EffectStatus.executing)
      db

-- The caller expects an effect that is intended, or one that it executes.
pub data ExpectedStatus : Type 0 where
  intended executing : ExpectedStatus

abbrev pub expected : ExpectedStatus → EffectStatus
expected ExpectedStatus.intended = EffectStatus.intended
expected ExpectedStatus.executing = EffectStatus.executing

unfoldable pub complete_external_effect : RowId → ExpectedStatus → EffectResult → Db → Bool × Db
complete_external_effect effect_id expected_status result db =
    update_effects (effect_in effect_id (expected expected_status))
      (set_result EffectStatus.completed result) db

abbrev gate_result : DuplicateEffectGate → EffectResult → EffectResult
gate_result (return r) fallback = r
gate_result _ fallback = fallback

-- the read of the effect after an update that did not meet it
abbrev pub settled_result : Option ExternalEffect → String → EffectResult
settled_result none tool_name = interrupted tool_name
settled_result (some e) tool_name =
    gate_result (gate_of e.status e.result tool_name) (interrupted tool_name)

abbrev pub after_settling : (Db → Db) → RowId → String → Bool → Db → EffectResult × Db
after_settling between effect_id tool_name true db = (interrupted tool_name, db)
after_settling between effect_id tool_name false db =
    let db' = between db in
    (settled_result (find_where (λ e. e.id == effect_id) db'.effects) tool_name, db')

unfoldable pub settle_uncertain_effect : (Db → Db) → RowId → String → Db → EffectResult × Db
settle_uncertain_effect between effect_id tool_name db =
    let settled =
      update_effects (effect_in effect_id EffectStatus.executing)
        (set_result EffectStatus.uncertain (interrupted tool_name)) db in
    after_settling between effect_id tool_name settled.0 settled.1

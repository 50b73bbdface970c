-- ===== src/Events/Answer.antt =====
-- `answerRunInput` of packages/db/src/events.ts, and `isApprovalAskBlock` of
-- packages/core/src/action-approval.ts. The rows' blocks are typed here, so the check of the stored
-- blocks against their schema always passes.
pub mod Once
pub mod Claimed
use grok_bot_v.Prelude.{
  String, Bool, true, false, not, ◌&&◌, ◌||◌, Option, none, some, List, [], ◌∷◌, ◌==◌, is_some,
  str_eq, has_value, if◌then◌else◌, any, opt_eq,
}
use grok_bot_v.RunState.{is_status, queued, waiting_input}
use grok_bot_v.Store.Blocks.{RowId, MessageBlock, Ask, ask, is_answered, AskStatus}
use grok_bot_v.Store.Schema.{
  Run, Message, Role, ExternalEffect, EffectStatus, ApprovalRule, message_updated, message,
}
use grok_bot_v.Store.Tables.{runs, tasks, messages, effects, rules}
use grok_bot_v.Store.Tx.{
  or_null, null_unless, Tx, ◌>>=◌, ◌>>◌, pure, throw, Result, find_first, find_many, update_many,
  update_one, create, transaction, task_unavailable,
}
use grok_bot_v.History.{append_event_in_transaction}
use grok_bot_v.Events.Server.{Server, Publication, publication, publish_found}

pub record AnswerRunInput : Type 0 where
  pub workspace_id : RowId
  pub thread_id : RowId
  pub run_id : RowId
  pub message_id : RowId
  pub answered_by_user_id : RowId
  pub answer : String

abbrev pub has_id : String → List (String × String) → Bool
has_id id actions = any (λ a. str_eq a.0 id) actions

-- every action is `allow`, `always` or `deny`
abbrev pub known_action : String × String → Bool
known_action a = str_eq a.0 "allow" || str_eq a.0 "always" || str_eq a.0 "deny"

abbrev pub approval_actions : Option (List (String × String)) → Bool
approval_actions none = false
approval_actions (some []) = false
approval_actions (some (a ∷ actions)) =
    has_id "allow" (a ∷ actions)
    && has_id "deny" (a ∷ actions)
    && not (any (λ x. not (known_action x)) (a ∷ actions))

-- The block is an ask already.
unfoldable pub is_approval_ask_block : Ask → Bool
is_approval_ask_block a = is_some a.approval_effect_id && approval_actions a.actions

abbrev pub is_pending : MessageBlock → Bool
is_pending (ask a) = not (is_answered a.status)
is_pending _ = false

-- `parsed.data.find(...)`
unfoldable pub pending_ask : List MessageBlock → Option Ask
pending_ask [] = none
pending_ask (ask a ∷ bs) = if is_answered a.status then pending_ask bs else some a
pending_ask (b ∷ bs) = pending_ask bs

abbrev pub answer_ask : String → Ask → Ask
answer_ask answer a = record a { status = some AskStatus.answered; answer = some answer }

-- The block that `find` returned is replaced, and no other.
unfoldable pub answer_block : String → List MessageBlock → List MessageBlock
answer_block answer [] = []
answer_block answer (ask a ∷ bs) =
    if is_answered a.status then ask a ∷ answer_block answer bs else ask (answer_ask answer a) ∷ bs
answer_block answer (b ∷ bs) = b ∷ answer_block answer bs

abbrev pub waiting_run : AnswerRunInput → Run → Bool
waiting_run input r =
    r.id == input.run_id
    && r.workspace_id == input.workspace_id
    && r.thread_id == input.thread_id
    && is_status r.status waiting_input

abbrev is_bot : Role → Bool
is_bot Role.bot = true
is_bot _ = false

abbrev pub asked_message : AnswerRunInput → Message → Bool
asked_message input m =
    m.id == input.message_id
    && m.thread_id == input.thread_id
    && has_value m.run_id input.run_id
    && is_bot m.role

abbrev is_intended : EffectStatus → Bool
is_intended EffectStatus.intended = true
is_intended _ = false

abbrev pub asked_effect : AnswerRunInput → Option RowId → ExternalEffect → Bool
asked_effect input id e =
    opt_eq (some e.id) id
    && e.workspace_id == input.workspace_id
    && e.run_id == input.run_id
    && is_intended e.status

abbrev offered : String → Option (List (String × String)) → Bool
offered answer none = false
offered answer (some actions) = has_id answer actions

-- the guards on an approval: the effect that waits, if the ask is one and the answer fits
abbrev pub approval_effect :
    {B : Type 0}
    → AnswerRunInput
    → Run
    → Ask
    → (Option ExternalEffect → Tx (Option B))
    → Tx (Option B)
approval_effect input run a k =
    if is_approval_ask_block a
    then null_unless (offered input.answer a.actions) (do
      found ← find_first effects (asked_effect input a.approval_effect_id)
      or_null found (λ effect.
          null_unless
            (not (str_eq input.answer "always") || run.user_id == input.answered_by_user_id)
            (k (some effect))))
    else k none

abbrev pub rule_is : ApprovalRule → ApprovalRule → Bool
rule_is new r =
    r.workspace_id == new.workspace_id
    && r.created_by_user_id == new.created_by_user_id
    && str_eq r.effect new.effect
    && str_eq r.match_kind new.match_kind
    && str_eq r.match_value new.match_value

-- `upsert` with an empty update
unfoldable pub upsert_rule : ApprovalRule → Tx (Unit {0})
upsert_rule new = do
  found ← find_first rules (rule_is new)
  if is_some found then pure tt else (do create rules (rule_is new) new; pure tt)

abbrev pub always_rule : AnswerRunInput → ExternalEffect → ApprovalRule
always_rule input e = record {
  workspace_id = input.workspace_id;
  created_by_user_id = input.answered_by_user_id;
  effect = "always_allow";
  match_kind = "tool";
  match_value = e.kind;
}

abbrev pub decision : String → EffectStatus
decision answer =
    if str_eq answer "allow" || str_eq answer "always"
    then EffectStatus.approved
    else EffectStatus.denied

-- an approval settles its effect; any other answer becomes the prompt of the run's task
unfoldable pub settle : AnswerRunInput → Option ExternalEffect → Tx (Unit {0})
settle input (some effect) = do
  update_one effects (λ e. e.id == effect.id) (λ e. record e { status = decision input.answer })
  if str_eq input.answer "always" then upsert_rule (always_rule input effect) else pure tt
settle input none = do
  asked ← find_many runs (λ r. r.id == input.run_id)
  count ←
      update_many tasks (λ t. any (λ r. r.task_id == t.id) asked)
        (λ t. record t { prompt = input.answer })
  if count == 1 then pure tt else throw task_unavailable

-- what follows once the run is queued again
unfoldable pub record_answer :
    RowId → AnswerRunInput → Run → Message → Option ExternalEffect → Tx (Option Publication)
record_answer event_id input run m effect = do
  settle input effect
  update_one messages (λ x. x.id == m.id)
      (λ x. record x { blocks = answer_block input.answer m.blocks })
  updated ← append_event_in_transaction event_id (record {
    workspace_id = input.workspace_id;
    thread_id = input.thread_id;
    bot_id = run.bot_id;
    type = message_updated;
    payload = message m.id Role.bot (answer_block input.answer m.blocks);
    run_id = some input.run_id;
  })
  pure (some (publication updated))

unfoldable pub answer_in_transaction : RowId → AnswerRunInput → Tx (Option Publication)
answer_in_transaction event_id input = do
  found ← find_first runs (waiting_run input)
  or_null found (λ run. do
    asked ← find_first messages (asked_message input)
    or_null asked (λ m. or_null (pending_ask m.blocks) (λ a. approval_effect input run a (λ effect.
        do
          count ← update_many runs (waiting_run input) (λ r. record r { status = queued })
          null_unless (count == 1) (record_answer event_id input run m effect)))))

unfoldable pub answer_run_input :
    RowId → AnswerRunInput → Server → Result (Option Publication) × Server
answer_run_input event_id input s =
    publish_found (transaction (answer_in_transaction event_id input) s.db) s

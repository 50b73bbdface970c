-- ===== src/Events/Finalize.antt =====
-- `finalizeRun` of packages/db/src/events.ts.
use grok_bot_v.Prelude.{
  ℕ, String, Bool, true, false, ◌&&◌, Option, none, some, List, ◌==◌, has_value, if◌then◌else◌,
}
use grok_bot_v.RunState.{RunStatus, is_status, running}
use grok_bot_v.Store.Blocks.{RowId, MessageBlock}
use grok_bot_v.Store.Schema.{
  Run, Task, TaskStatus, Attempt, AttemptStatus, Role, EventType, Payload, message_created,
  run_completed, run_failed, message, empty, run_error,
}
use grok_bot_v.Store.Tables.{runs, attempts, tasks, events, bots}
use grok_bot_v.Store.Tx.{
  null_unless, Tx, ◌>>=◌, ◌>>◌, pure, throw, Result, ok, err, update_many, update_one, delete_many,
  transaction, task_unavailable, run_history_write,
}
use grok_bot_v.History
use grok_bot_v.History.{
  create_thread_message_in_transaction, append_event_in_transaction, assert_run_can_write_history,
}
use grok_bot_v.Events.Server.{Server, Publication, publication, publish_found}
use grok_bot_v.Events.Pause.{leased_attempt, require_attempt, progress_of}

pub data Outcome : Type 0 where
  completed : List MessageBlock → Outcome
  failed : String → Outcome

pub record FinalizeRunInput : Type 0 where
  pub workspace_id : RowId
  pub thread_id : RowId
  pub bot_id : RowId
  pub run_id : RowId
  pub task_id : RowId
  pub attempt_id : RowId
  pub lease_owner : RowId
  pub lease_fence : ℕ
  pub outcome : Outcome

-- The identifiers of the rows that the end of a run creates.
pub record FinalizeIds : Type 0 where
  pub message : RowId
  pub created_event : RowId
  pub last_event : RowId

abbrev pub run_status : Outcome → RunStatus
run_status (Outcome.completed blocks) = RunStatus.completed
run_status (Outcome.failed e) = RunStatus.failed

abbrev pub attempt_status : Outcome → AttemptStatus
attempt_status (Outcome.completed blocks) = AttemptStatus.completed
attempt_status (Outcome.failed e) = AttemptStatus.failed

abbrev pub task_status : Outcome → TaskStatus
task_status (Outcome.completed blocks) = TaskStatus.completed
task_status (Outcome.failed e) = TaskStatus.failed

abbrev pub outcome_error : Outcome → Option String
outcome_error (Outcome.completed blocks) = none
outcome_error (Outcome.failed e) = some e

abbrev pub last_type : Outcome → EventType
last_type (Outcome.completed blocks) = run_completed
last_type (Outcome.failed e) = run_failed

abbrev pub last_payload : Outcome → Payload
last_payload (Outcome.completed blocks) = empty
last_payload (Outcome.failed e) = run_error e

abbrev pub held_run : FinalizeRunInput → Run → Bool
held_run input r =
    r.id == input.run_id
    && r.workspace_id == input.workspace_id
    && r.thread_id == input.thread_id
    && r.bot_id == input.bot_id
    && r.task_id == input.task_id
    && is_status r.status running
    && has_value r.lease_owner input.lease_owner
    && r.lease_fence == input.lease_fence

abbrev pub end_run : ℕ → Outcome → Run → Run
end_run now outcome r = record r {
  status = run_status outcome;
  error = outcome_error outcome;
  completed_at = some now;
  lease_owner = none;
  lease_expires_at = none;
}

abbrev pub end_attempt : ℕ → Outcome → Attempt → Attempt
end_attempt now outcome a = record a {
  status = attempt_status outcome;
  error = outcome_error outcome;
  finished_at = some now;
}

abbrev pub held_task : FinalizeRunInput → Task → Bool
held_task input t =
    t.id == input.task_id
    && t.workspace_id == input.workspace_id
    && t.thread_id == input.thread_id
    && t.bot_id == input.bot_id

abbrev pub require_task : ℕ → Tx (Unit {0})
require_task count = if count == 1 then pure tt else throw task_unavailable

-- `try { await assertRunCanWriteHistory(...) } catch { ... }`: whether the test passed
unfoldable pub may_write : RowId → Tx Bool
may_write run_id db = elim (assert_run_can_write_history (some run_id) db) [
  | ok (u, db') ↦ ok (true, db')
  | err run_history_write ↦ ok (false, db)
  | err e ↦ err e
]

abbrev pub final_event : FinalizeRunInput → EventType → Payload → History.AppendEventInput
final_event input type payload = record {
  workspace_id = input.workspace_id;
  thread_id = input.thread_id;
  bot_id = input.bot_id;
  type = type;
  payload = payload;
  run_id = some input.run_id;
}

-- `if (input.outcome === "completed") { ... }`
unfoldable pub record_reply : FinalizeIds → FinalizeRunInput → Outcome → Tx (Unit {0})
record_reply ids input (Outcome.failed e) = pure tt
record_reply ids input (Outcome.completed blocks) = do
  m ← create_thread_message_in_transaction ids.message (record {
    thread_id = input.thread_id;
    role = Role.bot;
    blocks = blocks;
    bot_id = some input.bot_id;
    reply_to_message_id = none;
    run_id = some input.run_id;
    client_nonce = none;
  })
  append_event_in_transaction ids.created_event
      (final_event input message_created (message m.id Role.bot blocks))
  pure tt

-- what follows once the run has its final state
unfoldable pub record_end : ℕ → FinalizeIds → FinalizeRunInput → Tx (Option Publication)
record_end now ids input = do
  attempts_met ←
      update_many attempts (leased_attempt input.attempt_id input.run_id input.lease_fence)
        (end_attempt now input.outcome)
  require_attempt attempts_met
  tasks_met ←
      update_many tasks (held_task input) (λ t. record t { status = task_status input.outcome })
  require_task tasks_met
  record_reply ids input input.outcome
  last ←
      append_event_in_transaction ids.last_event
        (final_event input (last_type input.outcome) (last_payload input.outcome))
  delete_many events (progress_of input.run_id)
  update_one bots (λ b. b.id == input.bot_id) (λ b. record b { updated_at = now })
  pure (some (publication last))

unfoldable pub finalize_in_transaction :
    ℕ → FinalizeIds → FinalizeRunInput → Tx (Option Publication)
finalize_in_transaction now ids input = do
  allowed ← may_write input.run_id
  null_unless allowed (do
    count ← update_many runs (held_run input) (end_run now input.outcome)
    null_unless (count == 1) (record_end now ids input))

unfoldable pub finalize_run :
    ℕ → FinalizeIds → FinalizeRunInput → Server → Result (Option Publication) × Server
finalize_run now ids input s =
    publish_found (transaction (finalize_in_transaction now ids input) s.db) s

-- ===== src/Events/Pause.antt =====
-- `pauseRunForInput` and `pauseRunForTakeover` of packages/db/src/events.ts.
use grok_bot_v.Prelude.{
  ℕ, String, Bool, true, false, ◌&&◌, Option, none, some, List, ◌==◌, has_value, if◌then◌else◌,
}
use grok_bot_v.RunState.{is_status, running, waiting_input, waiting_takeover}
use grok_bot_v.Store.Blocks.{RowId, MessageBlock}
use grok_bot_v.Store.Schema.{
  Run, Attempt, AttemptStatus, Role, Event, EventType, Payload, message_created, thread_progress,
  run_waiting_input, takeover_requested, message, empty, takeover_reason,
}
use grok_bot_v.Store.Tables.{runs, attempts, events}
use grok_bot_v.Store.Tx.{
  null_unless, Tx, ◌>>=◌, ◌>>◌, pure, throw, Result, update_many, delete_many, transaction,
  attempt_unavailable,
}
use grok_bot_v.History
use grok_bot_v.History.{create_thread_message_in_transaction, append_event_in_transaction}
use grok_bot_v.Events.Server.{Server, Publication, publication, publish_found}

-- The fields that `PauseRunForInput` and `PauseRunForTakeover` share.
pub record PauseRun : Type 0 where
  pub workspace_id : RowId
  pub thread_id : RowId
  pub bot_id : RowId
  pub run_id : RowId
  pub attempt_id : RowId
  pub lease_owner : RowId
  pub lease_fence : ℕ

-- The run of the input, running under the input's lease.
abbrev pub leased_run : PauseRun → Run → Bool
leased_run input r =
    r.id == input.run_id
    && r.workspace_id == input.workspace_id
    && r.thread_id == input.thread_id
    && r.bot_id == input.bot_id
    && is_status r.status running
    && has_value r.lease_owner input.lease_owner
    && r.lease_fence == input.lease_fence

abbrev pub is_running : AttemptStatus → Bool
is_running AttemptStatus.running = true
is_running _ = false

abbrev pub leased_attempt : RowId → RowId → ℕ → Attempt → Bool
leased_attempt attempt_id run_id fence a =
    a.id == attempt_id && a.run_id == run_id && a.fence == fence && is_running a.status

-- `if (attempt.count !== 1) throw ...`
abbrev pub require_attempt : ℕ → Tx (Unit {0})
require_attempt count = if count == 1 then pure tt else throw attempt_unavailable

abbrev is_progress : EventType → Bool
is_progress thread_progress = true
is_progress _ = false

abbrev pub progress_of : RowId → Event → Bool
progress_of run_id e = has_value e.run_id run_id && is_progress e.type

abbrev pub pause_event : PauseRun → EventType → Payload → History.AppendEventInput
pause_event input type payload = record {
  workspace_id = input.workspace_id;
  thread_id = input.thread_id;
  bot_id = input.bot_id;
  type = type;
  payload = payload;
  run_id = some input.run_id;
}

-- The identifiers of the rows that a pause creates.
pub record PauseIds : Type 0 where
  pub message : RowId
  pub created_event : RowId
  pub waiting_event : RowId

abbrev pub wait_for_input : Run → Run
wait_for_input r = record r { status = waiting_input; lease_owner = none; lease_expires_at = none }

unfoldable pub record_ask : ℕ → PauseIds → PauseRun → List MessageBlock → Tx (Option Publication)
record_ask now ids input blocks = do
  count ←
      update_many attempts (leased_attempt input.attempt_id input.run_id input.lease_fence)
        (λ a. record a { status = AttemptStatus.waiting_input; finished_at = some now })
  require_attempt count
  m ← create_thread_message_in_transaction ids.message (record {
    thread_id = input.thread_id;
    role = Role.bot;
    blocks = blocks;
    bot_id = none;
    reply_to_message_id = none;
    run_id = some input.run_id;
    client_nonce = none;
  })
  append_event_in_transaction ids.created_event
      (pause_event input message_created (message m.id Role.bot blocks))
  waiting ←
      append_event_in_transaction ids.waiting_event (pause_event input run_waiting_input empty)
  delete_many events (progress_of input.run_id)
  pure (some (publication waiting))

unfoldable pub pause_for_input_in_transaction :
    ℕ → PauseIds → PauseRun → List MessageBlock → Tx (Option Publication)
pause_for_input_in_transaction now ids input blocks = do
  count ← update_many runs (leased_run input) wait_for_input
  null_unless (count == 1) (record_ask now ids input blocks)

unfoldable pub pause_run_for_input :
    ℕ → PauseIds → PauseRun → List MessageBlock → Server → Result (Option Publication) × Server
pause_run_for_input now ids input blocks s =
    publish_found (transaction (pause_for_input_in_transaction now ids input blocks) s.db) s

abbrev pub wait_for_takeover : Run → Run
wait_for_takeover r = record r {
  status = waiting_takeover;
  lease_owner = none;
  lease_expires_at = none;
  checkpoint = none;
}

unfoldable pub record_takeover : ℕ → RowId → PauseRun → String → Tx (Option Publication)
record_takeover now event_id input reason = do
  count ←
      update_many attempts (leased_attempt input.attempt_id input.run_id input.lease_fence)
        (λ a. record a { status = AttemptStatus.waiting_takeover; finished_at = some now })
  require_attempt count
  waiting ←
      append_event_in_transaction event_id
        (pause_event input takeover_requested (takeover_reason reason))
  delete_many events (progress_of input.run_id)
  pure (some (publication waiting))

unfoldable pub pause_for_takeover_in_transaction :
    ℕ → RowId → PauseRun → String → Tx (Option Publication)
pause_for_takeover_in_transaction now event_id input reason = do
  count ← update_many runs (leased_run input) wait_for_takeover
  null_unless (count == 1) (record_takeover now event_id input reason)

unfoldable pub pause_run_for_takeover :
    ℕ → RowId → PauseRun → String → Server → Result (Option Publication) × Server
pause_run_for_takeover now event_id input reason s =
    publish_found (transaction (pause_for_takeover_in_transaction now event_id input reason) s.db) s

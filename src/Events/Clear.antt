-- ===== src/Events/Clear.antt =====
-- `clearThread` of packages/db/src/events.ts.
pub mod Runs
pub mod History
use grok_bot_v.Prelude.{
  ℕ, ◌+◌, ◌-◌, Bool, true, false, ◌&&◌, none, some, List, [], ◌∷◌, map, ◌==◌, ltb, has_value,
  if◌then◌else◌, any,
}
use grok_bot_v.RunState.{active_run_statuses, status_in, cancelled}
use grok_bot_v.Store.Blocks.{RowId}
use grok_bot_v.Store.Schema.{
  Thread, Run, Attempt, AttemptStatus, TaskStatus, Computer, Event, thread_cleared, empty,
}
use grok_bot_v.Store.Tables.{
  threads, runs, tasks, attempts, messages, events, computers, leases, bots,
}
use grok_bot_v.Store.Tx.{
  Tx, ◌>>=◌, ◌>>◌, pure, Result, find_many, update_many, update_one, delete_many, transaction,
}
use grok_bot_v.History.{append_event_in_transaction, thread_is}
use grok_bot_v.Events.Server.{Server, publish_commit, publication}

pub record ClearThreadInput : Type 0 where
  pub workspace_id : RowId
  pub thread_id : RowId
  pub bot_id : RowId

pub record ClearThreadResult : Type 0 where
  pub event : Event
  pub cancelled_run_ids : List RowId
  pub history_compaction_generation : ℕ

abbrev pub owned_thread : ClearThreadInput → Thread → Bool
owned_thread input t =
    t.id == input.thread_id
    && t.workspace_id == input.workspace_id
    && has_value t.bot_id input.bot_id

abbrev pub active_run : ClearThreadInput → Run → Bool
active_run input r =
    r.workspace_id == input.workspace_id
    && r.thread_id == input.thread_id
    && r.bot_id == input.bot_id
    && status_in active_run_statuses r.status

-- `{ in: ids }`
abbrev pub among : List RowId → RowId → Bool
among ids id = any (λ i. i == id) ids

abbrev is_running : AttemptStatus → Bool
is_running AttemptStatus.running = true
is_running _ = false

abbrev pub cancel_run : ℕ → Run → Run
cancel_run now r = record r {
  status = cancelled;
  completed_at = some now;
  lease_owner = none;
  lease_expires_at = none;
}

abbrev pub cancel_attempt : ℕ → Attempt → Attempt
cancel_attempt now a = record a { status = AttemptStatus.cancelled; finished_at = some now }

-- the three updates under `if (runIds.length > 0)`
unfoldable pub cancel_runs : ℕ → List RowId → List RowId → Tx (Unit {0})
cancel_runs now [] task_ids = pure tt
cancel_runs now (id ∷ ids) task_ids = do
  update_many runs (λ r. among (id ∷ ids) r.id) (cancel_run now)
  update_many attempts (λ a. among (id ∷ ids) a.run_id && is_running a.status) (cancel_attempt now)
  update_many tasks (λ t. among task_ids t.id) (λ t. record t { status = TaskStatus.cancelled })
  pure tt

abbrev pub free_computer : Computer → Computer
free_computer c = record c {
  execution_run_id = none;
  execution_bot_id = none;
  execution_lease_expires_at = none;
}

-- every deleted message counts as compacted
abbrev pub compact_all : ℕ → Thread → Thread
compact_all next t =
    if ltb 0 next
    then record t {
      history_compacted_up_to_seq = some (next - 1);
      history_compaction_summary = none;
      history_compaction_generation = t.history_compaction_generation + 1;
    }
    else record t {
      history_compaction_summary = none;
      history_compaction_generation = t.history_compaction_generation + 1;
    }

-- what follows once the runs are cancelled
unfoldable pub clear_history :
    ℕ → RowId → ClearThreadInput → Thread → List RowId → Tx ClearThreadResult
clear_history now event_id input thread run_ids = do
  delete_many leases (λ l. l.bot_id == input.bot_id)
  update_many computers (λ c. has_value c.execution_bot_id input.bot_id) free_computer
  delete_many messages (λ m. m.thread_id == input.thread_id)
  delete_many events (λ e. e.thread_id == input.thread_id)
  update_one threads (thread_is input.thread_id) (compact_all thread.next_message_seq)
  update_one bots (λ b. b.id == input.bot_id && b.workspace_id == input.workspace_id)
      (λ b. record b { updated_at = now })
  event ← append_event_in_transaction event_id (record {
    workspace_id = input.workspace_id;
    thread_id = input.thread_id;
    bot_id = input.bot_id;
    type = thread_cleared;
    payload = empty;
    run_id = none;
  })
  pure (record {
    event = event;
    cancelled_run_ids = run_ids;
    history_compaction_generation = thread.history_compaction_generation;
  })

unfoldable pub clear_thread_in_transaction : ℕ → RowId → ClearThreadInput → Tx ClearThreadResult
clear_thread_in_transaction now event_id input = do
  thread ← update_one threads (owned_thread input) (λ t. record t { unread = false })
  active_runs ← find_many runs (active_run input)
  cancel_runs now (map (λ r. r.id) active_runs) (map (λ r. r.task_id) active_runs)
  clear_history now event_id input thread (map (λ r. r.id) active_runs)

unfoldable pub clear_thread :
    ℕ → RowId → ClearThreadInput → Server → Result ClearThreadResult × Server
clear_thread now event_id input s =
    publish_commit (transaction (clear_thread_in_transaction now event_id input) s.db)
      (λ r. publication r.event) s

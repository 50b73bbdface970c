-- ===== src/Tests.antt =====
-- The theorems on conversations and runs at the sample data.
mod Workers
mod Clients
mod Subscribers
mod Retries
mod Asking
mod Answers
mod Paging
mod Retrying
mod Writing
mod Reconciling
mod Secrets
mod Queueing
mod Compacting
use grok_bot_v.Prelude.{
  ◌≡◌, ◌≢◌, ◌≤◌, ◌<◌, ◌⊎◌, ◌↔◌, refl, Bool, true, false, Option, none, some, List, [], ◌∷◌, arith,
  In, here, In-cons, inl, inr, any, count_where, NoClash, map,
}
use grok_bot_v.RunState.{
  RunStatus, leased, running, cancelled, can_transition, queued, waiting_input,
}
use grok_bot_v.Store.Schema.{
  Db, Message, Event, Run, thread_cleared, empty, TaskStatus, Task, Bot, Checkpoint, EffectStatus,
  ExecutionLease, EffectResult, Computer,
}
use grok_bot_v.Store.Tx.{Result, ok, err, run_history_write}
use grok_bot_v.Samples.{the_db, the_server, the_thread, the_message, the_event, run_as, db_with}
use grok_bot_v.History.Log.{IsConsistent}
use grok_bot_v.History.{AppendEventInput, append_event_in_transaction}
use grok_bot_v.History.Append.{append_event-total}
use grok_bot_v.Events.Clear.{ClearThreadInput}
use grok_bot_v.Events.Operations.{Operation, append, clear, perform, perform_all}
use grok_bot_v.Events.Consistent.{perform_all-IsConsistent}
use grok_bot_v.Store.Tx.{
  transaction, ◌>>=◌, ◌>>◌, continue_with, pure, throw, update_one, update_many, find_many,
  find_first, delete_many, create,
}
use grok_bot_v.History.{assert_run_can_write_history, insert_event, assert_found, next_event}
use grok_bot_v.Events.Clear.{
  clear_thread_in_transaction, clear_history, cancel_runs, ClearThreadResult, cancel_run,
  cancel_attempt, compact_all,
}
use grok_bot_v.Events.Clear.History.{clear_thread-empties, NoMessages, OnlyCleared, NoLeases}
use grok_bot_v.RunState.Laws.{Reaches, Reaches-cancelled_iff}
use grok_bot_v.Events.Transitions.{perform-Follows}
use grok_bot_v.Events.Clear.{clear_thread}
use grok_bot_v.Events.Server.{publish_commit, notify_realtime}
use grok_bot_v.Events.Stale.{TurnsAway, stale_worker-refused}
use grok_bot_v.Events.Answer.Claimed.{answer_in_transaction-claimed}
use grok_bot_v.Events.Pause.{
  PauseRun, PauseIds, pause_for_input_in_transaction, pause_for_takeover_in_transaction,
}
use grok_bot_v.Events.Finalize.{FinalizeRunInput, FinalizeIds, Outcome, finalize_in_transaction}
use grok_bot_v.Events.Answer.{AnswerRunInput, answer_in_transaction}
use grok_bot_v.History.Keeps.{writable, with_event}
use grok_bot_v.Computers.Effects.{ExpectedStatus}
use grok_bot_v.Computers.Effects.Once.{
  EffectCall, claim_approved, claim_intended, complete, wins, claims-once,
}
use grok_bot_v.Computers.Claims.{
  claim_run, start_leased_run, renew_run_lease, requeue_computer_run, held_by, computer_retry_delay,
}
use grok_bot_v.Computers.Claims.Fences.{claim_run-fences_out, computer_retry_delay-bounds}
use grok_bot_v.Computers.Leases.{AcquireInput, acquire_computer_execution_lease}
use grok_bot_v.Computers.Control.{World, Outside, expire_computer_control}
use grok_bot_v.Computers.Control.Expiry.{Spared, expire_computer_control-spares}
use grok_bot_v.Store.Tx.{computer_busy}
use grok_bot_v.Samples.{the_computer, the_lease}

abbrev clear_input : ClearThreadInput
clear_input = record { workspace_id = 9; thread_id = 1; bot_id = 2 }

abbrev event_input : AppendEventInput
event_input = record {
  workspace_id = 9;
  thread_id = 1;
  bot_id = 2;
  type = thread_cleared;
  payload = empty;
  run_id = some 3;
}

only : {A : Type 0} {a b : A} → In a (b ∷ []) → b ≡ a
only i = elim (In-cons i) [ inl e ↦ e | inr j ↦ elim j [ ] ]

the_db-IsConsistent : IsConsistent the_db
the_db-IsConsistent = record {
  threads_unique = (refl, tt);
  bots_unique = (refl, tt);
  runs_unique = (refl, tt);
  nonces_unique = (refl, tt);
  messages_unique = (refl, tt);
  events_unique = (refl, tt);
  messages_below = λ m t i j e. rw (← only i, ← only j) (ground arith);
  events_below = λ m t i j e. rw (← only i, ← only j) (ground arith);
}

perform_all-IsConsistent_example :
    IsConsistent (perform_all (append 31 event_input ∷ clear 50 32 clear_input ∷ []) the_server).db
perform_all-IsConsistent_example =
    perform_all-IsConsistent (append 31 event_input ∷ clear 50 32 clear_input ∷ []) the_server
      the_db-IsConsistent

-- The sample database after the clear.
abbrev cleared_event : Event
cleared_event = record {
  id = 32;
  workspace_id = 9;
  thread_id = 1;
  bot_id = 2;
  seq = 1;
  type = thread_cleared;
  payload = empty;
  run_id = none;
}

abbrev cleared : ClearThreadResult
cleared = record {
  event = cleared_event;
  cancelled_run_ids = 3 ∷ [];
  history_compaction_generation = 0;
}

abbrev cleared_run : Run
cleared_run = cancel_run 50 (run_as running)

abbrev cleared_db : Db
cleared_db = record the_db {
  threads = next_event (compact_all 1 the_thread) ∷ [];
  runs = cleared_run ∷ [];
  attempts = map (cancel_attempt 50) the_db.attempts;
  tasks = map (λ (t : Task). record t { status = TaskStatus.cancelled }) the_db.tasks;
  leases = [];
  messages = [];
  events = cleared_event ∷ [];
  bots = map (λ (b : Bot). record b { updated_at = 50 }) the_db.bots;
}

clear_the_db : clear_thread_in_transaction 50 32 clear_input the_db ≡ ok (cleared, cleared_db)
unfolding clear_thread_in_transaction clear_history cancel_runs ◌>>=◌ ◌>>◌ continue_with pure
    update_one update_many find_many delete_many append_event_in_transaction create
    assert_run_can_write_history insert_event find_first assert_found throw
clear_the_db = refl

clear_thread-empties_example :
    NoMessages 1 cleared_db × OnlyCleared 1 cleared_db × NoLeases 2 cleared_db
clear_thread-empties_example = clear_thread-empties 50 32 clear_input the_db clear_the_db

-- The clear cancels the run that was under way.
perform-Follows_example : (running ≡ cancelled) ⊎ (can_transition running cancelled ≡ true)
unfolding perform clear_thread publish_commit transaction clear_thread_in_transaction clear_history
    cancel_runs ◌>>=◌ ◌>>◌ continue_with pure update_one update_many find_many delete_many
    append_event_in_transaction create assert_run_can_write_history insert_event find_first
    assert_found throw notify_realtime
perform-Follows_example =
    perform-Follows (clear 50 32 clear_input) the_server (refl, tt) (run_as running) cleared_run
      (here refl) (here refl) refl

abbrev stale_pause : PauseRun
stale_pause = record {
  workspace_id = 9;
  thread_id = 1;
  bot_id = 2;
  run_id = 3;
  attempt_id = 40;
  lease_owner = 7;
  lease_fence = 2;
}

abbrev stale_end : FinalizeRunInput
stale_end = record {
  workspace_id = 9;
  thread_id = 1;
  bot_id = 2;
  run_id = 3;
  task_id = 4;
  attempt_id = 40;
  lease_owner = 7;
  lease_fence = 2;
  outcome = Outcome.completed [];
}

abbrev pause_ids : PauseIds
pause_ids = record { message = 50; created_event = 51; waiting_event = 52 }

abbrev end_ids : FinalizeIds
end_ids = record { message = 50; created_event = 51; last_event = 52 }

-- The worker itself claims the run again when its lease has run out, and comes back under its old
-- fence.
stale_worker-refused_example :
    let db' = (claim_run 200 3 7 3 the_db).1 in
    let started = start_leased_run 210 3 7 3 (some 10) db' in
    (started.0 ≡ true)
    × TurnsAway 220 stale_pause pause_ids [] "log in" 51 stale_end end_ids db'
    × TurnsAway 220 stale_pause pause_ids [] "log in" 51 stale_end end_ids started.1
unfolding claim_run
stale_worker-refused_example =
    stale_worker-refused 200 210 220 7 3 (some 10) the_db stale_pause pause_ids [] "log in" 51
      stale_end end_ids (omega arith) refl refl (omega arith) (omega arith)

abbrev the_answer : AnswerRunInput
the_answer = record {
  workspace_id = 9;
  thread_id = 1;
  run_id = 3;
  message_id = 20;
  answered_by_user_id = 5;
  answer = "yes";
}

abbrev waiting_db : Db
waiting_db = record the_db { runs = run_as waiting_input ∷ [] }

answer_in_transaction-claimed_example :
    let db' = (claim_run 50 3 8 3 waiting_db).1 in
    let started = start_leased_run 51 3 8 3 (some 10) db' in
    (answer_in_transaction 31 the_answer db' ≡ ok (none, db'))
    × (started.0 ≡ true)
    × (answer_in_transaction 31 the_answer started.1 ≡ ok (none, started.1))
unfolding claim_run
answer_in_transaction-claimed_example =
    answer_in_transaction-claimed 50 51 8 3 (some 10) 31 the_answer waiting_db (omega arith) refl

Reaches-cancelled_iff_example :
    (Reaches RunStatus.failed cancelled
      ↔ ((RunStatus.failed ≢ RunStatus.completed) × (RunStatus.failed ≢ cancelled)))
    × ((t : RunStatus)
        → Reaches RunStatus.failed t
        → (RunStatus.failed ≢ RunStatus.completed) × (RunStatus.failed ≢ cancelled))
Reaches-cancelled_iff_example = Reaches-cancelled_iff RunStatus.failed

append_event-total_example :
    (writable (some 3) the_db.runs ≡ true
      → (e : Event) × (append_event_in_transaction 31 event_input the_db
          ≡ ok (e, with_event 31 event_input the_thread the_db))
        × (e.seq ≡ 1)
        × (e.id ≡ 31)
        × (e.thread_id ≡ 1)
        × (e.run_id ≡ some 3))
    × (writable (some 3) the_db.runs ≡ false
        → append_event_in_transaction 31 event_input the_db ≡ err run_history_write)
append_event-total_example =
    append_event-total 31 event_input the_db the_thread the_db-IsConsistent refl refl

-- ===== src/Events/Send.antt =====
-- `sendUserMessage` of packages/db/src/events.ts. The replay lookup and the transaction are separate
-- reads of the database: the functions `before` and `after` are what other transactions did to the
-- database between the lookup and the transaction, and between a failed transaction and the second
-- lookup.
pub mod Stored
pub mod Retry
use grok_bot_v.Prelude.{
  ℕ, String, Bool, false, ◌&&◌, Option, none, some, List, [], ◌∷◌, ◌==◌, leb, str_eq, text_is, ◌||◌,
  if◌then◌else◌, has_value, find_where, keep,
}
use grok_bot_v.RunState.{queued, leased, running, status_in}
use grok_bot_v.Store.Blocks.{RowId, MessageBlock}
use grok_bot_v.Store.Schema.{
  Run, RunNonce, Task, TaskStatus, Trigger, Message, Event, Role, Db, message_created, message,
}
use grok_bot_v.Store.Tables.{runs, tasks, messages}
use grok_bot_v.Store.Tx.{
  Tx, ◌>>=◌, ◌>>◌, pure, Result, ok, err, find_first, update_one, create, transaction,
}
use grok_bot_v.History.{
  run_clash, create_thread_message_in_transaction, append_event_in_transaction,
}
use grok_bot_v.Events.Server.{Server, notify_realtime, publication}

pub record SendUserMessageInput : Type 0 where
  pub workspace_id : RowId
  pub thread_id : RowId
  pub bot_id : RowId
  pub user_id : RowId
  pub blocks : List MessageBlock
  pub prompt : String
  pub trigger : Trigger
  pub client_nonce : Option String
  pub only_if_idle : Bool
  pub link_message_to_run : Bool

pub record SendUserMessageResult : Type 0 where
  pub message_id : RowId
  pub seq : ℕ
  pub task_id : Option RowId
  pub run_id : Option RowId

-- The identifiers that the database gives to the rows of one send.
pub record SendIds : Type 0 where
  pub message : RowId
  pub task : RowId
  pub run : RowId
  pub event : RowId

-- `if (!input.clientNonce)`: absent or empty
abbrev pub given_nonce : Option String → Option String
given_nonce none = none
given_nonce (some s) = if str_eq s "" then none else some s

abbrev pub nonce_is : RowId → String → Message → Bool
nonce_is thread_id nonce m = m.thread_id == thread_id && text_is m.client_nonce nonce

abbrev pub sooner : Run → Option Run → Option Run
sooner r none = some r
sooner r (some q) = if leb r.created_at q.created_at then some r else some q

-- `orderBy: { createdAt: "asc" }, take: 1`
abbrev pub earliest : List Run → Option Run
earliest [] = none
earliest (r ∷ rs) = sooner r (earliest rs)

abbrev pub sent_run : Message → Db → Option Run
sent_run m db = earliest (keep (λ r. has_value r.source_message_id m.id) db.runs)

abbrev pub id_of_task : Option Run → Option RowId
id_of_task none = none
id_of_task (some r) = some r.task_id

abbrev pub id_of_run : Option Run → Option RowId
id_of_run none = none
id_of_run (some r) = some r.id

abbrev pub replay_of : Message → Db → SendUserMessageResult
replay_of m db = record {
  message_id = m.id;
  seq = m.seq;
  task_id = id_of_task (sent_run m db);
  run_id = id_of_run (sent_run m db);
}

abbrev pub replay_found : Option Message → Db → Option SendUserMessageResult
replay_found none db = none
replay_found (some m) db = some (replay_of m db)

abbrev pub replay_nonce : RowId → Option String → Db → Option SendUserMessageResult
replay_nonce thread_id none db = none
replay_nonce thread_id (some nonce) db =
    replay_found (find_where (nonce_is thread_id nonce) db.messages) db

unfoldable pub replay : SendUserMessageInput → Db → Option SendUserMessageResult
replay input db = replay_nonce input.thread_id (given_nonce input.client_nonce) db

-- `{ in: ["running", "queued", "leased"] }`
abbrev pub busy_run : RowId → Run → Bool
busy_run bot_id r = r.bot_id == bot_id && status_in (running ∷ queued ∷ leased ∷ []) r.status

abbrev pub find_busy : SendUserMessageInput → Tx (Option Run)
find_busy input = if input.only_if_idle then find_first runs (busy_run input.bot_id) else pure none

abbrev pub run_nonce : Option String → Message → Option RunNonce
run_nonce none m = none
run_nonce (some nonce) m = some (RunNonce.send m.id)

abbrev pub new_task : SendIds → SendUserMessageInput → Task
new_task ids input = record {
  id = ids.task;
  workspace_id = input.workspace_id;
  bot_id = input.bot_id;
  thread_id = input.thread_id;
  user_id = input.user_id;
  prompt = input.prompt;
  status = TaskStatus.queued;
}

abbrev pub new_run : ℕ → SendIds → SendUserMessageInput → Message → Run
new_run now ids input m = record {
  id = ids.run;
  workspace_id = input.workspace_id;
  bot_id = input.bot_id;
  thread_id = input.thread_id;
  task_id = ids.task;
  user_id = input.user_id;
  status = queued;
  trigger = input.trigger;
  error = none;
  lease_owner = none;
  lease_fence = 0;
  lease_expires_at = none;
  checkpoint = none;
  client_nonce = run_nonce (given_nonce input.client_nonce) m;
  source_message_id = some m.id;
  started_at = none;
  completed_at = none;
  created_at = now;
}

abbrev pub link_message : Bool → Message → Run → Tx (Unit {0})
link_message link m run =
    if link
    then (do
      update_one messages (λ x. x.id == m.id) (λ x. record x { run_id = some run.id })
      pure tt)
    else pure tt

-- `if (!busy) { ... }`
unfoldable pub start_run :
    ℕ → SendIds → SendUserMessageInput → Message → Option Run → Tx (Option (Task × Run))
start_run now ids input m (some busy) = pure none
start_run now ids input m none = do
  task ← create tasks (λ t. t.id == ids.task) (new_task ids input)
  run ← create runs (run_clash (new_run now ids input m)) (new_run now ids input m)
  link_message input.link_message_to_run m run
  pure (some (task, run))

abbrev pub run_of : Option (Task × Run) → Option RowId
run_of none = none
run_of (some (task, run)) = some run.id

abbrev pub task_of : Option (Task × Run) → Option RowId
task_of none = none
task_of (some (task, run)) = some task.id

unfoldable pub send_in_transaction :
    ℕ → SendIds → SendUserMessageInput → Tx (SendUserMessageResult × Event)
send_in_transaction now ids input = do
  m ← create_thread_message_in_transaction ids.message (record {
    thread_id = input.thread_id;
    role = Role.user;
    blocks = input.blocks;
    bot_id = none;
    reply_to_message_id = none;
    run_id = none;
    client_nonce = input.client_nonce;
  })
  busy ← find_busy input
  started ← start_run now ids input m busy
  event ← append_event_in_transaction ids.event (record {
    workspace_id = input.workspace_id;
    thread_id = input.thread_id;
    bot_id = input.bot_id;
    type = message_created;
    payload = message m.id Role.user input.blocks;
    run_id = run_of started;
  })
  pure (
    record { message_id = m.id; seq = m.seq; task_id = task_of started; run_id = run_of started },
    event,
  )

-- after the transaction: publish, or look for the send that won
abbrev pub after_commit :
    (after : Db → Db)
    → SendUserMessageInput
    → Result (SendUserMessageResult × Event) × Db
    → Server
    → Result SendUserMessageResult × Server
after_commit after input (ok (r, event), db) s =
    (ok r, notify_realtime (publication event) (record s { db = db }))
after_commit after input (err e, db) s = elim (replay input (after db)) [
  | none ↦ (err e, record s { db = after db })
  | some winner ↦ (ok winner, record s { db = after db })
]

unfoldable pub send_user_message :
    (before after : Db → Db)
    → ℕ
    → SendIds
    → SendUserMessageInput
    → Server
    → Result SendUserMessageResult × Server
unfolding notify_realtime
send_user_message before after now ids input s = elim (replay input s.db) [
  | some existing ↦ (ok existing, s)
  | none ↦
      after_commit after input (transaction (send_in_transaction now ids input) (before s.db)) s
]

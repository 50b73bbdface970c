-- ===== src/History.antt =====
-- packages/db/src/messages.ts, and `appendEventInTransaction` of packages/db/src/events.ts: the two
-- writes to the history of a thread, and the test that keeps a cancelled run from writing. The
-- identifier that the database gives to a new row is an argument.
pub mod Log
pub mod Keeps
pub mod Append
use grok_bot_v.Prelude.{
  ℕ, ◌+◌, ◌-◌, String, Bool, true, false, ◌||◌, ◌&&◌, Option, none, some, List, ◌==◌, str_eq,
  if◌then◌else◌,
}
use grok_bot_v.Prelude
use grok_bot_v.RunState.{is_status, cancelled}
use grok_bot_v.Store.Blocks.{RowId, MessageBlock}
use grok_bot_v.Store.Schema.{
  Db, Thread, Run, RunNonce, Role, Message, EventType, Payload, Event, bot,
}
use grok_bot_v.Store.Tables.{threads, runs, messages, events}
use grok_bot_v.Store.Tx.{
  Tx, Result, transaction, ◌>>=◌, ◌>>◌, pure, throw, find_first, update_one, create,
  run_history_write,
}

pub record CreateThreadMessageInput : Type 0 where
  pub thread_id : RowId
  pub role : Role
  pub blocks : List MessageBlock
  pub bot_id : Option RowId
  pub reply_to_message_id : Option RowId
  pub run_id : Option RowId
  pub client_nonce : Option String

pub record AppendEventInput : Type 0 where
  pub workspace_id : RowId
  pub thread_id : RowId
  pub bot_id : RowId
  pub type : EventType
  pub payload : Payload
  pub run_id : Option RowId

abbrev pub thread_is : RowId → Thread → Bool
thread_is id t = t.id == id

abbrev pub run_is : RowId → Run → Bool
run_is id r = r.id == id

-- `!run || run.status === "cancelled"`
abbrev pub can_write : Option Run → Bool
can_write none = false
can_write (some r) = if is_status r.status cancelled then false else true

unfoldable pub assert_found : Option Run → Tx (Unit {0})
unfolding throw pure
assert_found r = if can_write r then pure tt else throw run_history_write

unfoldable pub assert_run_can_write_history : Option RowId → Tx (Unit {0})
unfolding assert_found
assert_run_can_write_history none = pure tt
assert_run_can_write_history (some id) = do run ← find_first runs (run_is id); assert_found run

abbrev pub next_message : Role → Thread → Thread
next_message bot t = record t { next_message_seq = t.next_message_seq + 1; unread = true }
next_message role t = record t { next_message_seq = t.next_message_seq + 1 }

abbrev pub same_nonce : Option String → Option String → Bool
same_nonce (some a) (some b) = Prelude.str_eq a b
same_nonce _ _ = false

-- the unique indexes `id`, `[threadId, seq]` and `[threadId, clientNonce]`
abbrev pub message_clash : Message → Message → Bool
message_clash new m =
    m.id == new.id
    || m.thread_id == new.thread_id
      && (m.seq == new.seq || same_nonce m.client_nonce new.client_nonce)

abbrev pub same_send : Option RunNonce → Option RunNonce → Bool
same_send (some (RunNonce.send a)) (some (RunNonce.send b)) = a == b
same_send (some (RunNonce.other a)) (some (RunNonce.other b)) = str_eq a b
same_send _ _ = false

-- the unique index `[workspaceId, clientNonce]`
abbrev pub shares_nonce : Run → Run → Bool
shares_nonce new r = r.workspace_id == new.workspace_id && same_send r.client_nonce new.client_nonce

-- the unique indexes `id` and `[workspaceId, clientNonce]`
abbrev pub run_clash : Run → Run → Bool
run_clash new r = r.id == new.id || shares_nonce new r

-- the unique index `botId`, in which null is not equal to null
abbrev pub same_bot : Option RowId → Option RowId → Bool
same_bot (some a) (some b) = a == b
same_bot _ _ = false

abbrev pub shares_bot : Thread → Thread → Bool
shares_bot new t = same_bot t.bot_id new.bot_id

abbrev pub new_message : RowId → CreateThreadMessageInput → Thread → Message
new_message id input thread = record {
  id = id;
  thread_id = input.thread_id;
  seq = thread.next_message_seq - 1;
  role = input.role;
  blocks = input.blocks;
  bot_id = input.bot_id;
  reply_to_message_id = input.reply_to_message_id;
  run_id = input.run_id;
  client_nonce = input.client_nonce;
}

unfoldable pub insert_message : Message → Tx Message
insert_message m = create messages (message_clash m) m

unfoldable pub create_thread_message_in_transaction : RowId → CreateThreadMessageInput → Tx Message
unfolding insert_message
create_thread_message_in_transaction id input = do
  thread ← update_one threads (thread_is input.thread_id) (next_message input.role)
  assert_run_can_write_history input.run_id
  insert_message (new_message id input thread)

abbrev pub next_event : Thread → Thread
next_event t = record t { next_event_seq = t.next_event_seq + 1 }

-- the unique indexes `id` and `[threadId, seq]`
abbrev pub event_clash : Event → Event → Bool
event_clash new e = e.id == new.id || e.thread_id == new.thread_id && e.seq == new.seq

abbrev pub new_event : RowId → AppendEventInput → Thread → Event
new_event id input thread = record {
  id = id;
  workspace_id = input.workspace_id;
  thread_id = input.thread_id;
  bot_id = input.bot_id;
  seq = thread.next_event_seq - 1;
  type = input.type;
  payload = input.payload;
  run_id = input.run_id;
}

unfoldable pub insert_event : Event → Tx Event
insert_event e = create events (event_clash e) e

unfoldable pub append_event_in_transaction : RowId → AppendEventInput → Tx Event
unfolding insert_event
append_event_in_transaction id input = do
  thread ← update_one threads (thread_is input.thread_id) next_event
  assert_run_can_write_history input.run_id
  insert_event (new_event id input thread)

unfoldable pub create_thread_message : RowId → CreateThreadMessageInput → Db → Result Message × Db
create_thread_message id input db = transaction (create_thread_message_in_transaction id input) db

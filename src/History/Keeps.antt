-- ===== src/History/Keeps.antt =====
-- The two writes to a history keep it consistent.
use mathlib.Core.Path.{subst}
use grok_bot_v.Prelude.{
  Option-cases, List, false, ◌+◌, ◌≡◌, refl, true, Bool, Option, none, some, find_where, arith, inl,
  inr, update_where, ◌∷◌, any, if◌then◌else◌,
}
use grok_bot_v.Store.Blocks.{RowId}
use grok_bot_v.Store.Schema.{Db, Run, Message, Event, Thread, Role, bot, user, system}
use grok_bot_v.Store.Tx.{
  ◌>>=◌, ◌>>◌, ok, err, update_one, create, find_first, run_history_write, unique_violation,
  record_not_found,
}
use grok_bot_v.Store.Tx.Keeps.{Keeps}
use grok_bot_v.History.{
  CreateThreadMessageInput, AppendEventInput, assert_run_can_write_history, can_write,
  create_thread_message_in_transaction, append_event_in_transaction, thread_is, next_event,
  next_message, message_clash, event_clash, new_message, new_event, run_is,
}
use grok_bot_v.History.Log.{IsConsistent, IsLogged-new_message, IsLogged-new_event}

-- Whether `assertRunCanWriteHistory` returns.
unfoldable pub writable : Option RowId → List Run → Bool
writable none rs = true
writable (some id) rs = can_write (find_where (run_is id) rs)

pub assert_lem :
    (run_id : Option RowId) (db : Db)
    → assert_run_can_write_history run_id db
      ≡ (if writable run_id db.runs then ok (tt, db) else err run_history_write)
unfolding assert_run_can_write_history find_first ◌>>=◌ writable
assert_lem none db = refl
assert_lem (some id) db = ground arith

-- What a write leaves: the new row, and the counter of its thread one further.
abbrev pub with_message : RowId → CreateThreadMessageInput → Thread → Db → Db
with_message id input row db = record db {
  threads = update_where (thread_is input.thread_id) (next_message input.role) db.threads;
  messages = new_message id input (next_message input.role row) ∷ db.messages;
}

abbrev pub with_event : RowId → AppendEventInput → Thread → Db → Db
with_event id input row db = record db {
  threads = update_where (thread_is input.thread_id) next_event db.threads;
  events = new_event id input (next_event row) ∷ db.events;
}

-- A write in full: the branches of the code in the order in which they are taken.
pub create_thread_message_lem :
    (id : RowId) (input : CreateThreadMessageInput) (db : Db) (row : Thread)
    → find_where (thread_is input.thread_id) db.threads ≡ some row
    → create_thread_message_in_transaction id input db ≡ (
        if writable input.run_id db.runs
        then (if any
              (message_clash (new_message id input (next_message input.role row)))
              db.messages
            then err unique_violation
            else ok
                (new_message id input (next_message input.role row), with_message id input row db))
        else err run_history_write)
unfolding create_thread_message_in_transaction update_one create ◌>>=◌ ◌>>◌
create_thread_message_lem id input db row found =
    rw found (rw (assert_lem input.run_id _) (ground arith))

pub append_event_lem :
    (id : RowId) (input : AppendEventInput) (db : Db) (row : Thread)
    → find_where (thread_is input.thread_id) db.threads ≡ some row
    → append_event_in_transaction id input db ≡ (
        if writable input.run_id db.runs
        then (if any (event_clash (new_event id input (next_event row))) db.events
            then err unique_violation
            else ok (new_event id input (next_event row), with_event id input row db))
        else err run_history_write)
unfolding append_event_in_transaction update_one create ◌>>=◌ ◌>>◌
append_event_lem id input db row found = rw found (rw (assert_lem input.run_id _) (ground arith))

-- A thread that is not there ends the write.
pub create_thread_message-not_found :
    (id : RowId) (input : CreateThreadMessageInput) (db : Db)
    → find_where (thread_is input.thread_id) db.threads ≡ none
    → create_thread_message_in_transaction id input db ≡ err record_not_found
unfolding create_thread_message_in_transaction update_one ◌>>=◌
create_thread_message-not_found id input db missing = rw missing refl

pub append_event-not_found :
    (id : RowId) (input : AppendEventInput) (db : Db)
    → find_where (thread_is input.thread_id) db.threads ≡ none
    → append_event_in_transaction id input db ≡ err record_not_found
unfolding append_event_in_transaction update_one ◌>>=◌
append_event-not_found id input db missing = rw missing refl

-- A run that may not write writes nothing.
pub append_event-refused :
    (id : RowId) (input : AppendEventInput) (db : Db) (row : Thread)
    → find_where (thread_is input.thread_id) db.threads ≡ some row
    → writable input.run_id db.runs ≡ false
    → append_event_in_transaction id input db ≡ err run_history_write
append_event-refused id input db row found not_writable =
    ground (arith, append_event_lem id input db row found)

next_message_lem :
    (role : Role) (t : Thread)
    → ((next_message role t).id ≡ t.id)
      × ((next_message role t).bot_id ≡ t.bot_id)
      × ((next_message role t).next_message_seq ≡ t.next_message_seq + 1)
      × ((next_message role t).next_event_seq ≡ t.next_event_seq)
next_message_lem bot t = (refl, refl, refl, refl)
next_message_lem user t = (refl, refl, refl, refl)
next_message_lem system t = (refl, refl, refl, refl)

-- What a write that returns has done.
pub create_thread_message-eq-ok :
    (id : RowId) (input : CreateThreadMessageInput) (db : Db) {m : Message} {db' : Db}
    → create_thread_message_in_transaction id input db ≡ ok (m, db')
    → (row : Thread) × (find_where (thread_is input.thread_id) db.threads ≡ some row)
      × (writable input.run_id db.runs ≡ true)
      × (any (message_clash m) db.messages ≡ false)
      × (m ≡ new_message id input (next_message input.role row))
      × (with_message id input row db ≡ db')
create_thread_message-eq-ok id input db e =
    elim (Option-cases (find_where (thread_is input.thread_id) db.threads)) [
      | inl missing ↦ cc (create_thread_message-not_found id input db missing)
      | inr (row, found) ↦
          let step = create_thread_message_lem id input db row found in
          (
            row,
            found,
            ground (arith, step),
            ground (arith, step),
            ground (arith, step),
            ground (arith, step),
          )
    ]

pub append_event-eq-ok :
    (id : RowId) (input : AppendEventInput) (db : Db) {x : Event} {db' : Db}
    → append_event_in_transaction id input db ≡ ok (x, db')
    → (row : Thread) × (find_where (thread_is input.thread_id) db.threads ≡ some row)
      × (writable input.run_id db.runs ≡ true)
      × (any (event_clash x) db.events ≡ false)
      × (x ≡ new_event id input (next_event row))
      × (with_event id input row db ≡ db')
append_event-eq-ok id input db e =
    elim (Option-cases (find_where (thread_is input.thread_id) db.threads)) [
      | inl missing ↦ cc (append_event-not_found id input db missing)
      | inr (row, found) ↦
          let step = append_event_lem id input db row found in
          (
            row,
            found,
            ground (arith, step),
            ground (arith, step),
            ground (arith, step),
            ground (arith, step),
          )
    ]

pub Keeps-create_thread_message :
    (id : RowId) (input : CreateThreadMessageInput)
    → Keeps IsConsistent (create_thread_message_in_transaction id input)
Keeps-create_thread_message id input = record {
  at = λ db {a} {db'} h e.
      let (row, found, _, fresh, is, same) = create_thread_message-eq-ok id input db e in
      subst IsConsistent same (
        IsLogged-new_message h (next_message input.role) row
          (new_message id input (next_message input.role row)) (next_message_lem input.role) found
          (omega (arith, next_message_lem input.role row)) (rw (← is) fresh));
}

pub Keeps-append_event :
    (id : RowId) (input : AppendEventInput)
    → Keeps IsConsistent (append_event_in_transaction id input)
Keeps-append_event id input = record {
  at = λ db {a} {db'} h e.
      let (row, found, _, fresh, is, same) = append_event-eq-ok id input db e in
      subst IsConsistent same (
        IsLogged-new_event h row (new_event id input (next_event row)) found (omega arith)
          (rw (← is) fresh));
}

-- The same for any property that the new row and the counter keep.
pub Keeps-append_event_of :
    {P : Db → Type 0} (id : RowId) (input : AppendEventInput)
    → ((row : Thread) (db : Db) → P db → P (with_event id input row db))
    → Keeps P (append_event_in_transaction id input)
Keeps-append_event_of {P} id input kf = record {
  at = λ db h e.
      let (row, _, _, _, _, same) = append_event-eq-ok id input db e in subst P same (kf row db h);
}

pub Keeps-create_thread_message_of :
    {P : Db → Type 0} (id : RowId) (input : CreateThreadMessageInput)
    → ((row : Thread) (db : Db) → P db → P (with_message id input row db))
    → Keeps P (create_thread_message_in_transaction id input)
Keeps-create_thread_message_of {P} id input kf = record {
  at = λ db h e.
      let (row, _, _, _, _, same) = create_thread_message-eq-ok id input db e in
      subst P same (kf row db h);
}

-- ===== src/History/Append.antt =====
-- When the two writes to the history of a thread return, and what they return.
use grok_bot_v.Prelude.{◌≡◌, refl, ◌∙◌, true, false, some, arith, any, find_where, ◌==◌}
use grok_bot_v.Store.Blocks.{RowId}
use grok_bot_v.Store.Schema.{Db, Thread, Event}
use grok_bot_v.Store.Tx.{ok, err, run_history_write}
use grok_bot_v.History.{
  AppendEventInput, append_event_in_transaction, thread_is, next_event, new_event,
}
use grok_bot_v.History.Log.{IsConsistent, event_clash-free}
use grok_bot_v.History.Keeps.{writable, append_event_lem, with_event, append_event-refused}

-- In a consistent database whose events do not bear the new identifier, an event on a thread that is
-- there is written, with the thread's counter as its sequence number, if the run may write history;
-- and the write is refused if it may not.
pub append_event-total :
    (id : RowId) (input : AppendEventInput) (db : Db) (row : Thread)
    → IsConsistent db
    → any (λ e. e.id == id) db.events ≡ false
    → find_where (thread_is input.thread_id) db.threads ≡ some row
    → (writable input.run_id db.runs ≡ true
        → (e : Event) × (append_event_in_transaction id input db
            ≡ ok (e, with_event id input row db))
          × (e.seq ≡ row.next_event_seq)
          × (e.id ≡ id)
          × (e.thread_id ≡ input.thread_id)
          × (e.run_id ≡ input.run_id))
      × (writable input.run_id db.runs ≡ false
          → append_event_in_transaction id input db ≡ err run_history_write)
append_event-total id input db row h fresh found =
    let e = new_event id input (next_event row) in
    let at : e.seq ≡ row.next_event_seq = omega arith in
    let free = event_clash-free h row e found fresh at in
    (
      λ may.
          (e, append_event_lem id input db row found ∙ rw (may, free) refl, at, refl, refl, refl),
      append_event-refused id input db row found,
    )

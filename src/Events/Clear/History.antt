-- ===== src/Events/Clear/History.antt =====
-- After `clearThread`: the messages, the events and the leases.
use grok_bot_v.Prelude.{
  ℕ, ◌≡◌, ◌≢◌, In, In-delete_where, In-cons, inl, inr, ◌==◌, arith, delete_where, ap, sym, ◌∙◌,
}
use grok_bot_v.Store.Blocks.{RowId}
use grok_bot_v.Store.Schema.{Db, Message, Event, ExecutionLease, thread_cleared}
use grok_bot_v.Store.Tx.{ok}
use grok_bot_v.Store.Tx.Keeps.{Keeps, keeps_rules}
use grok_bot_v.Store.Tx.Makes.{Makes, makes_last, Makes-delete_many, Makes-then_first}
use grok_bot_v.History.{AppendEventInput, append_event_in_transaction}
use grok_bot_v.History.Keeps.{Keeps-append_event_of}
use grok_bot_v.Events.Clear.{
  ClearThreadInput, ClearThreadResult, clear_history, clear_thread_in_transaction,
}

abbrev pub NoMessages : RowId → Db → Type 0
NoMessages thread_id db = (m : Message) → In m db.messages → m.thread_id ≢ thread_id

abbrev pub NoLeases : RowId → Db → Type 0
NoLeases bot_id db = (l : ExecutionLease) → In l db.leases → l.bot_id ≢ bot_id

delete_messages :
    (id : RowId) (db : Db) (m : Message)
    → In m (delete_where (λ (x : Message). x.thread_id == id) db.messages)
    → m.thread_id ≢ id
delete_messages id db m i =
    ground (arith, (In-delete_where (λ (x : Message). x.thread_id == id) db.messages i).1)

Makes-NoMessages :
    (now : ℕ) (id : RowId) (input : ClearThreadInput)
    → Makes (NoMessages input.thread_id) (clear_thread_in_transaction now id input)
unfolding clear_thread_in_transaction clear_history
Makes-NoMessages now id input =
    search
      (
        makes_last, Makes-then_first, Makes-delete_many, keeps_rules, Keeps-append_event_of,
        delete_messages,
      )
      depth 40

delete_leases :
    (id : RowId) (db : Db) (l : ExecutionLease)
    → In l (delete_where (λ (x : ExecutionLease). x.bot_id == id) db.leases)
    → l.bot_id ≢ id
delete_leases id db l i =
    ground (arith, (In-delete_where (λ (x : ExecutionLease). x.bot_id == id) db.leases i).1)

Makes-NoLeases :
    (now : ℕ) (id : RowId) (input : ClearThreadInput)
    → Makes (NoLeases input.bot_id) (clear_thread_in_transaction now id input)
unfolding clear_thread_in_transaction clear_history
Makes-NoLeases now id input =
    search
      (
        makes_last, Makes-then_first, Makes-delete_many, keeps_rules, Keeps-append_event_of,
        delete_leases,
      )
      depth 40

-- The history of the thread holds nothing but the event of its clearing.
abbrev pub OnlyCleared : RowId → Db → Type 0
OnlyCleared thread_id db =
    (e : Event) → In e db.events → e.thread_id ≡ thread_id → e.type ≡ thread_cleared

delete_events :
    (id : RowId) (db : Db) (e : Event)
    → In e (delete_where (λ (x : Event). x.thread_id == id) db.events)
    → e.thread_id ≡ id
    → e.type ≡ thread_cleared
delete_events id db e i same =
    ground (arith, (In-delete_where (λ (x : Event). x.thread_id == id) db.events i).1)

Keeps-append_cleared :
    (thread_id : RowId) (id : RowId) (input : AppendEventInput)
    → input.type ≡ thread_cleared
    → Keeps (OnlyCleared thread_id) (append_event_in_transaction id input)
Keeps-append_cleared thread_id id input is = Keeps-append_event_of id input (λ row db h e i same.
    elim (In-cons i) [
      | inl new ↦ ap (λ (x : Event). x.type) (sym new) ∙ is
      | inr old ↦ h e old same
    ])

Makes-OnlyCleared :
    (now : ℕ) (id : RowId) (input : ClearThreadInput)
    → Makes (OnlyCleared input.thread_id) (clear_thread_in_transaction now id input)
unfolding clear_thread_in_transaction clear_history
Makes-OnlyCleared now id input =
    search
      (
        makes_last, Makes-then_first, Makes-delete_many, keeps_rules, Keeps-append_cleared,
        delete_events,
      )
      depth 40

-- If `clearThread` commits, the thread has no message and no event but `thread.cleared` events, and
-- the bot holds no execution lease.
pub clear_thread-empties :
    (now : ℕ) (id : RowId) (input : ClearThreadInput) (db : Db) {r : ClearThreadResult} {db' : Db}
    → clear_thread_in_transaction now id input db ≡ ok (r, db')
    → NoMessages input.thread_id db' × OnlyCleared input.thread_id db' × NoLeases input.bot_id db'
clear_thread-empties now id input db e = (
  (Makes-NoMessages now id input).at db e,
  (Makes-OnlyCleared now id input).at db e,
  (Makes-NoLeases now id input).at db e,
)

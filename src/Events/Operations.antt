-- ===== src/Events/Operations.antt =====
-- The operations of packages/db/src/events.ts that write, as one type, and what a sequence of them
-- does to the server.
use grok_bot_v.Prelude.{
  ℕ, String, ◌≡◌, refl, Option, none, some, List, [], ◌∷◌, arith, inl, inr, Option-cases, ◌⊎◌,
}
use grok_bot_v.Store.Blocks.{RowId, MessageBlock}
use grok_bot_v.Store.Schema.{Db, Event}
use grok_bot_v.Store.Tx.{Result, ok, err, transaction}
use grok_bot_v.History.{AppendEventInput, append_event_in_transaction}
use grok_bot_v.Events.Server.{
  Server, Publication, append_event, publish_commit, publish_found, notify_realtime, publication,
}
use grok_bot_v.Events.Clear.{ClearThreadInput, clear_thread, clear_thread_in_transaction}
use grok_bot_v.Events.Send.{
  SendIds, SendUserMessageInput, SendUserMessageResult, send_user_message, after_commit, replay,
  send_in_transaction,
}
use grok_bot_v.Events.Answer.{AnswerRunInput, answer_run_input, answer_in_transaction}
use grok_bot_v.Events.Pause.{
  PauseIds, PauseRun, pause_run_for_input, pause_run_for_takeover, pause_for_input_in_transaction,
  pause_for_takeover_in_transaction,
}
use grok_bot_v.Events.Release.{
  ReleaseInput, Released, finalize_computer_control_release, after_release, release_in_transaction,
}
use grok_bot_v.Events.Finalize.{
  FinalizeIds, FinalizeRunInput, finalize_run, finalize_in_transaction,
}

-- The methods of `ThreadEvents` that write, each with its input, the time and the identifiers that
-- the database gives to its new rows.
pub data Operation : Type 0 where
  append : RowId → AppendEventInput → Operation
  clear : ℕ → RowId → ClearThreadInput → Operation
  send : ℕ → SendIds → SendUserMessageInput → Operation
  answer : RowId → AnswerRunInput → Operation
  pause_for_input : ℕ → PauseIds → PauseRun → List MessageBlock → Operation
  pause_for_takeover : ℕ → RowId → PauseRun → String → Operation
  release : RowId → ReleaseInput → Operation
  finalize : ℕ → FinalizeIds → FinalizeRunInput → Operation

-- What an operation leaves, whether it returns or throws.
unfoldable pub perform : Operation → Server → Server
perform (append id input) s = (append_event id input s).1
perform (clear now id input) s = (clear_thread now id input s).1
perform (send now ids input) s = (send_user_message (λ d. d) (λ d. d) now ids input s).1
perform (answer id input) s = (answer_run_input id input s).1
perform (pause_for_input now ids input blocks) s = (pause_run_for_input now ids input blocks s).1
perform (pause_for_takeover now id input reason) s =
    (pause_run_for_takeover now id input reason s).1
perform (release id input) s = (finalize_computer_control_release id input s).1
perform (finalize now ids input) s = (finalize_run now ids input s).1

unfoldable pub perform_all : List Operation → Server → Server
unfolding perform
perform_all [] s = s
perform_all (o ∷ os) s = perform_all os (perform o s)

db-publish_commit :
    {A : Type 0} (r : Result A × Db) (f : A → Publication) (s : Server)
    → (publish_commit r f s).1.db ≡ r.1
unfolding publish_commit
db-publish_commit (ok a, db) f s = refl
db-publish_commit (err e, db) f s = refl

db-publish_found :
    (r : Result (Option Publication) × Db) (s : Server) → (publish_found r s).1.db ≡ r.1
unfolding publish_found
db-publish_found (ok none, db) s = refl
db-publish_found (ok (some p), db) s = refl
db-publish_found (err e, db) s = refl

db-after_release : (r : Result (Option Released) × Db) (s : Server) → (after_release r s).1.db ≡ r.1
unfolding notify_realtime
db-after_release (ok none, db) s = refl
db-after_release (ok (some r), db) s = ground arith
db-after_release (err e, db) s = refl

db-after_commit :
    (input : SendUserMessageInput) (r : Result (SendUserMessageResult × Event) × Db) (s : Server)
    → (after_commit (λ d. d) input r s).1.db ≡ r.1
unfolding notify_realtime
db-after_commit input (ok (x, e), db) s = refl
db-after_commit input (err e, db) s = ground arith

-- The database after the transaction of an operation.
unfoldable pub committed : Operation → Db → Db
committed (append id input) db = (transaction (append_event_in_transaction id input) db).1
committed (clear now id input) db = (transaction (clear_thread_in_transaction now id input) db).1
committed (send now ids input) db = (transaction (send_in_transaction now ids input) db).1
committed (answer id input) db = (transaction (answer_in_transaction id input) db).1
committed (pause_for_input now ids input blocks) db =
    (transaction (pause_for_input_in_transaction now ids input blocks) db).1
committed (pause_for_takeover now id input reason) db =
    (transaction (pause_for_takeover_in_transaction now id input reason) db).1
committed (release id input) db = (transaction (release_in_transaction id input) db).1
committed (finalize now ids input) db = (transaction (finalize_in_transaction now ids input) db).1

db-send :
    (now : ℕ) (ids : SendIds) (input : SendUserMessageInput) (s : Server)
    → ((perform (send now ids input) s).db
        ≡ (transaction (send_in_transaction now ids input) s.db).1)
      ⊎ ((perform (send now ids input) s).db ≡ s.db)
unfolding perform send_user_message
db-send now ids input s = elim (Option-cases (replay input s.db)) [
  | inl new ↦ inl (
      rw (new, send_user_message, perform)
        (db-after_commit input (transaction (send_in_transaction now ids input) s.db) s))
  | inr (old, found) ↦ inr (rw (found, send_user_message, perform) refl)
]

-- An operation leaves the database of its transaction, or, where a send is a replay, the old one.
pub db-perform :
    (o : Operation) (s : Server) → ((perform o s).db ≡ committed o s.db) ⊎ ((perform o s).db ≡ s.db)
unfolding perform committed append_event clear_thread answer_run_input pause_run_for_input
    pause_run_for_takeover finalize_computer_control_release finalize_run
db-perform (append id input) s = inl (db-publish_commit _ publication s)
db-perform (clear now id input) s = inl (db-publish_commit _ (λ r. publication r.event) s)
db-perform (send now ids input) s = db-send now ids input s
db-perform (answer id input) s = inl (db-publish_found _ s)
db-perform (pause_for_input now ids input blocks) s = inl (db-publish_found _ s)
db-perform (pause_for_takeover now id input reason) s = inl (db-publish_found _ s)
db-perform (release id input) s = inl (db-after_release _ s)
db-perform (finalize now ids input) s = inl (db-publish_found _ s)

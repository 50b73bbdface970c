-- ===== src/Events/Consistent.antt =====
-- Every operation of packages/db/src/events.ts keeps the histories consistent, in any order.
mod Rules
mod Threads
mod Runs
pub use Runs.{may_write_lem}
pub use Threads.{Keeps-send}
use Threads.{Keeps-clear_thread, Keeps-answer}
use Runs.{Keeps-pause_for_input, Keeps-pause_for_takeover, Keeps-release, Keeps-finalize}
use mathlib.Core.Path.{subst}
use grok_bot_v.Prelude.{sym, List, [], ◌∷◌, inl, inr}
use grok_bot_v.Store.Schema.{Db}
use grok_bot_v.Store.Tx.Keeps.{Keeps-transaction}
use grok_bot_v.History.Log.{IsConsistent}
use grok_bot_v.History.Keeps.{Keeps-append_event}
use grok_bot_v.Events.Server.{Server}
use grok_bot_v.Events.Operations.{
  Operation, append, clear, send, answer, pause_for_input, pause_for_takeover, release, finalize,
  perform, perform_all, committed, db-perform,
}

committed-IsConsistent : (o : Operation) (db : Db) → IsConsistent db → IsConsistent (committed o db)
unfolding committed
committed-IsConsistent (append id input) db h =
    Keeps-transaction _ db (Keeps-append_event id input) h
committed-IsConsistent (clear now id input) db h =
    Keeps-transaction _ db (Keeps-clear_thread now id input) h
committed-IsConsistent (send now ids input) db h =
    Keeps-transaction _ db (Keeps-send now ids input) h
committed-IsConsistent (answer id input) db h = Keeps-transaction _ db (Keeps-answer id input) h
committed-IsConsistent (pause_for_input now ids input blocks) db h =
    Keeps-transaction _ db (Keeps-pause_for_input now ids input blocks) h
committed-IsConsistent (pause_for_takeover now id input reason) db h =
    Keeps-transaction _ db (Keeps-pause_for_takeover now id input reason) h
committed-IsConsistent (release id input) db h = Keeps-transaction _ db (Keeps-release id input) h
committed-IsConsistent (finalize now ids input) db h =
    Keeps-transaction _ db (Keeps-finalize now ids input) h

pub perform-IsConsistent :
    (o : Operation) (s : Server) → IsConsistent s.db → IsConsistent (perform o s).db
perform-IsConsistent o s h = elim (db-perform o s) [
  | inl done ↦ subst IsConsistent (sym done) (committed-IsConsistent o s.db h)
  | inr replayed ↦ subst IsConsistent (sym replayed) h
]

-- From a consistent database, any sequence of the operations, throwing or not, leaves a database in
-- which no two threads share an identifier or a bot, no two runs an identifier, or a workspace and a
-- nonce, no two messages an identifier, or in one thread a number or a nonce, no two events an
-- identifier, or in one thread a number, and every message and event lies below the counter of its
-- thread.
pub perform_all-IsConsistent :
    (os : List Operation) (s : Server) → IsConsistent s.db → IsConsistent (perform_all os s).db
unfolding perform_all
perform_all-IsConsistent [] s h = h
perform_all-IsConsistent (o ∷ os) s h =
    perform_all-IsConsistent os (perform o s) (perform-IsConsistent o s h)

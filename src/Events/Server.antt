-- ===== src/Events/Server.antt =====
-- What a transaction of packages/db/src/events.ts leaves behind: the database, and the cursors that
-- are published to the subscribers of a thread. A publication that fails is dropped by the source,
-- so the list holds what was offered to the fan-out.
use grok_bot_v.Prelude.{ℕ, Option, none, some, List, ◌∷◌}
use grok_bot_v.Store.Blocks.{RowId}
use grok_bot_v.Store.Schema.{Db, Event}
use grok_bot_v.Store.Tx.{Result, ok, err, transaction}
use grok_bot_v.History.{AppendEventInput, append_event_in_transaction}

-- `{ threadId, cursor }`
pub record Publication : Type 0 where
  pub thread_id : RowId
  pub cursor : ℕ

pub record Server : Type 0 where
  pub db : Db
  pub published : List Publication

abbrev pub publication : Event → Publication
publication e = record { thread_id = e.thread_id; cursor = e.seq }

unfoldable pub notify_realtime : Publication → Server → Server
notify_realtime p s = record s { published = p ∷ s.published }

-- A transaction that returns null or what to publish: null becomes `false`, and anything else is
-- published and becomes `true`.
unfoldable pub publish_commit :
    {A : Type 0} → Result A × Db → (A → Publication) → Server → Result A × Server
unfolding notify_realtime
publish_commit (ok a, db) f s = (ok a, notify_realtime (f a) (record s { db = db }))
publish_commit (err e, db) f s = (err e, record s { db = db })

unfoldable pub append_event : RowId → AppendEventInput → Server → Result Event × Server
unfolding publish_commit
append_event id input s =
    publish_commit (transaction (append_event_in_transaction id input) s.db) publication s

-- `if (!committed) return false; await notifyRealtime(...); return true;`
unfoldable pub publish_found :
    Result (Option Publication) × Db → Server → Result (Option Publication) × Server
unfolding notify_realtime
publish_found (ok none, db) s = (ok none, record s { db = db })
publish_found (ok (some p), db) s = (ok (some p), notify_realtime p (record s { db = db }))
publish_found (err e, db) s = (err e, record s { db = db })

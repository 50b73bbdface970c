-- ===== src/Events/Follow.antt =====
-- `eventsAfter` and the loop of `followThreadEvents` of packages/db/src/events.ts. The loop reads a
-- batch, yields it, and reads again at once while batches are full; then it waits for a publication
-- or a timeout and goes on. Each read sees the database as it is then: the events of each read are
-- an argument, and the wait stands between two of them.
pub mod Order
use grok_bot_v.Prelude.{
  ℕ, zero, suc, Option, none, some, Bool, ◌&&◌, List, [], ◌∷◌, ◌++◌, ◌==◌, leb, keep, take, length,
  if◌then◌else◌,
}
use grok_bot_v.Store.Blocks.{RowId}
use grok_bot_v.Store.Schema.{Event}

abbrev pub event_batch_size : ℕ
event_batch_size = 200

abbrev pub insert_by_seq : Event → List Event → List Event
insert_by_seq e [] = e ∷ []
insert_by_seq e (x ∷ xs) = if leb e.seq x.seq then e ∷ x ∷ xs else x ∷ insert_by_seq e xs

-- `orderBy: { seq: "asc" }`
abbrev pub sort_by_seq : List Event → List Event
sort_by_seq [] = []
sort_by_seq (x ∷ xs) = insert_by_seq x (sort_by_seq xs)

-- The first sequence number beyond a cursor: `none` is the cursor -1, of a thread without events.
abbrev pub first_beyond : Option ℕ → ℕ
first_beyond none = 0
first_beyond (some cursor) = suc cursor

-- `...(limit ? { take: limit } : {})`
abbrev pub limited : Option ℕ → List Event → List Event
limited none events = events
limited (some zero) events = events
limited (some (suc n)) events = take (suc n) events

abbrev pub wanted : RowId → Option ℕ → Event → Bool
wanted thread_id cursor e = e.thread_id == thread_id && leb (first_beyond cursor) e.seq

unfoldable pub events_after : RowId → Option ℕ → Option ℕ → List Event → List Event
events_after thread_id cursor limit events =
    limited limit (sort_by_seq (keep (wanted thread_id cursor) events))

-- `for (const event of events) { seq = event.seq; yield ...; }`
abbrev pub last_seq : Option ℕ → List Event → Option ℕ
last_seq cursor [] = cursor
last_seq cursor (e ∷ es) = last_seq (some e.seq) es

-- The events that the generator yields over a series of reads.
unfoldable pub follow : RowId → Option ℕ → List (List Event) → List Event
unfolding events_after
follow thread_id cursor [] = []
follow thread_id cursor (now ∷ later) =
    let batch = events_after thread_id cursor (some event_batch_size) now in
    batch ++ follow thread_id (last_seq cursor batch) later

-- Whether the loop reads again at once after a batch, or waits.
unfoldable pub reads_again : List Event → Bool
reads_again batch = length batch == event_batch_size

-- ===== src/Compaction/Plan.antt =====
-- What a compaction job reads, and the batch of messages that it takes from it. The database is given
-- at each query, since other transactions run in between.
use mathlib.Core.List.{reverse}
use grok_bot_v.Prelude.{
  ℕ, suc, ◌+◌, String, Bool, true, false, ◌&&◌, ◌||◌, Option, none, some, List, [], ◌∷◌,
  if◌then◌else◌, ◌==◌, ltb, leb, keep, any, take, length, is_none,
}
use grok_bot_v.Prelude.Sorting.{sort_by}
use grok_bot_v.Prelude.Text.{is_empty, trim, text_length}
use grok_bot_v.Store.Blocks.{RowId}
use grok_bot_v.Store.Schema.{Db, Thread, Message, Event, EventType, thread_cleared}

abbrev pub compaction_batch_size : ℕ
compaction_batch_size = 50

abbrev pub history_window_size : ℕ
history_window_size = 50

abbrev pub legacy_history_window_size : ℕ
legacy_history_window_size = 200

abbrev pub max_compacted_summary_chars : ℕ
max_compacted_summary_chars = 20_000

abbrev pub max_transcript_chars : ℕ
max_transcript_chars = 40_000

-- The first sequence number that is not compacted: with the exclusive bound -1 of a thread of which
-- nothing is compacted, one more than the bound.
abbrev pub first_uncompacted : Option ℕ → ℕ
first_uncompacted none = 0
first_uncompacted (some cursor) = suc cursor

-- `nextMessageSeq - compactedUpTo - 1 >= windowSize + batchSize`, where the difference may be negative
unfoldable pub should_enqueue_compaction : ℕ → Option ℕ → ℕ → ℕ → Bool
should_enqueue_compaction next_message_seq cursor window_size batch_size =
    leb (window_size + batch_size + first_uncompacted cursor) next_message_seq

abbrev pub seq_of : Message → ℕ
seq_of m = m.seq

abbrev pub uncompacted : RowId → Option ℕ → Message → Bool
uncompacted thread_id cursor m = m.thread_id == thread_id && leb (first_uncompacted cursor) m.seq

abbrev pub compacted : RowId → ℕ → Message → Bool
compacted thread_id cursor m = m.thread_id == thread_id && leb m.seq cursor

-- The next messages to compact, the oldest first.
unfoldable pub next_batch : RowId → Option ℕ → Db → List Message
next_batch thread_id cursor db =
    take compaction_batch_size (sort_by seq_of (keep (uncompacted thread_id cursor) db.messages))

-- The messages bear the numbers from a first one on, with none left out.
abbrev pub contiguous : ℕ → List Message → Bool
contiguous seq [] = true
contiguous seq (m ∷ ms) = m.seq == seq && contiguous (suc seq) ms

pub data SkipReason : Type 0 where
  no_bot summary_too_large legacy_too_large legacy_gap gap nothing_to_do : SkipReason
  legacy_over_budget first_over_budget no_model new_summary_too_large : SkipReason

pub data FailReason : Type 0 where
  thread_not_found summarizer_failed no_summary : FailReason

pub record Batch : Type 0 where
  pub bootstrapping : Bool
  pub rows : List Message

pub data Planned : Type 0 where
  skip : SkipReason → Planned
  compact : Batch → Planned

abbrev pub first_seq_or : ℕ → List Message → ℕ
first_seq_or s [] = s
first_seq_or s (m ∷ ms) = m.seq

abbrev pub last_seq_or : ℕ → List Message → ℕ
last_seq_or s [] = s
last_seq_or s (m ∷ ms) = last_seq_or m.seq ms

abbrev pub plan_next : Option ℕ → List Message → Planned
plan_next cursor [] = skip nothing_to_do
plan_next cursor (m ∷ ms) =
    if contiguous (first_uncompacted cursor) (m ∷ ms)
    then compact (record { bootstrapping = false; rows = m ∷ ms })
    else skip gap

-- The last messages up to the cursor, one more than may be compacted again, the oldest first.
unfoldable pub legacy_batch : RowId → ℕ → Db → List Message
legacy_batch thread_id cursor db = reverse (
    take (suc legacy_history_window_size)
      (reverse (sort_by seq_of (keep (compacted thread_id cursor) db.messages))))

-- The messages that a cursor of an earlier version covers, of which there is no summary.
abbrev pub plan_legacy : ℕ → Bool → List Message → Planned → Planned
plan_legacy cursor was_cleared [] otherwise = otherwise
plan_legacy cursor was_cleared (m ∷ ms) otherwise =
    if ltb legacy_history_window_size (length (m ∷ ms))
    then skip legacy_too_large
    else if last_seq_or cursor (m ∷ ms) == cursor
        && (contiguous m.seq (m ∷ ms) && (was_cleared || m.seq == 0))
    then compact (record { bootstrapping = true; rows = m ∷ ms })
    else skip legacy_gap

-- The database at each query of the job.
pub record Views : Type 0 where
  pub at_thread : Db
  pub at_events : Db
  pub at_legacy : Db
  pub at_batch : Db
  pub at_write : Db

abbrev pub trimmed_or_null : String → Option String
trimmed_or_null s = if is_empty s then none else some s

-- `thread.historyCompactionSummary?.trim() || null`
abbrev pub previous_summary : Option String → Option String
previous_summary none = none
previous_summary (some s) = trimmed_or_null (trim s)

abbrev pub is_cleared_type : EventType → Bool
is_cleared_type thread_cleared = true
is_cleared_type _ = false

abbrev pub is_clear : RowId → Event → Bool
is_clear thread_id e = e.thread_id == thread_id && is_cleared_type e.type

abbrev pub was_cleared : RowId → Db → Bool
was_cleared thread_id db = any (is_clear thread_id) db.events

abbrev pub too_large : Option String → Bool
too_large none = false
too_large (some s) = ltb max_compacted_summary_chars (text_length s)

abbrev pub plan_cursor : RowId → ℕ → Option ℕ → Option String → Views → Planned
plan_cursor thread_id generation none summary views =
    plan_next none (next_batch thread_id none views.at_batch)
plan_cursor thread_id generation (some cursor) summary views =
    let next = plan_next (some cursor) (next_batch thread_id (some cursor) views.at_batch) in
    if generation == 0 && is_none summary
    then plan_legacy cursor (was_cleared thread_id views.at_events)
        (legacy_batch thread_id cursor views.at_legacy) next
    else next

-- The batch to compact, from what is read.
unfoldable pub plan : Thread → Views → Planned
unfolding next_batch legacy_batch
plan thread views =
    let summary = previous_summary thread.history_compaction_summary in
    if too_large summary
    then skip summary_too_large
    else plan_cursor thread.id thread.history_compaction_generation
        thread.history_compacted_up_to_seq summary views

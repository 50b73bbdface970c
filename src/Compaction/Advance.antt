-- ===== src/Compaction/Advance.antt =====
-- What a compaction that succeeds has done: the messages that it passed over and the row that it wrote.
use grok_bot_v.Prelude.{
  ℕ, suc, ◌+◌, ◌≤◌, ◌<◌, ◌≡◌, ◌⊎◌, true, Option, none, some, List, [], ◌∷◌, map, length, In,
  find_where, update_where,
}
use grok_bot_v.Prelude.Text.{join}
use grok_bot_v.Store.Blocks.{RowId}
use grok_bot_v.Store.Schema.{Thread, Message}
use grok_bot_v.History.{thread_is}
use grok_bot_v.Compaction.Plan.{
  compaction_batch_size, legacy_history_window_size, first_seq_or, Views, last_seq_or, was_cleared,
  previous_summary,
}
use grok_bot_v.Compaction.Transcripts.{AgentEvent, listen, prompt_of, part_of}
use grok_bot_v.Compaction.Origin.{Origin}
use grok_bot_v.Compaction.Job.{
  Compacted, advanced, Environment, unmoved, advance, put_threads, nothing_heard,
}

-- The messages bear the numbers from a first one on, with none left out.
pub Numbered : ℕ → List Message → Type 0
Numbered seq [] = Unit
Numbered seq (m ∷ ms) = (m.seq ≡ seq) × Numbered (suc seq) ms

-- The number after a cursor: of the first message, if nothing is compacted.
abbrev pub number_after : Option ℕ → ℕ
number_after none = 0
number_after (some cursor) = cursor + 1

-- The messages stand in the table, in the thread.
abbrev pub IsFrom : RowId → List Message → List Message → Type 0
IsFrom thread_id table rows = (m : Message) → In m rows → In m table × (m.thread_id ≡ thread_id)

-- The cursor has passed over the messages that follow it, and over no other.
pub record Passes (read : Thread) (views : Views) (rows : List Message) : Type 0 where
  pub moves : suc (last_seq_or 0 rows) ≡ number_after read.history_compacted_up_to_seq + length rows
  pub some_row : 0 < length rows
  pub few : length rows ≤ compaction_batch_size
  pub numbered : Numbered (number_after read.history_compacted_up_to_seq) rows
  pub from_thread : IsFrom read.id ((views.at_batch).messages) rows
  pub none_left_out :
      (m : Message)
      → In m ((views.at_batch).messages)
      → m.thread_id ≡ read.id
      → number_after read.history_compacted_up_to_seq ≤ m.seq
      → m.seq ≤ last_seq_or 0 rows
      → In m rows

-- A thread of the first generation with a cursor and no summary: the messages up to the cursor are
-- compacted again, from the first message on or after a clear, and the cursor stays.
pub record Rebuilds (read : Thread) (views : Views) (rows : List Message) : Type 0 where
  pub no_summary : previous_summary read.history_compaction_summary ≡ none
  pub first_generation : read.history_compaction_generation ≡ 0
  pub stays : read.history_compacted_up_to_seq ≡ some (last_seq_or 0 rows)
  pub some_row : 0 < length rows
  pub few : length rows ≤ legacy_history_window_size
  pub numbered : Numbered (first_seq_or 0 rows) rows
  pub from_thread : IsFrom read.id ((views.at_legacy).messages) rows
  pub from_start : (was_cleared read.id views.at_events ≡ true) ⊎ (first_seq_or 0 rows ≡ 0)

-- What a job has done that has advanced the cursor: the messages `rows` were read, the prompt held
-- the texts of all of them, and the row that was read is written over with the number of the last and
-- the runtime's summary.
pub record Advances (env : Environment) (views : Views) (thread_id : RowId) (result : Compacted)
    : Type 0 where
  pub read : Thread
  pub rows : List Message
  pub events : List AgentEvent
  pub was_read : find_where (thread_is thread_id) ((views.at_thread).threads) ≡ some read
  pub answered :
      env.runtime (
        prompt_of
          (previous_summary read.history_compaction_summary)
          (join "\n\n" (map (part_of env.history_text) rows)))
      ≡ some events
  pub passed : Passes read views rows ⊎ Rebuilds read views rows
  pub written :
      result.db
      ≡ env.after (
          put_threads
            (update_where
              (unmoved read)
              (advance (last_seq_or 0 rows) ((listen nothing_heard events).summary))
              ((views.at_write).threads))
            views.at_write)

abbrev IfAdvanced : Environment → Views → RowId → Compacted → Type 0
IfAdvanced env views thread_id c = c.outcome ≡ advanced → Advances env views thread_id c

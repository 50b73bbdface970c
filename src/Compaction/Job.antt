-- ===== src/Compaction/Job.antt =====
-- `compactHistory`: the whole job. The runtime, the memory provider and the rendering of blocks are
-- arguments, and so is what other transactions do to the database.
use grok_bot_v.Prelude.{
  ℕ, String, Bool, false, ◌&&◌, Option, none, some, List, [], ◌∷◌, ◌++◌, if◌then◌else◌, ◌==◌, ltb,
  opt_eq, find_where, update_where, count_where, not,
}
use grok_bot_v.Prelude.Text.{is_empty, text_length}
use grok_bot_v.Store.Blocks.{RowId, MessageBlock}
use grok_bot_v.Store.Schema.{Db, Thread, Message}
use grok_bot_v.History.{thread_is}
use grok_bot_v.Compaction.Plan.{
  history_window_size, compaction_batch_size, max_compacted_summary_chars,
  should_enqueue_compaction, SkipReason, no_bot, no_model, new_summary_too_large, FailReason,
  thread_not_found, summarizer_failed, no_summary, Planned, skip, compact, Views, previous_summary,
  plan, last_seq_or,
}
use grok_bot_v.Compaction.Transcripts.{
  Transcript, refuse, transcript, transcribe, prompt_of, AgentEvent, Heard, listen,
}

-- What the job does outside the database.
pub data MemoryCall : Type 0 where
  save : RowId → ℕ → String → MemoryCall
  purge : RowId → ℕ → MemoryCall

pub data Outcome : Type 0 where
  skipped : SkipReason → Outcome
  failed : FailReason → Outcome
  lost advanced : Outcome

pub record Compacted : Type 0 where
  pub db : Db
  pub outcome : Outcome
  pub memory : List MemoryCall
  pub jobs : List RowId

-- A runtime that throws answers nothing. `after` is what other transactions do between the write and
-- the last read.
pub record Environment : Type 0 where
  pub history_text : List MessageBlock → String
  pub usable_model : Bool
  pub runtime : String → Option (List AgentEvent)
  pub semantic_memory : Bool
  pub after : Db → Db

abbrev pub nothing : Db → Outcome → Compacted
nothing db outcome = record { db = db; outcome = outcome; memory = []; jobs = [] }

-- The row of the thread, if it is still where the job found it.
abbrev pub unmoved : Thread → Thread → Bool
unmoved read t =
    t.id == read.id
    && (opt_eq t.history_compacted_up_to_seq read.history_compacted_up_to_seq
        && t.history_compaction_generation == read.history_compaction_generation)

abbrev pub advance : ℕ → String → Thread → Thread
advance seq summary t = record t {
  history_compacted_up_to_seq = some seq;
  history_compaction_summary = some summary;
}

abbrev pub saves : Bool → RowId → ℕ → String → List MemoryCall
saves semantic_memory bot_id generation summary =
    if semantic_memory then save bot_id generation summary ∷ [] else []

-- A save that a clear has overtaken is purged again.
abbrev pub purges : Bool → RowId → ℕ → Thread → List MemoryCall
purges semantic_memory bot_id generation latest =
    if semantic_memory && not (latest.history_compaction_generation == generation)
    then purge bot_id generation ∷ []
    else []

abbrev pub next_jobs : Thread → List RowId
next_jobs latest =
    if should_enqueue_compaction latest.next_message_seq latest.history_compacted_up_to_seq
      history_window_size compaction_batch_size
    then latest.id ∷ []
    else []

unfoldable pub finish : Environment → Thread → RowId → String → Db → Option Thread → Compacted
finish env thread bot_id summary db none = record {
  db = db;
  outcome = failed thread_not_found;
  memory = saves env.semantic_memory bot_id thread.history_compaction_generation summary;
  jobs = [];
}
finish env thread bot_id summary db (some latest) = record {
  db = db;
  outcome = advanced;
  memory =
      saves env.semantic_memory bot_id thread.history_compaction_generation summary
      ++ purges env.semantic_memory bot_id thread.history_compaction_generation latest;
  jobs = next_jobs latest;
}

abbrev pub put_threads : List Thread → Db → Db
put_threads rows db = record db { threads = rows }

unfoldable pub commit : Environment → Views → Thread → RowId → List Message → String → Compacted
unfolding finish
commit env views thread bot_id rows summary =
    let db = views.at_write in
    let written =
      put_threads (update_where (unmoved thread) (advance (last_seq_or 0 rows) summary) db.threads)
        db in
    let later = env.after written in
    if count_where (unmoved thread) db.threads == 0
    then nothing db lost
    else finish env thread bot_id summary later (find_where (thread_is thread.id) later.threads)

abbrev pub checked : Environment → Views → Thread → RowId → List Message → Heard → Compacted
checked env views thread bot_id rows heard =
    if heard.failed
    then nothing views.at_write (failed summarizer_failed)
    else if is_empty heard.summary
    then nothing views.at_write (failed no_summary)
    else if ltb max_compacted_summary_chars (text_length heard.summary)
    then nothing views.at_write (skipped new_summary_too_large)
    else commit env views thread bot_id rows heard.summary

abbrev pub nothing_heard : Heard
nothing_heard = record { failed = false; summary = "" }

abbrev pub heard_from :
    Environment → Views → Thread → RowId → List Message → Option (List AgentEvent) → Compacted
heard_from env views thread bot_id rows none = nothing views.at_write (failed summarizer_failed)
heard_from env views thread bot_id rows (some events) =
    checked env views thread bot_id rows (listen nothing_heard events)

abbrev pub summarise : Environment → Views → Thread → RowId → Transcript → Compacted
summarise env views thread bot_id (refuse reason) = nothing views.at_write (skipped reason)
summarise env views thread bot_id (transcript rows text) =
    if env.usable_model
    then heard_from env views thread bot_id rows
        (env.runtime (prompt_of (previous_summary thread.history_compaction_summary) text))
    else nothing views.at_write (skipped no_model)

abbrev pub compact_planned : Environment → Views → Thread → RowId → Planned → Compacted
compact_planned env views thread bot_id (skip reason) = nothing views.at_write (skipped reason)
compact_planned env views thread bot_id (compact batch) =
    summarise env views thread bot_id (transcribe env.history_text batch)

abbrev pub compact_of_bot : Environment → Views → Thread → Option RowId → Compacted
compact_of_bot env views thread none = nothing views.at_write (skipped no_bot)
compact_of_bot env views thread (some bot_id) =
    compact_planned env views thread bot_id (plan thread views)

abbrev pub compact_thread : Environment → Views → Option Thread → Compacted
compact_thread env views none = nothing views.at_write (failed thread_not_found)
compact_thread env views (some thread) = compact_of_bot env views thread thread.bot_id

unfoldable pub compact_history : Environment → Views → RowId → Compacted
unfolding plan transcribe listen commit
compact_history env views thread_id =
    compact_thread env views (find_where (thread_is thread_id) (views.at_thread).threads)

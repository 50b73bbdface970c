-- ===== src/Compaction/Race.antt =====
-- A compaction that is overtaken writes nothing.
use mathlib.Core.Path.{subst}
use mathlib.Core.Option.{some-injective}
use grok_bot_v.Prelude.{
  ◌≡◌, ◌≢◌, refl, sym, String, Bool, true, false, Option, none, some, List, [], inl, inr, ◌==◌, ltb,
  opt_eq, In, find_where, count_where, find_where-In, count_where-none, if_both, and-eq-true,
  opt_eq-eq, ==_iff, ◌⊎◌, ◌∙◌, Bool-cases,
}
use grok_bot_v.Prelude.Text.{is_empty, text_length}
use grok_bot_v.Store.Blocks.{RowId}
use grok_bot_v.Store.Schema.{Thread, Message}
use grok_bot_v.History.{thread_is}
use grok_bot_v.Compaction.Plan.{
  max_compacted_summary_chars, Batch, Planned, skip, compact, Views, plan, previous_summary,
}
use grok_bot_v.Compaction.Transcripts.{
  Transcript, refuse, transcript, transcribe, prompt_of, AgentEvent, Heard, listen,
}
use grok_bot_v.Compaction.Job.{
  Compacted, Outcome, advanced, Environment, nothing, unmoved, commit, checked, heard_from,
  summarise, compact_planned, compact_of_bot, compact_thread, compact_history, nothing_heard,
}

abbrev pub is_advanced : Outcome → Bool
is_advanced advanced = true
is_advanced _ = false

-- A claim about the result of the job holds if it holds where the job stops before its write, and of
-- the write with the batch and the transcript that the job comes to.
module _ (env : Environment) (views : Views) (P : Compacted → Type 0)
    (stops : (o : Outcome) → is_advanced o ≡ false → P (nothing views.at_write o)) where
  checked-cases :
      (thread : Thread) (bot_id : RowId) (rows : List Message) (heard : Heard)
      → P (commit env views thread bot_id rows heard.summary)
      → P (checked env views thread bot_id rows heard)
  checked-cases thread bot_id rows heard commits = if_both P heard.failed (stops _ refl) (
      if_both P (is_empty heard.summary) (stops _ refl) (
        if_both P (ltb max_compacted_summary_chars (text_length heard.summary)) (stops _ refl)
          commits))

  heard_from-cases :
      (thread : Thread) (bot_id : RowId) (rows : List Message) (answer : Option (List AgentEvent))
      → ((events : List AgentEvent)
          → answer ≡ some events
          → P (commit env views thread bot_id rows ((listen nothing_heard events).summary)))
      → P (heard_from env views thread bot_id rows answer)
  heard_from-cases thread bot_id rows none commits = stops _ refl
  heard_from-cases thread bot_id rows (some events) commits =
      checked-cases thread bot_id rows (listen nothing_heard events) (commits events refl)

  -- The write, after the runtime has answered the prompt of a transcript.
  abbrev Told : Thread → RowId → List Message → String → Type 0
  Told thread bot_id rows text =
      (events : List AgentEvent)
      → env.runtime (prompt_of (previous_summary thread.history_compaction_summary) text)
        ≡ some events
      → P (commit env views thread bot_id rows ((listen nothing_heard events).summary))

  summarise-cases :
      (thread : Thread) (bot_id : RowId) (t : Transcript)
      → ((rows : List Message) (text : String)
          → t ≡ transcript rows text
          → Told thread bot_id rows text)
      → P (summarise env views thread bot_id t)
  summarise-cases thread bot_id (refuse reason) commits = stops _ refl
  summarise-cases thread bot_id (transcript rows text) commits =
      if_both P env.usable_model
        (heard_from-cases thread bot_id rows
          (env.runtime (prompt_of (previous_summary thread.history_compaction_summary) text))
          (commits rows text refl))
        (stops _ refl)

  planned-cases :
      (thread : Thread) (bot_id : RowId) (p : Planned)
      → ((batch : Batch) (rows : List Message) (text : String)
          → p ≡ compact batch
          → transcribe env.history_text batch ≡ transcript rows text
          → Told thread bot_id rows text)
      → P (compact_planned env views thread bot_id p)
  planned-cases thread bot_id (skip reason) commits = stops _ refl
  planned-cases thread bot_id (compact batch) commits =
      summarise-cases thread bot_id (transcribe env.history_text batch)
        (λ rows text e. commits batch rows text refl e)

  bot-cases :
      (thread : Thread) (b : Option RowId)
      → ((bot_id : RowId) (batch : Batch) (rows : List Message) (text : String)
          → plan thread views ≡ compact batch
          → transcribe env.history_text batch ≡ transcript rows text
          → Told thread bot_id rows text)
      → P (compact_of_bot env views thread b)
  bot-cases thread none commits = stops _ refl
  bot-cases thread (some bot_id) commits =
      planned-cases thread bot_id (plan thread views) (commits bot_id)

  thread-cases :
      (found : Option Thread)
      → ((thread : Thread) (bot_id : RowId) (batch : Batch) (rows : List Message) (text : String)
          → found ≡ some thread
          → plan thread views ≡ compact batch
          → transcribe env.history_text batch ≡ transcript rows text
          → Told thread bot_id rows text)
      → P (compact_thread env views found)
  thread-cases none commits = stops _ refl
  thread-cases (some thread) commits =
      bot-cases thread thread.bot_id
        (λ bot_id batch rows text. commits thread bot_id batch rows text refl)

  pub compact_history-cases :
      (thread_id : RowId)
      → ((thread : Thread) (bot_id : RowId) (batch : Batch) (rows : List Message) (text : String)
          → find_where (thread_is thread_id) ((views.at_thread).threads) ≡ some thread
          → plan thread views ≡ compact batch
          → transcribe env.history_text batch ≡ transcript rows text
          → Told thread bot_id rows text)
      → P (compact_history env views thread_id)
  unfolding compact_history
  compact_history-cases thread_id commits =
      thread-cases (find_where (thread_is thread_id) ((views.at_thread).threads)) commits

-- No row of the thread is where the job read it: its cursor has moved, or a clear has begun a new
-- generation.
abbrev pub Overtaken : Views → RowId → Thread → Type 0
Overtaken views thread_id read =
    (t : Thread)
    → In t ((views.at_write).threads)
    → t.id ≡ thread_id
    → (t.history_compacted_up_to_seq ≢ read.history_compacted_up_to_seq)
      ⊎ (t.history_compaction_generation ≢ read.history_compaction_generation)

abbrev Untouched : Views → Compacted → Type 0
Untouched views c = (c.db ≡ views.at_write) × (c.memory ≡ []) × (c.jobs ≡ [])

unmoved-false :
    (read t : Thread)
    → (t.id ≡ read.id
        → (t.history_compacted_up_to_seq ≢ read.history_compacted_up_to_seq)
          ⊎ (t.history_compaction_generation ≢ read.history_compaction_generation))
    → unmoved read t ≡ false
unmoved-false read t moved = elim (Bool-cases (unmoved read t)) [
  | inr out ↦ out
  | inl stays ↦
      let (same, both) = and-eq-true (t.id == read.id) _ stays in
      let (cursor, generation) =
        and-eq-true (opt_eq t.history_compacted_up_to_seq read.history_compacted_up_to_seq) _
          both in
      elim (moved ((==_iff t.id read.id).0 same)) [
        | inl other ↦ absurd (other (opt_eq-eq _ _ cursor))
        | inr other ↦ absurd (other ((==_iff _ _).0 generation))
      ]
]

commit-Overtaken :
    (env : Environment) (views : Views) (read : Thread) (bot_id : RowId) (rows : List Message)
    (summary : String)
    → Overtaken views read.id read
    → Untouched views (commit env views read bot_id rows summary)
unfolding commit
commit-Overtaken env views read bot_id rows summary overtaken =
    let none_left : count_where (unmoved read) ((views.at_write).threads) ≡ 0 =
      count_where-none (unmoved read) ((views.at_write).threads)
        (λ t i. unmoved-false read t (overtaken t i)) in
    rw none_left (refl, refl, refl)

-- If, when compactHistory comes to its write, every row of the thread has another cursor or another
-- generation than the row that it read: the job leaves the database as it is, calls the memory
-- provider for nothing and enqueues no job, whatever it read and whatever the runtime answered.
pub compact_history-Overtaken :
    (env : Environment) (views : Views) (thread_id : RowId) (read : Thread)
    → find_where (thread_is thread_id) ((views.at_thread).threads) ≡ some read
    → Overtaken views thread_id read
    → Untouched views (compact_history env views thread_id)
compact_history-Overtaken env views thread_id read found overtaken =
    compact_history-cases env views (Untouched views) (λ o e. (refl, refl, refl)) thread_id
      (λ thread bot_id batch rows text e planned transcribed events answered.
        let same : read ≡ thread = some-injective read thread (sym found ∙ e) in
        let id : thread.id ≡ thread_id =
          (==_iff thread.id thread_id).0
            (find_where-In (thread_is thread_id) ((views.at_thread).threads) e).1 in
        commit-Overtaken env views thread bot_id rows ((listen nothing_heard events).summary) (
          subst (Overtaken views thread.id) same
            (subst (λ (k : RowId). Overtaken views k read) (sym id) overtaken)))

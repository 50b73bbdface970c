-- ===== src/Compaction/Cleared.antt =====
-- A clear of the thread between the read of a compaction and its write.
use mathlib.Core.Path.{subst}
use grok_bot_v.Prelude.{
  update_where, ℕ, suc, ◌≤◌, ◌≡◌, sym, Bool, true, false, List, [], ◌∷◌, In, In-update_where,
  if◌then◌else◌, if_cases, if_both, find_where, some, inr, arith, ltb,
}
use grok_bot_v.Store.Blocks.{RowId}
use grok_bot_v.Store.Schema.{Db, Thread}
use grok_bot_v.Store.Tx.{ok}
use grok_bot_v.Store.Tx.Keeps.{Keeps, keeps_rules}
use grok_bot_v.Store.Tx.Turns.{Turns, turns_last, Turns-then_first, Turns-update_one}
use grok_bot_v.History.{AppendEventInput, append_event_in_transaction, thread_is, next_event}
use grok_bot_v.History.Keeps.{Keeps-append_event_of}
use grok_bot_v.Events.Clear.{
  ClearThreadInput, ClearThreadResult, cancel_runs, clear_history, clear_thread_in_transaction,
  compact_all,
}
use grok_bot_v.Compaction.Plan.{Views}
use grok_bot_v.Compaction.Job.{Environment, compact_history}
use grok_bot_v.Compaction.Race.{Overtaken, compact_history-Overtaken}

-- The rows of a thread are of a generation or a later one.
abbrev pub FromGeneration : RowId → ℕ → Db → Type 0
FromGeneration thread_id g db =
    (t : Thread) → In t db.threads → t.id ≡ thread_id → g ≤ t.history_compaction_generation

abbrev Within : ℕ → ℕ → Thread → Type 0
Within id g t = t.id ≡ id → g ≤ t.history_compaction_generation

module _ (p : Thread → Bool) (f : Thread → Thread) (id g k : ℕ)
    (hit : (t : Thread) → p t ≡ true → Within id g t → Within id k (f t))
    (miss : (t : Thread) → p t ≡ false → Within id g t → Within id k t) where
  choose : (t : Thread) → Within id g t → Within id k (if p t then f t else t)
  choose t h = if_cases (Within id k) (p t) (λ e. hit t e h) (λ e. miss t e h)

  FromGeneration-update :
      (rows : List Thread)
      → ((t : Thread) → In t rows → Within id g t)
      → (t : Thread) → In t (update_where p f rows)
      → Within id k t
  FromGeneration-update rows h t i =
      let (x, j, e) = In-update_where p f rows i in subst (Within id k) (sym e) (choose x (h x j))

compact_all-turns : (n id g : ℕ) (t : Thread) → Within id g t → Within id (suc g) (compact_all n t)
compact_all-turns n id g t h =
    if_both (Within id (suc g)) (ltb 0 n) (λ same. omega (arith, h same))
      (λ same. omega (arith, h same))

module _ (g : ℕ) (id : RowId) where
  keeps_rows :
      (p : Thread → Bool) (f : Thread → Thread)
      → ((t : Thread) → Within id g t → Within id g (f t))
      → (db : Db) → FromGeneration id g db
      → (t : Thread) → In t (update_where p f db.threads)
      → Within id g t
  keeps_rows p f same db = FromGeneration-update p f id g g (λ t e. same t) (λ t e h. h) db.threads

  Keeps-cancel_runs :
      (now : ℕ) (ids task_ids : List RowId)
      → Keeps (FromGeneration id g) (cancel_runs now ids task_ids)
  unfolding cancel_runs
  Keeps-cancel_runs now [] task_ids = search (keeps_rules)
  Keeps-cancel_runs now (x ∷ ids) task_ids = search (keeps_rules) depth 40

  turned :
      (n : ℕ) (db : Db)
      → FromGeneration id g db
      → (t : Thread) → In t (update_where (thread_is id) (compact_all n) db.threads)
      → Within id (suc g) t
  turned n db =
      FromGeneration-update (thread_is id) (compact_all n) id g (suc g)
        (λ t e. compact_all-turns n id g t) (λ t e h same. ground arith) db.threads

  unread-kept :
      (p : Thread → Bool) (db : Db)
      → FromGeneration id g db
      → FromGeneration id g
          (record db { threads = update_where p (λ t. record t { unread = false }) db.threads })
  unread-kept p db h = keeps_rows p (λ t. record t { unread = false }) (λ t q. q) db h

  turned_db :
      (n : ℕ) (db : Db)
      → FromGeneration id g db
      → FromGeneration id
          (suc g)
          (record db { threads = update_where (thread_is id) (compact_all n) db.threads })
  turned_db n db h = turned n db h

  Keeps-append_event :
      (event_id : RowId) (input : AppendEventInput)
      → Keeps (FromGeneration id g) (append_event_in_transaction event_id input)
  Keeps-append_event event_id input =
      Keeps-append_event_of event_id input
        (λ row db h. keeps_rows (thread_is input.thread_id) next_event (λ t q. q) db h)

Turns-clear :
    (g now event_id : ℕ) (input : ClearThreadInput)
    → Turns
        (FromGeneration input.thread_id g)
        (FromGeneration input.thread_id (suc g))
        (clear_thread_in_transaction now event_id input)
unfolding clear_thread_in_transaction clear_history
Turns-clear g now event_id input =
    search
      (
        turns_last, Turns-then_first, Turns-update_one, keeps_rules, Keeps-cancel_runs,
        Keeps-append_event, unread-kept, turned_db,
      )
      depth 60

Overtaken-later :
    (views : Views) (thread_id : RowId) (read : Thread)
    → FromGeneration thread_id (suc read.history_compaction_generation) views.at_write
    → Overtaken views thread_id read
Overtaken-later views thread_id read later t i same =
    let above = later t i same in inr (λ e. omega (arith, e))

-- If compactHistory has read a thread and clearThread of that thread commits before the job comes to
-- its write, on rows of the thread of the generation that was read or a later one: the job leaves the
-- database as the clear left it, so that no summary of cleared messages appears, calls the memory
-- provider for nothing and enqueues no job.
pub compact_history-cleared :
    (env : Environment) (views : Views) (read : Thread) (now event_id : ℕ)
    (input : ClearThreadInput) (db : Db) {r : ClearThreadResult}
    → find_where (thread_is input.thread_id) ((views.at_thread).threads) ≡ some read
    → FromGeneration input.thread_id read.history_compaction_generation db
    → clear_thread_in_transaction now event_id input db ≡ ok (r, views.at_write)
    → ((compact_history env views input.thread_id).db ≡ views.at_write)
      × ((compact_history env views input.thread_id).memory ≡ [])
      × ((compact_history env views input.thread_id).jobs ≡ [])
compact_history-cleared env views read now event_id input db found from cleared =
    compact_history-Overtaken env views input.thread_id read found (
      Overtaken-later views input.thread_id read
        ((Turns-clear read.history_compaction_generation now event_id input).at db from cleared))

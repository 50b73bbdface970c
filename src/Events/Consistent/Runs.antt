-- ===== src/Events/Consistent/Runs.antt =====
-- Pausing a run, releasing the control of a computer and ending a run keep the histories consistent.
use mathlib.Core.Path.{subst}
use grok_bot_v.Prelude.{ℕ, String, ◌≡◌, refl, sym, ◌∙◌, arith, Bool, Option, none, some, List}
use grok_bot_v.Store.Blocks.{RowId, MessageBlock}
use grok_bot_v.Store.Schema.{Db, Run, Thread, Bot, ReleaseReason}
use grok_bot_v.Store.Tables.{runs}
use grok_bot_v.Store.Tx.{ok, update_many}
use grok_bot_v.Store.Tx.Keeps.{Keeps, ok-injective}
use grok_bot_v.History.Log.{IsConsistent}
use grok_bot_v.History.Keeps.{assert_lem, writable}
use grok_bot_v.Events.Consistent.Rules.{Keeps-runs, table_rules}
use grok_bot_v.Events.Pause.{
  PauseRun, PauseIds, wait_for_input, wait_for_takeover, record_ask, record_takeover,
  pause_for_input_in_transaction, pause_for_takeover_in_transaction,
}
use grok_bot_v.Events.Release.{
  ReleaseInput, resume_run, bot_thread, announce_release, record_release, release_in_transaction,
  resume_from_takeover,
}
use grok_bot_v.Events.Finalize.{
  FinalizeIds, FinalizeRunInput, Outcome, may_write, record_reply, record_end, end_run,
  finalize_in_transaction,
}

Keeps-wait_for_input : (p : Run → Bool) → Keeps IsConsistent (update_many runs p wait_for_input)
Keeps-wait_for_input p = Keeps-runs p wait_for_input (λ r. (refl, refl, refl))

Keeps-record_ask :
    (now : ℕ) (ids : PauseIds) (input : PauseRun) (blocks : List MessageBlock)
    → Keeps IsConsistent (record_ask now ids input blocks)
unfolding record_ask
Keeps-record_ask now ids input blocks = search table_rules depth 30

pub Keeps-pause_for_input :
    (now : ℕ) (ids : PauseIds) (input : PauseRun) (blocks : List MessageBlock)
    → Keeps IsConsistent (pause_for_input_in_transaction now ids input blocks)
unfolding pause_for_input_in_transaction
Keeps-pause_for_input now ids input blocks =
    search (table_rules, Keeps-wait_for_input, Keeps-record_ask) depth 10

Keeps-wait_for_takeover :
    (p : Run → Bool) → Keeps IsConsistent (update_many runs p wait_for_takeover)
Keeps-wait_for_takeover p = Keeps-runs p wait_for_takeover (λ r. (refl, refl, refl))

Keeps-record_takeover :
    (now : ℕ) (id : RowId) (input : PauseRun) (reason : String)
    → Keeps IsConsistent (record_takeover now id input reason)
unfolding record_takeover
Keeps-record_takeover now id input reason = search table_rules depth 30

pub Keeps-pause_for_takeover :
    (now : ℕ) (id : RowId) (input : PauseRun) (reason : String)
    → Keeps IsConsistent (pause_for_takeover_in_transaction now id input reason)
unfolding pause_for_takeover_in_transaction
Keeps-pause_for_takeover now id input reason =
    search (table_rules, Keeps-wait_for_takeover, Keeps-record_takeover) depth 10

Keeps-resume :
    (p : Run → Bool) (reason : ReleaseReason)
    → Keeps IsConsistent (update_many runs p (resume_from_takeover reason))
Keeps-resume p reason = Keeps-runs p (resume_from_takeover reason) (λ r. (refl, refl, refl))

Keeps-resume_run :
    (input : ReleaseInput) (run_id : Option RowId) → Keeps IsConsistent (resume_run input run_id)
unfolding resume_run
Keeps-resume_run input none = search table_rules
Keeps-resume_run input (some id) = search (table_rules, Keeps-resume)

Keeps-bot_thread : (input : ReleaseInput) (b : Option Bot) → Keeps IsConsistent (bot_thread input b)
Keeps-bot_thread input none = search table_rules
Keeps-bot_thread input (some b) = search table_rules

Keeps-announce :
    (id : RowId) (input : ReleaseInput) (run_id : Option RowId) (t : Option Thread)
    → Keeps IsConsistent (announce_release id input run_id t)
Keeps-announce id input run_id none = search table_rules
Keeps-announce id input run_id (some t) = search table_rules

Keeps-record_release :
    (id : RowId) (input : ReleaseInput) → Keeps IsConsistent (record_release id input)
unfolding record_release
Keeps-record_release id input =
    search (table_rules, Keeps-resume_run, Keeps-bot_thread, Keeps-announce) depth 10

pub Keeps-release :
    (id : RowId) (input : ReleaseInput) → Keeps IsConsistent (release_in_transaction id input)
unfolding release_in_transaction
Keeps-release id input = search (table_rules, Keeps-record_release) depth 10

pub may_write_lem : (id : RowId) (db : Db) → may_write id db ≡ ok (writable (some id) db.runs, db)
unfolding may_write
may_write_lem id db = ground (arith, assert_lem (some id) db)

Keeps-may_write : (id : RowId) → Keeps IsConsistent (may_write id)
Keeps-may_write id = record {
  at = λ db h e. subst IsConsistent (ok-injective (sym (may_write_lem id db) ∙ e)).1 h;
}

Keeps-record_reply :
    (ids : FinalizeIds) (input : FinalizeRunInput) (outcome : Outcome)
    → Keeps IsConsistent (record_reply ids input outcome)
unfolding record_reply
Keeps-record_reply ids input (Outcome.failed e) = search table_rules
Keeps-record_reply ids input (Outcome.completed blocks) = search table_rules depth 20

Keeps-record_end :
    (now : ℕ) (ids : FinalizeIds) (input : FinalizeRunInput)
    → Keeps IsConsistent (record_end now ids input)
unfolding record_end
Keeps-record_end now ids input = search (table_rules, Keeps-record_reply) depth 30

Keeps-end_run :
    (p : Run → Bool) (now : ℕ) (outcome : Outcome)
    → Keeps IsConsistent (update_many runs p (end_run now outcome))
Keeps-end_run p now outcome = Keeps-runs p (end_run now outcome) (λ r. (refl, refl, refl))

pub Keeps-finalize :
    (now : ℕ) (ids : FinalizeIds) (input : FinalizeRunInput)
    → Keeps IsConsistent (finalize_in_transaction now ids input)
unfolding finalize_in_transaction
Keeps-finalize now ids input =
    search (table_rules, Keeps-may_write, Keeps-end_run, Keeps-record_end) depth 20

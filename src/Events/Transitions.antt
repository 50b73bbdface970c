-- ===== src/Events/Transitions.antt =====
-- The operations of packages/db/src/events.ts change the status of a run only along the table of
-- packages/core/src/run-state.ts.
mod Rules
use Rules.{
  Steps, Follows, Steps-Leaves, Leaves, steps_rules, Steps-update, Steps-new_run, Follows-update,
  Follows-refl, Steps-transaction,
}
use mathlib.Core.Path.{subst}
use grok_bot_v.Prelude.{
  any-none, any-false, ◌∙◌, In, NoClash, ◌⊎◌, inl, inr, ℕ, String, ◌≡◌, refl, sym, ap, Bool, true,
  false, Option, none, some, List, [], ◌∷◌, map, arith,
}
use grok_bot_v.RunState.{can_transition, queued}
use grok_bot_v.Store.Blocks.{RowId, MessageBlock}
use grok_bot_v.Store.Schema.{
  Db, Run, Message, Bot, Thread, Task, ReleaseReason, ApprovalRule, ExternalEffect,
}
use grok_bot_v.Store.Tables.{runs, tasks}
use grok_bot_v.Store.Tx.{Tx, update_many, create}
use grok_bot_v.Store.Tx.Keeps.{Keeps, keeps_rules, Keeps-create, ok-injective}
use grok_bot_v.History.Keeps.{Keeps-append_event_of, Keeps-create_thread_message_of}
use grok_bot_v.History.{run_clash}
use grok_bot_v.Events.Pause.{
  PauseRun, PauseIds, leased_run, record_ask, record_takeover, pause_for_input_in_transaction,
  pause_for_takeover_in_transaction, wait_for_input, wait_for_takeover,
}
use grok_bot_v.History.Log.{same_run}
use grok_bot_v.Events.Consistent.{may_write_lem}
use grok_bot_v.Events.Release.{
  ReleaseInput, resume_run, bot_thread, announce_release, record_release, release_in_transaction,
  resume_from_takeover, taken_over_run,
}
use grok_bot_v.Events.Finalize.{
  FinalizeIds, FinalizeRunInput, Outcome, may_write, record_reply, record_end, end_run, held_run,
  finalize_in_transaction,
}
use grok_bot_v.Events.Answer.{
  AnswerRunInput, upsert_rule, settle, record_answer, answer_in_transaction, waiting_run,
}
use grok_bot_v.Events.Send.{
  SendIds, SendUserMessageInput, new_run, link_message, start_run, send_in_transaction,
}
use grok_bot_v.Events.Clear.{ClearThreadInput, active_run, cancel_run, clear_thread_in_transaction}
use grok_bot_v.Events.Clear.Runs.{runs-clear_thread}
use grok_bot_v.History.{AppendEventInput, append_event_in_transaction}
use grok_bot_v.Events.Server.{Server}
use grok_bot_v.Events.Operations.{
  Operation, append, clear, send, answer, pause_for_input, pause_for_takeover, release, finalize,
  perform, committed, db-perform,
}

ruleset leaves_rules = (keeps_rules, Keeps-append_event_of, Keeps-create_thread_message_of)

Leaves-record_ask :
    (now : ℕ) (ids : PauseIds) (input : PauseRun) (blocks : List MessageBlock)
    → Leaves (record_ask now ids input blocks)
unfolding record_ask
Leaves-record_ask now ids input blocks = λ rs. search leaves_rules depth 30

ask_step : (input : PauseRun) → Steps (update_many runs (leased_run input) wait_for_input)
unfolding can_transition
ask_step input = Steps-update _ _ (λ r. ground arith)

pub Steps-pause_for_input :
    (now : ℕ) (ids : PauseIds) (input : PauseRun) (blocks : List MessageBlock)
    → Steps (pause_for_input_in_transaction now ids input blocks)
unfolding pause_for_input_in_transaction
Steps-pause_for_input now ids input blocks =
    search (steps_rules, leaves_rules, ask_step, Leaves-record_ask) depth 10

Leaves-record_takeover :
    (now : ℕ) (id : RowId) (input : PauseRun) (reason : String)
    → Leaves (record_takeover now id input reason)
unfolding record_takeover
Leaves-record_takeover now id input reason = λ rs. search leaves_rules depth 30

takeover_step : (input : PauseRun) → Steps (update_many runs (leased_run input) wait_for_takeover)
unfolding can_transition
takeover_step input = Steps-update _ _ (λ r. ground arith)

Steps-pause_for_takeover :
    (now : ℕ) (id : RowId) (input : PauseRun) (reason : String)
    → Steps (pause_for_takeover_in_transaction now id input reason)
unfolding pause_for_takeover_in_transaction
Steps-pause_for_takeover now id input reason =
    search (steps_rules, leaves_rules, takeover_step, Leaves-record_takeover) depth 10

resume_step :
    (input : ReleaseInput) (id : RowId) (reason : ReleaseReason)
    → Steps (update_many runs (taken_over_run input id) (resume_from_takeover reason))
unfolding can_transition
resume_step input id reason = Steps-update _ _ (λ r. ground arith)

Steps-resume_run : (input : ReleaseInput) (run_id : Option RowId) → Steps (resume_run input run_id)
unfolding resume_run
Steps-resume_run input none = search (steps_rules, leaves_rules)
Steps-resume_run input (some id) = search (steps_rules, leaves_rules, resume_step)

Leaves-bot_thread : (input : ReleaseInput) (b : Option Bot) → Leaves (bot_thread input b)
Leaves-bot_thread input none rs = search leaves_rules
Leaves-bot_thread input (some b) rs = search leaves_rules

Leaves-announce :
    (id : RowId) (input : ReleaseInput) (run_id : Option RowId) (t : Option Thread)
    → Leaves (announce_release id input run_id t)
Leaves-announce id input run_id none rs = search leaves_rules
Leaves-announce id input run_id (some t) rs = search leaves_rules

Steps-record_release : (id : RowId) (input : ReleaseInput) → Steps (record_release id input)
unfolding record_release
Steps-record_release id input =
    search (steps_rules, leaves_rules, Steps-resume_run, Leaves-bot_thread, Leaves-announce) depth
      12

Steps-release : (id : RowId) (input : ReleaseInput) → Steps (release_in_transaction id input)
unfolding release_in_transaction
Steps-release id input = search (steps_rules, leaves_rules, Steps-record_release) depth 12

Leaves-may_write : (id : RowId) → Leaves (may_write id)
Leaves-may_write id rs = record {
  at = λ db h e. subst (λ (d : Db). d.runs ≡ rs) (ok-injective (sym (may_write_lem id db) ∙ e)).1 h;
}

Leaves-record_reply :
    (ids : FinalizeIds) (input : FinalizeRunInput) (outcome : Outcome)
    → Leaves (record_reply ids input outcome)
unfolding record_reply
Leaves-record_reply ids input (Outcome.failed e) rs = search leaves_rules
Leaves-record_reply ids input (Outcome.completed blocks) rs = search leaves_rules depth 20

Leaves-record_end :
    (now : ℕ) (ids : FinalizeIds) (input : FinalizeRunInput) → Leaves (record_end now ids input)
unfolding record_end
Leaves-record_end now ids input rs = search (leaves_rules, Leaves-record_reply) depth 30

end_step :
    (now : ℕ) (input : FinalizeRunInput) (outcome : Outcome)
    → Steps (update_many runs (held_run input) (end_run now outcome))
unfolding can_transition
end_step now input outcome = Steps-update _ _ (λ r. ground arith)

Steps-finalize :
    (now : ℕ) (ids : FinalizeIds) (input : FinalizeRunInput)
    → Steps (finalize_in_transaction now ids input)
unfolding finalize_in_transaction
Steps-finalize now ids input =
    search (steps_rules, leaves_rules, Leaves-may_write, end_step, Leaves-record_end) depth 15

Leaves-upsert_rule : (new : ApprovalRule) → Leaves (upsert_rule new)
unfolding upsert_rule
Leaves-upsert_rule new rs = search (leaves_rules, Keeps-create) depth 12

Leaves-settle :
    (input : AnswerRunInput) (effect : Option ExternalEffect) → Leaves (settle input effect)
unfolding settle
Leaves-settle input (some effect) rs = search (leaves_rules, Leaves-upsert_rule) depth 12
Leaves-settle input none rs = search leaves_rules depth 12

pub Leaves-record_answer :
    (id : RowId) (input : AnswerRunInput) (run : Run) (m : Message) (effect : Option ExternalEffect)
    → Leaves (record_answer id input run m effect)
unfolding record_answer
Leaves-record_answer id input run m effect rs = search (leaves_rules, Leaves-settle) depth 20

answer_step :
    (input : AnswerRunInput)
    → Steps (update_many runs (waiting_run input) (λ r. record r { status = queued }))
unfolding can_transition
answer_step input = Steps-update _ _ (λ r. ground arith)

Steps-answer : (id : RowId) (input : AnswerRunInput) → Steps (answer_in_transaction id input)
unfolding answer_in_transaction
Steps-answer id input =
    search (steps_rules, leaves_rules, answer_step, Leaves-record_answer) depth 30

Leaves-create_task : (p : Task → Bool) (t : Task) → Leaves (create tasks p t)
Leaves-create_task p t rs = Keeps-create tasks p t (λ db fresh h. h)

Leaves-link_message : (link : Bool) (m : Message) (run : Run) → Leaves (link_message link m run)
Leaves-link_message link m run rs = search leaves_rules depth 10

Steps-create_run :
    (now : ℕ) (ids : SendIds) (input : SendUserMessageInput) (m : Message)
    → Steps (create runs (run_clash (new_run now ids input m)) (new_run now ids input m))
Steps-create_run now ids input m =
    let new = new_run now ids input m in
    Steps-new_run (run_clash new) new (λ db fresh.
      any-none (same_run new) db.runs
        (λ y i. ground (arith, any-false (run_clash new) db.runs fresh i)))

Steps-start_run :
    (now : ℕ) (ids : SendIds) (input : SendUserMessageInput) (m : Message) (busy : Option Run)
    → Steps (start_run now ids input m busy)
unfolding start_run
Steps-start_run now ids input m (some busy) = search (steps_rules, leaves_rules)
Steps-start_run now ids input m none =
    search (steps_rules, leaves_rules, Leaves-create_task, Steps-create_run) depth 20

Steps-send :
    (now : ℕ) (ids : SendIds) (input : SendUserMessageInput)
    → Steps (send_in_transaction now ids input)
unfolding send_in_transaction
Steps-send now ids input = search (steps_rules, leaves_rules, Steps-start_run) depth 20

cancel_step :
    (input : ClearThreadInput) (now : ℕ) (r : Run)
    → ((cancel_run now r).id ≡ r.id)
      × (active_run input r ≡ true → can_transition r.status (cancel_run now r).status ≡ true)
unfolding can_transition
cancel_step input now r = ground arith

Steps-clear_thread :
    (now : ℕ) (id : RowId) (input : ClearThreadInput)
    → Steps (clear_thread_in_transaction now id input)
Steps-clear_thread now id input = record {
  at = λ db unique e.
      let after = (runs-clear_thread now id input db unique e).0 in
      rw after
        (Follows-update (active_run input) (cancel_run now) db.runs (cancel_step input now) unique);
}

Leaves-append :
    (id : RowId) (input : AppendEventInput) → Leaves (append_event_in_transaction id input)
Leaves-append id input rs = search leaves_rules

committed-Follows :
    (o : Operation) (db : Db) → NoClash same_run db.runs → Follows db.runs (committed o db).runs
unfolding committed
committed-Follows (append id input) db h =
    Steps-transaction _ db (Steps-Leaves _ (Leaves-append id input)) h
committed-Follows (clear now id input) db h =
    Steps-transaction _ db (Steps-clear_thread now id input) h
committed-Follows (send now ids input) db h = Steps-transaction _ db (Steps-send now ids input) h
committed-Follows (answer id input) db h = Steps-transaction _ db (Steps-answer id input) h
committed-Follows (pause_for_input now ids input blocks) db h =
    Steps-transaction _ db (Steps-pause_for_input now ids input blocks) h
committed-Follows (pause_for_takeover now id input reason) db h =
    Steps-transaction _ db (Steps-pause_for_takeover now id input reason) h
committed-Follows (release id input) db h = Steps-transaction _ db (Steps-release id input) h
committed-Follows (finalize now ids input) db h =
    Steps-transaction _ db (Steps-finalize now ids input) h

-- On a database whose run identifiers are unique, whatever operation is performed, a run that is
-- there before and after it has the status that it had, or one that `canTransition` allows from it.
pub perform-Follows :
    (o : Operation) (s : Server)
    → NoClash same_run s.db.runs
    → (r r' : Run) → In r s.db.runs
    → In r' (perform o s).db.runs
    → r.id ≡ r'.id
    → (r.status ≡ r'.status) ⊎ (can_transition r.status r'.status ≡ true)
perform-Follows o s h = elim (db-perform o s) [
  | inl done ↦ subst (λ (d : Db). Follows s.db.runs d.runs) (sym done) (committed-Follows o s.db h)
  | inr replayed ↦ subst (λ (d : Db). Follows s.db.runs d.runs) (sym replayed) (Follows-refl h)
]

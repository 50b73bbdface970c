-- ===== src/Events/Consistent/Threads.antt =====
-- Clearing a thread, sending to it and answering in it keep the histories consistent.
use grok_bot_v.History.{run_clash, shares_nonce}
use grok_bot_v.Events.Consistent.Rules.{
  Keeps-threads, Keeps-runs, Keeps-update_messages, table_rules,
}
use grok_bot_v.Prelude.{
  if_both, ltb, ◌≤◌, ◌≡◌, ℕ, refl, Bool, true, false, Option, none, some, List, [], ◌∷◌, arith,
}
use grok_bot_v.Store.Blocks.{RowId, MessageBlock}
use grok_bot_v.Store.Schema.{Thread, Run, Message, ExternalEffect, ApprovalRule}
use grok_bot_v.Store.Tables.{threads, runs, messages}
use grok_bot_v.Store.Tx.{Tx, update_many, update_one, create}
use grok_bot_v.Store.Tx.Keeps.{Keeps, Keeps-create}
use grok_bot_v.History.Log.{IsConsistent, Grows, IsLogged-new_run}
use grok_bot_v.Prelude.{any-none, any-false}
use grok_bot_v.RunState.{queued}
use grok_bot_v.Store.Blocks.{Ask}
use grok_bot_v.Store.Tx.Keeps.{Keeps-then, Keeps-pure}
use grok_bot_v.History.Log.{same_run}
use grok_bot_v.Events.Clear.{
  clear_thread_in_transaction, clear_history, cancel_runs, ClearThreadInput, compact_all,
}
use grok_bot_v.Events.Server.{Publication}
use grok_bot_v.Events.Send.{
  SendIds, SendUserMessageInput, new_run, link_message, find_busy, start_run, send_in_transaction,
}
use grok_bot_v.Events.Answer.{
  AnswerRunInput, upsert_rule, settle, record_answer, approval_effect, answer_in_transaction,
}

compact_all-Grows : (n : ℕ) → Grows (compact_all n)
compact_all-Grows n t =
    if_both
      (λ (x : Thread).
        (x.id ≡ t.id)
        × (x.bot_id ≡ t.bot_id)
        × (t.next_message_seq ≤ x.next_message_seq)
        × (t.next_event_seq ≤ x.next_event_seq))
      (ltb 0 n) (refl, refl, omega arith, omega arith) (refl, refl, omega arith, omega arith)

Keeps-cancel_runs :
    (now : ℕ) (ids task_ids : List RowId) → Keeps IsConsistent (cancel_runs now ids task_ids)
unfolding cancel_runs
Keeps-cancel_runs now [] task_ids = search table_rules
Keeps-cancel_runs now (id ∷ ids) task_ids = search table_rules

mark_read :
    (p : Thread → Bool)
    → Keeps IsConsistent (update_one threads p (λ t. record t { unread = false }))
mark_read p = Keeps-threads p _ (λ t. (refl, refl, omega arith, omega arith))

compact : (p : Thread → Bool) (n : ℕ) → Keeps IsConsistent (update_one threads p (compact_all n))
compact p n = Keeps-threads p (compact_all n) (compact_all-Grows n)

pub Keeps-clear_thread :
    (now : ℕ) (id : RowId) (input : ClearThreadInput)
    → Keeps IsConsistent (clear_thread_in_transaction now id input)
unfolding clear_thread_in_transaction clear_history
Keeps-clear_thread now id input =
    search (table_rules, mark_read, compact, Keeps-cancel_runs) depth 30

Keeps-create_run :
    (now : ℕ) (ids : SendIds) (input : SendUserMessageInput) (m : Message)
    → Keeps IsConsistent
        (create runs (run_clash (new_run now ids input m)) (new_run now ids input m))
Keeps-create_run now ids input m =
    let new = new_run now ids input m in
    Keeps-create runs (run_clash new) new (λ db fresh h.
      IsLogged-new_run h new
        (any-none (same_run new) db.runs
          (λ y i. ground (arith, any-false (run_clash new) db.runs fresh i)))
        (any-none (shares_nonce new) db.runs
          (λ y i. ground (arith, any-false (run_clash new) db.runs fresh i))))

Keeps-link_message :
    (link : Bool) (m : Message) (run : Run) → Keeps IsConsistent (link_message link m run)
Keeps-link_message true m run =
    Keeps-then _ _ (Keeps-update_messages _ _ (λ x. (refl, refl, refl, refl))) (Keeps-pure tt)
Keeps-link_message false m run = Keeps-pure tt

Keeps-find_busy : (input : SendUserMessageInput) → Keeps IsConsistent (find_busy input)
Keeps-find_busy input = search table_rules

Keeps-start_run :
    (now : ℕ) (ids : SendIds) (input : SendUserMessageInput) (m : Message) (busy : Option Run)
    → Keeps IsConsistent (start_run now ids input m busy)
unfolding start_run
Keeps-start_run now ids input m (some busy) = search table_rules
Keeps-start_run now ids input m none =
    search (table_rules, Keeps-create_run, Keeps-link_message) depth 20

pub Keeps-send :
    (now : ℕ) (ids : SendIds) (input : SendUserMessageInput)
    → Keeps IsConsistent (send_in_transaction now ids input)
unfolding send_in_transaction
Keeps-send now ids input = search (table_rules, Keeps-find_busy, Keeps-start_run) depth 20

Keeps-upsert_rule : (new : ApprovalRule) → Keeps IsConsistent (upsert_rule new)
unfolding upsert_rule
Keeps-upsert_rule new = search table_rules depth 10

Keeps-settle :
    (input : AnswerRunInput) (effect : Option ExternalEffect)
    → Keeps IsConsistent (settle input effect)
unfolding settle
Keeps-settle input (some effect) = search (table_rules, Keeps-upsert_rule) depth 10
Keeps-settle input none = search table_rules depth 10

write_answer :
    (p : Message → Bool) (blocks : List MessageBlock)
    → Keeps IsConsistent (update_one messages p (λ x. record x { blocks = blocks }))
write_answer p blocks = Keeps-update_messages p _ (λ x. (refl, refl, refl, refl))

Keeps-record_answer :
    (id : RowId) (input : AnswerRunInput) (run : Run) (m : Message) (effect : Option ExternalEffect)
    → Keeps IsConsistent (record_answer id input run m effect)
unfolding record_answer
Keeps-record_answer id input run m effect =
    search (table_rules, Keeps-settle, write_answer) depth 20

requeue :
    (p : Run → Bool) → Keeps IsConsistent (update_many runs p (λ r. record r { status = queued }))
requeue p = Keeps-runs p _ (λ r. (refl, refl, refl))

Keeps-approval_effect :
    (input : AnswerRunInput) (run : Run) (a : Ask)
    (k : Option ExternalEffect → Tx (Option Publication))
    → ((e : Option ExternalEffect) → Keeps IsConsistent (k e))
    → Keeps IsConsistent (approval_effect input run a k)
Keeps-approval_effect input run a k kk = search table_rules depth 20

pub Keeps-answer :
    (id : RowId) (input : AnswerRunInput) → Keeps IsConsistent (answer_in_transaction id input)
unfolding answer_in_transaction
Keeps-answer id input =
    search (table_rules, Keeps-approval_effect, requeue, Keeps-record_answer) depth 30

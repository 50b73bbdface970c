-- ===== src/Tests/Answers.antt =====
-- The theorem on a second answer, at the sample data.
use grok_bot_v.Prelude.{◌≡◌, refl, none, some, [], ◌∷◌}
use grok_bot_v.RunState.{waiting_input}
use grok_bot_v.Store.Blocks.{ask, pending}
use grok_bot_v.Store.Schema.{Db, Message, Role}
use grok_bot_v.Store.Tx.{
  ok, ◌>>=◌, ◌>>◌, continue_with, pure, throw, update_one, update_many, find_first, find_many,
  create, transaction,
}
use grok_bot_v.History.{
  append_event_in_transaction, assert_run_can_write_history, insert_event, assert_found,
}
use grok_bot_v.Events.Answer.{
  AnswerRunInput, answer_in_transaction, record_answer, settle, answer_block, pending_ask,
  is_approval_ask_block,
}
use grok_bot_v.Events.Answer.Once.{answer_in_transaction-once}
use grok_bot_v.Samples.{db_with, the_message}
use grok_bot_v.Tests.{the_answer}

abbrev question : Message
question = record the_message {
  role = Role.bot;
  run_id = some 3;
  blocks =
      ask (record {
        text = "Which day?";
        approval_effect_id = none;
        detail = none;
        status = some pending;
        answer = none;
        actions = none;
      })
      ∷ [];
}

abbrev asking_db : Db
asking_db = record (db_with waiting_input) { messages = question ∷ [] }

abbrev answered_db : Db
answered_db = (transaction (answer_in_transaction 31 the_answer) asking_db).1

abbrev second_answer : AnswerRunInput
second_answer = record the_answer { answer = "no" }

answer_in_transaction-once_example :
    answer_in_transaction 32 second_answer answered_db ≡ ok (none, answered_db)
unfolding answer_in_transaction record_answer settle answer_block pending_ask is_approval_ask_block
    ◌>>=◌ ◌>>◌ continue_with pure throw update_one update_many find_first find_many create
    transaction append_event_in_transaction assert_run_can_write_history insert_event assert_found
answer_in_transaction-once_example =
    answer_in_transaction-once 31 32 the_answer second_answer asking_db
      {p = record { thread_id = 1; cursor = 1 }} refl refl refl refl

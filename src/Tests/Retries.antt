-- ===== src/Tests/Retries.antt =====
-- The theorem on sending again, at the sample data.
use grok_bot_v.Prelude.{◌≡◌, refl, some, [], true, false}
use grok_bot_v.Store.Schema.{Trigger}
use grok_bot_v.Store.Tx.{
  ok, ◌>>=◌, ◌>>◌, continue_with, pure, throw, update_one, find_first, create, transaction,
}
use grok_bot_v.History.{
  create_thread_message_in_transaction, append_event_in_transaction, assert_run_can_write_history,
  insert_message, insert_event, assert_found,
}
use grok_bot_v.Events.Server.{Server, notify_realtime}
use grok_bot_v.Events.Send.{
  SendIds, SendUserMessageInput, SendUserMessageResult, replay, start_run, send_in_transaction,
  send_user_message,
}
use grok_bot_v.Events.Send.Retry.{send_user_message-retry}
use grok_bot_v.Samples.{the_server}
use grok_bot_v.Tests.{the_db-IsConsistent}

abbrev the_message_input : SendUserMessageInput
the_message_input = record {
  workspace_id = 9;
  thread_id = 1;
  bot_id = 2;
  user_id = 5;
  blocks = [];
  prompt = "And a taxi";
  trigger = Trigger.user;
  client_nonce = some "n1";
  only_if_idle = false;
  link_message_to_run = true;
}

abbrev first_ids : SendIds
first_ids = record { message = 50; task = 51; run = 52; event = 53 }

abbrev second_ids : SendIds
second_ids = record { message = 60; task = 61; run = 62; event = 63 }

abbrev sent : SendUserMessageResult
sent = record { message_id = 50; seq = 1; task_id = some 51; run_id = some 52 }

abbrev sent_server : Server
sent_server = (send_user_message (λ d. d) (λ d. d) 70 first_ids the_message_input the_server).1

send_user_message-retry_example :
    (r : SendUserMessageResult) × (send_user_message
        (λ d. d)
        (λ d. d)
        80
        second_ids
        the_message_input
        sent_server
      ≡ (ok r, sent_server))
    × (r.message_id ≡ 50)
    × (r.seq ≡ 1)
unfolding send_user_message replay send_in_transaction start_run ◌>>=◌ ◌>>◌ continue_with pure throw
    update_one find_first create transaction create_thread_message_in_transaction
    append_event_in_transaction assert_run_can_write_history insert_message insert_event
    assert_found notify_realtime
send_user_message-retry_example =
    send_user_message-retry 70 first_ids the_message_input "n1" the_server sent_server sent
      the_db-IsConsistent refl refl (λ d. d) (λ d. d) 80 second_ids

-- ===== src/Tests/Paging.antt =====
-- The theorems on the pages of a thread's messages, at a small thread.
use grok_bot_v.Prelude.{
  ℕ, ◌/◌, ◌≤◌, ◌≡◌, refl, false, none, some, List, [], ◌∷◌, map, All, In, here, there, arith,
}
use grok_bot_v.Prelude.Pairs.{All-In}
use grok_bot_v.Store.Schema.{Message, user}
use grok_bot_v.MessagePages.{
  Around, load_all_messages, load_message_page, target_seq, to_thread_message, older_than,
}
use grok_bot_v.MessagePages.Complete.{in_order, SameBelow, load_all_messages_lem}
use grok_bot_v.MessagePages.Window.{Near, load_message_page-around}

abbrev message : ℕ → ℕ → ℕ → Message
message id thread_id seq = record {
  id = id;
  thread_id = thread_id;
  seq = seq;
  role = user;
  blocks = [];
  bot_id = none;
  reply_to_message_id = none;
  run_id = none;
  client_nonce = none;
}

abbrev the_rows : List Message
the_rows =
    message 11 1 2
    ∷ message 12 1 0
    ∷ message 13 2 0
    ∷ message 14 1 3
    ∷ message 15 1 1
    ∷ message 16 1 5
    ∷ []

-- A message has come between the reads.
abbrev the_rows_later : List Message
the_rows_later = message 17 1 6 ∷ the_rows

same_below : SameBelow 1 the_rows the_rows_later
same_below m i e =
    let le : m.seq ≤ 5 = All-In (λ (x : Message). x.seq ≤ 5) the_rows (omega arith) i in
    let newer : older_than 1 m.seq (message 17 1 6) ≡ false = ground arith in rw newer refl

load_all_messages_lem_example :
    load_all_messages 1 2 (the_rows ∷ the_rows_later ∷ the_rows_later ∷ [])
    ≡ some (map to_thread_message (in_order 1 the_rows))
load_all_messages_lem_example =
    load_all_messages_lem 1 2 the_rows (the_rows_later ∷ the_rows_later ∷ []) (omega arith)
      (refl, (refl, (refl, (refl, (refl, (refl, tt)))))) (same_below, (same_below, tt))
      (omega arith)

abbrev around_message : Around
around_message = record { message_id = some 14; seq = none }

target_found : target_seq 1 the_rows around_message ≡ some 3
unfolding target_seq
target_found = refl

load_message_page-around_example :
    In
      (to_thread_message (message 14 1 3))
      ((load_message_page 1 none 3 (some around_message) the_rows the_rows_later the_rows).messages)
    × All (Near 1 3 (3 / 2)) (
        (load_message_page 1 none 3
          (some around_message)
          the_rows
          the_rows_later
          the_rows).messages)
load_message_page-around_example =
    load_message_page-around 1 none 3 around_message the_rows the_rows_later the_rows
      (message 14 1 3) (omega arith) (refl, (refl, (refl, (refl, (refl, (refl, (refl, tt)))))))
      (there (there (there (there (here refl))))) refl target_found

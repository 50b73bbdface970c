-- ===== src/Tests/Compacting.antt =====
-- The theorems on the compaction of a thread's history, on the sample database.
use grok_bot_v.Prelude.{ℕ, ◌≡◌, refl, true, false, some, [], ◌∷◌, arith, inl, here, there}
use grok_bot_v.Store.Schema.{Role}
use grok_bot_v.Tests.{cleared_db, clear_input, clear_the_db}
use grok_bot_v.Samples.{the_db, the_thread, the_message}
use grok_bot_v.Compaction.Plan.{Views, Batch}
use grok_bot_v.Compaction.Transcripts.{done, transcript, transcribe}
use grok_bot_v.Compaction.Budget.{Covers, transcribe_lem}
use grok_bot_v.Compaction.Job.{Environment, compact_history}
use grok_bot_v.Compaction.Race.{Overtaken, compact_history-Overtaken}
use grok_bot_v.Compaction.Cleared.{FromGeneration, compact_history-cleared}
use grok_bot_v.Compaction.Select.{
  CompactedHistoryMessage, HistoryRole, Sound, Usable, select_compacted_history,
  select_compacted_history-Sound,
}

abbrev env : Environment
env = record {
  history_text = λ blocks. "hello";
  usable_model = true;
  runtime = λ prompt. some (done (some " A greeting. ") ∷ []);
  semantic_memory = true;
  after = λ db. db;
}

abbrev steady : Views
steady = record {
  at_thread = the_db;
  at_events = the_db;
  at_legacy = the_db;
  at_batch = the_db;
  at_write = the_db;
}

abbrev overtaken : Views
overtaken = record steady {
  at_write = record the_db {
    threads = record the_thread { history_compacted_up_to_seq = some 0 } ∷ [];
  };
}

is_overtaken : Overtaken overtaken 1 the_thread
is_overtaken t (here e) same = inl (λ e'. cc)
is_overtaken t (there i) same = elim i [ ]

compact_history-Overtaken_example :
    ((compact_history env overtaken 1).db ≡ overtaken.at_write)
    × ((compact_history env overtaken 1).memory ≡ [])
    × ((compact_history env overtaken 1).jobs ≡ [])
compact_history-Overtaken_example =
    compact_history-Overtaken env overtaken 1 the_thread refl is_overtaken

abbrev cleared_views : Views
cleared_views = record steady { at_write = cleared_db }

from_first : FromGeneration 1 0 the_db
from_first t i e = omega arith

compact_history-cleared_example :
    ((compact_history env cleared_views 1).db ≡ cleared_views.at_write)
    × ((compact_history env cleared_views 1).memory ≡ [])
    × ((compact_history env cleared_views 1).jobs ≡ [])
compact_history-cleared_example =
    compact_history-cleared env cleared_views the_thread 50 32 clear_input the_db refl from_first
      clear_the_db

abbrev two_messages : Batch
two_messages = record {
  bootstrapping = false;
  rows = the_message ∷ record the_message { id = 21; seq = 1; role = Role.bot } ∷ [];
}

transcribed :
    transcribe env.history_text two_messages
    ≡ transcript two_messages.rows "user: hello\n\nbot: hello"
unfolding transcribe
transcribed = refl

transcribe_lem_example :
    Covers env.history_text two_messages two_messages.rows "user: hello\n\nbot: hello"
transcribe_lem_example =
    transcribe_lem env.history_text two_messages two_messages.rows "user: hello\n\nbot: hello"
      transcribed

abbrev said : ℕ → CompactedHistoryMessage
said seq = record { seq = seq; role = HistoryRole.user; content = "hello" }

select_compacted_history-Sound_example :
    Sound
      (said 4 ∷ said 3 ∷ said 2 ∷ [])
      (some "Earlier.")
      (some 2)
      (select_compacted_history (said 4 ∷ said 3 ∷ said 2 ∷ []) (some "Earlier.") (some 2))
    × (Usable (said 4 ∷ said 3 ∷ said 2 ∷ []) (some "Earlier.") (some 2)
        → (select_compacted_history
            (said 4 ∷ said 3 ∷ said 2 ∷ [])
            (some "Earlier.")
            (some 2)).used_local_summary
          ≡ true)
select_compacted_history-Sound_example =
    select_compacted_history-Sound (said 4 ∷ said 3 ∷ said 2 ∷ []) (some "Earlier.") (some 2)

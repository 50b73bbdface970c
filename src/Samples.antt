-- ===== src/Samples.antt =====
-- The data on which the theorems are tried: a small database in which one run is under way, and the
-- inputs of the operations on it.
use grok_bot_v.Prelude.{none, some, [], ◌∷◌, false}
use grok_bot_v.RunState.{RunStatus, running}
use grok_bot_v.Store.Schema.{
  Thread, Run, Trigger, TaskStatus, AttemptStatus, Message, Role, Event, message_created, empty,
  Computer, ComputerScope, ComputerState, Holder, ExecutionLease, ExternalEffect, EffectStatus, Db,
}
use grok_bot_v.Events.Server.{Server}

abbrev pub the_thread : Thread
the_thread = record {
  id = 1;
  workspace_id = 9;
  bot_id = some 2;
  next_event_seq = 1;
  next_message_seq = 1;
  history_compacted_up_to_seq = none;
  history_compaction_summary = none;
  history_compaction_generation = 0;
  unread = false;
}

abbrev pub run_as : RunStatus → Run
run_as status = record {
  id = 3;
  workspace_id = 9;
  bot_id = 2;
  thread_id = 1;
  task_id = 4;
  user_id = 5;
  status = status;
  trigger = Trigger.user;
  error = none;
  lease_owner = some 7;
  lease_fence = 2;
  lease_expires_at = some 100;
  checkpoint = none;
  client_nonce = none;
  source_message_id = none;
  started_at = some 10;
  completed_at = none;
  created_at = 5;
}

abbrev pub the_message : Message
the_message = record {
  id = 20;
  thread_id = 1;
  seq = 0;
  role = Role.user;
  blocks = [];
  bot_id = none;
  reply_to_message_id = none;
  run_id = none;
  client_nonce = none;
}

abbrev pub the_event : Event
the_event = record {
  id = 30;
  workspace_id = 9;
  thread_id = 1;
  bot_id = 2;
  seq = 0;
  type = message_created;
  payload = empty;
  run_id = none;
}

abbrev pub the_computer : Computer
the_computer = record {
  id = 6;
  workspace_id = 9;
  scope = ComputerScope.team;
  provider_ref = none;
  state = ComputerState.running;
  control_holder = Holder.user;
  control_lease_id = some 60;
  control_lease_expires_at = some 500;
  control_bot_id = some 2;
  control_run_id = none;
  execution_run_id = none;
  execution_bot_id = none;
  execution_lease_expires_at = none;
}

abbrev pub the_lease : ExecutionLease
the_lease = record { computer_id = 6; bot_id = 2; run_id = 3; fence = 1; expires_at = 900 }

abbrev pub the_effect : ExternalEffect
the_effect = record {
  id = 8;
  workspace_id = 9;
  run_id = 3;
  kind = "send_mail";
  status = EffectStatus.approved;
  result = none;
}

abbrev pub db_with : RunStatus → Db
db_with status = record {
  threads = the_thread ∷ [];
  runs = run_as status ∷ [];
  tasks =
      record {
        id = 4;
        workspace_id = 9;
        bot_id = 2;
        thread_id = 1;
        user_id = 5;
        prompt = "Book a table";
        status = TaskStatus.queued;
      }
      ∷ [];
  attempts =
      record {
        id = 40;
        run_id = 3;
        fence = 2;
        status = AttemptStatus.running;
        error = none;
        finished_at = none;
      }
      ∷ [];
  messages = the_message ∷ [];
  events = the_event ∷ [];
  computers = the_computer ∷ [];
  leases = the_lease ∷ [];
  effects = the_effect ∷ [];
  rules = [];
  bots =
      record {
        id = 2;
        workspace_id = 9;
        updated_at = 0;
        computer_id = some 6;
        computer_switching = false;
      }
      ∷ [];
}

abbrev pub the_db : Db
the_db = db_with running

abbrev pub the_server : Server
the_server = record { db = the_db; published = [] }

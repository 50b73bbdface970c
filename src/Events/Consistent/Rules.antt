-- ===== src/Events/Consistent/Rules.antt =====
-- One rule for each kind of write of packages/db/src/events.ts: it keeps the histories consistent.
use grok_bot_v.Prelude.{◌≡◌, Bool}
use grok_bot_v.Store.Schema.{
  Thread, Run, Task, Attempt, Message, Event, Computer, ExecutionLease, ExternalEffect,
  ApprovalRule, Bot,
}
use grok_bot_v.Store.Tables.{
  threads, runs, tasks, attempts, messages, events, computers, leases, effects, rules, bots,
}
use grok_bot_v.Store.Tx.{update_many, update_one, delete_many, create}
use grok_bot_v.Store.Tx.Keeps.{
  Keeps, keeps_rules, Keeps-create, Keeps-update_many, Keeps-update_one, Keeps-delete_many,
}
use grok_bot_v.History.Log.{
  IsConsistent, Grows, KeepsKeys, IsLogged-threads, IsLogged-runs, IsLogged-delete_messages,
  IsLogged-delete_events, IsLogged-update_messages,
}
use grok_bot_v.History.Keeps.{Keeps-create_thread_message, Keeps-append_event}

pub Keeps-threads :
    (p : Thread → Bool) (f : Thread → Thread)
    → Grows f
    → Keeps IsConsistent (update_one threads p f)
Keeps-threads p f g = Keeps-update_one threads p f (λ db h. IsLogged-threads h p f g)

pub Keeps-runs :
    (p : Run → Bool) (f : Run → Run) → KeepsKeys f → Keeps IsConsistent (update_many runs p f)
Keeps-runs p f g = Keeps-update_many runs p f (λ db h. IsLogged-runs h p f g)

pub Keeps-delete_messages : (p : Message → Bool) → Keeps IsConsistent (delete_many messages p)
Keeps-delete_messages p = Keeps-delete_many messages p (λ db h. IsLogged-delete_messages h p)

pub Keeps-delete_events : (p : Event → Bool) → Keeps IsConsistent (delete_many events p)
Keeps-delete_events p = Keeps-delete_many events p (λ db h. IsLogged-delete_events h p)

pub Keeps-update_bot : (p : Bot → Bool) (f : Bot → Bot) → Keeps IsConsistent (update_one bots p f)
Keeps-update_bot p f = Keeps-update_one bots p f (λ db h. h)

pub Keeps-update_computers :
    (p : Computer → Bool) (f : Computer → Computer) → Keeps IsConsistent (update_many computers p f)
Keeps-update_computers p f = Keeps-update_many computers p f (λ db h. h)

pub Keeps-update_attempts :
    (p : Attempt → Bool) (f : Attempt → Attempt) → Keeps IsConsistent (update_many attempts p f)
Keeps-update_attempts p f = Keeps-update_many attempts p f (λ db h. h)

pub Keeps-update_tasks :
    (p : Task → Bool) (f : Task → Task) → Keeps IsConsistent (update_many tasks p f)
Keeps-update_tasks p f = Keeps-update_many tasks p f (λ db h. h)

pub Keeps-delete_leases : (p : ExecutionLease → Bool) → Keeps IsConsistent (delete_many leases p)
Keeps-delete_leases p = Keeps-delete_many leases p (λ db h. h)

pub Keeps-update_messages :
    (p : Message → Bool) (f : Message → Message)
    → ((m : Message)
        → ((f m).id ≡ m.id)
          × ((f m).thread_id ≡ m.thread_id)
          × ((f m).seq ≡ m.seq)
          × ((f m).client_nonce ≡ m.client_nonce))
    → Keeps IsConsistent (update_one messages p f)
Keeps-update_messages p f g =
    Keeps-update_one messages p f (λ db h. IsLogged-update_messages h p f g)

pub Keeps-update_effects :
    (p : ExternalEffect → Bool) (f : ExternalEffect → ExternalEffect)
    → Keeps IsConsistent (update_one effects p f)
Keeps-update_effects p f = Keeps-update_one effects p f (λ db h. h)

pub Keeps-create_rule :
    (p : ApprovalRule → Bool) (r : ApprovalRule) → Keeps IsConsistent (create rules p r)
Keeps-create_rule p r = Keeps-create rules p r (λ db fresh h. h)

pub Keeps-create_task : (p : Task → Bool) (t : Task) → Keeps IsConsistent (create tasks p t)
Keeps-create_task p t = Keeps-create tasks p t (λ db fresh h. h)

pub ruleset table_rules = (
  keeps_rules, Keeps-runs, Keeps-delete_messages, Keeps-delete_events, Keeps-update_bot,
  Keeps-update_computers, Keeps-update_attempts, Keeps-update_tasks, Keeps-delete_leases,
  Keeps-update_effects, Keeps-create_rule, Keeps-create_task, Keeps-create_thread_message,
  Keeps-append_event,
)

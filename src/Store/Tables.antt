-- ===== src/Store/Tables.antt =====
-- The tables of the database, each as a way to read its rows and to replace them.
use grok_bot_v.Prelude.{List}
use grok_bot_v.Store.Schema.{
  Db, Thread, Run, Task, Attempt, Message, Event, Computer, ExecutionLease, ExternalEffect,
  ApprovalRule, Bot,
}

pub record Table (A : Type 0) : Type 0 where
  pub rows : Db → List A
  pub put : List A → Db → Db

abbrev pub threads : Table Thread
threads = record { rows = λ d. d.threads; put = λ r d. record d { threads = r } }

abbrev pub runs : Table Run
runs = record { rows = λ d. d.runs; put = λ r d. record d { runs = r } }

abbrev pub tasks : Table Task
tasks = record { rows = λ d. d.tasks; put = λ r d. record d { tasks = r } }

abbrev pub attempts : Table Attempt
attempts = record { rows = λ d. d.attempts; put = λ r d. record d { attempts = r } }

abbrev pub messages : Table Message
messages = record { rows = λ d. d.messages; put = λ r d. record d { messages = r } }

abbrev pub events : Table Event
events = record { rows = λ d. d.events; put = λ r d. record d { events = r } }

abbrev pub computers : Table Computer
computers = record { rows = λ d. d.computers; put = λ r d. record d { computers = r } }

abbrev pub leases : Table ExecutionLease
leases = record { rows = λ d. d.leases; put = λ r d. record d { leases = r } }

abbrev pub effects : Table ExternalEffect
effects = record { rows = λ d. d.effects; put = λ r d. record d { effects = r } }

abbrev pub rules : Table ApprovalRule
rules = record { rows = λ d. d.rules; put = λ r d. record d { rules = r } }

abbrev pub bots : Table Bot
bots = record { rows = λ d. d.bots; put = λ r d. record d { bots = r } }

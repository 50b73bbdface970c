-- ===== src/Store/Schema.antt =====
-- packages/db/prisma/schema.prisma: the models Thread, Run, Task, Attempt, Message, Event, Computer,
-- ComputerExecutionLease, ExternalEffect, ActionApprovalRule and Bot, with the columns that the
-- modelled code reads or writes. Times are milliseconds. The columns that the database client fills
-- by itself (`createdAt`, `updatedAt` of most tables) are left out where no code reads them.
use grok_bot_v.Prelude.{ℕ, String, Bool, Option, List}
use grok_bot_v.RunState.{RunStatus}
use grok_bot_v.Store.Blocks.{RowId, MessageBlock}

pub record Thread : Type 0 where
  pub id : RowId
  pub workspace_id : RowId
  pub bot_id : Option RowId
  pub next_event_seq : ℕ
  pub next_message_seq : ℕ
  pub history_compacted_up_to_seq : Option ℕ
  pub history_compaction_summary : Option String
  pub history_compaction_generation : ℕ
  pub unread : Bool

pub data Checkpoint : Type 0 where
  takeover takeover_skipped : Checkpoint

-- `Run.clientNonce`: the one that a send derives from its message, or another.
pub data RunNonce : Type 0 where
  send : RowId → RunNonce
  other : String → RunNonce

pub data Trigger : Type 0 where
  user routine resume follow_up spawn skill : Trigger

pub record Run : Type 0 where
  pub id : RowId
  pub workspace_id : RowId
  pub bot_id : RowId
  pub thread_id : RowId
  pub task_id : RowId
  pub user_id : RowId
  pub status : RunStatus
  pub trigger : Trigger
  pub error : Option String
  pub lease_owner : Option RowId
  pub lease_fence : ℕ
  pub lease_expires_at : Option ℕ
  pub checkpoint : Option Checkpoint
  pub client_nonce : Option RunNonce
  pub source_message_id : Option RowId
  pub started_at : Option ℕ
  pub completed_at : Option ℕ
  pub created_at : ℕ

pub data TaskStatus : Type 0 where
  queued completed failed cancelled : TaskStatus

pub record Task : Type 0 where
  pub id : RowId
  pub workspace_id : RowId
  pub bot_id : RowId
  pub thread_id : RowId
  pub user_id : RowId
  pub prompt : String
  pub status : TaskStatus

pub data AttemptStatus : Type 0 where
  running waiting_input waiting_takeover completed failed cancelled interrupted setup_failed :
      AttemptStatus

pub record Attempt : Type 0 where
  pub id : RowId
  pub run_id : RowId
  pub fence : ℕ
  pub status : AttemptStatus
  pub error : Option String
  pub finished_at : Option ℕ

pub data Role : Type 0 where
  user bot system : Role

pub record Message : Type 0 where
  pub id : RowId
  pub thread_id : RowId
  pub seq : ℕ
  pub role : Role
  pub blocks : List MessageBlock
  pub bot_id : Option RowId
  pub reply_to_message_id : Option RowId
  pub run_id : Option RowId
  pub client_nonce : Option String

-- `ProductEvent["type"]`: the types that the modelled code writes or tests, and any other.
pub data EventType : Type 0 where
  message_created message_updated thread_progress thread_cleared run_waiting_input run_completed :
      EventType
  run_failed run_cancelled takeover_requested takeover_released routine_fired computer_status :
      EventType
  other_type : String → EventType

pub data Holder : Type 0 where
  bot none user : Holder

pub data ReleaseReason : Type 0 where
  done expired released skipped : ReleaseReason

pub data Payload : Type 0 where
  empty : Payload
  message : RowId → Role → List MessageBlock → Payload
  takeover_reason : String → Payload
  control_released : Holder → RowId → ReleaseReason → Payload
  run_error : String → Payload
  other_payload : String → Payload

pub record Event : Type 0 where
  pub id : RowId
  pub workspace_id : RowId
  pub thread_id : RowId
  pub bot_id : RowId
  pub seq : ℕ
  pub type : EventType
  pub payload : Payload
  pub run_id : Option RowId

pub data ComputerScope : Type 0 where
  team dedicated : ComputerScope

pub data ComputerState : Type 0 where
  stopped booting running suspending suspended error : ComputerState

pub record Computer : Type 0 where
  pub id : RowId
  pub workspace_id : RowId
  pub scope : ComputerScope
  pub provider_ref : Option String
  pub state : ComputerState
  pub control_holder : Holder
  pub control_lease_id : Option RowId
  pub control_lease_expires_at : Option ℕ
  pub control_bot_id : Option RowId
  pub control_run_id : Option RowId
  pub execution_run_id : Option RowId
  pub execution_bot_id : Option RowId
  pub execution_lease_expires_at : Option ℕ

pub record ExecutionLease : Type 0 where
  pub computer_id : RowId
  pub bot_id : RowId
  pub run_id : RowId
  pub fence : ℕ
  pub expires_at : ℕ

pub data EffectStatus : Type 0 where
  intended approved denied executing completed uncertain : EffectStatus
  other_status : String → EffectStatus

-- The results that the code builds itself, each a fixed object around at most the name of a tool,
-- and what a tool returned.
pub data EffectResult : Type 0 where
  returned : String → EffectResult
  duplicate user_denied : EffectResult
  interrupted : String → EffectResult

pub record ExternalEffect : Type 0 where
  pub id : RowId
  pub workspace_id : RowId
  pub run_id : RowId
  pub kind : String
  pub status : EffectStatus
  pub result : Option EffectResult

pub record ApprovalRule : Type 0 where
  pub workspace_id : RowId
  pub created_by_user_id : RowId
  pub effect : String
  pub match_kind : String
  pub match_value : String

pub record Bot : Type 0 where
  pub id : RowId
  pub workspace_id : RowId
  pub updated_at : ℕ
  pub computer_id : Option RowId
  pub computer_switching : Bool

pub record Db : Type 0 where
  pub threads : List Thread
  pub runs : List Run
  pub tasks : List Task
  pub attempts : List Attempt
  pub messages : List Message
  pub events : List Event
  pub computers : List Computer
  pub leases : List ExecutionLease
  pub effects : List ExternalEffect
  pub rules : List ApprovalRule
  pub bots : List Bot

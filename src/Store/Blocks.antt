-- ===== src/Store/Blocks.antt =====
-- packages/contracts/src/events.ts: the blocks of a message. The kinds that no modelled code looks
-- into are one constructor, with the kind's name and the rest as a text. A list of pending tool
-- names that is absent in the source is an empty list here; the code never stores an empty one.
use grok_bot_v.Prelude.{ℕ, String, Bool, true, false, Option, none, some, List}

-- The identifier of a row. The code compares identifiers, and never looks inside one.
abbrev pub RowId : Type 0
RowId = ℕ

pub data AskStatus : Type 0 where
  pending answered : AskStatus

pub record Ask : Type 0 where
  pub text : String
  pub approval_effect_id : Option RowId
  pub detail : Option String
  pub status : Option AskStatus
  pub answer : Option String
  pub actions : Option (List (String × String))

pub record ToolStep : Type 0 where
  pub label : String
  pub count : ℕ

pub data SubagentStatus : Type 0 where
  running completed failed : SubagentStatus

pub record Subagent : Type 0 where
  pub agent_id : String
  pub name : String
  pub task : String
  pub status : SubagentStatus
  pub progress : Option String
  pub result : Option String

pub data MessageBlock : Type 0 where
  text : String → MessageBlock
  ask : Ask → MessageBlock
  progress : String → List String → MessageBlock
  steps : List ToolStep → MessageBlock
  subagent : Subagent → MessageBlock
  handoff : RowId → RowId → String → MessageBlock
  other : String → String → MessageBlock

-- `block.status !== "answered"`
abbrev pub is_answered : Option AskStatus → Bool
is_answered none = false
is_answered (some pending) = false
is_answered (some answered) = true

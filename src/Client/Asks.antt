-- ===== src/Client/Asks.antt =====
-- packages/core/src/answerable-ask.ts: the newest message whose ask a user may still answer. A block
-- is a pair of its kind's test and its answered status, as the snapshot has them.
pub mod Latest
use grok_bot_v.Prelude.{
  ℕ, Bool, true, false, ◌&&◌, Option, none, some, List, [], ◌∷◌, ◌==◌, any, keep, map,
  if◌then◌else◌, not,
}
use grok_bot_v.RunState.{RunStatus, is_status, waiting_input}
use grok_bot_v.Store.Blocks.{RowId, MessageBlock, ask, is_answered}

pub record AskMessage : Type 0 where
  pub id : RowId
  pub run_id : Option RowId
  pub blocks : List MessageBlock

pub record AskRun : Type 0 where
  pub id : RowId
  pub status : RunStatus

pub record AskSnapshot : Type 0 where
  pub messages : List AskMessage
  pub run : Option AskRun
  pub active_runs : Option (List AskRun)

abbrev pub runs_of : Option (List AskRun) → Option AskRun → List AskRun
runs_of (some runs) run = runs
runs_of none none = []
runs_of none (some run) = run ∷ []

abbrev pub waiting_run_ids : AskSnapshot → List RowId
waiting_run_ids snapshot =
    map (λ r. r.id)
      (keep (λ r. is_status r.status waiting_input) (runs_of snapshot.active_runs snapshot.run))

abbrev pub is_open_ask : MessageBlock → Bool
is_open_ask (ask a) = not (is_answered a.status)
is_open_ask _ = false

abbrev pub is_waiting : List RowId → Option RowId → Bool
is_waiting waiting none = false
is_waiting waiting (some id) = any (λ i. i == id) waiting

abbrev pub answerable : List RowId → AskMessage → Bool
answerable waiting m = is_waiting waiting m.run_id && any is_open_ask m.blocks

-- the loop from the last message to the first
abbrev pub latest_of : List RowId → List AskMessage → Option AskMessage
latest_of waiting [] = none
latest_of waiting (m ∷ ms) = elim (latest_of waiting ms) [
  | some later ↦ some later
  | none ↦ if answerable waiting m then some m else none
]

abbrev pub message_id : Option AskMessage → Option RowId
message_id none = none
message_id (some m) = some m.id

unfoldable pub latest_answerable_ask_message_id : Option AskSnapshot → Option RowId
latest_answerable_ask_message_id none = none
latest_answerable_ask_message_id (some snapshot) =
    message_id (latest_of (waiting_run_ids snapshot) snapshot.messages)

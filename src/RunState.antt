-- ===== src/RunState.antt =====
-- packages/core/src/run-state.ts: the states of a run, the table of allowed transitions, the active
-- and the terminal states, and the fence of a lease.
pub mod Laws
use grok_bot_v.Prelude.{
  ℕ, ◌+◌, Bool, true, false, ◌||◌, Option, none, some, List, [], ◌∷◌, ◌==◌, if◌then◌else◌, any,
}

pub data RunStatus : Type 0 where
  queued leased running waiting_input waiting_takeover completed failed cancelled : RunStatus

-- The names of the states are distinct texts; a test of two of them compares their numbers here.
abbrev pub status_code : RunStatus → ℕ
status_code queued = 0
status_code leased = 1
status_code running = 2
status_code waiting_input = 3
status_code waiting_takeover = 4
status_code completed = 5
status_code failed = 6
status_code cancelled = 7

abbrev pub is_status : RunStatus → RunStatus → Bool
is_status s t = status_code t == status_code s

-- `list.includes(status)`, and a query's `status: { in: list }`
abbrev pub status_in : List RunStatus → RunStatus → Bool
status_in l s = any (is_status s) l

abbrev pub active_run_statuses : List RunStatus
active_run_statuses = queued ∷ leased ∷ running ∷ waiting_input ∷ waiting_takeover ∷ []

abbrev pub terminal_statuses : List RunStatus
terminal_statuses = completed ∷ failed ∷ cancelled ∷ []

abbrev pub allowed : RunStatus → List RunStatus
allowed queued = leased ∷ cancelled ∷ []
allowed leased = running ∷ queued ∷ cancelled ∷ []
allowed running = waiting_input ∷ waiting_takeover ∷ completed ∷ failed ∷ cancelled ∷ leased ∷ []
allowed waiting_input = queued ∷ leased ∷ cancelled ∷ []
allowed waiting_takeover = queued ∷ leased ∷ cancelled ∷ []
allowed completed = []
allowed failed = queued ∷ []
allowed cancelled = []

unfoldable pub can_transition : RunStatus → RunStatus → Bool
can_transition from to = status_in (allowed from) to

-- `assertTransition` throws, or returns nothing.
unfoldable pub assert_transition : RunStatus → RunStatus → Option (Unit {0})
unfolding can_transition
assert_transition from to = if can_transition from to then some tt else none

unfoldable pub is_active : RunStatus → Bool
is_active s = status_in active_run_statuses s

unfoldable pub is_terminal : RunStatus → Bool
is_terminal s = status_in terminal_statuses s

unfoldable pub next_fence : ℕ → ℕ
next_fence current = current + 1

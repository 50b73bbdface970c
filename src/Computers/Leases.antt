-- ===== src/Computers/Leases.antt =====
-- The execution leases of packages/adapters/src/computer-lifecycle.ts. Each call of the database is
-- an action of its own, and other transactions may run between two of them: `between` is what they
-- did to the database before the state of the computer is read again.
pub mod Exclusive
use grok_bot_v.Prelude.{
  ℕ, ◌+◌, ◌*◌, Bool, true, false, ◌&&◌, ◌||◌, Option, none, some, List, [], ◌∷◌, ◌==◌, ltb,
  if◌then◌else◌, any, find_where, update_where, delete_where, count_where, is_some,
}
use grok_bot_v.Store.Blocks.{RowId}
use grok_bot_v.Store.Schema.{
  Db, Computer, ComputerScope, ComputerState, ExecutionLease, team, suspending,
}
use grok_bot_v.Store.Tx.{Result, ok, err, record_not_found, computer_busy}

abbrev pub execution_lease_ms : ℕ
execution_lease_ms = 300_000

abbrev pub takeover_hold_ms : ℕ
takeover_hold_ms = 86_400_000

pub record ComputerExecutionLease : Type 0 where
  pub computer_id : RowId
  pub bot_id : RowId
  pub run_id : RowId
  pub fence : ℕ

pub record AcquireInput : Type 0 where
  pub computer_id : RowId
  pub run_id : RowId
  pub bot_id : RowId
  pub resume_held_lease : Bool

abbrev pub is_team : ComputerScope → Bool
is_team team = true
is_team _ = false

abbrev pub is_suspending : ComputerState → Bool
is_suspending suspending = true
is_suspending _ = false

-- the row of the computer and the bot, if it has expired or the run may resume its own lease
abbrev pub reclaimable : ℕ → AcquireInput → ExecutionLease → Bool
reclaimable now input l =
    l.computer_id == input.computer_id
    && l.bot_id == input.bot_id
    && (ltb l.expires_at now || input.resume_held_lease && l.run_id == input.run_id)

abbrev pub reclaim : ℕ → AcquireInput → ExecutionLease → ExecutionLease
reclaim now input l = record l {
  run_id = input.run_id;
  expires_at = now + execution_lease_ms;
  fence = l.fence + 1;
}

-- the row that a lease stands for
abbrev pub lease_row : ComputerExecutionLease → ExecutionLease → Bool
lease_row lease l =
    l.computer_id == lease.computer_id
    && l.bot_id == lease.bot_id
    && l.run_id == lease.run_id
    && l.fence == lease.fence

abbrev pub new_lease : ℕ → AcquireInput → ExecutionLease
new_lease now input = record {
  computer_id = input.computer_id;
  bot_id = input.bot_id;
  run_id = input.run_id;
  fence = 1;
  expires_at = now + execution_lease_ms;
}

abbrev pub granted : AcquireInput → ℕ → ComputerExecutionLease
granted input fence = record {
  computer_id = input.computer_id;
  bot_id = input.bot_id;
  run_id = input.run_id;
  fence = fence;
}

-- the unique index `[computerId, botId]`
abbrev pub lease_clash : AcquireInput → ExecutionLease → Bool
lease_clash input l = l.computer_id == input.computer_id && l.bot_id == input.bot_id

unfoldable pub release_computer_execution_lease : Option ComputerExecutionLease → Db → Db
release_computer_execution_lease none db = db
release_computer_execution_lease (some lease) db = record db {
  leases = delete_where (lease_row lease) db.leases;
}

abbrev pub find_computer : RowId → Db → Option Computer
find_computer id db = find_where (λ c. c.id == id) db.computers

-- The lease that was just taken is given back if the computer is suspending by now.
unfoldable pub validate_acquired_computer_lease :
    (Db → Db) → ComputerExecutionLease → Db → Result (Option ComputerExecutionLease) × Db
unfolding release_computer_execution_lease
validate_acquired_computer_lease between lease db =
    elim (find_computer lease.computer_id (between db)) [
      | none ↦ (err record_not_found, between db)
      | some c ↦
          if is_suspending c.state
          then (err computer_busy, release_computer_execution_lease (some lease) (between db))
          else (ok (some lease), between db)
    ]

abbrev pub reclaimed : ℕ → AcquireInput → Db → Db
reclaimed now input db = record db {
  leases = update_where (reclaimable now input) (reclaim now input) db.leases;
}

abbrev pub created : ℕ → AcquireInput → Db → Db
created now input db = record db { leases = new_lease now input ∷ db.leases }

-- The first row of the computer and the bot that may be reclaimed is; else a row is created, and
-- the unique index makes the computer busy.
unfoldable pub take_lease :
    (Db → Db) → ℕ → AcquireInput → Db → Result (Option ComputerExecutionLease) × Db
take_lease between now input db = elim (find_where (reclaimable now input) db.leases) [
  | some l ↦
      validate_acquired_computer_lease between (granted input (l.fence + 1))
        (reclaimed now input db)
  | none ↦
      if any (lease_clash input) db.leases
      then (err computer_busy, db)
      else validate_acquired_computer_lease between (granted input 1) (created now input db)
]

unfoldable pub acquire_computer_execution_lease :
    (Db → Db) → ℕ → AcquireInput → Db → Result (Option ComputerExecutionLease) × Db
unfolding take_lease
acquire_computer_execution_lease between now input db = elim (find_computer input.computer_id db) [
  | none ↦ (err record_not_found, db)
  | some c ↦
      if is_team c.scope
      then (if is_suspending c.state
          then (err computer_busy, db)
          else take_lease between now input db)
      else (ok none, db)
]

abbrev pub extend : ℕ → ExecutionLease → ExecutionLease
extend until l = record l { expires_at = until }

-- `renewed.count === 1`
abbrev pub extend_lease : ℕ → Option ComputerExecutionLease → Db → Bool × Db
extend_lease until none db = (true, db)
extend_lease until (some lease) db = (
  count_where (lease_row lease) db.leases == 1,
  record db { leases = update_where (lease_row lease) (extend until) db.leases },
)

unfoldable pub renew_computer_execution_lease : ℕ → Option ComputerExecutionLease → Db → Bool × Db
renew_computer_execution_lease now lease db = extend_lease (now + execution_lease_ms) lease db

unfoldable pub hold_computer_execution_lease_for_takeover :
    ℕ → Option ComputerExecutionLease → Db → Bool × Db
hold_computer_execution_lease_for_takeover now lease db =
    extend_lease (now + takeover_hold_ms) lease db

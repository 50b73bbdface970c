-- ===== src/Computers/Claims.antt =====
-- packages/adapters/src/executor.ts: how `continueRun` takes a queued run under a lease and a
-- computer for it, `renewRunLease`, and `requeueComputerRun`. Each statement is an action of its own
-- on the database; `Between` says what other transactions do between two of them. What the executor
-- does with the run once it has both is not part of the model.
pub mod Fences
use grok_bot_v.Prelude.{
  ℕ, ◌+◌, ◌-◌, ◌*◌, ◌^◌, min, max, Bool, true, false, ◌&&◌, ◌||◌, Option, none, some, List, [], ◌∷◌,
  ◌==◌, leb, has_value, is_some, find_where, update_where, count_where, if◌then◌else◌,
}
use grok_bot_v.RunState.{
  RunStatus, queued, leased, running, waiting_input, waiting_takeover, is_status, status_in,
  next_fence, is_terminal, assert_transition,
}
use grok_bot_v.Store.Blocks.{RowId}
use grok_bot_v.Store.Schema.{Db, Run, Bot, Checkpoint}
use grok_bot_v.Store.Tx.{
  Result, ok, err, DbError, record_not_found, computer_busy, bot_without_computer,
  illegal_transition,
}
use grok_bot_v.History.{run_is}
use grok_bot_v.Computers.Leases.{ComputerExecutionLease, acquire_computer_execution_lease}

abbrev pub run_lease_ms : ℕ
run_lease_ms = 5 * 60_000

abbrev pub expired_by : ℕ → Option ℕ → Bool
expired_by now none = false
expired_by now (some until) = leb until now

-- the runs that the update of a claim meets
abbrev pub claimable : ℕ → RowId → Run → Bool
claimable now run_id r =
    r.id == run_id
    && (status_in (queued ∷ waiting_input ∷ waiting_takeover ∷ []) r.status
        || status_in (leased ∷ running ∷ []) r.status && expired_by now r.lease_expires_at)

abbrev pub lease_run : ℕ → RowId → ℕ → Run → Run
lease_run now worker_id fence r = record r {
  status = leased;
  lease_owner = some worker_id;
  lease_fence = fence;
  lease_expires_at = some (now + run_lease_ms);
  error = none;
  checkpoint = none;
}

abbrev pub held_by : RunStatus → RowId → RowId → ℕ → Run → Bool
held_by status run_id worker_id fence r =
    r.id == run_id
    && is_status r.status status
    && has_value r.lease_owner worker_id
    && r.lease_fence == fence

abbrev pub started_at_or : Option ℕ → ℕ → Option ℕ
started_at_or none now = some now
started_at_or (some t) now = some t

abbrev pub start_run : Option ℕ → Run → Run
start_run started_at r = record r { status = running; started_at = started_at }

abbrev pub update_runs : (Run → Bool) → (Run → Run) → Db → Bool × Db
update_runs p f db = (count_where p db.runs == 1, record db { runs = update_where p f db.runs })

-- `updateMany` to `leased`, and whether it met the run
unfoldable pub claim_run : ℕ → RowId → RowId → ℕ → Db → Bool × Db
claim_run now run_id worker_id fence db =
    update_runs (claimable now run_id) (lease_run now worker_id fence) db

-- `updateMany` from `leased` to `running`, and whether it met the run
unfoldable pub start_leased_run : ℕ → RowId → RowId → ℕ → Option ℕ → Db → Bool × Db
start_leased_run now run_id worker_id fence started_at db =
    update_runs (held_by leased run_id worker_id fence) (start_run (started_at_or started_at now))
      db

unfoldable pub renew_run_lease : ℕ → RowId → RowId → ℕ → Db → Bool × Db
renew_run_lease now run_id worker_id fence db =
    update_runs (held_by running run_id worker_id fence)
      (λ r. record r { lease_expires_at = some (now + run_lease_ms) }) db

unfoldable pub computer_retry_delay : ℕ → ℕ
computer_retry_delay fence = min 10_000 (250 * 2 ^ min (fence - 1) 5)

abbrev pub computer_run_requeue_data : Option Checkpoint → Run → Run
computer_run_requeue_data resume_checkpoint r = record r {
  status = queued;
  error = none;
  lease_owner = none;
  lease_expires_at = none;
  checkpoint = resume_checkpoint;
}

-- The delay after which the run's job is enqueued again, if the run was queued again.
unfoldable pub requeue_computer_run : RowId → RowId → ℕ → Option Checkpoint → Db → Option ℕ × Db
requeue_computer_run run_id worker_id fence resume_checkpoint db =
    let released =
      update_runs (held_by running run_id worker_id fence)
        (computer_run_requeue_data resume_checkpoint) db in
    (if released.0 then some (computer_retry_delay fence) else none, released.1)

-- What the other transactions do: before the claim, before the claimed run is read, before it is
-- started, before its bot is read, and within the acquisition of the computer.
pub record Between : Type 0 where
  pub before_claim : Db → Db
  pub before_read : Db → Db
  pub before_start : Db → Db
  pub before_bot : Db → Db
  pub before_lease : Db → Db

-- How a call ends: it returns without the run, it queues the run again (with the delay, if the
-- run was still its own), it goes on with the run under a fence, or it throws.
pub data Continued : Type 0 where
  returned : Continued
  requeued : Option ℕ → Continued
  executing : ℕ → Option ComputerExecutionLease → Continued
  threw : DbError → Continued

abbrev pub requeue : RowId → RowId → ℕ → Option Checkpoint → Db → Continued × Db
requeue run_id worker_id fence checkpoint db =
    let r = requeue_computer_run run_id worker_id fence checkpoint db in (requeued r.0, r.1)

abbrev pub is_busy : DbError → Bool
is_busy computer_busy = true
is_busy _ = false

abbrev pub with_lease :
    RowId
    → RowId
    → ℕ
    → Option Checkpoint
    → Result (Option ComputerExecutionLease) × Db
    → Continued × Db
with_lease run_id worker_id fence checkpoint (ok lease, db) = (executing fence lease, db)
with_lease run_id worker_id fence checkpoint (err e, db) =
    if is_busy e then requeue run_id worker_id fence checkpoint db else (threw e, db)

abbrev pub with_computer : Between → ℕ → Run → RowId → ℕ → Bool → Option RowId → Db → Continued × Db
with_computer b now run worker_id fence switching none db = (threw bot_without_computer, db)
with_computer b now run worker_id fence switching (some computer_id) db =
    if switching
    then requeue run.id worker_id fence run.checkpoint db
    else with_lease run.id worker_id fence run.checkpoint (
        acquire_computer_execution_lease b.before_lease now
          (record {
            computer_id = computer_id;
            run_id = run.id;
            bot_id = run.bot_id;
            resume_held_lease = is_status run.status waiting_takeover || is_some run.checkpoint;
          })
          db)

abbrev pub with_bot : Between → ℕ → Run → RowId → ℕ → Option Bot → Db → Continued × Db
with_bot b now run worker_id fence none db = (threw record_not_found, db)
with_bot b now run worker_id fence (some bot) db =
    with_computer b now run worker_id fence bot.computer_switching bot.computer_id db

unfoldable pub start_claimed : Between → ℕ → Run → RowId → ℕ → Option ℕ → Db → Continued × Db
unfolding start_leased_run
start_claimed b now run worker_id fence started_at db =
    let started = start_leased_run now run.id worker_id fence started_at (b.before_start db) in
    let db' = b.before_bot started.1 in
    if started.0
    then with_bot b now run worker_id fence (find_where (λ x. x.id == run.bot_id) db'.bots) db'
    else (returned, started.1)

abbrev pub needs_transition : RunStatus → Bool
needs_transition s = status_in (queued ∷ leased ∷ waiting_input ∷ waiting_takeover ∷ []) s

unfoldable pub with_current : Between → ℕ → Run → RowId → ℕ → Option Run → Db → Continued × Db
unfolding start_claimed
with_current b now run worker_id fence none db = (threw record_not_found, db)
with_current b now run worker_id fence (some current) db =
    if needs_transition current.status
    then elim (assert_transition current.status running) [
      | none ↦ (threw illegal_transition, db)
      | some u ↦ start_claimed b now run worker_id fence current.started_at db
    ]
    else start_claimed b now run worker_id fence current.started_at db

-- the run that was read first is not terminal
unfoldable pub claim_found : Between → ℕ → Run → RowId → Db → Continued × Db
unfolding claim_run with_current
claim_found b now run worker_id db =
    let fence = next_fence run.lease_fence in
    let claimed = claim_run now run.id worker_id fence (b.before_claim db) in
    let db' = b.before_read claimed.1 in
    if claimed.0
    then with_current b now run worker_id fence (find_where (run_is run.id) db'.runs) db'
    else (returned, claimed.1)

unfoldable pub continue_run : Between → ℕ → RowId → RowId → Db → Continued × Db
unfolding claim_found
continue_run b now run_id worker_id db = elim (find_where (run_is run_id) db.runs) [
  | none ↦ (returned, db)
  | some run ↦ if is_terminal run.status then (returned, db) else claim_found b now run worker_id db
]

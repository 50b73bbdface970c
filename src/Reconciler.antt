-- ===== src/Reconciler.antt =====
-- `createJobReconciler` of packages/adapters/src/job-reconciler.ts: at every interval the leader looks
-- for runs, routines and screen controls that want a job and enqueues one for each, a batch of each at
-- a time, from where the last pass left off.
pub mod Keys
pub mod Scan
pub mod Progress
pub mod Reach
pub mod Liveness
use grok_bot_v.Prelude.{
  ℕ, ◌+◌, Bool, true, false, ◌&&◌, ◌||◌, Option, none, some, List, [], ◌∷◌, ◌++◌, if◌then◌else◌,
  leb, is_some, map, keep,
}
use grok_bot_v.RunState.{RunStatus, is_status, queued, leased, running}
use grok_bot_v.Store.Blocks.{RowId}
use grok_bot_v.Reconciler.Keys.{Key}
use grok_bot_v.Reconciler.Scan.{scan_rows, next_cursor}

pub record RunRow : Type 0 where
  pub id : RowId
  pub status : RunStatus
  pub lease_expires_at : Option ℕ
  pub updated_at : ℕ

pub record RoutineRow : Type 0 where
  pub id : RowId
  pub active : Bool
  pub next_run_at : Option ℕ

pub record ControlRow : Type 0 where
  pub id : RowId
  pub control_bot_id : Option RowId
  pub control_lease_id : Option RowId
  pub control_lease_expires_at : Option ℕ

-- The tables at the queries of a pass.
pub record Found : Type 0 where
  pub runs : List RunRow
  pub routines : List RoutineRow
  pub controls : List ControlRow

abbrev pub lookahead_ms : ℕ
lookahead_ms = 60_000

abbrev pub run_key : RunRow → Key
run_key r = record { at = some r.updated_at; id = r.id }

abbrev pub routine_key : RoutineRow → Key
routine_key r = record { at = r.next_run_at; id = r.id }

abbrev pub control_key : ControlRow → Key
control_key c = record { at = c.control_lease_expires_at; id = c.id }

abbrev pub at_most : Option ℕ → ℕ → Bool
at_most none time = false
at_most (some at) time = leb at time

-- A queued run, or one whose worker has let its lease run out.
abbrev pub run_due : ℕ → RunRow → Bool
run_due now r =
    is_status r.status queued
    || (is_status r.status leased || is_status r.status running) && at_most r.lease_expires_at now

abbrev pub routine_due : ℕ → RoutineRow → Bool
routine_due now r = r.active && at_most r.next_run_at (now + lookahead_ms)

abbrev pub none_or_at_most : Option ℕ → ℕ → Bool
none_or_at_most none time = true
none_or_at_most (some at) time = leb at time

abbrev pub control_due : ℕ → ControlRow → Bool
control_due deadline c =
    is_some c.control_lease_id && none_or_at_most c.control_lease_expires_at deadline

pub data Job : Type 0 where
  run_continue : RowId → Job
  routine_wakeup : RowId → ℕ → Job
  control_expire : RowId → RowId → ℕ → Job

abbrev pub run_job : RunRow → Job
run_job r = run_continue r.id

abbrev pub routine_job : RowId → Option ℕ → List Job
routine_job id none = []
routine_job id (some at) = routine_wakeup id at ∷ []

abbrev pub routine_jobs : List RoutineRow → List Job
routine_jobs [] = []
routine_jobs (r ∷ rs) = routine_job r.id r.next_run_at ++ routine_jobs rs

abbrev pub time_or : Option ℕ → ℕ → ℕ
time_or none now = now
time_or (some at) now = at

abbrev pub control_job : ℕ → RowId → Option RowId → Option RowId → Option ℕ → List Job
control_job now id (some bot_id) (some lease_id) expires_at =
    control_expire id lease_id (time_or expires_at now) ∷ []
control_job now id bot_id lease_id expires_at = []

abbrev pub control_jobs : ℕ → List ControlRow → List Job
control_jobs now [] = []
control_jobs now (c ∷ cs) =
    control_job now c.id c.control_bot_id c.control_lease_id c.control_lease_expires_at
    ++ control_jobs now cs

pub record State : Type 0 where
  pub run_cursor : Option Key
  pub routine_cursor : Option Key
  pub control_cursor : Option Key
  pub control_scan_deadline : Option ℕ

abbrev pub started : State
started = record {
  run_cursor = none;
  routine_cursor = none;
  control_cursor = none;
  control_scan_deadline = none;
}

-- What a pass enqueues, and the state that it leaves.
pub record Passed : Type 0 where
  pub jobs : List Job
  pub state : State

abbrev pub deadline_after : Option Key → ℕ → Option ℕ
deadline_after none deadline = none
deadline_after (some cursor) deadline = some deadline

abbrev pub all_accepted : (Job → Bool) → List Job → Bool
all_accepted accepts [] = true
all_accepted accepts (j ∷ js) = accepts j && all_accepted accepts js

abbrev pub found_runs : ℕ → ℕ → Found → State → List RunRow
found_runs size now found s = scan_rows run_key size (run_due now) s.run_cursor found.runs

abbrev pub found_routines : ℕ → ℕ → Found → State → List RoutineRow
found_routines size now found s =
    scan_rows routine_key size (routine_due now) s.routine_cursor found.routines

-- The deadline of a scan of the controls is kept until the scan starts over.
abbrev pub scan_deadline : ℕ → State → ℕ
scan_deadline now s = time_or s.control_scan_deadline (now + lookahead_ms)

abbrev pub found_controls : ℕ → ℕ → Found → State → List ControlRow
found_controls size now found s =
    scan_rows control_key size (control_due (scan_deadline now s)) s.control_cursor found.controls

abbrev pub jobs_of_pass : ℕ → ℕ → Found → State → List Job
jobs_of_pass size now found s =
    map run_job (found_runs size now found s)
    ++ (routine_jobs (found_routines size now found s)
        ++ control_jobs now (found_controls size now found s))

abbrev pub moved_on : ℕ → ℕ → Found → State → State
moved_on size now found s =
    let control_cursor = next_cursor control_key size (found_controls size now found s) in
    record {
      run_cursor = next_cursor run_key size (found_runs size now found s);
      routine_cursor = next_cursor routine_key size (found_routines size now found s);
      control_cursor = control_cursor;
      control_scan_deadline = deadline_after control_cursor (scan_deadline now s);
    }

-- A pass of the leader. `accepts` says which jobs the queue takes; a job that it refuses ends the pass
-- before the cursors move.
unfoldable pub leader_pass : ℕ → (Job → Bool) → ℕ → Found → State → Passed
leader_pass size accepts now found s = record {
  jobs = keep accepts (jobs_of_pass size now found s);
  state =
      if all_accepted accepts (jobs_of_pass size now found s)
      then moved_on size now found s
      else record s { control_scan_deadline = some (scan_deadline now s) };
}

-- One that is not the leader does nothing.
unfoldable pub reconcile_once : Bool → ℕ → (Job → Bool) → ℕ → Found → State → Passed
unfolding leader_pass
reconcile_once leads size accepts now found s =
    if leads then leader_pass size accepts now found s else record { jobs = []; state = s }

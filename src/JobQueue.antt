-- ===== src/JobQueue.antt =====
-- packages/adapter-kit/src/background-jobs.ts, and `InMemoryJobQueue` of
-- packages/adapters/src/wakeup.ts: the background jobs, and the queue that runs them from timers. A
-- timer is the runtime's; the queue knows it by its handle, a number that is never used again.
pub mod Schedule
pub mod Coupling
pub mod Keeps
pub mod Refines
use Prim.Native.String.{◌++◌ as text_append}
use grok_bot_v.Prelude.{
  ℕ, suc, ◌+◌, ◌-◌, String, Bool, true, false, ◌&&◌, not, Option, none, some, List, [], ◌∷◌,
  if◌then◌else◌, ◌==◌, leb, str_eq, any, delete_where, find_where, has_value,
}
use grok_bot_v.Prelude.Text.{is_empty}

-- The jobs' names with their payloads. A time is a number of milliseconds, which the source passes
-- as a text.
pub data Payload : Type 0 where
  run_continue : String → Payload
  routine_wakeup : String → ℕ → Payload
  computer_sleep : String → Payload
  computer_control_expire : String → String → Payload
  skill_teaching_expire : String → Payload
  history_compact : String → Payload

pub record BackgroundJob : Type 0 where
  pub payload : Payload
  pub available_at : Option ℕ
  pub replace_key : Option String

-- What the schema of the job's name accepts: identifiers that are not empty.
abbrev pub accepts : Payload → Bool
accepts (run_continue run_id) = not (is_empty run_id)
accepts (routine_wakeup routine_id scheduled_for) = not (is_empty routine_id)
accepts (computer_sleep computer_id) = not (is_empty computer_id)
accepts (computer_control_expire computer_id lease_id) =
    not (is_empty computer_id) && not (is_empty lease_id)
accepts (skill_teaching_expire skill_id) = not (is_empty skill_id)
accepts (history_compact thread_id) = not (is_empty thread_id)

abbrev pub run_job_key : String → String
run_job_key run_id = text_append "run:" run_id

abbrev pub routine_job_key : String → String
routine_job_key routine_id = text_append "routine:" routine_id

abbrev pub computer_sleep_job_key : String → String
computer_sleep_job_key computer_id = text_append "computer.sleep:" computer_id

abbrev pub computer_control_expire_job_key : String → String → String
computer_control_expire_job_key computer_id lease_id =
    text_append "computer.control-expire:" (
      if is_empty lease_id then computer_id else text_append computer_id (text_append ":" lease_id))

abbrev pub skill_teaching_expire_job_key : String → String
skill_teaching_expire_job_key skill_id = text_append "skill.teaching-expire:" skill_id

abbrev pub history_compact_job_key : String → String
history_compact_job_key thread_id = text_append "history.compact:" thread_id

abbrev pub run_continue_job : String → BackgroundJob
run_continue_job run_id = record {
  payload = run_continue run_id;
  available_at = none;
  replace_key = some (run_job_key run_id);
}

abbrev pub routine_wakeup_job : String → ℕ → BackgroundJob
routine_wakeup_job routine_id scheduled_for = record {
  payload = routine_wakeup routine_id scheduled_for;
  available_at = some scheduled_for;
  replace_key = some (routine_job_key routine_id);
}

abbrev pub computer_sleep_job : String → ℕ → BackgroundJob
computer_sleep_job computer_id available_at = record {
  payload = computer_sleep computer_id;
  available_at = some available_at;
  replace_key = some (computer_sleep_job_key computer_id);
}

abbrev pub computer_control_expire_job : String → String → ℕ → BackgroundJob
computer_control_expire_job computer_id lease_id available_at = record {
  payload = computer_control_expire computer_id lease_id;
  available_at = some available_at;
  replace_key = some (computer_control_expire_job_key computer_id lease_id);
}

abbrev pub skill_teaching_expire_job : String → ℕ → BackgroundJob
skill_teaching_expire_job skill_id available_at = record {
  payload = skill_teaching_expire skill_id;
  available_at = some available_at;
  replace_key = some (skill_teaching_expire_job_key skill_id);
}

abbrev pub history_compact_job : String → BackgroundJob
history_compact_job thread_id = record {
  payload = history_compact thread_id;
  available_at = none;
  replace_key = some (history_compact_job_key thread_id);
}

-- A timer of the runtime that has neither fired nor been cleared.
pub record Timer : Type 0 where
  pub id : ℕ
  pub due : ℕ
  pub job : BackgroundJob

-- The queue's fields, the runtime's timers, and the jobs that were handed to their handlers.
pub record Queue : Type 0 where
  pub pending : List Timer
  pub next_id : ℕ
  pub started : Bool
  pub timers : List ℕ
  pub keyed : List (String × ℕ)
  pub closed : Bool
  pub dispatched : List Payload

abbrev pub empty_queue : Queue
empty_queue = record {
  pending = [];
  next_id = 0;
  started = false;
  timers = [];
  keyed = [];
  closed = false;
  dispatched = [];
}

abbrev pub lookup : String → List (String × ℕ) → Option ℕ
lookup k [] = none
lookup k ((j, v) ∷ m) = if str_eq j k then some v else lookup k m

abbrev pub key_is : String → String × ℕ → Bool
key_is k entry = str_eq (entry.0) k

abbrev pub remove : String → List (String × ℕ) → List (String × ℕ)
remove k = delete_where (key_is k)

abbrev pub is_timer : ℕ → Timer → Bool
is_timer id t = t.id == id

-- `clearTimeout`
abbrev pub clear_timeout : ℕ → List Timer → List Timer
clear_timeout id = delete_where (is_timer id)

-- `if (job.replaceKey)`: a key that is not the empty text.
abbrev pub truthy : Option String → Option String
truthy none = none
truthy (some k) = if is_empty k then none else some k

abbrev pub key_of : BackgroundJob → Option String
key_of job = truthy job.replace_key

abbrev pub cancel_timer : String → Option ℕ → Queue → Queue
cancel_timer key none q = q
cancel_timer key (some id) q = record q {
  pending = clear_timeout id q.pending;
  keyed = remove key q.keyed;
  timers = delete_where (λ t. t == id) q.timers;
}

unfoldable pub cancel : String → Queue → Queue
cancel key q = cancel_timer key (lookup key q.keyed) q

abbrev pub cancel_if : Option String → Queue → Queue
cancel_if none q = q
cancel_if (some key) q = cancel key q

-- The longest delay of a timer of the runtime: 2^31 - 1 milliseconds.
abbrev pub max_timeout_ms : ℕ
max_timeout_ms = 2_147_483_647

-- After how many milliseconds `setTimeout` calls back: at once, after one, where the delay is longer
-- than a timer can have, or less than one.
abbrev pub timeout_ms : ℕ → ℕ
timeout_ms ms = if leb 1 ms && leb ms max_timeout_ms then ms else 1

abbrev pub delay : Option ℕ → ℕ → ℕ
delay none now = 0
delay (some at) now = at - now

abbrev pub set_key : Option String → ℕ → List (String × ℕ) → List (String × ℕ)
set_key none id m = m
set_key (some key) id m = (key, id) ∷ remove key m

-- The rest of `enqueue`, once the timer that the job replaces is cancelled.
abbrev pub schedule : ℕ → BackgroundJob → Queue → Queue
schedule now job q = record q {
  pending =
      record { id = q.next_id; due = now + timeout_ms (delay job.available_at now); job = job }
      ∷ q.pending;
  next_id = suc q.next_id;
  timers = q.next_id ∷ q.timers;
  keyed = set_key (key_of job) q.next_id q.keyed;
}

-- A closed queue throws, which changes nothing.
unfoldable pub enqueue : ℕ → BackgroundJob → Queue → Queue
enqueue now job q = if q.closed then q else schedule now job (cancel_if (key_of job) q)

-- `if (job.replaceKey && this.keyed.get(job.replaceKey) === timer)`
abbrev pub forget_key : Option String → ℕ → List (String × ℕ) → List (String × ℕ)
forget_key none id m = m
forget_key (some key) id m = if has_value (lookup key m) id then remove key m else m

abbrev pub dispatch : Bool → Payload → List Payload → List Payload
dispatch started payload done = if started && accepts payload then payload ∷ done else done

abbrev pub fire_found : ℕ → ℕ → Option Timer → Queue → Queue
fire_found now id none q = q
fire_found now id (some t) q =
    if leb t.due now
    then record q {
      pending = clear_timeout id q.pending;
      timers = delete_where (λ other. other == id) q.timers;
      keyed = forget_key (key_of t.job) id q.keyed;
      dispatched = dispatch q.started t.job.payload q.dispatched;
    }
    else q

-- The runtime calls a timer that is due.
unfoldable pub fire : ℕ → ℕ → Queue → Queue
fire now id q = fire_found now id (find_where (is_timer id) q.pending) q

unfoldable pub start : Queue → Queue
start q = record q { started = true }

unfoldable pub stop : Queue → Queue
stop q = record q {
  started = false;
  pending = delete_where (λ t. any (λ id. id == t.id) q.timers) q.pending;
  timers = [];
  keyed = [];
}

unfoldable pub close : Queue → Queue
close q = if q.closed then q else stop (record q { closed = true })

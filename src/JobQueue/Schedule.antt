-- ===== src/JobQueue/Schedule.antt =====
-- What a job queue promises: a schedule of jobs, each due at a time, in which a job with a key replaces
-- every scheduled job with that key. There is no index and no set of handles here.
use grok_bot_v.Prelude.{
  ℕ, suc, ◌+◌, String, Bool, true, false, Option, none, some, List, [], ◌∷◌, if◌then◌else◌, ◌==◌,
  leb, ltb, not, ◌&&◌, any, text_is, find_where,
}
use grok_bot_v.Prelude.Text.{is_empty}
use grok_bot_v.JobQueue.{
  BackgroundJob, Payload, run_continue, routine_wakeup, computer_sleep, computer_control_expire,
  skill_teaching_expire, history_compact, Timer, Queue, max_timeout_ms, is_timer, enqueue, cancel,
  fire, start, stop, close,
}

-- A scheduled job is named by the number of jobs that were enqueued before it.
pub record Schedule : Type 0 where
  pub jobs : ℕ → Option Timer
  pub enqueued : ℕ
  pub started : Bool
  pub closed : Bool
  pub dispatched : List Payload

-- The calls of a queue, and the firing of a timer, each with the time. No call begins while an
-- `enqueue` waits for the timer that it replaces to be cancelled.
pub data Op : Type 0 where
  enqueues : ℕ → BackgroundJob → Op
  cancels : String → Op
  fires : ℕ → ℕ → Op
  starts stops closes : Op

-- When a job is due: at its time, if that is in the future and no further off than a timer can wait,
-- and otherwise a millisecond from now.
abbrev pub due_at : ℕ → Option ℕ → ℕ
due_at now none = suc now
due_at now (some at) = if ltb now at && leb at (now + max_timeout_ms) then at else suc now

-- The identifiers of a payload. A handler gets a job of which none is empty.
abbrev pub identifiers : Payload → List String
identifiers (run_continue run_id) = run_id ∷ []
identifiers (routine_wakeup routine_id scheduled_for) = routine_id ∷ []
identifiers (computer_sleep computer_id) = computer_id ∷ []
identifiers (computer_control_expire computer_id lease_id) = computer_id ∷ lease_id ∷ []
identifiers (skill_teaching_expire skill_id) = skill_id ∷ []
identifiers (history_compact thread_id) = thread_id ∷ []

-- The jobs that the handlers have got, where there are handlers or not.
abbrev pub handed : Bool → Payload → List Payload → List Payload
handed false payload done = done
handed true payload done = if any is_empty (identifiers payload) then done else payload ∷ done

-- The empty text is no key.
abbrev pub bears_key : String → Timer → Bool
bears_key key t = not (is_empty key) && text_is t.job.replace_key key

abbrev pub unless_key : String → Option Timer → Option Timer
unless_key key none = none
unless_key key (some t) = if bears_key key t then none else some t

abbrev pub without : Option String → (ℕ → Option Timer) → ℕ → Option Timer
without none jobs n = jobs n
without (some key) jobs n = unless_key key (jobs n)

abbrev pub promised_enqueue : ℕ → BackgroundJob → Schedule → Schedule
promised_enqueue now job s = record s {
  jobs = λ n.
      if s.enqueued == n
      then some (record { id = s.enqueued; due = due_at now job.available_at; job = job })
      else without job.replace_key s.jobs n;
  enqueued = suc s.enqueued;
}

abbrev pub promised_fire : ℕ → ℕ → Option Timer → Schedule → Schedule
promised_fire now id none s = s
promised_fire now id (some t) s =
    if leb t.due now
    then record s {
      jobs = λ n. if n == id then none else s.jobs n;
      dispatched = handed s.started t.job.payload s.dispatched;
    }
    else s

abbrev pub promised_stop : Schedule → Schedule
promised_stop s = record s { jobs = λ n. none; started = false }

unfoldable pub promised : Op → Schedule → Schedule
promised (enqueues now job) s = if s.closed then s else promised_enqueue now job s
promised (cancels key) s = record s { jobs = λ n. unless_key key (s.jobs n) }
promised (fires now id) s = promised_fire now id (s.jobs id) s
promised starts s = record s { started = true }
promised stops s = promised_stop s
promised closes s = if s.closed then s else promised_stop (record s { closed = true })

unfoldable pub step : Op → Queue → Queue
step (enqueues now job) q = enqueue now job q
step (cancels key) q = cancel key q
step (fires now id) q = fire now id q
step starts q = start q
step stops q = stop q
step closes q = close q

unfoldable pub run : List Op → Queue → Queue
run [] q = q
run (op ∷ ops) q = run ops (step op q)

unfoldable pub promised_run : List Op → Schedule → Schedule
promised_run [] s = s
promised_run (op ∷ ops) s = promised_run ops (promised op s)

-- The schedule that a queue stands for.
abbrev pub schedule_of : Queue → Schedule
schedule_of q = record {
  jobs = λ n. find_where (is_timer n) q.pending;
  enqueued = q.next_id;
  started = q.started;
  closed = q.closed;
  dispatched = q.dispatched;
}

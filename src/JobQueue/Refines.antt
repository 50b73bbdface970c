-- ===== src/JobQueue/Refines.antt =====
-- A job queue keeps the promise of a schedule.
use mathlib.Core.Path.{subst, fun_ext}
use grok_bot_v.Prelude.{
  ℕ, suc, ◌+◌, ◌≡◌, refl, sym, ap, ◌∙◌, String, Bool, true, false, Option, none, some, List, [],
  ◌∷◌, if◌then◌else◌, ◌==◌, leb, find_where, In, find_where-In, find_where-none, ==_iff, not, ◌&&◌,
  text_is, str_eq, eq_iff, Bool-cases, inl, inr, arith,
}
use grok_bot_v.Prelude.Text.{is_empty}
use grok_bot_v.JobQueue.{
  BackgroundJob, Payload, run_continue, routine_wakeup, computer_sleep, computer_control_expire,
  skill_teaching_expire, history_compact, Timer, Queue, key_of, truthy, delay, timeout_ms, dispatch,
  is_timer, clear_timeout, cancel, cancel_if, schedule, enqueue, fire_found, fire, start, stop,
  close, empty_queue,
}
use grok_bot_v.JobQueue.Schedule.{
  Schedule, Op, enqueues, cancels, fires, starts, stops, closes, bears_key, due_at, handed,
  unless_key, without, promised_fire, promised_stop, promised, step, run, promised_run, schedule_of,
}
use grok_bot_v.JobQueue.Coupling.{
  has_key, IsCoupled, its_key, its_timer, find_where-clear, cancel-cases, text_is-some,
}
use grok_bot_v.JobQueue.Keeps.{IsCoupled-of, step-IsCoupled, stop-empties, empty_queue-IsCoupled}

-- The code's reading of a job against the schedule's.
delay-due_at : (now : ℕ) (o : Option ℕ) → now + timeout_ms (delay o now) ≡ due_at now o
delay-due_at now none = omega arith
delay-due_at now (some at) = ground arith

dispatch-handed :
    (started : Bool) (payload : Payload) (done : List Payload)
    → dispatch started payload done ≡ handed started payload done
dispatch-handed false payload done = refl
dispatch-handed true (run_continue a) done = ground arith
dispatch-handed true (routine_wakeup a n) done = ground arith
dispatch-handed true (computer_sleep a) done = ground arith
dispatch-handed true (computer_control_expire a b) done = ground arith
dispatch-handed true (skill_teaching_expire a) done = ground arith
dispatch-handed true (history_compact a) done = ground arith

text_is-truthy :
    (key : String) (o : Option String)
    → (not (is_empty key) && text_is o key) ≡ text_is (truthy o) key
text_is-truthy key none = ground arith
text_is-truthy key (some k) =
    let self : str_eq k k ≡ true = (eq_iff k k).1 refl in
    elim (Bool-cases (str_eq k key)) [
      | inl same ↦ elim (Bool-cases (is_empty k)) [
        | inl empty ↦ rw (same, ← ((eq_iff k key).0 same), empty) refl
        | inr not_empty ↦ rw (← ((eq_iff k key).0 same), not_empty, self) refl
      ]
      | inr differs ↦ elim (Bool-cases (is_empty k)) [
        | inl empty ↦ rw (differs, empty) (ground arith)
        | inr not_empty ↦ rw (differs, not_empty) (ground (arith, differs))
      ]
    ]

bears_key-has_key : (key : String) (t : Timer) → bears_key key t ≡ has_key key t
bears_key-has_key key t = text_is-truthy key t.job.replace_key

unless_key-empty : (key : String) (o : Option Timer) → is_empty key ≡ true → o ≡ unless_key key o
unless_key-empty key none e = refl
unless_key-empty key (some t) e = rw e refl

without-truthy :
    (o : Option String) (jobs : ℕ → Option Timer) (n : ℕ)
    → without (truthy o) jobs n ≡ without o jobs n
without-truthy none jobs n = refl
without-truthy (some k) jobs n = elim (Bool-cases (is_empty k)) [
  | inl empty ↦ rw empty (unless_key-empty k (jobs n) empty)
  | inr not_empty ↦ rw not_empty refl
]

schedule_of-if :
    (b : Bool) (x y : Queue)
    → schedule_of (if b then x else y) ≡ (if b then schedule_of x else schedule_of y)
schedule_of-if true x y = refl
schedule_of-if false x y = refl

abbrev with_jobs : Queue → (ℕ → Option Timer) → Schedule
with_jobs q jobs = record (schedule_of q) { jobs = jobs }

unless_key-out :
    (key : String) (o : Option Timer)
    → ((t : Timer) → o ≡ some t → has_key key t ≡ false)
    → o ≡ unless_key key o
unless_key-out key none h = refl
unless_key-out key (some t) h = rw (bears_key-has_key key t ∙ h t refl) refl

unless_key-in :
    (key : String) (o : Option Timer)
    → ((t : Timer) → o ≡ some t → has_key key t ≡ true)
    → none ≡ unless_key key o
unless_key-in key none h = refl
unless_key-in key (some t) h = rw (bears_key-has_key key t ∙ h t refl) refl

module _ (key : String) (q : Queue) (c : IsCoupled q) where
  cleared-jobs :
      (t : Timer)
      → In t q.pending
      → has_key key t ≡ true
      → (n : ℕ)
      → find_where (is_timer n) (clear_timeout t.id q.pending)
        ≡ unless_key key (find_where (is_timer n) q.pending)
  cleared-jobs t i e n = find_where-clear n t.id q.pending ∙ elim (Bool-cases (n == t.id)) [
    | inl same ↦ rw same (
        unless_key-in key (find_where (is_timer n) q.pending) (λ x found.
          let (j, k) = find_where-In (is_timer n) q.pending found in
          let is_it = its_timer q c t i x j (rw (← ((==_iff n t.id).0 same)) k) in
          subst (λ (y : Timer). has_key key y ≡ true) (sym is_it) e))
    | inr differs ↦ rw differs (
        unless_key-out key (find_where (is_timer n) q.pending) (λ x found.
          let (j, k) = find_where-In (is_timer n) q.pending found in
          elim (Bool-cases (has_key key x)) [
            | inr out ↦ out
            | inl hit ↦
                let same_one =
                  ap (λ (y : Timer). y.id)
                    (its_key q c t i key (text_is-some (key_of t.job) key e) x j hit) in
                absurd (ground (arith, same_one))
          ]))
  ]

  cancel-schedule :
      schedule_of (cancel key q)
      ≡ with_jobs q (λ n. unless_key key (find_where (is_timer n) q.pending))
  cancel-schedule = elim (cancel-cases key q c) [
    | inl (same, nothing) ↦
        ap schedule_of same
        ∙ ap (with_jobs q) (
            fun_ext (λ n. unless_key-out key (find_where (is_timer n) q.pending) (λ x found.
              find_where-none (has_key key) q.pending nothing
                (find_where-In (is_timer n) q.pending found).0)))
    | inr (t, i, e, same) ↦ ap schedule_of same ∙ ap (with_jobs q) (fun_ext (cleared-jobs t i e))
  ]

cancel_if-schedule :
    (o : Option String) (q : Queue)
    → IsCoupled q
    → schedule_of (cancel_if o q) ≡ with_jobs q (without o (λ n. find_where (is_timer n) q.pending))
cancel_if-schedule none q c = refl
cancel_if-schedule (some key) q c = cancel-schedule key q c

-- A job that is added to a schedule.
abbrev added : ℕ → BackgroundJob → Schedule → Schedule
added now job s = record s {
  jobs = λ n.
      if s.enqueued == n
      then some (record { id = s.enqueued; due = due_at now job.available_at; job = job })
      else s.jobs n;
  enqueued = suc s.enqueued;
}

schedule-added :
    (now : ℕ) (job : BackgroundJob) (q : Queue)
    → schedule_of (schedule now job q) ≡ added now job (schedule_of q)
schedule-added now job q = rw (delay-due_at now job.available_at) refl

enqueue-promised :
    (now : ℕ) (job : BackgroundJob) (q : Queue)
    → IsCoupled q
    → schedule_of (enqueue now job q) ≡ promised (enqueues now job) (schedule_of q)
unfolding enqueue promised
enqueue-promised now job q c =
    let jobs = λ (n : ℕ). find_where (is_timer n) q.pending in
    let s = λ (o : Schedule). if q.closed then schedule_of q else o in
    schedule_of-if q.closed q (schedule now job (cancel_if (key_of job) q))
    ∙ ap s (
        schedule-added now job (cancel_if (key_of job) q)
        ∙ ap (added now job) (
            cancel_if-schedule (key_of job) q c
            ∙ ap (with_jobs q) (fun_ext (without-truthy job.replace_key jobs))))

fire-promised :
    (now id : ℕ) (q : Queue) (o : Option Timer)
    → schedule_of (fire_found now id o q) ≡ promised_fire now id o (schedule_of q)
fire-promised now id q none = refl
fire-promised now id q (some t) =
    let fired = λ (jobs : ℕ → Option Timer) (done : List Payload).
      if leb t.due now
      then record (schedule_of q) { jobs = jobs; dispatched = done }
      else schedule_of q in
    let left = λ (n : ℕ). if n == id then none else find_where (is_timer n) q.pending in
    schedule_of-if (leb t.due now) _ q
    ∙ ap (λ (jobs : ℕ → Option Timer). fired jobs (dispatch q.started t.job.payload q.dispatched))
        (fun_ext (λ n. find_where-clear n id q.pending))
    ∙ ap (fired left) (dispatch-handed q.started t.job.payload q.dispatched)

stop-promised : (q : Queue) → IsCoupled q → schedule_of (stop q) ≡ promised_stop (schedule_of q)
unfolding stop
stop-promised q c =
    ap
      (λ (ts : List Timer). record (schedule_of q) {
        jobs = λ n. find_where (is_timer n) ts;
        started = false;
      })
      (stop-empties q c)

close-promised : (q : Queue) → IsCoupled q → schedule_of (close q) ≡ promised closes (schedule_of q)
unfolding close promised
close-promised q c =
    schedule_of-if q.closed q (stop (record q { closed = true }))
    ∙ ap (λ s. if q.closed then schedule_of q else s)
        (stop-promised (record q { closed = true }) (IsCoupled-of q q.started true c))

step-promised :
    (op : Op) (q : Queue) → IsCoupled q → schedule_of (step op q) ≡ promised op (schedule_of q)
unfolding step promised start fire
step-promised (enqueues now job) q c = enqueue-promised now job q c
step-promised (cancels key) q c = cancel-schedule key q c
step-promised (fires now id) q c = fire-promised now id q (find_where (is_timer id) q.pending)
step-promised starts q c = refl
step-promised stops q c = stop-promised q c
step-promised closes q c = close-promised q c

run-promised :
    (ops : List Op) (q : Queue)
    → IsCoupled q
    → schedule_of (run ops q) ≡ promised_run ops (schedule_of q)
unfolding run promised_run
run-promised [] q c = refl
run-promised (op ∷ ops) q c =
    run-promised ops (step op q) (step-IsCoupled op q c)
    ∙ ap (promised_run ops) (step-promised op q c)

-- After any sequence of calls and firings from an empty queue, in which no call begins while an
-- `enqueue` waits, the queue stands for the schedule that the same sequence promises: an enqueued job
-- replaces every scheduled job with its key, where the empty text is no key, and is due at its time, or
-- a millisecond later than now if that is not in the future or further off than a timer of the runtime
-- can wait; a cancellation takes away the jobs with its key; a firing hands a job that is due to its
-- handler, if there are handlers and no identifier in it is empty, and the same job never again; a stop
-- takes all away; and a closed queue takes no job.
pub run-refines :
    (ops : List Op) → schedule_of (run ops empty_queue) ≡ promised_run ops (schedule_of empty_queue)
run-refines ops = run-promised ops empty_queue empty_queue-IsCoupled

-- ===== src/Tests/Queueing.antt =====
-- The theorems on the job queue, and a run of it.
use grok_bot_v.Prelude.{◌≡◌, refl, List, [], ◌∷◌, count_where}
use grok_bot_v.JobQueue.{
  Queue, empty_queue, run_continue_job, computer_sleep_job, routine_wakeup_job, routine_wakeup,
  run_continue, key_of, cancel_if, cancel, schedule, enqueue, start, fire,
}
use grok_bot_v.JobQueue.Schedule.{
  Op, enqueues, cancels, fires, starts, run, step, promised_run, schedule_of,
}
use grok_bot_v.JobQueue.Coupling.{IsCoupled, has_key}
use grok_bot_v.JobQueue.Keeps.{run-IsCoupled}
use grok_bot_v.JobQueue.Refines.{run-refines}

abbrev the_calls : List Op
the_calls =
    starts
    ∷ enqueues 5 (run_continue_job "a")
    ∷ enqueues 6 (computer_sleep_job "c" 90)
    ∷ enqueues 7 (run_continue_job "a")
    ∷ fires 8 0
    ∷ fires 8 2
    ∷ cancels "computer.sleep:c"
    ∷ []

-- The first job for the run was replaced, and its timer does not fire.
the_run : (run the_calls empty_queue).dispatched ≡ run_continue "a" ∷ []
unfolding run step enqueue start fire cancel
the_run = refl

abbrev far_off : List Op
far_off = starts ∷ enqueues 5 (routine_wakeup_job "r" 3_000_000_000) ∷ fires 6 0 ∷ []

-- A job that is further off than a timer can wait runs at once.
runs_too_soon : (run far_off empty_queue).dispatched ≡ routine_wakeup "r" 3_000_000_000 ∷ []
unfolding run step enqueue start fire cancel
runs_too_soon = refl

run-IsCoupled_example : IsCoupled (run the_calls empty_queue)
run-IsCoupled_example = run-IsCoupled the_calls

run-refines_example :
    schedule_of (run the_calls empty_queue) ≡ promised_run the_calls (schedule_of empty_queue)
run-refines_example = run-refines the_calls

-- Two calls of `enqueue` with one key, the second of which begins while the first waits for its
-- cancellation: both timers are left.
overlapping : Queue
overlapping =
    let a = run_continue_job "a" in
    schedule 5 a (schedule 5 a (cancel_if (key_of a) (cancel_if (key_of a) empty_queue)))

overlapping_twice : count_where (has_key "run:a") overlapping.pending ≡ 2
unfolding overlapping cancel
overlapping_twice = refl

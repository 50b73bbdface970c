-- ===== src/Reconciler/Liveness.antt =====
-- A run that stays due gets its job.
use mathlib.Core.Path.{subst}
use grok_bot_v.Prelude.{
  ℕ, suc, ◌*◌, ◌<◌, ◌≡◌, refl, sym, ap, ◌∙◌, Bool, true, Option, some, List, [], ◌∷◌, ◌++◌, map,
  if◌then◌else◌, keep, length, All, In, In-append_left, In-append_right, In-append, In-map_of, inl,
  inr, arith,
}
use grok_bot_v.Reconciler.Keys.{Key}
use grok_bot_v.Reconciler.Scan.{after_cursor, scan_rows, next_cursor}
use grok_bot_v.Reconciler.Progress.{scan_all, count_where-le_length}
use grok_bot_v.Reconciler.Reach.{OneEach, reach}
use grok_bot_v.Reconciler.{
  RunRow, Found, Job, run_continue, run_key, run_due, run_job, State, all_accepted, reconcile_once,
  jobs_of_pass, moved_on, scan_deadline, found_runs, found_routines, found_controls, routine_jobs,
  control_jobs,
}

-- The time of a pass, and the tables that it finds.
pub record At : Type 0 where
  pub now : ℕ
  pub found : Found

abbrev pub always : Job → Bool
always j = true

-- The jobs of the passes of a leader whose jobs the queue takes.
pub passes : ℕ → State → List At → List Job
passes size s [] = []
passes size s (at ∷ later) =
    let passed = reconcile_once true size always at.now at.found s in
    passed.jobs ++ passes size passed.state later

-- The run is in the table of runs at each pass as it was at the first, and due.
abbrev pub StaysDue : List RunRow → RunRow → At → Type 0
StaysDue rows r at = (at.found.runs ≡ rows) × (run_due at.now r ≡ true)

all_accepted-always : (js : List Job) → all_accepted always js ≡ true
all_accepted-always [] = refl
all_accepted-always (j ∷ js) = all_accepted-always js

keep-always : (js : List Job) → keep always js ≡ js
keep-always [] = refl
keep-always (j ∷ js) = ap (λ l. j ∷ l) (keep-always js)

moves : (js : List Job) (x y : State) → (if all_accepted always js then x else y) ≡ x
moves js x y = rw (all_accepted-always js) refl

In-keep-always : (js : List Job) {j : Job} → In j js → In j (keep always js)
In-keep-always js {j} i = subst (In j) (sym (keep-always js)) i

pass_cursor :
    (size : ℕ) (now : ℕ) (found : Found) (s : State)
    → ((reconcile_once true size always now found s).state).run_cursor
      ≡ next_cursor run_key size (scan_rows run_key size (run_due now) s.run_cursor found.runs)
unfolding reconcile_once
pass_cursor size now found s =
    ap (λ (t : State). t.run_cursor)
      (moves (jobs_of_pass size now found s) (moved_on size now found s)
        (record s { control_scan_deadline = some (scan_deadline now s) }))

pass_jobs :
    (size : ℕ) (now : ℕ) (found : Found) (s : State) {r : RunRow}
    → In r (scan_rows run_key size (run_due now) s.run_cursor found.runs)
    → In (run_continue r.id) ((reconcile_once true size always now found s).jobs)
unfolding reconcile_once
pass_jobs size now found s {r} i = In-keep-always (jobs_of_pass size now found s) (
    In-append_left
      (routine_jobs (found_routines size now found s)
        ++ control_jobs now (found_controls size now found s))
      (In-map_of run_job (found_runs size now found s) i))

abbrev due_at : At → RunRow → Bool
due_at at = run_due at.now

passes-In :
    (size : ℕ) (rows : List RunRow) (r : RunRow) (s : State) (ats : List At)
    → All (StaysDue rows r) ats
    → In r (scan_all run_key size rows s.run_cursor (map due_at ats))
    → In (run_continue r.id) (passes size s ats)
unfolding passes scan_all
passes-In size rows r s [] stays i = elim i [ ]
passes-In size rows r s (at ∷ later) stays i =
    let batch = scan_rows run_key size (run_due at.now) s.run_cursor rows in
    let passed = reconcile_once true size always at.now at.found s in
    let same = stays.0.0 in
    elim (In-append batch
      (scan_all run_key size rows (next_cursor run_key size batch) (map due_at later)) i) [
        | inl now ↦ In-append_left (passes size passed.state later) (
            pass_jobs size at.now at.found s (
              subst
                (λ (l : List RunRow). In r (scan_rows run_key size (run_due at.now) s.run_cursor l))
                (sym same) now))
        | inr after ↦
            let moved =
              pass_cursor size at.now at.found s
              ∙ ap
                  (λ (l : List RunRow).
                    next_cursor run_key size
                      (scan_rows run_key size (run_due at.now) s.run_cursor l))
                  same in
            In-append_right passed.jobs (
              passes-In size rows r passed.state later stays.1 (
                subst (λ (c : Option Key). In r (scan_all run_key size rows c (map due_at later)))
                  (sym moved) after))
      ]

All-run_due :
    (rows : List RunRow) (r : RunRow) (ats : List At)
    → All (StaysDue rows r) ats
    → All (λ (due : RunRow → Bool). due r ≡ true) (map due_at ats)
All-run_due rows r [] stays = tt
All-run_due rows r (at ∷ later) stays = (stays.0.1, All-run_due rows r later stays.1)

length-map_due : (ats : List At) → length (map due_at ats) ≡ length ats
length-map_due [] = refl
length-map_due (at ∷ later) = ap suc (length-map_due later)

-- From any state of the leader, with batches of at least one row and no two runs with one identifier:
-- a run that is due at each of a number of passes, more than twice the number of runs, has its job
-- enqueued by one of them, if the table of runs stays as it is meanwhile and the queue takes the jobs;
-- wherever the cursor of the runs stands, and whatever else is due.
pub passes-reach :
    (size : ℕ) (rows : List RunRow) (r : RunRow) (s : State) (ats : List At)
    → 0 < size
    → OneEach run_key rows
    → In r rows
    → All (StaysDue rows r) ats
    → 2 * length rows < length ats
    → In (run_continue r.id) (passes size s ats)
passes-reach size rows r s ats pos one i stays enough = passes-In size rows r s ats stays (
    reach run_key size rows r pos one i s.run_cursor (map due_at ats) (All-run_due rows r ats stays)
      (omega (
        arith,
        enough,
        length-map_due ats,
        count_where-le_length run_key (after_cursor run_key s.run_cursor) rows,
      )))

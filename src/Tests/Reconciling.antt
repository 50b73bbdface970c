-- ===== src/Tests/Reconciling.antt =====
-- The theorem on the reconciler, at three runs.
use grok_bot_v.Prelude.{
  ℕ, refl, none, some, List, [], ◌∷◌, ◌==◌, In, here, there, NoClash-eq, ==_iff, arith,
}
use grok_bot_v.RunState.{queued, leased}
use grok_bot_v.Reconciler.{RunRow, run_continue, run_key, State, started}
use grok_bot_v.Reconciler.Reach.{OneEach}
use grok_bot_v.Reconciler.Liveness.{At, passes, passes-reach}

abbrev waiting : RunRow
waiting = record { id = 3; status = queued; lease_expires_at = none; updated_at = 40 }

abbrev the_runs : List RunRow
the_runs =
    record { id = 1; status = queued; lease_expires_at = none; updated_at = 70 }
    ∷ record { id = 2; status = leased; lease_expires_at = some 90; updated_at = 20 }
    ∷ waiting
    ∷ []

abbrev at_time : ℕ → At
at_time now = record { now = now; found = record { runs = the_runs; routines = []; controls = [] } }

-- The cursor stands beyond the run that waits.
abbrev far_on : State
far_on = record started { run_cursor = some (record { at = some 50; id = 9 }) }

one_each : OneEach run_key the_runs
one_each a b i j e =
    NoClash-eq (λ (a b : RunRow). a.id == b.id) (λ a b. ground arith) the_runs
      (refl, (refl, (refl, tt))) i j ((==_iff a.id b.id).1 e)

abbrev the_passes : List At
the_passes =
    at_time 80 ∷ at_time 81 ∷ at_time 82 ∷ at_time 83 ∷ at_time 84 ∷ at_time 100 ∷ at_time 101 ∷ []

passes-reach_example : In (run_continue 3) (passes 1 far_on the_passes)
passes-reach_example =
    passes-reach 1 the_runs waiting far_on the_passes (omega arith) one_each
      (there (there (here refl)))
      (
        (refl, refl),
        (
          (refl, refl),
          ((refl, refl), ((refl, refl), ((refl, refl), ((refl, refl), ((refl, refl), tt))))),
        ),
      )
      (omega arith)

-- ===== src/Tests/Workers.antt =====
-- The theorems on leases, claims and effects at the sample data.
use grok_bot_v.Prelude.{
  ◌≡◌, ◌≤◌, refl, true, false, none, some, List, [], ◌∷◌, arith, here, count_where,
}
use grok_bot_v.RunState.{running}
use grok_bot_v.Store.Schema.{EffectResult}
use grok_bot_v.Samples.{the_db, the_server}
use grok_bot_v.Computers.Effects.{ExpectedStatus}
use grok_bot_v.Computers.Effects.Once.{
  EffectCall, claim_approved, claim_intended, complete, wins, claims-once,
}
use grok_bot_v.Computers.Claims.{claim_run, start_leased_run, held_by, computer_retry_delay}
use grok_bot_v.Computers.Claims.Fences.{LosesRun, claim_run-fences_out, computer_retry_delay-bounds}
use grok_bot_v.Computers.Leases.{AcquireInput}
use grok_bot_v.Computers.Control.{World, Outside, expire_computer_control}
use grok_bot_v.Computers.Control.Expiry.{Spared, expire_computer_control-spares}
use grok_bot_v.Samples.{the_computer}

-- Two workers claim the approved effect, and one of them completes it.
abbrev effect_calls : List EffectCall
effect_calls =
    claim_approved 8
    ∷ claim_approved 8
    ∷ complete 8 ExpectedStatus.executing (EffectResult.returned "sent")
    ∷ claim_intended 8
    ∷ []

claims-once_example : wins 8 effect_calls the_db ≤ 1
claims-once_example = claims-once 8 effect_calls the_db (omega arith)

-- The same worker, under its old fence, is out too.
claim_run-fences_out_example :
    let db' = (claim_run 200 3 7 3 the_db).1 in
    let started = start_leased_run 210 3 7 3 (some 10) db' in
    (started.0 ≡ true)
    × (count_where (held_by running 3 7 3) ((started.1).runs) ≡ 1)
    × LosesRun 210 3 7 2 none db'
    × LosesRun 210 3 7 2 none started.1
unfolding claim_run
claim_run-fences_out_example =
    claim_run-fences_out 200 210 3 7 7 3 2 (some 10) none the_db (omega arith) (omega arith) refl

computer_retry_delay-bounds_example :
    (250 ≤ computer_retry_delay 9) × (computer_retry_delay 9 ≤ 8_000)
computer_retry_delay-bounds_example = computer_retry_delay-bounds 9

abbrev acquire_input : AcquireInput
acquire_input = record { computer_id = 6; run_id = 11; bot_id = 2; resume_held_lease = false }

abbrev the_world : World
the_world = record { server = the_server; jobs = [] }

abbrev outside : Outside
outside = record { revokes = true; accepts = true }

expire_computer_control-spares_example :
    Spared the_computer (expire_computer_control (λ w. w) outside 31 200 6 60 the_world)
expire_computer_control-spares_example =
    expire_computer_control-spares the_computer outside 31 200 6 60 the_world (refl, tt) (here refl)
      refl

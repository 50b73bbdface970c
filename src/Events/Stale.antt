-- ===== src/Events/Stale.antt =====
-- What the operations of packages/db/src/events.ts do for a worker that no longer holds the lease, as
-- packages/adapters/src/executor.ts gives it out.
use grok_bot_v.Prelude.{
  ℕ, String, ◌≡◌, ◌≤◌, ◌<◌, ◌∙◌, ◌==◌, refl, Bool, true, Option, none, some, List, arith,
  count_where, count_where-none, update_where-none, Bool-cases, inl, inr,
}
use grok_bot_v.Store.Blocks.{RowId, MessageBlock}
use grok_bot_v.Store.Schema.{Db, Run}
use grok_bot_v.Store.Tx.{ok, ◌>>=◌, pure, update_many}
use grok_bot_v.History.Keeps.{writable}
use grok_bot_v.Events.Consistent.{may_write_lem}
use grok_bot_v.Events.Pause.{
  PauseRun, PauseIds, leased_run, pause_for_input_in_transaction, pause_for_takeover_in_transaction,
  wait_for_input, wait_for_takeover,
}
use grok_bot_v.Events.Finalize.{
  FinalizeIds, FinalizeRunInput, held_run, end_run, finalize_in_transaction,
}
use grok_bot_v.Computers.Claims.{claim_run, start_leased_run}
use grok_bot_v.Computers.Claims.Fences.{IsFenced, claim_run-started}

-- An update that meets no run.
update-none :
    (p : Run → Bool) (f : Run → Run) (db : Db)
    → count_where p db.runs ≡ 0
    → update_many grok_bot_v.Store.Tables.runs p f db ≡ ok (0, db)
unfolding update_many
update-none p f db e = rw (e, update_where-none p f db.runs e)

-- The three transactions in which a worker pauses or ends a run return null and change nothing.
abbrev pub TurnsAway :
    ℕ
    → PauseRun
    → PauseIds
    → List MessageBlock
    → String
    → RowId
    → FinalizeRunInput
    → FinalizeIds
    → Db
    → Type 0
TurnsAway now pause pause_ids blocks reason event_id end end_ids db =
    (pause_for_input_in_transaction now pause_ids pause blocks db ≡ ok (none, db))
    × (pause_for_takeover_in_transaction now event_id pause reason db ≡ ok (none, db))
    × (finalize_in_transaction now end_ids end db ≡ ok (none, db))

none_held :
    (run_id : RowId) (fence old : ℕ) (p : Run → Bool) (rs : List Run)
    → ((r : Run) → p r ≡ true → (r.id ≡ run_id) × (r.lease_fence ≡ old))
    → IsFenced run_id fence rs
    → old < fence
    → count_where p rs ≡ 0
none_held run_id fence old p rs reads h lt = count_where-none p rs (λ r i. elim (Bool-cases (p r)) [
  | inl hit ↦ let (same, is) = reads r hit in absurd (omega (arith, h r i same, is, lt))
  | inr miss ↦ miss
])

IsFenced-TurnsAway :
    (fence now : ℕ) (db : Db) (pause : PauseRun) (pause_ids : PauseIds) (blocks : List MessageBlock)
    (reason : String) (event_id : RowId) (end : FinalizeRunInput) (end_ids : FinalizeIds)
    → IsFenced pause.run_id fence db.runs
    → IsFenced end.run_id fence db.runs
    → pause.lease_fence < fence
    → end.lease_fence < fence
    → TurnsAway now pause pause_ids blocks reason event_id end end_ids db
unfolding pause_for_input_in_transaction pause_for_takeover_in_transaction finalize_in_transaction
    ◌>>=◌ pure
IsFenced-TurnsAway fence now db pause pause_ids blocks reason event_id end end_ids h k lt lt' =
    let p =
      none_held pause.run_id fence pause.lease_fence (leased_run pause) db.runs
        (λ r hit. (ground arith, ground arith)) h lt in
    let q =
      none_held end.run_id fence end.lease_fence (held_run end) db.runs
        (λ r hit. (ground arith, ground arith)) k lt' in
    (
      rw (update-none (leased_run pause) wait_for_input db p) refl,
      rw (update-none (leased_run pause) wait_for_takeover db p) refl,
      rw (may_write_lem end.run_id db) (elim (Bool-cases (writable (some end.run_id) db.runs)) [
        | inl may ↦ rw (may, update-none (held_run end) (end_run now end.outcome) db q) refl
        | inr may_not ↦ rw may_not refl
      ]),
    )

-- Once another claim of a run has succeeded under a higher fence, where at most one run has the
-- identifier, a worker that held the run under a lower fence, be it the same worker, can neither pause
-- the run, for input or for a takeover, nor end it: each of the three transactions returns null and
-- changes nothing, before the new holder starts the run and after it, when the run is running.
pub stale_worker-refused :
    (claimed_at started_now now : ℕ) (worker_id : RowId) (fence : ℕ) (started_at : Option ℕ)
    (db : Db) (pause : PauseRun) (pause_ids : PauseIds) (blocks : List MessageBlock)
    (reason : String) (event_id : RowId) (end : FinalizeRunInput) (end_ids : FinalizeIds)
    → count_where (λ r. r.id == pause.run_id) db.runs ≤ 1
    → (claim_run claimed_at pause.run_id worker_id fence db).0 ≡ true
    → end.run_id ≡ pause.run_id
    → pause.lease_fence < fence
    → end.lease_fence < fence
    → let db' = (claim_run claimed_at pause.run_id worker_id fence db).1 in
      let started = start_leased_run started_now pause.run_id worker_id fence started_at db' in
      (started.0 ≡ true)
      × TurnsAway now pause pause_ids blocks reason event_id end end_ids db'
      × TurnsAway now pause pause_ids blocks reason event_id end end_ids started.1
stale_worker-refused claimed_at started_now now worker_id fence started_at db pause pause_ids blocks
      reason event_id end end_ids one won same lt lt' =
    let db' = (claim_run claimed_at pause.run_id worker_id fence db).1 in
    let started = start_leased_run started_now pause.run_id worker_id fence started_at db' in
    let (claimed, under_way, starts, holds) =
      claim_run-started claimed_at started_now pause.run_id worker_id fence started_at db one won in
    (
      starts,
      IsFenced-TurnsAway fence now db' pause pause_ids blocks reason event_id end end_ids claimed
          (λ r i e. claimed r i (e ∙ same)) lt lt',
      IsFenced-TurnsAway fence now started.1 pause pause_ids blocks reason event_id end end_ids
          under_way (λ r i e. under_way r i (e ∙ same)) lt lt',
    )

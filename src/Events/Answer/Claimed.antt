-- ===== src/Events/Answer/Claimed.antt =====
-- An answer to a run that a worker has claimed meanwhile: the claim takes runs that wait for input.
use grok_bot_v.Prelude.{
  ℕ, ◌≤◌, ◌≡◌, ◌==◌, refl, Bool, true, false, Option, none, List, arith, count_where, In,
  In-update_where, update_where, find_where, find_where-In, Option-cases, Bool-cases, inl, inr,
}
use grok_bot_v.RunState.{is_status, waiting_input, leased}
use grok_bot_v.Store.Blocks.{RowId}
use grok_bot_v.Store.Schema.{Db, Run}
use grok_bot_v.Store.Tx.{ok, ◌>>=◌, pure, find_first}
use grok_bot_v.Computers.Claims.{
  claimable, lease_run, held_by, start_run, claim_run, start_leased_run,
}
use grok_bot_v.Computers.Claims.Fences.{claimable-all, claimable-met, claim_run-started}
use grok_bot_v.Events.Answer.{AnswerRunInput, waiting_run, answer_in_transaction}

-- No row of the run waits for input.
abbrev IsTaken : RowId → List Run → Type 0
IsTaken run_id rs = (r : Run) → In r rs → r.id ≡ run_id → is_status r.status waiting_input ≡ false

claimed-IsTaken :
    (now : ℕ) (run_id worker_id : RowId) (fence : ℕ) (rs : List Run)
    → count_where (claimable now run_id) rs ≡ count_where (λ r. r.id == run_id) rs
    → IsTaken run_id (update_where (claimable now run_id) (lease_run now worker_id fence) rs)
claimed-IsTaken now run_id worker_id fence rs all r i same =
    let (x, j, is) = In-update_where (claimable now run_id) (lease_run now worker_id fence) rs i in
    elim (Bool-cases (claimable now run_id x)) [
      | inl hit ↦ ground (arith, is)
      | inr miss ↦
          let at : x.id ≡ run_id = ground (arith, is) in
          absurd
            (ground (arith, claimable-all now run_id worker_id worker_id fence fence rs all j at))
    ]

started-IsTaken :
    (p : Run → Bool) (t : Option ℕ) (run_id : RowId) (rs : List Run)
    → IsTaken run_id rs
    → IsTaken run_id (update_where p (start_run t) rs)
started-IsTaken p t run_id rs h r i same =
    let (x, j, is) = In-update_where p (start_run t) rs i in
    let at : x.id ≡ run_id = ground (arith, is) in ground (arith, is, h x j at)

IsTaken-refuses :
    (id : RowId) (input : AnswerRunInput) (db : Db)
    → IsTaken input.run_id db.runs
    → answer_in_transaction id input db ≡ ok (none, db)
unfolding answer_in_transaction ◌>>=◌ find_first pure
IsTaken-refuses id input db h = elim (Option-cases (find_where (waiting_run input) db.runs)) [
  | inl gone ↦ rw gone refl
  | inr (r, found) ↦
      let (i, hit) = find_where-In (waiting_run input) db.runs found in
      let same : r.id ≡ input.run_id = ground arith in absurd (ground (arith, h r i same))
]

-- Once a claim of a run has succeeded, where at most one run has the identifier, an answer to the run
-- is refused and changes nothing, before the worker starts the run and after it: also where the run
-- waited for input when it was claimed, and the message that asks is still there.
pub answer_in_transaction-claimed :
    (claimed_at started_now : ℕ) (worker_id : RowId) (fence : ℕ) (started_at : Option ℕ)
    (id : RowId) (input : AnswerRunInput) (db : Db)
    → count_where (λ r. r.id == input.run_id) db.runs ≤ 1
    → (claim_run claimed_at input.run_id worker_id fence db).0 ≡ true
    → let db' = (claim_run claimed_at input.run_id worker_id fence db).1 in
      let started = start_leased_run started_now input.run_id worker_id fence started_at db' in
      (answer_in_transaction id input db' ≡ ok (none, db'))
      × (started.0 ≡ true)
      × (answer_in_transaction id input started.1 ≡ ok (none, started.1))
unfolding claim_run start_leased_run
answer_in_transaction-claimed claimed_at started_now worker_id fence started_at id input db one
      won =
    let db' = (claim_run claimed_at input.run_id worker_id fence db).1 in
    let started = start_leased_run started_now input.run_id worker_id fence started_at db' in
    let taken =
      claimed-IsTaken claimed_at input.run_id worker_id fence db.runs
        (claimable-met claimed_at input.run_id worker_id fence db one won) in
    let (claimed, under_way, starts, holds) =
      claim_run-started claimed_at started_now input.run_id worker_id fence started_at db one won in
    (
      IsTaken-refuses id input db' taken,
      starts,
      IsTaken-refuses id input started.1 (
          started-IsTaken (held_by leased input.run_id worker_id fence) _ input.run_id db'.runs
            taken),
    )

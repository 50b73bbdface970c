-- ===== src/Computers/Claims/Fences.antt =====
-- What the claim of a run means for those that held it before.
use grok_bot_v.Prelude.{
  ℕ, ◌-◌, ◌^◌, ◌≤◌, ◌<◌, ◌≡◌, refl, ◌∙◌, Bool, true, false, Option, none, List, [], ◌∷◌, arith,
  ◌==◌, count_where, update_where, update_where-none, In, In-cons, In-update_where,
  count_where-none, Bool-cases, inl, inr, min, zero, suc,
}
use grok_bot_v.RunState.{running, leased}
use grok_bot_v.Store.Blocks.{RowId}
use grok_bot_v.Store.Schema.{Db, Run, Checkpoint}
use grok_bot_v.Computers.Claims.{
  start_run, started_at_or, start_leased_run, claimable, lease_run, held_by, claim_run,
  renew_run_lease, requeue_computer_run, computer_retry_delay, update_runs,
  computer_run_requeue_data,
}

small_power : (k : ℕ) → k ≤ 5 → (1 ≤ 2 ^ k) × (2 ^ k ≤ 32)
small_power zero h = (omega arith, omega arith)
small_power (suc zero) h = (omega arith, omega arith)
small_power (suc (suc zero)) h = (omega arith, omega arith)
small_power (suc (suc (suc zero))) h = (omega arith, omega arith)
small_power (suc (suc (suc (suc zero)))) h = (omega arith, omega arith)
small_power (suc (suc (suc (suc (suc zero))))) h = (omega arith, omega arith)
small_power (suc (suc (suc (suc (suc (suc k)))))) h = omega arith

-- The delay of a retry is between a quarter of a second and eight seconds, so that its cap of ten
-- seconds is never met.
pub computer_retry_delay-bounds :
    (fence : ℕ) → (250 ≤ computer_retry_delay fence) × (computer_retry_delay fence ≤ 8_000)
unfolding computer_retry_delay
computer_retry_delay-bounds fence =
    let (low, high) = small_power (min (fence - 1) 5) (omega arith) in (omega arith, omega arith)

module _ (now : ℕ) (run_id worker_id other : RowId) (fence old : ℕ) where
  claimable-le :
      (rs : List Run) → count_where (claimable now run_id) rs ≤ count_where (λ r. r.id == run_id) rs
  claimable-le [] = ground arith
  claimable-le (r ∷ rs) = ground (arith, claimable-le rs)

  pub claimable-all :
      (rs : List Run) {r : Run}
      → count_where (claimable now run_id) rs ≡ count_where (λ r. r.id == run_id) rs
      → In r rs
      → r.id ≡ run_id
      → claimable now run_id r ≡ true
  claimable-all [] all i same = elim i [ ]
  claimable-all (x ∷ xs) {r} all i same = elim (Bool-cases (claimable now run_id x)) [
    | inl hit ↦ elim (In-cons i) [
      | inl is ↦ rw (← is) hit
      | inr later ↦ claimable-all xs (ground (arith, claimable-le xs)) later same
    ]
    | inr miss ↦ elim (In-cons i) [
      | inl is ↦ absurd (ground (arith, claimable-le xs, is))
      | inr later ↦ claimable-all xs (ground (arith, claimable-le xs)) later same
    ]
  ]

  held-claimed :
      (rs : List Run)
      → count_where (claimable now run_id) rs ≡ count_where (λ r. r.id == run_id) rs
      → count_where
          (held_by leased run_id worker_id fence)
          (update_where (claimable now run_id) (lease_run now worker_id fence) rs)
        ≡ count_where (claimable now run_id) rs
  held-claimed [] all = refl
  held-claimed (r ∷ rs) all = elim (Bool-cases (r.id == run_id)) [
    | inl same ↦ elim (Bool-cases (claimable now run_id r)) [
      | inl hit ↦ ground (arith, held-claimed rs (ground arith))
      | inr miss ↦ absurd (ground (arith, claimable-le rs))
    ]
    | inr differs ↦ ground (arith, held-claimed rs (ground arith))
  ]

  running-started :
      (t : Option ℕ) (rs : List Run)
      → count_where (claimable now run_id) rs ≡ count_where (λ r. r.id == run_id) rs
      → count_where (held_by running run_id worker_id fence) (
          update_where
            (held_by leased run_id worker_id fence)
            (start_run t)
            (update_where (claimable now run_id) (lease_run now worker_id fence) rs))
        ≡ count_where (claimable now run_id) rs
  running-started t [] all = refl
  running-started t (r ∷ rs) all = elim (Bool-cases (r.id == run_id)) [
    | inl same ↦ elim (Bool-cases (claimable now run_id r)) [
      | inl hit ↦ ground (arith, running-started t rs (ground arith))
      | inr miss ↦ absurd (ground (arith, claimable-le rs))
    ]
    | inr differs ↦ ground (arith, running-started t rs (ground arith))
  ]

-- Every row of the run bears the fence.
abbrev pub IsFenced : RowId → ℕ → List Run → Type 0
IsFenced run_id fence rs = (r : Run) → In r rs → r.id ≡ run_id → r.lease_fence ≡ fence

claimed-IsFenced :
    (now : ℕ) (run_id worker_id : RowId) (fence : ℕ) (rs : List Run)
    → count_where (claimable now run_id) rs ≡ count_where (λ r. r.id == run_id) rs
    → IsFenced run_id fence (update_where (claimable now run_id) (lease_run now worker_id fence) rs)
claimed-IsFenced now run_id worker_id fence rs all r i same =
    let (x, j, is) = In-update_where (claimable now run_id) (lease_run now worker_id fence) rs i in
    elim (Bool-cases (claimable now run_id x)) [
      | inl hit ↦ ground (arith, is)
      | inr miss ↦
          let at : x.id ≡ run_id = ground (arith, is) in
          absurd
            (ground (arith, claimable-all now run_id worker_id worker_id fence fence rs all j at))
    ]

started-IsFenced :
    (p : Run → Bool) (t : Option ℕ) (run_id : RowId) (fence : ℕ) (rs : List Run)
    → IsFenced run_id fence rs
    → IsFenced run_id fence (update_where p (start_run t) rs)
started-IsFenced p t run_id fence rs h r i same =
    let (x, j, is) = In-update_where p (start_run t) rs i in
    let at : x.id ≡ run_id = ground (arith, is) in ground (arith, is, h x j at)

-- An update that meets no run leaves the database.
update_runs-none :
    (p : Run → Bool) (f : Run → Run) (db : Db)
    → count_where p db.runs ≡ 0
    → update_runs p f db ≡ (false, db)
update_runs-none p f db e = rw (e, update_where-none p f db.runs e) refl

requeue-none :
    (run_id other : RowId) (old : ℕ) (checkpoint : Option Checkpoint) (db : Db)
    → count_where (held_by running run_id other old) db.runs ≡ 0
    → requeue_computer_run run_id other old checkpoint db ≡ (none, db)
unfolding requeue_computer_run
requeue-none run_id other old checkpoint db e =
    let same =
      update_where-none (held_by running run_id other old) (computer_run_requeue_data checkpoint)
        db.runs e in
    rw (e, same) refl

-- A holder under the fence can neither renew its lease nor queue the run again: both calls fail and
-- change nothing.
abbrev pub LosesRun : ℕ → RowId → RowId → ℕ → Option Checkpoint → Db → Type 0
LosesRun later run_id other old checkpoint db =
    (renew_run_lease later run_id other old db ≡ (false, db))
    × (requeue_computer_run run_id other old checkpoint db ≡ (none, db))

IsFenced-LosesRun :
    (later : ℕ) (run_id other : RowId) (fence old : ℕ) (checkpoint : Option Checkpoint) (db : Db)
    → IsFenced run_id fence db.runs
    → old < fence
    → LosesRun later run_id other old checkpoint db
unfolding renew_run_lease
IsFenced-LosesRun later run_id other fence old checkpoint db h lt =
    let empty = count_where-none (held_by running run_id other old) db.runs (λ r i.
      elim (Bool-cases (r.id == run_id)) [
        | inl same ↦ ground (arith, h r i (ground arith))
        | inr differs ↦ ground arith
      ]) in
    (
      update_runs-none (held_by running run_id other old) _ db empty,
      requeue-none run_id other old checkpoint db empty,
    )

-- A claim that succeeds meets every row of the run.
pub claimable-met :
    (now : ℕ) (run_id worker_id : RowId) (fence : ℕ) (db : Db)
    → count_where (λ r. r.id == run_id) db.runs ≤ 1
    → (claim_run now run_id worker_id fence db).0 ≡ true
    → count_where (claimable now run_id) db.runs ≡ count_where (λ r. r.id == run_id) db.runs
unfolding claim_run
claimable-met now run_id worker_id fence db one won =
    let met : count_where (claimable now run_id) db.runs ≡ 1 = ground arith in
    omega (arith, met, claimable-le now run_id worker_id worker_id fence fence db.runs, one)

-- The runs after a claim that succeeds, and after its start.
pub claim_run-started :
    (now later : ℕ) (run_id worker_id : RowId) (fence : ℕ) (started_at : Option ℕ) (db : Db)
    → count_where (λ r. r.id == run_id) db.runs ≤ 1
    → (claim_run now run_id worker_id fence db).0 ≡ true
    → let db' = (claim_run now run_id worker_id fence db).1 in
      let started = start_leased_run later run_id worker_id fence started_at db' in
      IsFenced run_id fence db'.runs
      × IsFenced run_id fence ((started.1).runs)
      × (started.0 ≡ true)
      × (count_where (held_by running run_id worker_id fence) ((started.1).runs) ≡ 1)
unfolding claim_run start_leased_run
claim_run-started now later run_id worker_id fence started_at db one won =
    let met : count_where (claimable now run_id) db.runs ≡ 1 = ground arith in
    let all = claimable-met now run_id worker_id fence db one won in
    let claimed = claimed-IsFenced now run_id worker_id fence db.runs all in
    let held = held-claimed now run_id worker_id worker_id fence fence db.runs all ∙ met in
    let t = started_at_or started_at later in
    (
      claimed,
      started-IsFenced (held_by leased run_id worker_id fence) t run_id fence
          (update_where (claimable now run_id) (lease_run now worker_id fence) db.runs) claimed,
      rw held refl,
      running-started now run_id worker_id worker_id fence fence t db.runs all ∙ met,
    )

-- If at most one run has the identifier and a claim of it succeeds, then the claimer's start of the
-- run succeeds, and after it the run is running under the claimer's lease; and after the claim as
-- after the start, whoever held the run under a smaller fence, the claimer itself included, can
-- neither renew its lease nor queue the run again: both calls fail and change nothing.
pub claim_run-fences_out :
    (now later : ℕ) (run_id worker_id other : RowId) (fence old : ℕ) (started_at : Option ℕ)
    (checkpoint : Option Checkpoint) (db : Db)
    → count_where (λ r. r.id == run_id) db.runs ≤ 1
    → old < fence
    → (claim_run now run_id worker_id fence db).0 ≡ true
    → let db' = (claim_run now run_id worker_id fence db).1 in
      let started = start_leased_run later run_id worker_id fence started_at db' in
      (started.0 ≡ true)
      × (count_where (held_by running run_id worker_id fence) ((started.1).runs) ≡ 1)
      × LosesRun later run_id other old checkpoint db'
      × LosesRun later run_id other old checkpoint started.1
claim_run-fences_out now later run_id worker_id other fence old started_at checkpoint db one lt
      won =
    let db' = (claim_run now run_id worker_id fence db).1 in
    let started = start_leased_run later run_id worker_id fence started_at db' in
    let (claimed, under_way, starts, holds) =
      claim_run-started now later run_id worker_id fence started_at db one won in
    (
      starts,
      holds,
      IsFenced-LosesRun later run_id other fence old checkpoint db' claimed lt,
      IsFenced-LosesRun later run_id other fence old checkpoint started.1 under_way lt,
    )

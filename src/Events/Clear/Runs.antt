-- ===== src/Events/Clear/Runs.antt =====
-- After `clearThread`: the runs of the thread.
use grok_bot_v.Prelude.{
  ℕ, ◌≡◌, refl, sym, ap, Bool, false, List, [], ◌∷◌, map, arith, In, keep, update_where, NoClash,
  NoClash-eq, Bool-cases, inl, inr, any-of, any-none, In-map, In-map_of, In-keep, In-keep_of, ◌==◌,
  ==_refl, ◌∙◌, update_where_congr, update_where_never,
}
use grok_bot_v.Store.Blocks.{RowId}
use grok_bot_v.Store.Schema.{Db, Run, Thread}
use grok_bot_v.Store.Tables.{threads}
use grok_bot_v.Store.Tx.{ok, find_many, update_many, update_one, ◌>>=◌, ◌>>◌, pure}
use grok_bot_v.Store.Tx.Keeps.{Keeps, keeps_rules, bind-eq-ok, ok-injective}
use grok_bot_v.Store.Tx.Returns.{Returns, returns_rules}
use grok_bot_v.History.Keeps.{Keeps-append_event_of}
use grok_bot_v.History.Log.{same_run}
use grok_bot_v.Events.Clear.{
  ClearThreadInput, ClearThreadResult, clear_thread_in_transaction, active_run, among, cancel_run,
  cancel_runs, clear_history, owned_thread,
}

module _ (P : List Run → Type 0) where
  Keeps-clear_history :
      (now : ℕ) (id : RowId) (input : ClearThreadInput) (thread : Thread) (ids : List RowId)
      → Keeps (λ d. P d.runs) (clear_history now id input thread ids)
  unfolding clear_history
  Keeps-clear_history now id input thread ids = search (keeps_rules, Keeps-append_event_of) depth 40

-- The runs that a clear cancels are those that it found, and no other with the same identifier.
among-active :
    (p : Run → Bool) (rs : List Run) (r : Run)
    → NoClash same_run rs
    → In r rs
    → among (map (λ x. x.id) (keep p rs)) r.id ≡ p r
among-active p rs r unique i = elim (Bool-cases (p r)) [
  | inl hit ↦
      any-of (λ x. x == r.id) _ (In-map_of (λ (x : Run). x.id) _ (In-keep_of p rs i hit))
        (==_refl r.id)
      ∙ sym hit
  | inr miss ↦
      any-none (λ x. x == r.id) _
        (λ y j.
          let (x, k, e) = In-map (λ (x : Run). x.id) (keep p rs) j in
          let (l, hit) = In-keep p rs k in
          elim (Bool-cases (y == r.id)) [
            | inl same ↦
                let eq = NoClash-eq same_run (λ a b. ground arith) rs unique l i (ground arith) in
                cc (eq, hit, miss)
            | inr differs ↦ differs
          ])
      ∙ sym miss
]

unread-runs :
    (input : ClearThreadInput) {rs : List Run}
    → Keeps
        (λ d. d.runs ≡ rs)
        (update_one threads (owned_thread input) (λ t. record t { unread = false }))
unread-runs input = search keeps_rules

runs-cancel_runs :
    (now : ℕ) (ids tasks : List RowId) (db : Db) {u : Unit {0}} {db' : Db}
    → cancel_runs now ids tasks db ≡ ok (u, db')
    → db'.runs ≡ update_where (λ r. among ids r.id) (cancel_run now) db.runs
unfolding cancel_runs ◌>>=◌ ◌>>◌ update_many pure
runs-cancel_runs now [] tasks db e =
    sym (ap (λ (d : Db). d.runs) (ok-injective e).1)
    ∙ sym (update_where_never (cancel_run now) db.runs)
runs-cancel_runs now (id ∷ ids) tasks db e = sym (ap (λ (d : Db). d.runs) (ok-injective e).1)

Returns-clear_history :
    (now : ℕ) (id : RowId) (input : ClearThreadInput) (thread : Thread) (ids : List RowId)
    → Returns
        (λ (r : ClearThreadResult). r.cancelled_run_ids ≡ ids)
        (clear_history now id input thread ids)
unfolding clear_history
Returns-clear_history now id input thread ids = search returns_rules depth 30

-- The runs after a clear, and the identifiers that it returns.
pub runs-clear_thread :
    (now : ℕ) (id : RowId) (input : ClearThreadInput) (db : Db) {r : ClearThreadResult} {db' : Db}
    → NoClash same_run db.runs
    → clear_thread_in_transaction now id input db ≡ ok (r, db')
    → (db'.runs ≡ update_where (active_run input) (cancel_run now) db.runs)
      × (r.cancelled_run_ids ≡ map (λ x. x.id) (keep (active_run input) db.runs))
unfolding clear_thread_in_transaction ◌>>=◌ ◌>>◌ find_many
runs-clear_thread now id input db {r} {db'} unique e =
    let (thread, db₁, first, e₁) = bind-eq-ok (update_one threads _ _ db) _ e in
    let p = active_run input in
    let same : db₁.runs ≡ db.runs = (unread-runs input).at db refl first in
    let ids = map (λ (x : Run). x.id) (keep p db₁.runs) in
    let tasks = map (λ (x : Run). x.task_id) (keep p db₁.runs) in
    let (u, db₂, second, e₂) = bind-eq-ok (cancel_runs now ids tasks db₁) _ e₁ in
    let kept : db'.runs ≡ db₂.runs =
      (Keeps-clear_history (λ rs. rs ≡ db₂.runs) now id input thread ids).at db₂ refl e₂ in
    let found = (Returns-clear_history now id input thread ids).at db₂ e₂ in
    let found' : r.cancelled_run_ids ≡ map (λ x. x.id) (keep p db.runs) =
      found ∙ ap (λ (rs : List Run). map (λ (x : Run). x.id) (keep p rs)) same in
    let done = runs-cancel_runs now ids tasks db₁ second in
    (
      kept
          ∙ done
          ∙ update_where_congr (λ x. among ids x.id) p (cancel_run now) db₁.runs
              (λ x i. among-active p db₁.runs x (rw same unique) i)
          ∙ ap (update_where p (cancel_run now)) same,
      found',
    )

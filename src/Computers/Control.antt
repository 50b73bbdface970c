-- ===== src/Computers/Control.antt =====
-- packages/adapters/src/computer-control.ts: the control of a computer's screen that a user takes
-- over, its lease, and the job that expires it. The jobs are those of
-- packages/adapter-kit/src/background-jobs.ts that this code enqueues.
pub mod Expiry
use grok_bot_v.Prelude.{
  ℕ, ◌+◌, ◌*◌, max, Bool, true, false, ◌&&◌, Option, none, some, List, ◌∷◌, ◌==◌, ltb, leb,
  has_value, is_some, not, find_where, update_where, count_where, if◌then◌else◌,
}
use grok_bot_v.Store.Blocks.{RowId}
use grok_bot_v.Store.Schema.{Db, Computer, Holder, ReleaseReason}
use grok_bot_v.Store.Tx.{Result, ok, err}
use grok_bot_v.Events.Server.{Server}
use grok_bot_v.Events.Release.{ReleaseInput, Released, finalize_computer_control_release}

abbrev pub default_takeover_lease_ms : ℕ
default_takeover_lease_ms = 15 * 60 * 1000

-- The environment's setting is a number of milliseconds, if it is set to a finite number.
unfoldable pub takeover_lease_ms : Option ℕ → ℕ
takeover_lease_ms none = default_takeover_lease_ms
takeover_lease_ms (some raw) = if leb 1_000 raw then raw else default_takeover_lease_ms

abbrev pub is_user : Holder → Bool
is_user Holder.user = true
is_user _ = false

abbrev pub later_than : Option ℕ → ℕ → Bool
later_than none now = false
later_than (some expires_at) now = ltb now expires_at

unfoldable pub has_active_computer_control : Option Computer → ℕ → Bool
has_active_computer_control none now = false
has_active_computer_control (some c) now =
    is_user c.control_holder
    && is_some c.control_lease_id
    && later_than c.control_lease_expires_at now

pub data Job : Type 0 where
  control_expire : RowId → RowId → ℕ → Job
  run_continue : RowId → Option ℕ → Job

-- The server, and the jobs that were enqueued, the newest first.
pub record World : Type 0 where
  pub server : Server
  pub jobs : List Job

abbrev pub enqueue : Job → World → World
enqueue j w = record w { jobs = j ∷ w.jobs }

abbrev pub schedule_computer_control_expiry : RowId → RowId → ℕ → World → World
schedule_computer_control_expiry computer_id lease_id expires_at w =
    enqueue (control_expire computer_id lease_id expires_at) w

-- A publisher that throws is logged; `accepts` says whether the queue takes the job.
abbrev pub enqueue_takeover_continuation : Bool → Option RowId → World → World
enqueue_takeover_continuation accepts none w = w
enqueue_takeover_continuation true (some run_id) w = enqueue (run_continue run_id none) w
enqueue_takeover_continuation false (some run_id) w = w

unfoldable pub teaching_control_lease_expires_at : Option ℕ → ℕ → ℕ → ℕ
teaching_control_lease_expires_at setting teaching_expires_at now =
    max (now + takeover_lease_ms setting) teaching_expires_at

abbrev pub set_computers : (Computer → Bool) → (Computer → Computer) → World → World
set_computers p f w = record w {
  server = record w.server {
    db = record w.server.db { computers = update_where p f w.server.db.computers };
  };
}

abbrev pub count_computers : (Computer → Bool) → World → ℕ
count_computers p w = count_where p w.server.db.computers

abbrev pub held_by_user : RowId → RowId → RowId → Computer → Bool
held_by_user id bot_id lease_id c =
    c.id == id
    && is_user c.control_holder
    && has_value c.control_bot_id bot_id
    && has_value c.control_lease_id lease_id

abbrev pub extend_held : RowId → RowId → RowId → ℕ → World → Bool × World
extend_held id bot_id lease_id expires_at w =
    let p = held_by_user id bot_id lease_id in
    let w' = set_computers p (λ c. record c { control_lease_expires_at = some expires_at }) w in
    if count_computers p w == 1
    then (true, schedule_computer_control_expiry id lease_id expires_at w')
    else (false, w')

-- The computer is the caller's copy of the row, read before.
unfoldable pub extend_active_computer_control :
    Option ℕ → Computer → RowId → ℕ → ℕ → World → Bool × World
extend_active_computer_control setting computer bot_id until now w =
    if has_active_computer_control (some computer) now && has_value computer.control_bot_id bot_id
    then elim computer.control_lease_id [
      | none ↦ (false, w)
      | some lease_id ↦
          extend_held computer.id bot_id lease_id
            (teaching_control_lease_expires_at setting until now) w
    ]
    else (false, w)

abbrev pub leased_computer : RowId → RowId → Computer → Bool
leased_computer id lease_id c = c.id == id && has_value c.control_lease_id lease_id

abbrev pub take_from_user : Computer → Computer
take_from_user c = record c { control_holder = Holder.none }

abbrev pub expiry_of : Computer → RowId → RowId → ReleaseInput
expiry_of c bot_id lease_id = record {
  workspace_id = c.workspace_id;
  computer_id = c.id;
  bot_id = bot_id;
  run_id = c.control_run_id;
  lease_id = lease_id;
  holder = Holder.none;
  reason = ReleaseReason.expired;
}

abbrev pub continue_released :
    Bool → Result (Option Released) × Server → World → Option Bool × World
continue_released accepts (ok none, s) w =
    (some false, enqueue_takeover_continuation accepts none (record w { server = s }))
continue_released accepts (ok (some r), s) w =
    (some true, enqueue_takeover_continuation accepts r.run_id (record w { server = s }))
continue_released accepts (err e, s) w = (none, record w { server = s })

-- What the provider and the queue do: whether the revocation of the screen returns, and whether the
-- continuation is enqueued.
pub record Outside : Type 0 where
  pub revokes : Bool
  pub accepts : Bool

-- The control is taken in the database before the provider is told; a provider that throws leaves
-- the identifier of the lease in the row.
abbrev pub revoke_control :
    (World → World) → Outside → RowId → Computer → RowId → RowId → World → Option Bool × World
revoke_control between outside event_id c bot_id lease_id w =
    let p = leased_computer c.id lease_id in
    let w₁ = set_computers p take_from_user w in
    if count_computers p w == 1
    then (if is_some c.provider_ref && not outside.revokes
        then (none, w₁)
        else continue_released outside.accepts
            (finalize_computer_control_release event_id (expiry_of c bot_id lease_id)
              (between w₁).server)
            (between w₁))
    else (some false, w₁)

abbrev pub expire_leased :
    (World → World) → Outside → RowId → ℕ → Computer → RowId → RowId → World → Option Bool × World
expire_leased between outside event_id now c bot_id lease_id w = elim c.control_lease_expires_at [
  | none ↦ revoke_control between outside event_id c bot_id lease_id w
  | some expires_at ↦
      if ltb now expires_at
      then (some false, schedule_computer_control_expiry c.id lease_id expires_at w)
      else revoke_control between outside event_id c bot_id lease_id w
]

-- The row that was read holds the lease for a bot.
abbrev pub expire_found :
    (World → World) → Outside → RowId → ℕ → RowId → Computer → World → Option Bool × World
expire_found between outside event_id now lease_id c w =
    if has_value c.control_lease_id lease_id
    then elim c.control_bot_id [
      | none ↦ (some false, w)
      | some bot_id ↦ expire_leased between outside event_id now c bot_id lease_id w
    ]
    else (some false, w)

-- The result is none if the call throws. `between` is what others do before the release.
unfoldable pub expire_computer_control :
    (World → World) → Outside → RowId → ℕ → RowId → RowId → World → Option Bool × World
expire_computer_control between outside event_id now computer_id lease_id w =
    elim (find_where (λ c. c.id == computer_id) w.server.db.computers) [
      | none ↦ (some false, w)
      | some c ↦ expire_found between outside event_id now lease_id c w
    ]

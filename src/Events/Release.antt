-- ===== src/Events/Release.antt =====
-- `finalizeComputerControlRelease` of packages/db/src/events.ts.
use grok_bot_v.Prelude.{Bool, ◌&&◌, Option, none, some, ◌==◌, has_value, opt_eq, if◌then◌else◌}
use grok_bot_v.RunState.{is_status, queued, waiting_takeover}
use grok_bot_v.Store.Blocks.{RowId}
use grok_bot_v.Store.Schema.{
  Run, Computer, Thread, Holder, ReleaseReason, Checkpoint, takeover_released, control_released,
  Bot,
}
use grok_bot_v.Store.Tables.{runs, computers, threads, bots}
use grok_bot_v.Store.Tx.{
  null_unless, Tx, ◌>>=◌, pure, Result, ok, err, find_first, update_many, transaction,
}
use grok_bot_v.History.{append_event_in_transaction}
use grok_bot_v.Events.Server.{Server, Publication, publication, notify_realtime}
use grok_bot_v.Store.Schema.{Db}

-- `holder` is `bot` or `none`.
pub record ReleaseInput : Type 0 where
  pub workspace_id : RowId
  pub computer_id : RowId
  pub bot_id : RowId
  pub run_id : Option RowId
  pub lease_id : RowId
  pub holder : Holder
  pub reason : ReleaseReason

-- The result of the transaction: what to publish, if anything, and the run that resumes.
pub record Released : Type 0 where
  pub notice : Option Publication
  pub run_id : Option RowId

abbrev pub controlled_computer : ReleaseInput → Computer → Bool
controlled_computer input c =
    c.id == input.computer_id
    && c.workspace_id == input.workspace_id
    && has_value c.control_bot_id input.bot_id
    && has_value c.control_lease_id input.lease_id
    && opt_eq c.control_run_id input.run_id

abbrev pub clear_control : Holder → Computer → Computer
clear_control holder c = record c {
  control_holder = holder;
  control_lease_id = none;
  control_lease_expires_at = none;
  control_bot_id = none;
  control_run_id = none;
}

abbrev pub taken_over_run : ReleaseInput → RowId → Run → Bool
taken_over_run input run_id r =
    r.id == run_id
    && r.workspace_id == input.workspace_id
    && r.bot_id == input.bot_id
    && is_status r.status waiting_takeover

abbrev pub release_checkpoint : ReleaseReason → Checkpoint
release_checkpoint ReleaseReason.skipped = Checkpoint.takeover_skipped
release_checkpoint ReleaseReason.expired = Checkpoint.takeover_skipped
release_checkpoint _ = Checkpoint.takeover

abbrev pub resume_from_takeover : ReleaseReason → Run → Run
resume_from_takeover reason r = record r {
  status = queued;
  checkpoint = some (release_checkpoint reason);
}

-- the run that was queued again, if there was one to queue
unfoldable pub resume_run : ReleaseInput → Option RowId → Tx (Option RowId)
resume_run input none = pure none
resume_run input (some run_id) = do
  count ← update_many runs (taken_over_run input run_id) (resume_from_takeover input.reason)
  pure (if count == 1 then some run_id else none)

-- `bot?.thread`: the thread of the bot, if the workspace has the bot
abbrev pub bot_thread : ReleaseInput → Option Bot → Tx (Option Thread)
bot_thread input none = pure none
bot_thread input (some b) = find_first threads (λ t. has_value t.bot_id b.id)

abbrev pub announce_release :
    RowId → ReleaseInput → Option RowId → Option Thread → Tx (Option Released)
announce_release event_id input run_id none =
    pure (some (record { notice = none; run_id = run_id }))
announce_release event_id input run_id (some thread) = do
  event ← append_event_in_transaction event_id (record {
    workspace_id = input.workspace_id;
    thread_id = thread.id;
    bot_id = input.bot_id;
    type = takeover_released;
    payload = control_released input.holder input.lease_id input.reason;
    run_id = run_id;
  })
  pure (some (record { notice = some (publication event); run_id = run_id }))

unfoldable pub record_release : RowId → ReleaseInput → Tx (Option Released)
record_release event_id input = do
  run_id ← resume_run input input.run_id
  b ← find_first bots (λ b. b.id == input.bot_id && b.workspace_id == input.workspace_id)
  thread ← bot_thread input b
  announce_release event_id input run_id thread

unfoldable pub release_in_transaction : RowId → ReleaseInput → Tx (Option Released)
release_in_transaction event_id input = do
  count ← update_many computers (controlled_computer input) (clear_control input.holder)
  null_unless (count == 1) (record_release event_id input)

abbrev pub publish_notice : Option Publication → Server → Server
publish_notice none s = s
publish_notice (some p) s = notify_realtime p s

abbrev pub after_release :
    Result (Option Released) × Db → Server → Result (Option Released) × Server
after_release (ok none, db) s = (ok none, record s { db = db })
after_release (ok (some r), db) s = (ok (some r), publish_notice r.notice (record s { db = db }))
after_release (err e, db) s = (err e, record s { db = db })

unfoldable pub finalize_computer_control_release :
    RowId → ReleaseInput → Server → Result (Option Released) × Server
finalize_computer_control_release event_id input s =
    after_release (transaction (release_in_transaction event_id input) s.db) s

-- ===== src/Computers/Leases/Exclusive.antt =====
-- A lease of a computer that has not run out keeps other runs of the bot away.
use grok_bot_v.Prelude.{Bool, ◌&&◌, ◌==◌}
use grok_bot_v.Store.Schema.{ExecutionLease}

-- the unique index `[computerId, botId]` of two rows
abbrev pub same_place : ExecutionLease → ExecutionLease → Bool
same_place a b = b.computer_id == a.computer_id && b.bot_id == a.bot_id

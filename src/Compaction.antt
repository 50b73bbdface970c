-- ===== src/Compaction.antt =====
-- packages/adapters/src/history-compaction.ts: the summary that stands for the old messages of a
-- thread. A job reads the thread and a batch of messages (Plan), has a model summarise them
-- (Transcripts), and advances the thread's cursor if no one else has moved it meanwhile (Job). A run
-- reads the summary and the messages after it (Select).
pub mod Plan
pub mod Transcripts
pub mod Job
pub mod Budget
pub mod Cover
pub mod Race
pub mod Origin
pub mod Advance
pub mod Cleared
pub mod Select

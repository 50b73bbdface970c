-- ===== src/Client.antt =====
-- packages/core/src: what the clients compute from the messages, the runs and the bots that they
-- have loaded.
pub mod Pages
pub mod Sections
pub mod Asks

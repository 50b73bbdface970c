-- ===== src/Computers.antt =====
-- packages/adapters/src: the leases under which a run uses a computer, and the claims of the runs
-- themselves.
pub mod Leases
pub mod Claims
pub mod Control
pub mod Effects

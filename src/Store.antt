-- ===== src/Store.antt =====
-- packages/db: the rows of the database (prisma/schema.prisma) that the modelled code reads and
-- writes, transactions on them, and what a transaction leaves outside the database.
pub mod Blocks
pub mod Schema
pub mod Tables
pub mod Tx

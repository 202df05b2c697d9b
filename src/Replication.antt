-- ===== src/Replication.antt =====
-- partition/src/replication_step.cpp: hot nodes get further pages, which they share with nodes that
-- often stand in an edge with them. main is in Assemble, what it calls and its loops in the others.
pub mod Csr
pub mod Scores
pub mod Select
pub mod Assemble
pub mod Chain
mod Tests

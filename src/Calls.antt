-- ===== src/Calls.antt =====
-- The life of a call record: the states of packages/contracts/review.py, the transitions of
-- packages/review/state_machine.py and the repository of packages/database/repository.py.
pub mod State
pub mod Paths
pub mod Tables
pub mod Repository
pub mod Timeline
pub mod Consistency
pub mod Restart
pub mod Outputs
mod Examples
pub mod Stored
pub mod Ingestion
pub mod Final
pub mod Steps
pub mod Sequences
pub mod Machine
pub mod Refinement

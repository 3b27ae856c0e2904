-- ===== src/Operations.antt =====
-- `LocalOperationsRepository` of packages/database/local_operations.py: the configuration of the
-- firm, and the retention of local content.
pub mod Contracts
pub mod Configuration
pub mod Tables
pub mod Audit
pub mod Evaluation
pub mod ObjectId
pub mod Media
pub mod Destruction
pub mod Execution
pub mod Runs
pub mod Soundness
mod Standing
mod Steps
mod Frames
mod Rounds
mod Growth
mod Scheduling
mod Coverage
mod Retention
mod Sequences
pub mod Publishing
mod Versions
mod Absence
mod Outcomes
mod Orphans
mod Closure
mod History
mod Finality
mod Progress
mod Termination
mod Roles
mod Samples
mod Examples

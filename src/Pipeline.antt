-- ===== src/Pipeline.antt =====
-- packages/review/pipeline.py with the adapters of packages/review/fixtures.py.
pub mod Scripts
pub mod Fixtures
pub mod Attempts
mod Progress
mod Rounds
mod Runs
mod Numbers
mod Termination
mod Examples
mod Outputs
mod Storing
mod Backing

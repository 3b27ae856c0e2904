-- ===== src/Reporting.antt =====
-- Daily reports: packages/review/reporting.py, packages/contracts/report.py and the snapshots of
-- packages/database/review_experience.py.
pub mod Contracts
pub mod Texts
pub mod Sections
pub mod Aggregate
pub mod Counting
pub mod Arrangement
pub mod Totals
pub mod Reconciliation
pub mod Ranking
pub mod Order
pub mod Inputs
pub mod Snapshots
pub mod Newest
pub mod Regeneration
mod Examples

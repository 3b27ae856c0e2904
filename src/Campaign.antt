-- ===== src/Campaign.antt =====
-- The accounting of a campaign of provider calls: scripts/p1/campaign.py.
pub mod Debit
pub mod Length
pub mod Ledger
pub mod Journal
pub mod Replay
pub mod Accounts
pub mod Admission
pub mod Transitions
mod Examples

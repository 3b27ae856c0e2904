-- ===== src/Uploads.antt =====
-- Manual uploads: packages/database/manual_uploads.py and packages/contracts/manual_upload.py.
pub mod Contracts
pub mod Texts
pub mod Receipts
pub mod Repository
pub mod Submissions
pub mod Paths
pub mod Histories
pub mod Lifecycle
pub mod Creation
pub mod Sequences
pub mod Exclusion
pub mod Content
mod Examples

-- ===== src/Contracts.antt =====
-- The contracts that the parts of the application exchange: packages/contracts/review.py.
pub mod Events
pub mod Analysis
pub mod Validators
pub mod Samples

-- ===== src/State.antt =====
-- state.py: the rows of the store's tables. The methods are in the children: `State.Findings`,
-- `State.Pending` and `State.Audit`.
pub mod Findings
pub mod Pending
pub mod Audit
pub mod Listing

-- ===== src/Reason.antt =====
-- src/steadystate/reason: from drifts, violated rules and symptoms to alerts.
pub mod Alert
pub mod Report
pub mod Correlate
pub mod Group
pub mod Pipeline
pub mod Run

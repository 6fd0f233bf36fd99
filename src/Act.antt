-- ===== src/Act.antt =====
-- The act side of the program (src/steadystate/act): what may run, who lets it run, what ran.
pub mod Bounds
pub mod Kubectl
pub mod Catalog
pub mod Workflow
pub mod Host
pub mod Execute
pub mod Approve
pub mod Runs
pub mod Decide
pub mod Reflex
pub mod Plan
pub mod Cleanup
pub mod Runbook
pub mod Authoring
pub mod Solutions
pub mod Learn

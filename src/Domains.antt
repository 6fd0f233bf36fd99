-- ===== src/Domains.antt =====
-- The domain packs that score a drift (src/steadystate/domains): the properties they read, and what they
-- share.
pub mod Properties
pub mod Aws
pub mod Gcp
pub mod Azure
pub mod Flagged
